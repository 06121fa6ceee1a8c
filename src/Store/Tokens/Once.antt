-- ===== src/Store/Tokens/Once.antt =====
-- The life of a connection token in the store, whatever the order of the writes.
use turjmp.Prelude.{
  ℕ, ◌≡◌, refl, sym, ap, ◌∙◌, inl, inr, Bool, true, false, not, ◌||◌, none, some, List, [], ◌∷◌,
  ◌++◌, arith, Bool-cases, Option-cases, any, all, find?, any-append, all-append, Text, text_eq,
  text_eq→eq,
}
use turjmp.Domain.{Error, ok, err, found, ConnectionToken}
use turjmp.Store.{Store}
use turjmp.Store.Tokens.{
  new_row, create_connection_token, get_connection_token, is_consumable, use_row, returned_row,
  consume_connection_token,
}
use mathlib.Core.List.{map}

unfoldable pub is_named : Text → ConnectionToken → Bool
is_named value row = text_eq row.value value

unfoldable pub is_used : ConnectionToken → Bool
is_used row = elim row.used_at [ none ↦ false | some u ↦ true ]

-- No two rows have the same value.
unfoldable pub IsUnique : List ConnectionToken → Type 0
unfolding is_named
IsUnique [] = Unit {0}
IsUnique (row ∷ rows) = (any (is_named row.value) rows ≡ false) × IsUnique rows

-- There is a row with this value, and each such row is used.
unfoldable pub IsSpent : Text → List ConnectionToken → Type 0
unfolding is_named is_used
IsSpent value rows =
    (any (is_named value) rows ≡ true)
    × (all (λ row. not (is_named value row) || is_used row) rows ≡ true)

-- The writes of the token table, and any write elsewhere.
pub data Step : Store → Store → Type 0 where
  create_step : (s : Store) (t : ConnectionToken) → Step s ((create_connection_token s t).0)
  consume_step :
      (s : Store) (now : ℕ) (value : Text) → Step s ((consume_connection_token s now value).0)
  other_step : (s t : Store) → t.connection_tokens ≡ s.connection_tokens → Step s t

pub data Steps : Store → Store → Type 0 where
  stay : (s : Store) → Steps s s
  next : (s t u : Store) → Step s t → Steps t u → Steps s u

value-use_row :
    (now : ℕ) (value : Text) (row : ConnectionToken) → (use_row now value row).value ≡ row.value
unfolding use_row
value-use_row now value row = ground arith

any_named-map :
    (now : ℕ) (value v : Text) (rows : List ConnectionToken)
    → any (is_named v) (map (use_row now value) rows) ≡ any (is_named v) rows
unfolding is_named
any_named-map now value v [] = refl
any_named-map now value v (row ∷ rows) =
    rw (value-use_row now value row, any_named-map now value v rows) refl

IsUnique-map :
    (now : ℕ) (value : Text) (rows : List ConnectionToken)
    → IsUnique rows
    → IsUnique (map (use_row now value) rows)
unfolding IsUnique
IsUnique-map now value [] h = h
IsUnique-map now value (row ∷ rows) (h, hs) = (
  rw (value-use_row now value row, any_named-map now value row.value rows) h,
  IsUnique-map now value rows hs,
)

text_eq_sym : (s t : Text) → text_eq s t ≡ text_eq t s
unfolding text_eq
text_eq_sym [] [] = refl
text_eq_sym [] (d ∷ t) = refl
text_eq_sym (c ∷ s) [] = refl
text_eq_sym (c ∷ s) (d ∷ t) = ground (arith, text_eq_sym s t)

IsUnique-append :
    (rows : List ConnectionToken) (t : ConnectionToken)
    → any (is_named t.value) rows ≡ false
    → IsUnique rows
    → IsUnique (rows ++ t ∷ [])
unfolding IsUnique is_named
IsUnique-append [] t h u = (refl, tt)
IsUnique-append (row ∷ rows) t h (u, us) = (
  any-append (is_named row.value) rows t ∙ ground (arith, u, h, text_eq_sym row.value t.value),
  IsUnique-append rows t (ground (arith, h)) us,
)

-- Every write keeps the values of the tokens distinct.
pub Step-IsUnique :
    (s t : Store) → Step s t → IsUnique s.connection_tokens → IsUnique t.connection_tokens
unfolding create_connection_token consume_connection_token is_named
Step-IsUnique _ _ (Step.create_step s token) u =
    elim (Bool-cases (any (is_named token.value) s.connection_tokens)) [
      | inl e ↦ rw e u
      | inr e ↦ rw e (IsUnique-append s.connection_tokens (new_row s token) e u)
    ]
Step-IsUnique _ _ (Step.consume_step s now value) u = IsUnique-map now value s.connection_tokens u
Step-IsUnique _ _ (Step.other_step s t e) u = rw e u

abbrev is_spent_row : Text → ConnectionToken → Bool
is_spent_row v row = not (is_named v row) || is_used row

spent-use_row :
    (now : ℕ) (value v : Text) (row : ConnectionToken)
    → is_spent_row v row ≡ true
    → is_spent_row v (use_row now value row) ≡ true
unfolding use_row is_named is_used
spent-use_row now value v row h = elim (Bool-cases (is_consumable now value row)) [
  | inl e ↦ ground (arith, e)
  | inr e ↦ rw e h
]

all_spent-map :
    (now : ℕ) (value v : Text) (rows : List ConnectionToken)
    → all (is_spent_row v) rows ≡ true
    → all (is_spent_row v) (map (use_row now value) rows) ≡ true
all_spent-map now value v [] h = refl
all_spent-map now value v (row ∷ rows) h =
    ground (arith, h, spent-use_row now value v row, all_spent-map now value v rows)

named_same :
    (v w : Text) (rows : List ConnectionToken)
    → text_eq v w ≡ true
    → any (is_named v) rows ≡ any (is_named w) rows
named_same v w rows h = rw (text_eq→eq v w h) refl

IsSpent-append :
    (v : Text) (rows : List ConnectionToken) (t : ConnectionToken)
    → any (is_named t.value) rows ≡ false
    → IsSpent v rows
    → IsSpent v (rows ++ t ∷ [])
unfolding IsSpent is_named
IsSpent-append v rows t new (known, spent) =
    let other : text_eq t.value v ≡ false = ground (arith, new, known, named_same t.value v rows) in
    (
      any-append (is_named v) rows t ∙ ground (arith, known),
      all-append (is_spent_row v) rows t ∙ ground (arith, spent, other),
    )

-- A used token stays used.
pub Step-IsSpent :
    (s t : Store) (v : Text)
    → Step s t
    → IsSpent v s.connection_tokens
    → IsSpent v t.connection_tokens
unfolding create_connection_token consume_connection_token IsSpent is_named
Step-IsSpent _ _ v (Step.create_step s token) h =
    elim (Bool-cases (any (is_named token.value) s.connection_tokens)) [
      | inl e ↦ rw e h
      | inr e ↦ rw e (IsSpent-append v s.connection_tokens (new_row s token) e h)
    ]
Step-IsSpent _ _ v (Step.consume_step s now value) (known, spent) = (
  any_named-map now value v s.connection_tokens ∙ known,
  all_spent-map now value v s.connection_tokens spent,
)
Step-IsSpent _ _ v (Step.other_step s t e) h = rw e h

pub Steps-IsSpent :
    (s t : Store) (v : Text)
    → Steps s t
    → IsSpent v s.connection_tokens
    → IsSpent v t.connection_tokens
Steps-IsSpent _ _ v (Steps.stay s) h = h
Steps-IsSpent _ _ v (Steps.next s t u step steps) h =
    Steps-IsSpent t u v steps (Step-IsSpent s t v step h)

-- No row of the value: nothing to use.
unnamed_spent :
    (v : Text) (rows : List ConnectionToken)
    → any (is_named v) rows ≡ false
    → all (is_spent_row v) rows ≡ true
unnamed_spent v [] h = refl
unnamed_spent v (row ∷ rows) h = ground (arith, h, unnamed_spent v rows)

use_row-used :
    (now : ℕ) (v : Text) (r : ConnectionToken)
    → is_consumable now v r ≡ true
    → (is_named v (use_row now v r) ≡ true) × (is_used (use_row now v r) ≡ true)
unfolding is_consumable use_row is_named is_used
use_row-used now v r e = ground (arith, e)

is_consumable-named :
    (now : ℕ) (v : Text) (r : ConnectionToken)
    → is_consumable now v r ≡ true
    → text_eq r.value v ≡ true
unfolding is_consumable
is_consumable-named now v r e = ground (arith, e)

use_row-kept :
    (now : ℕ) (v : Text) (r : ConnectionToken) → is_consumable now v r ≡ false → use_row now v r ≡ r
unfolding use_row
use_row-kept now v r e = ground (arith, e)

use-spends :
    (now : ℕ) (v : Text) (rows : List ConnectionToken) (row : ConnectionToken)
    → IsUnique rows
    → find? (is_consumable now v) rows ≡ some row
    → IsSpent v (map (use_row now v) rows)
unfolding IsUnique IsSpent
use-spends now v [] row u h = absurd (cc h)
use-spends now v (r ∷ rows) row (u, us) h = elim (Bool-cases (is_consumable now v r)) [
  | inl e ↦
      let (named, used) = use_row-used now v r e in
      let rest = all_spent-map now v v rows (
        unnamed_spent v rows
          (sym (named_same r.value v rows (is_consumable-named now v r e)) ∙ u)) in
      ground (arith, named, used, rest)
  | inr e ↦
      let (known, spent) = use-spends now v rows row us (ground (arith, h, e)) in
      let present : any (is_named v) rows ≡ true = sym (any_named-map now v v rows) ∙ known in
      let other : is_named v r ≡ false =
        unfold is_named in ground (arith, u, present, named_same r.value v rows) in
      rw (use_row-kept now v r e) (ground (arith, known, spent, other))
]

-- An UPDATE that returns a row leaves every row of the value used.
pub consume-IsSpent :
    (s : Store) (now : ℕ) (v : Text) (row : ConnectionToken)
    → IsUnique s.connection_tokens
    → (consume_connection_token s now v).1 ≡ ok row
    → IsSpent v ((consume_connection_token s now v).0).connection_tokens
unfolding consume_connection_token returned_row
consume-IsSpent s now v row u h =
    elim (Option-cases (find? (is_consumable now v) s.connection_tokens)) [
      | inl e ↦ absurd (ground (arith, e, h))
      | inr (r, e) ↦ use-spends now v s.connection_tokens r u e
    ]

spent-none :
    (now : ℕ) (v : Text) (rows : List ConnectionToken)
    → all (is_spent_row v) rows ≡ true
    → find? (is_consumable now v) rows ≡ none
unfolding is_consumable is_named is_used
spent-none now v [] h = refl
spent-none now v (r ∷ rows) h = elim (Option-cases r.used_at) [
  | inl e ↦ ground (arith, e, h, spent-none now v rows)
  | inr (u, e) ↦ ground (arith, e, h, spent-none now v rows)
]

pub IsSpent-consume :
    (s : Store) (now : ℕ) (v : Text)
    → IsSpent v s.connection_tokens
    → (consume_connection_token s now v).1 ≡ err Error.not_found
unfolding consume_connection_token returned_row IsSpent
IsSpent-consume s now v (known, spent) = rw (spent-none now v s.connection_tokens spent) refl

found-used :
    (v : Text) (rows : List ConnectionToken) (row : ConnectionToken)
    → all (is_spent_row v) rows ≡ true
    → find? (λ r. text_eq r.value v) rows ≡ some row
    → is_used row ≡ true
unfolding is_named is_used
found-used v [] row h e = absurd (cc e)
found-used v (r ∷ rows) row h e = elim (Bool-cases (text_eq r.value v)) [
  | inl n ↦ ground (arith, n, h, e)
  | inr n ↦ found-used v rows row (ground (arith, h)) (ground (arith, e, n))
]

known-found :
    (v : Text) (rows : List ConnectionToken)
    → any (is_named v) rows ≡ true
    → (row : ConnectionToken) × (find? (λ r. text_eq r.value v) rows ≡ some row)
unfolding is_named
known-found v [] h = absurd (cc h)
known-found v (r ∷ rows) h = elim (Bool-cases (text_eq r.value v)) [
  | inl e ↦ (r, rw e refl)
  | inr e ↦ let (row, f) = known-found v rows (ground (arith, e, h)) in (row, rw e f)
]

-- A spent token is still known, and known to be used.
pub IsSpent-known :
    (s : Store) (v : Text)
    → IsSpent v s.connection_tokens
    → (row : ConnectionToken) × ((get_connection_token s v ≡ ok row) × (is_used row ≡ true))
unfolding get_connection_token IsSpent
IsSpent-known s v (known, spent) =
    let (row, e) = known-found v s.connection_tokens known in
    (row, (ap found e, found-used v s.connection_tokens row spent e))
