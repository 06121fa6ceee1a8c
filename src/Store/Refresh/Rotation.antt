-- ===== src/Store/Refresh/Rotation.antt =====
-- The life of a refresh token in the store, whatever the order of the writes.
use turjmp.Prelude.{
  ℕ, ◌≡◌, refl, sym, ap, ◌∙◌, inl, inr, Bool, true, false, not, ◌||◌, none, some, List, [], ◌∷◌,
  ◌++◌, arith, Bool-cases, Option-cases, any, all, find?, any-append, all-append, Text, text_eq,
  text_eq→eq, text_eq_refl,
}
use turjmp.Domain.{ok, RefreshToken}
use turjmp.Store.{Store}
use turjmp.Store.Refresh.{
  create_refresh_token, get_refresh_token_by_hash, is_live, revoke_row, revoke_refresh_token,
  revoke_user_refresh_tokens,
}
use mathlib.Core.List.{map}

unfoldable pub has_hash : Text → RefreshToken → Bool
has_hash h row = text_eq row.token_hash h

unfoldable pub IsUniqueHash : List RefreshToken → Type 0
unfolding has_hash
IsUniqueHash [] = Unit {0}
IsUniqueHash (row ∷ rows) = (any (has_hash row.token_hash) rows ≡ false) × IsUniqueHash rows

abbrev is_dead_row : Text → RefreshToken → Bool
is_dead_row h row = not (has_hash h row) || not (is_live row)

-- There is a row with this hash, and each such row is revoked.
unfoldable pub IsRevoked : Text → List RefreshToken → Type 0
unfolding has_hash
IsRevoked h rows = (any (has_hash h) rows ≡ true) × (all (is_dead_row h) rows ≡ true)

-- The writes of the table of refresh tokens, and any write elsewhere.
pub data RefreshStep : Store → Store → Type 0 where
  create : (s : Store) (t : RefreshToken) → RefreshStep s ((create_refresh_token s t).0)
  revoke : (s : Store) (now : ℕ) (id : Text) → RefreshStep s ((revoke_refresh_token s now id).0)
  revoke_user :
      (s : Store) (now user_id : ℕ) → RefreshStep s (revoke_user_refresh_tokens s now user_id)
  elsewhere : (s t : Store) → t.refresh_tokens ≡ s.refresh_tokens → RefreshStep s t

pub data RefreshSteps : Store → Store → Type 0 where
  stay : (s : Store) → RefreshSteps s s
  next : (s t u : Store) → RefreshStep s t → RefreshSteps t u → RefreshSteps s u

hash-revoke_row :
    (now : ℕ) (p : RefreshToken → Bool) (h : Text) (row : RefreshToken)
    → has_hash h (revoke_row now p row) ≡ has_hash h row
unfolding revoke_row has_hash
hash-revoke_row now p h row = ground arith

any_hash-map :
    (now : ℕ) (p : RefreshToken → Bool) (h : Text) (rows : List RefreshToken)
    → any (has_hash h) (map (revoke_row now p) rows) ≡ any (has_hash h) rows
any_hash-map now p h [] = refl
any_hash-map now p h (row ∷ rows) =
    ground (arith, hash-revoke_row now p h row, any_hash-map now p h rows)

live-revoke_row :
    (now : ℕ) (p : RefreshToken → Bool) (row : RefreshToken)
    → is_live row ≡ false
    → is_live (revoke_row now p row) ≡ false
unfolding revoke_row is_live
live-revoke_row now p row h = ground (arith, h)

all_dead-map :
    (now : ℕ) (p : RefreshToken → Bool) (h : Text) (rows : List RefreshToken)
    → all (is_dead_row h) rows ≡ true
    → all (is_dead_row h) (map (revoke_row now p) rows) ≡ true
all_dead-map now p h [] e = refl
all_dead-map now p h (row ∷ rows) e =
    ground
      (arith, e, hash-revoke_row now p h row, live-revoke_row now p row, all_dead-map now p h rows)

unhashed-dead :
    (h : Text) (rows : List RefreshToken)
    → any (has_hash h) rows ≡ false
    → all (is_dead_row h) rows ≡ true
unhashed-dead h [] e = refl
unhashed-dead h (row ∷ rows) e = ground (arith, e, unhashed-dead h rows)

same_hash :
    (g h : Text) (rows : List RefreshToken)
    → text_eq g h ≡ true
    → any (has_hash g) rows ≡ any (has_hash h) rows
same_hash g h rows e = rw (text_eq→eq g h e) refl

no_hash :
    (t : RefreshToken) (rows : List RefreshToken)
    → any (λ row. text_eq row.id t.id || text_eq row.token_hash t.token_hash) rows ≡ false
    → any (has_hash t.token_hash) rows ≡ false
unfolding has_hash
no_hash t [] e = refl
no_hash t (row ∷ rows) e = ground (arith, e, no_hash t rows)

IsRevoked-append :
    (h : Text) (rows : List RefreshToken) (t : RefreshToken)
    → any (λ row. text_eq row.id t.id || text_eq row.token_hash t.token_hash) rows ≡ false
    → IsRevoked h rows
    → IsRevoked h (rows ++ t ∷ [])
unfolding IsRevoked
IsRevoked-append h rows t new (known, dead) =
    let other : has_hash h t ≡ false =
      unfold has_hash in ground (arith, known, no_hash t rows new, same_hash t.token_hash h rows) in
    (
      any-append (has_hash h) rows t ∙ ground (arith, known),
      all-append (is_dead_row h) rows t ∙ ground (arith, dead, other),
    )

pub RefreshStep-IsRevoked :
    (s t : Store) (h : Text)
    → RefreshStep s t
    → IsRevoked h s.refresh_tokens
    → IsRevoked h t.refresh_tokens
unfolding create_refresh_token revoke_refresh_token revoke_user_refresh_tokens IsRevoked
RefreshStep-IsRevoked _ _ h (RefreshStep.create s t) r =
    elim (Bool-cases
      (any (λ row. text_eq row.id t.id || text_eq row.token_hash t.token_hash) s.refresh_tokens)) [
        | inl e ↦ rw e r
        | inr e ↦ rw e (IsRevoked-append h s.refresh_tokens t e r)
      ]
RefreshStep-IsRevoked _ _ h (RefreshStep.revoke s now id) (known, dead) =
    (any_hash-map now _ h s.refresh_tokens ∙ known, all_dead-map now _ h s.refresh_tokens dead)
RefreshStep-IsRevoked _ _ h (RefreshStep.revoke_user s now user_id) (known, dead) =
    (any_hash-map now _ h s.refresh_tokens ∙ known, all_dead-map now _ h s.refresh_tokens dead)
RefreshStep-IsRevoked _ _ h (RefreshStep.elsewhere s t e) r = rw e r

pub RefreshSteps-IsRevoked :
    (s t : Store) (h : Text)
    → RefreshSteps s t
    → IsRevoked h s.refresh_tokens
    → IsRevoked h t.refresh_tokens
RefreshSteps-IsRevoked _ _ h (RefreshSteps.stay s) r = r
RefreshSteps-IsRevoked _ _ h (RefreshSteps.next s t u step steps) r =
    RefreshSteps-IsRevoked t u h steps (RefreshStep-IsRevoked s t h step r)

revoked_row :
    (now : ℕ) (p : RefreshToken → Bool) (row : RefreshToken)
    → p row ≡ true
    → is_live (revoke_row now p row) ≡ false
unfolding revoke_row is_live
revoked_row now p row e = elim (Option-cases row.revoked_at) [
  | inl f ↦ ground (arith, e, f)
  | inr (at, f) ↦ ground (arith, e, f)
]

same_id : (r stored : RefreshToken) → some r ≡ some stored → text_eq r.id stored.id ≡ true
same_id r stored e =
    sym (ap (λ o. text_eq r.id (elim o [ some x ↦ x.id | none ↦ r.id ])) e) ∙ text_eq_refl r.id

revoke-dead :
    (now : ℕ) (h : Text) (rows : List RefreshToken) (stored : RefreshToken)
    → IsUniqueHash rows
    → find? (λ row. text_eq row.token_hash h) rows ≡ some stored
    → IsRevoked h (map (revoke_row now (λ row. text_eq row.id stored.id)) rows)
unfolding IsUniqueHash IsRevoked
revoke-dead now h [] stored u e = absurd (cc e)
revoke-dead now h (r ∷ rows) stored (u, us) e = elim (Bool-cases (text_eq r.token_hash h)) [
  | inl f ↦
      let dead =
        revoked_row now (λ row. text_eq row.id stored.id) r
          (same_id r stored (ground (arith, e, f))) in
      let others =
        all_dead-map now (λ row. text_eq row.id stored.id) h rows
          (unhashed-dead h rows (sym (same_hash r.token_hash h rows f) ∙ u)) in
      let named : has_hash h (revoke_row now (λ row. text_eq row.id stored.id) r) ≡ true =
        hash-revoke_row now _ h r ∙ (unfold has_hash in f) in
      ground (arith, named, dead, others)
  | inr f ↦
      let (known, dead) = revoke-dead now h rows stored us (ground (arith, e, f)) in
      let other : has_hash h (revoke_row now (λ row. text_eq row.id stored.id) r) ≡ false =
        hash-revoke_row now _ h r ∙ (unfold has_hash in f) in
      ground (arith, known, dead, other)
]

-- Revoking the token that a hash finds leaves every token of the hash revoked.
pub revoke-IsRevoked :
    (s : Store) (now : ℕ) (h : Text) (stored : RefreshToken)
    → IsUniqueHash s.refresh_tokens
    → get_refresh_token_by_hash s h ≡ ok stored
    → IsRevoked h ((revoke_refresh_token s now stored.id).0).refresh_tokens
unfolding get_refresh_token_by_hash revoke_refresh_token
revoke-IsRevoked s now h stored u e =
    elim (Option-cases (find? (λ row. text_eq row.token_hash h) s.refresh_tokens)) [
      | inl f ↦ absurd (ground (arith, e, f))
      | inr (row, f) ↦ revoke-dead now h s.refresh_tokens stored u (ground (arith, e, f))
    ]

found-dead :
    (h : Text) (rows : List RefreshToken) (row : RefreshToken)
    → all (is_dead_row h) rows ≡ true
    → find? (λ r. text_eq r.token_hash h) rows ≡ some row
    → is_live row ≡ false
unfolding has_hash
found-dead h [] row d e = absurd (cc e)
found-dead h (r ∷ rows) row d e = elim (Bool-cases (text_eq r.token_hash h)) [
  | inl n ↦ ground (arith, n, d, e)
  | inr n ↦ found-dead h rows row (ground (arith, d)) (ground (arith, e, n))
]

pub IsRevoked-get :
    (s : Store) (h : Text) (row : RefreshToken)
    → IsRevoked h s.refresh_tokens
    → get_refresh_token_by_hash s h ≡ ok row
    → is_live row ≡ false
unfolding get_refresh_token_by_hash IsRevoked
IsRevoked-get s h row (known, dead) e =
    elim (Option-cases (find? (λ r. text_eq r.token_hash h) s.refresh_tokens)) [
      | inl f ↦ absurd (ground (arith, e, f))
      | inr (r, f) ↦ ground (arith, e, f, found-dead h s.refresh_tokens r dead)
    ]
