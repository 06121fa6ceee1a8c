-- ===== src/Rdp/Native/Session/Due.antt =====
-- The sessions that a clean-up still has to end, and the row of a session that has been ended.
use turjmp.Prelude.{
  ℕ, ◌≡◌, refl, sym, ap, ◌∙◌, ◌≢◌, inl, inr, Bool, true, false, not, ◌&&◌, some, List, [], ◌∷◌,
  arith, ◌==◌, Bool-cases, find?, All, ◌∈◌, Text, codes, text_eq,
}
use turjmp.Domain.{Session}
use turjmp.Store.Sessions.{finish_row, is_active_like}
use turjmp.Rdp.Native.Session.{is_native}
use mathlib.Core.List.{map}

abbrev pub ids : List Session → List ℕ
ids rows = map (λ row. row.id) rows

-- A session that the clean-up has to end.
abbrev pub is_due : Session → Bool
is_due row = is_active_like (codes "rdp") (codes "rdp_client") row && text_eq row.kind (codes "rdp")

-- The row that an id finds is such a session.
abbrev pub IsDueAt : List Session → ℕ → Type 0
IsDueAt rows id =
    (row : Session) × ((find? (λ r. r.id == id) rows ≡ some row) × (is_due row ≡ true))

-- Every row to be ended has an id of the list.
abbrev pub Covered : List Session → List ℕ → Type 0
Covered rows is = (row : Session) → row ∈ rows → is_due row ≡ true → row.id ∈ is

pub due_open :
    (row : Session) → is_due row ≡ true → (is_native row ≡ true) × (row.is_finished ≡ false)
unfolding is_active_like is_native
due_open row h = ground (arith, h)

-- The first row with the id is still open, so that it is the row that the UPDATE ends.
pub find-open :
    (id : ℕ) (rows : List Session) (row : Session)
    → find? (λ r. r.id == id) rows ≡ some row
    → row.is_finished ≡ false
    → find? (λ r. r.id == id && not r.is_finished) rows ≡ some row
find-open id [] row h o = absurd (cc h)
find-open id (r ∷ rows) row h o = elim (Bool-cases (r.id == id)) [
  | inl e ↦ ground (arith, e, h, o)
  | inr e ↦ ground (arith, e, h, find-open id rows row (ground (arith, e, h)) o)
]

pub finish_row-id :
    (now id : ℕ) (path : Text) (row : Session) → (finish_row now id path row).id ≡ row.id
unfolding finish_row
finish_row-id now id path row = ground arith

finish_row-other :
    (now id : ℕ) (path : Text) (row : Session)
    → (row.id == id) ≡ false
    → finish_row now id path row ≡ row
unfolding finish_row
finish_row-other now id path row h = ground (arith, h)

finish_row-due :
    (now id : ℕ) (path : Text) (row : Session)
    → is_due (finish_row now id path row) ≡ true
    → (row.id ≢ id) × (is_due row ≡ true)
unfolding finish_row is_active_like
finish_row-due now id path row h = elim (Bool-cases (row.id == id)) [
  | inl e ↦ elim (Bool-cases row.is_finished) [
    | inl f ↦ absurd (ground (arith, e, f, h))
    | inr f ↦ absurd (ground (arith, e, f, h))
  ]
  | inr e ↦ (λ q. absurd (ground (arith, e, q)), ground (arith, e, h))
]

find-finish_other :
    (now id other : ℕ) (path : Text) (rows : List Session) (row : Session)
    → other ≢ id
    → find? (λ r. r.id == other) rows ≡ some row
    → find? (λ r. r.id == other) (map (finish_row now id path) rows) ≡ some row
find-finish_other now id other path [] row n h = absurd (cc h)
find-finish_other now id other path (r ∷ rows) row n h = elim (Bool-cases (r.id == other)) [
  | inl e ↦ ground (arith, e, h, n, finish_row-other now id path r (ground (arith, e, n)))
  | inr e ↦ ground (
    arith,
    e,
    h,
    finish_row-id now id path r,
    find-finish_other now id other path rows row n (ground (arith, e, h)),
  )
]

map-∈ :
    (f : Session → Session) (x : Session) (rows : List Session)
    → x ∈ map f rows
    → (row : Session) × ((row ∈ rows) × (x ≡ f row))
map-∈ f x [] m = absurd m
map-∈ f x (r ∷ rows) (inl e) = (r, (inl refl, e))
map-∈ f x (r ∷ rows) (inr m) = let (row, (n, e)) = map-∈ f x rows m in (row, (inr n, e))

∈-tail : (i j : ℕ) (is : List ℕ) → j ∈ (i ∷ is) → j ≢ i → j ∈ is
∈-tail i j is (inl e) n = absurd (n e)
∈-tail i j is (inr m) n = m

-- One round: the rows after it are covered by the ids that are left.
pub Covered-finish :
    (now id : ℕ) (rows : List Session) (is : List ℕ)
    → Covered rows (id ∷ is)
    → Covered (map (finish_row now id []) rows) is
Covered-finish now id rows is h row m d =
    let (before, (n, e)) = map-∈ (finish_row now id []) row rows m in
    let (other, due) = finish_row-due now id [] before (rw (sym e) d) in
    let same : row.id ≡ before.id = ap (λ (r : Session). r.id) e ∙ finish_row-id now id [] before in
    rw same (∈-tail id before.id is (h before n due) other)

pub IsDueAt-finish :
    (now id : ℕ) (rows : List Session) (is : List ℕ)
    → ¬ (id ∈ is)
    → All (IsDueAt rows) is
    → All (IsDueAt (map (finish_row now id []) rows)) is
IsDueAt-finish now id rows [] n h = tt
IsDueAt-finish now id rows (i ∷ is) n ((row, (f, d)), h) = (
  (row, (find-finish_other now id i [] rows row (λ e. n (inl (sym e))) f, d)),
  IsDueAt-finish now id rows is (λ m. n (inr m)) h,
)
