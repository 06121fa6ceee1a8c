-- ===== src/Store/Sessions/Ids.antt =====
-- The order that ListActiveNativeRDPSessionIDs puts the ids in.
use turjmp.Prelude.{
  ℕ, ◌≡◌, sym, ◌⊎◌, inl, inr, Bool, true, false, List, [], ◌∷◌, leb, if◌then◌else◌, ◌∈◌, if-∈,
}
use turjmp.Store.Sessions.{insert_id, sort_ids}

-- No id twice.
abbrev pub NoDup : List ℕ → Type 0
NoDup [] = Unit
NoDup (i ∷ is) = (¬ (i ∈ is)) × NoDup is

pub insert-∈ : (x i : ℕ) (is : List ℕ) → x ∈ insert_id i is → (x ≡ i) ⊎ (x ∈ is)
unfolding insert_id
insert-∈ x i [] m = m
insert-∈ x i (j ∷ js) m = elim (if-∈ (leb i j) x (i ∷ j ∷ js) (j ∷ insert_id i js) m) [
  | inl (inl e) ↦ inl e
  | inl (inr n) ↦ inr n
  | inr (inl e) ↦ inr (inl e)
  | inr (inr n) ↦ elim (insert-∈ x i js n) [ inl e ↦ inl e | inr k ↦ inr (inr k) ]
]

∈-if : (b : Bool) (x : ℕ) (xs ys : List ℕ) → x ∈ xs → x ∈ ys → x ∈ (if b then xs else ys)
∈-if true x xs ys m n = m
∈-if false x xs ys m n = n

∈-insert : (x i : ℕ) (is : List ℕ) → x ∈ (i ∷ is) → x ∈ insert_id i is
unfolding insert_id
∈-insert x i [] m = m
∈-insert x i (j ∷ js) (inl e) = ∈-if (leb i j) x _ _ (inl e) (inr (∈-insert x i js (inl e)))
∈-insert x i (j ∷ js) (inr (inl e)) = ∈-if (leb i j) x _ _ (inr (inl e)) (inl e)
∈-insert x i (j ∷ js) (inr (inr m)) =
    ∈-if (leb i j) x _ _ (inr (inr m)) (inr (∈-insert x i js (inr m)))

NoDup-if : (b : Bool) (xs ys : List ℕ) → NoDup xs → NoDup ys → NoDup (if b then xs else ys)
NoDup-if true xs ys m n = m
NoDup-if false xs ys m n = n

NoDup-insert : (i : ℕ) (is : List ℕ) → ¬ (i ∈ is) → NoDup is → NoDup (insert_id i is)
unfolding insert_id
NoDup-insert i [] n d = ((λ m. m), tt)
NoDup-insert i (j ∷ js) n (k, d) =
    NoDup-if (leb i j) (i ∷ j ∷ js) (j ∷ insert_id i js) (n, (k, d))
      (
        (λ m. elim (insert-∈ j i js m) [ inl e ↦ n (inl (sym e)) | inr l ↦ k l ]),
        NoDup-insert i js (λ m. n (inr m)) d,
      )

pub sort-∈ : (x : ℕ) (is : List ℕ) → x ∈ sort_ids is → x ∈ is
unfolding sort_ids
sort-∈ x [] m = m
sort-∈ x (i ∷ is) m = elim (insert-∈ x i (sort_ids is) m) [
  | inl e ↦ inl e
  | inr n ↦ inr (sort-∈ x is n)
]

pub ∈-sort : (x : ℕ) (is : List ℕ) → x ∈ is → x ∈ sort_ids is
unfolding sort_ids
∈-sort x [] m = m
∈-sort x (i ∷ is) (inl e) = ∈-insert x i (sort_ids is) (inl e)
∈-sort x (i ∷ is) (inr m) = ∈-insert x i (sort_ids is) (inr (∈-sort x is m))

pub NoDup-sort : (is : List ℕ) → NoDup is → NoDup (sort_ids is)
unfolding sort_ids
NoDup-sort [] d = tt
NoDup-sort (i ∷ is) (n, d) = NoDup-insert i (sort_ids is) (λ m. n (sort-∈ i is m)) (NoDup-sort is d)
