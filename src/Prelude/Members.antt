-- ===== src/Prelude/Members.antt =====
-- Membership in a list, and how `filter`, `any` and `++` see it.
use Prim.Native.Nat.{◌+◌, ◌≤◌}
use mathlib.Core.Path.{◌≡◌, refl, sym, ap, ◌∙◌}
use mathlib.Core.Logic.{◌⊎◌, inl, inr}
use mathlib.Core.Bool.{Bool, true, false, not}
use mathlib.Core.List.{List, [], ◌∷◌, ◌++◌}
use native.Mathlib.Omega.{arith}
use turjmp.Prelude.Tests.{if◌then◌else◌, Bool-cases}
use turjmp.Prelude.Lists.{length, null, any, filter}

infix 40 ◌∈◌
abbrev pub ◌∈◌ : {A : Type 0} → A → List A → Type 0
x ∈ [] = ⊥
x ∈ (y ∷ ys) = (x ≡ y) ⊎ (x ∈ ys)

module _ {A : Type 0} where
  pub ∈-append_left : (x : A) (xs ys : List A) → x ∈ xs → x ∈ (xs ++ ys)
  ∈-append_left x [] ys m = absurd m
  ∈-append_left x (z ∷ zs) ys (inl e) = inl e
  ∈-append_left x (z ∷ zs) ys (inr m) = inr (∈-append_left x zs ys m)

  pub ∈-append_right : (x : A) (xs ys : List A) → x ∈ ys → x ∈ (xs ++ ys)
  ∈-append_right x [] ys m = m
  ∈-append_right x (z ∷ zs) ys m = inr (∈-append_right x zs ys m)

  pub ∈-append_cases : (x : A) (xs ys : List A) → x ∈ (xs ++ ys) → (x ∈ xs) ⊎ (x ∈ ys)
  ∈-append_cases x [] ys m = inr m
  ∈-append_cases x (z ∷ zs) ys (inl e) = inl (inl e)
  ∈-append_cases x (z ∷ zs) ys (inr m) = elim (∈-append_cases x zs ys m) [
    | inl a ↦ inl (inr a)
    | inr b ↦ inr b
  ]

  pub ∈-filter : (p : A → Bool) (x : A) (xs : List A) → x ∈ xs → p x ≡ true → x ∈ filter p xs
  ∈-filter p x [] m h = absurd m
  ∈-filter p x (y ∷ ys) (inl e) h = let q : p y ≡ true = ap p (sym e) ∙ h in rw q (inl e)
  ∈-filter p x (y ∷ ys) (inr m) h = elim (Bool-cases (p y)) [
    | inl e ↦ rw e (inr (∈-filter p x ys m h))
    | inr e ↦ rw e (∈-filter p x ys m h)
  ]

  filter_cons-∈ :
      (p : A → Bool) (x y : A) (ys rest : List A) (b : Bool)
      → p y ≡ b
      → x ∈ (if b then y ∷ rest else rest)
      → (x ∈ rest → (x ∈ ys) × (p x ≡ true))
      → (x ∈ (y ∷ ys)) × (p x ≡ true)
  filter_cons-∈ p x y ys rest true e (inl q) ih = (inl q, rw q e)
  filter_cons-∈ p x y ys rest true e (inr m) ih = let (n, h) = ih m in (inr n, h)
  filter_cons-∈ p x y ys rest false e m ih = let (n, h) = ih m in (inr n, h)

  pub filter-∈ : (p : A → Bool) (x : A) (xs : List A) → x ∈ filter p xs → (x ∈ xs) × (p x ≡ true)
  filter-∈ p x [] m = absurd m
  filter-∈ p x (y ∷ ys) m = filter_cons-∈ p x y ys (filter p ys) (p y) refl m (filter-∈ p x ys)

  pub if-∈ : (b : Bool) (x : A) (xs ys : List A) → x ∈ (if b then xs else ys) → (x ∈ xs) ⊎ (x ∈ ys)
  if-∈ true x xs ys m = inl m
  if-∈ false x xs ys m = inr m

  pub any-∈ : (p : A → Bool) (xs : List A) → any p xs ≡ true → (x : A) × ((x ∈ xs) × (p x ≡ true))
  any-∈ p [] h = absurd (cc h)
  any-∈ p (y ∷ ys) h = elim (Bool-cases (p y)) [
    | inl e ↦ (y, (inl refl, e))
    | inr e ↦ let (x, (m, q)) = any-∈ p ys (ground (arith, h, e)) in (x, (inr m, q))
  ]

  pub ∈-any : (p : A → Bool) (x : A) (xs : List A) → x ∈ xs → p x ≡ true → any p xs ≡ true
  ∈-any p x [] m h = absurd m
  ∈-any p x (y ∷ ys) (inl e) h = let q : p y ≡ true = ap p (sym e) ∙ h in rw q refl
  ∈-any p x (y ∷ ys) (inr m) h = ground (arith, ∈-any p x ys m h)

  pub length-filter_split :
      (p : A → Bool) (xs : List A)
      → length (filter p xs) + length (filter (λ x. not (p x)) xs) ≡ length xs
  length-filter_split p [] = refl
  length-filter_split p (x ∷ xs) = ground (arith, length-filter_split p xs)

  pub null-length : (xs : List A) → null xs ≡ false → 1 ≤ length xs
  null-length [] h = absurd (cc h)
  null-length (x ∷ xs) h = omega arith

  pub ∈-length : (x : A) (xs : List A) → x ∈ xs → 1 ≤ length xs
  ∈-length x [] m = absurd m
  ∈-length x (y ∷ ys) m = omega arith

  pub null-∈ : (x : A) (xs : List A) → null xs ≡ true → x ∈ xs → ⊥
  null-∈ x [] h m = m
  null-∈ x (y ∷ ys) h m = absurd (cc h)
