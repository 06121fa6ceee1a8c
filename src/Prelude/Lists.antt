-- ===== src/Prelude/Lists.antt =====
-- Lists measured and indexed by native numbers, under the library's names.
use Prim.Native.Nat.{ℕ, zero, suc, ◌+◌, ◌-◌, ◌≤◌}
use mathlib.Core.Path.{◌≡◌, refl, ap}
use mathlib.Core.Bool.{Bool, true, false, ◌&&◌, ◌||◌}
use mathlib.Core.List.{List, [], ◌∷◌, ◌++◌}
use mathlib.Core.Option.{Option, none, some}
use native.Mathlib.Omega.{arith}
use native.Mathlib.Nat.{zero-add}
use mathlib.Core.Logic.{inl, inr}
use turjmp.Prelude.Tests.{if◌then◌else◌, Bool-cases}

module _ {ℓ} {A : Type ℓ} where
  abbrev pub length : List A → ℕ
  length [] = 0
  length (x ∷ xs) = suc (length xs)

  abbrev pub get_or : List A → ℕ → A → A
  get_or [] i d = d
  get_or (x ∷ xs) zero d = x
  get_or (x ∷ xs) (suc i) d = get_or xs i d

  abbrev pub take : ℕ → List A → List A
  take zero xs = []
  take (suc n) [] = []
  take (suc n) (x ∷ xs) = x ∷ take n xs

  abbrev pub drop : ℕ → List A → List A
  drop zero xs = xs
  drop (suc n) [] = []
  drop (suc n) (x ∷ xs) = drop n xs

  abbrev pub replicate : ℕ → A → List A
  replicate zero a = []
  replicate (suc n) a = a ∷ replicate n a

  -- Go's `xs[lo:hi]`, for lo ≤ hi ≤ len(xs).
  unfoldable pub slice : List A → ℕ → ℕ → List A
  slice xs lo hi = take (hi - lo) (drop lo xs)

  abbrev pub null : List A → Bool
  null [] = true
  null (x ∷ xs) = false

  -- The library's `any`, `all` and `filter` on Boolean tests, in a form that runs.
  abbrev pub any : (A → Bool) → List A → Bool
  any p [] = false
  any p (x ∷ xs) = p x || any p xs

  abbrev pub all : (A → Bool) → List A → Bool
  all p [] = true
  all p (x ∷ xs) = p x && all p xs

  abbrev pub filter : (A → Bool) → List A → List A
  filter p [] = []
  filter p (x ∷ xs) = if p x then x ∷ filter p xs else filter p xs

  abbrev pub find? : (A → Bool) → List A → Option A
  find? p [] = none
  find? p (x ∷ xs) = if p x then some x else find? p xs

  abbrev pub All {κ} : (A → Type κ) → List A → Type κ
  All P [] = Unit {κ}
  All P (x ∷ xs) = P x × All P xs

cancel_left : (n i j : ℕ) → n + j - (n + i) ≡ j - i
cancel_left n i j = omega arith

cancel_end : (n j : ℕ) → n + j - n ≡ j
cancel_end n j = omega arith

suc-add : (n m : ℕ) → suc n + m ≡ suc (n + m)
suc-add n m = omega arith

module _ {ℓ} {A : Type ℓ} where
  pub length-append : (xs ys : List A) → length (xs ++ ys) ≡ length xs + length ys
  length-append [] ys = omega arith
  length-append (x ∷ xs) ys = omega (arith, length-append xs ys)

  pub take-append_length : (xs ys : List A) → take (length xs) (xs ++ ys) ≡ xs
  take-append_length [] ys = refl
  take-append_length (x ∷ xs) ys = ap (◌∷◌ x) (take-append_length xs ys)

  pub drop-append_length : (xs ys : List A) → drop (length xs) (xs ++ ys) ≡ ys
  drop-append_length [] ys = refl
  drop-append_length (x ∷ xs) ys = drop-append_length xs ys

  pub length-take : (n : ℕ) (xs : List A) → n ≤ length xs → length (take n xs) ≡ n
  length-take zero xs h = refl
  length-take (suc n) [] h = absurd (omega arith)
  length-take (suc n) (x ∷ xs) h = ap suc (length-take n xs (omega arith))

  pub length-drop : (n : ℕ) (xs : List A) → length (drop n xs) ≡ length xs - n
  length-drop zero xs = omega arith
  length-drop (suc n) [] = omega arith
  length-drop (suc n) (x ∷ xs) = omega (arith, length-drop n xs)

  pub length-replicate : (n : ℕ) (a : A) → length (replicate n a) ≡ n
  length-replicate zero a = refl
  length-replicate (suc n) a = ap suc (length-replicate n a)

module _ {ℓ} {A : Type ℓ} where
  -- A position counted from the end of a front part.
  pub drop-append_add : (xs ys : List A) (j : ℕ) → drop (length xs + j) (xs ++ ys) ≡ drop j ys
  drop-append_add [] ys j = rw (zero-add j)
  drop-append_add (x ∷ xs) ys j = rw (suc-add (length xs) j) (drop-append_add xs ys j)

  pub get_or-append_add :
      (xs ys : List A) (j : ℕ) (d : A) → get_or (xs ++ ys) (length xs + j) d ≡ get_or ys j d
  get_or-append_add [] ys j d = rw (zero-add j)
  get_or-append_add (x ∷ xs) ys j d = rw (suc-add (length xs) j) (get_or-append_add xs ys j d)

  pub slice-append_add :
      (xs ys : List A) (i j : ℕ) → slice (xs ++ ys) (length xs + i) (length xs + j) ≡ slice ys i j
  unfolding slice
  slice-append_add xs ys i j = rw (drop-append_add xs ys i, cancel_left (length xs) i j)

  -- The part between two parts is the slice at its position.
  pub slice_middle :
      (xs ys zs : List A) → slice (xs ++ (ys ++ zs)) (length xs) (length xs + length ys) ≡ ys
  unfolding slice
  slice_middle xs ys zs =
      rw (drop-append_length xs (ys ++ zs), cancel_end (length xs) (length ys))
        (take-append_length ys zs)

module _ {ℓ} {A : Type ℓ} where
  pub slice_at :
      (whole pre ys zs : List A) (lo hi : ℕ)
      → whole ≡ pre ++ (ys ++ zs)
      → lo ≡ length pre
      → hi ≡ length pre + length ys
      → slice whole lo hi ≡ ys
  slice_at whole pre ys zs lo hi e f g = rw (e, f, g) (slice_middle pre ys zs)

  pub find?-found : (p : A → Bool) (xs : List A) (x : A) → find? p xs ≡ some x → p x ≡ true
  find?-found p [] x h = absurd (cc h)
  find?-found p (y ∷ ys) x h = elim (Bool-cases (p y)) [
    | inl e ↦ ground (arith, e, h)
    | inr e ↦ find?-found p ys x (ground (arith, e, h))
  ]

  pub find?-append :
      (p : A → Bool) (xs : List A) (y : A)
      → find? p (xs ++ y ∷ [])
        ≡ elim (find? p xs) [ some x ↦ some x | none ↦ if p y then some y else none ]
  find?-append p [] y = refl
  find?-append p (x ∷ xs) y = ground (arith, find?-append p xs y)

  pub find?-none : (p : A → Bool) (xs : List A) → any p xs ≡ false → find? p xs ≡ none
  find?-none p [] h = refl
  find?-none p (x ∷ xs) h = ground (arith, h, find?-none p xs)

  pub any-append : (p : A → Bool) (xs : List A) (y : A) → any p (xs ++ y ∷ []) ≡ (any p xs || p y)
  any-append p [] y = ground arith
  any-append p (x ∷ xs) y = ground (arith, any-append p xs y)

  pub all-append : (p : A → Bool) (xs : List A) (y : A) → all p (xs ++ y ∷ []) ≡ (all p xs && p y)
  all-append p [] y = ground arith
  all-append p (x ∷ xs) y = ground (arith, all-append p xs y)
