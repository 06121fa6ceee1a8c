-- ===== src/Strings/Trim.antt =====
-- Laws of trimming.
use turjmp.Prelude.{ℕ, ◌≡◌, refl, Bool, false, [], ◌∷◌, ◌++◌, Text, Bool-cases, inl, inr}
use turjmp.Strings.{trim_left, trim_right, trim_func}

-- A text that starts and ends with characters that `p` keeps.
abbrev pub StartsKept : (ℕ → Bool) → Text → Type 0
StartsKept p [] = Unit
StartsKept p (c ∷ s) = p c ≡ false

abbrev pub EndsKept : (ℕ → Bool) → Text → Type 0
EndsKept p [] = Unit
EndsKept p (c ∷ []) = p c ≡ false
EndsKept p (c ∷ d ∷ s) = EndsKept p (d ∷ s)

module _ (p : ℕ → Bool) where
  pub trim_left_kept : (s : Text) → StartsKept p s → trim_left p s ≡ s
  unfolding trim_left
  trim_left_kept [] h = refl
  trim_left_kept (c ∷ s) h = rw h

  pub trim_right_kept : (s : Text) → EndsKept p s → trim_right p s ≡ s
  unfolding trim_right
  trim_right_kept [] h = refl
  trim_right_kept (c ∷ []) h = rw h
  trim_right_kept (c ∷ d ∷ s) h = rw (trim_right_kept (d ∷ s) h, trim_right)

  pub trim_func_kept : (s : Text) → StartsKept p s → EndsKept p s → trim_func p s ≡ s
  unfolding trim_func
  trim_func_kept s a b = rw (trim_left_kept s a) (trim_right_kept s b)

-- A kept mark in the middle shields what follows it from the left, and what precedes it from the right.
module _ (p : ℕ → Bool) where
  trim_left-append :
      (s t : Text) (m : ℕ) → p m ≡ false → trim_left p (s ++ m ∷ t) ≡ trim_left p s ++ m ∷ t
  unfolding trim_left
  trim_left-append [] t m h = rw h
  trim_left-append (c ∷ s) t m h = elim (Bool-cases (p c)) [
    | inl e ↦ rw e (trim_left-append s t m h)
    | inr e ↦ rw e
  ]

  EndsKept-append : (s t : Text) (m : ℕ) → EndsKept p (m ∷ t) → EndsKept p (s ++ m ∷ t)
  EndsKept-append [] t m h = h
  EndsKept-append (c ∷ []) t m h = h
  EndsKept-append (c ∷ d ∷ s) t m h = EndsKept-append (d ∷ s) t m h

  pub trim_func-append :
      (s t : Text) (m : ℕ)
      → p m ≡ false
      → EndsKept p (m ∷ t)
      → trim_func p (s ++ m ∷ t) ≡ trim_left p s ++ m ∷ t
  unfolding trim_func
  trim_func-append s t m h e =
      rw (trim_left-append s t m h)
        (trim_right_kept p (trim_left p s ++ m ∷ t) (EndsKept-append (trim_left p s) t m e))
