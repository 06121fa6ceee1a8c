-- ===== src/Strings/Split.antt =====
-- Laws of splitting at a mark.
use turjmp.Prelude.{
  ℕ, ◌≡◌, refl, false, none, some, [], ◌∷◌, ◌++◌, Text, All, ◌==◌, ==_refl, arith, length,
}
use turjmp.Strings.{after_last, split, index_byte}

-- No character of the text is the mark.
abbrev pub Lacks : ℕ → Text → Type 0
Lacks mark = All (λ c. (c == mark) ≡ false)

pub after_last-none : (mark : ℕ) (s : Text) → Lacks mark s → after_last mark s ≡ none
unfolding after_last
after_last-none mark [] h = refl
after_last-none mark (c ∷ s) h = rw (after_last-none mark s h.1, h.0, after_last)

pub after_last-append :
    (mark : ℕ) (s t : Text) → Lacks mark t → after_last mark (s ++ mark ∷ t) ≡ some t
unfolding after_last
after_last-append mark [] t h = rw (after_last-none mark t h, ==_refl mark, after_last)
after_last-append mark (c ∷ s) t h = rw (after_last-append mark s t h, after_last)

pub split-Lacks : (mark : ℕ) (s : Text) → Lacks mark s → split mark s ≡ s ∷ []
unfolding split
split-Lacks mark [] h = refl
split-Lacks mark (c ∷ s) h = rw (split-Lacks mark s h.1, h.0, split)

pub split-append :
    (mark : ℕ) (s t : Text) → Lacks mark s → split mark (s ++ mark ∷ t) ≡ s ∷ split mark t
unfolding split
split-append mark [] t h = ground (arith, ==_refl mark)
split-append mark (c ∷ s) t h = rw (split-append mark s t h.1, h.0, split)

pub index_byte-append :
    (mark : ℕ) (s t : Text) → Lacks mark s → index_byte mark (s ++ mark ∷ t) ≡ some (length s)
unfolding index_byte
index_byte-append mark [] t h = ground (arith, ==_refl mark)
index_byte-append mark (c ∷ s) t h = ground (arith, index_byte-append mark s t)
