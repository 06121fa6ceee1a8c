-- ===== src/Strings/Decimal.antt =====
-- `%d` of package fmt on a number that is not negative, and what strconv reads of it.
use turjmp.Prelude.{
  ℕ, zero, suc, ◌+◌, ◌/◌, ◌%◌, ◌^◌, ◌<◌, ◌≡◌, refl, inl, inr, true, false, ◌&&◌, some, [], ◌∷◌,
  arith, ltb, leb, if◌then◌else◌, Bool-cases, null, All, Text,
}
use turjmp.Postgres.{ℤ, digits_value, magnitude, positive_int64, parse_int64}
use turjmp.Strings.{is_space}
use turjmp.Strings.Trim.{StartsKept, EndsKept}
use turjmp.Strings.Split.{Lacks}

digit : ℕ → ℕ
digit d = b'0' + d % 10

-- The digits of a number in front of a text; a number has fewer digits than its value and one more.
unfoldable digits_before : ℕ → ℕ → Text → Text
unfolding digit
digits_before zero n rest = rest
digits_before (suc fuel) n rest =
    let more = digits_before fuel (n / 10) (digit n ∷ rest) in
    if ltb n 10 then digit n ∷ rest else more

unfoldable pub decimal : ℕ → Text
unfolding digits_before
decimal n = digits_before (suc n) n []

-- A text of digits, at least one.
abbrev pub IsDigits : Text → Type 0
IsDigits = All (λ c. (leb b'0' c && leb c b'9') ≡ true)

digit-IsDigit : (n : ℕ) → (leb b'0' (digit n) && leb (digit n) b'9') ≡ true
unfolding digit
digit-IsDigit n = ground arith

digits_value-digits :
    (fuel n : ℕ) (rest : Text)
    → n < fuel
    → digits_value 0 (digits_before fuel n rest) ≡ digits_value n rest
unfolding digits_before digits_value digit
digits_value-digits zero n rest h = absurd (omega (arith, h))
digits_value-digits (suc fuel) n rest h = elim (Bool-cases (ltb n 10)) [
  | inl e ↦ ground (arith, e)
  | inr e ↦
      ground (arith, e, digits_value-digits fuel (n / 10) (digit n ∷ rest) (ground (arith, h, e)))
]

digits_before-IsDigits :
    (fuel n : ℕ) (rest : Text) → IsDigits rest → IsDigits (digits_before fuel n rest)
unfolding digits_before
digits_before-IsDigits zero n rest h = h
digits_before-IsDigits (suc fuel) n rest h = elim (Bool-cases (ltb n 10)) [
  | inl e ↦ rw e (digit-IsDigit n, h)
  | inr e ↦ rw e (digits_before-IsDigits fuel (n / 10) (digit n ∷ rest) (digit-IsDigit n, h))
]

digits_before-null :
    (fuel n : ℕ) (rest : Text) → null rest ≡ false → null (digits_before fuel n rest) ≡ false
unfolding digits_before
digits_before-null zero n rest h = h
digits_before-null (suc fuel) n rest h = elim (Bool-cases (ltb n 10)) [
  | inl e ↦ rw e refl
  | inr e ↦ rw e (digits_before-null fuel (n / 10) (digit n ∷ rest) refl)
]

pub decimal-IsDigits : (n : ℕ) → IsDigits (decimal n)
unfolding decimal
decimal-IsDigits n = digits_before-IsDigits (suc n) n [] tt

pub decimal-null : (n : ℕ) → null (decimal n) ≡ false
unfolding decimal digits_before
decimal-null n = elim (Bool-cases (ltb n 10)) [
  | inl e ↦ rw e refl
  | inr e ↦ rw e (digits_before-null n (n / 10) (digit n ∷ []) refl)
]

magnitude-digits : (t : Text) → null t ≡ false → magnitude t ≡ digits_value 0 t
unfolding magnitude
magnitude-digits [] h = absurd (cc h)
magnitude-digits (c ∷ t) h = refl

parse-digits :
    (t : Text) → null t ≡ false → IsDigits t → parse_int64 t ≡ positive_int64 (magnitude t)
unfolding parse_int64
parse-digits [] h d = absurd (cc h)
parse-digits (c ∷ t) h d = ground (arith, d.0)

pub parse-decimal : (n : ℕ) → n < 2 ^ 63 → parse_int64 (decimal n) ≡ some (ℤ.pos n)
unfolding decimal positive_int64 digits_value
parse-decimal n h = ground (
  arith,
  h,
  parse-digits (decimal n) (decimal-null n) (decimal-IsDigits n),
  magnitude-digits (decimal n) (decimal-null n),
  digits_value-digits (suc n) n [] (omega arith),
)

-- Digits are neither spaces nor separators.
pub digits-StartsKept : (t : Text) → IsDigits t → StartsKept is_space t
unfolding is_space
digits-StartsKept [] d = tt
digits-StartsKept (c ∷ t) d = ground (arith, d.0)

pub digits-EndsKept : (t : Text) → IsDigits t → EndsKept is_space t
unfolding is_space
digits-EndsKept [] d = tt
digits-EndsKept (c ∷ []) d = ground (arith, d.0)
digits-EndsKept (c ∷ e ∷ t) d = digits-EndsKept (e ∷ t) d.1

pub digits-Lacks :
    (mark : ℕ) (t : Text) → (leb b'0' mark && leb mark b'9') ≡ false → IsDigits t → Lacks mark t
digits-Lacks mark [] h d = tt
digits-Lacks mark (c ∷ t) h d = (ground (arith, d.0, h), digits-Lacks mark t h d.1)
