-- ===== src/Strings.antt =====
-- The functions of Go's packages strings, bytes and strconv that the program calls, on lists of
-- code points (or of bytes, where the program walks bytes).
pub mod Trim
pub mod Split
pub mod Decimal
use turjmp.Prelude.{
  ℕ, zero, suc, ◌+◌, ◌-◌, ◌*◌, ◌/◌, ◌%◌, ◌^◌, ◌≤◌, ◌<◌, ◌≡◌, refl, sym, ap, ◌∙◌, ◌≢◌, ◌↔◌, ◌⊎◌, inl,
  inr, Bool, true, false, not, ◌&&◌, ◌||◌, Option, none, some, List, [], ◌∷◌, ◌++◌, append-nil,
  append_assoc, arith, ltb, leb, ◌==◌, if◌then◌else◌, ltb→lt, lt→ltb, leb→le, ==_iff, ==_refl,
  Bool-cases, Option-cases, length, get_or, take, drop, replicate, slice, null, any, all, filter,
  find?, All, length-append, take-append_length, drop-append_length, length-take, length-drop,
  length-replicate, drop-append_add, get_or-append_add, slice-append_add, slice_middle, slice_at,
  ◌∈◌, ∈-append_left, ∈-append_right, ∈-append_cases, ∈-filter, filter-∈, any-∈, if-∈, ∈-any,
  length-filter_split, null-length, find?-found, find?-append, find?-none, any-append, all-append,
  Text, Bytes, IsByte, codes, text_eq, text_eq→eq, text_eq_refl, text_eq_iff, le_bytes, le_value,
  le_value-le_bytes, length-le_bytes, le_bytes-IsByte,
}
use mathlib.Core.List.{reverse, map}

abbrev within : ℕ → ℕ → ℕ → Bool
within lo hi c = leb lo c && leb c hi

-- unicode.IsSpace
unfoldable pub is_space : ℕ → Bool
is_space c =
    within 9 13 c
    || c == 32
    || c == 0x85
    || c == 0xa0
    || c == 0x1680
    || within 0x2000 0x200a c
    || c == 0x2028
    || c == 0x2029
    || c == 0x202f
    || c == 0x205f
    || c == 0x3000

-- strings.TrimLeftFunc
unfoldable pub trim_left : (ℕ → Bool) → Text → Text
trim_left p [] = []
trim_left p (c ∷ s) = let rest = trim_left p s in if p c then rest else c ∷ s

-- strings.TrimRightFunc
unfoldable pub trim_right : (ℕ → Bool) → Text → Text
trim_right p [] = []
trim_right p (c ∷ s) = elim (trim_right p s) [ [] ↦ if p c then [] else c ∷ [] | d ∷ t ↦ c ∷ d ∷ t ]

unfoldable pub trim_func : (ℕ → Bool) → Text → Text
unfolding trim_left trim_right
trim_func p s = trim_right p (trim_left p s)

-- strings.TrimSpace
unfoldable pub trim_space : Text → Text
unfolding trim_func is_space
trim_space s = trim_func is_space s

-- strings.ToLower and strings.ToUpper, on ASCII letters; another letter is kept, where Go maps it.
unfoldable pub to_lower_char : ℕ → ℕ
to_lower_char c = if within b'A' b'Z' c then c + 32 else c

unfoldable pub to_upper_char : ℕ → ℕ
to_upper_char c = if within b'a' b'z' c then c - 32 else c

unfoldable pub to_lower : Text → Text
unfolding to_lower_char
to_lower s = map to_lower_char s

unfoldable pub to_upper : Text → Text
unfolding to_upper_char
to_upper s = map to_upper_char s

-- strings.EqualFold with an ASCII text: the long s and the Kelvin sign fold to letters.
unfoldable pub fold_char : ℕ → ℕ
unfolding to_lower_char
fold_char c = if c == 0x17f then b's' else if c == 0x212a then b'k' else to_lower_char c

unfoldable pub equal_fold : Text → Text → Bool
unfolding fold_char
equal_fold s t = text_eq (map fold_char s) (map fold_char t)

-- strings.HasPrefix
unfoldable pub has_prefix : Text → Text → Bool
has_prefix s [] = true
has_prefix [] (d ∷ p) = false
has_prefix (c ∷ s) (d ∷ p) = c == d && has_prefix s p

-- The text behind the last `mark`, if the mark occurs: strings.LastIndex and the slice after it.
unfoldable pub after_last : ℕ → Text → Option Text
after_last mark [] = none
after_last mark (c ∷ s) = elim (after_last mark s) [
  | some t ↦ some t
  | none ↦ if c == mark then some s else none
]

-- strings.Split with a separator of one character.
unfoldable pub split : ℕ → Text → List Text
split mark [] = [] ∷ []
split mark (c ∷ s) = elim (split mark s) [
  | [] ↦ [] ∷ []
  | w ∷ ws ↦ if c == mark then [] ∷ w ∷ ws else (c ∷ w) ∷ ws
]

-- A finished word joins the words that follow it, if it has a character.
flush : Text → List Text → List Text
flush [] ws = ws
flush (c ∷ t) ws = (c ∷ t) ∷ ws

-- strings.Fields
fields_from : Text → Text → List Text
unfolding flush is_space
fields_from word [] = flush word []
fields_from word (c ∷ s) =
    let next = fields_from [] s in
    let more = fields_from (word ++ c ∷ []) s in if is_space c then flush word next else more

unfoldable pub fields : Text → List Text
unfolding fields_from
fields s = fields_from [] s

-- strings.Join
unfoldable pub join : Text → List Text → Text
join sep [] = []
join sep (w ∷ ws) = elim ws [ [] ↦ w | v ∷ vs ↦ w ++ (sep ++ join sep ws) ]

-- strings.ReplaceAll of one character by a text.
unfoldable pub replace_all : ℕ → Text → Text → Text
replace_all mark by [] = []
replace_all mark by (c ∷ s) = (if c == mark then by else c ∷ []) ++ replace_all mark by s

-- One of several texts: the `case` of a `switch` on a string.
unfoldable pub one_of : Text → List Text → Bool
unfolding text_eq
one_of s [] = false
one_of s (t ∷ ts) = text_eq s t || one_of s ts

-- bytes.IndexByte
unfoldable pub index_byte : ℕ → Text → Option ℕ
index_byte mark [] = none
index_byte mark (c ∷ s) = elim (index_byte mark s) [
  | none ↦ if c == mark then some 0 else none
  | some i ↦ if c == mark then some 0 else some (i + 1)
]

-- utf8.Valid: how many continuation bytes are due, and the range of the next one.
utf8_start : ℕ → Option (ℕ × ℕ × ℕ)
utf8_start b =
    if ltb b 0x80
    then some (0, 0x80, 0xbf)
    else if within 0xc2 0xdf b
    then some (1, 0x80, 0xbf)
    else if b == 0xe0
    then some (2, 0xa0, 0xbf)
    else if b == 0xed
    then some (2, 0x80, 0x9f)
    else if within 0xe1 0xef b
    then some (2, 0x80, 0xbf)
    else if b == 0xf0
    then some (3, 0x90, 0xbf)
    else if within 0xf1 0xf3 b
    then some (3, 0x80, 0xbf)
    else if b == 0xf4
    then some (3, 0x80, 0x8f)
    else none

utf8_step : ℕ → ℕ → ℕ → ℕ → Option (ℕ × ℕ × ℕ)
utf8_step zero lo hi b = utf8_start b
utf8_step (suc due) lo hi b = if within lo hi b then some (due, 0x80, 0xbf) else none

utf8_from : ℕ → ℕ → ℕ → Text → Bool
utf8_from due lo hi [] = due == 0
utf8_from due lo hi (b ∷ s) = elim (utf8_step due lo hi b) [
  | none ↦ false
  | some (d, l, h) ↦ utf8_from d l h s
]

unfoldable pub utf8_valid : Text → Bool
unfolding utf8_start utf8_step utf8_from
utf8_valid s = utf8_from 0 0x80 0xbf s

-- One step of `range` over a string: a rune and its width in bytes. An invalid byte is U+FFFD.
decode_rune : Text → ℕ × ℕ
decode_rune s =
    let b = get_or s 0 0 in
    let c = get_or s 1 0 in
    let d = get_or s 2 0 in
    let e = get_or s 3 0 in
    elim (utf8_start b) [
      | none ↦ (0xfffd, 1)
      | some (due, lo, hi) ↦
          if due == 0
          then (b, 1)
          else if not (within lo hi c)
          then (0xfffd, 1)
          else if due == 1
          then ((b - 0xc0) * 2 ^ 6 + (c - 0x80), 2)
          else if not (within 0x80 0xbf d)
          then (0xfffd, 1)
          else if due == 2
          then ((b - 0xe0) * 2 ^ 12 + (c - 0x80) * 2 ^ 6 + (d - 0x80), 3)
          else if not (within 0x80 0xbf e)
          then (0xfffd, 1)
          else ((b - 0xf0) * 2 ^ 18 + (c - 0x80) * 2 ^ 12 + (d - 0x80) * 2 ^ 6 + (e - 0x80), 4)
    ]

-- A step takes a byte at least, so the number of bytes is enough fuel.
runes_from : ℕ → Text → Text
runes_from zero s = []
runes_from (suc fuel) s = elim (null s) [
  | true ↦ []
  | false ↦ let (r, width) = decode_rune s in r ∷ runes_from fuel (drop width s)
]

unfoldable pub runes : Text → Text
unfolding utf8_start decode_rune runes_from
runes s = runes_from (length s) s

-- `len` of a Go string: the bytes of its UTF-8 form.
unfoldable pub byte_length : Text → ℕ
byte_length [] = 0
byte_length (c ∷ s) =
    (if ltb c 0x80 then 1 else if ltb c 0x800 then 2 else if ltb c 0x10000 then 3 else 4)
    + byte_length s
