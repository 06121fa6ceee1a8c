-- ===== src/Sdk/Quote.antt =====
-- A POSIX shell reads a quoted value back as one word.
use turjmp.Prelude.{
  ℕ, ◌≡◌, refl, sym, ap, ◌∙◌, inl, inr, Bool, true, false, not, ◌||◌, Option, none, some, List, [],
  ◌∷◌, ◌++◌, append_assoc, arith, ◌==◌, if◌then◌else◌, Bool-cases, null, any, all, Text, codes,
}
use turjmp.Strings.{replace_all, has_prefix}
use turjmp.Sdk.{is_safe, shell_quote}

-- How a shell takes the next character of a word.
pub data Mode : Type 0 where
  plain quoted escaped : Mode

abbrev pub grow : ℕ → Option (Text × Text) → Option (Text × Text)
grow c none = none
grow c (some (w, rest)) = some (c ∷ w, rest)

-- The characters that have to be quoted to stand for themselves, after the list of the POSIX shell
-- language, with the braces and the exclamation mark of common shells; 9 and 10 are the tab and the line
-- feed. The number sign is special only where a word begins.
abbrev pub specials : List ℕ
specials = 9 ∷ 10 ∷ codes " |&;<>()$`\\\"'*?[]~=%{}!^"

abbrev pub is_special : ℕ → Bool
is_special c = any (λ d. c == d) specials

-- What is left of a word, and what follows the space behind it. Within single quotes each character
-- stands for itself; outside, so does one that is not special, a quote begins a quoted part, and a
-- backslash takes the next character. Any other special character has a meaning of its own and gives
-- `none`.
unfoldable pub read_word : Mode → Text → Option (Text × Text)
read_word Mode.plain [] = some ([], [])
read_word Mode.quoted [] = none
read_word Mode.escaped [] = none
read_word Mode.escaped (c ∷ s) = grow c (read_word Mode.plain s)
read_word Mode.quoted (c ∷ s) =
    let closed = read_word Mode.plain s in
    let inside = read_word Mode.quoted s in if c == b'\'' then closed else grow c inside
read_word Mode.plain (c ∷ s) =
    let more = read_word Mode.plain s in
    let opened = read_word Mode.quoted s in
    let taken = read_word Mode.escaped s in
    if not (is_special c)
    then grow c more
    else if c == b' '
    then some ([], s)
    else if c == b'\''
    then opened
    else if c == b'\\'
    then taken
    else none

-- The first word of a command line; one that begins with a number sign is a comment.
unfoldable pub word : Text → Option (Text × Text)
unfolding read_word
word line =
    if null line || (has_prefix line (codes "#") || has_prefix line (codes " "))
    then none
    else read_word Mode.plain line

abbrev escaped_quote : Text
escaped_quote = b'\'' ∷ b'\\' ∷ b'\'' ∷ b'\'' ∷ []

read_escaped_quote :
    (s : Text) → read_word Mode.quoted (escaped_quote ++ s) ≡ grow b'\'' (read_word Mode.quoted s)
unfolding read_word
read_escaped_quote s = refl

read_inside :
    (c : ℕ) (s : Text)
    → (c == b'\'') ≡ false
    → read_word Mode.quoted (c ∷ s) ≡ grow c (read_word Mode.quoted s)
unfolding read_word
read_inside c s e = rw e refl

read_closed : (rest : Text) → read_word Mode.quoted (b'\'' ∷ b' ' ∷ rest) ≡ some ([], rest)
unfolding read_word
read_closed rest = refl

read_quoted :
    (v rest : Text)
    → read_word Mode.quoted (replace_all b'\'' escaped_quote v ++ b'\'' ∷ b' ' ∷ rest)
      ≡ some (v, rest)
unfolding replace_all
read_quoted [] rest = read_closed rest
read_quoted (c ∷ v) rest =
    let end = replace_all b'\'' escaped_quote v ++ b'\'' ∷ b' ' ∷ rest in
    elim (Bool-cases (c == b'\'')) [
      | inl e ↦
          let same : c ≡ b'\'' = ground (arith, e) in
          rw (e, same) (read_escaped_quote end ∙ ap (grow b'\'') (read_quoted v rest))
      | inr e ↦ rw e (read_inside c end e ∙ ap (grow c) (read_quoted v rest))
    ]

read_space : (rest : Text) → read_word Mode.plain (b' ' ∷ rest) ≡ some ([], rest)
unfolding read_word
read_space rest = refl

specials-not_safe : all (λ d. not (is_safe d)) specials ≡ true
unfolding is_safe
specials-not_safe = refl

-- A character that is equal to one of a list has what all of the list have.
found_among :
    (c : ℕ) (ds : List ℕ)
    → all (λ d. not (is_safe d)) ds ≡ true
    → any (λ d. c == d) ds ≡ true
    → is_safe c ≡ false
found_among c [] h k = absurd (cc k)
found_among c (d ∷ ds) h k = elim (Bool-cases (is_safe d)) [
  | inl e ↦ absurd (ground (arith, e, h))
  | inr e ↦ elim (Bool-cases (c == d)) [
    | inl f ↦ let same : c ≡ d = ground (arith, f) in ap is_safe same ∙ e
    | inr f ↦ found_among c ds (ground (arith, e, h)) (ground (arith, f, k))
  ]
]

-- What the code leaves unquoted is not special to a shell.
safe_not_special : (c : ℕ) → is_safe c ≡ true → is_special c ≡ false
safe_not_special c h = elim (Bool-cases (is_special c)) [
  | inl e ↦ absurd (cc (h, found_among c specials specials-not_safe e))
  | inr e ↦ e
]

read_safe :
    (c : ℕ) (s : Text)
    → is_safe c ≡ true
    → read_word Mode.plain (c ∷ s) ≡ grow c (read_word Mode.plain s)
unfolding read_word
read_safe c s e = rw (safe_not_special c e) refl

read_opened : (s : Text) → read_word Mode.plain (b'\'' ∷ s) ≡ read_word Mode.quoted s
unfolding read_word
read_opened s = refl

read_plain :
    (v rest : Text)
    → all is_safe v ≡ true
    → read_word Mode.plain (v ++ b' ' ∷ rest) ≡ some (v, rest)
read_plain [] rest h = read_space rest
read_plain (c ∷ v) rest h = elim (Bool-cases (is_safe c)) [
  | inl e ↦
      read_safe c (v ++ b' ' ∷ rest) e ∙ ap (grow c) (read_plain v rest (ground (arith, e, h)))
  | inr e ↦ absurd (ground (arith, e, h))
]

word_read :
    (c : ℕ) (s : Text)
    → (c == b'#') ≡ false
    → (c == b' ') ≡ false
    → word (c ∷ s) ≡ read_word Mode.plain (c ∷ s)
unfolding word has_prefix
word_read c s e f = rw (e, f) refl

space_not_safe : is_safe b' ' ≡ false
unfolding is_safe
space_not_safe = refl

safe_not_space : (c : ℕ) → is_safe c ≡ true → (c == b' ') ≡ false
safe_not_space c h = elim (Bool-cases (c == b' ')) [
  | inl e ↦
      let same : c ≡ b' ' = ground (arith, e) in
      absurd (ground (arith, sym (ap is_safe same) ∙ h, space_not_safe))
  | inr e ↦ e
]

first_differs : (c : ℕ) (v : Text) → has_prefix (c ∷ v) (codes "#") ≡ false → (c == b'#') ≡ false
unfolding has_prefix
first_differs c v h = ground (arith, h)

quoted_nothing : (rest : Text) → word (b'\'' ∷ b'\'' ∷ b' ' ∷ rest) ≡ some ([], rest)
unfolding word read_word has_prefix
quoted_nothing rest = refl

-- A value that does not begin with a number sign is quoted so that a POSIX shell reads exactly that
-- value as one word, whatever characters it has, and goes on behind the space that follows it.
pub word-shell_quote :
    (v rest : Text)
    → has_prefix v (codes "#") ≡ false
    → word (shell_quote v ++ b' ' ∷ rest) ≡ some (v, rest)
unfolding shell_quote
word-shell_quote [] rest h = quoted_nothing rest
word-shell_quote (c ∷ v) rest h = elim (Bool-cases (all is_safe (c ∷ v))) [
  | inl e ↦
      let read = read_plain (c ∷ v) rest e in
      let safe : is_safe c ≡ true = ground (arith, e) in
      rw e (word_read c (v ++ b' ' ∷ rest) (first_differs c v h) (safe_not_space c safe) ∙ read)
  | inr e ↦
      rw (e, append_assoc (replace_all b'\'' escaped_quote (c ∷ v)) (b'\'' ∷ []) (b' ' ∷ rest))
        (word_read b'\'' _ refl refl ∙ (read_opened _ ∙ read_quoted (c ∷ v) rest))
]
