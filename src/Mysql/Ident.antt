-- ===== src/Mysql/Ident.antt =====
-- isResultQuery and quoteMySQLIdent of mysql_protocol.go.
use turjmp.Prelude.{
  ℕ, ◌≡◌, refl, inl, inr, Bool, true, false, not, Option, none, some, [], ◌∷◌, ◌++◌, append_assoc,
  arith, ◌==◌, if◌then◌else◌, Bool-cases, Text, codes,
}
use turjmp.Strings.{trim_space, fields, to_lower, one_of, replace_all}

unfoldable pub is_result_query : Text → Bool
is_result_query query = elim (fields (trim_space query)) [
  | [] ↦ false
  | word ∷ words ↦ one_of (to_lower word) (
      codes "select"
      ∷ codes "show"
      ∷ codes "describe"
      ∷ codes "desc"
      ∷ codes "explain"
      ∷ codes "with"
      ∷ codes "call"
      ∷ [])
]

abbrev pub backquote : ℕ
backquote = 96

unfoldable pub quote_mysql_ident : Text → Text
quote_mysql_ident name =
    backquote ∷ (replace_all backquote (backquote ∷ backquote ∷ []) name ++ backquote ∷ [])

-- How a server reads the rest of a quoted identifier: two quotes are one, and a single one ends it.
unfoldable pub with_first : ℕ → Option (Text × Text) → Option (Text × Text)
with_first c none = none
with_first c (some (name, rest)) = some (c ∷ name, rest)

unfoldable pub read_quoted : Text → Option (Text × Text)
unfolding with_first
read_quoted [] = none
read_quoted (c ∷ []) = if c == backquote then some ([], []) else none
read_quoted (c ∷ d ∷ t) =
    let after = read_quoted (d ∷ t) in
    let doubled = read_quoted t in
    if c == backquote
    then if d == backquote then with_first c doubled else some ([], d ∷ t)
    else with_first c after

unfoldable pub read_ident : Text → Option (Text × Text)
unfolding read_quoted
read_ident [] = none
read_ident (c ∷ s) = if c == backquote then read_quoted s else none

-- The text does not start with a quote.
unfoldable pub starts_clear : Text → Bool
starts_clear [] = true
starts_clear (c ∷ s) = not (c == backquote)

read_plain :
    (c : ℕ) (s : Text)
    → (c == backquote) ≡ false
    → read_quoted (c ∷ s) ≡ with_first c (read_quoted s)
unfolding read_quoted with_first
read_plain c [] e = ground (arith, e)
read_plain c (d ∷ t) e = ground (arith, e)

read_doubled :
    (s : Text) → read_quoted (backquote ∷ backquote ∷ s) ≡ with_first backquote (read_quoted s)
unfolding read_quoted
read_doubled s = refl

quoted_body :
    (name rest : Text)
    → starts_clear rest ≡ true
    → read_quoted (replace_all backquote (backquote ∷ backquote ∷ []) name ++ (backquote ∷ rest))
      ≡ some (name, rest)
unfolding replace_all starts_clear with_first
quoted_body [] [] h = unfold read_quoted in refl
quoted_body [] (d ∷ t) h = unfold read_quoted in ground (arith, h)
quoted_body (c ∷ name) rest h =
    let body = replace_all backquote (backquote ∷ backquote ∷ []) name ++ (backquote ∷ rest) in
    elim (Bool-cases (c == backquote)) [
      | inl e ↦ ground (arith, e, quoted_body name rest h, read_doubled body)
      | inr e ↦ ground (arith, e, quoted_body name rest h, read_plain c body e)
    ]

-- A server reads a quoted name back as the name, whatever characters it has, and the statement goes
-- on right behind it, so no name can leave its quotes; what follows does not start with a quote.
pub read_ident-quote :
    (name rest : Text)
    → starts_clear rest ≡ true
    → read_ident (quote_mysql_ident name ++ rest) ≡ some (name, rest)
unfolding read_ident quote_mysql_ident
read_ident-quote name rest h =
    rw
      (append_assoc (replace_all backquote (backquote ∷ backquote ∷ []) name) (backquote ∷ []) rest)
      (quoted_body name rest h)
