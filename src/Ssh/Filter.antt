-- ===== src/Ssh/Filter.antt =====
-- internal/proxy/ssh/filter.go: rules on the commands that a user types, and the reader that applies
-- them to the bytes on their way to the target.
pub mod Lines
pub mod Reads
use turjmp.Prelude.{
  ℕ, zero, suc, ◌+◌, ◌-◌, ◌*◌, ◌/◌, ◌%◌, ◌^◌, ◌≤◌, ◌<◌, ◌≡◌, refl, sym, ap, ◌∙◌, ◌≢◌, ◌↔◌, ◌⊎◌, inl,
  inr, Bool, true, false, not, ◌&&◌, ◌||◌, Option, none, some, List, [], ◌∷◌, ◌++◌, append-nil,
  append_assoc, arith, ltb, leb, ◌==◌, if◌then◌else◌, ltb→lt, lt→ltb, leb→le, ==_iff, ==_refl,
  Bool-cases, Option-cases, length, get_or, take, drop, replicate, slice, null, any, all, find?,
  All, length-append, take-append_length, drop-append_length, length-take, length-drop,
  length-replicate, drop-append_add, get_or-append_add, slice-append_add, slice_middle, slice_at,
  Text, Bytes, IsByte, codes, text_eq, text_eq→eq, text_eq_refl, text_eq_iff, le_bytes, le_value,
  le_value-le_bytes, length-le_bytes, le_bytes-IsByte,
}
use turjmp.Strings.{trim_space, to_lower, runes, one_of}

-- `commandFilterRule`
pub record CommandFilterRule : Type 0 where
  pub id : ℕ
  pub name : Text
  pub pattern : Text
  pub action : Text

-- `compiledRule`; `re` is `re.MatchString`.
pub record CompiledRule : Type 0 where
  pub name : Text
  pub action : Text
  pub pattern : Text
  pub re : Text → Bool

abbrev pub CommandFilter : Type 0
CommandFilter = List CompiledRule

-- The action in lower case; the default is `reject`.
unfoldable pub rule_action : Text → Text
rule_action action =
    let trimmed = to_lower (trim_space action) in if null trimmed then codes "reject" else trimmed

-- One round of the loop of `loadCommandFilter`. `compile` is `regexp.Compile`.
unfoldable pub compile_rule :
    (Text → Option (Text → Bool)) → CommandFilterRule → Option CompiledRule
unfolding rule_action
compile_rule compile rule =
    if null (trim_space rule.pattern) then none else elim (compile rule.pattern) [
      | none ↦ none
      | some re ↦ some (record {
        name = rule.name;
        action = rule_action rule.action;
        pattern = rule.pattern;
        re = re;
      })
    ]

-- The loop of `loadCommandFilter`: a rule with an empty or invalid pattern is left out.
unfoldable pub load_rules : (Text → Option (Text → Bool)) → List CommandFilterRule → CommandFilter
unfolding compile_rule
load_rules compile [] = []
load_rules compile (r ∷ rs) =
    let rest = load_rules compile rs in
    elim (compile_rule compile r) [ none ↦ rest | some c ↦ c ∷ rest ]

-- `loadCommandFilter`, on the reply of the API; `none` is its error.
unfoldable pub load_command_filter :
    (Text → Option (Text → Bool)) → Option (List CommandFilterRule) → Option CommandFilter
unfolding load_rules
load_command_filter compile none = none
load_command_filter compile (some rules) = some (load_rules compile rules)

-- The runes that `stripControls` keeps.
unfoldable pub is_kept : ℕ → Bool
is_kept r = (r == b'\t' || r == b'\n' || r == b'\r') || (leb 0x20 r && not (r == 0x7f))

keep : Text → Text
keep [] = []
keep (r ∷ rs) = let rest = keep rs in if is_kept r then r ∷ rest else rest

-- `stripControls`, as runes.
unfoldable pub strip_controls : Bytes → Text
unfolding is_kept keep
strip_controls s = keep (runes s)

-- `match`: the first rule whose expression matches the line. A nil filter has no rules.
unfoldable pub match : CommandFilter → Bytes → Option CompiledRule
unfolding strip_controls
match rules line =
    let trimmed = trim_space (strip_controls line) in find? (λ rule. rule.re trimmed) rules

unfoldable pub is_rejecting : CompiledRule → Bool
is_rejecting rule = text_eq rule.action (codes "deny") || text_eq rule.action (codes "reject")

-- `filteringReader`: what waits to be read, the line so far, and the names of the rules that the user
-- was told about, in order.
pub record FilteringReader : Type 0 where
  pub buf : Bytes
  pub line : Bytes
  pub notified : List Text

unfoldable pub is_line_end : ℕ → Bool
is_line_end b = b == b'\n' || b == b'\r'

-- The end of a line, with what `match` found.
unfoldable pub end_line : FilteringReader → Bytes → Option CompiledRule → FilteringReader
end_line r line none = record r { line = []; buf = r.buf ++ line }
end_line r line (some rule) =
    if is_rejecting rule
    then record r { line = []; notified = r.notified ++ rule.name ∷ [] }
    else record r { line = []; buf = r.buf ++ line }

-- One round of the loop of `writeFiltered`.
unfoldable pub write_byte : CommandFilter → FilteringReader → ℕ → FilteringReader
unfolding end_line
write_byte rules r b =
    let line = r.line ++ b ∷ [] in
    if is_line_end b then end_line r line (match rules line) else record r { line = line }

-- `writeFiltered`
unfoldable pub write_filtered : CommandFilter → FilteringReader → Bytes → FilteringReader
unfolding write_byte
write_filtered rules r [] = r
write_filtered rules r (b ∷ bs) = write_filtered rules (write_byte rules r b) bs

-- One answer of the source's `Read`: the bytes, and whether an error came with them.
pub record SourceRead : Type 0 where
  pub bytes : Bytes
  pub failed : Bool

-- `Read` returns bytes, or the source's error.
pub data ReadOutcome : Type 0 where
  read_bytes : Bytes → ReadOutcome
  read_error : ReadOutcome

-- `r.buf.Read(p)` with room for `size` bytes.
unfoldable pub read_buf : FilteringReader → ℕ → ReadOutcome × FilteringReader
read_buf r size = (read_bytes (take size r.buf), record r { buf = drop size r.buf })

-- The loop of `Read`, over the answers that the source has still to give; with none left the source
-- fails. It returns the answers that were not asked for.
unfoldable pub read :
    CommandFilter
    → FilteringReader
    → ℕ
    → List SourceRead
    → ReadOutcome × FilteringReader × List SourceRead
unfolding read_buf write_filtered
read rules r size [] =
    if null r.buf then (read_error, r, []) else ((read_buf r size).0, (read_buf r size).1, [])
read rules r size (s ∷ rest) =
    let r' = write_filtered rules r s.bytes in
    let again = read rules r' size rest in
    if not (null r.buf)
    then ((read_buf r size).0, (read_buf r size).1, s ∷ rest)
    else if s.failed
    then if null r'.buf
      then (read_error, r', rest)
      else ((read_buf r' size).0, (read_buf r' size).1, rest)
    else again
