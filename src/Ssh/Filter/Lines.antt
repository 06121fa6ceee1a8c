-- ===== src/Ssh/Filter/Lines.antt =====
-- `write_filtered` against a description of the stream by its lines.
use turjmp.Prelude.{
  ℕ, ◌≡◌, refl, sym, ◌∙◌, inl, inr, Option, none, some, List, [], ◌∷◌, ◌++◌, append-nil,
  append_assoc, arith, if◌then◌else◌, Bool-cases, Text, Bytes,
}
use mathlib.Core.List.{flatten}
use turjmp.Ssh.Filter.{
  CompiledRule, CommandFilter, match, is_rejecting, FilteringReader, is_line_end, end_line,
  write_byte, write_filtered,
}

-- The complete lines of a stream, each with its line end; `line` is the start of the first one.
unfoldable pub complete_lines : Bytes → Bytes → List Bytes
complete_lines line [] = []
complete_lines line (b ∷ bs) =
    let ended = (line ++ b ∷ []) ∷ complete_lines [] bs in
    let longer = complete_lines (line ++ b ∷ []) bs in if is_line_end b then ended else longer

-- What follows the last line end.
unfoldable pub unfinished : Bytes → Bytes → Bytes
unfinished line [] = line
unfinished line (b ∷ bs) = unfinished (if is_line_end b then [] else line ++ b ∷ []) bs

-- The rule that rejects a line: the first rule that matches it, if its action rejects.
unfoldable pub rejecting_rule : CommandFilter → Bytes → Option CompiledRule
rejecting_rule rules line = elim (match rules line) [
  | none ↦ none
  | some rule ↦ if is_rejecting rule then some rule else none
]

-- The lines that no rule rejects, one after the other.
unfoldable pub allowed : CommandFilter → List Bytes → Bytes
unfolding rejecting_rule
allowed rules [] = []
allowed rules (l ∷ ls) = elim (rejecting_rule rules l) [
  | none ↦ l ++ allowed rules ls
  | some rule ↦ allowed rules ls
]

-- The names of the rules that reject a line, in the order of the lines.
unfoldable pub notices : CommandFilter → List Bytes → List Text
unfolding rejecting_rule
notices rules [] = []
notices rules (l ∷ ls) = elim (rejecting_rule rules l) [
  | none ↦ notices rules ls
  | some rule ↦ rule.name ∷ notices rules ls
]

-- The reader after a stream, described by the lines of the stream.
unfoldable pub after_lines : CommandFilter → FilteringReader → Bytes → FilteringReader
after_lines rules r bs = record {
  buf = r.buf ++ allowed rules (complete_lines r.line bs);
  line = unfinished r.line bs;
  notified = r.notified ++ notices rules (complete_lines r.line bs);
}

-- The lines and what follows them make up the stream.
pub complete_lines_rejoin :
    (line bs : Bytes) → flatten (complete_lines line bs) ++ unfinished line bs ≡ line ++ bs
unfolding complete_lines unfinished flatten
complete_lines_rejoin line [] = sym (append-nil line)
complete_lines_rejoin line (b ∷ bs) = elim (Bool-cases (is_line_end b)) [
  | inl e ↦
      rw (
        e,
        append_assoc (line ++ b ∷ []),
        complete_lines_rejoin [] bs,
        append_assoc line (b ∷ []) bs,
      )
  | inr e ↦ rw (e, complete_lines_rejoin (line ++ b ∷ []) bs, append_assoc line (b ∷ []) bs)
]

-- A line that ends in what the reader makes of it.
end_line-after_lines :
    (rules : CommandFilter) (r : FilteringReader) (line bs : Bytes) (found : Option CompiledRule)
    → match rules line ≡ found
    → after_lines rules (end_line r line found) bs ≡ record {
      buf = r.buf ++ allowed rules (line ∷ complete_lines [] bs);
      line = unfinished [] bs;
      notified = r.notified ++ notices rules (line ∷ complete_lines [] bs);
    }
unfolding after_lines end_line allowed notices
end_line-after_lines rules r line bs none e =
    ground (arith, append_assoc r.buf line (allowed rules (complete_lines [] bs)))
end_line-after_lines rules r line bs (some rule) e = ground (
  arith,
  append_assoc r.buf line (allowed rules (complete_lines [] bs)),
  append_assoc r.notified (rule.name ∷ []) (notices rules (complete_lines [] bs)),
)

write_byte-after_lines :
    (rules : CommandFilter) (r : FilteringReader) (b : ℕ) (bs : Bytes)
    → after_lines rules (write_byte rules r b) bs ≡ after_lines rules r (b ∷ bs)
unfolding write_byte
write_byte-after_lines rules r b bs = elim (Bool-cases (is_line_end b)) [
  | inl e ↦ rw e (
      end_line-after_lines rules r (r.line ++ b ∷ []) bs (match rules (r.line ++ b ∷ [])) refl
      ∙ unfold after_lines complete_lines unfinished in rw e)
  | inr e ↦ rw e (unfold after_lines complete_lines unfinished in rw e)
]

-- Every line is passed on whole or not at all: the reader holds back what follows the last line end,
-- has passed on the lines that no rule rejects, in order, and has told the user about each other line.
pub write_filtered-after_lines :
    (rules : CommandFilter) (r : FilteringReader) (bs : Bytes)
    → write_filtered rules r bs ≡ after_lines rules r bs
unfolding write_filtered
write_filtered-after_lines rules r [] =
    unfold after_lines allowed complete_lines notices unfinished in
    cc (append-nil r.buf, append-nil r.notified)
write_filtered-after_lines rules r (b ∷ bs) =
    write_filtered-after_lines rules (write_byte rules r b) bs ∙ write_byte-after_lines rules r b bs
