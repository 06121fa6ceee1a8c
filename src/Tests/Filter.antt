-- ===== src/Tests/Filter.antt =====
-- Token forms, the command filter and the connection limit.
use turjmp.Prelude.{
  ◌≤◌, ◌≡◌, refl, true, false, List, [], ◌∷◌, ◌++◌, ◌==◌, if◌then◌else◌, Bytes, codes, text_eq,
}
use turjmp.Strings.{is_space, trim_space}
use turjmp.Strings.Split.{Lacks}
use turjmp.Strings.Trim.{StartsKept, EndsKept}
use turjmp.Connection.Token.{
  is_nul, normalize_token_candidate, extract_connection_token, IsToken, extract-username_token,
}
use turjmp.Ssh.Filter.{CommandFilter, write_filtered, SourceRead}
use turjmp.Ssh.Filter.Lines.{
  complete_lines, unfinished, allowed, notices, after_lines, write_filtered-after_lines,
}
use turjmp.Ssh.Filter.Reads.{drain, source_bytes, fresh, drain-allowed}
use turjmp.Limiter.{new_limiter, Event, run, run_bounded}

is_token : IsToken (codes "abc")
unfolding is_space is_nul Lacks StartsKept EndsKept
is_token = record {
  not_empty = refl;
  no_hash = (refl, (refl, (refl, tt)));
  starts = refl;
  ends = refl;
  ends_nul = refl;
}

plain-Lacks : Lacks b'#' (normalize_token_candidate (codes " ann"))
unfolding Lacks normalize_token_candidate trim_space
plain-Lacks = (refl, (refl, (refl, tt)))

password-Lacks : Lacks b'#' (normalize_token_candidate (codes "abc "))
unfolding Lacks normalize_token_candidate trim_space
password-Lacks = (refl, (refl, (refl, tt)))

extract-username_token_example :
    extract_connection_token (codes "ann" ++ b'#' ∷ codes "abc") (codes "x#y") ≡ codes "abc"
extract-username_token_example =
    extract-username_token (codes "ann") (codes "abc") (codes "x#y") is_token

abbrev rules : CommandFilter
rules =
    record {
      name = codes "no rm";
      action = codes "reject";
      pattern = codes "^rm";
      re = λ t. text_eq t (codes "rm");
    }
    ∷ []

abbrev stream : Bytes
stream = codes "ls" ++ (b'\n' ∷ codes "rm" ++ (b'\n' ∷ codes "l"))

write_filtered-after_lines_example :
    write_filtered rules fresh stream ≡ after_lines rules fresh stream
write_filtered-after_lines_example = write_filtered-after_lines rules fresh stream

abbrev answers : List SourceRead
answers =
    record { bytes = codes "l"; failed = false } ∷ record { bytes = stream; failed = true } ∷ []

drain-allowed_example :
    (taken : List SourceRead) × (answers ≡ taken ++ (drain rules fresh (1 ∷ 9 ∷ []) answers).left)
    × ((drain rules fresh (1 ∷ 9 ∷ []) answers).out
          ++ (drain rules fresh (1 ∷ 9 ∷ []) answers).reader.buf
        ≡ allowed rules (complete_lines [] (source_bytes taken)))
    × ((drain rules fresh (1 ∷ 9 ∷ []) answers).reader.line ≡ unfinished [] (source_bytes taken))
    × ((drain rules fresh (1 ∷ 9 ∷ []) answers).reader.notified
        ≡ notices rules (complete_lines [] (source_bytes taken)))
drain-allowed_example = drain-allowed rules (1 ∷ 9 ∷ []) answers

run_bounded_example :
    (((run (new_limiter 1) 0 (Event.enter ∷ Event.enter ∷ [])).0).held
      ≡ (run (new_limiter 1) 0 (Event.enter ∷ Event.enter ∷ [])).1)
    × ((run (new_limiter 1) 0 (Event.enter ∷ Event.enter ∷ [])).1 ≤ (if 1 == 0 then 1 else 1))
run_bounded_example = run_bounded 1 (Event.enter ∷ Event.enter ∷ [])
