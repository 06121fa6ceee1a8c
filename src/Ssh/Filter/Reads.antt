-- ===== src/Ssh/Filter/Reads.antt =====
-- Many calls of `read`: what they deliver together.
use turjmp.Prelude.{
  ℕ, zero, suc, ◌≡◌, refl, sym, ap, ◌∙◌, inl, inr, Bool, true, false, List, [], ◌∷◌, ◌++◌,
  append_assoc, Bool-cases, take, drop, null, Bytes,
}
use turjmp.Ssh.Filter.{
  CommandFilter, FilteringReader, write_filtered, write_byte, SourceRead, ReadOutcome, read_bytes,
  read_error, read_buf, read,
}
use turjmp.Ssh.Filter.Lines.{
  complete_lines, unfinished, allowed, notices, after_lines, write_filtered-after_lines,
}

-- The calls of `read` of a client that stops at the first error, one for each buffer size.
pub record Drained : Type 0 where
  pub out : Bytes
  pub reader : FilteringReader
  pub left : List SourceRead
  pub failed : Bool

-- What the client has after one outcome, from the calls that follow it.
continue : ReadOutcome → FilteringReader → List SourceRead → Drained → Drained
continue read_error r left later = record { out = []; reader = r; left = left; failed = true }
continue (read_bytes bs) r left later = record later { out = bs ++ later.out }

unfoldable pub drain : CommandFilter → FilteringReader → List ℕ → List SourceRead → Drained
unfolding continue read
drain rules r [] src = record { out = []; reader = r; left = src; failed = false }
drain rules r (n ∷ ns) src =
    let (o, r', left) = read rules r n src in
    let later = drain rules r' ns left in continue o r' left later

-- The bytes of the source's answers.
unfoldable pub source_bytes : List SourceRead → Bytes
source_bytes [] = []
source_bytes (s ∷ src) = s.bytes ++ source_bytes src

unfoldable pub outcome_bytes : ReadOutcome → Bytes
outcome_bytes (read_bytes bs) = bs
outcome_bytes read_error = []

take-append-drop : (n : ℕ) (xs : Bytes) → take n xs ++ drop n xs ≡ xs
take-append-drop zero xs = refl
take-append-drop (suc n) [] = refl
take-append-drop (suc n) (x ∷ xs) = rw (take-append-drop n xs)

write_filtered-append :
    (rules : CommandFilter) (xs ys : Bytes) (r : FilteringReader)
    → write_filtered rules r (xs ++ ys) ≡ write_filtered rules (write_filtered rules r xs) ys
unfolding write_filtered
write_filtered-append rules [] ys r = refl
write_filtered-append rules (x ∷ xs) ys r = write_filtered-append rules xs ys (write_byte rules r x)

source_bytes-append :
    (xs ys : List SourceRead) → source_bytes (xs ++ ys) ≡ source_bytes xs ++ source_bytes ys
unfolding source_bytes
source_bytes-append [] ys = refl
source_bytes-append (x ∷ xs) ys =
    rw (source_bytes-append xs ys, append_assoc x.bytes (source_bytes xs) (source_bytes ys))

-- A reader with more in front of what waits to be read.
abbrev pub put_back : Bytes → FilteringReader → FilteringReader
put_back bs r = record r { buf = bs ++ r.buf }

put_back-write_filtered :
    (rules : CommandFilter) (r : FilteringReader) (bs ys : Bytes)
    → write_filtered rules (put_back bs r) ys ≡ put_back bs (write_filtered rules r ys)
unfolding after_lines
put_back-write_filtered rules r bs ys =
    rw (write_filtered-after_lines rules (put_back bs r) ys, write_filtered-after_lines rules r ys)
      (rw (append_assoc bs r.buf (allowed rules (complete_lines r.line ys))))

-- What calls of `read` do: they take some answers of the source, and what they delivered, put back,
-- is the reader that filtered the bytes of these answers.
pub record Delivers (rules : CommandFilter) (r : FilteringReader) (src : List SourceRead)
    (out : Bytes) (r' : FilteringReader) (left : List SourceRead) : Type 0 where
  pub taken : List SourceRead
  pub splits : src ≡ taken ++ left
  pub passes : put_back out r' ≡ write_filtered rules r (source_bytes taken)

read_buf-put_back :
    (r : FilteringReader) (size : ℕ)
    → put_back (outcome_bytes (read_buf r size).0) (read_buf r size).1 ≡ r
unfolding read_buf outcome_bytes
read_buf-put_back r size = ap (λ b. record r { buf = b }) (take-append-drop size r.buf)

abbrev ReadDelivers :
    CommandFilter
    → FilteringReader
    → List SourceRead
    → ReadOutcome × FilteringReader × List SourceRead
    → Type 0
ReadDelivers rules r src (o, r', left) = Delivers rules r src (outcome_bytes o) r' left

-- One answer of the source, filtered, stands before what follows it.
Delivers-cons :
    (rules : CommandFilter) (r : FilteringReader) (s : SourceRead) (src : List SourceRead)
    (out : Bytes) (r' : FilteringReader) (left : List SourceRead)
    → Delivers rules (write_filtered rules r s.bytes) src out r' left
    → Delivers rules r (s ∷ src) out r' left
unfolding source_bytes
Delivers-cons rules r s src out r' left d = record {
  taken = s ∷ d.taken;
  splits = ap (◌∷◌ s) d.splits;
  passes = d.passes ∙ sym (write_filtered-append rules s.bytes (source_bytes d.taken) r);
}

Delivers-now :
    (rules : CommandFilter) (r : FilteringReader) (src : List SourceRead) (out : Bytes)
    (r' : FilteringReader)
    → put_back out r' ≡ r
    → Delivers rules r src out r' src
unfolding source_bytes write_filtered
Delivers-now rules r src out r' e = record { taken = []; splits = refl; passes = e }

read-Delivers :
    (rules : CommandFilter) (size : ℕ) (src : List SourceRead) (r : FilteringReader)
    → ReadDelivers rules r src (read rules r size src)
unfolding read outcome_bytes
read-Delivers rules size [] r = elim (Bool-cases (null r.buf)) [
  | inl e ↦ rw e (Delivers-now rules r [] [] r refl)
  | inr e ↦ rw e (Delivers-now rules r [] _ _ (read_buf-put_back r size))
]
read-Delivers rules size (s ∷ src) r =
    let r' = write_filtered rules r s.bytes in
    elim (Bool-cases (null r.buf)) [
      | inr e ↦ rw e (Delivers-now rules r (s ∷ src) _ _ (read_buf-put_back r size))
      | inl e ↦ rw e (elim (Bool-cases s.failed) [
        | inr f ↦ simp f (Delivers-cons rules r s src _ _ _ (read-Delivers rules size src r'))
        | inl f ↦ simp f (elim (Bool-cases (null r'.buf)) [
          | inl g ↦
              rw g (Delivers-cons rules r s src [] r' src (Delivers-now rules r' src [] r' refl))
          | inr g ↦ rw g (
              Delivers-cons rules r s src _ _ src
                (Delivers-now rules r' src _ _ (read_buf-put_back r' size)))
        ])
      ])
    ]

DrainDelivers : CommandFilter → FilteringReader → List SourceRead → Drained → Type 0
DrainDelivers rules r src d = Delivers rules r src d.out d.reader d.left

-- One outcome, and the calls that follow it.
continue-Delivers :
    (rules : CommandFilter) (r : FilteringReader) (src : List SourceRead) (o : ReadOutcome)
    (r' : FilteringReader) (left : List SourceRead) (later : Drained)
    → Delivers rules r src (outcome_bytes o) r' left
    → DrainDelivers rules r' left later
    → DrainDelivers rules r src (continue o r' left later)
unfolding DrainDelivers continue outcome_bytes
continue-Delivers rules r src read_error r' left later d e = d
continue-Delivers rules r src (read_bytes bs) r' left later d e = record {
  taken = d.taken ++ e.taken;
  splits = rw (d.splits, e.splits) (sym (append_assoc d.taken e.taken later.left));
  passes =
      ap (λ b. record later.reader { buf = b }) (append_assoc bs later.out later.reader.buf)
      ∙ ap (put_back bs) e.passes
      ∙ sym (put_back-write_filtered rules r' bs (source_bytes e.taken))
      ∙ ap (λ x. write_filtered rules x (source_bytes e.taken)) d.passes
      ∙ sym (write_filtered-append rules (source_bytes d.taken) (source_bytes e.taken) r)
      ∙ ap (write_filtered rules r) (sym (source_bytes-append d.taken e.taken));
}

drain-Delivers :
    (rules : CommandFilter) (r : FilteringReader) (sizes : List ℕ) (src : List SourceRead)
    → DrainDelivers rules r src (drain rules r sizes src)
unfolding drain DrainDelivers
drain-Delivers rules r [] src = Delivers-now rules r src [] r refl
drain-Delivers rules r (n ∷ ns) src =
    let (o, r', left) = read rules r n src in
    continue-Delivers rules r src o r' left (drain rules r' ns left) (read-Delivers rules n src r)
      (unfold DrainDelivers in drain-Delivers rules r' ns left)

abbrev pub fresh : FilteringReader
fresh = record { buf = []; line = []; notified = [] }

-- Whatever sizes a client asks for and however the source cuts its bytes: what the client has got,
-- with what waits for it, is the allowed lines of the answers taken from the source, in order; what
-- follows their last line end is held back; and the user was told about each rejected line.
pub drain-allowed :
    (rules : CommandFilter) (sizes : List ℕ) (src : List SourceRead)
    → (taken : List SourceRead) × (src ≡ taken ++ (drain rules fresh sizes src).left)
      × ((drain rules fresh sizes src).out ++ (drain rules fresh sizes src).reader.buf
          ≡ allowed rules (complete_lines [] (source_bytes taken)))
      × ((drain rules fresh sizes src).reader.line ≡ unfinished [] (source_bytes taken))
      × ((drain rules fresh sizes src).reader.notified
          ≡ notices rules (complete_lines [] (source_bytes taken)))
unfolding DrainDelivers after_lines
drain-allowed rules sizes src =
    let d = drain-Delivers rules fresh sizes src in
    let e = d.passes ∙ write_filtered-after_lines rules fresh (source_bytes d.taken) in
    (d.taken, d.splits, ap (λ r. r.buf) e, ap (λ r. r.line) e, ap (λ r. r.notified) e)
