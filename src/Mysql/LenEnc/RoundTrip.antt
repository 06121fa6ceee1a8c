-- ===== src/Mysql/LenEnc/RoundTrip.antt =====
-- What `read_len_enc_int` makes of what `write_len_enc_int` wrote.
use turjmp.Prelude.{
  slice-append_add, ℕ, ◌+◌, ◌/◌, ◌%◌, ◌^◌, ◌<◌, ◌≡◌, inl, inr, Option, none, some, [], ◌∷◌, ◌++◌,
  append_assoc, arith, ltb, leb, if◌then◌else◌, Bool-cases, length, slice, length-append,
  get_or-append_add, Bytes, le_bytes,
}
use turjmp.Mysql.LenEnc.{byte, write_len_enc_int, read_len_enc_int}

-- The encoding alone.
unfoldable pub encoding : ℕ → Bytes
encoding n =
    if ltb n 251
    then byte n ∷ []
    else if leb n 0xffff
    then 0xfc ∷ le_bytes 2 (n % 2 ^ 16)
    else if leb n 0xffffff
    then 0xfd ∷ byte n ∷ byte (n / 2 ^ 8) ∷ byte (n / 2 ^ 16) ∷ []
    else 0xfe ∷ le_bytes 8 n

pub write_len_enc_int-encoding : (buf : Bytes) (n : ℕ) → write_len_enc_int buf n ≡ buf ++ encoding n
unfolding write_len_enc_int encoding
write_len_enc_int-encoding buf n = elim (Bool-cases (ltb n 251)) [
  | inl e ↦ rw e
  | inr e ↦ rw e (elim (Bool-cases (leb n 0xffff)) [
    | inl f ↦ rw f (append_assoc buf (0xfc ∷ []) _)
    | inr f ↦ rw f (elim (Bool-cases (leb n 0xffffff)) [
      | inl g ↦ rw g (simp append_assoc)
      | inr g ↦ rw g (append_assoc buf (0xfe ∷ []) _)
    ])
  ])
]

-- A result moved behind a front part of `k` bytes.
abbrev pub moved : ℕ → Option (ℕ × ℕ) → Option (ℕ × ℕ)
moved k none = none
moved k (some (v, p)) = some (v, k + p)

-- The reader looks at nothing before its position.
pub read_len_enc_int-append :
    (pre s : Bytes)
    → read_len_enc_int (pre ++ s) (length pre) ≡ moved (length pre) (read_len_enc_int s 0)
unfolding read_len_enc_int
read_len_enc_int-append pre s = ground (
  arith,
  length-append pre s,
  get_or-append_add pre s 0 0,
  get_or-append_add pre s 1 0,
  get_or-append_add pre s 2 0,
  get_or-append_add pre s 3 0,
  slice-append_add pre s 1 3,
  slice-append_add pre s 1 9,
)

read_len_enc_int-encoding :
    (n : ℕ) (rest : Bytes)
    → n < 2 ^ 64
    → read_len_enc_int (encoding n ++ rest) 0 ≡ some (n, length (encoding n))
unfolding read_len_enc_int encoding slice
read_len_enc_int-encoding n rest h = elim (Bool-cases (ltb n 251)) [
  | inl e ↦ rw e (ground arith)
  | inr e ↦ rw e (elim (Bool-cases (leb n 0xffff)) [
    | inl f ↦ rw f (ground arith)
    | inr f ↦ rw f (elim (Bool-cases (leb n 0xffffff)) [
      | inl g ↦ rw g (ground arith)
      | inr g ↦ rw g (ground arith)
    ])
  ])
]

-- `readLenEncInt` returns every uint64 that `writeLenEncInt` appended to a buffer, whatever
-- follows it, and the position behind it.
read_len_enc_int-write_len_enc_int :
    (buf : Bytes) (n : ℕ) (rest : Bytes)
    → n < 2 ^ 64
    → read_len_enc_int (write_len_enc_int buf n ++ rest) (length buf)
      ≡ some (n, length (write_len_enc_int buf n))
read_len_enc_int-write_len_enc_int buf n rest h = rw (
  write_len_enc_int-encoding buf n,
  append_assoc buf (encoding n) rest,
  read_len_enc_int-append buf (encoding n ++ rest),
  read_len_enc_int-encoding n rest h,
  length-append buf (encoding n),
)

pub read_len_enc_int_at :
    (payload pre s : Bytes) (pos n : ℕ)
    → payload ≡ pre ++ (write_len_enc_int [] n ++ s)
    → pos ≡ length pre
    → n < 2 ^ 64
    → read_len_enc_int payload pos ≡ some (n, pos + length (write_len_enc_int [] n))
read_len_enc_int_at payload pre s pos n e f h = rw (
  e,
  f,
  write_len_enc_int-encoding [] n,
  read_len_enc_int-append pre (encoding n ++ s),
  read_len_enc_int-encoding n s h,
)
