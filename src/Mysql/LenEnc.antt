-- ===== src/Mysql/LenEnc.antt =====
-- Length-encoded integers and strings of mysql_protocol.go.
pub mod RoundTrip
use turjmp.Prelude.{
  ℕ, zero, suc, ◌+◌, ◌-◌, ◌*◌, ◌/◌, ◌%◌, ◌^◌, ◌≤◌, ◌<◌, ◌≡◌, refl, sym, ap, ◌∙◌, ◌≢◌, ◌↔◌, ◌⊎◌, inl,
  inr, Bool, true, false, not, ◌&&◌, ◌||◌, Option, none, some, List, [], ◌∷◌, ◌++◌, append-nil,
  append_assoc, arith, ltb, leb, ◌==◌, if◌then◌else◌, ltb→lt, lt→ltb, leb→le, ==_iff, ==_refl,
  Bool-cases, Option-cases, length, get_or, take, drop, replicate, slice, null, any, all, find?,
  All, length-append, take-append_length, drop-append_length, length-take, length-drop,
  length-replicate, drop-append_add, get_or-append_add, Text, Bytes, IsByte, codes, text_eq,
  text_eq→eq, text_eq_refl, text_eq_iff, le_bytes, le_value, le_value-le_bytes, length-le_bytes,
  le_bytes-IsByte,
}

-- `byte(n)`
abbrev pub byte : ℕ → ℕ
byte n = n % 256

-- `writeLenEncInt`: what is appended to the buffer; `n >> 8` is `n / 256`.
unfoldable pub write_len_enc_int : Bytes → ℕ → Bytes
write_len_enc_int buf n =
    if ltb n 251
    then buf ++ (byte n ∷ [])
    else if leb n 0xffff
    then (buf ++ (0xfc ∷ [])) ++ le_bytes 2 (n % 2 ^ 16)
    else if leb n 0xffffff
    then (((buf ++ (0xfd ∷ [])) ++ (byte n ∷ [])) ++ (byte (n / 2 ^ 8) ∷ []))
      ++ (byte (n / 2 ^ 16) ∷ [])
    else (buf ++ (0xfe ∷ [])) ++ le_bytes 8 n

-- `writeLenEncString`, on the bytes of the string.
unfoldable pub write_len_enc_string : Bytes → Bytes → Bytes
unfolding write_len_enc_int
write_len_enc_string buf value = write_len_enc_int buf (length value) ++ value

-- `readLenEncInt`: the value and the next position; `none` is Go's `0, pos, false`.
unfoldable pub read_len_enc_int : Bytes → ℕ → Option (ℕ × ℕ)
read_len_enc_int payload pos =
    let first = get_or payload pos 0 in
    if leb (length payload) pos
    then none
    else if first == 0xfc
    then if ltb (length payload) (pos + 3)
      then none
      else some (le_value (slice payload (pos + 1) (pos + 3)), pos + 3)
    else if first == 0xfd
    then if ltb (length payload) (pos + 4)
      then none
      else some (
        get_or payload (pos + 1) 0
            + get_or payload (pos + 2) 0 * 2 ^ 8
            + get_or payload (pos + 3) 0 * 2 ^ 16,
        pos + 4,
      )
    else if first == 0xfe
    then if ltb (length payload) (pos + 9)
      then none
      else some (le_value (slice payload (pos + 1) (pos + 9)), pos + 9)
    else some (first, pos + 1)
