-- ===== src/Mysql/Packet.antt =====
-- readMySQLPacket and writeMySQLPacket. A connection to read from is the list of the bytes that
-- are still to come before it ends.
pub mod Framing
use turjmp.Prelude.{
  ℕ, zero, suc, ◌+◌, ◌-◌, ◌*◌, ◌/◌, ◌%◌, ◌^◌, ◌≤◌, ◌<◌, ◌≡◌, refl, sym, ap, ◌∙◌, ◌≢◌, ◌↔◌, ◌⊎◌, inl,
  inr, Bool, true, false, not, ◌&&◌, ◌||◌, Option, none, some, List, [], ◌∷◌, ◌++◌, append-nil,
  append_assoc, arith, ltb, leb, ◌==◌, if◌then◌else◌, ltb→lt, lt→ltb, leb→le, ==_iff, ==_refl,
  Bool-cases, Option-cases, length, get_or, take, drop, replicate, slice, null, any, all, find?,
  All, length-append, take-append_length, drop-append_length, length-take, length-drop,
  length-replicate, drop-append_add, get_or-append_add, slice-append_add, slice_middle, Text, Bytes,
  IsByte, codes, text_eq, text_eq→eq, text_eq_refl, text_eq_iff, le_bytes, le_value,
  le_value-le_bytes, length-le_bytes, le_bytes-IsByte,
}
use turjmp.Mysql.{mysql_max_packet_size}

-- What a read returns: a value with the bytes that are left, or the error of the connection.
pub data ReadResult {ℓ} (A : Type ℓ) : Type ℓ where
  got : A → Bytes → ReadResult A
  eof : ReadResult A
  unexpected_eof : ReadResult A
  too_large : ReadResult A

-- io.ReadFull
unfoldable pub read_full : ℕ → Bytes → ReadResult Bytes
read_full n conn =
    if leb n (length conn)
    then got (take n conn) (drop n conn)
    else if null conn
    then eof
    else unexpected_eof

-- `int(header[0]) | int(header[1])<<8 | int(header[2])<<16`: the operands have no bit in common.
unfoldable pub payload_length : Bytes → ℕ
payload_length header = get_or header 0 0 + get_or header 1 0 * 2 ^ 8 + get_or header 2 0 * 2 ^ 16

-- The packet's payload and its sequence number.
read_payload : ℕ → ReadResult Bytes → ReadResult (Bytes × ℕ)
read_payload seq (got payload rest) = got (payload, seq) rest
read_payload seq eof = eof
read_payload seq unexpected_eof = unexpected_eof
read_payload seq too_large = too_large

read_body : ReadResult Bytes → ReadResult (Bytes × ℕ)
read_body (got header rest) =
    if ltb mysql_max_packet_size (payload_length header)
    then too_large
    else read_payload (get_or header 3 0) (read_full (payload_length header) rest)
read_body eof = eof
read_body unexpected_eof = unexpected_eof
read_body too_large = too_large

unfoldable pub read_mysql_packet : Bytes → ReadResult (Bytes × ℕ)
unfolding read_full payload_length read_payload read_body
read_mysql_packet conn = read_body (read_full 4 conn)

-- The bytes that are written; `none` is the error for a payload that is too large.
unfoldable pub write_mysql_packet : ℕ → Bytes → Option Bytes
write_mysql_packet seq payload =
    if ltb mysql_max_packet_size (length payload)
    then none
    else some (
        (length payload % 256)
        ∷ (length payload / 2 ^ 8 % 256)
        ∷ (length payload / 2 ^ 16 % 256)
        ∷ seq
        ∷ payload)
