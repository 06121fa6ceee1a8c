-- ===== src/Mysql/Packet/Framing.antt =====
-- Framing: what is written is read back, packet by packet.
use turjmp.Prelude.{
  ℕ, ◌+◌, ◌/◌, ◌%◌, ◌^◌, ◌≤◌, ◌<◌, ◌≡◌, refl, ◌≢◌, inl, inr, none, some, [], ◌∷◌, ◌++◌, arith, ltb,
  leb, Bool-cases, length, null, All, length-append, take-append_length, drop-append_length,
  length-drop, Bytes, IsByte,
}
use turjmp.Mysql.{mysql_max_packet_size}
use turjmp.Mysql.Packet.{
  got, too_large, read_full, payload_length, read_payload, read_body, read_mysql_packet,
  write_mysql_packet,
}

read_full-append : (s rest : Bytes) → read_full (length s) (s ++ rest) ≡ got s rest
unfolding read_full
read_full-append s rest =
    ground (arith, length-append s rest, take-append_length s rest, drop-append_length s rest)

read_full_header :
    (a b c d : ℕ) (s : Bytes) → read_full 4 (a ∷ b ∷ c ∷ d ∷ s) ≡ got (a ∷ b ∷ c ∷ d ∷ []) s
unfolding read_full
read_full_header a b c d s = ground arith

payload_length_lem :
    (n d : ℕ)
    → n ≤ mysql_max_packet_size
    → payload_length ((n % 256) ∷ (n / 2 ^ 8 % 256) ∷ (n / 2 ^ 16 % 256) ∷ d ∷ []) ≡ n
unfolding payload_length
payload_length_lem n d h = omega arith

read_body_step :
    (n d : ℕ) (rest : Bytes)
    → n ≤ mysql_max_packet_size
    → read_body (got ((n % 256) ∷ (n / 2 ^ 8 % 256) ∷ (n / 2 ^ 16 % 256) ∷ d ∷ []) rest)
      ≡ read_payload d (read_full n rest)
unfolding read_body
read_body_step n d rest h = rw (payload_length_lem n d h) (ground arith)

-- A payload of at most 2^24 - 1 bytes is written, and read back with its sequence number; the bytes
-- that follow it stay in the connection.
pub read_mysql_packet-write_mysql_packet :
    (seq : ℕ) (payload rest : Bytes)
    → length payload ≤ mysql_max_packet_size
    → (packet : Bytes) × (write_mysql_packet seq payload ≡ some packet)
      × (read_mysql_packet (packet ++ rest) ≡ got (payload, seq) rest)
unfolding write_mysql_packet read_mysql_packet
read_mysql_packet-write_mysql_packet seq payload rest h = (
  (length payload % 256)
      ∷ (length payload / 2 ^ 8 % 256)
      ∷ (length payload / 2 ^ 16 % 256)
      ∷ seq
      ∷ payload,
  ground arith,
  rw
      (
        read_full_header,
        read_body_step (length payload) seq (payload ++ rest) h,
        read_full-append payload rest,
      )
      (unfold read_payload in refl),
)

-- A payload that is too large is not written.
pub write_mysql_packet_too_large :
    (seq : ℕ) (payload : Bytes)
    → mysql_max_packet_size < length payload
    → write_mysql_packet seq payload ≡ none
unfolding write_mysql_packet
write_mysql_packet_too_large seq payload h = ground arith

-- The size test of the reader never fires: three bytes cannot say more than 2^24 - 1.
read_mysql_packet-ne-too_large :
    (conn : Bytes) → All IsByte conn → read_mysql_packet conn ≢ too_large
unfolding read_mysql_packet
read_mysql_packet-ne-too_large [] h = ground arith
read_mysql_packet-ne-too_large (a ∷ []) h = ground arith
read_mysql_packet-ne-too_large (a ∷ b ∷ []) h = ground arith
read_mysql_packet-ne-too_large (a ∷ b ∷ c ∷ []) h = ground arith
read_mysql_packet-ne-too_large (a ∷ b ∷ c ∷ d ∷ conn) h = ground arith

read_payload_rest :
    (seq n : ℕ) (conn payload rest : Bytes) (seq' : ℕ)
    → read_payload seq (read_full n conn) ≡ got (payload, seq') rest
    → length rest ≤ length conn
unfolding read_payload read_full
read_payload_rest seq n conn payload rest seq' h = elim (Bool-cases (leb n (length conn))) [
  | inl e ↦ ground (arith, e, h, length-drop n conn)
  | inr e ↦ elim (Bool-cases (null conn)) [
    | inl f ↦ absurd (ground (arith, e, f, h))
    | inr f ↦ absurd (ground (arith, e, f, h))
  ]
]

-- A packet takes the four bytes of its header at least.
pub read_mysql_packet_rest :
    (conn payload rest : Bytes) (seq : ℕ)
    → read_mysql_packet conn ≡ got (payload, seq) rest
    → length rest + 4 ≤ length conn
unfolding read_mysql_packet read_full read_body
read_mysql_packet_rest [] payload rest seq h = absurd (cc h)
read_mysql_packet_rest (a ∷ []) payload rest seq h = absurd (cc h)
read_mysql_packet_rest (a ∷ b ∷ []) payload rest seq h = absurd (cc h)
read_mysql_packet_rest (a ∷ b ∷ c ∷ []) payload rest seq h = absurd (cc h)
read_mysql_packet_rest (a ∷ b ∷ c ∷ d ∷ conn) payload rest seq h =
    let n = payload_length (a ∷ b ∷ c ∷ d ∷ []) in
    elim (Bool-cases (ltb mysql_max_packet_size n)) [
      | inl e ↦ absurd (ground (arith, e, h))
      | inr e ↦ ground (arith, read_payload_rest d n conn payload rest seq (ground (arith, e, h)))
    ]
