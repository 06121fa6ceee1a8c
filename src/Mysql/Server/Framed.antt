-- ===== src/Mysql/Server/Framed.antt =====
-- Packets that follow one another, and a client that reads them.
use turjmp.Prelude.{
  ℕ, zero, suc, ◌+◌, ◌%◌, ◌≤◌, ◌<◌, ◌≡◌, refl, sym, ap, List, [], ◌∷◌, ◌++◌, append-nil,
  append_assoc, arith, length, All, Bytes,
}
use turjmp.Mysql.{mysql_max_packet_size}
use turjmp.Mysql.Packet.{
  got, eof, unexpected_eof, too_large, read_full, read_mysql_packet, write_mysql_packet,
}
use turjmp.Mysql.Packet.Framing.{read_mysql_packet-write_mysql_packet}
use turjmp.Mysql.Server.{sent}

-- The packets with their sequence numbers, which count on from the first and wrap around at 256.
abbrev pub numbered : ℕ → List Bytes → List (Bytes × ℕ)
numbered seq [] = []
numbered seq (payload ∷ payloads) = (payload, seq) ∷ numbered ((seq + 1) % 256) payloads

abbrev pub framed : ℕ → List Bytes → Bytes
framed seq [] = []
framed seq (payload ∷ payloads) =
    sent (write_mysql_packet seq payload) ++ framed ((seq + 1) % 256) payloads

abbrev pub seq_after : ℕ → List Bytes → ℕ
seq_after seq [] = seq
seq_after seq (payload ∷ payloads) = seq_after ((seq + 1) % 256) payloads

abbrev pub FitsPacket : Bytes → Type 0
FitsPacket payload = length payload ≤ mysql_max_packet_size

-- A client that reads packets until the connection ends; each round takes one.
unfoldable pub read_packets : ℕ → Bytes → List (Bytes × ℕ)
read_packets zero conn = []
read_packets (suc fuel) conn = elim (read_mysql_packet conn) [
  | got packet rest ↦ packet ∷ read_packets fuel rest
  | eof ↦ []
  | unexpected_eof ↦ []
  | too_large ↦ []
]

pub read_packets-framed :
    (fuel seq : ℕ) (payloads : List Bytes)
    → All FitsPacket payloads
    → length payloads < fuel
    → read_packets fuel (framed seq payloads) ≡ numbered seq payloads
unfolding read_packets
read_packets-framed zero seq payloads f h = absurd (omega (arith, h))
read_packets-framed (suc fuel) seq [] f h = unfold read_mysql_packet read_full in refl
read_packets-framed (suc fuel) seq (payload ∷ payloads) (g, f) h =
    let rest = framed ((seq + 1) % 256) payloads in
    let (packet, written, back) = read_mysql_packet-write_mysql_packet seq payload rest g in
    rw (written, back, read_packets)
      (ap (◌∷◌ (payload, seq))
        (read_packets-framed fuel ((seq + 1) % 256) payloads f (omega (arith, h))))

pub framed-append :
    (seq : ℕ) (payloads : List Bytes) (payload : Bytes)
    → framed seq (payloads ++ payload ∷ [])
      ≡ framed seq payloads ++ sent (write_mysql_packet (seq_after seq payloads) payload)
framed-append seq [] payload = append-nil _
framed-append seq (q ∷ qs) payload =
    rw (framed-append ((seq + 1) % 256) qs payload)
      (sym (append_assoc (sent (write_mysql_packet seq q)) (framed ((seq + 1) % 256) qs) _))

pub seq_after-append :
    (seq : ℕ) (payloads : List Bytes) (payload : Bytes)
    → seq_after seq (payloads ++ payload ∷ []) ≡ (seq_after seq payloads + 1) % 256
seq_after-append seq [] payload = refl
seq_after-append seq (q ∷ qs) payload = seq_after-append ((seq + 1) % 256) qs payload

pub Fits-append :
    (payloads : List Bytes) (payload : Bytes)
    → All FitsPacket payloads
    → FitsPacket payload
    → All FitsPacket (payloads ++ payload ∷ [])
Fits-append [] payload h k = (k, tt)
Fits-append (q ∷ qs) payload (g, h) k = (g, Fits-append qs payload h k)

-- A writer without an error has written these packets, from number 1 on.
