-- ===== src/Mysql/Handshake.antt =====
-- The handshake of mysql_protocol.go: the packet that the proxy sends, and the parsing of what the
-- client answers.
pub mod RoundTrip
pub mod Bounds
use turjmp.Prelude.{
  ℕ, zero, suc, ◌+◌, ◌-◌, ◌*◌, ◌/◌, ◌%◌, ◌^◌, ◌≤◌, ◌<◌, ◌≡◌, refl, sym, ap, ◌∙◌, ◌≢◌, ◌↔◌, ◌⊎◌, inl,
  inr, Bool, true, false, not, ◌&&◌, ◌||◌, Option, none, some, List, [], ◌∷◌, ◌++◌, append-nil,
  append_assoc, arith, ltb, leb, ◌==◌, if◌then◌else◌, ltb→lt, lt→ltb, leb→le, ==_iff, ==_refl,
  Bool-cases, Option-cases, length, get_or, take, drop, replicate, slice, null, any, all, filter,
  find?, All, length-append, take-append_length, drop-append_length, length-take, length-drop,
  length-replicate, drop-append_add, get_or-append_add, slice-append_add, slice_middle, slice_at,
  ◌∈◌, ∈-append_left, ∈-append_right, ∈-append_cases, ∈-filter, filter-∈, any-∈, if-∈, ∈-any,
  length-filter_split, null-length, find?-found, find?-append, find?-none, any-append, all-append,
  Text, Bytes, IsByte, codes, text_eq, text_eq→eq, text_eq_refl, text_eq_iff, le_bytes, le_value,
  le_value-le_bytes, length-le_bytes, le_bytes-IsByte,
}
use turjmp.Strings.{trim_right, index_byte, utf8_valid}
use turjmp.Mysql.{
  has_flag, mysql_client_connect_with_db, mysql_client_secure_conn,
  mysql_client_plugin_auth_len_enc, mysql_status_autocommit,
}
use turjmp.Mysql.LenEnc.{read_len_enc_int}

pub data HandshakeError : Type 0 where
  too_short missing_username invalid_auth : HandshakeError

-- `crash` is the run-time panic of a slice expression whose bounds are out of range.
pub data Parsed {ℓ} (A : Type ℓ) : Type ℓ where
  ok : A → Parsed A
  err : HandshakeError → Parsed A
  crash : Parsed A

infixl 5 ◌>>=◌
abbrev pub ◌>>=◌ {ℓ κ} : {A : Type ℓ} {B : Type κ} → Parsed A → (A → Parsed B) → Parsed B
ok a >>= f = f a
err e >>= f = err e
crash >>= f = crash

pub record HandshakeResponse : Type 0 where
  pub username : Bytes
  pub password : Bytes
  pub database : Bytes

-- `payload[lo:hi]`, `payload[lo:]` and `payload[i]`, which panic out of range; the capacity of a payload
-- is its length, as readMySQLPacket makes it.
unfoldable pub slice_expr : Bytes → ℕ → ℕ → Parsed Bytes
slice_expr payload lo hi =
    if ltb hi lo || ltb (length payload) hi then crash else ok (slice payload lo hi)

unfoldable pub tail_expr : Bytes → ℕ → Parsed Bytes
tail_expr payload lo = if ltb (length payload) lo then crash else ok (drop lo payload)

unfoldable pub index_expr : Bytes → ℕ → Parsed ℕ
index_expr payload i = if leb (length payload) i then crash else ok (get_or payload i 0)

-- The value and the next position; `none` is `nil, pos, false`.
unfoldable pub read_null_bytes : Bytes → ℕ → Parsed (Option (Bytes × ℕ))
read_null_bytes payload pos =
    if ltb (length payload) pos
    then ok none
    else tail_expr payload pos >>= λ tail. (elim (index_byte 0 tail) [
      | none ↦ ok none
      | some i ↦ slice_expr payload pos (pos + i) >>= λ value. ok (some (value, pos + i + 1))
    ])

-- The bit pattern of `next + int(n)` in 64-bit two's complement; from 2^63 on it is negative.
unfoldable pub int_sum : ℕ → ℕ → ℕ
int_sum next n = (next + n) % 2 ^ 64

unfoldable pub is_negative : ℕ → Bool
is_negative x = leb (2 ^ 63) x

-- The case CLIENT_PLUGIN_AUTH_LENENC_CLIENT_DATA, from the length that was read. A negative bound
-- is not above `len(payload)`, so the test lets it pass, and the slice expression panics.
unfoldable pub read_len_enc_auth : Bytes → ℕ → ℕ → Parsed (Bytes × ℕ)
unfolding int_sum is_negative
read_len_enc_auth payload n next =
    let end = int_sum next n in
    if not (is_negative end) && ltb (length payload) end
    then err invalid_auth
    else if is_negative end
    then crash
    else slice_expr payload next end >>= λ value. ok (value, end)

-- The case CLIENT_SECURE_CONNECTION.
unfoldable pub read_secure_auth : Bytes → ℕ → Parsed (Bytes × ℕ)
read_secure_auth payload pos =
    if leb (length payload) pos
    then err invalid_auth
    else index_expr payload pos >>= λ n.
        (if ltb (length payload) (pos + 1 + n)
          then err invalid_auth
          else slice_expr payload (pos + 1) (pos + 1 + n) >>= λ value. ok (value, pos + 1 + n))

unfoldable pub or_invalid : Option (Bytes × ℕ) → Parsed (Bytes × ℕ)
or_invalid none = err invalid_auth
or_invalid (some r) = ok r

unfoldable pub read_auth_response : Bytes → ℕ → ℕ → Parsed (Bytes × ℕ)
unfolding or_invalid
read_auth_response payload pos flags =
    if ltb (length payload) pos
    then err invalid_auth
    else if has_flag flags mysql_client_plugin_auth_len_enc
    then elim (read_len_enc_int payload pos) [
      | none ↦ err invalid_auth
      | some (n, next) ↦ read_len_enc_auth payload n next
    ]
    else if has_flag flags mysql_client_secure_conn
    then read_secure_auth payload pos
    else read_null_bytes payload pos >>= or_invalid

unfoldable pub printable_auth_response : Bytes → Bytes
printable_auth_response raw =
    let trimmed = trim_right (λ b. b == 0) raw in
    if null trimmed || not (utf8_valid trimmed)
    then []
    else if any (λ b. ltb b 0x20 || b == 0x7f) trimmed
    then []
    else trimmed

unfoldable pub username_field : Option (Bytes × ℕ) → Parsed (Bytes × ℕ)
username_field none = err missing_username
username_field (some r) = ok r

-- The text of a field that does not end is empty.
abbrev pub or_empty : Option (Bytes × ℕ) → Bytes
or_empty none = []
or_empty (some (value, next)) = value

unfoldable pub database_field : Bytes → ℕ → ℕ → Parsed Bytes
database_field payload pos flags =
    if has_flag flags mysql_client_connect_with_db && ltb pos (length payload)
    then (read_null_bytes payload pos >>= λ field. ok (or_empty field))
    else ok []

unfoldable pub parse_fields : Bytes → ℕ → Parsed HandshakeResponse
unfolding username_field
parse_fields payload flags = do
  field ← read_null_bytes payload 32
  (username, pos) ← username_field field
  (auth, pos') ← read_auth_response payload pos flags
  database ← database_field payload pos' flags
  ok (record { username = username; password = printable_auth_response auth; database = database })

unfoldable pub parse_handshake_response : Bytes → Parsed HandshakeResponse
unfolding parse_fields
parse_handshake_response payload =
    if ltb (length payload) 32
    then err too_short
    else slice_expr payload 0 4 >>= λ bytes. parse_fields payload (le_value bytes)
