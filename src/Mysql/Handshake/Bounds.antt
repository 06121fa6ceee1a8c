-- ===== src/Mysql/Handshake/Bounds.antt =====
-- Which client responses make the slice expression of the authentication field panic.
use turjmp.Prelude.{
  ℕ, ◌+◌, ◌^◌, ◌≤◌, ◌<◌, ◌≡◌, refl, sym, ap, ◌∙◌, ◌≢◌, ◌↔◌, inl, inr, true, false, ◌&&◌, Option,
  none, some, [], ◌∷◌, ◌++◌, append_assoc, arith, ltb, leb, ◌==◌, Bool-cases, Option-cases, length,
  drop, slice, length-append, length-drop, Bytes, le_value,
}
use turjmp.Strings.Split.{Lacks}
use turjmp.Mysql.{
  has_flag, mysql_client_plugin_auth_len_enc, mysql_client_secure_conn,
  mysql_client_connect_with_db,
}
use turjmp.Mysql.LenEnc.{write_len_enc_int}
use turjmp.Mysql.LenEnc.RoundTrip.{read_len_enc_int_at}
use turjmp.Mysql.Handshake.{
  Parsed, HandshakeError, ok, err, crash, too_short, missing_username, invalid_auth, ◌>>=◌,
  slice_expr, tail_expr, index_expr, read_null_bytes, read_len_enc_auth, read_secure_auth,
  or_invalid, username_field, or_empty, database_field, read_auth_response, parse_fields,
  parse_handshake_response,
}
use turjmp.Strings.{index_byte}
use turjmp.Mysql.Handshake.RoundTrip.{response_header, read_null_bytes_at, length-response_header}

-- On an announced length `n` behind position `next` of the payload, the slice expression panics
-- exactly when `next + n` does not fit an int64.
pub read_len_enc_auth_crash_iff :
    (payload : Bytes) (n next : ℕ)
    → next ≤ length payload
    → length payload < 2 ^ 63
    → n < 2 ^ 64
    → (read_len_enc_auth payload n next ≡ crash) ↔ (2 ^ 63 ≤ next + n)
unfolding read_len_enc_auth slice_expr
read_len_enc_auth_crash_iff payload n next a b c = ground arith

overflow-crash :
    (payload : Bytes) (n next : ℕ)
    → next ≤ length payload
    → length payload < 2 ^ 63
    → n < 2 ^ 64
    → 2 ^ 63 ≤ next + n
    → read_len_enc_auth payload n next ≡ crash
overflow-crash payload n next a b c = (read_len_enc_auth_crash_iff payload n next a b c).1

bind-ne-crash {ℓ κ} :
    {A : Type ℓ} {B : Type κ} (m : Parsed A) (f : A → Parsed B)
    → m ≢ crash
    → ((a : A) → f a ≢ crash)
    → m >>= f ≢ crash
bind-ne-crash (ok a) f h k = k a
bind-ne-crash (err e) f h k = λ q. cc q
bind-ne-crash crash f h k = λ q. h refl

ok-ne-crash {ℓ} : {A : Type ℓ} (a : A) → ok a ≢ crash
ok-ne-crash a = λ q. cc q

err-ne-crash {ℓ} :
    {A : Type ℓ} (e : HandshakeError) → (let failed : Parsed A = err e in failed ≢ crash)
err-ne-crash e = λ q. cc q

slice_expr_within :
    (payload : Bytes) (lo hi : ℕ) → lo ≤ hi → hi ≤ length payload → slice_expr payload lo hi ≢ crash
unfolding slice_expr
slice_expr_within payload lo hi a b = ground (arith, a, b)

tail_expr_within :
    (payload : Bytes) (lo : ℕ) → lo ≤ length payload → tail_expr payload lo ≡ ok (drop lo payload)
unfolding tail_expr
tail_expr_within payload lo a = ground (arith, a)

index_expr_within : (payload : Bytes) (i : ℕ) → i < length payload → index_expr payload i ≢ crash
unfolding index_expr
index_expr_within payload i a = ground (arith, a)

index_byte-bound : (mark : ℕ) (s : Bytes) (i : ℕ) → index_byte mark s ≡ some i → i < length s
unfolding index_byte
index_byte-bound mark [] i h = absurd (cc h)
index_byte-bound mark (c ∷ s) i h = elim (Option-cases (index_byte mark s)) [
  | inl e ↦ elim (Bool-cases (c == mark)) [
    | inl f ↦ ground (arith, e, f, h)
    | inr f ↦ absurd (ground (arith, e, f, h))
  ]
  | inr (j, e) ↦ elim (Bool-cases (c == mark)) [
    | inl f ↦ ground (arith, e, f, h)
    | inr f ↦ ground (arith, e, f, h, index_byte-bound mark s j e)
  ]
]

read_null_bytes-ne-crash : (payload : Bytes) (pos : ℕ) → read_null_bytes payload pos ≢ crash
unfolding read_null_bytes
read_null_bytes-ne-crash payload pos = elim (Bool-cases (ltb (length payload) pos)) [
  | inl e ↦ rw (e, read_null_bytes) (ok-ne-crash none)
  | inr e ↦
      let tail = tail_expr_within payload pos (ground (arith, e)) in
      elim (Option-cases (index_byte 0 (drop pos payload))) [
        | inl f ↦ ground (arith, e, tail, f)
        | inr (i, f) ↦
            let value = slice_expr_within payload pos (pos + i) (omega arith) (
              ground
                (arith, e, length-drop pos payload, index_byte-bound 0 (drop pos payload) i f)) in
            let rest =
              bind-ne-crash {B = Option (Bytes × ℕ)} (slice_expr payload pos (pos + i))
                (λ v. ok (some (v, pos + i + 1))) value (λ v. ok-ne-crash _) in
            ground (arith, e, tail, f, rest)
      ]
]

read_secure_auth-ne-crash : (payload : Bytes) (pos : ℕ) → read_secure_auth payload pos ≢ crash
unfolding read_secure_auth
read_secure_auth-ne-crash payload pos = elim (Bool-cases (leb (length payload) pos)) [
  | inl e ↦ rw (e, read_secure_auth) (err-ne-crash invalid_auth)
  | inr e ↦
      rw (e, read_secure_auth)
        (bind-ne-crash (index_expr payload pos) _
          (index_expr_within payload pos (ground (arith, e)))
          (λ n. elim (Bool-cases (ltb (length payload) (pos + 1 + n))) [
            | inl f ↦ rw f (err-ne-crash invalid_auth)
            | inr f ↦ rw f (
                bind-ne-crash (slice_expr payload (pos + 1) (pos + 1 + n)) _
                  (slice_expr_within payload (pos + 1) (pos + 1 + n) (omega arith)
                    (ground (arith, f)))
                  (λ v. ok-ne-crash _))
          ]))
]

or_invalid-ne-crash : (r : Option (Bytes × ℕ)) → or_invalid r ≢ crash
unfolding or_invalid
or_invalid-ne-crash none = err-ne-crash invalid_auth
or_invalid-ne-crash (some r) = ok-ne-crash r

username_field-ne-crash : (r : Option (Bytes × ℕ)) → username_field r ≢ crash
unfolding username_field
username_field-ne-crash none = err-ne-crash missing_username
username_field-ne-crash (some r) = ok-ne-crash r

four_bytes :
    (payload : Bytes) → 32 ≤ length payload → slice_expr payload 0 4 ≡ ok (slice payload 0 4)
unfolding slice_expr
four_bytes payload h = ground (arith, h)

read_auth_response-ne-crash :
    (payload : Bytes) (pos flags : ℕ)
    → has_flag flags mysql_client_plugin_auth_len_enc ≡ false
    → read_auth_response payload pos flags ≢ crash
unfolding read_auth_response
read_auth_response-ne-crash payload pos flags h = elim (Bool-cases (ltb (length payload) pos)) [
  | inl e ↦ rw (e, read_auth_response) (err-ne-crash invalid_auth)
  | inr e ↦ elim (Bool-cases (has_flag flags mysql_client_secure_conn)) [
    | inl f ↦ rw (e, h, f, read_auth_response) (read_secure_auth-ne-crash payload pos)
    | inr f ↦
        rw (e, h, f, read_auth_response)
          (bind-ne-crash (read_null_bytes payload pos) or_invalid
            (read_null_bytes-ne-crash payload pos) or_invalid-ne-crash)
  ]
]

database_field-ne-crash :
    (payload : Bytes) (pos flags : ℕ) → database_field payload pos flags ≢ crash
unfolding database_field
database_field-ne-crash payload pos flags =
    elim (Bool-cases (has_flag flags mysql_client_connect_with_db && ltb pos (length payload))) [
      | inl e ↦
          rw (e, database_field)
            (bind-ne-crash (read_null_bytes payload pos) _ (read_null_bytes-ne-crash payload pos)
              (λ field. ok-ne-crash (or_empty field)))
      | inr e ↦ rw (e, database_field) (ok-ne-crash [])
    ]

-- A client that does not ask for a length-encoded field cannot make the parser panic: no slice or index
-- expression of the parser is out of range.
pub parse_handshake_response-ne-crash :
    (payload : Bytes)
    → has_flag (le_value (slice payload 0 4)) mysql_client_plugin_auth_len_enc ≡ false
    → parse_handshake_response payload ≢ crash
unfolding parse_handshake_response parse_fields
parse_handshake_response-ne-crash payload h = elim (Bool-cases (ltb (length payload) 32)) [
  | inl e ↦ rw (e, parse_handshake_response) (err-ne-crash too_short)
  | inr e ↦
      let flags = le_value (slice payload 0 4) in
      rw (e, four_bytes payload (ground (arith, e)), parse_handshake_response)
        (bind-ne-crash (read_null_bytes payload 32) _ (read_null_bytes-ne-crash payload 32)
          (λ field.
            bind-ne-crash (username_field field) _ (username_field-ne-crash field)
              (λ (username, pos).
                bind-ne-crash (read_auth_response payload pos flags) _
                  (read_auth_response-ne-crash payload pos flags h)
                  (λ (auth, pos').
                    bind-ne-crash (database_field payload pos' flags) _
                      (database_field-ne-crash payload pos' flags) (λ d. ok-ne-crash _)))))
]

-- A response with the flag for a length-encoded field and an announced length from 2^63 on.
unfoldable pub huge_response : ℕ → ℕ → ℕ → Bytes → ℕ → Bytes → Bytes
huge_response flags packet_size charset username n rest =
    response_header flags packet_size charset ++ (username ++ 0 ∷ (write_len_enc_int [] n ++ rest))

module _ (flags packet_size charset : ℕ) (username : Bytes) (n : ℕ) (rest : Bytes) where
  abbrev header : Bytes
  header = response_header flags packet_size charset

  abbrev front : Bytes
  front = header ++ (username ++ 0 ∷ [])

  abbrev payload : Bytes
  payload = huge_response flags packet_size charset username n rest

  abbrev auth_pos : ℕ
  auth_pos = 32 + length username + 1

  huge_flags : flags < 2 ^ 32 → le_value (slice payload 0 4) ≡ flags
  unfolding huge_response response_header slice
  huge_flags h = ground arith

  huge_front : payload ≡ front ++ (write_len_enc_int [] n ++ rest)
  unfolding huge_response
  huge_front =
      let tail = write_len_enc_int [] n ++ rest in
      ap (◌++◌ header) (sym (append_assoc username (0 ∷ []) tail))
      ∙ sym (append_assoc header (username ++ 0 ∷ []) tail)

  length-front : auth_pos ≡ length front
  length-front = omega (
    arith,
    length-append header (username ++ 0 ∷ []),
    length-append username (0 ∷ []),
    length-response_header flags packet_size charset,
  )

  huge_username : Lacks 0 username → read_null_bytes payload 32 ≡ ok (some (username, auth_pos))
  unfolding huge_response
  huge_username h =
      read_null_bytes_at payload header username (write_len_enc_int [] n ++ rest) 32 refl
        (sym (length-response_header flags packet_size charset)) h

  huge_auth :
      has_flag flags mysql_client_plugin_auth_len_enc ≡ true
      → 2 ^ 63 ≤ n
      → n < 2 ^ 64
      → length payload < 2 ^ 63
      → read_auth_response payload auth_pos flags ≡ crash
  unfolding read_auth_response
  huge_auth a lo hi small =
      let size = write_len_enc_int [] n in
      ground (
        arith,
        a,
        ap length huge_front,
        length-append front (size ++ rest),
        length-append size rest,
        length-front,
        read_len_enc_int_at payload front rest auth_pos n huge_front length-front hi,
        overflow-crash payload n (auth_pos + length size),
      )

  -- Whoever connects can make the proxy panic before any check of a token: a response with the flag
  -- for a length-encoded authentication field and an announced length of 2^63 or more does.
  pub huge_response-crash :
      flags < 2 ^ 32
      → has_flag flags mysql_client_plugin_auth_len_enc ≡ true
      → 2 ^ 63 ≤ n
      → n < 2 ^ 64
      → length (huge_response flags packet_size charset username n rest) < 2 ^ 63
      → Lacks 0 username
      → parse_handshake_response (huge_response flags packet_size charset username n rest) ≡ crash
  unfolding parse_handshake_response parse_fields slice_expr
  huge_response-crash hf a lo hi small hu =
      let long : ltb (length payload) 32 ≡ false = ground (
        arith,
        ap length huge_front,
        length-append front (write_len_enc_int [] n ++ rest),
        length-front,
      ) in
      let four : ltb (length payload) 4 ≡ false = ground (arith, long) in
      rw (long, four, huge_flags hf, huge_username hu, huge_auth a lo hi small)
