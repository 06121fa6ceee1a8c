-- ===== src/Mysql/Handshake/RoundTrip.antt =====
-- A client response laid out as the protocol says is parsed into its fields.
use turjmp.Prelude.{
  ℕ, suc, ◌+◌, ◌^◌, ◌<◌, ◌≡◌, refl, sym, ap, ◌∙◌, inl, inr, true, false, some, [], ◌∷◌, ◌++◌,
  append_assoc, arith, ltb, leb, if◌then◌else◌, Bool-cases, length, get_or, drop, replicate, slice,
  length-append, drop-append_length, get_or-append_add, slice_at, Bytes, le_bytes, le_value,
}
use turjmp.Strings.Split.{Lacks, index_byte-append}
use turjmp.Mysql.{
  has_flag, mysql_client_connect_with_db, mysql_client_secure_conn,
  mysql_client_plugin_auth_len_enc,
}
use turjmp.Mysql.LenEnc.{write_len_enc_int}
use turjmp.Mysql.LenEnc.RoundTrip.{read_len_enc_int_at}
use turjmp.Mysql.Handshake.{
  ok, slice_expr, tail_expr, index_expr, parse_fields, read_null_bytes, read_len_enc_auth,
  read_secure_auth, read_auth_response, or_invalid, printable_auth_response, database_field,
  parse_handshake_response,
}

pub slice_expr_at :
    (payload pre v t : Bytes) (lo hi : ℕ)
    → payload ≡ pre ++ (v ++ t)
    → lo ≡ length pre
    → hi ≡ lo + length v
    → slice_expr payload lo hi ≡ ok v
unfolding slice_expr
slice_expr_at payload pre v t lo hi e f g = ground (
  arith,
  ap length e,
  f,
  g,
  length-append pre (v ++ t),
  length-append v t,
  slice_at payload pre v t lo hi e f (rw (sym f) g),
)

-- A field that ends with a null byte, behind a front part.
pub read_null_bytes_at :
    (payload pre s t : Bytes) (pos : ℕ)
    → payload ≡ pre ++ (s ++ 0 ∷ t)
    → pos ≡ length pre
    → Lacks 0 s
    → read_null_bytes payload pos ≡ ok (some (s, pos + length s + 1))
unfolding read_null_bytes tail_expr
read_null_bytes_at payload pre s t pos e f h =
    let size : length payload ≡ length pre + (length s + suc (length t)) =
      omega (arith, ap length e, length-append pre (s ++ 0 ∷ t), length-append s (0 ∷ t)) in
    let inside : ltb (length payload) pos ≡ false = ground (arith, size, f) in
    let rest : drop pos payload ≡ s ++ 0 ∷ t = rw (e, f) (drop-append_length pre (s ++ 0 ∷ t)) in
    let value : slice_expr payload pos (pos + length s) ≡ ok s =
      slice_expr_at payload pre s (0 ∷ t) pos (pos + length s) e f refl in
    rw (inside, rest) (ground (index_byte-append 0 s t h, value, arith))

read_secure_auth_at :
    (payload pre auth t : Bytes) (pos : ℕ)
    → payload ≡ pre ++ (length auth ∷ (auth ++ t))
    → pos ≡ length pre
    → read_secure_auth payload pos ≡ ok (auth, pos + 1 + length auth)
unfolding read_secure_auth index_expr
read_secure_auth_at payload pre auth t pos e f =
    let size : length payload ≡ length pre + suc (length auth + length t) =
      omega
        (arith, ap length e, length-append pre (length auth ∷ (auth ++ t)), length-append auth t) in
    let inside : leb (length payload) pos ≡ false = ground (arith, size, f) in
    let fits : ltb (length payload) (pos + 1 + length auth) ≡ false = ground (arith, size, f) in
    let first : get_or payload pos 0 ≡ length auth =
      ground (arith, e, f, get_or-append_add pre (length auth ∷ (auth ++ t)) 0 0) in
    let behind : payload ≡ (pre ++ length auth ∷ []) ++ (auth ++ t) =
      e ∙ sym (append_assoc pre (length auth ∷ []) (auth ++ t)) in
    let start : pos + 1 ≡ length (pre ++ length auth ∷ []) =
      omega (arith, f, length-append pre (length auth ∷ [])) in
    rw (inside, first)
      (rw fits (
        rw
          (slice_expr_at payload (pre ++ length auth ∷ []) auth t (pos + 1) (pos + 1 + length auth)
            behind start refl)
          refl))

pub read_len_enc_auth_at :
    (payload pre auth t : Bytes) (next : ℕ)
    → payload ≡ pre ++ (auth ++ t)
    → next ≡ length pre
    → length payload < 2 ^ 63
    → read_len_enc_auth payload (length auth) next ≡ ok (auth, next + length auth)
unfolding read_len_enc_auth slice_expr
read_len_enc_auth_at payload pre auth t next e f h = ground (
  arith,
  ap length e,
  length-append pre (auth ++ t),
  length-append auth t,
  slice_at payload pre auth t next (next + length auth) e f,
)

-- The authentication field as the client's capability flags ask for it.
unfoldable pub auth_field : ℕ → Bytes → Bytes
auth_field flags auth =
    if has_flag flags mysql_client_plugin_auth_len_enc
    then write_len_enc_int [] (length auth) ++ auth
    else if has_flag flags mysql_client_secure_conn
    then length auth ∷ auth
    else auth ++ 0 ∷ []

-- `flags`, the packet size, the character set, and 23 reserved bytes.
unfoldable pub response_header : ℕ → ℕ → ℕ → Bytes
response_header flags packet_size charset =
    le_bytes 4 flags ++ (le_bytes 4 packet_size ++ (charset ∷ replicate 23 0))

-- The database, which only a client that announces one sends.
unfoldable pub database_part : ℕ → Bytes → Bytes
database_part flags database =
    if has_flag flags mysql_client_connect_with_db then database ++ 0 ∷ [] else []

-- A client's response as the protocol lays it out; `more` is what may follow the database, the name of
-- the authentication plugin and the attributes of the connection.
unfoldable pub client_response : ℕ → ℕ → ℕ → Bytes → Bytes → Bytes → Bytes → Bytes
unfolding response_header auth_field database_part
client_response flags packet_size charset username auth database more =
    response_header flags packet_size charset
    ++ (username ++ 0 ∷ (auth_field flags auth ++ (database_part flags database ++ more)))

-- The three forms of the field, behind a front part.
module _ (flags : ℕ) (payload pre auth t : Bytes) (pos : ℕ) (at : pos ≡ length pre) where
  len_enc_form :
      payload ≡ pre ++ (write_len_enc_int [] (length auth) ++ (auth ++ t))
      → length payload < 2 ^ 63
      → has_flag flags mysql_client_plugin_auth_len_enc ≡ true
      → read_auth_response payload pos flags
        ≡ ok (auth, pos + length (write_len_enc_int [] (length auth) ++ auth))
  unfolding read_auth_response
  len_enc_form e small a =
      let size = write_len_enc_int [] (length auth) in
      ground (
        arith,
        ap length e,
        length-append pre (size ++ (auth ++ t)),
        length-append size (auth ++ t),
        length-append size auth,
        length-append auth t,
        length-append pre size,
        read_len_enc_int_at payload pre (auth ++ t) pos (length auth) e at,
        read_len_enc_auth_at payload (pre ++ size) auth t (pos + length size)
            (e ∙ sym (append_assoc pre size (auth ++ t))),
      )

  secure_form :
      payload ≡ pre ++ (length auth ∷ (auth ++ t))
      → has_flag flags mysql_client_plugin_auth_len_enc ≡ false
      → has_flag flags mysql_client_secure_conn ≡ true
      → read_auth_response payload pos flags ≡ ok (auth, pos + length (length auth ∷ auth))
  unfolding read_auth_response
  secure_form e a b = ground (
    arith,
    ap length e,
    length-append pre (length auth ∷ (auth ++ t)),
    read_secure_auth_at payload pre auth t pos e at,
  )

  null_form :
      payload ≡ pre ++ (auth ++ 0 ∷ t)
      → has_flag flags mysql_client_plugin_auth_len_enc ≡ false
      → has_flag flags mysql_client_secure_conn ≡ false
      → Lacks 0 auth
      → read_auth_response payload pos flags ≡ ok (auth, pos + length (auth ++ 0 ∷ []))
  unfolding read_auth_response or_invalid
  null_form e a b h = ground (
    arith,
    ap length e,
    length-append pre (auth ++ 0 ∷ t),
    length-append auth (0 ∷ []),
    read_null_bytes_at payload pre auth t pos e at h,
  )

  read_auth_response_at :
      payload ≡ pre ++ (auth_field flags auth ++ t)
      → length payload < 2 ^ 63
      → (has_flag flags mysql_client_plugin_auth_len_enc ≡ false
          → has_flag flags mysql_client_secure_conn ≡ false
          → Lacks 0 auth)
      → read_auth_response payload pos flags ≡ ok (auth, pos + length (auth_field flags auth))
  unfolding auth_field
  read_auth_response_at e small old =
      elim (Bool-cases (has_flag flags mysql_client_plugin_auth_len_enc)) [
        | inl a ↦ rw a (len_enc_form (e ∙ rw a (ap (◌++◌ pre) (append_assoc _ auth t))) small a)
        | inr a ↦ elim (Bool-cases (has_flag flags mysql_client_secure_conn)) [
          | inl b ↦ rw (a, b) (secure_form (e ∙ rw (a, b)) a b)
          | inr b ↦
              rw (a, b)
                (null_form (e ∙ rw (a, b) (ap (◌++◌ pre) (append_assoc auth (0 ∷ []) t))) a b
                  (old a b))
        ]
      ]

pub length-response_header :
    (flags packet_size charset : ℕ) → length (response_header flags packet_size charset) ≡ 32
unfolding response_header
length-response_header flags packet_size charset = refl

module _ (flags packet_size charset : ℕ) (username auth database more : Bytes) where
  abbrev header : Bytes
  header = response_header flags packet_size charset

  abbrev payload : Bytes
  payload = client_response flags packet_size charset username auth database more

  abbrev tail : Bytes
  tail = auth_field flags auth ++ (database_part flags database ++ more)

  -- Where the authentication field starts.
  abbrev auth_pos : ℕ
  auth_pos = 32 + length username + 1

  -- The front part that ends with the user name.
  abbrev front : Bytes
  front = header ++ (username ++ 0 ∷ [])

  response_flags : flags < 2 ^ 32 → le_value (slice payload 0 4) ≡ flags
  unfolding client_response slice
  response_flags h = ground arith

  response_front : payload ≡ front ++ tail
  unfolding client_response
  response_front =
      ap (◌++◌ header) (sym (append_assoc username (0 ∷ []) tail))
      ∙ sym (append_assoc header (username ++ 0 ∷ []) tail)

  length-front : auth_pos ≡ length front
  length-front = omega (
    arith,
    length-append header (username ++ 0 ∷ []),
    length-append username (0 ∷ []),
    length-response_header flags packet_size charset,
  )

  response_length : length payload ≡ length front + length tail
  response_length = ap length response_front ∙ length-append front tail

  username_at : Lacks 0 username → read_null_bytes payload 32 ≡ ok (some (username, auth_pos))
  unfolding client_response
  username_at h =
      read_null_bytes_at payload header username tail 32 refl
        (sym (length-response_header flags packet_size charset)) h

  database_at :
      Lacks 0 database
      → database_field payload (auth_pos + length (auth_field flags auth)) flags
        ≡ ok (if has_flag flags mysql_client_connect_with_db then database else [])
  unfolding database_field database_part
  database_at h =
      let field = auth_field flags auth in
      elim (Bool-cases (has_flag flags mysql_client_connect_with_db)) [
        | inr e ↦ rw e refl
        | inl e ↦
            let back : payload ≡ (front ++ field) ++ (database ++ 0 ∷ more) =
              response_front
              ∙ (rw (e, database_part)
                  (ap (λ t. front ++ (field ++ t)) (append_assoc database (0 ∷ []) more)
                    ∙ sym (append_assoc front field (database ++ 0 ∷ more)))) in
            let size : length payload
                ≡ length front + length field + (length database + suc (length more)) =
              omega (
                arith,
                ap length back,
                length-append (front ++ field) (database ++ 0 ∷ more),
                length-append front field,
                length-append database (0 ∷ more),
              ) in
            ground (
              arith,
              e,
              size,
              length-front,
              length-append front field,
              read_null_bytes_at payload (front ++ field) database more (auth_pos + length field)
                  back,
            )
      ]

  -- The parser takes a response that is laid out as the protocol says, with any of the three forms of
  -- the authentication field, with or without a database, and with anything behind it, apart into its
  -- user name, its authentication data, made printable, and its database, if the client announced one.
  -- No text holds a null byte where one ends it, and the whole response is shorter than 2^63 bytes.
  pub parse-client_response :
      flags < 2 ^ 32
      → length (client_response flags packet_size charset username auth database more) < 2 ^ 63
      → Lacks 0 username
      → (has_flag flags mysql_client_plugin_auth_len_enc ≡ false
          → has_flag flags mysql_client_secure_conn ≡ false
          → Lacks 0 auth)
      → Lacks 0 database
      → parse_handshake_response
          (client_response flags packet_size charset username auth database more)
        ≡ ok (record {
          username = username;
          password = printable_auth_response auth;
          database = if has_flag flags mysql_client_connect_with_db then database else [];
        })
  unfolding parse_handshake_response parse_fields slice_expr
  parse-client_response hf small hu old hd =
      let long : ltb (length payload) 32 ≡ false = ground (arith, response_length, length-front) in
      let four : ltb (length payload) 4 ≡ false = ground (arith, response_length, length-front) in
      rw (
        long,
        four,
        response_flags hf,
        username_at hu,
        read_auth_response_at flags payload front auth (database_part flags database ++ more)
            auth_pos length-front response_front small old,
        database_at hd,
      )
