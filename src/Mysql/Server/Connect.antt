-- ===== src/Mysql/Server/Connect.antt =====
-- handleConn of mysql_server.go: the handshake, the token, the session record and the command loop of
-- one client. The API of the backend and the connection to the target are parameters. The watch that
-- ends a connection from outside is left out.
use turjmp.Prelude.{
  ℕ, ◌+◌, ◌/◌, ◌%◌, ◌^◌, ◌≡◌, ◌⊎◌, inl, inr, true, not, Option, none, some, List, [], ◌∷◌, ◌++◌,
  arith, if◌then◌else◌, Bool-cases, Option-cases, replicate, null, Text, Bytes, codes, text_eq,
  le_bytes,
}
use turjmp.Strings.{to_lower}
use turjmp.Connection.Token.{extract_connection_token}
use turjmp.Limiter.{AuthResult, SessionInfo, TargetConfig, db_session_info}
use turjmp.Mysql.{mysql_status_autocommit}
use turjmp.Mysql.Answers.{write_ok_packet, write_error_packet}
use turjmp.Mysql.Handshake.{HandshakeError, HandshakeResponse, Parsed, parse_handshake_response}
use turjmp.Mysql.Ident.{quote_mysql_ident}
use turjmp.Mysql.Packet.{got, eof, unexpected_eof, too_large, read_mysql_packet, write_mysql_packet}
use turjmp.Mysql.Server.{MysqlTarget, SqlAuditDetail, Proxy, sent}
use turjmp.Mysql.Server.Loop.{command_loop}

-- The capability flags that the proxy offers.
abbrev server_flags : ℕ
server_flags = 2 ^ 0 + 2 ^ 2 + 2 ^ 3 + 2 ^ 9 + 2 ^ 13 + 2 ^ 15 + 2 ^ 17 + 2 ^ 19 + 2 ^ 21

-- `writeHandshake`, at a clock that reads so many nanoseconds.
unfoldable pub handshake_payload : ℕ → Bytes
handshake_payload now =
    10
    ∷ (codes "8.0.0-turjmp"
        ++ (0
            ∷ (le_bytes 4 (now % 2 ^ 32)
                ++ (codes "turjmp01"
                    ++ (0
                        ∷ (le_bytes 2 (server_flags % 2 ^ 16)
                            ++ (33
                                ∷ (le_bytes 2 mysql_status_autocommit
                                    ++ (le_bytes 2 (server_flags / 2 ^ 16 % 2 ^ 16)
                                        ++ (21
                                            ∷ (replicate 10 0
                                                ++ (codes "turjmp-dbproxy"
                                                    ++ (0
                                                        ∷ (codes "mysql_native_password"
                                                            ++ 0 ∷ []))))))))))))))

unfoldable pub write_handshake : ℕ → Option Bytes
unfolding handshake_payload
write_handshake now = write_mysql_packet 0 (handshake_payload now)

-- `verifyConnectionToken` and `createSession`, which ask the backend.
pub record ApiClient : Type 0 where
  pub verify_connection_token : Bytes → Text → Option (AuthResult × TargetConfig)
  pub create_session : SessionInfo → Option ℕ

-- What a connection leaves behind: what the client was sent, the session record that was made, the
-- session records that were finished, and the audit entries.
pub record ConnRun : Type 0 where
  pub out : Bytes
  pub session : Option ℕ
  pub finished : List ℕ
  pub audits : List SqlAuditDetail

abbrev no_session : Bytes → ConnRun
no_session out = record { out = out; session = none; finished = []; audits = [] }

abbrev denied : Bytes → Bytes → ConnRun
denied out message = no_session (out ++ sent (write_error_packet 2 1045 message))

module _ (too_large_text : ℕ → Bytes) (error_text : HandshakeError → Bytes) (api : ApiClient)
    (target : MysqlTarget) (open_target : AuthResult → Option target.State) (remote_addr : Text)
    (fuel : ℕ) where
  -- The default database of the client, whose error is ignored.
  unfoldable pub use_database : target.State → Bytes → target.State
  use_database st name =
      if null name then st else (target.exec st (codes "USE " ++ quote_mysql_ident name)).0

  -- From the session record on; the record is finished when the connection is closed.
  unfoldable pub serve_session : Bytes → Bytes → AuthResult → ℕ → HandshakeResponse → ConnRun
  unfolding use_database
  serve_session out rest auth session_id hello = elim (open_target auth) [
    | none ↦ record {
      out = out ++ sent (write_error_packet 2 1045 (codes "connect target mysql failed"));
      session = some session_id;
      finished = session_id ∷ [];
      audits = [];
    }
    | some st ↦
        let started : Proxy too_large_text target = record {
          state = use_database st hello.database;
          out = out ++ sent (write_ok_packet 2 0 0);
          audits = [];
        } in
        let (ended, why) = command_loop too_large_text target session_id fuel started rest in
        record {
          out = ended.out;
          session = some session_id;
          finished = session_id ∷ [];
          audits = ended.audits;
        }
  ]

  unfoldable pub serve_token : Bytes → Bytes → Bytes → HandshakeResponse → ConnRun
  unfolding serve_session
  serve_token out rest token hello =
      if null token
      then denied out (codes "connection token required")
      else elim (api.verify_connection_token token remote_addr) [
        | none ↦ denied out (codes "token verification failed")
        | some (auth, cfg) ↦
            if not (text_eq (to_lower cfg.protocol) (codes "mysql"))
            then denied out (codes "connection token protocol is not mysql")
            else elim (api.create_session
                (db_session_info auth (codes "mysql") (codes "mysql_client") remote_addr)) [
                  | none ↦ denied out (codes "create db session failed")
                  | some session_id ↦ serve_session out rest auth session_id hello
                ]
      ]

  -- `none` is the run-time panic of the parser.
  unfoldable pub handle_conn : ℕ → Bytes → Option ConnRun
  unfolding serve_token
  handle_conn now conn =
      let out = sent (write_handshake now) in
      elim (read_mysql_packet conn) [
        | got (payload, seq) rest ↦ elim (parse_handshake_response payload) [
          | Parsed.ok hello ↦
              some (
                serve_token out rest (extract_connection_token hello.username hello.password) hello)
          | Parsed.err e ↦ some (denied out (error_text e))
          | Parsed.crash ↦ none
        ]
        | eof ↦ some (no_session out)
        | unexpected_eof ↦ some (no_session out)
        | too_large ↦ some (no_session out)
      ]

  -- What a session record says: the token was accepted for a MySQL target, and the record is finished.
  pub record IsServed (token : Bytes) (run : ConnRun) (id : ℕ) : Type 0 where
    pub auth : AuthResult
    pub cfg : TargetConfig
    pub verified : api.verify_connection_token token remote_addr ≡ some (auth, cfg)
    pub is_mysql : text_eq (to_lower cfg.protocol) (codes "mysql") ≡ true
    pub created :
        api.create_session (db_session_info auth (codes "mysql") (codes "mysql_client") remote_addr)
        ≡ some id
    pub finished : run.finished ≡ id ∷ []

  abbrev pub Accounted : Bytes → ConnRun → Type 0
  Accounted token run =
      ((run.session ≡ none) × ((run.audits ≡ []) × (run.finished ≡ [])))
      ⊎ ((id : ℕ) × ((run.session ≡ some id) × IsServed token run id))

  served :
      (out rest : Bytes) (auth : AuthResult) (session_id : ℕ) (hello : HandshakeResponse)
      → ((serve_session out rest auth session_id hello).session ≡ some session_id)
        × ((serve_session out rest auth session_id hello).finished ≡ session_id ∷ [])
  unfolding serve_session
  served out rest auth session_id hello = elim (Option-cases (open_target auth)) [
    | inl e ↦ ground (arith, e)
    | inr (st, e) ↦ ground (arith, e)
  ]

  -- For every token, whatever the backend and the target answer: a connection without a session record
  -- runs no statement that is audited and finishes no session; a connection with one has had its token
  -- accepted, for a MySQL target, and finishes that one session, once.
  pub serve_token-Accounted :
      (out rest token : Bytes) (hello : HandshakeResponse)
      → Accounted token (serve_token out rest token hello)
  unfolding serve_token
  serve_token-Accounted out rest token hello = elim (Bool-cases (null token)) [
    | inl e ↦ inl (ground (arith, e))
    | inr e ↦ elim (Option-cases (api.verify_connection_token token remote_addr)) [
      | inl f ↦ inl (ground (arith, e, f))
      | inr ((auth, cfg), f) ↦ elim (Bool-cases (text_eq (to_lower cfg.protocol) (codes "mysql"))) [
        | inr g ↦ inl (ground (arith, e, f, g))
        | inl g ↦
            elim (Option-cases (
              api.create_session
                (db_session_info auth (codes "mysql") (codes "mysql_client") remote_addr))) [
                  | inl k ↦ inl (ground (arith, e, f, g, k))
                  | inr (id, k) ↦
                      let (session, finished) = served out rest auth id hello in
                      let same : serve_token out rest token hello
                          ≡ serve_session out rest auth id hello =
                        ground (arith, e, f, g, k) in
                      rw same (
                        inr (
                          id,
                          (
                            session,
                            record {
                              auth = auth;
                              cfg = cfg;
                              verified = f;
                              is_mysql = g;
                              created = k;
                              finished = finished;
                            },
                          ),
                        ))
                ]
      ]
    ]
  ]
