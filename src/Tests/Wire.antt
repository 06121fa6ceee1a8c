-- ===== src/Tests/Wire.antt =====
-- The database protocols.
use turjmp.Prelude.{
  ◌+◌, ◌^◌, ◌<◌, ◌≡◌, refl, ◌≢◌, true, false, some, List, [], ◌∷◌, ◌++◌, arith, if◌then◌else◌,
  length, replicate, slice, all, Bytes, codes, text_eq, le_value,
}
use turjmp.Mysql.{mysql_client_plugin_auth_len_enc, mysql_client_connect_with_db, has_flag}
use turjmp.Mysql.LenEnc.{write_len_enc_int}
use turjmp.Mysql.Packet.{got, read_mysql_packet, write_mysql_packet}
use turjmp.Mysql.Packet.Framing.{read_mysql_packet-write_mysql_packet}
use turjmp.Mysql.Handshake.{ok, crash, printable_auth_response, parse_handshake_response}
use turjmp.Mysql.Handshake.RoundTrip.{
  client_response, response_header, auth_field, parse-client_response,
}
use turjmp.Mysql.Handshake.Bounds.{
  huge_response, huge_response-crash, parse_handshake_response-ne-crash,
}
use turjmp.Strings.Split.{Lacks}
use turjmp.Postgres.{FrontendMessage, BackendMessage}
use turjmp.Postgres.Audit.{
  PostgresAuditState, new_postgres_audit_state, begin_locked, observe_frontend, lookup,
}
use turjmp.Postgres.Audit.Order.{Observed, observe_all}
use turjmp.Postgres.Audit.Prepared.{spares, execute-bound}
use turjmp.Postgres.Cancel.{PostgresCancelTarget}

-- A client that names its plugin.
abbrev plugin : Bytes
plugin = codes "mysql_native_password" ++ 0 ∷ []

short :
    length (client_response (2 ^ 15 + 8) 1000 33 (codes "ann#t") (codes "pw") (codes "db") plugin)
    < 2 ^ 63
unfolding client_response response_header auth_field has_flag
    turjmp.Mysql.Handshake.RoundTrip.database_part
short = omega arith

name-Lacks : Lacks 0 (codes "ann#t")
unfolding Lacks
name-Lacks = (refl, (refl, (refl, (refl, (refl, tt)))))

auth-Lacks : Lacks 0 (codes "pw")
unfolding Lacks
auth-Lacks = (refl, (refl, tt))

database-Lacks : Lacks 0 (codes "db")
unfolding Lacks
database-Lacks = (refl, (refl, tt))

flag_set : has_flag (2 ^ 21) mysql_client_plugin_auth_len_enc ≡ true
unfolding has_flag
flag_set = refl

flag_clear :
    has_flag (le_value (slice (replicate 40 7) 0 4)) mysql_client_plugin_auth_len_enc ≡ false
unfolding has_flag slice
flag_clear = refl

huge_short : length (huge_response (2 ^ 21) 1000 33 (codes "ann") (2 ^ 63) []) < 2 ^ 63
unfolding huge_response response_header write_len_enc_int
huge_short = omega arith

huge-Lacks : Lacks 0 (codes "ann")
unfolding Lacks
huge-Lacks = (refl, (refl, (refl, tt)))

known : lookup (codes "s") ((codes "s", codes "select 1") ∷ []) ≡ codes "select 1"
unfolding lookup text_eq
known = refl

quiet :
    all
      (spares (codes "p"))
      (Observed.frontend 2 (FrontendMessage.bind (codes "other") (codes "s")) ∷ [])
    ≡ true
unfolding spares text_eq
quiet = refl

read-write_mysql_packet_example :
    (packet : Bytes) × (write_mysql_packet 3 (codes "abc") ≡ some packet)
    × (read_mysql_packet (packet ++ codes "next") ≡ got (codes "abc", 3) (codes "next"))
read-write_mysql_packet_example =
    read_mysql_packet-write_mysql_packet 3 (codes "abc") (codes "next") (omega arith)

parse-client_response_example :
    parse_handshake_response
      (client_response (2 ^ 15 + 8) 1000 33 (codes "ann#t") (codes "pw") (codes "db") plugin)
    ≡ ok (record {
      username = codes "ann#t";
      password = printable_auth_response (codes "pw");
      database = if has_flag (2 ^ 15 + 8) mysql_client_connect_with_db then codes "db" else [];
    })
parse-client_response_example =
    parse-client_response (2 ^ 15 + 8) 1000 33 (codes "ann#t") (codes "pw") (codes "db") plugin
      (omega arith) short name-Lacks (λ a b. auth-Lacks) database-Lacks

huge_response-crash_example :
    parse_handshake_response (huge_response (2 ^ 21) 1000 33 (codes "ann") (2 ^ 63) []) ≡ crash
huge_response-crash_example =
    huge_response-crash (2 ^ 21) 1000 33 (codes "ann") (2 ^ 63) [] (omega arith) flag_set
      (omega arith) (omega arith) huge_short huge-Lacks

parse_handshake_response-ne-crash_example : parse_handshake_response (replicate 40 7) ≢ crash
parse_handshake_response-ne-crash_example =
    parse_handshake_response-ne-crash (replicate 40 7) flag_clear

abbrev trace : List Observed
trace =
    Observed.frontend 1 (FrontendMessage.parse (codes "s") (codes "select 1"))
    ∷ Observed.frontend 2 (FrontendMessage.bind (codes "p") (codes "s"))
    ∷ Observed.frontend 3 (FrontendMessage.execute (codes "p"))
    ∷ Observed.backend 4 (BackendMessage.command_complete (codes "SELECT 1"))
    ∷ Observed.frontend 5 (FrontendMessage.query (codes "begin"))
    ∷ []

abbrev parsed : PostgresAuditState
parsed = record new_postgres_audit_state { prepared = (codes "s", codes "select 1") ∷ [] }

abbrev between : List Observed
between = Observed.frontend 2 (FrontendMessage.bind (codes "other") (codes "s")) ∷ []

abbrev before : PostgresAuditState
before =
    observe_all (codes "error")
      (observe_frontend parsed 1 (FrontendMessage.bind (codes "p") (codes "s"))) between

execute-bound_example :
    observe_frontend before 3 (FrontendMessage.execute (codes "p"))
    ≡ begin_locked before 3 (codes "select 1")
execute-bound_example =
    execute-bound (codes "error") (codes "s") (codes "p") (codes "select 1") parsed before 1 3
      between refl known quiet refl

abbrev target : PostgresCancelTarget
target = record {
  network = codes "tcp";
  address = codes "10.0.0.2:5432";
  process_id = 77;
  secret_key = 1 ∷ 2 ∷ 3 ∷ 4 ∷ [];
}
