-- ===== src/Tests/Proxy.antt =====
-- The MySQL proxy with a target that answers every query with one row.
use turjmp.Prelude.{
  ℕ, ◌+◌, ◌≡◌, refl, ◌≢◌, Option, none, some, List, [], ◌∷◌, ◌++◌, arith, if◌then◌else◌, Bytes,
  codes, text_eq,
}
use turjmp.Limiter.{AuthResult}
use turjmp.Mysql.Handshake.{HandshakeError, HandshakeResponse}
use turjmp.Mysql.Packet.{write_mysql_packet}
use turjmp.Mysql.Server.{
  Column, ExecResult, QueryResult, MysqlTarget, SqlAuditDetail, Proxy, sent, write_result_set,
  handle_init_db,
}
use turjmp.Mysql.Server.Loop.{
  LoopEnd, command_loop, command_loop_ends, command_packets, statements_until_quit, end_of,
  command_loop-audits,
}
use turjmp.Mysql.Server.Framed.{numbered, read_packets}
use turjmp.Mysql.Server.Results.{result_set, write_result_set-read}
use turjmp.Mysql.Server.Connect.{ApiClient, serve_token, Accounted, serve_token-Accounted}
use mathlib.Core.List.{map}

abbrev too_large_text : ℕ → Bytes
too_large_text n = codes "too large"

abbrev columns : List Column
columns =
    record { name = codes "id"; db_type = codes "INT" }
    ∷ record { name = codes "name"; db_type = codes "TEXT" }
    ∷ []

abbrev rows : List (List (Option Bytes))
rows = (some (codes "1") ∷ none ∷ []) ∷ (some (codes "2") ∷ some (codes "bo") ∷ []) ∷ []

-- It fails every statement that gives no rows.
abbrev target : MysqlTarget
target = record {
  State = ℕ;
  exec = λ st sql. (st + 1, ExecResult.exec_failed (codes "denied"));
  query = λ st sql. (st + 1, QueryResult.selected columns rows none);
}

abbrev start : Proxy too_large_text target
start = record { state = 0; out = []; audits = [] }

-- Two queries with a change of database and a ping in between, and what comes behind COM_QUIT.
abbrev commands : List Bytes
commands =
    (0x03 ∷ codes "select 1")
    ∷ (0x02 ∷ codes "shop")
    ∷ (0x0e ∷ [])
    ∷ (0x03 ∷ codes "drop table t")
    ∷ (0x01 ∷ [])
    ∷ (0x03 ∷ codes "late")
    ∷ []

statements_given :
    statements_until_quit too_large_text target 9 commands
    ≡ codes "select 1" ∷ codes "USE shop" ∷ codes "drop table t" ∷ []
statements_given = refl

command_loop-audits_example :
    (map
        (λ (e : SqlAuditDetail). e.sql)
        ((command_loop too_large_text target 9 7 start
          (command_packets too_large_text target 9 commands)).0.audits)
      ≡ [] ++ statements_until_quit too_large_text target 9 commands)
    × ((command_loop too_large_text target 9 7 start
          (command_packets too_large_text target 9 commands)).1
        ≡ end_of too_large_text target 9 commands)
command_loop-audits_example =
    command_loop-audits too_large_text target 9 7 start commands
      (omega arith, (omega arith, (omega arith, (omega arith, (omega arith, (omega arith, tt))))))
      (omega arith)

-- COM_PING, COM_QUIT, and half a packet.
abbrev client_bytes : Bytes
client_bytes = 1 ∷ 0 ∷ 0 ∷ 0 ∷ 0x0e ∷ 1 ∷ 0 ∷ 0 ∷ 0 ∷ 0x01 ∷ 9 ∷ []

command_loop_ends_example :
    (command_loop too_large_text target 9 12 start client_bytes).1 ≢ LoopEnd.out_of_fuel
command_loop_ends_example =
    command_loop_ends too_large_text target 9 12 start client_bytes (omega arith)

quits : (command_loop too_large_text target 9 12 start client_bytes).1 ≡ LoopEnd.client_quit
unfolding command_loop turjmp.Mysql.Packet.read_mysql_packet turjmp.Mysql.Server.handle_command
quits = refl

-- A database that cannot be used: the client is sent nothing.
init_db_silent : (handle_init_db too_large_text target 9 start (codes "shop")).out ≡ []
unfolding handle_init_db
init_db_silent = refl

no_error : (write_result_set too_large_text columns rows none).0.error ≡ none
unfolding write_result_set write_mysql_packet turjmp.Mysql.LenEnc.write_len_enc_int
    turjmp.Mysql.Answers.column_definition_packet turjmp.Mysql.Answers.row_packet
no_error = refl

write_result_set-read_example :
    (read_packets 9 (write_result_set too_large_text columns rows none).0.bytes
      ≡ numbered 1 (result_set too_large_text columns rows))
    × ((write_result_set too_large_text columns rows none).1 ≡ 2)
write_result_set-read_example =
    write_result_set-read too_large_text columns rows none 9 no_error (omega arith)

abbrev auth : AuthResult
auth = record { user_id = 1; asset_id = 2; account_id = 3; connect_method = codes "mysql_client" }

abbrev api : ApiClient
api = record {
  verify_connection_token = λ token remote.
      if text_eq token (codes "abc")
      then some (auth, record { address = codes "10.0.0.2"; port = 3306; protocol = codes "MySQL" })
      else none;
  create_session = λ info. some 9;
}

abbrev hello : HandshakeResponse
hello = record { username = codes "ann#abc"; password = []; database = codes "shop" }

abbrev error_text : HandshakeError → Bytes
error_text e = codes "bad handshake"

serve_token-Accounted_example :
    Accounted too_large_text error_text api target
      (λ a. some 0)
      (codes "10.1.1.1:999")
      12
      (codes "abc")
      (serve_token too_large_text error_text api target
        (λ a. some 0)
        (codes "10.1.1.1:999")
        12
        []
        client_bytes
        (codes "abc")
        hello)
serve_token-Accounted_example =
    serve_token-Accounted too_large_text error_text api target (λ a. some 0) (codes "10.1.1.1:999")
      12 [] client_bytes (codes "abc") hello
