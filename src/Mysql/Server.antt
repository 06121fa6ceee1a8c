-- ===== src/Mysql/Server.antt =====
-- internal/proxy/db/mysql_server.go: the commands of a MySQL client, which the proxy runs on the target
-- database, answers and audits. Writes to the client succeed unless a packet is too large. The
-- duration of a command is left out.
pub mod Loop
pub mod Framed
pub mod Results
pub mod Connect
use turjmp.Prelude.{
  ℕ, zero, suc, ◌+◌, ◌-◌, ◌*◌, ◌/◌, ◌%◌, ◌^◌, ◌≤◌, ◌<◌, ◌≡◌, refl, sym, ap, ◌∙◌, ◌≢◌, ◌↔◌, ◌⊎◌, inl,
  inr, Bool, true, false, not, ◌&&◌, ◌||◌, Option, none, some, List, [], ◌∷◌, ◌++◌, append-nil,
  append_assoc, arith, ltb, leb, ◌==◌, if◌then◌else◌, ltb→lt, lt→ltb, leb→le, ==_iff, ==_refl,
  Bool-cases, Option-cases, length, get_or, take, drop, replicate, slice, null, any, all, filter,
  find?, All, length-append, take-append_length, drop-append_length, length-take, length-drop,
  length-replicate, drop-append_add, get_or-append_add, slice-append_add, slice_middle, slice_at,
  ◌∈◌, ∈-append_left, ∈-append_right, ∈-append_cases, ∈-filter, filter-∈, any-∈, if-∈, ∈-any,
  length-filter_split, null-length, find?-found, find?-append, find?-none, any-append, all-append,
  Text, Bytes, IsByte, codes, text_eq, text_eq→eq, text_eq_refl, text_eq_iff, le_bytes, le_value,
  le_value-le_bytes, length-le_bytes, le_bytes-IsByte,
}
use turjmp.Strings.{trim_space, runes}
use turjmp.Postgres.{ℤ}
use turjmp.Mysql.Answers.{
  write_ok_packet, write_eof_packet, write_error_packet, column_definition_packet, row_packet,
  mysql_column_type,
}
use turjmp.Mysql.Ident.{is_result_query, quote_mysql_ident}
use turjmp.Mysql.LenEnc.{write_len_enc_int}
use turjmp.Mysql.Packet.{write_mysql_packet}
use mathlib.Core.List.{map}

pub record Column : Type 0 where
  pub name : Bytes
  pub db_type : Text

-- What the driver returns for a statement; the error is a text.
pub data ExecResult : Type 0 where
  exec_failed : Bytes → ExecResult
  -- The affected rows and the last insert id.
  executed : ℤ → ℤ → ExecResult

pub data QueryResult : Type 0 where
  query_failed : Bytes → QueryResult
  -- The columns, the rows in the text form of `mysqlValueString`, and the error that ended the rows.
  selected : List Column → List (List (Option Bytes)) → Option Bytes → QueryResult

-- The connection to the target database.
pub record MysqlTarget : Type 1 where
  pub State : Type 0
  pub exec : State → Bytes → State × ExecResult
  pub query : State → Bytes → State × QueryResult

-- `strconvUint64`
unfoldable pub strconv_uint64 : ℤ → ℕ
strconv_uint64 (ℤ.pos n) = n
strconv_uint64 (ℤ.negsuc n) = 0

-- `sqlAuditDetail`
pub record SqlAuditDetail : Type 0 where
  pub session_id : ℕ
  pub protocol : Text
  pub sql : Bytes
  pub rows_affected : ℤ
  pub error : Option Bytes

-- What a packet writer does whose error the caller ignores.
abbrev pub sent : Option Bytes → Bytes
sent none = []
sent (some packet) = packet

-- The output of a result set so far: the bytes, the next sequence number, and the first error.
pub record Writer : Type 0 where
  pub bytes : Bytes
  pub seq : ℕ
  pub error : Option Bytes

-- The text of the error for a packet that is too large is a parameter.
module _ (too_large_text : ℕ → Bytes) where
  unfoldable pub put_packet : Writer → Bytes → Writer
  put_packet w payload = elim w.error [
    | some e ↦ w
    | none ↦ elim (write_mysql_packet w.seq payload) [
      | none ↦ record w { error = some (too_large_text (length payload)) }
      | some packet ↦ record w { bytes = w.bytes ++ packet; seq = (w.seq + 1) % 256 }
    ]
  ]

  unfoldable pub put_packets : Writer → List Bytes → Writer
  unfolding put_packet
  put_packets w [] = w
  put_packets w (payload ∷ payloads) = put_packets (put_packet w payload) payloads

  abbrev pub eof_payload : Bytes
  eof_payload = 0xfe ∷ 0 ∷ 0 ∷ 2 ∷ 0 ∷ []

  abbrev pub column_payload : Column → Bytes
  column_payload c = column_definition_packet [] [] c.name (mysql_column_type c.db_type)

  -- The loop over the rows, which counts those that are written.
  unfoldable pub put_rows : Writer → ℕ → List (List (Option Bytes)) → Writer × ℕ
  unfolding put_packet
  put_rows w count [] = (w, count)
  put_rows w count (row ∷ rows) =
      let next = put_packet w (row_packet row) in
      let rest = put_rows next (count + 1) rows in
      elim (next.error) [ some e ↦ (next, count) | none ↦ rest ]

  -- The columns and their end; the number of columns comes first.
  unfoldable pub put_columns : Writer → List Column → Writer
  unfolding put_packets
  put_columns w columns =
      put_packet
        (put_packets (put_packet w (write_len_enc_int [] (length columns)))
          (map column_payload columns))
        eof_payload

  -- The end of the rows, if they ended without an error.
  unfoldable pub put_end : Writer → Option Bytes → Writer
  put_end w rows_error = elim w.error [
    | some e ↦ w
    | none ↦ elim rows_error [
      | some e ↦ record w { error = some e }
      | none ↦ put_packet w eof_payload
    ]
  ]

  -- What was written with its error, and the number of rows.
  unfoldable pub write_result_set :
      List Column → List (List (Option Bytes)) → Option Bytes → Writer × ℕ
  unfolding put_columns put_rows put_end
  write_result_set columns rows rows_error =
      let w = put_columns (record { bytes = []; seq = 1; error = none }) columns in
      let (after, count) = put_rows w 0 rows in
      elim w.error [ some e ↦ (w, 0) | none ↦ (put_end after rows_error, count) ]

  module _ (target : MysqlTarget) where
    -- The state of a connection in its command loop: the target, what the client was sent, and the
    -- audit entries.
    pub record Proxy : Type 0 where
      pub state : target.State
      pub out : Bytes
      pub audits : List SqlAuditDetail

    -- `execNoResult`: the target after it, what the client is sent, and the error.
    unfoldable pub exec_no_result : target.State → Bytes → target.State × (Bytes × Option Bytes)
    unfolding strconv_uint64
    exec_no_result st sql = elim ((target.exec st sql).1) [
      | exec_failed e ↦ ((target.exec st sql).0, ([], some e))
      | executed affected last ↦ (
        (target.exec st sql).0,
        (sent (write_ok_packet 1 (strconv_uint64 affected) (strconv_uint64 last)), none),
      )
    ]

    abbrev pub entry : ℕ → Bytes → ℤ → Option Bytes → SqlAuditDetail
    entry session_id sql rows_affected error = record {
      session_id = session_id;
      protocol = codes "mysql";
      sql = sql;
      rows_affected = rows_affected;
      error = error;
    }

    -- An error is sent to the client in a packet with the number 1.
    abbrev pub error_sent : Option Bytes → Bytes
    error_sent none = []
    error_sent (some e) = sent (write_error_packet 1 1105 e)

    -- The query of a result set: the target, what the client is sent, the rows and the error.
    unfoldable pub run_result_query :
        target.State → Bytes → target.State × (Bytes × (ℤ × Option Bytes))
    unfolding write_result_set
    run_result_query st sql = elim ((target.query st sql).1) [
      | query_failed e ↦ ((target.query st sql).0, ([], (ℤ.pos 0, some e)))
      | selected columns rows rows_error ↦
          let (w, count) = write_result_set columns rows rows_error in
          ((target.query st sql).0, (w.bytes, (ℤ.pos count, w.error)))
    ]

    -- Another statement; -1 stands for rows that are not counted.
    unfoldable pub run_statement :
        target.State → Bytes → target.State × (Bytes × (ℤ × Option Bytes))
    unfolding exec_no_result
    run_statement st sql =
        let (after, (out, error)) = exec_no_result st sql in
        (after, (out, (elim error [ none ↦ ℤ.negsuc 0 | some e ↦ ℤ.pos 0 ], error)))

    unfoldable pub handle_query : ℕ → Proxy → Bytes → Proxy
    unfolding run_result_query run_statement
    handle_query session_id p sql =
        if null (trim_space (runes sql))
        then record p {
          out = p.out ++ sent (write_ok_packet 1 0 0);
          audits = p.audits ++ entry session_id sql (ℤ.pos 0) none ∷ [];
        }
        else let (after, (out, (rows_affected, error))) =
            if is_result_query (runes sql)
            then run_result_query p.state sql
            else run_statement p.state sql in
          record {
            state = after;
            out = p.out ++ (out ++ error_sent error);
            audits = p.audits ++ entry session_id sql rows_affected error ∷ [];
          }

    -- COM_INIT_DB: an error goes to the audit and not to the client.
    unfoldable pub handle_init_db : ℕ → Proxy → Bytes → Proxy
    unfolding exec_no_result
    handle_init_db session_id p name =
        let (after, (out, error)) =
          exec_no_result p.state (codes "USE " ++ quote_mysql_ident name) in
        record {
          state = after;
          out = p.out ++ out;
          audits = p.audits ++ entry session_id (codes "USE " ++ name) (ℤ.pos 0) error ∷ [];
        }

    hex_digit : ℕ → ℕ
    hex_digit d = if ltb d 10 then b'0' + d else b'a' + (d - 10)

    -- `%x` of a byte.
    unfoldable pub hex_byte : ℕ → Bytes
    unfolding hex_digit
    hex_byte b = if ltb b 16 then hex_digit b ∷ [] else hex_digit (b / 16) ∷ hex_digit (b % 16) ∷ []

    abbrev pub refuse : Proxy → ℕ → Bytes → Proxy
    refuse p code message = record p { out = p.out ++ sent (write_error_packet 1 code message) }

    -- The body of the command loop for one packet; `none` is COM_QUIT.
    unfoldable pub handle_command : ℕ → Proxy → Bytes → Option Proxy
    unfolding handle_query handle_init_db hex_byte
    handle_command session_id p [] = some (refuse p 1064 (codes "empty mysql command"))
    handle_command session_id p (c ∷ rest) =
        if c == 0x01
        then none
        else if c == 0x0e
        then some (record p { out = p.out ++ sent (write_ok_packet 1 0 0) })
        else if c == 0x02
        then some (handle_init_db session_id p rest)
        else if c == 0x03
        then some (handle_query session_id p rest)
        else if c == 0x16 || (c == 0x17 || c == 0x19)
        then some (refuse p 1295 (codes "prepared statements are not supported by this proxy yet"))
        else some (refuse p 1064 (codes "unsupported mysql command 0x" ++ hex_byte c))
