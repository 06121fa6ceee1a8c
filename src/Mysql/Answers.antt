-- ===== src/Mysql/Answers.antt =====
-- The answers that mysql_protocol.go writes: OK, EOF and ERR packets, column definitions and rows, as
-- payloads; `write_mysql_packet` frames them.
use turjmp.Prelude.{
  Text, if◌then◌else◌, ℕ, ◌+◌, ◌/◌, ◌%◌, ◌^◌, ◌<◌, ◌≡◌, refl, sym, ◌∙◌, Option, none, some, List,
  [], ◌∷◌, ◌++◌, append_assoc, arith, length, Bytes, codes, le_bytes,
}
use turjmp.Strings.{to_upper, one_of}
use turjmp.Mysql.{mysql_status_autocommit}
use turjmp.Mysql.LenEnc.{write_len_enc_int, write_len_enc_string, read_len_enc_int}
use turjmp.Mysql.LenEnc.RoundTrip.{encoding, write_len_enc_int-encoding, read_len_enc_int_at}
use turjmp.Mysql.Packet.{write_mysql_packet}

unfoldable pub ok_payload : ℕ → ℕ → Bytes
ok_payload affected_rows last_insert_id =
    write_len_enc_int (write_len_enc_int (0 ∷ []) affected_rows) last_insert_id
    ++ (le_bytes 2 mysql_status_autocommit ++ le_bytes 2 0)

unfoldable pub write_ok_packet : ℕ → ℕ → ℕ → Option Bytes
unfolding ok_payload
write_ok_packet seq affected_rows last_insert_id =
    write_mysql_packet seq (ok_payload affected_rows last_insert_id)

unfoldable pub write_eof_packet : ℕ → Option Bytes
write_eof_packet seq =
    write_mysql_packet seq (
      0xfe ∷ 0 ∷ 0 ∷ (mysql_status_autocommit % 256) ∷ (mysql_status_autocommit / 2 ^ 8 % 256) ∷ [])

unfoldable pub write_error_packet : ℕ → ℕ → Bytes → Option Bytes
write_error_packet seq code msg =
    write_mysql_packet seq (0xff ∷ (le_bytes 2 code ++ (b'#' ∷ (codes "HY000" ++ msg))))

unfoldable pub column_definition_packet : Bytes → Bytes → Bytes → ℕ → Bytes
unfolding write_len_enc_string
column_definition_packet schema table name typ =
    let catalog = write_len_enc_string [] (codes "def") in
    let tables =
      write_len_enc_string (write_len_enc_string (write_len_enc_string catalog schema) table)
        table in
    let names = write_len_enc_string (write_len_enc_string tables name) name in
    names
    ++ (0x0c ∷ (le_bytes 2 33 ++ (le_bytes 4 1024 ++ (typ ∷ (le_bytes 2 0 ++ (0 ∷ 0 ∷ 0 ∷ []))))))

-- A row's values, in the text form that `mysqlValueString` gives them; none is NULL.
write_row : Bytes → List (Option Bytes) → Bytes
unfolding write_len_enc_string
write_row buf [] = buf
write_row buf (none ∷ values) = write_row (buf ++ 0xfb ∷ []) values
write_row buf (some value ∷ values) = write_row (write_len_enc_string buf value) values

unfoldable pub row_packet : List (Option Bytes) → Bytes
unfolding write_row
row_packet values = write_row [] values

-- The MYSQL_TYPE byte of a column.
unfoldable pub mysql_column_type : Text → ℕ
mysql_column_type db_type =
    let t = to_upper db_type in
    if one_of t
      (codes "TINYINT" ∷ codes "SMALLINT" ∷ codes "MEDIUMINT" ∷ codes "INT" ∷ codes "INTEGER" ∷ [])
    then 0x03
    else if one_of t (codes "BIGINT" ∷ [])
    then 0x08
    else if one_of t (codes "FLOAT" ∷ [])
    then 0x04
    else if one_of t (codes "DOUBLE" ∷ codes "REAL" ∷ [])
    then 0x05
    else if one_of t (codes "DECIMAL" ∷ codes "NUMERIC" ∷ codes "NEWDECIMAL" ∷ [])
    then 0x00
    else if one_of t (codes "DATE" ∷ [])
    then 0x0a
    else if one_of t (codes "TIME" ∷ [])
    then 0x0b
    else if one_of t (codes "DATETIME" ∷ [])
    then 0x0c
    else if one_of t (codes "TIMESTAMP" ∷ [])
    then 0x07
    else if one_of t (codes "JSON" ∷ [])
    then 0xf5
    else 0xfd

ok_front :
    (a i : ℕ)
    → ok_payload a i
      ≡ (0 ∷ [])
        ++ (write_len_enc_int [] a
            ++ (write_len_enc_int [] i ++ (le_bytes 2 mysql_status_autocommit ++ le_bytes 2 0)))
unfolding ok_payload
ok_front a i =
    let tail = le_bytes 2 mysql_status_autocommit ++ le_bytes 2 0 in
    rw
      (
        write_len_enc_int-encoding (write_len_enc_int (0 ∷ []) a) i,
        write_len_enc_int-encoding (0 ∷ []) a,
        write_len_enc_int-encoding [] a,
        write_len_enc_int-encoding [] i,
      )
      (append_assoc ((0 ∷ []) ++ encoding a) (encoding i) tail
        ∙ append_assoc (0 ∷ []) (encoding a) (encoding i ++ tail))

-- A client reads from an OK packet the number of affected rows, behind the first byte, and the last
-- insert id right after it, for all 64-bit values.
ok_payload-read :
    (a i : ℕ)
    → a < 2 ^ 64
    → i < 2 ^ 64
    → (next : ℕ) × ((read_len_enc_int (ok_payload a i) 1 ≡ some (a, next))
        × ((end : ℕ) × (read_len_enc_int (ok_payload a i) next ≡ some (i, end))))
ok_payload-read a i ha hi =
    let tail = le_bytes 2 mysql_status_autocommit ++ le_bytes 2 0 in
    let first = write_len_enc_int [] a in
    let second = write_len_enc_int [] i in
    (
      1 + length first,
      (
        read_len_enc_int_at (ok_payload a i) (0 ∷ []) (second ++ tail) 1 a (ok_front a i) refl ha,
        (
          1 + length first + length second,
          read_len_enc_int_at (ok_payload a i) ((0 ∷ []) ++ first) tail (1 + length first) i
              (ok_front a i ∙ sym (append_assoc (0 ∷ []) first (second ++ tail))) (omega arith) hi,
        ),
      ),
    )
