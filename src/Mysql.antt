-- ===== src/Mysql.antt =====
-- internal/proxy/db/mysql_protocol.go and mysql_server.go: constants of the wire protocol.
pub mod LenEnc
pub mod Packet
pub mod Handshake
pub mod Answers
pub mod Ident
pub mod Server
use turjmp.Prelude.{ℕ, ◌-◌, ◌^◌, ◌/◌, ◌%◌, Bool, ◌==◌, Text, Bytes, codes}

abbrev pub mysql_max_packet_size : ℕ
mysql_max_packet_size = 2 ^ 24 - 1

abbrev pub mysql_status_autocommit : ℕ
mysql_status_autocommit = 2

-- The capability flags, each as the position of its bit.
abbrev pub mysql_client_long_password : ℕ
mysql_client_long_password = 0

abbrev pub mysql_client_long_flag : ℕ
mysql_client_long_flag = 2

abbrev pub mysql_client_connect_with_db : ℕ
mysql_client_connect_with_db = 3

abbrev pub mysql_client_protocol41 : ℕ
mysql_client_protocol41 = 9

abbrev pub mysql_client_transactions : ℕ
mysql_client_transactions = 13

abbrev pub mysql_client_secure_conn : ℕ
mysql_client_secure_conn = 15

abbrev pub mysql_client_multi_results : ℕ
mysql_client_multi_results = 17

abbrev pub mysql_client_plugin_auth : ℕ
mysql_client_plugin_auth = 19

abbrev pub mysql_client_plugin_auth_len_enc : ℕ
mysql_client_plugin_auth_len_enc = 21

-- `flags & (1 << k) != 0`
unfoldable pub has_flag : ℕ → ℕ → Bool
has_flag flags k = flags / 2 ^ k % 2 == 1
