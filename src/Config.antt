-- ===== src/Config.antt =====
-- internal/config/config.go: the proxies' configuration with its defaults, and the names of the
-- environment variables that override it. A duration is a number of seconds.
pub mod Env
use turjmp.Prelude.{
  ℕ, zero, suc, ◌+◌, ◌-◌, ◌*◌, ◌/◌, ◌%◌, ◌^◌, ◌≤◌, ◌<◌, ◌≡◌, refl, sym, ap, ◌∙◌, ◌≢◌, ◌↔◌, ◌⊎◌, inl,
  inr, Bool, true, false, not, ◌&&◌, ◌||◌, Option, none, some, List, [], ◌∷◌, ◌++◌, append-nil,
  append_assoc, arith, ltb, leb, ◌==◌, if◌then◌else◌, ltb→lt, lt→ltb, leb→le, ==_iff, ==_refl,
  Bool-cases, Option-cases, length, get_or, take, drop, replicate, slice, null, any, all, filter,
  find?, All, length-append, take-append_length, drop-append_length, length-take, length-drop,
  length-replicate, drop-append_add, get_or-append_add, slice-append_add, slice_middle, slice_at,
  ◌∈◌, ∈-append_left, ∈-append_right, ∈-append_cases, ∈-filter, filter-∈, any-∈, ∈-any,
  length-filter_split, null-length, find?-found, find?-append, find?-none, any-append, all-append,
  Text, Bytes, IsByte, codes, text_eq, text_eq→eq, text_eq_refl, text_eq_iff, le_bytes, le_value,
  le_value-le_bytes, length-le_bytes, le_bytes-IsByte,
}
use turjmp.Postgres.{ℤ}

-- What an address, a path or a name stands for if it is not configured.
abbrev or_default : Text → Text → Text
or_default t fallback = if null t then fallback else t

-- The same for a count, of which zero and less mean that it is not configured.
abbrev or_count : ℤ → ℕ → ℕ
or_count (ℤ.pos zero) fallback = fallback
or_count (ℤ.pos (suc n)) fallback = suc n
or_count (ℤ.negsuc n) fallback = fallback

pub record SshProxyConfig : Type 0 where
  pub addr : Text
  pub max_connections : ℤ
  pub idle_timeout_seconds : ℤ
  pub connect_timeout_seconds : ℤ

pub record DbProxyConfig : Type 0 where
  pub mysql_addr : Text
  pub postgres_addr : Text
  pub max_connections : ℤ
  pub idle_timeout_seconds : ℤ
  pub connect_timeout_seconds : ℤ
  pub usql_path : Text

pub record RdpProxyConfig : Type 0 where
  pub addr : Text
  pub guacd_addr : Text
  pub recording_path : Text
  pub max_connections : ℤ
  pub idle_timeout_seconds : ℤ
  pub connect_timeout_seconds : ℤ
  pub native_enabled : Bool
  pub native_addr : Text
  pub native_public_host : Text
  pub native_public_port : ℤ
  pub native_cert_path : Text
  pub native_key_path : Text
  pub native_engine_path : Text
  pub native_work_dir : Text

pub record ProxyConfig : Type 0 where
  pub api_base_url : Text
  pub ssh : SshProxyConfig
  pub db : DbProxyConfig
  pub rdp : RdpProxyConfig

unfoldable pub ssh_idle_timeout : SshProxyConfig → ℕ
ssh_idle_timeout c = or_count c.idle_timeout_seconds 900

unfoldable pub ssh_connect_timeout : SshProxyConfig → ℕ
ssh_connect_timeout c = or_count c.connect_timeout_seconds 15

unfoldable pub ssh_connection_limit : SshProxyConfig → ℕ
ssh_connection_limit c = or_count c.max_connections 100

unfoldable pub db_idle_timeout : DbProxyConfig → ℕ
db_idle_timeout c = or_count c.idle_timeout_seconds 1800

unfoldable pub db_connect_timeout : DbProxyConfig → ℕ
db_connect_timeout c = or_count c.connect_timeout_seconds 15

unfoldable pub db_connection_limit : DbProxyConfig → ℕ
db_connection_limit c = or_count c.max_connections 50

unfoldable pub mysql_listen_addr : DbProxyConfig → Text
mysql_listen_addr c = or_default c.mysql_addr (codes ":3307")

unfoldable pub postgres_listen_addr : DbProxyConfig → Text
postgres_listen_addr c = or_default c.postgres_addr (codes ":5437")

unfoldable pub usql_command : DbProxyConfig → Text
usql_command c = or_default c.usql_path (codes "usql")

unfoldable pub rdp_listen_addr : RdpProxyConfig → Text
rdp_listen_addr c = or_default c.addr (codes ":33891")

unfoldable pub guacd_listen_addr : RdpProxyConfig → Text
guacd_listen_addr c = or_default c.guacd_addr (codes "127.0.0.1:4822")

unfoldable pub rdp_recording_dir : RdpProxyConfig → Text
rdp_recording_dir c = or_default c.recording_path (codes "./recordings/rdp-tmp")

unfoldable pub rdp_idle_timeout : RdpProxyConfig → ℕ
rdp_idle_timeout c = or_count c.idle_timeout_seconds 3600

unfoldable pub rdp_connect_timeout : RdpProxyConfig → ℕ
rdp_connect_timeout c = or_count c.connect_timeout_seconds 15

unfoldable pub rdp_connection_limit : RdpProxyConfig → ℕ
rdp_connection_limit c = or_count c.max_connections 20

unfoldable pub native_listen_addr : RdpProxyConfig → Text
native_listen_addr c = or_default c.native_addr (codes ":33890")

unfoldable pub native_client_port : RdpProxyConfig → ℕ
native_client_port c = or_count c.native_public_port 33890

unfoldable pub native_engine_command : RdpProxyConfig → Text
native_engine_command c = or_default c.native_engine_path (codes "freerdp-proxy")

unfoldable pub native_engine_work_dir : RdpProxyConfig → Text
native_engine_work_dir c = or_default c.native_work_dir (codes "./run/rdp-native")
