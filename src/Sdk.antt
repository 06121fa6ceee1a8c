-- ===== src/Sdk.antt =====
-- internal/service/sdk.go: what a native client is given to connect with. What it uses of packages net and
-- net/url is the parameter Urls.
pub mod Quote
pub mod Url
use turjmp.Prelude.{
  ℕ, zero, suc, ◌+◌, ◌-◌, ◌*◌, ◌/◌, ◌%◌, ◌^◌, ◌≤◌, ◌<◌, ◌≡◌, refl, sym, ap, ◌∙◌, ◌≢◌, ◌↔◌, ◌⊎◌, inl,
  inr, Bool, true, false, not, ◌&&◌, ◌||◌, Option, none, some, List, [], ◌∷◌, ◌++◌, append-nil,
  append_assoc, arith, ltb, leb, ◌==◌, if◌then◌else◌, ltb→lt, lt→ltb, leb→le, ==_iff, ==_refl,
  Bool-cases, Option-cases, length, get_or, take, drop, replicate, slice, null, any, all, filter,
  find?, All, length-append, take-append_length, drop-append_length, length-take, length-drop,
  length-replicate, drop-append_add, get_or-append_add, slice-append_add, slice_middle, slice_at,
  ◌∈◌, ∈-append_left, ∈-append_right, ∈-append_cases, ∈-filter, filter-∈, any-∈, if-∈, ∈-any,
  length-filter_split, null-length, find?-found, find?-append, find?-none, any-append, all-append,
  Text, Bytes, IsByte, codes, text_eq, text_eq→eq, text_eq_refl, text_eq_iff, le_bytes, le_value,
  le_value-le_bytes, length-le_bytes, le_bytes-IsByte,
}
use turjmp.Strings.{
  trim_space, trim_func, to_lower, equal_fold, has_prefix, join, replace_all, one_of,
}
use turjmp.Strings.Decimal.{decimal}
use turjmp.Postgres.{ℤ, parse_int64}
use turjmp.Domain.{
  Error, Result, ok, err, ◌>>=◌, ◌>>◌, guard, User, Asset, Account, ConnectionToken,
}
use turjmp.Store.{Store}
use turjmp.Store.Rows.{get_user, get_asset, get_account, get_asset_account, get_asset_protocol_port}
use turjmp.Store.Permission.{has_asset_permission}
use turjmp.Config.{
  SshProxyConfig, DbProxyConfig, RdpProxyConfig, ProxyConfig, mysql_listen_addr,
  postgres_listen_addr, rdp_listen_addr, native_client_port,
}
use turjmp.Tokens.Issue.{IssueTokenInput, issue}
use turjmp.Rdp.Route.{route_username}

-- The characters that are left as they are.
unfoldable pub is_safe : ℕ → Bool
is_safe c =
    c == b'-'
    || (c == b'_'
        || (c == b'.'
            || (c == b':'
                || (c == b'/'
                    || (c == b'#'
                        || ((leb b'0' c && leb c b'9')
                            || ((leb b'A' c && leb c b'Z') || (leb b'a' c && leb c b'z'))))))))

-- A quote ends the quoted part, stands for itself behind a backslash, and starts a new one.
unfoldable pub shell_quote : Text → Text
unfolding is_safe
shell_quote value =
    if null value
    then b'\'' ∷ b'\'' ∷ []
    else if all is_safe value
    then value
    else b'\'' ∷ (replace_all b'\'' (b'\'' ∷ b'\\' ∷ b'\'' ∷ b'\'' ∷ []) value ++ b'\'' ∷ [])

unfoldable pub sdk_default_connect_method : Text → Text
sdk_default_connect_method protocol =
    if text_eq protocol (codes "ssh")
    then codes "ssh_client"
    else if text_eq protocol (codes "mysql")
    then codes "mysql_client"
    else if one_of protocol (codes "postgres" ∷ codes "postgresql" ∷ [])
    then codes "postgres_client"
    else if text_eq protocol (codes "rdp")
    then codes "web_rdp"
    else codes "native_client"

unfoldable pub canonical_sdk_protocol : Text → Text
canonical_sdk_protocol protocol =
    let name = to_lower (trim_space protocol) in
    if null name
    then codes "ssh"
    else if text_eq name (codes "postgresql")
    then codes "postgres"
    else name

-- What the code uses of net and net/url: SplitHostPort, the host of a parsed URL, JoinHostPort and
-- QueryEscape.
pub record Urls : Type 0 where
  pub split_host_port : Text → Option (Text × Text)
  pub url_host : Text → Option Text
  pub join_host_port : Text → Text → Text
  pub query_escape : Text → Text

abbrev positive_or : Option ℤ → ℕ → ℕ
positive_or none fallback = fallback
positive_or (some (ℤ.negsuc n)) fallback = fallback
positive_or (some (ℤ.pos n)) fallback = if n == 0 then fallback else n

-- strings.Trim(s, "[]")
abbrev trim_brackets : Text → Text
trim_brackets t = trim_func (λ c. c == b'[' || c == b']') t

-- The host of an address, which may have a port.
abbrev host_or_trimmed : Option (Text × Text) → Text → Text
host_or_trimmed none t = trim_brackets t
host_or_trimmed (some (host, port)) t = if null host then trim_brackets t else host

-- `u.Host != ""`
abbrev of_base : Urls → Option Text → Text
of_base urls none = codes "127.0.0.1"
of_base urls (some host) =
    if null host then codes "127.0.0.1" else host_or_trimmed (urls.split_host_port host) host

abbrev sdk_native_rdp_host : Text → RdpProxyConfig → Text
sdk_native_rdp_host fallback_host c =
    if null (trim_space c.native_public_host)
    then fallback_host
    else trim_space c.native_public_host

module _ (urls : Urls) where
  unfoldable pub sdk_host : Text → Text → Text
  sdk_host proxy_host api_base_url =
      if null proxy_host
      then of_base urls (urls.url_host api_base_url)
      else host_or_trimmed (urls.split_host_port proxy_host) proxy_host

  -- The text of the port: what SplitHostPort finds, or all that follows a leading colon.
  unfoldable pub port_text : Text → Option Text
  port_text addr = elim (urls.split_host_port addr) [
    | some (host, port) ↦ some port
    | none ↦ if has_prefix addr (codes ":") then some (drop 1 addr) else none
  ]

  unfoldable pub listen_port : Text → ℕ → ℕ
  unfolding port_text
  listen_port addr fallback = if null addr then fallback else elim (port_text addr) [
    | none ↦ fallback
    | some port ↦ positive_or (parse_int64 port) fallback
  ]

  unfoldable pub sdk_proxy_port : Text → ProxyConfig → ℕ
  unfolding listen_port
  sdk_proxy_port protocol cfg =
      if text_eq protocol (codes "ssh")
      then listen_port cfg.ssh.addr 2222
      else if text_eq protocol (codes "mysql")
      then listen_port (mysql_listen_addr cfg.db) 3307
      else if one_of protocol (codes "postgres" ∷ codes "postgresql" ∷ [])
      then listen_port (postgres_listen_addr cfg.db) 5437
      else if text_eq protocol (codes "rdp")
      then (if cfg.rdp.native_enabled
          then native_client_port cfg.rdp
          else listen_port (rdp_listen_addr cfg.rdp) 33891)
      else 0

  unfoldable pub sdk_web_url : Text → Text → Text → Text
  unfolding listen_port
  sdk_web_url listen_addr host token =
      codes "ws://"
      ++ (urls.join_host_port host (decimal (listen_port listen_addr 33891))
          ++ (codes "/ws/rdp/?token=" ++ urls.query_escape token))

  unfoldable pub sdk_rdp_file_content : Text → ℕ → Text → Text
  sdk_rdp_file_content host port route =
      join (13 ∷ 10 ∷ []) (
        codes "screen mode id:i:2"
        ∷ codes "use multimon:i:0"
        ∷ codes "desktopwidth:i:0"
        ∷ codes "desktopheight:i:0"
        ∷ codes "session bpp:i:32"
        ∷ (codes "full address:s:" ++ urls.join_host_port host (decimal port))
        ∷ codes "prompt for credentials:i:1"
        ∷ codes "authentication level:i:2"
        ∷ codes "enablecredsspsupport:i:1"
        ∷ (codes "username:s:" ++ route)
        ∷ [])
      ++ 13 ∷ 10 ∷ []
