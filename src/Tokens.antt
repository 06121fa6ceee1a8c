-- ===== src/Tokens.antt =====
-- internal/service/tokens.go: what the issue and the check of a connection token share.
pub mod Issue
pub mod Verify
pub mod Verified
pub mod Once
pub mod RoundTrip
use turjmp.Prelude.{
  ℕ, zero, suc, ◌+◌, ◌-◌, ◌*◌, ◌/◌, ◌%◌, ◌^◌, ◌≤◌, ◌<◌, ◌≡◌, refl, sym, ap, ◌∙◌, ◌≢◌, ◌↔◌, ◌⊎◌, inl,
  inr, Bool, true, false, not, ◌&&◌, ◌||◌, Option, none, some, List, [], ◌∷◌, ◌++◌, append-nil,
  append_assoc, arith, ltb, leb, ◌==◌, if◌then◌else◌, ltb→lt, lt→ltb, leb→le, ==_iff, ==_refl,
  Bool-cases, Option-cases, length, get_or, take, drop, replicate, slice, null, any, all, filter,
  find?, All, length-append, take-append_length, drop-append_length, length-take, length-drop,
  length-replicate, drop-append_add, get_or-append_add, slice-append_add, slice_middle, slice_at,
  Text, Bytes, IsByte, codes, text_eq, text_eq→eq, text_eq_refl, text_eq_iff, le_bytes, le_value,
  le_value-le_bytes, length-le_bytes, le_bytes-IsByte,
}
use turjmp.Strings.{trim_space, to_lower}

unfoldable pub canonical_connection_protocol : Text → Text
canonical_connection_protocol protocol =
    let p = to_lower (trim_space protocol) in
    if text_eq p []
    then codes "ssh"
    else if text_eq p (codes "postgresql")
    then codes "postgres"
    else p

unfoldable pub canonical_expected_protocol : Text → Text
unfolding canonical_connection_protocol
canonical_expected_protocol protocol =
    if text_eq (trim_space protocol) [] then [] else canonical_connection_protocol protocol

-- What allowedIP uses of Go's package net: ParseIP, the host of SplitHostPort, ParseCIDR with Contains
-- of its network, and Equal.
pub record Net : Type 1 where
  pub Ip : Type 0
  pub parse_ip : Text → Option Ip
  pub split_host : Text → Option Text
  pub parse_cidr : Text → Option (Ip × (Ip → Bool))
  pub ip_equal : Ip → Ip → Bool

pub record ProxyAuthConfig : Type 0 where
  pub secret : Text
  pub allowed_ips : List Text

module _ (net : Net) where
  unfoldable pub remote_host : Text → Option net.Ip
  remote_host remote_ip = elim (net.parse_ip remote_ip) [
    | some ip ↦ some ip
    | none ↦ elim (net.split_host remote_ip) [ none ↦ none | some host ↦ net.parse_ip host ]
  ]

  -- One entry of the list against the address of the caller.
  unfoldable pub entry_allows : Text → Option net.Ip → Text → Bool
  entry_allows remote_ip ip allowed = text_eq allowed remote_ip || (elim ip [
    | none ↦ false
    | some i ↦ elim (net.parse_cidr allowed) [
      | some (cidr_ip, contains) ↦ contains i || net.ip_equal cidr_ip i
      | none ↦ elim (net.parse_ip allowed) [ none ↦ false | some a ↦ net.ip_equal i a ]
    ]
  ])

  unfoldable pub allowed_ip : ProxyAuthConfig → Text → Bool
  unfolding entry_allows remote_host
  allowed_ip cfg remote_ip =
      null cfg.allowed_ips || any (entry_allows remote_ip (remote_host remote_ip)) cfg.allowed_ips

  unfoldable pub authorize_proxy : ProxyAuthConfig → Text → Text → Bool
  unfolding allowed_ip
  authorize_proxy cfg proxy_secret remote_ip =
      not (null proxy_secret) && (text_eq proxy_secret cfg.secret && allowed_ip cfg remote_ip)
