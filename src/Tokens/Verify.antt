-- ===== src/Tokens/Verify.antt =====
-- TokenService.VerifyWithOptions: its reads, then its one write. The clock is read twice: for the
-- checks, and by the UPDATE.
use turjmp.Prelude.{
  ℕ, Bool, true, false, not, ◌&&◌, ◌||◌, none, some, [], ltb, ◌==◌, if◌then◌else◌, null, Text,
  codes, text_eq,
}
use turjmp.Domain.{
  Error, Result, ok, err, ◌>>=◌, ◌>>◌, guard, User, Asset, Account, ConnectionToken,
}
use turjmp.Store.{Store}
use turjmp.Store.Rows.{get_user, get_asset, get_account, get_asset_protocol_port}
use turjmp.Store.Permission.{has_asset_permission}
use turjmp.Store.Tokens.{get_connection_token, consume_connection_token}
use turjmp.Tokens.{
  Net, ProxyAuthConfig, authorize_proxy, canonical_connection_protocol, canonical_expected_protocol,
}

pub record VerifyTokenOptions : Type 0 where
  pub expected_protocol : Text
  pub consume : Bool

pub record VerifyTokenTarget : Type 0 where
  pub address : Text
  pub port : ℕ
  pub protocol : Text

-- The map of the account, with its decrypted secrets.
pub record TokenAccount : Type 0 where
  pub row : Account
  pub secret : Text
  pub passphrase : Text

pub record VerifyTokenResult : Type 0 where
  pub token : ConnectionToken
  pub user : User
  pub asset : Asset
  pub account : TokenAccount
  pub target : VerifyTokenTarget

unfoldable pub is_expired : ℕ → ConnectionToken → Bool
is_expired now token =
    ltb token.expires_at now || (elim token.used_at [ none ↦ false | some u ↦ true ])

-- The protocol that the caller expects, if it names one, is the token's.
unfoldable pub protocol_fits : VerifyTokenOptions → ConnectionToken → Bool
protocol_fits opts token =
    null (canonical_expected_protocol opts.expected_protocol)
    || text_eq (canonical_connection_protocol token.protocol)
        (canonical_expected_protocol opts.expected_protocol)

unfoldable pub port_or_default : Text → Result ℕ → Result ℕ
port_or_default protocol (ok port) = ok port
port_or_default protocol (err e) = if text_eq protocol (codes "ssh") then ok 22 else err e

unfoldable pub lost_race : Error → Error
lost_race Error.not_found = Error.unauthorized
lost_race e = e

abbrev pub checked_result :
    ConnectionToken → User → Asset → Account → ℕ → Text → Text → VerifyTokenResult
checked_result token user asset account port secret passphrase = record {
  token = token;
  user = user;
  asset = asset;
  account = record { row = account; secret = secret; passphrase = passphrase };
  target = record { address = asset.address; port = port; protocol = token.protocol };
}

-- `box.DecryptString` is a parameter.
module _ (net : Net) (decrypt_string : Text → Result Text) (cfg : ProxyAuthConfig) where
  -- Everything before the token is consumed.
  unfoldable pub check_token :
      Store → ℕ → Text → Text → Text → VerifyTokenOptions → Result VerifyTokenResult
  check_token s now value proxy_secret remote_ip opts = do
    guard (authorize_proxy net cfg proxy_secret remote_ip) Error.unauthorized
    token ← get_connection_token s value
    guard (not (is_expired now token)) Error.unauthorized
    guard (protocol_fits opts token) Error.forbidden
    user ← get_user s token.user_id
    guard user.is_active Error.unauthorized
    asset ← get_asset s token.asset_id
    account ← get_account s token.account_id
    guard (account.asset_id == asset.id && (asset.is_active && account.is_active)) Error.forbidden
    guard
        (has_asset_permission s now token.user_id token.asset_id token.account_id (codes "connect"))
        Error.forbidden
    port ← port_or_default token.protocol (get_asset_protocol_port s token.asset_id token.protocol)
    secret ← decrypt_string account.secret
    passphrase ← decrypt_string account.passphrase
    ok (checked_result token user asset account port secret passphrase)

  -- The write at the end; the target keeps the protocol of the row that the UPDATE returned.
  unfoldable pub consume_checked :
      Store → ℕ → VerifyTokenOptions → VerifyTokenResult → Store × Result VerifyTokenResult
  unfolding lost_race
  consume_checked s now opts checked =
      let result = consume_connection_token s now checked.token.value in
      if opts.consume && not checked.token.is_reusable
      then elim (result.1) [
        | err e ↦ (result.0, err (lost_race e))
        | ok token ↦ (
          result.0,
          ok (record checked {
            token = token;
            target = record {
              address = checked.target.address;
              port = checked.target.port;
              protocol = token.protocol;
            };
          }),
        )
      ]
      else (s, ok checked)

  unfoldable pub verify_with_options :
      Store → ℕ → ℕ → Text → Text → Text → VerifyTokenOptions → Store × Result VerifyTokenResult
  verify_with_options s now consumed_at value proxy_secret remote_ip opts =
      elim (check_token s now value proxy_secret remote_ip opts) [
        | err e ↦ (s, err e)
        | ok checked ↦ consume_checked s consumed_at opts checked
      ]

  unfoldable pub verify : Store → ℕ → ℕ → Text → Text → Text → Store × Result VerifyTokenResult
  verify s now consumed_at value proxy_secret remote_ip =
      verify_with_options s now consumed_at value proxy_secret remote_ip
        (record { expected_protocol = []; consume = true })
