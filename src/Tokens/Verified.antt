-- ===== src/Tokens/Verified.antt =====
-- What a checked token says, and when the check of a token succeeds.
use turjmp.Prelude.{
  ℕ, ◌≤◌, ◌≡◌, refl, sym, inl, inr, true, not, ◌&&◌, none, arith, ◌==◌, Option-cases, Text, codes,
}
use turjmp.Domain.{Error, Result, ok, Asset, Account, ConnectionToken}
use turjmp.Domain.Bind.{ok_injective, bind_ok, guard_ok}
use turjmp.Store.{Store}
use turjmp.Store.Rows.{get_user, get_asset, get_account, get_asset_protocol_port}
use turjmp.Store.Permission.{has_asset_permission}
use turjmp.Store.Tokens.{get_connection_token}
use turjmp.Tokens.{Net, ProxyAuthConfig, authorize_proxy}
use turjmp.Tokens.Verify.{
  VerifyTokenOptions, VerifyTokenResult, is_expired, protocol_fits, port_or_default, checked_result,
  check_token,
}

module _ (net : Net) (decrypt_string : Text → Result Text) (cfg : ProxyAuthConfig) (s : Store)
    (now : ℕ) (value proxy_secret remote_ip : Text) (opts : VerifyTokenOptions) where
  -- The conditions under which the caller may use a token, and where the result comes from.
  pub record IsChecked (r : VerifyTokenResult) : Type 0 where
    pub from_proxy : authorize_proxy net cfg proxy_secret remote_ip ≡ true
    pub token_row : get_connection_token s value ≡ ok r.token
    pub not_expired : now ≤ r.token.expires_at
    pub not_used : r.token.used_at ≡ none
    pub fits : protocol_fits opts r.token ≡ true
    pub user_row : get_user s r.token.user_id ≡ ok r.user
    pub user_active : r.user.is_active ≡ true
    pub asset_row : get_asset s r.token.asset_id ≡ ok r.asset
    pub asset_active : r.asset.is_active ≡ true
    pub account_row : get_account s r.token.account_id ≡ ok r.account.row
    pub account_active : r.account.row.is_active ≡ true
    pub account_of_asset : r.account.row.asset_id ≡ r.asset.id
    pub permitted :
        has_asset_permission s now r.token.user_id r.token.asset_id r.token.account_id
          (codes "connect")
        ≡ true
    pub port :
        port_or_default r.token.protocol
          (get_asset_protocol_port s r.token.asset_id r.token.protocol)
        ≡ ok r.target.port
    pub address : r.target.address ≡ r.asset.address
    pub protocol : r.target.protocol ≡ r.token.protocol
    pub secret : decrypt_string r.account.row.secret ≡ ok r.account.secret
    pub passphrase : decrypt_string r.account.row.passphrase ≡ ok r.account.passphrase

  alive :
      (token : ConnectionToken)
      → not (is_expired now token) ≡ true
      → (now ≤ token.expires_at) × (token.used_at ≡ none)
  unfolding is_expired
  alive token h = elim (Option-cases token.used_at) [
    | inl e ↦ ground (arith, e)
    | inr (u, e) ↦ ground (arith, e)
  ]

  all_active :
      (account : Account) (asset : Asset)
      → (account.asset_id == asset.id && (asset.is_active && account.is_active)) ≡ true
      → (asset.is_active ≡ true) × ((account.is_active ≡ true) × (account.asset_id ≡ asset.id))
  all_active account asset h = ground arith

  -- A check that succeeds has made sure that the caller is an authorised proxy, that the token has the
  -- value asked for, is not expired and not used, and is of the expected protocol, that its user, asset
  -- and account exist and are active, that the account belongs to the asset, and that the user may
  -- connect; and its result is the token, these rows, the asset's address, the protocol's port and the
  -- account's decrypted secrets.
  pub check_token_sound :
      (r : VerifyTokenResult)
      → check_token net decrypt_string cfg s now value proxy_secret remote_ip opts ≡ ok r
      → IsChecked r
  unfolding check_token
  check_token_sound r h0 =
      let (from_proxy, h1) =
        guard_ok (authorize_proxy net cfg proxy_secret remote_ip) Error.unauthorized _ r h0 in
      let (token, (token_row, h2)) = bind_ok (get_connection_token s value) _ r h1 in
      let (live, h3) = guard_ok (not (is_expired now token)) Error.unauthorized _ r h2 in
      let (fits, h4) = guard_ok (protocol_fits opts token) Error.forbidden _ r h3 in
      let (user, (user_row, h5)) = bind_ok (get_user s token.user_id) _ r h4 in
      let (user_active, h6) = guard_ok user.is_active Error.unauthorized _ r h5 in
      let (asset, (asset_row, h7)) = bind_ok (get_asset s token.asset_id) _ r h6 in
      let (account, (account_row, h8)) = bind_ok (get_account s token.account_id) _ r h7 in
      let (active, h9) =
        guard_ok (account.asset_id == asset.id && (asset.is_active && account.is_active))
          Error.forbidden _ r h8 in
      let (permitted, h10) =
        guard_ok
          (has_asset_permission s now token.user_id token.asset_id token.account_id
            (codes "connect"))
          Error.forbidden _ r h9 in
      let (port, (port_eq, h11)) =
        bind_ok
          (port_or_default token.protocol (get_asset_protocol_port s token.asset_id token.protocol))
          _ r h10 in
      let (secret, (secret_eq, h12)) = bind_ok (decrypt_string account.secret) _ r h11 in
      let (passphrase, (passphrase_eq, h13)) =
        bind_ok (decrypt_string account.passphrase) _ r h12 in
      let (live_at, unused) = alive token live in
      let (asset_active, (account_active, of_asset)) = all_active account asset active in
      rw (sym (ok_injective (checked_result token user asset account port secret passphrase) r h13))
        (record {
          from_proxy = from_proxy;
          token_row = token_row;
          not_expired = live_at;
          not_used = unused;
          fits = fits;
          user_row = user_row;
          user_active = user_active;
          asset_row = asset_row;
          asset_active = asset_active;
          account_row = account_row;
          account_active = account_active;
          account_of_asset = of_asset;
          permitted = permitted;
          port = port_eq;
          address = refl {a = asset.address};
          protocol = refl {a = token.protocol};
          secret = secret_eq;
          passphrase = passphrase_eq;
        })

  -- A check succeeds with every result for which the caller is an authorised proxy, the token has the
  -- value asked for, is alive, unused and of the expected protocol, its rows exist, are active, belong
  -- together and give the result's fields, and the user may connect.
  pub check_token_complete :
      (r : VerifyTokenResult)
      → IsChecked r
      → check_token net decrypt_string cfg s now value proxy_secret remote_ip opts ≡ ok r
  unfolding check_token is_expired
  check_token_complete r h = ground (
    arith, h.from_proxy, h.token_row, h.not_expired, h.not_used, h.fits, h.user_row, h.user_active,
    h.asset_row, h.asset_active, h.account_row, h.account_active, h.account_of_asset, h.permitted,
    h.port, h.address, h.protocol, h.secret, h.passphrase,
  )
