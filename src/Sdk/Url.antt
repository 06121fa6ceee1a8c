-- ===== src/Sdk/Url.antt =====
-- internal/service/sdk.go: BuildSDKURL, which issues a token for a native client and writes its command.
use turjmp.Prelude.{
  ℕ, ◌-◌, ◌/◌, Bool, ◌&&◌, Option, none, some, [], ◌∷◌, ◌++◌, ◌==◌, if◌then◌else◌, null, Text,
  codes, text_eq,
}
use turjmp.Strings.{trim_space, to_lower, equal_fold, one_of}
use turjmp.Strings.Decimal.{decimal}
use turjmp.Domain.{Error, Result, ok, err, ◌>>=◌, ◌>>◌, guard, Account, ConnectionToken}
use turjmp.Store.{Store}
use turjmp.Store.Rows.{get_user, get_asset, get_account, get_asset_account, get_asset_protocol_port}
use turjmp.Store.Permission.{has_asset_permission}
use turjmp.Config.{ProxyConfig, rdp_listen_addr}
use turjmp.Tokens.Issue.{IssueTokenInput, issue}
use turjmp.Rdp.Route.{route_username}
use turjmp.Sdk.{
  Urls, shell_quote, sdk_default_connect_method, canonical_sdk_protocol, sdk_native_rdp_host,
  sdk_host, sdk_proxy_port, sdk_web_url, sdk_rdp_file_content,
}

pub record SdkUrlInput : Type 0 where
  pub token_input : IssueTokenInput
  pub proxy_host : Text
  pub format : Text

-- An end that is not set is `none`.
pub record SdkUrlResult : Type 0 where
  pub token : Text
  pub expires_at : Option ℕ
  pub expires_in : ℕ
  pub protocol : Text
  pub connect_method : Text
  pub host : Text
  pub port : ℕ
  pub command : Text
  pub filename : Text
  pub mime_type : Text
  pub content : Text
  pub web_url : Text

abbrev line : Text → Text
line t = t ++ 10 ∷ []

unfoldable pub ssh_command : Text → ℕ → Text → Text
ssh_command host port user =
    codes "ssh -p "
    ++ (decimal port ++ (codes " -l " ++ (shell_quote user ++ (codes " " ++ shell_quote host))))

unfoldable pub mysql_command : Text → ℕ → Text → Text
mysql_command host port user =
    codes "mysql -h "
    ++ (shell_quote host ++ (codes " -P " ++ (decimal port ++ (codes " -u " ++ shell_quote user))))

unfoldable pub postgres_command : Text → ℕ → Text → Text → Text
postgres_command host port user db_name =
    (codes "psql -h "
      ++ (shell_quote host
          ++ (codes " -p " ++ (decimal port ++ (codes " -U " ++ shell_quote user)))))
    ++ (if null db_name then [] else codes " -d " ++ shell_quote db_name)

-- The method that is written into the token, and the protocol as it is spelled from here on.
unfoldable pub canonical_input : Bool → IssueTokenInput → IssueTokenInput
canonical_input native_enabled input =
    let protocol = canonical_sdk_protocol input.protocol in
    record input {
      protocol = protocol;
      connect_method =
          if text_eq protocol (codes "rdp") && native_enabled
          then codes "rdp_client"
          else if null input.connect_method
          then sdk_default_connect_method protocol
          else input.connect_method;
    }

-- A missing protocol is refused like a missing permission.
unfoldable pub or_forbidden : Result ℕ → Result ℕ
or_forbidden (err Error.not_found) = err Error.forbidden
or_forbidden (err e) = err e
or_forbidden (ok port) = ok port

module _ (urls : Urls) where
  -- The command of each protocol; `none` for a protocol that has none.
  unfoldable pub with_command : ProxyConfig → Account → SdkUrlResult → Option SdkUrlResult
  unfolding ssh_command mysql_command postgres_command
  with_command cfg account r =
      let user = account.username ++ (codes "#" ++ r.token) in
      if text_eq r.protocol (codes "ssh")
      then some (record r {
        command = ssh_command r.host r.port user;
        filename = codes "turjmp-ssh.sh";
        mime_type = codes "text/x-shellscript";
        content =
            line (codes "#!/bin/sh") ++ (codes "exec " ++ line (ssh_command r.host r.port user));
      })
      else if text_eq r.protocol (codes "mysql")
      then some (record r {
        command = mysql_command r.host r.port user;
        filename = codes "turjmp-mysql.txt";
        mime_type = codes "text/plain";
        content = line (mysql_command r.host r.port user);
      })
      else if one_of r.protocol (codes "postgres" ∷ codes "postgresql" ∷ [])
      then some (record r {
        command = postgres_command r.host r.port user account.db_name;
        filename = codes "turjmp-postgres.txt";
        mime_type = codes "text/plain";
        content = line (postgres_command r.host r.port user account.db_name);
      })
      else if text_eq r.protocol (codes "rdp")
      then some (record r {
        web_url = sdk_web_url urls (rdp_listen_addr cfg.rdp) r.host r.token;
        command = sdk_web_url urls (rdp_listen_addr cfg.rdp) r.host r.token;
        filename = codes "turjmp-rdp.url";
        mime_type = codes "text/plain";
        content = line (sdk_web_url urls (rdp_listen_addr cfg.rdp) r.host r.token);
      })
      else none

  -- What is known once the token is issued; the seconds that are left are 0 once it is over.
  abbrev pub of_token : ℕ → ConnectionToken → Text → ℕ → SdkUrlResult
  of_token later token host port = record {
    token = token.value;
    expires_at = some token.expires_at;
    expires_in = (token.expires_at - later) / 1000000000;
    protocol = to_lower token.protocol;
    connect_method = token.connect_method;
    host = host;
    port = port;
    command = [];
    filename = [];
    mime_type = [];
    content = [];
    web_url = [];
  }

  -- A file for the RDP client, without a token; the checks are those of the login that follows.
  unfoldable pub build_native_rdp_sdk_url :
      Store → ℕ → ℕ → IssueTokenInput → ProxyConfig → Text → ℕ → Result SdkUrlResult
  build_native_rdp_sdk_url s now user_id input cfg fallback_host port = do
    user ← get_user s user_id
    guard user.is_active Error.unauthorized
    asset ← get_asset s input.asset_id
    account ← get_asset_account s input.asset_id input.account_id
    guard (asset.is_active && account.is_active) Error.forbidden
    guard (has_asset_permission s now user_id input.asset_id input.account_id (codes "connect"))
        Error.forbidden
    rdp_port ← or_forbidden (get_asset_protocol_port s input.asset_id (codes "rdp"))
    guard (equal_fold (trim_space account.secret_type) (codes "password")) Error.forbidden
    ok (record {
      token = [];
      expires_at = none;
      expires_in = 0;
      protocol = codes "rdp";
      connect_method = codes "rdp_client";
      host = sdk_native_rdp_host fallback_host cfg.rdp;
      port = port;
      command = codes "mstsc " ++ shell_quote (codes "turjmp-rdp.rdp");
      filename = codes "turjmp-rdp.rdp";
      mime_type = codes "application/x-rdp";
      content =
          sdk_rdp_file_content urls (sdk_native_rdp_host fallback_host cfg.rdp) port
            (route_username user.username input.asset_id input.account_id);
      web_url = [];
    })

  -- After the token is issued, which stays in the table when the rest fails.
  unfoldable pub issued_url :
      Store → ℕ → ProxyConfig → Text → ℕ → ConnectionToken → Result SdkUrlResult
  unfolding with_command
  issued_url s later cfg host port token = get_account s token.account_id >>= λ account.
      (elim (with_command cfg account (of_token later token host port)) [
        | none ↦ err Error.invalid_argument
        | some r ↦ ok r
      ])

  unfoldable pub build_sdk_url :
      Store → ℕ → ℕ → Text → ℕ → SdkUrlInput → ProxyConfig → Store × Result SdkUrlResult
  unfolding canonical_input build_native_rdp_sdk_url issued_url
  build_sdk_url s now later value user_id input cfg =
      let token_input = canonical_input cfg.rdp.native_enabled input.token_input in
      let port = sdk_proxy_port urls token_input.protocol cfg in
      let host = sdk_host urls input.proxy_host cfg.api_base_url in
      if port == 0
      then (s, err Error.invalid_argument)
      else if text_eq token_input.protocol (codes "rdp") && cfg.rdp.native_enabled
      then (s, build_native_rdp_sdk_url s now user_id token_input cfg host port)
      else elim ((issue s now value user_id token_input).1) [
        | err e ↦ ((issue s now value user_id token_input).0, err e)
        | ok token ↦ (
          (issue s now value user_id token_input).0,
          issued_url (issue s now value user_id token_input).0 later cfg host port token,
        )
      ]
