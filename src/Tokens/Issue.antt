-- ===== src/Tokens/Issue.antt =====
-- TokenService.Issue.
use turjmp.Prelude.{ℕ, ◌+◌, ◌*◌, ◌^◌, Bool, ◌&&◌, none, if◌then◌else◌, null, Text, codes}
use turjmp.Domain.{Error, Result, ok, err, ◌>>=◌, ◌>>◌, guard, ConnectionToken}
use turjmp.Store.{Store}
use turjmp.Store.Rows.{get_asset, get_asset_account}
use turjmp.Store.Permission.{has_asset_permission}
use turjmp.Store.Tokens.{create_connection_token}
use turjmp.Tokens.{canonical_connection_protocol}

pub record IssueTokenInput : Type 0 where
  pub asset_id : ℕ
  pub account_id : ℕ
  pub protocol : Text
  pub connect_method : Text
  pub is_reusable : Bool
  pub connect_options : Text

-- Five minutes in nanoseconds, the ticks of the model's clock.
abbrev pub token_lifetime : ℕ
token_lifetime = 300 * 10 ^ 9

-- The checks before the token is made.
unfoldable pub may_issue : Store → ℕ → ℕ → IssueTokenInput → Result (Unit {0})
unfolding get_asset get_asset_account
may_issue s now user_id input = do
  asset ← get_asset s input.asset_id
  account ← get_asset_account s input.asset_id input.account_id
  guard (asset.is_active && account.is_active) Error.forbidden
  guard (has_asset_permission s now user_id input.asset_id input.account_id (codes "connect"))
      Error.forbidden

-- The token that is stored; its id is the database's, and 0 before.
unfoldable pub new_token : ℕ → Text → ℕ → IssueTokenInput → ConnectionToken
unfolding canonical_connection_protocol
new_token now value user_id input = record {
  id = 0;
  value = value;
  user_id = user_id;
  asset_id = input.asset_id;
  account_id = input.account_id;
  protocol = canonical_connection_protocol input.protocol;
  connect_method = if null input.connect_method then codes "web_cli" else input.connect_method;
  is_reusable = input.is_reusable;
  connect_options = if null input.connect_options then codes "{}" else input.connect_options;
  used_at = none;
  expires_at = now + token_lifetime;
}

-- `value` is the new UUID.
unfoldable pub issue : Store → ℕ → Text → ℕ → IssueTokenInput → Store × Result ConnectionToken
unfolding may_issue new_token
issue s now value user_id input = elim (may_issue s now user_id input) [
  | err e ↦ (s, err e)
  | ok u ↦ create_connection_token s (new_token now value user_id input)
]
