-- ===== src/Tests/Tokens.antt =====
-- Connection tokens.
use turjmp.Prelude.{◌≡◌, refl, true, false, none, some, [], arith, codes, text_eq}
use turjmp.Domain.{ConnectionToken, Error, ok, err}
use turjmp.Strings.{trim_space, to_lower, has_prefix}
use turjmp.Store.{Store}
use turjmp.Store.Rows.{get_user, get_asset, get_account, get_asset_account, get_asset_protocol_port}
use turjmp.Store.Permission.{has_asset_permission}
use turjmp.Store.Tokens.{
  create_connection_token, get_connection_token, is_consumable, use_row, returned_row,
  consume_connection_token,
}
use turjmp.Store.Tokens.Once.{IsUnique, Step, Steps}
use turjmp.Tokens.{canonical_expected_protocol, allowed_ip, authorize_proxy}
use turjmp.Tokens.Issue.{IssueTokenInput, new_token, issue}
use turjmp.Tokens.Verify.{
  VerifyTokenOptions, VerifyTokenResult, is_expired, protocol_fits, port_or_default, checked_result,
  check_token, consume_checked, verify_with_options,
}
use turjmp.Tokens.Verified.{IsChecked, check_token_sound}
use turjmp.Tokens.Once.{one_winner, verify_once, refused_unchanged}
use turjmp.Tokens.RoundTrip.{IsUsable, accepted, issue-verify}
use turjmp.Tests.World.{user, asset, account, token, store, net, cfg, decrypt_string}

abbrev opts : VerifyTokenOptions
opts = record { expected_protocol = codes " SSH "; consume = true }

abbrev checked : VerifyTokenResult
checked = checked_result token user asset account 22 (codes "plains") (codes "plain")

runs :
    check_token net decrypt_string cfg store 20
      (codes "abc")
      (codes "proxy")
      (codes "10.0.0.1")
      opts
    ≡ ok checked
unfolding check_token authorize_proxy text_eq get_connection_token is_expired protocol_fits
    canonical_expected_protocol trim_space to_lower get_user get_asset get_account
    has_asset_permission has_prefix port_or_default get_asset_protocol_port
runs = refl

abbrev other_token : ConnectionToken
other_token = record token { value = codes "def" }

abbrev preflight : VerifyTokenOptions
preflight = record { expected_protocol = []; consume = false }

abbrev wrong_protocol : VerifyTokenOptions
wrong_protocol = record { expected_protocol = codes "rdp"; consume = true }

abbrev consumed : VerifyTokenResult
consumed =
    checked_result (record token { used_at = some 21 }) user asset account 22 (codes "plains")
      (codes "plain")

consumes : (consume_checked net decrypt_string cfg store 21 opts checked).1 ≡ ok consumed
unfolding consume_checked consume_connection_token text_eq
consumes = refl

verifies :
    (verify_with_options net decrypt_string cfg store 20 21
      (codes "abc")
      (codes "proxy")
      (codes "10.0.0.1")
      opts).1
    ≡ ok consumed
unfolding verify_with_options consume_checked check_token authorize_proxy text_eq
    get_connection_token is_expired protocol_fits canonical_expected_protocol trim_space to_lower
    get_user get_asset get_account has_asset_permission has_prefix port_or_default
    get_asset_protocol_port consume_connection_token is_consumable use_row returned_row
verifies = refl

refuses :
    (verify_with_options net decrypt_string cfg store 20 21
      (codes "abc")
      (codes "proxy")
      (codes "10.0.0.1")
      wrong_protocol).1
    ≡ err Error.forbidden
unfolding verify_with_options check_token authorize_proxy text_eq get_connection_token is_expired
    protocol_fits canonical_expected_protocol trim_space to_lower
refuses = refl

unique : IsUnique store.connection_tokens
unfolding IsUnique
unique = (refl, tt)

check_token_sound_example :
    IsChecked net decrypt_string cfg store 20
      (codes "abc")
      (codes "proxy")
      (codes "10.0.0.1")
      opts
      checked
check_token_sound_example =
    check_token_sound net decrypt_string cfg store 20 (codes "abc") (codes "proxy")
      (codes "10.0.0.1") opts checked runs

-- The store after the token was used.
abbrev used_store : Store
used_store =
    (verify_with_options net decrypt_string cfg store 20 21 (codes "abc") (codes "proxy")
      (codes "10.0.0.1") opts).0

verify_once_example :
    (verify_with_options net decrypt_string cfg used_store 22 23
      (codes "abc")
      (codes "proxy")
      (codes "10.0.0.1")
      opts).1
    ≡ err Error.unauthorized
verify_once_example =
    verify_once net decrypt_string cfg store used_store 20 21 22 23 (codes "abc") (codes "proxy")
      (codes "10.0.0.1") (codes "proxy") (codes "10.0.0.1") opts opts consumed unique refl verifies
      refl (Steps.stay used_store)

abbrev raced_store : Store
raced_store = (consume_checked net decrypt_string cfg store 21 opts checked).0

one_winner_example :
    (consume_checked net decrypt_string cfg
      (create_connection_token raced_store other_token).0
      22
      opts
      checked).1
    ≡ err Error.unauthorized
one_winner_example =
    one_winner net decrypt_string cfg store ((create_connection_token raced_store other_token).0) 21
      22 opts opts checked checked consumed unique refl refl refl refl refl consumes
      (Steps.next raced_store _ _ (Step.create_step raced_store other_token) (Steps.stay _))

refused_unchanged_example :
    (verify_with_options net decrypt_string cfg store 20 21
      (codes "abc")
      (codes "proxy")
      (codes "10.0.0.1")
      wrong_protocol).0
    ≡ store
refused_unchanged_example =
    refused_unchanged net decrypt_string cfg store 20 21 (codes "abc") (codes "proxy")
      (codes "10.0.0.1") wrong_protocol Error.forbidden refuses

abbrev input : IssueTokenInput
input = record {
  asset_id = 2;
  account_id = 3;
  protocol = codes "ssh";
  connect_method = [];
  is_reusable = false;
  connect_options = [];
}

abbrev issued_token : ConnectionToken
issued_token = record {
  id = 2;
  value = codes "xyz";
  user_id = 1;
  asset_id = 2;
  account_id = 3;
  protocol = codes "ssh";
  connect_method = codes "web_cli";
  is_reusable = false;
  connect_options = codes "{}";
  used_at = none;
  expires_at = 300000000020;
}

issues : (issue store 20 (codes "xyz") 1 input).1 ≡ ok issued_token
unfolding issue turjmp.Store.next_id has_asset_permission has_prefix create_connection_token text_eq
    to_lower trim_space
issues = refl

usable :
    IsUsable net decrypt_string cfg store 20 30
      (codes "xyz")
      (codes "proxy")
      (codes "10.0.0.1")
      opts
      user
      asset
      account
      22
      (codes "plains")
      (codes "plain")
      input
unfolding authorize_proxy text_eq allowed_ip protocol_fits canonical_expected_protocol trim_space
    to_lower new_token get_user get_asset get_account get_asset_account has_asset_permission
    has_prefix port_or_default get_asset_protocol_port
usable = record {
  from_proxy = refl;
  fits = refl;
  user_row = refl;
  user_active = refl;
  asset_row = refl;
  account_row = refl;
  asset_account_row = refl;
  permitted = refl;
  port_row = refl;
  opens_secret = refl;
  opens_passphrase = refl;
}

issue-verify_example :
    (verify_with_options net decrypt_string cfg
      ((issue store 20 (codes "xyz") 1 input).0)
      30
      31
      (codes "xyz")
      (codes "proxy")
      (codes "10.0.0.1")
      opts).1
    ≡ ok (
        checked_result
          (accepted net decrypt_string cfg store 20 30
            (codes "xyz")
            (codes "proxy")
            (codes "10.0.0.1")
            opts
            user
            asset
            account
            22
            (codes "plains")
            (codes "plain")
            input
            31)
          user
          asset
          account
          22
          (codes "plains")
          (codes "plain"))
issue-verify_example =
    issue-verify net decrypt_string cfg store 20 30 (codes "xyz") (codes "proxy") (codes "10.0.0.1")
      opts user asset account 22 (codes "plains") (codes "plain") input 31 issued_token usable
      issues (omega arith) (omega arith)
