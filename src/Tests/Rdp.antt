-- ===== src/Tests/Rdp.antt =====
-- Native RDP logins, sessions and passwords.
use turjmp.Prelude.{
  ℕ, ◌+◌, ◌≤◌, ◌≡◌, refl, ap, true, false, none, some, [], ◌∷◌, arith, length, null, All, Text,
  codes, text_eq, text_eq_refl,
}
use turjmp.Postgres.{ℤ}
use turjmp.Strings.{trim_space, is_space}
use turjmp.Strings.Trim.{StartsKept, EndsKept}
use turjmp.Domain.{ok, RdpProxyCredential, Session}
use turjmp.Domain.Bind.{ok_injective}
use mathlib.Core.Path.{subst}
use turjmp.Store.{Store, empty_store}
use turjmp.Store.Rows.{get_user_by_username}
use turjmp.Store.Sessions.{list_active_native_rdp_session_ids}
use turjmp.Store.Sessions.Ids.{NoDup}
use turjmp.Config.{RdpProxyConfig}
use turjmp.Reason.{sanitize_native_rdp_reason}
use turjmp.Rdp.Route.{parse_rdp_route_username, route_username, parse-route_username}
use turjmp.Rdp.Credentials.{Hashing, RdpProxyCredentialStatus, set, disable, verify_credential}
use turjmp.Rdp.Credentials.Change.{verify-set}
use turjmp.Rdp.Native.{granted, ResolveInput, ResolveResult, resolve, resolve_result}
use turjmp.Rdp.Native.Resolved.{MayConnect, resolve_sound}
use turjmp.Rdp.Native.Session.{start_session, finish_active_sessions}
use turjmp.Rdp.Native.Session.Started.{Kept, start_session-audited}
use turjmp.Rdp.Native.Session.Cleanup.{finish_active_sessions_lem}
use turjmp.Rdp.Native.Session.Due.{ids}
use turjmp.Strings.{byte_length}
use turjmp.Store.Settings.{effective_password_min_length}
use turjmp.Tests.World.{user, asset, account, store, decrypt_string, session}

-- A password is hashed by a mark in front of it.
abbrev hashing : Hashing
hashing = record {
  hash_password = λ p. ok (b'!' ∷ p);
  verify_password = λ p h. ok (text_eq h (b'!' ∷ p));
}

abbrev credential : RdpProxyCredential
credential = record {
  user_id = 1;
  password_hash = codes "!front";
  is_enabled = true;
  updated_at = 5;
  disabled_at = none;
}

abbrev rdp_store : Store
rdp_store = record store {
  credentials = credential ∷ [];
  protocols = record { id = 1; platform_id = 7; name = codes "rdp"; port = 3389 } ∷ [];
}

abbrev input : ResolveInput
input = record {
  route_username = codes "ann#2#3";
  password = codes "front";
  remote_addr = codes "10.1.1.1:999";
}

abbrev config : RdpProxyConfig
config = record {
  addr = [];
  guacd_addr = [];
  recording_path = [];
  max_connections = ℤ.pos 2;
  idle_timeout_seconds = ℤ.pos 0;
  connect_timeout_seconds = ℤ.pos 0;
  native_enabled = true;
  native_addr = [];
  native_public_host = [];
  native_public_port = ℤ.pos 0;
  native_cert_path = [];
  native_key_path = [];
  native_engine_path = [];
  native_work_dir = [];
}

abbrev answer : ResolveResult
answer = resolve_result user asset account 3389 (codes "plains")

resolved : resolve hashing decrypt_string rdp_store 20 input ≡ granted answer
unfolding resolve parse_rdp_route_username turjmp.Strings.split trim_space
    turjmp.Postgres.parse_int64 verify_credential get_user_by_username text_eq
    turjmp.Store.Rows.get_rdp_proxy_credential turjmp.Store.Rows.get_asset
    turjmp.Store.Rows.get_asset_account turjmp.Store.Permission.has_asset_permission
    turjmp.Strings.has_prefix turjmp.Store.Rows.get_asset_protocol_port turjmp.Strings.one_of
    turjmp.Strings.to_lower turjmp.Strings.equal_fold turjmp.Postgres.digits_value
    turjmp.Postgres.magnitude turjmp.Postgres.negative_int64 turjmp.Postgres.positive_int64
    turjmp.Rdp.Credentials.unauthorized turjmp.Rdp.Route.parse_positive_route_id
    turjmp.Rdp.Route.positive turjmp.Rdp.Route.route_of turjmp.Rdp.Route.route_of_parts
    turjmp.Store.Permission.actions_like turjmp.Store.Permission.asset_nodes
    turjmp.Store.Permission.contains turjmp.Store.Permission.covers_account
    turjmp.Store.Permission.covers_asset turjmp.Store.Permission.covers_user
    turjmp.Store.Permission.grants turjmp.Store.Permission.in_effect turjmp.Store.Permission.inherit
    turjmp.Store.Permission.is_parent turjmp.Store.Permission.linked
    turjmp.Store.Permission.own_node turjmp.Store.Permission.owned
    turjmp.Store.Rows.protocol_aliases turjmp.Strings.fold_char is_space
    turjmp.Strings.to_lower_char turjmp.Strings.trim_func turjmp.Strings.trim_left
    turjmp.Strings.trim_right
resolved = refl

resolve_sound_example : MayConnect hashing decrypt_string rdp_store 20 input answer
resolve_sound_example = resolve_sound hashing decrypt_string rdp_store 20 input answer resolved

start_session-audited_example :
    (length ((start_session hashing decrypt_string rdp_store 20 config input).0.audit_logs) ≡ 0 + 1)
    × Kept rdp_store config
        (codes "10.1.1.1:999")
        (start_session hashing decrypt_string rdp_store 20 config input)
start_session-audited_example =
    start_session-audited hashing decrypt_string rdp_store 20 config input

kept_start : StartsKept is_space (codes "ann")
unfolding is_space
kept_start = refl

kept_end : EndsKept is_space (codes "ann")
unfolding is_space
kept_end = refl

parse-route_username_example :
    parse_rdp_route_username (route_username (codes "ann") 2 31)
    ≡ ok (record { username = codes "ann"; asset_id = 2; account_id = 31 })
parse-route_username_example =
    parse-route_username (codes "ann") 2 31 refl (refl, (refl, (refl, tt))) kept_start kept_end
      (omega arith) (omega arith) (omega arith) (omega arith)

abbrev active_session : ℕ → Session
active_session id = record session { id = id }

abbrev busy : Store
busy = record rdp_store {
  sessions =
      active_session 4 ∷ record session { id = 2; protocol = codes "ssh" } ∷ active_session 3 ∷ [];
}

no_repeat : NoDup (ids busy.sessions)
no_repeat = ground arith

ids-positive : All (λ i. 1 ≤ i) (ids busy.sessions)
ids-positive = (omega arith, (omega arith, (omega arith, tt)))

finish_active_sessions_lem_example :
    ((finish_active_sessions busy 30 (codes "proxy shutdown")).1
      ≡ ok (record {
        reason = sanitize_native_rdp_reason (codes "proxy shutdown");
        finished = list_active_native_rdp_session_ids busy;
        skipped = [];
      }))
    × (list_active_native_rdp_session_ids
          ((finish_active_sessions busy 30 (codes "proxy shutdown")).0)
        ≡ [])
finish_active_sessions_lem_example =
    finish_active_sessions_lem busy 30 (codes "proxy shutdown") no_repeat ids-positive

listed : list_active_native_rdp_session_ids busy ≡ 3 ∷ 4 ∷ []
unfolding list_active_native_rdp_session_ids text_eq
listed = refl

law :
    (hash : Text)
    → hashing.hash_password (codes "longenough") ≡ ok hash
    → hashing.verify_password (codes "longenough") hash ≡ ok true
law hash e =
    subst (λ h. hashing.verify_password (codes "longenough") h ≡ ok true)
      (ok_injective (b'!' ∷ codes "longenough") hash e)
      (ap ok (text_eq_refl (b'!' ∷ codes "longenough")))

abbrev set_status : RdpProxyCredentialStatus
set_status = record {
  user_id = 1;
  configured = true;
  enabled = true;
  updated_at = some 40;
  disabled_at = none;
}

is_set : (set hashing rdp_store (ℤ.pos 8) 40 1 (codes "longenough")).1 ≡ ok set_status
unfolding set turjmp.Store.Settings.is_shorter turjmp.Store.Settings.effective_password_min_length
    turjmp.Store.Rows.get_setting turjmp.Store.Rows.get_user
    turjmp.Rdp.Credentials.upsert_rdp_proxy_credential
is_set = refl

name_given : null (trim_space (codes "ann")) ≡ false
unfolding trim_space
name_given = refl

is_known : get_user_by_username rdp_store (trim_space (codes "ann")) ≡ ok user
unfolding get_user_by_username text_eq trim_space
is_known = refl

verify-set_example :
    ((n : ℕ)
      → effective_password_min_length rdp_store (ℤ.pos 8) ≡ ℤ.pos n
      → n ≤ byte_length (codes "longenough"))
    × (verify_credential hashing
          ((set hashing rdp_store (ℤ.pos 8) 40 1 (codes "longenough")).0)
          (codes "ann")
          (codes "longenough")
        ≡ ok user)
verify-set_example =
    verify-set hashing rdp_store (ℤ.pos 8) 40 user (codes "ann") (codes "longenough") set_status law
      is_set name_given refl is_known refl

abbrev other_user_store : Store
other_user_store = record rdp_store {
  credentials = credential ∷ record credential { user_id = 8 } ∷ [];
}

abbrev disabled_store : Store
disabled_store = (disable other_user_store 40 8).0

-- In between, another user gets a new password.
abbrev changed_store : Store
changed_store = (set hashing disabled_store (ℤ.pos 8) 41 1 (codes "longenough")).0
