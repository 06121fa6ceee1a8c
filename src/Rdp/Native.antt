-- ===== src/Rdp/Native.antt =====
-- internal/service/rdp_native.go: the route, credentials and rights of a native RDP login are checked,
-- then its session starts, and it ends once.
pub mod Session
pub mod Resolved
use turjmp.Prelude.{
  ℕ, zero, suc, ◌+◌, ◌-◌, ◌*◌, ◌/◌, ◌%◌, ◌^◌, ◌≤◌, ◌<◌, ◌≡◌, refl, sym, ap, ◌∙◌, ◌≢◌, ◌↔◌, ◌⊎◌, inl,
  inr, Bool, true, false, not, ◌&&◌, ◌||◌, Option, none, some, List, [], ◌∷◌, ◌++◌, append-nil,
  append_assoc, arith, ltb, leb, ◌==◌, if◌then◌else◌, ltb→lt, lt→ltb, leb→le, ==_iff, ==_refl,
  Bool-cases, Option-cases, length, get_or, take, drop, replicate, slice, null, any, all, filter,
  find?, All, length-append, take-append_length, drop-append_length, length-take, length-drop,
  length-replicate, drop-append_add, get_or-append_add, slice-append_add, slice_middle, slice_at,
  ◌∈◌, ∈-append_left, ∈-append_right, ∈-append_cases, ∈-filter, filter-∈, any-∈, ∈-any,
  length-filter_split, null-length, find?-found, find?-append, find?-none, any-append, all-append,
  Text, Bytes, IsByte, codes, text_eq, text_eq→eq, text_eq_refl, text_eq_iff, le_bytes, le_value,
  le_value-le_bytes, length-le_bytes, le_bytes-IsByte,
}
use turjmp.Strings.{trim_space, equal_fold}
use turjmp.Strings.Decimal.{decimal}
use turjmp.Domain.{Error, Result, ok, err, User, Asset, Account}
use turjmp.Store.{Store}
use turjmp.Store.Rows.{get_asset, get_asset_account, get_asset_protocol_port}
use turjmp.Store.Permission.{has_asset_permission}
use turjmp.Rdp.Route.{RdpRouteUsername, parse_rdp_route_username}
use turjmp.Rdp.Credentials.{Hashing, verify_credential}

-- `NativeRDPResolveError`; an error of another kind has no reason.
pub record ResolveError : Type 0 where
  pub reason : Text
  pub error : Error

pub data Resolution {ℓ} (T : Type ℓ) : Type ℓ where
  refused : (why : ResolveError) → Resolution T
  granted : (value : T) → Resolution T

abbrev pub if_granted {ℓ κ} :
    {S : Type ℓ} {T : Type κ} (rest : S → Resolution T) (step : Resolution S) → Resolution T
if_granted rest (refused why) = refused why
if_granted rest (granted value) = rest value

infixl 5 ◌>>=◌ ◌>>◌
abbrev pub ◌>>=◌ {ℓ κ} :
    {S : Type ℓ} {T : Type κ} (step : Resolution S) (rest : S → Resolution T) → Resolution T
step >>= rest = if_granted rest step

abbrev pub ◌>>◌ {κ} :
    {T : Type κ} (step : Resolution (Unit {0})) (rest : Resolution T) → Resolution T
step >> rest = if_granted (λ passed. rest) step

-- `nativeRDPResolveDenied`
abbrev pub denied : Text → Error → ResolveError
denied reason error = record { reason = reason; error = error }

abbrev pub plain : Error → ResolveError
plain error = record { reason = []; error = error }

-- Any error is turned into a denial.
abbrev pub or_denied {ℓ} : {T : Type ℓ} → Text → Error → Result T → Resolution T
or_denied reason error (ok value) = granted value
or_denied reason error (err e) = refused (denied reason error)

-- A row that is not found is turned into a denial; another error is passed on.
abbrev pub or_missing {ℓ} : {T : Type ℓ} → Text → Result T → Resolution T
or_missing reason (ok value) = granted value
or_missing reason (err Error.not_found) = refused (denied reason Error.forbidden)
or_missing reason (err e) = refused (plain e)

abbrev pub or_plain {ℓ} : {T : Type ℓ} → Result T → Resolution T
or_plain (ok value) = granted value
or_plain (err e) = refused (plain e)

abbrev pub must : Bool → Text → Resolution (Unit {0})
must pass reason = if pass then granted tt else refused (denied reason Error.forbidden)

pub record ResolveInput : Type 0 where
  pub route_username : Text
  pub password : Text
  pub remote_addr : Text

pub record ResolvedTarget : Type 0 where
  pub address : Text
  pub port : ℕ
  pub protocol : Text

pub record ResolvedAccount : Type 0 where
  pub username : Text
  pub secret : Text
  pub secret_type : Text

pub record ResolveResult : Type 0 where
  pub user_id : ℕ
  pub asset_id : ℕ
  pub account_id : ℕ
  pub target : ResolvedTarget
  pub account : ResolvedAccount

abbrev pub resolve_result : User → Asset → Account → ℕ → Text → ResolveResult
resolve_result user asset account port secret = record {
  user_id = user.id;
  asset_id = asset.id;
  account_id = account.id;
  target = record { address = asset.address; port = port; protocol = codes "rdp" };
  account = record { username = account.username; secret = secret; secret_type = codes "password" };
}

-- `box.DecryptString` is a parameter.
module _ (hashing : Hashing) (decrypt_string : Text → Result Text) where
  unfoldable pub resolve : Store → ℕ → ResolveInput → Resolution ResolveResult
  resolve s now input = do
    route ←
        or_denied (codes "malformed_route_username") Error.unauthorized
          (parse_rdp_route_username input.route_username)
    user ←
        or_denied (codes "front_auth_failed") Error.unauthorized
          (verify_credential hashing s route.username input.password)
    asset ← or_missing (codes "asset_not_found") (get_asset s route.asset_id)
    account ←
        or_missing (codes "account_not_found") (get_asset_account s route.asset_id route.account_id)
    must asset.is_active (codes "asset_inactive")
    must account.is_active (codes "account_inactive")
    must (has_asset_permission s now user.id route.asset_id route.account_id (codes "connect"))
        (codes "missing_connect_permission")
    port ←
        or_missing (codes "rdp_protocol_not_available")
          (get_asset_protocol_port s route.asset_id (codes "rdp"))
    must (equal_fold (trim_space account.secret_type) (codes "password"))
        (codes "target_secret_type_not_password")
    secret ← or_plain (decrypt_string account.secret)
    must (not (null secret)) (codes "target_password_empty")
    granted (resolve_result user asset account port secret)
