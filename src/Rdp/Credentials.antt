-- ===== src/Rdp/Credentials.antt =====
-- internal/service/rdp_proxy_credentials.go, and the table rdp_proxy_credentials of store.go: the
-- password of its own that a user has for native RDP.
pub mod Change
use turjmp.Prelude.{
  ℕ, zero, suc, ◌+◌, ◌-◌, ◌*◌, ◌/◌, ◌%◌, ◌^◌, ◌≤◌, ◌<◌, ◌≡◌, refl, sym, ap, ◌∙◌, ◌≢◌, ◌↔◌, ◌⊎◌, inl,
  inr, Bool, true, false, not, ◌&&◌, ◌||◌, Option, none, some, List, [], ◌∷◌, ◌++◌, append-nil,
  append_assoc, arith, ltb, leb, ◌==◌, if◌then◌else◌, ltb→lt, lt→ltb, leb→le, ==_iff, ==_refl,
  Bool-cases, Option-cases, length, get_or, take, drop, replicate, slice, null, any, all, filter,
  find?, All, length-append, take-append_length, drop-append_length, length-take, length-drop,
  length-replicate, drop-append_add, get_or-append_add, slice-append_add, slice_middle, slice_at,
  ◌∈◌, ∈-append_left, ∈-append_right, ∈-append_cases, ∈-filter, filter-∈, any-∈, ∈-any,
  length-filter_split, null-length, find?-found, find?-append, find?-none, any-append, all-append,
  Text, Bytes, IsByte, codes, text_eq, text_eq→eq, text_eq_refl, text_eq_iff, le_bytes, le_value,
  le_value-le_bytes, length-le_bytes, le_bytes-IsByte,
}
use turjmp.Strings.{trim_space}
use turjmp.Postgres.{ℤ}
use turjmp.Domain.{Error, Result, ok, err, ◌>>=◌, ◌>>◌, guard, found, User, RdpProxyCredential}
use turjmp.Store.{Store}
use turjmp.Store.Rows.{get_user, get_user_by_username, get_rdp_proxy_credential}
use turjmp.Store.Settings.{effective_password_min_length, is_shorter}
use mathlib.Core.List.{map}

-- INSERT … ON CONFLICT (user_id) DO UPDATE: one row for each user.
unfoldable pub upsert_credential_row :
    RdpProxyCredential → List RdpProxyCredential → List RdpProxyCredential
upsert_credential_row x [] = x ∷ []
upsert_credential_row x (row ∷ rows) =
    let rest = upsert_credential_row x rows in
    if row.user_id == x.user_id then x ∷ rows else row ∷ rest

abbrev pub enabled_credential : ℕ → ℕ → Text → RdpProxyCredential
enabled_credential now user_id password_hash = record {
  user_id = user_id;
  password_hash = password_hash;
  is_enabled = true;
  updated_at = now;
  disabled_at = none;
}

unfoldable pub upsert_rdp_proxy_credential : Store → ℕ → ℕ → Text → Store × RdpProxyCredential
unfolding upsert_credential_row
upsert_rdp_proxy_credential s now user_id password_hash =
    let row = enabled_credential now user_id password_hash in
    (record s { credentials = upsert_credential_row row s.credentials }, row)

unfoldable pub disable_row : ℕ → ℕ → RdpProxyCredential → RdpProxyCredential
disable_row now user_id row =
    if row.user_id == user_id
    then record row { is_enabled = false; disabled_at = some now; updated_at = now }
    else row

unfoldable pub disable_rdp_proxy_credential : Store → ℕ → ℕ → Store × Result RdpProxyCredential
unfolding disable_row get_rdp_proxy_credential
disable_rdp_proxy_credential s now user_id =
    let after = record s { credentials = map (disable_row now user_id) s.credentials } in
    (after, get_rdp_proxy_credential after user_id)

pub record RdpProxyCredentialStatus : Type 0 where
  pub user_id : ℕ
  pub configured : Bool
  pub enabled : Bool
  pub updated_at : Option ℕ
  pub disabled_at : Option ℕ

abbrev pub credential_status : RdpProxyCredential → RdpProxyCredentialStatus
credential_status credential = record {
  user_id = credential.user_id;
  configured = true;
  enabled = credential.is_enabled;
  updated_at = some credential.updated_at;
  disabled_at = credential.disabled_at;
}

abbrev pub not_configured : ℕ → RdpProxyCredentialStatus
not_configured user_id = record {
  user_id = user_id;
  configured = false;
  enabled = false;
  updated_at = none;
  disabled_at = none;
}

-- An id of 0 stands for one that is not positive.
unfoldable pub status : Store → ℕ → Result RdpProxyCredentialStatus
status s user_id = do
  guard (not (user_id == 0)) Error.invalid_argument
  user ← get_user s user_id
  elim (get_rdp_proxy_credential s user_id) [
    | ok credential ↦ ok (credential_status credential)
    | err Error.not_found ↦ ok (not_configured user_id)
    | err e ↦ err e
  ]

unfoldable pub disable : Store → ℕ → ℕ → Store × Result RdpProxyCredentialStatus
disable s now user_id =
    let result = disable_rdp_proxy_credential s now user_id in
    if user_id == 0
    then (s, err Error.invalid_argument)
    else (result.0, (result.1 >>= λ credential. ok (credential_status credential)))

-- `auth.HashPassword` and `auth.VerifyPassword`.
pub record Hashing : Type 0 where
  pub hash_password : Text → Result Text
  pub verify_password : Text → Text → Result Bool

module _ (hashing : Hashing) where
  unfoldable pub new_hash : Store → ℤ → ℕ → Text → Result Text
  new_hash s password_min_length user_id password = do
    guard
        (not (
          user_id == 0
          || is_shorter password (effective_password_min_length s password_min_length)))
        Error.invalid_argument
    user ← get_user s user_id
    hashing.hash_password password

  unfoldable pub set : Store → ℤ → ℕ → ℕ → Text → Store × Result RdpProxyCredentialStatus
  unfolding new_hash
  set s password_min_length now user_id password =
      elim (new_hash s password_min_length user_id password) [
        | err e ↦ (s, err e)
        | ok password_hash ↦
            let (after, credential) = upsert_rdp_proxy_credential s now user_id password_hash in
            (after, ok (credential_status credential))
      ]

  unfoldable pub reset : Store → ℤ → ℕ → ℕ → Text → Store × Result RdpProxyCredentialStatus
  unfolding set
  reset s password_min_length now user_id password = set s password_min_length now user_id password

  -- Every failure looks the same.
  unfoldable pub unauthorized {ℓ} : {A : Type ℓ} → Result A → Result A
  unauthorized (ok a) = ok a
  unauthorized (err e) = err Error.unauthorized

  unfoldable pub verify_credential : Store → Text → Text → Result User
  unfolding unauthorized
  verify_credential s username password = do
    guard (not (null (trim_space username) || null password)) Error.unauthorized
    user ← unauthorized (get_user_by_username s (trim_space username))
    guard user.is_active Error.unauthorized
    credential ← unauthorized (get_rdp_proxy_credential s user.id)
    guard credential.is_enabled Error.unauthorized
    matches ← unauthorized (hashing.verify_password password credential.password_hash)
    guard matches Error.unauthorized
    ok user
