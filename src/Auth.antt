-- ===== src/Auth.antt =====
-- internal/service/auth.go.
pub mod Rotation
pub mod Login
pub mod Mfa
use turjmp.Prelude.{
  ℕ, zero, suc, ◌+◌, ◌-◌, ◌*◌, ◌/◌, ◌%◌, ◌^◌, ◌≤◌, ◌<◌, ◌≡◌, refl, sym, ap, ◌∙◌, ◌≢◌, ◌↔◌, ◌⊎◌, inl,
  inr, Bool, true, false, not, ◌&&◌, ◌||◌, Option, none, some, List, [], ◌∷◌, ◌++◌, append-nil,
  append_assoc, arith, ltb, leb, ◌==◌, if◌then◌else◌, ltb→lt, lt→ltb, leb→le, ==_iff, ==_refl,
  Bool-cases, Option-cases, length, get_or, take, drop, replicate, slice, null, any, all, filter,
  find?, All, length-append, take-append_length, drop-append_length, length-take, length-drop,
  length-replicate, drop-append_add, get_or-append_add, slice-append_add, slice_middle, slice_at,
  ◌∈◌, ∈-append_left, ∈-append_right, ∈-append_cases, ∈-filter, filter-∈, any-∈, ∈-any,
  length-filter_split, null-length, find?-found, find?-append, find?-none, any-append, all-append,
  Text, Bytes, IsByte, codes, text_eq, text_eq→eq, text_eq_refl, text_eq_iff, le_bytes, le_value,
  le_value-le_bytes, length-le_bytes, le_bytes-IsByte,
}
use turjmp.Strings.{trim_space}
use turjmp.Domain.{Error, Result, ok, err, ◌>>=◌, ◌>>◌, guard, User, RefreshToken}
use turjmp.Store.{Store}
use turjmp.Store.Rows.{get_user, get_user_by_username}
use turjmp.Store.Settings.{setting_bool}
use turjmp.Store.Refresh.{
  user_role_names, touch_user_login, create_refresh_token, get_refresh_token_by_hash,
  revoke_refresh_token, revoke_user_refresh_tokens,
}

-- What one call of `NewRefreshToken` draws: the row's id, the raw token, its hash, and its end.
pub record NewRefreshToken : Type 0 where
  pub id : Text
  pub raw : Text
  pub hash : Text
  pub expires_at : ℕ

-- The parts of package auth that the service calls.
pub record Credentials : Type 0 where
  pub verify_password : Text → Text → Result Bool
  pub validate_totp : Text → Text → Bool
  pub hash_refresh_token : Text → Text
  -- The text of the signed access token, and its end.
  pub sign_access_token : ℕ → Text → List Text → Result (Text × ℕ)

pub data LoginResult : Type 0 where
  -- The password is right and a code is wanted.
  require_mfa : LoginResult
  logged_in : (require_mfa_setup : Bool) → (access refresh : Text) → User → List Text → LoginResult

unfoldable pub is_refused : ℕ → RefreshToken → Bool
is_refused now t = (elim t.revoked_at [ none ↦ false | some at ↦ true ]) || ltb t.expires_at now

abbrev pub mfa_required_key : Text
mfa_required_key = codes "security.mfa_required"

module _ (credentials : Credentials) where
  unfoldable pub issue_tokens_with_roles :
      Store → NewRefreshToken → User → List Text → Bool → Store × Result LoginResult
  issue_tokens_with_roles s drawn user roles require_mfa_setup =
      elim (credentials.sign_access_token user.id user.username roles) [
        | err e ↦ (s, err e)
        | ok (access, access_expires) ↦
            let row : RefreshToken = record {
              id = drawn.id;
              user_id = user.id;
              token_hash = drawn.hash;
              expires_at = drawn.expires_at;
              revoked_at = none;
            } in
            (
              (create_refresh_token s row).0,
              ((create_refresh_token s row).1
                  >> ok (LoginResult.logged_in require_mfa_setup access drawn.raw user roles)),
            )
      ]

  unfoldable pub issue_tokens : Store → NewRefreshToken → User → Store × Result LoginResult
  unfolding issue_tokens_with_roles
  issue_tokens s drawn user = issue_tokens_with_roles s drawn user (user_role_names s user.id) false

  unfoldable pub issue_setup_tokens : Store → NewRefreshToken → User → Store × Result LoginResult
  unfolding issue_tokens_with_roles
  issue_setup_tokens s drawn user = issue_tokens_with_roles s drawn user [] true

  -- Who may log in, by name and password; every failure looks the same.
  unfoldable pub check_password : Store → Text → Text → Result User
  check_password s username password = elim (get_user_by_username s username) [
    | err e ↦ err Error.unauthorized
    | ok user ↦ elim (credentials.verify_password password user.password_hash) [
      | err e ↦ err Error.unauthorized
      | ok matches ↦ if user.is_active && matches then ok user else err Error.unauthorized
    ]
  ]

  unfoldable pub finish_login : Store → ℕ → NewRefreshToken → User → Store × Result LoginResult
  finish_login s now drawn user = issue_tokens (touch_user_login s now user.id) drawn user

  unfoldable pub login :
      Store → ℕ → NewRefreshToken → Text → Text → Text → Store × Result LoginResult
  login s now drawn username password mfa_code = elim (check_password s username password) [
    | err e ↦ (s, err e)
    | ok user ↦
        if not user.mfa_enabled && setting_bool s mfa_required_key false
        then issue_setup_tokens s drawn user
        else if not user.mfa_enabled
        then finish_login s now drawn user
        else if null (trim_space mfa_code)
        then (s, ok LoginResult.require_mfa)
        else if credentials.validate_totp mfa_code user.mfa_secret
        then finish_login s now drawn user
        else (s, err Error.unauthorized)
  ]

  -- Refresh after the old token has been revoked.
  unfoldable pub reissue : Store → NewRefreshToken → ℕ → Store × Result LoginResult
  reissue s drawn user_id = elim (get_user s user_id) [
    | err e ↦ (s, err e)
    | ok user ↦
        if not user.is_active
        then (s, err Error.unauthorized)
        else if setting_bool s mfa_required_key false && not user.mfa_enabled
        then issue_setup_tokens s drawn user
        else issue_tokens s drawn user
  ]

  unfoldable pub refresh : Store → ℕ → NewRefreshToken → Text → Store × Result LoginResult
  refresh s now drawn refresh_token =
      elim (get_refresh_token_by_hash s (credentials.hash_refresh_token refresh_token)) [
        | err e ↦ (s, err Error.unauthorized)
        | ok stored ↦
            if is_refused now stored
            then (s, err Error.unauthorized)
            else elim ((revoke_refresh_token s now stored.id).1) [
              | err e ↦ ((revoke_refresh_token s now stored.id).0, err e)
              | ok u ↦ reissue ((revoke_refresh_token s now stored.id).0) drawn stored.user_id
            ]
      ]

unfoldable pub logout : Store → ℕ → ℕ → Store
logout s now user_id = revoke_user_refresh_tokens s now user_id
