-- ===== src/Auth/Login.antt =====
-- Who gets logged in.
use turjmp.Prelude.{
  ℕ, ◌≡◌, refl, ◌∙◌, inl, inr, Bool, true, false, not, ◌&&◌, none, List, [], arith, Bool-cases,
  null, Text,
}
use mathlib.Core.Path.{subst}
use turjmp.Strings.{trim_space}
use turjmp.Domain.{ok, User, RefreshToken}
use turjmp.Store.{Store}
use turjmp.Store.Rows.{get_user_by_username}
use turjmp.Store.Settings.{setting_bool}
use turjmp.Store.Refresh.{create_refresh_token, user_role_names, touch_user_login}
use turjmp.Auth.{
  NewRefreshToken, Credentials, logged_in, issue_tokens_with_roles, issue_tokens,
  issue_setup_tokens, check_password, mfa_required_key, finish_login, login,
}
use turjmp.Domain.Bind.{Result-cases}

module _ (credentials : Credentials) where
  -- What a user has shown who gets tokens.
  pub record HasShown (s : Store) (username password mfa_code : Text) (user : User) (setup : Bool)
      : Type 0 where
    pub row : get_user_by_username s username ≡ ok user
    pub active : user.is_active ≡ true
    pub password_right : credentials.verify_password password user.password_hash ≡ ok true
    pub code_right :
        user.mfa_enabled ≡ true → credentials.validate_totp mfa_code user.mfa_secret ≡ true
    pub setup_only : setup ≡ (not user.mfa_enabled && setting_bool s mfa_required_key false)

  checked_user :
      (s : Store) (username password : Text) (user : User)
      → check_password credentials s username password ≡ ok user
      → (get_user_by_username s username ≡ ok user)
        × ((user.is_active ≡ true)
            × (credentials.verify_password password user.password_hash ≡ ok true))
  unfolding check_password
  checked_user s username password user h = elim (Result-cases (get_user_by_username s username)) [
    | inl (e, f) ↦ absurd (ground (arith, f, h))
    | inr (row, f) ↦ elim (Result-cases (credentials.verify_password password row.password_hash)) [
      | inl (e, g) ↦ absurd (ground (arith, f, g, h))
      | inr (matches, g) ↦ elim (Bool-cases (row.is_active && matches)) [
        | inl k ↦ ground (arith, f, g, h, k)
        | inr k ↦ absurd (ground (arith, f, g, h, k))
      ]
    ]
  ]

  abbrev refresh_row : NewRefreshToken → User → RefreshToken
  refresh_row drawn user = record {
    id = drawn.id;
    user_id = user.id;
    token_hash = drawn.hash;
    expires_at = drawn.expires_at;
    revoked_at = none;
  }

  issued_for :
      (s : Store) (drawn : NewRefreshToken) (user : User) (roles : List Text) (setup : Bool)
      (setup' : Bool) (access raw : Text) (user' : User) (roles' : List Text)
      → (issue_tokens_with_roles credentials s drawn user roles setup).1
        ≡ ok (logged_in setup' access raw user' roles')
      → (user ≡ user') × (setup' ≡ setup)
  unfolding issue_tokens_with_roles
  issued_for s drawn user roles setup setup' access raw user' roles' h =
      elim (Result-cases (credentials.sign_access_token user.id user.username roles)) [
        | inl (e, f) ↦ absurd (ground (arith, f, h))
        | inr ((token, ends), f) ↦
            elim (Result-cases (create_refresh_token s (refresh_row drawn user)).1) [
              | inl (e, g) ↦ absurd (ground (arith, f, g, h))
              | inr (u, g) ↦ ground (arith, f, g, h)
            ]
      ]

  -- The branches of a login after the password.
  login_branches :
      (s : Store) (now : ℕ) (drawn : NewRefreshToken) (username password mfa_code : Text)
      (row : User) (setup : Bool) (access raw : Text) (user : User) (roles : List Text)
      → check_password credentials s username password ≡ ok row
      → (login credentials s now drawn username password mfa_code).1
        ≡ ok (logged_in setup access raw user roles)
      → (row ≡ user)
        × ((row.mfa_enabled ≡ true → credentials.validate_totp mfa_code row.mfa_secret ≡ true)
            × (setup ≡ (not row.mfa_enabled && setting_bool s mfa_required_key false)))
  unfolding login issue_tokens issue_setup_tokens finish_login
  login_branches s now drawn username password mfa_code row setup access raw user roles f h =
      let touched = touch_user_login s now row.id in
      let full =
        issued_for touched drawn row (user_role_names touched row.id) false setup access raw user
          roles in
      let partial = issued_for s drawn row [] true setup access raw user roles in
      elim (Bool-cases row.mfa_enabled) [
        | inl m ↦ elim (Bool-cases (null (trim_space mfa_code))) [
          | inl b ↦ absurd (ground (arith, f, h, m, b))
          | inr b ↦ elim (Bool-cases (credentials.validate_totp mfa_code row.mfa_secret)) [
            | inl c ↦
                let (same, e) = full (ground (arith, f, h, m, b, c)) in
                (same, ((λ _. c), e ∙ rw m refl))
            | inr c ↦ absurd (ground (arith, f, h, m, b, c))
          ]
        ]
        | inr m ↦ elim (Bool-cases (setting_bool s mfa_required_key false)) [
          | inl b ↦
              let (same, e) = partial (ground (arith, f, h, m, b)) in
              (same, ((λ k. absurd (cc (k, m))), e ∙ rw (m, b) refl))
          | inr b ↦
              let (same, e) = full (ground (arith, f, h, m, b)) in
              (same, ((λ k. absurd (cc (k, m))), e ∙ rw (m, b) refl))
        ]
      ]

  -- Tokens, with or without the demand to set up a second factor, go only to an active user whose
  -- password is right, and whose one-time code is right if the second factor is on; the demand is made
  -- exactly if the policy asks for a second factor that the user has not got.
  pub login_sound :
      (s : Store) (now : ℕ) (drawn : NewRefreshToken) (username password mfa_code : Text)
      (setup : Bool) (access raw : Text) (user : User) (roles : List Text)
      → (login credentials s now drawn username password mfa_code).1
        ≡ ok (logged_in setup access raw user roles)
      → HasShown s username password mfa_code user setup
  unfolding login
  login_sound s now drawn username password mfa_code setup access raw user roles h =
      elim (Result-cases (check_password credentials s username password)) [
        | inl (e, f) ↦ absurd (ground (arith, f, h))
        | inr (checked, f) ↦
            let (same, (code, only)) =
              login_branches s now drawn username password mfa_code checked setup access raw user
                roles f h in
            let (found, (active, matches)) = checked_user s username password checked f in
            subst (λ u. HasShown s username password mfa_code u setup) same
              (record {
                row = found;
                active = active;
                password_right = matches;
                code_right = code;
                setup_only = only;
              })
      ]
