-- ===== src/Auth/Mfa.antt =====
-- internal/service/auth.go: SetupMFA and VerifyMFA. GenerateTOTP, which draws a secret, is a parameter.
use turjmp.Prelude.{
  ℕ, ◌≡◌, refl, sym, ap, ◌∙◌, ◌⊎◌, inl, inr, Bool, true, false, not, ◌&&◌, ◌||◌, Option, none, some,
  List, [], ◌∷◌, arith, ◌==◌, if◌then◌else◌, Bool-cases, Option-cases, null, any, find?,
  find?-found, Text, text_eq,
}
use turjmp.Strings.{trim_space}
use turjmp.Domain.{Error, Result, ok, err, ◌>>=◌, User}
use turjmp.Store.{Store}
use turjmp.Store.Rows.{get_user, get_user_by_username}
use turjmp.Domain.Bind.{Result-cases}
use turjmp.Store.Users.{update_user, update_user_row}
use mathlib.Core.List.{map}
use turjmp.Auth.{Credentials, NewRefreshToken, LoginResult, check_password, login}

-- `auth.TOTPSetup`
pub record TotpSetup : Type 0 where
  pub secret : Text
  pub url : Text

unfoldable pub setup_mfa : (Text → Result TotpSetup) → Store → ℕ → Store × Result TotpSetup
setup_mfa generate_totp s user_id = elim (get_user s user_id) [
  | err e ↦ (s, err e)
  | ok user ↦
      if user.mfa_enabled then (s, err Error.conflict) else elim (generate_totp user.username) [
        | err e ↦ (s, err e)
        | ok setup ↦
            let saved = update_user s (record user { mfa_secret = setup.secret }) in
            (saved.0, (saved.1 >>= λ row. ok setup))
      ]
]

-- An empty secret is no secret.
unfoldable pub verify_mfa : Credentials → Store → ℕ → Text → Store × Result User
verify_mfa credentials s user_id code = elim (get_user s user_id) [
  | err e ↦ (s, err e)
  | ok user ↦
      if null (trim_space user.mfa_secret) || not (credentials.validate_totp code user.mfa_secret)
      then (s, err Error.unauthorized)
      else update_user s (record user { mfa_enabled = true })
]

some_injective {ℓ} : {A : Type ℓ} (a b : A) → some a ≡ some b → a ≡ b
some_injective {A = A} a b e = ap (λ (o : Option A). elim o [ some x ↦ x | none ↦ a ]) e

changed_enabled :
    (u r row : User)
    → u.mfa_enabled ≡ true
    → update_user_row u r ≡ row
    → row.id ≡ u.id
    → row.mfa_enabled ≡ true
unfolding update_user_row
changed_enabled u r row t is_row e = elim (Bool-cases (r.id == u.id)) [
  | inl h ↦ ap (λ (x : User). x.mfa_enabled) (sym is_row) ∙ rw h t
  | inr h ↦ absurd (ground (arith, h, ap (λ (x : User). x.id) is_row, e))
]

-- A user row after the update is another one's as it was, or has the second factor on.
updated-enabled :
    (u : User) (rows : List User) (p : User → Bool) (row : User)
    → u.mfa_enabled ≡ true
    → find? p (map (update_user_row u) rows) ≡ some row
    → row.id ≡ u.id
    → row.mfa_enabled ≡ true
unfolding update_user_row
updated-enabled u [] p row t f e = absurd (cc f)
updated-enabled u (r ∷ rows) p row t f e = elim (Bool-cases (p (update_user_row u r))) [
  | inl h ↦
      let is_row : update_user_row u r ≡ row = ground (arith, f, h) in
      changed_enabled u r row t is_row e
  | inr h ↦ updated-enabled u rows p row t (ground (arith, f, h)) e
]

verified_enabled :
    (credentials : Credentials) (s : Store) (id : ℕ) (code username : Text) (saved row : User)
    → (verify_mfa credentials s id code).1 ≡ ok saved
    → get_user_by_username ((verify_mfa credentials s id code).0) username ≡ ok row
    → row.id ≡ id
    → row.mfa_enabled ≡ true
unfolding verify_mfa get_user update_user get_user_by_username
verified_enabled credentials s id code username saved row h g e =
    elim (Option-cases (find? (λ u. u.id == id) s.users)) [
      | inl n ↦ absurd (ground (arith, n, h))
      | inr (user, n) ↦
          let own : user.id ≡ id = ground (arith, find?-found (λ u. u.id == id) s.users user n) in
          let changed = record user { mfa_enabled = true } in
          elim (Bool-cases (
            null (trim_space user.mfa_secret)
            || not (credentials.validate_totp code user.mfa_secret))) [
              | inl t ↦ absurd (ground (arith, n, t, h))
              | inr t ↦
                  elim (Bool-cases (
                    any (λ r. not (r.id == user.id) && text_eq r.username user.username) s.users)) [
                      | inl k ↦ absurd (ground (arith, n, t, k, h))
                      | inr k ↦ elim (Bool-cases (any (λ r. r.id == user.id) s.users)) [
                        | inr m ↦ absurd (ground (arith, n, t, k, m, h))
                        | inl m ↦
                            elim (Option-cases (
                              find? (λ u. text_eq u.username username)
                                (map (update_user_row changed) s.users))) [
                                  | inl z ↦ absurd (ground (arith, n, t, k, m, z, g))
                                  | inr (got, z) ↦
                                      let is_row : got ≡ row = ground (arith, n, t, k, m, z, g) in
                                      ap (λ (x : User). x.mfa_enabled) (sym is_row)
                                      ∙ updated-enabled changed s.users
                                          (λ u. text_eq u.username username) got refl z
                                          (ap (λ (x : User). x.id) is_row ∙ (e ∙ sym own))
                                ]
                      ]
                    ]
            ]
    ]

refused_login :
    (credentials : Credentials) (s : Store) (now : ℕ) (drawn : NewRefreshToken)
    (username password mfa_code : Text) (row : User)
    → get_user_by_username s username ≡ ok row
    → row.mfa_enabled ≡ true
    → credentials.validate_totp mfa_code row.mfa_secret ≡ false
    → (login credentials s now drawn username password mfa_code ≡ (s, ok LoginResult.require_mfa))
      ⊎ (login credentials s now drawn username password mfa_code ≡ (s, err Error.unauthorized))
unfolding login check_password
refused_login credentials s now drawn username password mfa_code row g on bad =
    elim (Result-cases (credentials.verify_password password row.password_hash)) [
      | inl (e, f) ↦ inr (ground (arith, g, f))
      | inr (matches, f) ↦ elim (Bool-cases (row.is_active && matches)) [
        | inr h ↦ inr (ground (arith, g, f, h))
        | inl h ↦ elim (Bool-cases (null (trim_space mfa_code))) [
          | inl k ↦ inl (ground (arith, g, f, h, k, on, bad))
          | inr k ↦ inr (ground (arith, g, f, h, k, on, bad))
        ]
      ]
    ]

-- Once a user has verified the second factor, a login by a name of that user without a valid code gets
-- no tokens and changes nothing, whatever the password: it is refused, or asked for the code.
pub verify_mfa-login :
    (credentials : Credentials) (s : Store) (id : ℕ) (code : Text) (saved row : User) (now : ℕ)
    (drawn : NewRefreshToken) (username password mfa_code : Text)
    → (verify_mfa credentials s id code).1 ≡ ok saved
    → get_user_by_username ((verify_mfa credentials s id code).0) username ≡ ok row
    → row.id ≡ id
    → credentials.validate_totp mfa_code row.mfa_secret ≡ false
    → (login credentials ((verify_mfa credentials s id code).0) now drawn username password mfa_code
        ≡ ((verify_mfa credentials s id code).0, ok LoginResult.require_mfa))
      ⊎ (login credentials
            ((verify_mfa credentials s id code).0)
            now
            drawn
            username
            password
            mfa_code
          ≡ ((verify_mfa credentials s id code).0, err Error.unauthorized))
verify_mfa-login credentials s id code saved row now drawn username password mfa_code h g e bad =
    refused_login credentials _ now drawn username password mfa_code row g
      (verified_enabled credentials s id code username saved row h g e) bad
