-- ===== src/Rdp/Credentials/Change.antt =====
-- What a change of the RDP password means for the next login with it.
use turjmp.Prelude.{
  ℕ, ◌≤◌, ◌≡◌, refl, ap, ◌≢◌, inl, inr, true, false, not, ◌||◌, some, List, [], ◌∷◌, arith, ◌==◌,
  ==_refl, Bool-cases, null, find?, All, Text,
}
use turjmp.Strings.{trim_space}
use turjmp.Postgres.{ℤ}
use turjmp.Domain.{Error, ok, found, User, RdpProxyCredential}
use turjmp.Domain.Bind.{bind_ok, guard_ok}
use turjmp.Store.{Store}
use turjmp.Store.Rows.{get_user, get_user_by_username, get_rdp_proxy_credential}
use turjmp.Domain.Bind.{Result-cases}
use turjmp.Rdp.Credentials.{
  Hashing, RdpProxyCredentialStatus, enabled_credential, upsert_credential_row,
  upsert_rdp_proxy_credential, disable, new_hash, set, unauthorized, verify_credential,
}
use turjmp.Strings.{byte_length}
use turjmp.Store.Settings.{effective_password_min_length, is_shorter}

find-upsert :
    (x : RdpProxyCredential) (rows : List RdpProxyCredential)
    → find? (λ r. r.user_id == x.user_id) (upsert_credential_row x rows) ≡ some x
unfolding upsert_credential_row
find-upsert x [] = ground (arith, ==_refl x.user_id)
find-upsert x (r ∷ rows) = elim (Bool-cases (r.user_id == x.user_id)) [
  | inl e ↦ ground (arith, e, ==_refl x.user_id)
  | inr e ↦ ground (arith, e, find-upsert x rows)
]

module _ (hashing : Hashing) where
  -- The one way in which a credential is accepted.
  pub verify_credential_ok :
      (s : Store) (username password : Text) (user : User) (credential : RdpProxyCredential)
      → null (trim_space username) ≡ false
      → null password ≡ false
      → get_user_by_username s (trim_space username) ≡ ok user
      → user.is_active ≡ true
      → get_rdp_proxy_credential s user.id ≡ ok credential
      → credential.is_enabled ≡ true
      → hashing.verify_password password credential.password_hash ≡ ok true
      → verify_credential hashing s username password ≡ ok user
  unfolding verify_credential unauthorized
  verify_credential_ok s username password user credential n p u a c e v =
      rw (n, p, u, a, c, e, v) refl

  after_set :
      (s : Store) (password_min_length : ℤ) (now id : ℕ) (password hash : Text)
      → new_hash hashing s password_min_length id password ≡ ok hash
      → (set hashing s password_min_length now id password).0 ≡ record s {
        credentials = upsert_credential_row (enabled_credential now id hash) s.credentials;
      }
  unfolding set upsert_rdp_proxy_credential
  after_set s min now id password hash f = ground (arith, f)

  long_enough :
      (password : Text) (min : ℤ) (n : ℕ)
      → is_shorter password min ≡ false
      → min ≡ ℤ.pos n
      → n ≤ byte_length password
  unfolding is_shorter
  long_enough password (ℤ.pos m) n h e = ground (arith, h, e)
  long_enough password (ℤ.negsuc m) n h e = absurd (cc e)

  -- A new password that is set has at least as many bytes as the policy asks, and is accepted at once,
  -- if the account is active, whatever was stored before, a disabled credential included:
  -- `VerifyPassword` has to accept what `HashPassword` made of the password, and neither the password
  -- nor the trimmed user name may be empty.
  pub verify-set :
      (s : Store) (password_min_length : ℤ) (now : ℕ) (user : User) (username password : Text)
      (status : RdpProxyCredentialStatus)
      → ((hash : Text)
          → hashing.hash_password password ≡ ok hash
          → hashing.verify_password password hash ≡ ok true)
      → (set hashing s password_min_length now user.id password).1 ≡ ok status
      → null (trim_space username) ≡ false
      → null password ≡ false
      → get_user_by_username s (trim_space username) ≡ ok user
      → user.is_active ≡ true
      → ((n : ℕ)
          → effective_password_min_length s password_min_length ≡ ℤ.pos n
          → n ≤ byte_length password)
        × (verify_credential hashing
              ((set hashing s password_min_length now user.id password).0)
              username
              password
            ≡ ok user)
  unfolding set upsert_rdp_proxy_credential
  verify-set s min now user username password status law done n p u a =
      elim (Result-cases (new_hash hashing s min user.id password)) [
        | inl (e, f) ↦ absurd (ground (arith, f, done))
        | inr (hash, f) ↦
            let (passed, after_guard) =
              guard_ok
                (not (user.id == 0 || is_shorter password (effective_password_min_length s min)))
                Error.invalid_argument _ hash (unfold new_hash in f) in
            let (_, (_, hashed)) =
              bind_ok (get_user s user.id) (λ _. hashing.hash_password password) hash after_guard in
            let row = enabled_credential now user.id hash in
            let after = record s { credentials = upsert_credential_row row s.credentials } in
            let stored : get_rdp_proxy_credential after user.id ≡ ok row =
              unfold get_rdp_proxy_credential in ap found (find-upsert row s.credentials) in
            let not_shorter : is_shorter password (effective_password_min_length s min) ≡ false =
              ground (arith, passed) in
            (
              λ m e. long_enough password (effective_password_min_length s min) m not_shorter e,
              rw (after_set s min now user.id password hash f) (
                  verify_credential_ok after username password user row n p
                    (unfold get_user_by_username in u) a stored refl (law hash hashed)),
            )
      ]

  -- What may change the tables after a credential is disabled: another disabling, a new password of
  -- another user, and anything that leaves the table of credentials alone.
  pub data Unset (id : ℕ) : Store → Store → Type 0 where
    stay : (s : Store) → Unset id s s
    disable_step :
        (s t : Store) (now other : ℕ) → Unset id ((disable s now other).0) t → Unset id s t
    set_step :
        (s t : Store) (password_min_length : ℤ) (now other : ℕ) (password : Text)
        → other ≢ id
        → Unset id ((set hashing s password_min_length now other password).0) t
        → Unset id s t
    elsewhere : (s t u : Store) → t.credentials ≡ s.credentials → Unset id t u → Unset id s u

  abbrev IsOff : ℕ → List RdpProxyCredential → Type 0
  IsOff id = All (λ (r : RdpProxyCredential). r.user_id ≡ id → r.is_enabled ≡ false)
