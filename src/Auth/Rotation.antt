-- ===== src/Auth/Rotation.antt =====
-- Refresh tokens are good for one refresh.
use turjmp.Prelude.{
  ℕ, ◌≡◌, inl, inr, Bool, true, false, List, [], arith, Bool-cases, Option-cases, Text,
}
use turjmp.Domain.{Error, ok, err, User}
use turjmp.Store.{Store}
use turjmp.Store.Rows.{get_user}
use turjmp.Store.Refresh.{is_live, get_refresh_token_by_hash, revoke_refresh_token, user_role_names}
use turjmp.Store.Refresh.Rotation.{
  IsUniqueHash, IsRevoked, RefreshStep, RefreshSteps, RefreshStep-IsRevoked, RefreshSteps-IsRevoked,
  revoke-IsRevoked, IsRevoked-get,
}
use turjmp.Auth.{
  NewRefreshToken, Credentials, LoginResult, is_refused, issue_tokens_with_roles, issue_tokens,
  issue_setup_tokens, reissue, refresh,
}
use turjmp.Domain.Bind.{Result-cases}

module _ (credentials : Credentials) where
  revoked_refused :
      (s : Store) (now : ℕ) (drawn : NewRefreshToken) (raw : Text)
      → IsRevoked (credentials.hash_refresh_token raw) s.refresh_tokens
      → refresh credentials s now drawn raw ≡ (s, err Error.unauthorized)
  unfolding refresh is_refused
  revoked_refused s now drawn raw r =
      elim (Result-cases (get_refresh_token_by_hash s (credentials.hash_refresh_token raw))) [
        | inl (e, f) ↦ ground (arith, f)
        | inr (stored, f) ↦
            let dead = IsRevoked-get s (credentials.hash_refresh_token raw) stored r f in
            elim (Option-cases stored.revoked_at) [
              | inl g ↦ absurd (unfold is_live in ground (arith, dead, g))
              | inr (at, g) ↦ ground (arith, f, g)
            ]
      ]

  issue-IsRevoked :
      (h : Text) (s : Store) (drawn : NewRefreshToken) (user : User) (roles : List Text)
      (setup : Bool)
      → IsRevoked h s.refresh_tokens
      → IsRevoked h
          ((issue_tokens_with_roles credentials s drawn user roles setup).0).refresh_tokens
  unfolding issue_tokens_with_roles
  issue-IsRevoked h s drawn user roles setup r =
      elim (Result-cases (credentials.sign_access_token user.id user.username roles)) [
        | inl (e, f) ↦ ground (arith, f, r)
        | inr ((access, ends), f) ↦
            rw (f, issue_tokens_with_roles) (RefreshStep-IsRevoked s _ h (RefreshStep.create s _) r)
      ]

  reissue-IsRevoked :
      (h : Text) (s : Store) (drawn : NewRefreshToken) (user_id : ℕ)
      → IsRevoked h s.refresh_tokens
      → IsRevoked h ((reissue credentials s drawn user_id).0).refresh_tokens
  unfolding reissue issue_tokens issue_setup_tokens
  reissue-IsRevoked h s drawn user_id r = elim (Result-cases (get_user s user_id)) [
    | inl (e, f) ↦ ground (arith, f, r)
    | inr (user, f) ↦
        let setup = issue-IsRevoked h s drawn user [] true r in
        let full = issue-IsRevoked h s drawn user (user_role_names s user.id) false r in
        ground (arith, f, r, setup, full)
  ]

  refresh-IsRevoked :
      (s : Store) (now : ℕ) (drawn : NewRefreshToken) (raw : Text) (result : LoginResult)
      → IsUniqueHash s.refresh_tokens
      → (refresh credentials s now drawn raw).1 ≡ ok result
      → IsRevoked
          (credentials.hash_refresh_token raw)
          ((refresh credentials s now drawn raw).0).refresh_tokens
  unfolding refresh
  refresh-IsRevoked s now drawn raw result u h =
      let hash = credentials.hash_refresh_token raw in
      elim (Result-cases (get_refresh_token_by_hash s hash)) [
        | inl (e, f) ↦ absurd (ground (arith, f, h))
        | inr (stored, f) ↦
            let revoked = revoke-IsRevoked s now hash stored u f in
            let after =
              reissue-IsRevoked hash ((revoke_refresh_token s now stored.id).0) drawn stored.user_id
                revoked in
            elim (Bool-cases (is_refused now stored)) [
              | inl g ↦ absurd (ground (arith, f, g, h))
              | inr g ↦ elim (Result-cases (revoke_refresh_token s now stored.id).1) [
                | inl (e, k) ↦ absurd (ground (arith, f, g, k, h))
                | inr (t, k) ↦ ground (arith, f, g, k, after)
              ]
            ]
      ]

  -- A refresh token that has been exchanged is refused from then on and changes nothing, whatever
  -- tokens have been issued or revoked in between, as long as the hashes in the table are distinct.
  pub refresh_once :
      (s t : Store) (now now' : ℕ) (drawn drawn' : NewRefreshToken) (raw : Text)
      (result : LoginResult)
      → IsUniqueHash s.refresh_tokens
      → (refresh credentials s now drawn raw).1 ≡ ok result
      → RefreshSteps ((refresh credentials s now drawn raw).0) t
      → refresh credentials t now' drawn' raw ≡ (t, err Error.unauthorized)
  refresh_once s t now now' drawn drawn' raw result u h steps = revoked_refused t now' drawn' raw (
      RefreshSteps-IsRevoked _ t (credentials.hash_refresh_token raw) steps
        (refresh-IsRevoked s now drawn raw result u h))
