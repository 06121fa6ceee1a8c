-- ===== src/Users/Disabled.antt =====
-- A user who is switched off cannot refresh a login.
use turjmp.Prelude.{
  ℕ, ◌≡◌, refl, sym, ap, ◌∙◌, inl, inr, Bool, true, false, not, Option, none, some, List, [], ◌∷◌,
  arith, ◌==◌, Bool-cases, Option-cases, any, filter, find?, All, Text, text_eq,
}
use turjmp.Postgres.{ℤ}
use turjmp.Domain.{Error, Result, ok, err, User, RefreshToken}
use turjmp.Domain.Bind.{Result-cases}
use turjmp.Store.{Store}
use turjmp.Store.Rows.{get_user}
use turjmp.Store.Users.{update_user, set_user_roles, insert_links}
use turjmp.Store.Refresh.{
  is_live, revoke_row, revoke_user_refresh_tokens, get_refresh_token_by_hash,
}
use turjmp.Auth.{Credentials, NewRefreshToken, is_refused, refresh}
use turjmp.Users.{
  UpdateUserInput, bind_roles, with_roles, next_hash, changed_user, revoke_if_off, save_user,
  update,
}
use mathlib.Core.List.{map}

-- No live refresh token of the user.
abbrev pub AllRevoked : ℕ → List RefreshToken → Type 0
AllRevoked id = All (λ (r : RefreshToken). r.user_id ≡ id → is_live r ≡ false)

revoke-AllRevoked :
    (now id : ℕ) (rows : List RefreshToken)
    → AllRevoked id (map (revoke_row now (λ r. r.user_id == id)) rows)
unfolding revoke_row is_live
revoke-AllRevoked now id [] = tt
revoke-AllRevoked now id (r ∷ rows) = (
  λ e. elim (Option-cases r.revoked_at) [
    | inl f ↦ ground (arith, e, f)
    | inr (t, f) ↦ ground (arith, e, f)
  ],
  revoke-AllRevoked now id rows,
)

find-AllRevoked :
    (id : ℕ) (p : RefreshToken → Bool) (rows : List RefreshToken) (row : RefreshToken)
    → AllRevoked id rows
    → find? p rows ≡ some row
    → row.user_id ≡ id
    → is_live row ≡ false
find-AllRevoked id p [] row h f e = absurd (cc f)
find-AllRevoked id p (r ∷ rows) row (h, hs) f e = elim (Bool-cases (p r)) [
  | inl t ↦ ground (arith, f, e, t, h)
  | inr t ↦ find-AllRevoked id p rows row hs (ground (arith, f, t)) e
]

set_user_roles-tokens :
    (s : Store) (id : ℕ) (role_ids : Option (List ℕ))
    → (bind_roles s id role_ids).0.refresh_tokens ≡ s.refresh_tokens
unfolding bind_roles set_user_roles
set_user_roles-tokens s id none = refl
set_user_roles-tokens s id (some role_ids) =
    elim (Option-cases (
      insert_links (λ i. any (λ r. r.id == i) s.roles) id role_ids
        (filter (λ l. not (l.owner == id)) s.user_roles))) [
          | inl e ↦ ground (arith, e)
          | inr (links, e) ↦ ground (arith, e)
        ]

with_roles-user :
    (s : Store) (user saved : User) (role_ids : Option (List ℕ))
    → (with_roles s user role_ids).1 ≡ ok saved
    → user ≡ saved
unfolding with_roles
with_roles-user s user saved role_ids h = elim (Result-cases (bind_roles s user.id role_ids).1) [
  | inl (e, f) ↦ absurd (ground (arith, f, h))
  | inr (u, f) ↦ ground (arith, f, h)
]

with_roles-tokens :
    (s : Store) (user : User) (role_ids : Option (List ℕ))
    → (with_roles s user role_ids).0.refresh_tokens ≡ s.refresh_tokens
unfolding with_roles
with_roles-tokens s user role_ids = set_user_roles-tokens s user.id role_ids

refused_dead : (now : ℕ) (row : RefreshToken) → is_live row ≡ false → is_refused now row ≡ true
unfolding is_live is_refused
refused_dead now row h = elim (Option-cases row.revoked_at) [
  | inl f ↦ absurd (ground (arith, f, h))
  | inr (t, f) ↦ ground (arith, f)
]

refresh_refused :
    (credentials : Credentials) (s : Store) (now : ℕ) (drawn : NewRefreshToken) (raw : Text)
    (row : RefreshToken)
    → get_refresh_token_by_hash s (credentials.hash_refresh_token raw) ≡ ok row
    → is_refused now row ≡ true
    → refresh credentials s now drawn raw ≡ (s, err Error.unauthorized)
unfolding refresh
refresh_refused credentials s now drawn raw row stored dead = ground (arith, stored, dead)

stored_dead :
    (s : Store) (id : ℕ) (hash : Text) (row : RefreshToken)
    → AllRevoked id s.refresh_tokens
    → get_refresh_token_by_hash s hash ≡ ok row
    → row.user_id ≡ id
    → is_live row ≡ false
unfolding get_refresh_token_by_hash
stored_dead s id hash row h stored own =
    elim (Option-cases (find? (λ r. text_eq r.token_hash hash) s.refresh_tokens)) [
      | inl f ↦ absurd (ground (arith, f, stored))
      | inr (r, f) ↦ ground (
        arith,
        f,
        stored,
        own,
        find-AllRevoked id (λ r. text_eq r.token_hash hash) s.refresh_tokens r h f,
      )
    ]

module _ (hash_password : Text → Result Text) (password_min_length : ℤ) where
  save_user-AllRevoked :
      (s : Store) (now : ℕ) (changed : User) (input : UpdateUserInput) (saved : User)
      → input.is_active ≡ some false
      → (save_user hash_password password_min_length s now changed input).1 ≡ ok saved
      → AllRevoked saved.id
          ((save_user hash_password password_min_length s now changed input).0.refresh_tokens)
  unfolding save_user with_roles revoke_if_off
  save_user-AllRevoked s now changed input saved off h =
      elim (Result-cases (update_user s changed).1) [
        | inl (e, f) ↦ absurd (ground (arith, f, h))
        | inr (user, f) ↦
            let base = revoke_user_refresh_tokens (update_user s changed).0 now user.id in
            let equal : save_user hash_password password_min_length s now changed input
                ≡ with_roles base user input.role_ids =
              ground (arith, f, off) in
            let same =
              with_roles-user base user saved input.role_ids
                (ap (λ (q : Store × Result User). q.1) (sym equal) ∙ h) in
            rw (equal, with_roles-tokens base user input.role_ids, sym same)
              (unfold revoke_user_refresh_tokens in
                revoke-AllRevoked now user.id (update_user s changed).0.refresh_tokens)
      ]

  update-AllRevoked :
      (s : Store) (now id : ℕ) (input : UpdateUserInput) (saved : User)
      → input.is_active ≡ some false
      → (update hash_password password_min_length s now id input).1 ≡ ok saved
      → AllRevoked saved.id
          ((update hash_password password_min_length s now id input).0.refresh_tokens)
  unfolding update
  update-AllRevoked s now id input saved off h = elim (Result-cases (get_user s id)) [
    | inl (e, f) ↦ absurd (ground (arith, f, h))
    | inr (user, f) ↦
        elim (Result-cases (next_hash hash_password password_min_length s user input.password)) [
          | inl (e, g) ↦ absurd (ground (arith, f, g, h))
          | inr (hash, g) ↦
              rw (f, g, update)
                (save_user-AllRevoked s now
                  (changed_user hash_password password_min_length input hash user) input saved off
                  (ground (arith, f, g, h)))
        ]
  ]

  -- Once an administrator has switched a user off, no refresh token that was stored for that user is
  -- accepted again, as long as the store is as that change left it.
  pub update-refresh :
      (credentials : Credentials) (s : Store) (now id : ℕ) (input : UpdateUserInput) (saved : User)
      (later : ℕ) (drawn : NewRefreshToken) (raw : Text) (row : RefreshToken)
      → input.is_active ≡ some false
      → (update hash_password password_min_length s now id input).1 ≡ ok saved
      → get_refresh_token_by_hash
          (update hash_password password_min_length s now id input).0
          (credentials.hash_refresh_token raw)
        ≡ ok row
      → row.user_id ≡ saved.id
      → refresh credentials
          (update hash_password password_min_length s now id input).0
          later
          drawn
          raw
        ≡ ((update hash_password password_min_length s now id input).0, err Error.unauthorized)
  update-refresh credentials s now id input saved later drawn raw row off h stored own =
      let after = (update hash_password password_min_length s now id input).0 in
      refresh_refused credentials after later drawn raw row stored (
        refused_dead later row (
          stored_dead after saved.id _ row (update-AllRevoked s now id input saved off h) stored
            own))
