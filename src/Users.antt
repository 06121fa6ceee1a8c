-- ===== src/Users.antt =====
-- internal/service/users.go.
pub mod Disabled
use turjmp.Prelude.{
  ℕ, zero, suc, ◌+◌, ◌-◌, ◌*◌, ◌/◌, ◌%◌, ◌^◌, ◌≤◌, ◌<◌, ◌≡◌, refl, sym, ap, ◌∙◌, ◌≢◌, ◌↔◌, ◌⊎◌, inl,
  inr, Bool, true, false, not, ◌&&◌, ◌||◌, Option, none, some, List, [], ◌∷◌, ◌++◌, append-nil,
  append_assoc, arith, ltb, leb, ◌==◌, if◌then◌else◌, ltb→lt, lt→ltb, leb→le, ==_iff, ==_refl,
  Bool-cases, Option-cases, length, get_or, take, drop, replicate, slice, null, any, all, filter,
  find?, All, length-append, take-append_length, drop-append_length, length-take, length-drop,
  length-replicate, drop-append_add, get_or-append_add, slice-append_add, slice_middle, slice_at,
  ◌∈◌, ∈-append_left, ∈-append_right, ∈-append_cases, ∈-filter, filter-∈, any-∈, if-∈, ∈-any,
  length-filter_split, null-length, find?-found, find?-append, find?-none, any-append, all-append,
  Text, Bytes, IsByte, codes, text_eq, text_eq→eq, text_eq_refl, text_eq_iff, le_bytes, le_value,
  le_value-le_bytes, length-le_bytes, le_bytes-IsByte,
}
use turjmp.Postgres.{ℤ}
use turjmp.Domain.{Error, Result, ok, err, ◌>>=◌, ◌>>◌, guard, User, Role}
use turjmp.Store.{Store}
use turjmp.Store.Rows.{get_user}
use turjmp.Store.Settings.{effective_password_min_length, is_shorter}
use turjmp.Store.Users.{
  create_user, update_user, delete_user, set_user_roles, user_roles_of, list_users,
}
use turjmp.Store.Refresh.{revoke_user_refresh_tokens}
use turjmp.Permissions.{or_active}

-- A role list that is not given is `none`.
pub record CreateUserInput : Type 0 where
  pub username : Text
  pub name : Text
  pub email : Text
  pub password : Text
  pub is_active : Option Bool
  pub role_ids : Option (List ℕ)

pub record UpdateUserInput : Type 0 where
  pub username : Text
  pub name : Text
  pub email : Text
  pub password : Text
  pub is_active : Option Bool
  pub role_ids : Option (List ℕ)

-- `if input.RoleIDs != nil { … }`
unfoldable pub bind_roles : Store → ℕ → Option (List ℕ) → Store × Result (Unit {0})
bind_roles s id none = (s, ok tt)
bind_roles s id (some role_ids) = set_user_roles s id role_ids

-- The user after the roles are bound; their error leaves the user in the table.
unfoldable pub with_roles : Store → User → Option (List ℕ) → Store × Result User
unfolding bind_roles
with_roles s user role_ids =
    let done = bind_roles s user.id role_ids in (done.0, (done.1 >> ok user))

unfoldable pub get_user_with_roles : Store → ℕ → Result (User × List Role)
get_user_with_roles s id = get_user s id >>= λ user. ok (user, user_roles_of s id)

unfoldable pub list : Store → List User
list s = list_users s

-- The first user, whom the program itself made, stays.
unfoldable pub delete : Store → ℕ → Store × Result (Unit {0})
delete s id = if id == 1 then (s, err Error.other) else delete_user s id

-- `auth.HashPassword` is a parameter.
module _ (hash_password : Text → Result Text) (password_min_length : ℤ) where
  unfoldable pub checked_hash : Store → Text → Result Text
  checked_hash s password = do
    guard (not (is_shorter password (effective_password_min_length s password_min_length)))
        Error.invalid_argument
    hash_password password

  abbrev pub new_user : CreateUserInput → Text → User
  new_user input password_hash = record {
    id = 0;
    username = input.username;
    name = input.name;
    email = input.email;
    password_hash = password_hash;
    mfa_enabled = false;
    mfa_secret = [];
    is_active = or_active input.is_active true;
    last_login_at = none;
  }

  unfoldable pub create : Store → CreateUserInput → Store × Result User
  unfolding checked_hash with_roles
  create s input = elim (checked_hash s input.password) [
    | err e ↦ (s, err e)
    | ok password_hash ↦
        let made = create_user s (new_user input password_hash) in
        elim (made.1) [ err e ↦ (made.0, err e) | ok user ↦ with_roles made.0 user input.role_ids ]
  ]

  -- The hash of the new password, or the one that is stored.
  unfoldable pub next_hash : Store → User → Text → Result Text
  unfolding checked_hash
  next_hash s user password =
      let changed = checked_hash s password in
      if null password then ok user.password_hash else changed

  unfoldable pub changed_user : UpdateUserInput → Text → User → User
  changed_user input password_hash user = record user {
    username = if null input.username then user.username else input.username;
    name = input.name;
    email = input.email;
    is_active = or_active input.is_active user.is_active;
    password_hash = password_hash;
  }

  -- A user who is switched off loses the refresh tokens.
  unfoldable pub revoke_if_off : Store → ℕ → ℕ → Option Bool → Store
  revoke_if_off s now id (some false) = revoke_user_refresh_tokens s now id
  revoke_if_off s now id (some true) = s
  revoke_if_off s now id none = s

  -- After the new values are known.
  unfoldable pub save_user : Store → ℕ → User → UpdateUserInput → Store × Result User
  unfolding revoke_if_off with_roles
  save_user s now changed input =
      let saved = update_user s changed in
      elim (saved.1) [
        | err e ↦ (saved.0, err e)
        | ok user ↦
            with_roles (revoke_if_off saved.0 now user.id input.is_active) user input.role_ids
      ]

  unfoldable pub update : Store → ℕ → ℕ → UpdateUserInput → Store × Result User
  unfolding next_hash changed_user save_user
  update s now id input = elim (get_user s id) [
    | err e ↦ (s, err e)
    | ok user ↦ elim (next_hash s user input.password) [
      | err e ↦ (s, err e)
      | ok password_hash ↦ save_user s now (changed_user input password_hash user) input
    ]
  ]
