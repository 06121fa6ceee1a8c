-- ===== src/Store/Users.antt =====
-- The users and roles of store.go, with what their foreign keys do in migrations/*/00001_core.sql.
use turjmp.Prelude.{
  ℕ, Bool, false, not, ◌&&◌, Option, none, some, List, [], ◌∷◌, ◌++◌, ◌==◌, if◌then◌else◌, any,
  filter, find?, Text, text_eq,
}
use turjmp.Domain.{Error, Result, ok, err, found, User, Role, AuditLog}
use turjmp.Store.{Store, Link, next_id}
use turjmp.Store.Permission.{linked}
use turjmp.Store.Rows.{get_user}
use mathlib.Core.List.{map}

-- INSERT … RETURNING *; the column `username` is UNIQUE.
unfoldable pub create_user : Store → User → Store × Result User
create_user s u =
    let row = record u { id = next_id (map (λ (r : User). r.id) s.users); last_login_at = none } in
    if any (λ r. text_eq r.username u.username) s.users
    then (s, err Error.other)
    else (record s { users = s.users ++ row ∷ [] }, ok row)

-- The columns that the UPDATE sets.
unfoldable pub update_user_row : User → User → User
update_user_row u row =
    if row.id == u.id
    then record row {
      username = u.username;
      name = u.name;
      email = u.email;
      password_hash = u.password_hash;
      mfa_enabled = u.mfa_enabled;
      mfa_secret = u.mfa_secret;
      is_active = u.is_active;
    }
    else row

unfoldable pub update_user : Store → User → Store × Result User
unfolding update_user_row
update_user s u =
    let after = record s { users = map (update_user_row u) s.users } in
    if any (λ r. not (r.id == u.id) && text_eq r.username u.username) s.users
    then (s, err Error.other)
    else if any (λ r. r.id == u.id) s.users
    then (after, get_user after u.id)
    else (s, err Error.not_found)

-- A user with a session is not deleted; the rows of other tables that name the user go with it.
unfoldable pub delete_user : Store → ℕ → Store × Result (Unit {0})
delete_user s id = if any (λ r. r.user_id == id) s.sessions then (s, err Error.other) else (
  record s {
    users = filter (λ r. not (r.id == id)) s.users;
    user_roles = filter (λ l. not (l.owner == id)) s.user_roles;
    group_users = filter (λ l. not (l.member == id)) s.group_users;
    perm_users = filter (λ l. not (l.member == id)) s.perm_users;
    connection_tokens = filter (λ r. not (r.user_id == id)) s.connection_tokens;
    refresh_tokens = filter (λ r. not (r.user_id == id)) s.refresh_tokens;
    credentials = filter (λ r. not (r.user_id == id)) s.credentials;
    audit_logs =
        map
          (λ (r : AuditLog).
            if (elim r.user_id [ none ↦ false | some u ↦ u == id ])
            then record r { user_id = none }
            else r)
          s.audit_logs;
  },
  ok tt,
)

-- ORDER BY id: the rows are in the order of their ids.
unfoldable pub list_users : Store → List User
list_users s = s.users

unfoldable pub get_role : Store → ℕ → Result Role
get_role s id = found (find? (λ r. r.id == id) s.roles)

unfoldable pub get_role_by_name : Store → Text → Result Role
get_role_by_name s name = found (find? (λ r. text_eq r.name name) s.roles)

unfoldable pub create_role : Store → Text → Text → Store × Result Role
create_role s name description =
    let row : Role = record {
      id = next_id (map (λ (r : Role). r.id) s.roles);
      name = name;
      description = description;
    } in
    if any (λ r. text_eq r.name name) s.roles
    then (s, err Error.other)
    else (record s { roles = s.roles ++ row ∷ [] }, ok row)

unfoldable pub update_role : Store → Role → Store × Result Role
unfolding get_role
update_role s role =
    let after = record s {
      roles =
          map
            (λ (r : Role).
              if r.id == role.id
              then record r { name = role.name; description = role.description }
              else r)
            s.roles;
    } in
    if any (λ r. not (r.id == role.id) && text_eq r.name role.name) s.roles
    then (s, err Error.other)
    else (after, get_role after role.id)

-- The error of the update is ignored.
unfoldable pub upsert_role : Store → Text → Text → Store × Result Role
unfolding get_role_by_name create_role update_role
upsert_role s name description = elim (get_role_by_name s name) [
  | err e ↦ create_role s name description
  | ok r ↦ if text_eq r.description description then (s, ok r) else (
    (update_role s (record r { description = description })).0,
    ok (elim ((update_role s (record r { description = description })).1) [
      | ok updated ↦ updated
      | err e ↦ record r { description = description }
    ]),
  )
]

unfoldable pub list_roles : Store → List Role
list_roles s = s.roles

unfoldable pub delete_role : Store → ℕ → Store
delete_role s id = record s {
  roles = filter (λ r. not (r.id == id)) s.roles;
  user_roles = filter (λ l. not (l.member == id)) s.user_roles;
}

-- One INSERT for each member of a link table, whose primary key is the pair; `exists` is the foreign
-- key. `none` is an error, which rolls the transaction back.
unfoldable pub insert_links : (ℕ → Bool) → ℕ → List ℕ → List Link → Option (List Link)
unfolding linked
insert_links exists owner [] links = some links
insert_links exists owner (member ∷ members) links =
    let rest =
      insert_links exists owner members (links ++ record { owner = owner; member = member } ∷ []) in
    if exists member && not (linked links owner member) then rest else none

unfoldable pub set_user_roles : Store → ℕ → List ℕ → Store × Result (Unit {0})
unfolding insert_links
set_user_roles s user_id role_ids =
    elim (insert_links (λ id. any (λ r. r.id == id) s.roles) user_id role_ids
      (filter (λ l. not (l.owner == user_id)) s.user_roles)) [
        | none ↦ (s, err Error.other)
        | some links ↦ (record s { user_roles = links }, ok tt)
      ]

unfoldable pub user_roles_of : Store → ℕ → List Role
unfolding linked
user_roles_of s user_id = filter (λ r. linked s.user_roles user_id r.id) s.roles
