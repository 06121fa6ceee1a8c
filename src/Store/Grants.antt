-- ===== src/Store/Grants.antt =====
-- The asset permissions of store.go with their link tables. A transaction that fails leaves the tables
-- as they were.
use turjmp.Prelude.{
  ℕ, not, Option, none, some, List, [], ◌∷◌, ◌++◌, ◌==◌, if◌then◌else◌, any, filter, find?,
}
use turjmp.Domain.{Error, Result, ok, err, found, ◌>>=◌, AssetPermission}
use turjmp.Store.{Store, Link, next_id}
use turjmp.Store.Users.{insert_links}
use mathlib.Core.List.{map}

pub record PermissionLinks : Type 0 where
  pub user_ids : List ℕ
  pub group_ids : List ℕ
  pub asset_ids : List ℕ
  pub node_ids : List ℕ
  pub account_ids : List ℕ

abbrev pub if_some {ℓ κ} : {A : Type ℓ} {B : Type κ} → Option A → (A → Option B) → Option B
if_some none f = none
if_some (some a) f = f a

abbrev pub with_links : Store → List Link → List Link → List Link → List Link → List Link → Store
with_links s users groups assets nodes accounts = record s {
  perm_users = users;
  perm_user_groups = groups;
  perm_assets = assets;
  perm_nodes = nodes;
  perm_accounts = accounts;
}

-- `insertPermissionLinks`; `none` is an error.
unfoldable pub insert_permission_links : Store → ℕ → PermissionLinks → Option Store
insert_permission_links s id links =
    if_some (insert_links (λ i. any (λ r. r.id == i) s.users) id links.user_ids s.perm_users)
      λ users.
        if_some
          (insert_links (λ i. any (λ r. r.id == i) s.user_groups) id links.group_ids
            s.perm_user_groups)
          λ groups.
            if_some
              (insert_links (λ i. any (λ r. r.id == i) s.assets) id links.asset_ids s.perm_assets)
              λ assets.
                if_some
                  (insert_links (λ i. any (λ r. r.id == i) s.nodes) id links.node_ids s.perm_nodes)
                  λ nodes.
                    if_some
                      (insert_links (λ i. any (λ r. r.id == i) s.accounts) id links.account_ids
                        s.perm_accounts)
                      λ accounts. some (with_links s users groups assets nodes accounts)

-- The end of the transaction.
unfoldable pub committed : Store → AssetPermission → Option Store → Store × Result AssetPermission
committed before p none = (before, err Error.other)
committed before p (some after) = (after, ok p)

unfoldable pub create_permission :
    Store → AssetPermission → PermissionLinks → Store × Result AssetPermission
unfolding insert_permission_links committed
create_permission s p links =
    let row = record p { id = next_id (map (λ (r : AssetPermission). r.id) s.permissions) } in
    committed s row
      (insert_permission_links (record s { permissions = s.permissions ++ row ∷ [] }) row.id links)

abbrev without : ℕ → List Link → List Link
without id links = filter (λ l. not (l.owner == id)) links

-- The five DELETEs of UpdatePermission, and what ON DELETE CASCADE removes.
unfoldable pub clear_links : Store → ℕ → Store
clear_links s id =
    with_links s (without id s.perm_users) (without id s.perm_user_groups)
      (without id s.perm_assets) (without id s.perm_nodes) (without id s.perm_accounts)

unfoldable pub update_permission_row : AssetPermission → AssetPermission → AssetPermission
update_permission_row p row =
    if row.id == p.id
    then record row {
      name = p.name;
      actions = p.actions;
      date_start = p.date_start;
      date_expired = p.date_expired;
      is_active = p.is_active;
    }
    else row

-- The row that the UPDATE returns.
unfoldable pub updated_permission : Store → AssetPermission → Option AssetPermission
unfolding update_permission_row
updated_permission s p = find? (λ r. r.id == p.id) (map (update_permission_row p) s.permissions)

unfoldable pub update_permission :
    Store → AssetPermission → PermissionLinks → Store × Result AssetPermission
unfolding updated_permission update_permission_row clear_links insert_permission_links committed
update_permission s p links = elim (updated_permission s p) [
  | none ↦ (s, err Error.other)
  | some row ↦ committed s row (
      insert_permission_links
        (clear_links (record s { permissions = map (update_permission_row p) s.permissions })
          row.id)
        row.id links)
]

-- SELECT member FROM table WHERE owner = …, without an ORDER BY: in the order of insertion, where a
-- database may choose another.
unfoldable pub members_of : ℕ → List Link → List ℕ
members_of id links = map (λ l. l.member) (filter (λ l. l.owner == id) links)

unfoldable pub permission_links : Store → ℕ → PermissionLinks
unfolding members_of
permission_links s id = record {
  user_ids = members_of id s.perm_users;
  group_ids = members_of id s.perm_user_groups;
  asset_ids = members_of id s.perm_assets;
  node_ids = members_of id s.perm_nodes;
  account_ids = members_of id s.perm_accounts;
}

unfoldable pub get_permission : Store → ℕ → Result (AssetPermission × PermissionLinks)
unfolding permission_links
get_permission s id =
    found (find? (λ r. r.id == id) s.permissions) >>= λ p. ok (p, permission_links s id)

unfoldable pub list_permissions : Store → List AssetPermission
list_permissions s = s.permissions

unfoldable pub delete_permission : Store → ℕ → Store
unfolding clear_links
delete_permission s id =
    clear_links (record s { permissions = filter (λ r. not (r.id == id)) s.permissions }) id
