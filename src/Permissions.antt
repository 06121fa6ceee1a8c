-- ===== src/Permissions.antt =====
-- internal/service/permissions.go.
pub mod Links
use turjmp.Prelude.{
  ℕ, zero, suc, ◌+◌, ◌-◌, ◌*◌, ◌/◌, ◌%◌, ◌^◌, ◌≤◌, ◌<◌, ◌≡◌, refl, sym, ap, ◌∙◌, ◌≢◌, ◌↔◌, ◌⊎◌, inl,
  inr, Bool, true, false, not, ◌&&◌, ◌||◌, Option, none, some, List, [], ◌∷◌, ◌++◌, append-nil,
  append_assoc, arith, ltb, leb, ◌==◌, if◌then◌else◌, ltb→lt, lt→ltb, leb→le, ==_iff, ==_refl,
  Bool-cases, Option-cases, length, get_or, take, drop, replicate, slice, null, any, all, filter,
  find?, All, length-append, take-append_length, drop-append_length, length-take, length-drop,
  length-replicate, drop-append_add, get_or-append_add, slice-append_add, slice_middle, slice_at,
  ◌∈◌, ∈-append_left, ∈-append_right, ∈-append_cases, ∈-filter, filter-∈, any-∈, if-∈, ∈-any,
  length-filter_split, null-length, find?-found, find?-append, find?-none, any-append, all-append,
  Text, Bytes, IsByte, codes, text_eq, text_eq→eq, text_eq_refl, text_eq_iff, le_bytes, le_value,
  le_value-le_bytes, length-le_bytes, le_bytes-IsByte,
}
use turjmp.Domain.{Error, Result, ok, err, ◌>>=◌, AssetPermission}
use turjmp.Store.{Store}
use turjmp.Store.Grants.{
  PermissionLinks, create_permission, update_permission, get_permission, list_permissions,
  delete_permission,
}
use turjmp.Store.Permission.Actions.{normalize_actions}

pub record PermissionInput : Type 0 where
  pub name : Text
  pub actions : List Text
  pub date_start : Option ℕ
  pub date_expired : Option ℕ
  pub is_active : Option Bool
  pub user_ids : List ℕ
  pub group_ids : List ℕ
  pub asset_ids : List ℕ
  pub node_ids : List ℕ
  pub account_ids : List ℕ

-- `permissionLinks`
abbrev pub input_links : PermissionInput → PermissionLinks
input_links input = record {
  user_ids = input.user_ids;
  group_ids = input.group_ids;
  asset_ids = input.asset_ids;
  node_ids = input.node_ids;
  account_ids = input.account_ids;
}

abbrev pub or_active : Option Bool → Bool → Bool
or_active none active = active
or_active (some b) active = b

-- The table gives the row its id.
unfoldable pub create_rule : Store → PermissionInput → Store × Result AssetPermission
create_rule s input =
    create_permission s
      (record {
        id = 0;
        name = input.name;
        actions = normalize_actions input.actions;
        date_start = input.date_start;
        date_expired = input.date_expired;
        is_active = or_active input.is_active true;
      })
      (input_links input)

-- The row as the input changes it.
unfoldable pub changed_rule : PermissionInput → AssetPermission → AssetPermission
changed_rule input p = record p {
  name = input.name;
  actions = normalize_actions input.actions;
  date_start = input.date_start;
  date_expired = input.date_expired;
  is_active = or_active input.is_active p.is_active;
}

unfoldable pub update_rule : Store → ℕ → PermissionInput → Store × Result AssetPermission
unfolding changed_rule
update_rule s id input = elim (get_permission s id) [
  | err e ↦ (s, err e)
  | ok (p, links) ↦ update_permission s (changed_rule input p) (input_links input)
]

unfoldable pub get_rule : Store → ℕ → Result (AssetPermission × PermissionLinks)
get_rule s id = get_permission s id

unfoldable pub list_rules : Store → List AssetPermission
list_rules s = list_permissions s

unfoldable pub delete_rule : Store → ℕ → Store
delete_rule s id = delete_permission s id
