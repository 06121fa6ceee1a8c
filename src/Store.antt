-- ===== src/Store.antt =====
-- internal/repository/store.go: the tables, and the queries that the services use, one function for
-- each method with the meaning of its SQL. `notFound` is `Domain.found`. The database answers every
-- query: an error that is not `ErrNotFound` is not modelled here.
pub mod Rows
pub mod Permission
pub mod Tokens
pub mod Sessions
pub mod Refresh
pub mod Settings
pub mod Users
pub mod Grants
pub mod Assets
use turjmp.Prelude.{
  ℕ, zero, suc, ◌+◌, ◌-◌, ◌*◌, ◌/◌, ◌%◌, ◌^◌, ◌≤◌, ◌<◌, ◌≡◌, refl, sym, ap, ◌∙◌, ◌≢◌, ◌↔◌, ◌⊎◌, inl,
  inr, Bool, true, false, not, ◌&&◌, ◌||◌, Option, none, some, List, [], ◌∷◌, ◌++◌, append-nil,
  append_assoc, arith, ltb, leb, ◌==◌, if◌then◌else◌, ltb→lt, lt→ltb, leb→le, ==_iff, ==_refl,
  Bool-cases, Option-cases, length, get_or, take, drop, replicate, slice, null, any, all, filter,
  find?, All, length-append, take-append_length, drop-append_length, length-take, length-drop,
  length-replicate, drop-append_add, get_or-append_add, slice-append_add, slice_middle, slice_at,
  ◌∈◌, ∈-append_left, ∈-append_right, ∈-append_cases, ∈-filter, filter-∈, any-∈, if-∈, ∈-any,
  length-filter_split, null-length, find?-found, find?-append, find?-none, any-append, all-append,
  Text, Bytes, IsByte, codes, text_eq, text_eq→eq, text_eq_refl, text_eq_iff, le_bytes, le_value,
  le_value-le_bytes, length-le_bytes, le_bytes-IsByte,
}
use turjmp.Domain.{
  User, RdpProxyCredential, PlatformProtocol, Node, Asset, Account, AssetPermission,
  ConnectionToken, Session, Setting, RefreshToken, AuditLog, Role, UserGroup, Platform, HostKey,
}

-- A row of one of the tables perm_users, perm_user_groups, perm_assets, perm_nodes, perm_accounts,
-- group_users and asset_nodes: a pair of ids.
pub record Link : Type 0 where
  pub owner : ℕ
  pub member : ℕ

-- The id that a table gives its next row: one more than any row in the table has. A database counts on,
-- where the model may give the id of a deleted last row again.
unfoldable pub next_id : List ℕ → ℕ
next_id [] = 1
next_id (id ∷ ids) = let n = next_id ids in if ltb id n then n else suc id

pub record Store : Type 0 where
  -- The LIKE of SQLite ignores the case of ASCII letters; that of PostgreSQL does not.
  pub like_ignores_case : Bool
  pub users : List User
  pub credentials : List RdpProxyCredential
  pub protocols : List PlatformProtocol
  pub nodes : List Node
  pub assets : List Asset
  pub asset_nodes : List Link
  pub accounts : List Account
  pub permissions : List AssetPermission
  pub perm_users : List Link
  pub perm_user_groups : List Link
  pub group_users : List Link
  pub perm_assets : List Link
  pub perm_nodes : List Link
  pub perm_accounts : List Link
  pub connection_tokens : List ConnectionToken
  pub sessions : List Session
  pub settings : List Setting
  pub refresh_tokens : List RefreshToken
  pub audit_logs : List AuditLog
  -- In the order of their ids.
  pub roles : List Role
  pub user_roles : List Link
  pub user_groups : List UserGroup
  pub platforms : List Platform
  pub host_keys : List HostKey

abbrev pub empty_store : Store
empty_store = record {
  like_ignores_case = true;
  users = [];
  credentials = [];
  protocols = [];
  nodes = [];
  assets = [];
  asset_nodes = [];
  accounts = [];
  permissions = [];
  perm_users = [];
  perm_user_groups = [];
  group_users = [];
  perm_assets = [];
  perm_nodes = [];
  perm_accounts = [];
  connection_tokens = [];
  sessions = [];
  settings = [];
  refresh_tokens = [];
  audit_logs = [];
  roles = [];
  user_roles = [];
  user_groups = [];
  platforms = [];
  host_keys = [];
}
