-- ===== src/Store/Assets.antt =====
-- The platforms, nodes, assets, accounts and host keys of store.go.
use turjmp.Prelude.{
  ℕ, Bool, true, false, not, ◌&&◌, ◌||◌, Option, none, some, List, [], ◌∷◌, ◌++◌, ◌==◌,
  if◌then◌else◌, any, filter, find?, Text, codes, text_eq,
}
use turjmp.Domain.{
  Error, Result, ok, err, found, Asset, Account, Node, Platform, PlatformProtocol, HostKey,
}
use turjmp.Store.{Store, next_id}
use turjmp.Store.Rows.{get_asset, get_asset_account}
use mathlib.Core.List.{map}

unfoldable pub upsert_platform : Store → Text → Text → Text → Store × Platform
upsert_platform s name kind description = elim (find? (λ p. text_eq p.name name) s.platforms) [
  | some p ↦ (s, p)
  | none ↦
      let row : Platform = record {
        id = next_id (map (λ (p : Platform). p.id) s.platforms);
        name = name;
        kind = kind;
        description = description;
      } in
      (record s { platforms = s.platforms ++ row ∷ [] }, row)
]

unfoldable pub upsert_platform_protocol : Store → ℕ → Text → ℕ → Store
upsert_platform_protocol s platform_id name port =
    let row : PlatformProtocol = record {
      id = next_id (map (λ (p : PlatformProtocol). p.id) s.protocols);
      platform_id = platform_id;
      name = name;
      port = port;
    } in
    if any (λ p. p.platform_id == platform_id && text_eq p.name name) s.protocols
    then s
    else record s { protocols = s.protocols ++ row ∷ [] }

unfoldable pub list_platforms : Store → List Platform
list_platforms s = s.platforms

unfoldable pub list_platform_protocols : Store → ℕ → List PlatformProtocol
list_platform_protocols s platform_id = filter (λ p. p.platform_id == platform_id) s.protocols

unfoldable pub ensure_root_node : Store → Store
ensure_root_node s =
    let row : Node = record {
      id = next_id (map (λ (n : Node). n.id) s.nodes);
      name = codes "Default";
      parent_id = none;
    } in
    if any (λ n. elim n.parent_id [ none ↦ true | some p ↦ false ]) s.nodes
    then s
    else record s { nodes = s.nodes ++ row ∷ [] }

unfoldable pub list_nodes : Store → List Node
list_nodes s = s.nodes

-- The foreign keys of an asset: its platform, and its node if it has one.
unfoldable pub asset_keys : Store → Asset → Bool
asset_keys s a =
    any (λ p. p.id == a.platform_id) s.platforms
    && (elim a.node_id [ none ↦ true | some n ↦ any (λ r. r.id == n) s.nodes ])

unfoldable pub create_asset : Store → Asset → Store × Result Asset
unfolding asset_keys
create_asset s a =
    let row = record a { id = next_id (map (λ (r : Asset). r.id) s.assets) } in
    if asset_keys s a
    then (record s { assets = s.assets ++ row ∷ [] }, ok row)
    else (s, err Error.other)

unfoldable pub update_asset : Store → Asset → Store × Result Asset
unfolding asset_keys
update_asset s a =
    let after = record s { assets = map (λ (r : Asset). if r.id == a.id then a else r) s.assets } in
    if not (any (λ r. r.id == a.id) s.assets) || asset_keys s a
    then (after, get_asset after a.id)
    else (s, err Error.other)

joined : Option Platform → Asset → List (Asset × Platform) → List (Asset × Platform)
joined none a rest = rest
joined (some p) a rest = (a, p) ∷ rest

assets_with : List Platform → List Asset → List (Asset × Platform)
unfolding joined
assets_with platforms [] = []
assets_with platforms (a ∷ rows) =
    joined (find? (λ p. p.id == a.platform_id) platforms) a (assets_with platforms rows)

-- The assets, each with the name and the type of its platform.
unfoldable pub list_assets : Store → List (Asset × Platform)
unfolding assets_with
list_assets s = assets_with s.platforms s.assets

-- The account as the database takes it; the table gives its id.
unfoldable pub create_account : Store → Account → Store × Result Account
create_account s a =
    let row = record a { id = next_id (map (λ (r : Account). r.id) s.accounts) } in
    if any (λ r. r.id == a.asset_id) s.assets
      && (elim a.su_account_id [ none ↦ true | some n ↦ any (λ r. r.id == n) s.accounts ])
    then (record s { accounts = s.accounts ++ row ∷ [] }, ok row)
    else (s, err Error.other)

unfoldable pub update_account_row : Account → Account → Account
update_account_row a row = if row.id == a.id && row.asset_id == a.asset_id then a else row

unfoldable pub update_account : Store → Account → Store × Result Account
unfolding update_account_row get_asset_account
update_account s a =
    let after = record s { accounts = map (update_account_row a) s.accounts } in
    if not (any (λ r. r.id == a.id && r.asset_id == a.asset_id) s.accounts)
      || (elim a.su_account_id [ none ↦ true | some n ↦ any (λ r. r.id == n) s.accounts ])
    then (after, get_asset_account after a.asset_id a.id)
    else (s, err Error.other)

unfoldable pub list_accounts : Store → ℕ → List Account
list_accounts s asset_id = filter (λ r. r.asset_id == asset_id) s.accounts

-- ON DELETE SET NULL of `su_account_id`.
unfoldable pub forget_su : (ℕ → Bool) → Account → Account
forget_su gone row =
    if elim row.su_account_id [ none ↦ false | some n ↦ gone n ]
    then record row { su_account_id = none }
    else row

-- The rows that name the account go with it; an account with a session stays.
unfoldable pub delete_account : Store → ℕ → ℕ → Store × Result (Unit {0})
unfolding forget_su
delete_account s asset_id account_id =
    if any (λ r. r.id == account_id && r.asset_id == asset_id) s.accounts
    then if any (λ r. r.account_id == account_id) s.sessions then (s, err Error.other) else (
      record s {
        accounts =
            map (forget_su (λ n. n == account_id))
              (filter (λ r. not (r.id == account_id)) s.accounts);
        perm_accounts = filter (λ l. not (l.member == account_id)) s.perm_accounts;
        connection_tokens = filter (λ r. not (r.account_id == account_id)) s.connection_tokens;
      },
      ok tt,
    )
    else (s, ok tt)

-- The accounts of the asset go with it, and the rows that name it or them; an asset with a session
-- stays.
unfoldable pub delete_asset : Store → ℕ → Store × Result (Unit {0})
unfolding forget_su
delete_asset s id =
    let gone : ℕ → Bool = λ n. any (λ r. r.id == n && r.asset_id == id) s.accounts in
    if any (λ r. r.asset_id == id || gone r.account_id) s.sessions then (s, err Error.other) else (
      record s {
        assets = filter (λ r. not (r.id == id)) s.assets;
        asset_nodes = filter (λ l. not (l.owner == id)) s.asset_nodes;
        accounts = map (forget_su gone) (filter (λ r. not (r.asset_id == id)) s.accounts);
        perm_assets = filter (λ l. not (l.member == id)) s.perm_assets;
        perm_accounts = filter (λ l. not (gone l.member)) s.perm_accounts;
        connection_tokens =
            filter (λ r. not (r.asset_id == id || gone r.account_id)) s.connection_tokens;
      },
      ok tt,
    )

unfoldable pub list_host_keys : Store → List HostKey
list_host_keys s = s.host_keys

-- The first in the order of the ids.
unfoldable pub get_host_key_by_algorithm : Store → Text → Result HostKey
get_host_key_by_algorithm s algorithm =
    found (find? (λ k. text_eq k.algorithm algorithm) s.host_keys)

-- The column `fingerprint` is UNIQUE.
unfoldable pub create_host_key : Store → HostKey → Store × Result HostKey
create_host_key s key =
    let row = record key { id = next_id (map (λ (k : HostKey). k.id) s.host_keys) } in
    if any (λ k. text_eq k.fingerprint key.fingerprint) s.host_keys
    then (s, err Error.other)
    else (record s { host_keys = s.host_keys ++ row ∷ [] }, ok row)
