-- ===== src/Store/Permission.antt =====
-- HasAssetPermission and NormalizeActions of store.go.
pub mod Inherit
pub mod Actions
use turjmp.Prelude.{
  ℕ, zero, suc, ◌+◌, ◌-◌, ◌*◌, ◌/◌, ◌%◌, ◌^◌, ◌≤◌, ◌<◌, ◌≡◌, refl, sym, ap, ◌∙◌, ◌≢◌, ◌↔◌, ◌⊎◌, inl,
  inr, Bool, true, false, not, ◌&&◌, ◌||◌, Option, none, some, List, [], ◌∷◌, ◌++◌, append-nil,
  append_assoc, arith, ltb, leb, ◌==◌, if◌then◌else◌, ltb→lt, lt→ltb, leb→le, ==_iff, ==_refl,
  Bool-cases, Option-cases, length, get_or, take, drop, replicate, slice, null, any, all, filter,
  find?, All, length-append, take-append_length, drop-append_length, length-take, length-drop,
  length-replicate, drop-append_add, get_or-append_add, slice-append_add, slice_middle, slice_at,
  Text, Bytes, IsByte, codes, text_eq, text_eq→eq, text_eq_refl, text_eq_iff, le_bytes, le_value,
  le_value-le_bytes, length-le_bytes, le_bytes-IsByte,
}
use turjmp.Strings.{to_lower, trim_space, has_prefix, join}
use turjmp.Domain.{Asset, Node, AssetPermission}
use turjmp.Store.{Store, Link}

-- `EXISTS (SELECT 1 FROM table WHERE owner = … AND member = …)`
unfoldable pub linked : List Link → ℕ → ℕ → Bool
linked table owner member = any (λ l. l.owner == owner && l.member == member) table

unfoldable pub owned : List Link → ℕ → Bool
owned table owner = any (λ l. l.owner == owner) table

-- `s LIKE '%pattern%'` for a pattern with no wildcard.
unfoldable pub contains : Text → Text → Bool
contains [] pattern = has_prefix [] pattern
contains (c ∷ s) pattern = has_prefix (c ∷ s) pattern || contains s pattern

-- `(',' || actions || ',') LIKE '%,action,%'`
unfoldable pub actions_like : Bool → Text → Text → Bool
unfolding contains to_lower
actions_like ignores_case actions action =
    let compared : Text → Text = λ t. if ignores_case then to_lower t else t in
    contains (b',' ∷ (compared actions ++ b',' ∷ [])) (b',' ∷ (compared action ++ b',' ∷ []))

-- The base of asset_node_ids: the asset's own node, and those of asset_nodes.
unfoldable pub own_node : Store → ℕ → ℕ → Bool
own_node s asset_id node_id =
    any (λ a. a.id == asset_id && (elim a.node_id [ none ↦ false | some n ↦ n == node_id ]))
      s.assets
    || linked s.asset_nodes asset_id node_id

-- `parent.id = child.parent_id` for a child of the list.
unfoldable pub is_parent : Node → List Node → Bool
is_parent n children = any (λ c. elim c.parent_id [ none ↦ false | some p ↦ p == n.id ]) children

-- The recursion of the query: each round adds the parents of the nodes found, until a round finds
-- none. UNION leaves out a row that is there already, which is why each node is added once.
unfoldable pub inherit : ℕ → List Node → List Node → List Node
unfolding is_parent
inherit zero remaining visited = visited
inherit (suc fuel) remaining visited =
    let found = filter (λ n. is_parent n visited) remaining in
    let rest =
      inherit fuel (filter (λ n. not (is_parent n visited)) remaining) (visited ++ found) in
    if null found then visited else rest

-- asset_node_ids: the nodes of an asset and their ancestors.
unfoldable pub asset_nodes : Store → ℕ → List Node
unfolding own_node inherit
asset_nodes s asset_id =
    inherit (length s.nodes) (filter (λ n. not (own_node s asset_id n.id)) s.nodes)
      (filter (λ n. own_node s asset_id n.id) s.nodes)

unfoldable pub in_effect : ℕ → AssetPermission → Bool
in_effect now p =
    p.is_active
    && (elim p.date_start [ none ↦ true | some d ↦ leb d now ])
    && (elim p.date_expired [ none ↦ true | some d ↦ ltb now d ])

unfoldable pub covers_user : Store → ℕ → AssetPermission → Bool
unfolding linked
covers_user s user_id p =
    linked s.perm_users p.id user_id
    || any (λ l. l.owner == p.id && linked s.group_users l.member user_id) s.perm_user_groups

unfoldable pub covers_asset : Store → ℕ → AssetPermission → Bool
unfolding linked asset_nodes
covers_asset s asset_id p =
    linked s.perm_assets p.id asset_id
    || any (λ l. l.owner == p.id && any (λ n. n.id == l.member) (asset_nodes s asset_id))
        s.perm_nodes

unfoldable pub covers_account : Store → ℕ → AssetPermission → Bool
unfolding linked owned
covers_account s account_id p =
    linked s.perm_accounts p.id account_id || not (owned s.perm_accounts p.id)

unfoldable pub grants : Store → ℕ → ℕ → ℕ → ℕ → Text → AssetPermission → Bool
unfolding in_effect actions_like covers_user covers_asset covers_account
grants s now user_id asset_id account_id action p =
    in_effect now p
    && (actions_like s.like_ignores_case p.actions action
        && (covers_user s user_id p
            && (covers_asset s asset_id p && covers_account s account_id p)))

-- `COUNT(1) > 0`, at the instant `now`.
unfoldable pub has_asset_permission : Store → ℕ → ℕ → ℕ → ℕ → Text → Bool
unfolding grants
has_asset_permission s now user_id asset_id account_id action =
    any (grants s now user_id asset_id account_id action) s.permissions
