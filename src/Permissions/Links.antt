-- ===== src/Permissions/Links.antt =====
-- What a changed permission links to.
use turjmp.Prelude.{
  ℕ, ◌≡◌, refl, sym, ap, ◌∙◌, ◌≢◌, inl, inr, Bool, not, ◌&&◌, Option, none, some, List, [], ◌∷◌,
  ◌++◌, append-nil, append_assoc, arith, ◌==◌, ==_refl, Bool-cases, Option-cases, any, filter,
  find?, find?-found,
}
use turjmp.Domain.{ok, AssetPermission}
use turjmp.Store.{Store, Link}
use turjmp.Store.Permission.{linked}
use turjmp.Store.Users.{insert_links}
use turjmp.Store.Grants.{
  PermissionLinks, if_some, with_links, insert_permission_links, committed, clear_links,
  update_permission_row, updated_permission, update_permission, members_of, permission_links,
  get_permission,
}
use turjmp.Permissions.{PermissionInput, input_links, changed_rule, update_rule}
use mathlib.Core.List.{map}

members-append :
    (id member : ℕ) (links : List Link)
    → members_of id (links ++ record { owner = id; member = member } ∷ [])
      ≡ members_of id links ++ member ∷ []
unfolding members_of
members-append id member [] = ground (arith, ==_refl id)
members-append id member (l ∷ links) = ground (arith, members-append id member links)

-- The members that are inserted come behind those that are there.
members-insert :
    (exists : ℕ → Bool) (id : ℕ) (members : List ℕ) (links after : List Link)
    → insert_links exists id members links ≡ some after
    → members_of id after ≡ members_of id links ++ members
unfolding insert_links
members-insert exists id [] links after h = ground (arith, h, append-nil (members_of id links))
members-insert exists id (m ∷ ms) links after h =
    elim (Bool-cases (exists m && not (linked links id m))) [
      | inl e ↦
          members-insert exists id ms (links ++ record { owner = id; member = m } ∷ []) after
            (ground (arith, e, h))
          ∙ (rw (members-append id m links) (append_assoc (members_of id links) (m ∷ []) ms))
      | inr e ↦ absurd (ground (arith, e, h))
    ]

members-without :
    (id : ℕ) (links : List Link) → members_of id (filter (λ l. not (l.owner == id)) links) ≡ []
unfolding members_of
members-without id [] = refl
members-without id (l ∷ links) = ground (arith, members-without id links)

-- The members of another permission.
other-append :
    (id other member : ℕ) (links : List Link)
    → other ≢ id
    → members_of other (links ++ record { owner = id; member = member } ∷ [])
      ≡ members_of other links
unfolding members_of
other-append id other member [] n = ground (arith, n)
other-append id other member (l ∷ links) n = ground (arith, other-append id other member links n)

other-insert :
    (exists : ℕ → Bool) (id other : ℕ) (members : List ℕ) (links after : List Link)
    → other ≢ id
    → insert_links exists id members links ≡ some after
    → members_of other after ≡ members_of other links
unfolding insert_links
other-insert exists id other [] links after n h = ground (arith, h)
other-insert exists id other (m ∷ ms) links after n h =
    elim (Bool-cases (exists m && not (linked links id m))) [
      | inl e ↦
          other-insert exists id other ms (links ++ record { owner = id; member = m } ∷ []) after n
            (ground (arith, e, h))
          ∙ other-append id other m links n
      | inr e ↦ absurd (ground (arith, e, h))
    ]

other-without :
    (id other : ℕ) (links : List Link)
    → other ≢ id
    → members_of other (filter (λ l. not (l.owner == id)) links) ≡ members_of other links
unfolding members_of
other-without id other [] n = refl
other-without id other (l ∷ links) n = ground (arith, n, other-without id other links n)

some_steps {ℓ κ} :
    {A : Type ℓ} {B : Type κ} (o : Option A) (f : A → Option B) (b : B)
    → if_some o f ≡ some b
    → (a : A) × ((o ≡ some a) × (f a ≡ some b))
some_steps none f b h = absurd (cc h)
some_steps (some a) f b h = (a, (refl, h))

-- A link table that lost the rows of a permission and got new ones.
replaced :
    (exists : ℕ → Bool) (id : ℕ) (members : List ℕ) (links after : List Link)
    → insert_links exists id members (filter (λ l. not (l.owner == id)) links) ≡ some after
    → (members_of id after ≡ members)
      × ((other : ℕ) → other ≢ id → members_of other after ≡ members_of other links)
replaced exists id members links after h = (
  members-insert exists id members _ after h ∙ ap (λ ms. ms ++ members) (members-without id links),
  λ other n. other-insert exists id other members _ after n h ∙ other-without id other links n,
)

some_injective {ℓ} : {A : Type ℓ} (a b : A) → some a ≡ some b → a ≡ b
some_injective {A = A} a b e = ap (λ (o : Option A). elim o [ some x ↦ x | none ↦ a ]) e

tables_links :
    (s : Store) (users groups assets nodes accounts : List Link) (id : ℕ) (links : PermissionLinks)
    → members_of id users ≡ links.user_ids
    → members_of id groups ≡ links.group_ids
    → members_of id assets ≡ links.asset_ids
    → members_of id nodes ≡ links.node_ids
    → members_of id accounts ≡ links.account_ids
    → permission_links (with_links s users groups assets nodes accounts) id ≡ links
unfolding permission_links
tables_links s users groups assets nodes accounts id links u g a n c = rw (u, g, a, n, c) refl

links_replaced :
    (s after : Store) (id : ℕ) (links : PermissionLinks)
    → insert_permission_links (clear_links s id) id links ≡ some after
    → (permission_links after id ≡ links)
      × ((other : ℕ) → other ≢ id → permission_links after other ≡ permission_links s other)
unfolding insert_permission_links clear_links permission_links
links_replaced s after id links h0 =
    let (users, (eu, h1)) =
      some_steps (insert_links (λ i. any (λ r. r.id == i) s.users) id links.user_ids _) _ after
        h0 in
    let (groups, (eg, h2)) =
      some_steps (insert_links (λ i. any (λ r. r.id == i) s.user_groups) id links.group_ids _) _
        after h1 in
    let (assets, (ea, h3)) =
      some_steps (insert_links (λ i. any (λ r. r.id == i) s.assets) id links.asset_ids _) _ after
        h2 in
    let (nodes, (en, h4)) =
      some_steps (insert_links (λ i. any (λ r. r.id == i) s.nodes) id links.node_ids _) _ after
        h3 in
    let (accounts, (ec, h5)) =
      some_steps (insert_links (λ i. any (λ r. r.id == i) s.accounts) id links.account_ids _) _
        after h4 in
    let ru = replaced _ id links.user_ids s.perm_users users eu in
    let rg = replaced _ id links.group_ids s.perm_user_groups groups eg in
    let ra = replaced _ id links.asset_ids s.perm_assets assets ea in
    let rn = replaced _ id links.node_ids s.perm_nodes nodes en in
    let rc = replaced _ id links.account_ids s.perm_accounts accounts ec in
    let tables =
      some_injective (with_links (clear_links s id) users groups assets nodes accounts) after h5 in
    rw (sym tables) (
      tables_links (clear_links s id) users groups assets nodes accounts id links ru.0 rg.0 ra.0
          rn.0 rc.0,
      λ other n.
          tables_links (clear_links s id) users groups assets nodes accounts other
            (permission_links s other) (ru.1 other n) (rg.1 other n) (ra.1 other n) (rn.1 other n)
            (rc.1 other n),
    )

updated_id :
    (p : AssetPermission) (rows : List AssetPermission) (row : AssetPermission)
    → find? (λ r. r.id == p.id) rows ≡ some row
    → row.id ≡ p.id
updated_id p rows row h = ground (arith, find?-found (λ r. r.id == p.id) rows row h)

update_permission-links :
    (s : Store) (p : AssetPermission) (links : PermissionLinks) (saved : AssetPermission)
    → (update_permission s p links).1 ≡ ok saved
    → (permission_links ((update_permission s p links).0) p.id ≡ links)
      × ((other : ℕ)
          → other ≢ p.id
          → permission_links ((update_permission s p links).0) other ≡ permission_links s other)
unfolding update_permission committed permission_links
update_permission-links s p links saved h = elim (Option-cases (updated_permission s p)) [
  | inl e ↦ absurd (ground (arith, e, h))
  | inr (row, e) ↦
      let same : row.id ≡ p.id =
        updated_id p (map (update_permission_row p) s.permissions) row
          (unfold updated_permission in e) in
      let middle = record s { permissions = map (update_permission_row p) s.permissions } in
      elim (Option-cases (insert_permission_links (clear_links middle row.id) row.id links)) [
        | inl f ↦ absurd (ground (arith, e, f, h))
        | inr (after, f) ↦
            let (own, others) = links_replaced middle after row.id links f in
            rw (e, f, update_permission, committed, sym same) (own, others)
      ]
]

-- A saved change of a permission replaces all that it links to, users, groups, assets, nodes and
-- accounts, by what the input names, and leaves the links of every other permission alone.
pub update_rule-links :
    (s : Store) (id : ℕ) (input : PermissionInput) (saved : AssetPermission)
    → (update_rule s id input).1 ≡ ok saved
    → (permission_links ((update_rule s id input).0) id ≡ input_links input)
      × ((other : ℕ)
          → other ≢ id
          → permission_links ((update_rule s id input).0) other ≡ permission_links s other)
unfolding update_rule get_permission changed_rule
update_rule-links s id input saved h = elim (Option-cases (find? (λ r. r.id == id) s.permissions)) [
  | inl e ↦ absurd (ground (arith, e, h))
  | inr (p, e) ↦
      let same : p.id ≡ id = ground (arith, find?-found (λ r. r.id == id) s.permissions p e) in
      let result =
        update_permission-links s (changed_rule input p) (input_links input) saved
          (ground (arith, e, h)) in
      rw (e, update_rule, sym same) (unfold changed_rule in result)
]
