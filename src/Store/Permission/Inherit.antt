-- ===== src/Store/Permission/Inherit.antt =====
-- The recursive query finds the nodes of an asset and their ancestors, all of them and no other.
use turjmp.Prelude.{
  ℕ, zero, suc, ◌≤◌, ◌≡◌, refl, sym, ◌↔◌, ◌⊎◌, inl, inr, Bool, true, false, not, some, List, ◌++◌,
  arith, Bool-cases, Option-cases, length, null, filter, ◌∈◌, ∈-append_left, ∈-append_right,
  ∈-append_cases, ∈-filter, filter-∈, if-∈, any-∈, ∈-any, length-filter_split, null-length,
  ∈-length, null-∈,
}
use mathlib.Core.Path.{subst}
use turjmp.Domain.{Node}
use turjmp.Store.{Store}
use turjmp.Store.Permission.{own_node, is_parent, inherit, asset_nodes}

-- The nodes above an asset: its own nodes, and the parent of each.
pub data IsAbove (s : Store) (asset_id : ℕ) : Node → Type 0 where
  own : (n : Node) → n ∈ s.nodes → own_node s asset_id n.id ≡ true → IsAbove s asset_id n
  parent :
      (c n : Node)
      → IsAbove s asset_id c
      → n ∈ s.nodes
      → c.parent_id ≡ some n.id
      → IsAbove s asset_id n

is_parent→child :
    (n : Node) (children : List Node)
    → is_parent n children ≡ true
    → (c : Node) × ((c ∈ children) × (c.parent_id ≡ some n.id))
unfolding is_parent
is_parent→child n children h =
    let (c, (m, e)) = any-∈ _ children h in
    (
      c,
      (
        m,
        elim (Option-cases c.parent_id) [
          | inl f ↦ absurd (ground (arith, e, f))
          | inr (p, f) ↦ ground (arith, e, f)
        ],
      ),
    )

child→is_parent :
    (c n : Node) (children : List Node)
    → c ∈ children
    → c.parent_id ≡ some n.id
    → is_parent n children ≡ true
unfolding is_parent
child→is_parent c n children m e = ∈-any _ c children m (ground (arith, e))

module _ (s : Store) (asset_id : ℕ) where
  inherit_sound :
      (fuel : ℕ) (remaining visited : List Node)
      → ((n : Node) → n ∈ remaining → n ∈ s.nodes)
      → ((n : Node) → n ∈ visited → IsAbove s asset_id n)
      → (n : Node) → n ∈ inherit fuel remaining visited
      → IsAbove s asset_id n
  unfolding inherit
  inherit_sound zero remaining visited known above n m = above n m
  inherit_sound (suc fuel) remaining visited known above n m =
      let found = filter (λ k. is_parent k visited) remaining in
      let others = filter (λ k. not (is_parent k visited)) remaining in
      elim (if-∈ (null found) n visited (inherit fuel others (visited ++ found)) m) [
        | inl m' ↦ above n m'
        | inr m' ↦
            inherit_sound fuel others (visited ++ found)
              (λ k j. known k ((filter-∈ (λ c. not (is_parent c visited)) k remaining j).0))
              (λ k j. elim (∈-append_cases k visited found j) [
                | inl a ↦ above k a
                | inr b ↦ found_above k b
              ])
              n m'
      ]
    where
      found_above :
          (k : Node) → k ∈ filter (λ c. is_parent c visited) remaining → IsAbove s asset_id k
      found_above k j =
          let (there, e) = filter-∈ (λ c. is_parent c visited) k remaining j in
          let (c, (in_visited, link)) = is_parent→child k visited e in
          IsAbove.parent c k (above c in_visited) (known k there) link

  -- Each node is visited or still to be looked at.
  abbrev Covers : List Node → List Node → Type 0
  Covers remaining visited = (n : Node) → n ∈ s.nodes → (n ∈ remaining) ⊎ (n ∈ visited)

  negated : (b : Bool) → b ≡ false → not b ≡ true
  negated b e = rw e refl

  Covers-next :
      (remaining visited : List Node)
      → Covers remaining visited
      → Covers
          (filter (λ n. not (is_parent n visited)) remaining)
          (visited ++ filter (λ n. is_parent n visited) remaining)
  Covers-next remaining visited c n m = elim (c n m) [
    | inr v ↦ inr (∈-append_left n visited _ v)
    | inl r ↦ elim (Bool-cases (is_parent n visited)) [
      | inl e ↦ inr (∈-append_right n visited _ (∈-filter _ n remaining r e))
      | inr e ↦ inl (∈-filter _ n remaining r (negated _ e))
    ]
  ]

  inherit_keeps :
      (fuel : ℕ) (remaining visited : List Node) (n : Node)
      → n ∈ visited
      → n ∈ inherit fuel remaining visited
  unfolding inherit
  inherit_keeps zero remaining visited n m = m
  inherit_keeps (suc fuel) remaining visited n m =
      elim (Bool-cases (null (filter (λ k. is_parent k visited) remaining))) [
        | inl e ↦ rw e m
        | inr e ↦ rw e (inherit_keeps fuel _ _ n (∈-append_left n visited _ m))
      ]

  inherit_closed :
      (fuel : ℕ) (remaining visited : List Node)
      → Covers remaining visited
      → length remaining ≤ fuel
      → (c n : Node) → c ∈ inherit fuel remaining visited
      → n ∈ s.nodes
      → c.parent_id ≡ some n.id
      → n ∈ inherit fuel remaining visited
  unfolding inherit
  inherit_closed zero remaining visited covers few c n m there link = elim (covers n there) [
    | inl r ↦ absurd (omega (arith, few, ∈-length n remaining r))
    | inr v ↦ v
  ]
  inherit_closed (suc fuel) remaining visited covers few c n m there link =
      let found = filter (λ k. is_parent k visited) remaining in
      let others = filter (λ k. not (is_parent k visited)) remaining in
      elim (Bool-cases (null found)) [
        | inl e ↦
            let result : inherit (suc fuel) remaining visited ≡ visited = rw e refl in
            let here : c ∈ visited = subst (λ l. c ∈ l) result m in
            subst (λ l. n ∈ l) (sym result)
              (elim (covers n there) [
                | inl r ↦ absurd (
                    null-∈ n found e
                      (∈-filter _ n remaining r (child→is_parent c n visited here link)))
                | inr v ↦ v
              ])
        | inr e ↦
            let result : inherit (suc fuel) remaining visited
                ≡ inherit fuel others (visited ++ found) =
              rw e refl in
            let fewer : length others ≤ fuel = omega (
              arith,
              few,
              null-length found e,
              length-filter_split (λ k. is_parent k visited) remaining,
            ) in
            subst (λ l. n ∈ l) (sym result)
              (inherit_closed fuel others (visited ++ found) (Covers-next remaining visited covers)
                fewer c n (subst (λ l. c ∈ l) result m) there link)
      ]

  abbrev base : List Node
  base = filter (λ n. own_node s asset_id n.id) s.nodes

  abbrev others : List Node
  others = filter (λ n. not (own_node s asset_id n.id)) s.nodes

  base-Covers : Covers others base
  base-Covers n m = elim (Bool-cases (own_node s asset_id n.id)) [
    | inl e ↦ inr (∈-filter _ n s.nodes m e)
    | inr e ↦ inl (∈-filter _ n s.nodes m (negated _ e))
  ]

  -- The query finds a node exactly if it is one of the asset's own or above one of them: the rounds
  -- run as often as there are nodes, which is often enough, a cycle of parents included.
  pub asset_nodes_iff : (n : Node) → (n ∈ asset_nodes s asset_id) ↔ IsAbove s asset_id n
  unfolding asset_nodes
  asset_nodes_iff n = (sound, complete n)
    where
      sound : n ∈ asset_nodes s asset_id → IsAbove s asset_id n
      sound m =
          inherit_sound (length s.nodes) others base (λ k j. (filter-∈ _ k s.nodes j).0)
            (λ k j. let (there, e) = filter-∈ _ k s.nodes j in IsAbove.own k there e) n m

      complete : (k : Node) → IsAbove s asset_id k → k ∈ asset_nodes s asset_id
      complete _ (IsAbove.own k there e) =
          inherit_keeps (length s.nodes) others base k (∈-filter _ k s.nodes there e)
      complete _ (IsAbove.parent c k above there link) =
          inherit_closed (length s.nodes) others base base-Covers
            (omega (arith, length-filter_split (λ j. own_node s asset_id j.id) s.nodes)) c k
            (complete c above) there link
