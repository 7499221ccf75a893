-- ===== src/Peer/Print/Same.antt =====
-- The printed graph does not depend on the order of the maps, nor on how the sort works.
use mathlib.Core.Path.{ap₂}
use mathlib.Core.Logic.{∥∥₁_elim}
use mathlib.Core.List.{Memᴰ, Permᴰ}
use mathlib.Core.List.Memᴰ
use mathlib.Core.List.Permᴰ
use mathlib.Core.List.Perm
use file_sharing_system_with.Prelude.{
  ◌^◌, ◌<◌, ◌≡◌, false, some, Bool, List, [], ◌∷◌, Bytes, bytes_eq, Bool-cases, inl, inr, nat_eq,
  nat_beq_iff, ◌==◌, All, All-intro, arith, ap, sym, subst, ◌∙◌, Permᴰ-Memᴰ,
}
use file_sharing_system_with.Word.{Int32, slt32}
use file_sharing_system_with.GoMap.{lookup}
use file_sharing_system_with.GoMap.Range.{Range, IsRanging}
use file_sharing_system_with.GoMap.Unique.{mem→lookup}
use file_sharing_system_with.Sort.{IsSorting, IsTelling, sorted_unique}
use file_sharing_system_with.Peer.Network.{NetworkNode, NetworkEdge, get_nodes, get_edges, edge_key}
use file_sharing_system_with.Peer.Network.History.{
  Change, node, edge, after, InRange, latest_node, lookup-after_nodes, after-IsUnique,
}
use file_sharing_system_with.Peer.Network.Snapshots.{latest_node-id, after-edge_key}
use file_sharing_system_with.Peer.Node.{PeerNode}
use file_sharing_system_with.Peer.Print.{node_less, edge_less, print_graph}

NetworkNode_set : IsSet NetworkNode
NetworkNode_set = hlevel

NetworkEdge_set : IsSet NetworkEdge
NetworkEdge_set = hlevel

-- Identifiers are int32 values.
abbrev pub IsProperNode : NetworkNode → Type 0
IsProperNode n = n.id < 2 ^ 32

abbrev pub IsProperEdge : NetworkEdge → Type 0
IsProperEdge e = (e.from < 2 ^ 32) × (e.to < 2 ^ 32)

-- Two sorts of the same elements agree.
sorts-agree :
    {A : Type 0} (A_set : IsSet A) (IsProper : A → Type 0) (less : A → A → Bool)
    (sort sort' : List A → List A) (xs ys : List A)
    → IsSorting IsProper less sort
    → IsSorting IsProper less sort'
    → Permᴰ xs ys
    → All IsProper xs
    → All IsProper ys
    → IsTelling less xs
    → sort xs ≡ sort' ys
sorts-agree A_set IsProper less sort sort' xs ys sorting sorting' p proper proper' telling =
    let (same, sorted) = sorting xs proper in
    let (same', sorted') = sorting' ys proper' in
    sorted_unique A_set less (sort xs) (sort' ys) sorted sorted'
      (λ a b ma mb. telling a b ((Perm.mem_iff same).0 ma) ((Perm.mem_iff same).0 mb))
      (Perm.trans same (Perm.trans ∣ p ∣₁ (Perm.symm same')))

slt32-tells :
    (a b : Int32) → a < 2 ^ 32 → b < 2 ^ 32 → slt32 a b ≡ false → slt32 b a ≡ false → a ≡ b
unfolding slt32
slt32-tells a b ha hb h h' = ground (arith, h, h')

latest_node_range :
    (k : Int32) (n : NetworkNode) (history : List Change)
    → All InRange history
    → latest_node k history ≡ some n
    → k < 2 ^ 32
unfolding latest_node
latest_node_range k n [] range h = cc
latest_node_range k n (node now id address ∷ history) range h = elim (Bool-cases (id == k)) [
  | inl hit ↦ let same = (nat_beq_iff id k).0 hit in rw (← same) range.0
  | inr miss ↦ latest_node_range k n history range.1 (rw miss at h)
]
latest_node_range k n (edge from to latency ∷ history) range h =
    latest_node_range k n history range.1 h

some-injective : {A : Type 0} {a b : A} → some a ≡ some b → a ≡ b
some-injective e = cc

edge_less-tells :
    (a b : NetworkEdge)
    → a.from < 2 ^ 32
    → a.to < 2 ^ 32
    → b.from < 2 ^ 32
    → b.to < 2 ^ 32
    → edge_less a b ≡ false
    → edge_less b a ≡ false
    → (a.from ≡ b.from) × (a.to ≡ b.to)
unfolding edge_less
edge_less-tells a b from_a to_a from_b to_b h h' = elim (Bool-cases (a.from == b.from)) [
  | inl hit ↦
      let same = (nat_beq_iff a.from b.from).0 hit in
      let hit' = (nat_beq_iff b.from a.from).1 (sym same) in
      (same, slt32-tells a.to b.to to_a to_b (rw hit at h) (rw hit' at h'))
  | inr miss ↦
      let miss' : (b.from == a.from) ≡ false = ground arith in
      let same = slt32-tells a.from b.from from_a from_b (rw miss at h) (rw miss' at h') in
      absurd (ground (arith, same))
]

module _ (history : List Change) (range : All InRange history) where
  pub get_nodes-lookup :
      (order : Range Int32 NetworkNode)
      → IsRanging order
      → (n : NetworkNode) → Memᴰ n (get_nodes order (after history))
      → (lookup n.id (after history).nodes ≡ some n) × (n.id < 2 ^ 32)
  unfolding get_nodes
  get_nodes-lookup order fair n m =
      let g = after history in
      let ((k, v), entry, e) = Memᴰ.of_map (λ (t : Int32 × NetworkNode). t.1) (order g.nodes) m in
      let found =
        mem→lookup k v g.nodes (after-IsUnique history).0
          (Permᴰ-Memᴰ (k, v) (fair g.nodes) entry) in
      let latest = sym (lookup-after_nodes k history) ∙ found in
      let id = latest_node-id k v history latest in
      subst (λ (x : NetworkNode). (lookup x.id g.nodes ≡ some x) × (x.id < 2 ^ 32)) e
        (subst (λ i. (lookup i g.nodes ≡ some v) × (i < 2 ^ 32)) (sym id)
          (found, latest_node_range k v history range latest))

  get_edges-lookup :
      (order : Range Bytes NetworkEdge)
      → IsRanging order
      → (e : NetworkEdge) → Memᴰ e (get_edges order (after history))
      → (lookup (edge_key e.from e.to) (after history).edges ≡ some e)
        × (e.from < 2 ^ 32)
        × (e.to < 2 ^ 32)
  unfolding get_edges
  get_edges-lookup order fair written m =
      let g = after history in
      let ((k, v), entry, e) = Memᴰ.of_map (λ (t : Bytes × NetworkEdge). t.1) (order g.edges) m in
      let found =
        mem→lookup k v g.edges (after-IsUnique history).1
          (Permᴰ-Memᴰ (k, v) (fair g.edges) entry) in
      let (key, from_small, to_small) = after-edge_key k v history range found in
      subst
        (λ (x : NetworkEdge).
          (lookup (edge_key x.from x.to) g.edges ≡ some x) × (x.from < 2 ^ 32) × (x.to < 2 ^ 32))
        e (subst (λ j. lookup j g.edges ≡ some v) key found, from_small, to_small)

  pub get_nodes-proper :
      (order : Range Int32 NetworkNode)
      → IsRanging order
      → All IsProperNode (get_nodes order (after history))
  get_nodes-proper order fair =
      All-intro IsProperNode (get_nodes order (after history))
        (λ n m. (get_nodes-lookup order fair n m).1)

  get_edges-proper :
      (order : Range Bytes NetworkEdge)
      → IsRanging order
      → All IsProperEdge (get_edges order (after history))
  get_edges-proper order fair = All-intro IsProperEdge (get_edges order (after history)) (λ e m.
      let (_, from_small, to_small) = get_edges-lookup order fair e m in (from_small, to_small))

  get_nodes-IsTelling :
      (order : Range Int32 NetworkNode)
      → IsRanging order
      → IsTelling node_less (get_nodes order (after history))
  unfolding node_less
  get_nodes-IsTelling order fair a b ma mb h h' = ∥∥₁_elim ma (NetworkNode_set a b) (λ ma'.
      ∥∥₁_elim mb (NetworkNode_set a b) (λ mb'.
        let (found_a, a_small) = get_nodes-lookup order fair a ma' in
        let (found_b, b_small) = get_nodes-lookup order fair b mb' in
        let same = slt32-tells a.id b.id a_small b_small h h' in
        some-injective (sym found_a ∙ ap (λ i. lookup i (after history).nodes) same ∙ found_b)))

  get_edges-IsTelling :
      (order : Range Bytes NetworkEdge)
      → IsRanging order
      → IsTelling edge_less (get_edges order (after history))
  get_edges-IsTelling order fair a b ma mb h h' = ∥∥₁_elim ma (NetworkEdge_set a b) (λ ma'.
      ∥∥₁_elim mb (NetworkEdge_set a b) (λ mb'.
        let (found_a, from_a, to_a) = get_edges-lookup order fair a ma' in
        let (found_b, from_b, to_b) = get_edges-lookup order fair b mb' in
        let (same_from, same_to) = edge_less-tells a b from_a to_a from_b to_b h h' in
        let key = ap₂ edge_key same_from same_to in
        some-injective (sym found_a ∙ ap (λ k. lookup k (after history).edges) key ∙ found_b)))

-- For a graph that was written with 32-bit identifiers, `PrintGraph` prints the same lines whatever
-- order the maps are visited in, and whichever algorithms sort the nodes and the edges.
pub print_graph-same :
    {C : Type 0} (history : List Change) (range : All InRange history) (p : PeerNode C)
    (sort_nodes sort_nodes' : (NetworkNode → NetworkNode → Bool)
      → List NetworkNode
      → List NetworkNode)
    (sort_edges sort_edges' : (NetworkEdge → NetworkEdge → Bool)
      → List NetworkEdge
      → List NetworkEdge)
    (node_order node_order' : Range Int32 NetworkNode)
    (edge_order edge_order' : Range Bytes NetworkEdge)
    → p.graph ≡ after history
    → IsSorting IsProperNode node_less (sort_nodes node_less)
    → IsSorting IsProperNode node_less (sort_nodes' node_less)
    → IsSorting IsProperEdge edge_less (sort_edges edge_less)
    → IsSorting IsProperEdge edge_less (sort_edges' edge_less)
    → IsRanging node_order
    → IsRanging node_order'
    → IsRanging edge_order
    → IsRanging edge_order'
    → print_graph sort_nodes sort_edges node_order edge_order p
      ≡ print_graph sort_nodes' sort_edges' node_order' edge_order' p
unfolding print_graph get_nodes get_edges
print_graph-same history range p sort_nodes sort_nodes' sort_edges sort_edges' node_order
      node_order' edge_order edge_order' written n_sorts n_sorts' e_sorts e_sorts' n_fair n_fair'
      e_fair e_fair' =
    let g = after history in
    let nodes =
      sorts-agree NetworkNode_set IsProperNode node_less (sort_nodes node_less)
        (sort_nodes' node_less) (get_nodes node_order g) (get_nodes node_order' g) n_sorts n_sorts'
        (Permᴰ.map (λ (t : Int32 × NetworkNode). t.1)
          (Permᴰ.trans (n_fair g.nodes) (Permᴰ.symm (n_fair' g.nodes))))
        (get_nodes-proper history range node_order n_fair)
        (get_nodes-proper history range node_order' n_fair')
        (get_nodes-IsTelling history range node_order n_fair) in
    let edges =
      sorts-agree NetworkEdge_set IsProperEdge edge_less (sort_edges edge_less)
        (sort_edges' edge_less) (get_edges edge_order g) (get_edges edge_order' g) e_sorts e_sorts'
        (Permᴰ.map (λ (t : Bytes × NetworkEdge). t.1)
          (Permᴰ.trans (e_fair g.edges) (Permᴰ.symm (e_fair' g.edges))))
        (get_edges-proper history range edge_order e_fair)
        (get_edges-proper history range edge_order' e_fair')
        (get_edges-IsTelling history range edge_order e_fair) in
    rw (written, print_graph, nodes, edges)
