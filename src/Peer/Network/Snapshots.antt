-- ===== src/Peer/Network/Snapshots.antt =====
-- The snapshots that the router reads hold exactly the latest write for each peer and each pair.
use mathlib.Core.List.{Memᴰ}
use mathlib.Core.List.Memᴰ
use mathlib.Core.List.Permᴰ
use file_sharing_system_with.Prelude.{
  ◌^◌, ◌<◌, ◌≡◌, ◌↔◌, some, List, [], ◌∷◌, Bytes, bytes_eq, bytes_beq, bytes_beq_iff, nat_eq, arith,
  sym, subst, ◌∙◌, All, Bool-cases, inl, inr, Permᴰ-Memᴰ,
}
use file_sharing_system_with.Word.{Int32}
use file_sharing_system_with.GoMap.{lookup}
use file_sharing_system_with.GoMap.Range.{Range, IsRanging}
use file_sharing_system_with.GoMap.Laws.{lookup-insert}
use file_sharing_system_with.GoMap.Unique.{lookup→mem, mem→lookup}
use file_sharing_system_with.Routing.Types.{GraphNode, GraphEdge}
use file_sharing_system_with.Peer.Network.{
  NetworkNode, NetworkEdge, add_node, add_edge, edge_key, as_graph_node, as_graph_edge,
  get_node_list, get_edge_list,
}
use file_sharing_system_with.Peer.Network.History.{
  Change, node, edge, make_change, after, InRange, latest_node, latest_edge, lookup-after_nodes,
  lookup-after_edges, after-IsUnique,
}

-- What `AddNode` and `AddEdge` wrote, of an entry of a snapshot.
abbrev pub written_node : GraphNode → NetworkNode
written_node n = record { id = n.id; address = n.address; last_seen = n.last_seen }

abbrev pub written_edge : GraphEdge → NetworkEdge
written_edge e = record { from = e.from; to = e.to; latency_ms = e.latency_ms }

pub latest_node-id :
    (k : Int32) (n : NetworkNode) (history : List Change)
    → latest_node k history ≡ some n
    → n.id ≡ k
unfolding latest_node
latest_node-id k n [] h = cc
latest_node-id k n (node now id address ∷ history) h = ground (arith, latest_node-id k n history)
latest_node-id k n (edge from to latency ∷ history) h = latest_node-id k n history h

-- Every edge stands under its own key.
pub after-edge_key :
    (k : Bytes) (e : NetworkEdge) (history : List Change)
    → All InRange history
    → lookup k (after history).edges ≡ some e
    → (k ≡ edge_key e.from e.to) × (e.from < 2 ^ 32) × (e.to < 2 ^ 32)
unfolding after make_change add_node add_edge lookup
after-edge_key k e [] r h = cc
after-edge_key k e (node now id address ∷ history) r h = after-edge_key k e history r.1 h
after-edge_key k e (edge from to latency ∷ history) r h =
    let new : NetworkEdge = record { from = from; to = to; latency_ms = latency } in
    let read = lookup-insert (edge_key from to) k new (after history).edges in
    elim (Bool-cases (bytes_beq (edge_key from to) k)) [
      | inl hit ↦
          let key = (bytes_beq_iff (edge_key from to) k).0 hit in
          let same : new ≡ e = ground (arith, read) in
          subst
            (λ (x : NetworkEdge). (k ≡ edge_key x.from x.to) × (x.from < 2 ^ 32) × (x.to < 2 ^ 32))
            same (sym key, r.0.0, r.0.1)
      | inr miss ↦ after-edge_key k e history r.1 (ground (arith, read))
    ]

module _ (node_order : Range Int32 NetworkNode) (edge_order : Range Bytes NetworkEdge)
    (fair_nodes : IsRanging node_order) (fair_edges : IsRanging edge_order)
    (history : List Change) where
  -- After any history of `AddNode` and `AddEdge` calls, in whatever order the map is visited, the node
  -- list has exactly the nodes that were written last for their identifiers.
  pub get_node_list-exact :
      (n : GraphNode)
      → Memᴰ n (get_node_list node_order (after history))
        ↔ (latest_node n.id history ≡ some (written_node n))
  unfolding get_node_list
  get_node_list-exact n =
      let m = (after history).nodes in
      let (unique, _) = after-IsUnique history in
      (
        λ h.
            let ((k, v), entry, e) = Memᴰ.of_map as_graph_node (node_order m) h in
            let found = mem→lookup k v m unique (Permᴰ-Memᴰ (k, v) (fair_nodes m) entry) in
            let latest = sym (lookup-after_nodes k history) ∙ found in
            let id = latest_node-id k v history latest in
            subst (λ (x : GraphNode). latest_node x.id history ≡ some (written_node x)) e
              (subst (λ x. latest_node x history ≡ some v) (sym id) latest),
        λ h.
            let found = lookup-after_nodes n.id history ∙ h in
            let entry = lookup→mem n.id (written_node n) m found in
            Memᴰ.map as_graph_node
              (Permᴰ-Memᴰ (n.id, written_node n) (Permᴰ.symm (fair_nodes m)) entry),
      )

  -- After any history of calls with 32-bit identifiers, in whatever order the map is visited, the edge
  -- list has exactly the edges that were written last for their pairs of peers.
  pub get_edge_list-exact :
      (e : GraphEdge)
      → All InRange history
      → e.from < 2 ^ 32
      → e.to < 2 ^ 32
      → Memᴰ e (get_edge_list edge_order (after history))
        ↔ (latest_edge e.from e.to history ≡ some (written_edge e))
  unfolding get_edge_list
  get_edge_list-exact e range hf ht =
      let m = (after history).edges in
      let (_, unique) = after-IsUnique history in
      (
        λ h.
            let ((k, v), entry, same) = Memᴰ.of_map as_graph_edge (edge_order m) h in
            let found = mem→lookup k v m unique (Permᴰ-Memᴰ (k, v) (fair_edges m) entry) in
            let (key, vf, vt) = after-edge_key k v history range found in
            let latest =
              sym (lookup-after_edges v.from v.to history vf vt range)
              ∙ subst (λ x. lookup x m ≡ some v) key found in
            subst (λ (x : GraphEdge). latest_edge x.from x.to history ≡ some (written_edge x)) same
              latest,
        λ h.
            let found = lookup-after_edges e.from e.to history hf ht range ∙ h in
            let entry = lookup→mem (edge_key e.from e.to) (written_edge e) m found in
            Memᴰ.map as_graph_edge
              (Permᴰ-Memᴰ (edge_key e.from e.to, written_edge e) (Permᴰ.symm (fair_edges m)) entry),
      )
