-- ===== src/Rpc/Routes.antt =====
-- The route service over the graph that the peer has collected.
use mathlib.Core.List.{Memᴰ}
use mathlib.Core.List.Memᴰ
use file_sharing_system_with.Prelude.{
  ℕ, ◌*◌, ◌≤◌, ◌^◌, ◌<◌, ◌≡◌, ◌≢◌, some, List, [], ◌∷◌, map, Bytes, bytes_eq, bytes_beq, Bool-cases,
  inl, inr, nat_eq, nat_beq_iff, arith, length, ◌==◌, if◌then◌else◌, ap, sym, subst, ◌∙◌, All,
  All-intro, Permᴰ-Memᴰ, Permᴰ-length, length-map,
}
use file_sharing_system_with.Word.{Int32, minus_one32, max_int64}
use file_sharing_system_with.GoMap.{lookup}
use file_sharing_system_with.GoMap.Range.{Range, IsRanging}
use file_sharing_system_with.GoMap.Laws.{lookup-insert}
use file_sharing_system_with.GoMap.Unique.{mem→lookup}
use file_sharing_system_with.Routing.Types.{GraphNode, GraphEdge, Graph, Route}
use file_sharing_system_with.Routing.Walks.{IsNode, Walk, IsRoutable}
use file_sharing_system_with.Routing.Dijkstra.{Outcome, ok, err, no_path}
use file_sharing_system_with.Routing.Dijkstra.Loop.{IsOrder}
use file_sharing_system_with.Routing.Router
use file_sharing_system_with.Routing.Router.{Moments}
use file_sharing_system_with.Routing.Router.Sound.{IsAnswer, answered, none_there}
use file_sharing_system_with.Routing.Router.Recent.{
  Call, IsRecent, Called, asked, calculate_route-IsRecent,
}
use file_sharing_system_with.Peer.Network.{
  NetworkNode, NetworkEdge, add_node, add_edge, edge_key, as_graph_node, as_graph_edge,
  get_node_list, get_edge_list, as_graph,
}
use file_sharing_system_with.Peer.Network.History.{
  Change, node, edge, make_change, after, latest_node, after-IsUnique,
}
use file_sharing_system_with.Peer.Network.Snapshots.{
  written_node, latest_node-id, get_node_list-exact,
}
use file_sharing_system_with.Peer.Node.{PeerNode}
use file_sharing_system_with.Rpc.{RouteResponse, route_response, route_outcome, calculate_route}

-- A right reply: a walk of least latency, or the error where there is no walk.
pub data IsReply (g : Graph) (from to : Int32) : Outcome RouteResponse → Type 0 where
  replied :
      {r : RouteResponse}
      → Walk g from to r.total_latency_ms r.path
      → ((k : ℕ) (path : List Int32) → Walk g from to k path → r.total_latency_ms ≤ k)
      → IsReply g from to (ok r)
  no_route :
      ((k : ℕ) (path : List Int32) → ¬ Walk g from to k path)
      → IsReply g from to (err (no_path from to))

route_outcome-IsReply :
    (g : Graph) (from to : Int32) (o : Outcome Route)
    → IsAnswer g from to o
    → IsReply g from to (route_outcome o)
unfolding route_outcome route_response
route_outcome-IsReply g from to o (answered s) = replied s.walk s.least
route_outcome-IsReply g from to o (none_there no_walk) = no_route no_walk

-- No change names the peer -1, and no latency is above `w`.
abbrev pub IsUsable : ℕ → Change → Type 0
IsUsable w (node now id address) = id ≢ minus_one32
IsUsable w (edge from to latency) = latency ≤ w

latest_node-proper :
    (w k : ℕ) (n : NetworkNode) (history : List Change)
    → All (IsUsable w) history
    → latest_node k history ≡ some n
    → k ≢ minus_one32
unfolding latest_node
latest_node-proper w k n [] u h = cc
latest_node-proper w k n (node now id address ∷ history) u h = λ e. elim (Bool-cases (id == k)) [
  | inl hit ↦ u.0 ((nat_beq_iff id k).0 hit ∙ e)
  | inr miss ↦
      latest_node-proper w k n history u.1
        (ap
            (λ b.
              if b
              then some (record { id = id; address = address; last_seen = now })
              else latest_node k history)
            (sym miss)
          ∙ h)
        e
]
latest_node-proper w k n (edge from to latency ∷ history) u h =
    latest_node-proper w k n history u.1 h

after-light :
    (w : ℕ) (k : Bytes) (e : NetworkEdge) (history : List Change)
    → All (IsUsable w) history
    → lookup k (after history).edges ≡ some e
    → e.latency_ms ≤ w
unfolding after make_change add_node add_edge lookup
after-light w k e [] u h = cc
after-light w k e (node now id address ∷ history) u h = after-light w k e history u.1 h
after-light w k e (edge from to latency ∷ history) u h =
    let new : NetworkEdge = record { from = from; to = to; latency_ms = latency } in
    let read = lookup-insert (edge_key from to) k new (after history).edges in
    elim (Bool-cases (bytes_beq (edge_key from to) k)) [
      | inl hit ↦
          let same : new ≡ e = ground (arith, read) in
          subst (λ (x : NetworkEdge). x.latency_ms ≤ w) same u.0
      | inr miss ↦ after-light w k e history u.1 (ground (arith, read))
    ]

-- The graph that the router reads after some changes.
abbrev pub graph_after : Range Int32 NetworkNode → Range Bytes NetworkEdge → List Change → Graph
graph_after node_order edge_order history = as_graph node_order edge_order (after history)

module _ (node_order : Range Int32 NetworkNode) (edge_order : Range Bytes NetworkEdge)
    (fair_nodes : IsRanging node_order) (fair_edges : IsRanging edge_order)
    (history : List Change) where
  pub graph_after-IsNode :
      (k : Int32) (n : NetworkNode)
      → latest_node k history ≡ some n
      → IsNode (graph_after node_order edge_order history) k
  unfolding as_graph
  graph_after-IsNode k n h =
      let gn : GraphNode = record { id = n.id; address = n.address; last_seen = n.last_seen } in
      let id = latest_node-id k n history h in
      let m =
        (get_node_list-exact node_order edge_order fair_nodes fair_edges history gn).1
          (subst (λ x. latest_node x history ≡ some n) (sym id) h) in
      subst (λ x. Memᴰ x (map (λ g. g.id) (get_node_list node_order (after history)))) id
        (Memᴰ.map (λ (g : GraphNode). g.id) m)

  pub graph_after-IsRoutable :
      (w : ℕ)
      → All (IsUsable w) history
      → length (after history).nodes * w < max_int64
      → IsRoutable (graph_after node_order edge_order history) w
  unfolding as_graph get_edge_list get_node_list
  graph_after-IsRoutable w usable room = record {
    proper = λ v m.
        let (g, mg, e) =
          Memᴰ.of_map (λ (g : GraphNode). g.id) (get_node_list node_order (after history)) m in
        let latest =
          (get_node_list-exact node_order edge_order fair_nodes fair_edges history g).0 mg in
        subst (λ x. x ≢ minus_one32) e
          (latest_node-proper w g.id (written_node g) history usable latest);
    light =
        All-intro (λ (e : GraphEdge). e.latency_ms ≤ w) (get_edge_list edge_order (after history))
          (λ e m.
            let edges = (after history).edges in
            let ((k, v), entry, same) = Memᴰ.of_map as_graph_edge (edge_order edges) m in
            let found =
              mem→lookup k v edges (after-IsUnique history).1
                (Permᴰ-Memᴰ (k, v) (fair_edges edges) entry) in
            subst (λ (x : GraphEdge). x.latency_ms ≤ w) same
              (after-light w k v history usable found));
    room =
        let size : length (get_node_list node_order (after history))
            ≡ length (after history).nodes =
          length-map as_graph_node (node_order (after history).nodes)
          ∙ Permᴰ-length (fair_nodes (after history).nodes) in
        rw size room;
  }

  -- A peer whose graph is what some changes made of it, with a router after some calls, each over the
  -- graph of its own time: for two nodes of the graph, `CalculateRoute` replies with a walk of least
  -- latency, or with the error where there is no walk, either in the present graph or in the graph of a
  -- call at most an hour before, since the cache was last cleared. All identifiers are of 32 bits and
  -- none is -1, latencies of at most `w` cannot add up to 2 ^ 63 - 1, and the clock does not go back
  -- during the call. The router that it leaves is again one after such calls.
  pub calculate_route-IsReply :
      {C : Type 0} (calls : List Call) (order : ℕ → List Int32 → List Int32) (w : ℕ)
      (from to : Int32) (at_from at_to : NetworkNode) (t : Moments) (p : PeerNode C)
      → IsOrder order
      → All (IsUsable w) history
      → length (after history).nodes * w < max_int64
      → latest_node from history ≡ some at_from
      → latest_node to history ≡ some at_to
      → from < 2 ^ 32
      → to < 2 ^ 32
      → t.looked_up ≤ t.stored
      → p.graph ≡ after history
      → Called calls p.router
      → let now : Call = (t.stored, graph_after node_order edge_order history) in
        let (reply, p') = calculate_route order node_order edge_order from to t p in
        IsRecent (now ∷ calls) t.looked_up (λ g. IsReply g from to reply)
        × Called (now ∷ calls) p'.router
  unfolding calculate_route
  calculate_route-IsReply calls order w from to at_from at_to t p fair usable room known_from
        known_to hf ht clock same called =
      let g = graph_after node_order edge_order history in
      let nf = graph_after-IsNode from at_from known_from in
      let nt = graph_after-IsNode to at_to known_to in
      let routable = graph_after-IsRoutable w usable room in
      let (c, m, live, answer) =
        calculate_route-IsRecent calls p.router order g from to t w called fair routable nf nt hf ht
          clock in
      let asked_now = asked order g from to t w fair routable nf nt hf ht clock called in
      subst
        (λ x.
          IsRecent ((t.stored, g) ∷ calls) t.looked_up (λ y. IsReply y from to (
            route_outcome
              (Router.calculate_route order (as_graph node_order edge_order x) from to t
                p.router).0))
          × Called ((t.stored, g) ∷ calls)
              (Router.calculate_route order (as_graph node_order edge_order x) from to t
                p.router).1)
        (sym same) ((c, m, live, route_outcome-IsReply c.1 from to _ answer), asked_now)
