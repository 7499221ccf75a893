-- ===== src/Peer/Join/First.antt =====
-- cmd/peer/main.go: the route that the command asks for at its start.
use file_sharing_system_with.Prelude.{
  ℕ, ◌*◌, ◌^◌, ◌≤◌, ◌<◌, ◌≡◌, Option, none, some, List, ◌∷◌, Bytes, length, All, arith, sym, subst,
  ap, ◌∙◌, inl, inr, Option-cases,
}
use file_sharing_system_with.Word.{Int32, max_int64}
use file_sharing_system_with.GoMap.Range.{Range, IsRanging}
use file_sharing_system_with.Routing.Types.{Time, Route}
use file_sharing_system_with.Routing.Dijkstra.{Outcome}
use file_sharing_system_with.Routing.Dijkstra.Loop.{IsOrder}
use file_sharing_system_with.Routing.Router
use file_sharing_system_with.Routing.Router.{Moments}
use file_sharing_system_with.Routing.Walks.{IsNode}
use file_sharing_system_with.Routing.Router.Sound.{IsAnswer}
use file_sharing_system_with.Routing.Router.Recent.{
  Call, IsRecent, Called, calculate_route-IsRecent,
}
use file_sharing_system_with.Peer.Network.{NetworkNode, NetworkEdge, as_graph, get_nodes}
use file_sharing_system_with.Peer.Network.History.{
  Change, after, InRange, latest_node, lookup-after_nodes,
}
use file_sharing_system_with.Peer.Node.{PeerNode, calculate_route}
use file_sharing_system_with.Peer.Print.Same.{get_nodes-lookup, get_nodes-proper}
use file_sharing_system_with.Peer.Join.{pick_target, first_route}
use file_sharing_system_with.Peer.Join.Target.{IsChoice, chosen, pick_target-IsChoice}
use file_sharing_system_with.Rpc.Routes.{
  IsUsable, graph_after, graph_after-IsNode, graph_after-IsRoutable,
}

-- A right first route: none where there is no target, and else to the right target, with an answer that
-- is right in the graph of a recent call.
pub data IsFirst (self : Int32) (nodes : List NetworkNode) (calls : List Call) (now : Time)
    : Option (Int32 × Outcome Route) → Type 0 where
  unrouted : IsChoice self nodes none → IsFirst self nodes calls now none
  routed :
      {target_id : Int32} {outcome : Outcome Route}
      → IsChoice self nodes (some target_id)
      → IsRecent calls now (λ g. IsAnswer g self target_id outcome)
      → IsFirst self nodes calls now (some (target_id, outcome))

module _ (visit node_order : Range Int32 NetworkNode) (edge_order : Range Bytes NetworkEdge)
    (fair_visit : IsRanging visit) (fair_nodes : IsRanging node_order)
    (fair_edges : IsRanging edge_order) (history : List Change) (range : All InRange history) where
  target-IsNode :
      (self target_id : Int32)
      → IsChoice self (get_nodes visit (after history)) (some target_id)
      → IsNode (graph_after node_order edge_order history) target_id × (target_id < 2 ^ 32)
  target-IsNode self target_id (chosen many above small (n, m, other, at) high) =
      let (found, _) = get_nodes-lookup history range visit fair_visit n m in
      let latest = sym (lookup-after_nodes n.id history) ∙ found in
      (
        subst (λ k. IsNode (graph_after node_order edge_order history) k) at
            (graph_after-IsNode node_order edge_order fair_nodes fair_edges history n.id n latest),
        omega arith,
      )

  -- The command, at a node that has registered and whose graph is what some changes with identifiers of
  -- 32 bits made of it, routes to the highest positive identifier of another node, or to none where
  -- there are not two nodes or no other one has a positive identifier. The answer is a shortest route,
  -- or the error where there is no walk, in the present graph or in the graph of a call at most an hour
  -- before, since the cache was last cleared. No identifier is -1, latencies of at most `w` cannot add
  -- up to 2 ^ 63 - 1, and the clock does not go back during the call.
  pub first_route-IsFirst :
      {C : Type 0} (calls : List Call) (order : ℕ → List Int32 → List Int32) (w : ℕ)
      (me : NetworkNode) (t : Moments) (p : PeerNode C)
      → IsOrder order
      → All (IsUsable w) history
      → length (after history).nodes * w < max_int64
      → latest_node p.id history ≡ some me
      → p.id < 2 ^ 32
      → t.looked_up ≤ t.stored
      → p.graph ≡ after history
      → Called calls p.router
      → IsFirst p.id
          (get_nodes visit (after history))
          ((t.stored, graph_after node_order edge_order history) ∷ calls)
          t.looked_up
          (first_route order visit node_order edge_order t p).0
  unfolding first_route calculate_route
  first_route-IsFirst calls order w me t p fair usable room registered hp clock same called =
      let g = graph_after node_order edge_order history in
      let nodes = get_nodes visit (after history) in
      let choice =
        pick_target-IsChoice p.id nodes (get_nodes-proper history range visit fair_visit) in
      let here =
        graph_after-IsNode node_order edge_order fair_nodes fair_edges history p.id me registered in
      let routable =
        graph_after-IsRoutable node_order edge_order fair_nodes fair_edges history w usable room in
      let picked = ap (λ x. pick_target p.id (get_nodes visit x)) same in
      elim (Option-cases (pick_target p.id nodes)) [
        | inl no_target ↦
            rw (picked ∙ no_target, first_route)
              (unrouted (subst (IsChoice p.id nodes) no_target choice))
        | inr (target_id, target) ↦
            let right = subst (IsChoice p.id nodes) target choice in
            let (there, small) = target-IsNode p.id target_id right in
            rw (picked ∙ target, first_route)
              (routed right (
                subst
                  (λ x. IsRecent ((t.stored, g) ∷ calls) t.looked_up (λ y.
                    IsAnswer y p.id target_id
                      (Router.calculate_route order (as_graph node_order edge_order x) p.id
                        target_id t p.router).0))
                  (sym same)
                  (calculate_route-IsRecent calls p.router order g p.id target_id t w called fair
                    routable here there hp small clock)))
      ]
