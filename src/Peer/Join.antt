-- ===== src/Peer/Join.antt =====
-- cmd/peer/main.go: what the command does between its start and the signal that ends it. It registers,
-- connects to the peers that the server knows, and routes to the one with the highest identifier.
pub mod Joined
pub mod Target
pub mod First
mod Tests
use file_sharing_system_with.Prelude.{
  ℕ, ◌≡◌, Bytes, length, ltb, Bool, true, false, not, ◌&&◌, Option, none, some, List, [], ◌∷◌, map,
  nat_eq, ◌==◌, if◌then◌else◌,
}
use file_sharing_system_with.Word.{Int32, slt32}
use file_sharing_system_with.Bootstrap.{PeerInfo}
use file_sharing_system_with.GoMap.Range.{Range}
use file_sharing_system_with.Routing.Types.{Route}
use file_sharing_system_with.Routing.Dijkstra.{Outcome}
use file_sharing_system_with.Routing.Router.{Moments}
use file_sharing_system_with.Peer.Network.{NetworkNode, NetworkEdge, get_nodes}
use file_sharing_system_with.Peer.Node.{PeerNode, calculate_route}
use file_sharing_system_with.Peer.Connect.{Contact, ConnectToPeers}

-- The nodes that registering and connecting can leave, from the result of `RegisterWithBootstrap`; an
-- error ends the program.
pub Joins :
    {C : Type 0}
    → (PeerInfo → Contact C)
    → Option (List PeerInfo) × PeerNode C
    → PeerNode C
    → Type 0
Joins contact (none, p) p' = true ≡ false
Joins contact (some [], p) p' = p' ≡ p
Joins contact (some (info ∷ peers), p) p' =
    ConnectToPeers (map (λ q. (q, contact q)) (info ∷ peers)) p p'

-- The loop that picks the target of the route, over the nodes in some order.
pub target_loop : Int32 → List NetworkNode → Int32 → Int32
target_loop self [] target_id = target_id
target_loop self (n ∷ nodes) target_id =
    target_loop self nodes (if not (n.id == self) && slt32 target_id n.id then n.id else target_id)

-- The target of the first route, if there is one: there are at least two nodes, and it is positive.
pub pick_target : Int32 → List NetworkNode → Option Int32
pick_target self nodes =
    let target_id = target_loop self nodes 0 in
    if ltb 1 (length nodes) then (if slt32 0 target_id then some target_id else none) else none

-- The first route, and its target; the nodes are visited in the order `visit`.
pub first_route :
    {C : Type 0}
    → (ℕ → List Int32 → List Int32)
    → Range Int32 NetworkNode
    → Range Int32 NetworkNode
    → Range Bytes NetworkEdge
    → Moments
    → PeerNode C
    → Option (Int32 × Outcome Route) × PeerNode C
first_route order visit node_order edge_order t p =
    elim (pick_target p.id (get_nodes visit p.graph)) [
      | none ↦ (none, p)
      | some target_id ↦
          let (outcome, p') = calculate_route order node_order edge_order target_id t p in
          (some (target_id, outcome), p')
    ]
