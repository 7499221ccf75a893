-- ===== src/Peer/Connect.antt =====
-- internal/peer/peer.go: `ConnectToPeers`, with its goroutines. A goroutine acts on the node in up to
-- three steps, each under a lock of its own; a run is an interleaving of their steps.
pub mod Threads
pub mod Views
pub mod Spawn
pub mod Final
mod Tests
use file_sharing_system_with.Prelude.{
  ℕ, ◌≡◌, Option, none, some, List, [], ◌∷◌, Bytes, get_or, set, nat_eq, ◌==◌, if◌then◌else◌,
}
use file_sharing_system_with.Word.{Int32, Int64}
use file_sharing_system_with.GoMap.{insert}
use file_sharing_system_with.Routing.Types.{Time}
use file_sharing_system_with.Bootstrap.{PeerInfo}
use file_sharing_system_with.Peer.Network.{add_node, add_edge}
use file_sharing_system_with.Peer.Node.{PeerNode, measure_latency}

-- What the network answers to a goroutine, and when it adds the node.
pub record Contact (C : Type 0) : Type 0 where
  pub dialled : Option C
  pub ping : ℕ → Option Int64
  pub now : Time

pub data Action (C : Type 0) : Type 0 where
  store_connection : Int32 → C → Action C
  write_node : Time → Int32 → Bytes → Action C
  write_edge : Int32 → Int64 → Action C

module _ {C : Type 0} where
  -- An edge is written from the peer itself.
  unfoldable pub act : Action C → PeerNode C → PeerNode C
  act (store_connection id conn) p = record p { connections = insert id conn p.connections }
  act (write_node now id address) p = record p { graph = add_node now id address p.graph }
  act (write_edge to latency) p = record p { graph = add_edge p.id to latency p.graph }

  -- From the connection and the latency, on which the goroutine returns early.
  pub steps : PeerInfo → Time → Option C → Option Int64 → List (Action C)
  steps info now none latency = []
  steps info now (some conn) none =
      store_connection info.peer_id conn ∷ write_node now info.peer_id info.address ∷ []
  steps info now (some conn) (some latency) =
      store_connection info.peer_id conn
      ∷ write_node now info.peer_id info.address
      ∷ write_edge info.peer_id latency
      ∷ []

  pub goroutine : PeerInfo → Contact C → List (Action C)
  goroutine info c = steps info c.now c.dialled (measure_latency c.ping)

  -- One goroutine for each peer that is not the node itself.
  pub spawn : Int32 → List (PeerInfo × Contact C) → List (List (Action C))
  spawn self [] = []
  spawn self ((info, c) ∷ peers) =
      let rest = spawn self peers in if info.peer_id == self then rest else goroutine info c ∷ rest

  -- The steps of a run, in their order.
  pub run : List (Action C) → PeerNode C → PeerNode C
  run [] p = p
  run (a ∷ trace) p = run trace (act a p)

-- The traces that some goroutines can leave: at each point any of them goes on, and at the end, when
-- the wait group is empty, all are finished.
pub data Interleave {C : Type 0} : List (List (Action C)) → List (Action C) → Type 0 where
  finished :
      (threads : List (List (Action C)))
      → ((n : ℕ) → get_or threads n [] ≡ [])
      → Interleave threads []
  goes_on :
      (threads : List (List (Action C))) (n : ℕ) (a : Action C) (rest trace : List (Action C))
      → get_or threads n [] ≡ a ∷ rest
      → Interleave (set threads n rest) trace
      → Interleave threads (a ∷ trace)

-- The nodes that `ConnectToPeers` can leave.
pub ConnectToPeers : {C : Type 0} → List (PeerInfo × Contact C) → PeerNode C → PeerNode C → Type 0
ConnectToPeers {C = C} peers p p' =
    (trace : List (Action C)) × Interleave (spawn p.id peers) trace × (p' ≡ run trace p)
