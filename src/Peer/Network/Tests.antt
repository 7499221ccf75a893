-- ===== src/Peer/Network/Tests.antt =====
-- A peer that has registered itself and another peer, and has measured the latency to it twice.
use mathlib.Core.List.{Memᴰ}
use mathlib.Core.List.Permᴰ
use file_sharing_system_with.Prelude.{◌≡◌, ◌↔◌, some, List, [], ◌∷◌, arith}
use file_sharing_system_with.Routing.Types.{GraphNode, GraphEdge}
use file_sharing_system_with.Peer.Network.{get_node_list, get_edge_list}
use file_sharing_system_with.Peer.Network.History.{
  Change, node, edge, after, latest_node, latest_edge,
}
use file_sharing_system_with.Peer.Network.Snapshots.{
  written_node, written_edge, get_node_list-exact, get_edge_list-exact,
}

abbrev history : List Change
history = edge 1 2 7 ∷ node 40 2 (b'p' ∷ []) ∷ edge 1 2 9 ∷ node 30 1 (b'q' ∷ []) ∷ []

abbrev seen : GraphNode
seen = record { id = 2; address = b'p' ∷ []; last_seen = 40 }

get_node_list-exact_example :
    Memᴰ seen (get_node_list (λ m. m) (after history))
    ↔ (latest_node 2 history ≡ some (written_node seen))
get_node_list-exact_example =
    get_node_list-exact (λ m. m) (λ m. m) (λ m. Permᴰ.refl m) (λ m. Permᴰ.refl m) history seen

abbrev measured : GraphEdge
measured = record { from = 1; to = 2; latency_ms = 7 }

get_edge_list-exact_example :
    Memᴰ measured (get_edge_list (λ m. m) (after history))
    ↔ (latest_edge 1 2 history ≡ some (written_edge measured))
get_edge_list-exact_example =
    get_edge_list-exact (λ m. m) (λ m. m) (λ m. Permᴰ.refl m) (λ m. Permᴰ.refl m) history measured
      ((omega arith, omega arith), (omega arith, ((omega arith, omega arith), (omega arith, tt))))
      (omega arith) (omega arith)
