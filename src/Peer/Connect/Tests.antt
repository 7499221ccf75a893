-- ===== src/Peer/Connect/Tests.antt =====
-- A run of two goroutines that take turns, and the theorems at it.
use mathlib.Core.List.{Memᴰ}
use file_sharing_system_with.Prelude.{
  ℕ, zero, suc, ◌*◌, ◌^◌, ◌≡◌, refl, Option, none, some, List, [], ◌∷◌, get_or, arith, sym, subst,
}
use file_sharing_system_with.Word.{Int32, Int64, div64, add64}
use file_sharing_system_with.Bootstrap.{PeerInfo}
use file_sharing_system_with.Routing.Router.{new_dijkstra_router}
use file_sharing_system_with.Peer.Network.{new_network_graph}
use file_sharing_system_with.Peer.Node.{
  PeerNode, measure_latency, ping_loop, milliseconds, average_latency,
}
use file_sharing_system_with.Peer.Connect.{
  Contact, Action, store_connection, write_node, write_edge, goroutine, steps, spawn, run,
  Interleave, finished, goes_on, ConnectToPeers,
}
use file_sharing_system_with.Peer.Connect.Views.{view}
use file_sharing_system_with.Peer.Connect.Spawn.{Distinct}
use file_sharing_system_with.Peer.Connect.Final.{InRange, contacted, ConnectToPeers-contacted}

abbrev me : PeerNode ℕ
me = record {
  id = 1;
  port = 5_001;
  address = [];
  bootstrap_addr = [];
  graph = new_network_graph;
  router = new_dijkstra_router;
  storage = record {
    store = record { base_dir = []; files = []; chunks = [] };
    bloom = record { bit_array = 0 ∷ []; num_bits = 8; num_hashes = 1; item_count = 0 };
    peer_id = 1;
  };
  connections = [];
}

abbrev info : Int32 → PeerInfo
info id = record { peer_id = id; address = b'p' ∷ []; last_seen = 5 }

abbrev pings : ℕ → Option Int64
pings i = some (12 * 10 ^ 6)

abbrev lost : ℕ → Option Int64
lost zero = some 7
lost (suc i) = none

abbrev near : Contact ℕ
near = record { dialled = some 70; ping = pings; now = 40 }

abbrev far : Contact ℕ
far = record { dialled = some 80; ping = lost; now = 41 }

abbrev peers : List (PeerInfo × Contact ℕ)
peers = (info 2, near) ∷ (info 1, near) ∷ (info 3, far) ∷ []

abbrev trace : List (Action ℕ)
trace =
    store_connection 2 70
    ∷ store_connection 3 80
    ∷ write_node 40 2 (b'p' ∷ [])
    ∷ write_node 41 3 (b'p' ∷ [])
    ∷ write_edge 2 12
    ∷ []

abbrev threads : List (List (Action ℕ))
threads =
    (store_connection 2 70 ∷ write_node 40 2 (b'p' ∷ []) ∷ write_edge 2 12 ∷ [])
    ∷ (store_connection 3 80 ∷ write_node 41 3 (b'p' ∷ []) ∷ [])
    ∷ []

spawned : spawn 1 peers ≡ threads
unfolding spawn goroutine steps measure_latency ping_loop milliseconds average_latency div64 add64
spawned = refl

all_finished : (n : ℕ) → get_or {A = List (Action ℕ)} ([] ∷ [] ∷ []) n [] ≡ []
all_finished zero = refl
all_finished (suc zero) = refl
all_finished (suc (suc n)) = refl

turns : Interleave threads trace
turns = goes_on _ 0 _ _ _ refl (
    goes_on _ 1 _ _ _ refl (
      goes_on _ 0 _ _ _ refl
        (goes_on _ 1 _ _ _ refl (goes_on _ 0 _ _ _ refl (finished _ all_finished)))))

connected : ConnectToPeers peers me (run trace me)
unfolding ConnectToPeers
connected = (trace, subst (λ ts. Interleave ts trace) (sym spawned) turns, refl)

peers-InRange : InRange peers
peers-InRange = (omega arith, (omega arith, (omega arith, tt)))

peers-Distinct : Distinct peers
peers-Distinct = (
  ((λ e. absurd (omega arith)), ((λ e. absurd (omega arith)), tt)),
  (((λ e. absurd (omega arith)), tt), (tt, tt)),
)

ConnectToPeers-contacted_example :
    view 3 (run trace me)
    ≡ contacted 1 (info 3) far.now far.dialled (measure_latency far.ping) (view 3 me)
ConnectToPeers-contacted_example =
    ConnectToPeers-contacted peers me (run trace me) (omega arith) peers-InRange connected
      peers-Distinct (info 3) far (Memᴰ.tail (Memᴰ.tail (Memᴰ.head refl)))
      (λ e. absurd (omega arith))
