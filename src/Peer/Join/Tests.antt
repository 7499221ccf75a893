-- ===== src/Peer/Join/Tests.antt =====
-- A run of the choice of a target, and the theorems at a concrete network.
use mathlib.Core.List.{Memᴰ}
use mathlib.Core.List.Permᴰ
use file_sharing_system_with.Prelude.{
  ℕ, ◌*◌, ◌-◌, ◌^◌, ◌≡◌, refl, true, none, some, length, List, [], ◌∷◌, arith,
}
use file_sharing_system_with.Word.{Int32, slt32}
use file_sharing_system_with.GoMap.{insert}
use file_sharing_system_with.Routing.Types.{unix}
use file_sharing_system_with.Bootstrap.{
  PeerInfo, register_peer, get_random_peers, candidates, store_peer,
}
use file_sharing_system_with.Bootstrap.Registry.{Registration, registry, latest_info}
use file_sharing_system_with.Peer.Network.{NetworkNode, get_nodes, add_node, add_edge}
use file_sharing_system_with.Peer.Node.{
  PeerNode, make_node, measure_latency, register_with_bootstrap,
}
use file_sharing_system_with.Peer.Connect.{Contact}
use file_sharing_system_with.Peer.Connect.Views.{view}
use file_sharing_system_with.Peer.Connect.Final.{contacted, ConnectToPeers-returns}
use file_sharing_system_with.Peer.Join.{Joins, target_loop, pick_target, first_route}
use file_sharing_system_with.Peer.Join.First.{IsFirst, first_route-IsFirst}
use file_sharing_system_with.Peer.Network.History.{
  Change, node, edge, after, make_change, latest_node,
}
use file_sharing_system_with.Routing.Router.{Moments}
use file_sharing_system_with.Routing.Router.Recent.{fresh}
use file_sharing_system_with.Rpc.Routes.{graph_after}
use file_sharing_system_with.Peer.Join.Joined.{answer, Joins-contacted}
use file_sharing_system_with.Samples.{manager}

abbrev seen : Int32 → NetworkNode
seen id = record { id = id; address = []; last_seen = 0 }

picks : pick_target 9 (seen 4 ∷ seen 9 ∷ seen 7 ∷ seen (2 ^ 32 - 1) ∷ []) ≡ some 7
unfolding pick_target target_loop slt32
picks = refl

-- A node alone picks no target, nor does one that knows only 0 and negative identifiers.
picks_none :
    (pick_target 9 (seen 9 ∷ []) ≡ none)
    × (pick_target 9 (seen 9 ∷ seen 0 ∷ seen (2 ^ 32 - 1) ∷ []) ≡ none)
unfolding pick_target target_loop slt32
picks_none = (refl, refl)

abbrev me : PeerNode ℕ
me = make_node 9 9_009 [] manager

abbrev history : List Registration
history = record { time = 5 * 10 ^ 9; id = 7; address = b'p' ∷ [] } ∷ []

abbrev known : PeerInfo
known = record { peer_id = 7; address = b'p' ∷ []; last_seen = 5 }

abbrev contact : PeerInfo → Contact ℕ
contact info = record { dialled = some 70; ping = λ i. some (12 * 10 ^ 6); now = 40 }

joined :
    (p' : PeerNode ℕ) × Joins contact
      (register_with_bootstrap true (some (answer (λ m. m) (λ ps. ps) 60 history me)) 61 me)
      p'
unfolding Joins register_with_bootstrap register_peer get_random_peers candidates store_peer insert
    registry unix make_node
joined =
    let (p', connects, _) =
      ConnectToPeers-returns ((known, contact known) ∷ [])
        (register_with_bootstrap true (some (record { success = true; peers = known ∷ [] })) 61
          me).1 in
    (p', connects)

answered : Memᴰ known (answer (λ m. m) (λ ps. ps) 60 history me).peers
unfolding register_peer get_random_peers candidates store_peer insert registry unix make_node
answered = Memᴰ.head refl

Joins-contacted_example :
    (latest_info 7 history ≡ some known)
    × (view 7 joined.0
        ≡ contacted me.id known 40 (some 70) (measure_latency (contact known).ping) (view 7 me))
unfolding make_node
Joins-contacted_example =
    Joins-contacted contact (λ m. m) (λ m. Permᴰ.refl m) (λ ps. ps) (λ ps. Permᴰ.refl ps) 60 61
      history me joined.0 (omega arith) (omega arith, tt) joined.1 known answered

-- The command at peer 9, which knows 7 by a measured edge, and 2 ^ 32 - 4, which is negative.
abbrev changes : List Change
changes = edge 9 7 12 ∷ node 42 (2 ^ 32 - 4) [] ∷ node 41 7 [] ∷ node 40 9 [] ∷ []

changes-size : length (after changes).nodes ≡ 3
unfolding after make_change add_node add_edge insert
changes-size = refl

abbrev ready : PeerNode ℕ
ready = record me { graph = after changes }

abbrev moments : Moments
moments = record { looked_up = 50; created = 51; stored = 52 }

first_route-IsFirst_example :
    IsFirst 9
      (get_nodes (λ m. m) (after changes))
      ((52, graph_after (λ m. m) (λ m. m) changes) ∷ [])
      50
      (first_route (λ r ks. ks) (λ m. m) (λ m. m) (λ m. m) moments ready).0
unfolding latest_node make_node
first_route-IsFirst_example =
    first_route-IsFirst (λ m. m) (λ m. m) (λ m. m) (λ m. Permᴰ.refl m) (λ m. Permᴰ.refl m)
      (λ m. Permᴰ.refl m) changes
      ((omega arith, omega arith), (omega arith, (omega arith, (omega arith, tt)))) [] (λ r ks. ks)
      12 (record { id = 9; address = []; last_seen = 40 }) moments ready
      (λ r ks k. (λ m. m, λ m. m))
      (
        omega arith,
        (
          (λ e. absurd (omega arith)),
          ((λ e. absurd (omega arith)), ((λ e. absurd (omega arith)), tt)),
        ),
      )
      (omega (arith, changes-size)) refl (omega arith) (omega arith) refl fresh
