-- ===== src/Routing/Router/Tests.antt =====
-- The router's theorem at a concrete graph.
use mathlib.Core.List.Memᴰ
use file_sharing_system_with.Prelude.{◌≡◌, ◌*◌, ◌+◌, ◌^◌, refl, [], ◌∷◌, arith}
use file_sharing_system_with.Word.{Int32, minus_one32}
use file_sharing_system_with.Routing.Types.{GraphNode, Graph}
use file_sharing_system_with.Routing.Walks.{IsNode, IsRoutable}
use file_sharing_system_with.Routing.Router.{
  Moments, DijkstraRouter, new_dijkstra_router, calculate_route,
}
use file_sharing_system_with.Routing.Router.Recent.{
  Called, fresh, asked, IsRecent, calculate_route-IsRecent,
}
use file_sharing_system_with.Routing.Router.Sound.{
  IsAnswer, IsSound, calculate_route-IsAnswer, new_dijkstra_router-IsSound,
}

abbrev node : Int32 → GraphNode
node id = record { id = id; address = []; last_seen = 0 }

abbrev line : Graph
line = record {
  get_node_list = node 1 ∷ node 2 ∷ [];
  get_edge_list = record { from = 1; to = 2; latency_ms = 4 } ∷ [];
}

line-IsRoutable : IsRoutable line 4
line-IsRoutable = record { proper = proper; light = omega arith; room = omega arith }
  where
    proper : (v : Int32) → IsNode line v → ¬ (v ≡ minus_one32)
    proper v (Memᴰ.head e) h = omega arith
    proper v (Memᴰ.tail (Memᴰ.head e)) h = omega arith
    proper v (Memᴰ.tail (Memᴰ.tail m)) h = Memᴰ.not-nil m

abbrev moments : Moments
moments = record { looked_up = 1; created = 2; stored = 3 }

calculate_route-IsAnswer_example :
    IsAnswer line 1 2 (calculate_route (λ r ks. ks) line 1 2 moments new_dijkstra_router).0
    × IsSound line (calculate_route (λ r ks. ks) line 1 2 moments new_dijkstra_router).1
calculate_route-IsAnswer_example =
    calculate_route-IsAnswer line 1 2 moments new_dijkstra_router (omega arith) (omega arith)
      (new_dijkstra_router-IsSound line) (λ r ks. ks) 4 (λ r ks k. (λ m. m, λ m. m)) line-IsRoutable
      (Memᴰ.head refl) (Memᴰ.tail (Memᴰ.head refl))

-- The edge has become slower since.
abbrev slower : Graph
slower = record {
  get_node_list = node 1 ∷ node 2 ∷ [];
  get_edge_list = record { from = 1; to = 2; latency_ms = 9 } ∷ [];
}

slower-IsRoutable : IsRoutable slower 9
slower-IsRoutable = record {
  proper = line-IsRoutable.proper;
  light = omega arith;
  room = omega arith;
}

abbrev used : DijkstraRouter
used = (calculate_route (λ r ks. ks) line 1 2 moments new_dijkstra_router).1

used-Called : Called ((3, line) ∷ []) used
used-Called =
    asked (λ r ks. ks) line 1 2 moments 4 (λ r ks k. (λ m. m, λ m. m)) line-IsRoutable
      (Memᴰ.head refl) (Memᴰ.tail (Memᴰ.head refl)) (omega arith) (omega arith) (omega arith) fresh

abbrev after_a_minute : Moments
after_a_minute = record {
  looked_up = 60 * 10 ^ 9;
  created = 60 * 10 ^ 9 + 1;
  stored = 60 * 10 ^ 9 + 2;
}

calculate_route-IsRecent_example :
    IsRecent
      ((after_a_minute.stored, slower) ∷ (3, line) ∷ [])
      after_a_minute.looked_up
      (λ x. IsAnswer x 1 2 (calculate_route (λ r ks. ks) slower 1 2 after_a_minute used).0)
calculate_route-IsRecent_example =
    calculate_route-IsRecent ((3, line) ∷ []) used (λ r ks. ks) slower 1 2 after_a_minute 9
      used-Called (λ r ks k. (λ m. m, λ m. m)) slower-IsRoutable (Memᴰ.head refl)
      (Memᴰ.tail (Memᴰ.head refl)) (omega arith) (omega arith) (omega arith)
