-- ===== src/Routing/Dijkstra/Tests.antt =====
-- Runs of the search, and the theorems at concrete graphs.
use mathlib.Core.List.{Memᴰ}
use mathlib.Core.List.Memᴰ
use file_sharing_system_with.Prelude.{ℕ, ◌≡◌, refl, List, [], ◌∷◌, arith}
use file_sharing_system_with.Word.{Int32, minus_one32, add64, slt64}
use file_sharing_system_with.GoMap.{lookup, insert, delete, index, has}
use file_sharing_system_with.Routing.Types.{GraphNode, GraphEdge, Graph}
use file_sharing_system_with.Routing.Walks.{IsNode, IsRoutable}
use file_sharing_system_with.Routing.Dijkstra.{
  ok, err, no_path, source_not_found, target_not_found, add_edge, build_adjacency, add_node,
  init_search, pick, choose, relax, settle, main_loop, walk_back, finish, dijkstra,
}
use file_sharing_system_with.Routing.Dijkstra.Loop.{IsOrder}
use file_sharing_system_with.Routing.Dijkstra.Correct.{IsRight, dijkstra-IsRight}
use file_sharing_system_with.Routing.Dijkstra.Sentinel.{dijkstra-minus_one}

program : Unit {0}
unfolding add_edge build_adjacency add_node init_search pick choose relax settle main_loop walk_back
    finish dijkstra lookup insert delete index has add64 slt64
program = tt

abbrev node : Int32 → GraphNode
node id = record { id = id; address = []; last_seen = 0 }

abbrev edge : Int32 → Int32 → ℕ → GraphEdge
edge a b k = record { from = a; to = b; latency_ms = k }

-- The way round by 2 is shorter than the direct edge, and nothing leads to 4.
abbrev detour : Graph
detour = record {
  get_node_list = node 1 ∷ node 2 ∷ node 3 ∷ node 4 ∷ [];
  get_edge_list = edge 1 3 20 ∷ edge 1 2 5 ∷ edge 2 3 7 ∷ edge 4 1 1 ∷ [];
}

abbrev in_order : ℕ → List Int32 → List Int32
in_order r ks = ks

in_order-IsOrder : IsOrder in_order
in_order-IsOrder r ks k = (λ m. m, λ m. m)

runs :
    (dijkstra in_order detour 1 3 ≡ ok (1 ∷ 2 ∷ 3 ∷ [], 12))
    × (dijkstra in_order detour 1 4 ≡ err (no_path 1 4))
    × (dijkstra in_order detour 7 4 ≡ err (source_not_found 7))
    × (dijkstra in_order detour 1 9 ≡ err (target_not_found 9))
unfolding program
runs = (refl, refl, refl, refl)

one : IsNode detour 1
one = Memᴰ.head refl

three : IsNode detour 3
three = Memᴰ.tail (Memᴰ.tail (Memᴰ.head refl))

detour-IsRoutable : IsRoutable detour 20
detour-IsRoutable = record { proper = proper; light = omega arith; room = omega arith }
  where
    proper : (v : Int32) → IsNode detour v → ¬ (v ≡ minus_one32)
    proper v (Memᴰ.head e) h = omega arith
    proper v (Memᴰ.tail (Memᴰ.head e)) h = omega arith
    proper v (Memᴰ.tail (Memᴰ.tail (Memᴰ.head e))) h = omega arith
    proper v (Memᴰ.tail (Memᴰ.tail (Memᴰ.tail (Memᴰ.head e)))) h = omega arith
    proper v (Memᴰ.tail (Memᴰ.tail (Memᴰ.tail (Memᴰ.tail m)))) h = Memᴰ.not-nil m

dijkstra-IsRight_example : IsRight detour 1 3 (dijkstra in_order detour 1 3)
dijkstra-IsRight_example =
    dijkstra-IsRight detour 1 3 20 detour-IsRoutable one three in_order in_order-IsOrder

-- The peer -1 has an edge to the peer 2.
abbrev negative : Graph
negative = record {
  get_node_list = node minus_one32 ∷ node 2 ∷ [];
  get_edge_list = edge minus_one32 2 5 ∷ [];
}

dijkstra-minus_one_example : dijkstra in_order negative minus_one32 2 ≡ err (no_path minus_one32 2)
dijkstra-minus_one_example =
    dijkstra-minus_one negative in_order in_order-IsOrder 2 (Memᴰ.head refl)
      (Memᴰ.tail (Memᴰ.head refl)) (omega arith)
