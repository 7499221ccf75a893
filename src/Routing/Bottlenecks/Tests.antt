-- ===== src/Routing/Bottlenecks/Tests.antt =====
-- Runs of the search for bottlenecks, and the theorem at a concrete graph.
use mathlib.Core.List.{Memᴰ}
use mathlib.Core.List.Permᴰ
use file_sharing_system_with.Prelude.{ℕ, ◌≡◌, ◌/◌, ◌<◌, ◌↔◌, refl, [], ◌∷◌, arith}
use file_sharing_system_with.Word.{Int32, add64, slt64, add32, slt32, div64, from_int32}
use file_sharing_system_with.GoMap.{insert, index, lookup}
use file_sharing_system_with.Routing.Types.{GraphEdge, Graph}
use file_sharing_system_with.Routing.Bottlenecks.{
  add_load, add_edge_load, sum_loads, is_bottleneck, collect, find_bottlenecks,
}
use file_sharing_system_with.Routing.Bottlenecks.Sums.{degree_at, latency_at}
use file_sharing_system_with.Routing.Bottlenecks.Exact.{find_bottlenecks-exact}

abbrev edge : Int32 → Int32 → ℕ → GraphEdge
edge a b k = record { from = a; to = b; latency_ms = k }

abbrev triangle : Graph
triangle = record { get_node_list = []; get_edge_list = edge 1 2 5 ∷ edge 2 3 8 ∷ edge 3 1 9 ∷ [] }

runs :
    (find_bottlenecks (λ m. m) triangle 6 ≡ 1 ∷ 3 ∷ [])
    × (find_bottlenecks (λ m. m) triangle 7 ≡ 3 ∷ [])
unfolding add_load add_edge_load sum_loads is_bottleneck collect find_bottlenecks add64 slt64 add32
    slt32 div64 from_int32 insert index lookup
runs = (refl, refl)

find_bottlenecks-exact_example : Memᴰ 3 (find_bottlenecks (λ m. m) triangle 7) ↔ (
    (0 < degree_at 3 triangle.get_edge_list)
    × (7 < latency_at 3 triangle.get_edge_list / degree_at 3 triangle.get_edge_list))
find_bottlenecks-exact_example =
    find_bottlenecks-exact (λ m. m) (λ m. Permᴰ.refl m) triangle 9 7
      (omega arith, (omega arith, (omega arith, tt))) (omega arith) (omega arith) (omega arith) 3
