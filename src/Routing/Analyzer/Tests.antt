-- ===== src/Routing/Analyzer/Tests.antt =====
-- Runs of the analyzer, and the theorem at a concrete graph.
use file_sharing_system_with.Prelude.{◌≡◌, ◌≤◌, ◌/◌, refl, ℕ, [], ◌∷◌, length, All, arith}
use file_sharing_system_with.Word.{Int32, add64, slt64, div64, from_int32}
use file_sharing_system_with.Float.{toy_float}
use file_sharing_system_with.Routing.Types.{GraphEdge, Graph}
use file_sharing_system_with.Routing.Analyzer.{add_latency, sum_up, analyze_network}
use file_sharing_system_with.Routing.Analyzer.Bounds.{
  Attained, total_latency, analyze_network-bounds,
}

abbrev edge : Int32 → Int32 → ℕ → GraphEdge
edge a b k = record { from = a; to = b; latency_ms = k }

abbrev triangle : Graph
triangle = record { get_node_list = []; get_edge_list = edge 1 2 5 ∷ edge 2 3 8 ∷ edge 3 1 9 ∷ [] }

runs :
    ((analyze_network toy_float triangle).avg_latency ≡ 7)
    × ((analyze_network toy_float triangle).max_latency ≡ 9)
    × ((analyze_network toy_float triangle).min_latency ≡ 5)
unfolding analyze_network sum_up add_latency add64 slt64 div64 from_int32
runs = (refl, refl, refl)

analyze_network-bounds_example :
    All
      (λ e.
        ((analyze_network toy_float triangle).min_latency ≤ e.latency_ms)
        × (e.latency_ms ≤ (analyze_network toy_float triangle).max_latency))
      triangle.get_edge_list
    × Attained triangle.get_edge_list (analyze_network toy_float triangle).min_latency
    × Attained triangle.get_edge_list (analyze_network toy_float triangle).max_latency
    × ((analyze_network toy_float triangle).avg_latency
        ≡ total_latency triangle.get_edge_list / length triangle.get_edge_list)
analyze_network-bounds_example =
    analyze_network-bounds 9 toy_float triangle (omega arith, (omega arith, (omega arith, tt)))
      (omega arith) (omega arith) (omega arith) (omega arith)
