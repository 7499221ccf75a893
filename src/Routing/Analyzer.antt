-- ===== src/Routing/Analyzer.antt =====
-- internal/routing/graph.go: the analyses of a graph.
pub mod Bounds
mod Tests
use mathlib.Core.List.{foldl}
use file_sharing_system_with.Prelude.{ℕ, List, length, nat_eq, ◌==◌, if◌then◌else◌}
use file_sharing_system_with.Word.{
  Int32, Int64, max_int64, add64, mul64, sub32, slt64, div64, to_int32, from_int32,
}
use file_sharing_system_with.Float.{Float64}
use file_sharing_system_with.Routing.Types.{GraphEdge, Graph}

pub record NetworkStats (F : Type 0) : Type 0 where
  pub total_peers : Int32
  pub total_edges : Int32
  pub avg_latency : Int64
  pub max_latency : Int64
  pub min_latency : Int64
  pub network_density : F

-- The variables of the range over the edges.
pub record Totals : Type 0 where
  pub total : Int64
  pub highest : Int64
  pub lowest : Int64

pub add_latency : Totals → GraphEdge → Totals
add_latency t e = record {
  total = add64 t.total e.latency_ms;
  highest = if slt64 t.highest e.latency_ms then e.latency_ms else t.highest;
  lowest = if slt64 e.latency_ms t.lowest then e.latency_ms else t.lowest;
}

pub sum_up : Totals → List GraphEdge → Totals
sum_up = foldl add_latency

abbrev pub no_totals : Totals
no_totals = record { total = 0; highest = 0; lowest = max_int64 }

-- int64(peers) * int64(peers - 1)
pub possible_edges : Int32 → Int64
possible_edges peers = mul64 (from_int32 peers) (from_int32 (sub32 peers 1))

module _ {F : Type 0} (fl : Float64 F) where
  -- In percent; 0 where no edge is possible.
  pub density : Int32 → Int32 → F
  density edges peers =
      if slt64 0 (possible_edges peers)
      then fl.mul (fl.div (fl.of_int (from_int32 edges)) (fl.of_int (possible_edges peers)))
          (fl.of_int 100)
      else fl.of_int 0

  pub analyze_network : Graph → NetworkStats F
  analyze_network graph =
      let peers = to_int32 (length graph.get_node_list) in
      let edges = to_int32 (length graph.get_edge_list) in
      let t = sum_up no_totals graph.get_edge_list in
      if edges == 0
      then record {
        total_peers = peers;
        total_edges = edges;
        avg_latency = 0;
        max_latency = 0;
        min_latency = 0;
        network_density = fl.of_int 0;
      }
      else record {
        total_peers = peers;
        total_edges = edges;
        avg_latency = div64 t.total (from_int32 edges);
        max_latency = t.highest;
        min_latency = t.lowest;
        network_density = density edges peers;
      }
