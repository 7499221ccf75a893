-- ===== src/Routing/Bottlenecks.antt =====
-- internal/routing/graph.go: `FindBottlenecks`.
pub mod Sums
pub mod Exact
mod Tests
use mathlib.Core.List.{foldl}
use file_sharing_system_with.Prelude.{Bool, false, List, [], ◌∷◌, ◌++◌, nat_eq, if◌then◌else◌}
use file_sharing_system_with.Word.{Int32, Int64, add64, slt64, add32, slt32, div64, from_int32}
use file_sharing_system_with.GoMap.{GoMap, insert, index}
use file_sharing_system_with.GoMap.Range.{Range}
use file_sharing_system_with.Routing.Types.{GraphEdge, Graph}

-- The two maps of a run.
pub record Loads : Type 0 where
  pub peer_total_latency : GoMap Int32 Int64
  pub peer_degree : GoMap Int32 Int32

-- peerTotalLatency[peer] += latency; peerDegree[peer]++
pub add_load : Int32 → Int64 → Loads → Loads
add_load peer latency l = record {
  peer_total_latency =
      insert peer (add64 (index 0 peer l.peer_total_latency) latency) l.peer_total_latency;
  peer_degree = insert peer (add32 (index 0 peer l.peer_degree) 1) l.peer_degree;
}

pub add_edge_load : Loads → GraphEdge → Loads
add_edge_load l e = add_load e.to e.latency_ms (add_load e.from e.latency_ms l)

abbrev pub no_loads : Loads
no_loads = record { peer_total_latency = []; peer_degree = [] }

pub sum_loads : List GraphEdge → Loads
sum_loads = foldl add_edge_load no_loads

pub is_bottleneck : GoMap Int32 Int32 → Int64 → Int32 × Int64 → Bool
is_bottleneck degrees threshold (peer, total) =
    let degree = index 0 peer degrees in
    if slt32 0 degree then slt64 threshold (div64 total (from_int32 degree)) else false

-- The range over peerTotalLatency.
pub collect : GoMap Int32 Int32 → Int64 → List (Int32 × Int64) → List Int32
collect degrees threshold [] = []
collect degrees threshold ((peer, total) ∷ entries) =
    let rest = collect degrees threshold entries in
    if is_bottleneck degrees threshold (peer, total) then peer ∷ rest else rest

pub find_bottlenecks : Range Int32 Int64 → Graph → Int64 → List Int32
find_bottlenecks order graph threshold =
    let l = sum_loads graph.get_edge_list in
    collect l.peer_degree threshold (order l.peer_total_latency)
