-- ===== src/Benchmark/Routes.antt =====
-- Routes through the random network.
use mathlib.Core.List.Memᴰ
use file_sharing_system_with.Prelude.{
  ℕ, zero, suc, true, false, ◌+◌, ◌-◌, ◌*◌, ◌^◌, ◌≤◌, ◌<◌, ◌≡◌, refl, List, [], All-intro, length,
  arith, ap,
}
use file_sharing_system_with.GoMap.{index, lookup}
use file_sharing_system_with.Word.{Int32}
use file_sharing_system_with.Routing.Types.{Time, Route, Graph}
use file_sharing_system_with.Routing.Walks.{IsNode, Walk, IsRoutable}
use file_sharing_system_with.Routing.Dijkstra.{Outcome, ok}
use file_sharing_system_with.Routing.Dijkstra.Loop.{IsOrder}
use file_sharing_system_with.Routing.Router.{DijkstraRouter, Moments, calculate_route}
use file_sharing_system_with.Routing.Router.Sound.{
  IsShortest, IsSound, IsAnswer, answered, none_there, calculate_route-IsAnswer,
}
use file_sharing_system_with.Benchmark.{
  Rand, Building, make_nodes, random_edges, create_random_graph,
}
use file_sharing_system_with.Benchmark.Edges.{IsRand, IsBuilt, random_edges-IsBuilt}
use file_sharing_system_with.Benchmark.Ring.{
  ring_edges-IsBuilt, make_nodes-ids, make_nodes-range, IsRinged, Within, IsRinged-Within,
}

length-make_nodes : (clock : ℕ → Time) (n i : ℕ) → length (make_nodes clock n i) ≡ n
unfolding make_nodes
length-make_nodes clock zero i = refl
length-make_nodes clock (suc n) i = ap suc (length-make_nodes clock n (i + 1))

module _ {R : Type 0} (rand : Rand R) (fair : IsRand rand) (clock : ℕ → Time) (n : ℕ) (rng : R)
    (some_node : 0 < n) (small : n < 2 ^ 31) where
  abbrev made : Graph
  made = (create_random_graph rand clock n rng).0

  pub create_random_graph-IsRinged : IsRinged n made
  unfolding create_random_graph index lookup
  create_random_graph-IsRinged =
      let start : Building R = record { rng = rng; edges = []; edge_set = [] } in
      let first : IsBuilt n start = record {
        short = λ e m. absurd (Memᴰ.not-nil m);
        known = λ a b ha hb h. let no : false ≡ true = h in absurd (ground (arith, no));
      } in
      let random =
        random_edges-IsBuilt rand fair n some_node small n 1 start (omega arith) (omega arith)
          first in
      let (built, joined) =
        ring_edges-IsBuilt rand fair n small n 1 (random_edges rand n n 1 start) (omega arith)
          (omega arith) random in
      record {
        nodes = λ v low high. make_nodes-ids clock n 1 v (omega arith) low (omega arith);
        short = built.short;
        joined = λ j low high. joined j low (omega arith);
      }

  -- With draws that are below their bound, and 1 to 2 ^ 31 - 1 nodes, the random network is routable
  -- with latencies of at most 50 ms, and each of its nodes reaches each other one by a walk of at most
  -- 50 ms for every other node.
  pub create_random_graph-IsRoutable :
      IsRoutable made 50 × ((s t : Int32) → IsNode made s → IsNode made t → Within made s t (n - 1))
  unfolding create_random_graph
  create_random_graph-IsRoutable =
      let ringed = create_random_graph-IsRinged in
      let range : (v : Int32) → IsNode made v → (1 ≤ v) × (v < 1 + n) =
        λ v m. make_nodes-range clock n 1 v (omega arith) m in
      let count = length-make_nodes clock n 1 in
      (
        record {
          proper = λ v m e. let (low, high) = range v m in absurd (omega arith);
          light = All-intro _ made.get_edge_list (λ e m. (ringed.short e m).fast);
          room = omega (arith, count);
        },
        λ s t ms mt.
            let (s_low, s_high) = range s ms in
            let (t_low, t_high) = range t mt in
            IsRinged-Within n made ringed s t s_low (omega arith) t_low (omega arith),
      )

  -- With draws that are below their bound, on the random network of 1 to 2 ^ 31 - 1 nodes, in whatever
  -- order the search ranges over its maps, and with a cache that answers only shortest routes of the
  -- network, `CalculateRoute` finds a shortest route from every node to every other, of at most 50 ms for
  -- every other node, and the cache that it leaves answers only shortest routes again.
  pub calculate_route-create_random_graph :
      (order : ℕ → List Int32 → List Int32)
      → IsOrder order
      → (from to : Int32) (t : Moments) (dr : DijkstraRouter) → 1 ≤ from
      → from ≤ n
      → 1 ≤ to
      → to ≤ n
      → IsSound made dr
      → (r : Route) × ((calculate_route order made from to t dr).0 ≡ ok r)
        × IsShortest made from to r
        × (r.total_latency ≤ 50 * (n - 1))
        × IsSound made (calculate_route order made from to t dr).1
  calculate_route-create_random_graph order fair_order from to t dr from_low from_high to_low
        to_high sound =
      let ringed = create_random_graph-IsRinged in
      let nf = ringed.nodes from from_low from_high in
      let nt = ringed.nodes to to_low to_high in
      let (routable, reach) = create_random_graph-IsRoutable in
      let (k, path, walk, le) = reach from to nf nt in
      let (answer, sound') =
        calculate_route-IsAnswer made from to t dr (omega arith) (omega arith) sound order 50
          fair_order routable nf nt in
      let (r, e, s) = found (calculate_route order made from to t dr).0 answer k path walk in
      (r, e, s, omega (arith, s.least k path walk), sound')
    where
      found :
          {from to : Int32} (o : Outcome Route)
          → IsAnswer made from to o
          → (k : ℕ) (path : List Int32) → Walk made from to k path
          → (r : Route) × (o ≡ ok r) × IsShortest made from to r
      found o (answered {r} s) k path walk = (r, refl, s)
      found o (none_there no_walk) k path walk = absurd (no_walk k path walk)
