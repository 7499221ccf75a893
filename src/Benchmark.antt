-- ===== src/Benchmark.antt =====
-- cmd/benchmark/main.go: a random network, and the thousand route calculations on it. The generator of
-- math/rand is the argument `rand`, with its state passed on from draw to draw. The wall clock is given
-- by the arguments `clock` and `times`; the printing and the measured durations are left out.
pub mod Edges
pub mod Ring
pub mod Routes
pub mod Runs
mod Tests
use file_sharing_system_with.Prelude.{
  ℕ, zero, suc, ◌+◌, ◌%◌, ◌^◌, Bool, true, false, Option, none, some, List, [], ◌∷◌, ◌++◌, Bytes,
  bytes_eq, nat_eq, ◌==◌, if◌then◌else◌,
}
use file_sharing_system_with.Word.{Int32, Int64, to_int32, add64}
use file_sharing_system_with.GoMap.{GoMap, index, insert}
use file_sharing_system_with.Fmt.{format_int32, format_int64}
use file_sharing_system_with.Routing.Types.{Time, GraphNode, GraphEdge, Graph}
use file_sharing_system_with.Routing.Cache
use file_sharing_system_with.Routing.Dijkstra.{Outcome, ok, err, out_of_fuel}
use file_sharing_system_with.Routing.Types.{Route}
use file_sharing_system_with.Routing.Router.{
  DijkstraRouter, new_dijkstra_router, Moments, calculate_route,
}

-- rng.Intn(n), which draws a number below `n`, with the state of the generator.
pub record Rand (R : Type 0) : Type 0 where
  pub intn : ℕ → R → ℕ × R

-- a + 1 on int32
pub suc32 : Int32 → Int32
suc32 a = (a + 1) % 2 ^ 32

-- The variables of `createRandomGraph` that its loops change.
pub record Building (R : Type 0) : Type 0 where
  pub rng : R
  pub edges : List GraphEdge
  pub edge_set : GoMap Bytes Bool

-- fmt.Sprintf("localhost:%d", 9000+i)
pub address : ℕ → Bytes
address i =
    b'l'
    ∷ b'o'
    ∷ b'c'
    ∷ b'a'
    ∷ b'l'
    ∷ b'h'
    ∷ b'o'
    ∷ b's'
    ∷ b't'
    ∷ b':'
    ∷ format_int64 (add64 9_000 i)

-- The nodes of the rounds from `i` on.
pub make_nodes : (ℕ → Time) → ℕ → ℕ → List GraphNode
make_nodes clock zero i = []
make_nodes clock (suc n) i =
    record { id = to_int32 i; address = address i; last_seen = clock i }
    ∷ make_nodes clock n (i + 1)

-- fmt.Sprintf("%d-%d", from, to)
pub edge_key : Int32 → Int32 → Bytes
edge_key from to = format_int32 from ++ b'-' ∷ format_int32 to

-- The variables of the loop of `main`.
pub record Running (R : Type 0) : Type 0 where
  pub rng : R
  pub router : DijkstraRouter
  pub success_count : ℕ
  pub cache_hits : ℕ

pub count_hit : Option Route → ℕ → ℕ
count_hit none hits = hits
count_hit (some _) hits = hits + 1

pub count_success : Outcome Route → ℕ → ℕ
count_success (ok _) count = count + 1
count_success (err _) count = count
count_success out_of_fuel count = count

module _ {R : Type 0} (rand : Rand R) where
  pub add_edge : Int32 → Int32 → Int64 → Building R → Building R
  add_edge from to latency s = if index false (edge_key from to) s.edge_set then s else record s {
    edges = s.edges ++ record { from = from; to = to; latency_ms = latency } ∷ [];
    edge_set = insert (edge_key from to) true s.edge_set;
  }

  -- One round of the loop over the neighbours of node `i`.
  pub neighbor_round : ℕ → ℕ → Building R → Building R
  neighbor_round node_count i s =
      let (drawn, rng) = rand.intn node_count s.rng in
      let neighbor = suc32 (to_int32 drawn) in
      let (wait, rng') = rand.intn 50 rng in
      if neighbor == to_int32 i
      then record s { rng = rng }
      else add_edge (to_int32 i) neighbor (add64 wait 1) (record s { rng = rng' })

  pub neighbor_loop : ℕ → ℕ → ℕ → Building R → Building R
  neighbor_loop node_count i zero s = s
  neighbor_loop node_count i (suc n) s =
      neighbor_loop node_count i n (neighbor_round node_count i s)

  -- Random edges, for `n` nodes from `i` on: 4-8 per node.
  pub random_edges : ℕ → ℕ → ℕ → Building R → Building R
  random_edges node_count zero i s = s
  random_edges node_count (suc n) i s =
      let (drawn, rng) = rand.intn 5 s.rng in
      random_edges node_count n (i + 1)
        (neighbor_loop node_count i (4 + drawn) (record s { rng = rng }))

  pub ring_round : ℕ → ℕ → Building R → Building R
  ring_round node_count i s =
      let next = i % node_count + 1 in
      let (wait, rng) = rand.intn 20 s.rng in
      add_edge (to_int32 i) (to_int32 next) (add64 wait 5) (record s { rng = rng })

  -- The ring, for `n` nodes from `i` on.
  pub ring_edges : ℕ → ℕ → ℕ → Building R → Building R
  ring_edges node_count zero i s = s
  ring_edges node_count (suc n) i s = ring_edges node_count n (i + 1) (ring_round node_count i s)

  -- For fewer than 2 ^ 63 - 1 nodes, so that the loops end; the generator's last state goes on.
  pub create_random_graph : (ℕ → Time) → ℕ → R → Graph × R
  create_random_graph clock node_count rng =
      let start : Building R = record { rng = rng; edges = []; edge_set = [] } in
      let s = ring_edges node_count node_count 1 (random_edges node_count node_count 1 start) in
      (record { get_node_list = make_nodes clock node_count 1; get_edge_list = s.edges }, s.rng)

  -- One route calculation; the cache is read at `checked` to count the hits.
  pub bench_round : (ℕ → List Int32 → List Int32) → Graph → Time → Moments → Running R → Running R
  bench_round order graph checked t s =
      let (a, rng) = rand.intn 100 s.rng in
      let (b, rng') = rand.intn 100 rng in
      let from = suc32 (to_int32 a) in
      let to = suc32 (to_int32 b) in
      let (outcome, router) = calculate_route order graph from to t s.router in
      if from == to then record s { rng = rng' } else record {
        rng = rng';
        router = router;
        success_count = count_success outcome s.success_count;
        cache_hits = count_hit (Cache.get checked from to s.router.cache) s.cache_hits;
      }

  -- `n` rounds from round `i` on.
  pub bench_loop :
      (ℕ → ℕ → List Int32 → List Int32)
      → Graph
      → (ℕ → Time)
      → (ℕ → Moments)
      → ℕ
      → ℕ
      → Running R
      → Running R
  bench_loop order graph checked times zero i s = s
  bench_loop order graph checked times (suc n) i s =
      bench_loop order graph checked times n (i + 1)
        (bench_round (order i) graph (checked i) (times i) s)

  -- What `main` counts in `route_count` rounds (1000 there) on a network of 100 nodes, with a new
  -- router.
  pub benchmark :
      (ℕ → ℕ → List Int32 → List Int32)
      → (ℕ → Time)
      → (ℕ → Time)
      → (ℕ → Moments)
      → ℕ
      → R
      → Running R
  benchmark order clock checked times route_count rng =
      let (graph, rng') = create_random_graph clock 100 rng in
      bench_loop order graph checked times route_count 0
        (record { rng = rng'; router = new_dijkstra_router; success_count = 0; cache_hits = 0 })
