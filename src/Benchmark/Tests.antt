-- ===== src/Benchmark/Tests.antt =====
-- The theorems at a generator that counts up.
use file_sharing_system_with.Prelude.{ℕ, suc, ◌*◌, ◌-◌, ◌%◌, ◌≤◌, ◌≡◌, List, arith}
use file_sharing_system_with.Word.{Int32}
use file_sharing_system_with.Routing.Types.{Time, Route}
use file_sharing_system_with.Routing.Dijkstra.{ok}
use file_sharing_system_with.Routing.Dijkstra.Loop.{IsOrder}
use file_sharing_system_with.Routing.Router.{new_dijkstra_router, Moments, calculate_route}
use file_sharing_system_with.Routing.Router.Sound.{IsShortest, IsSound, new_dijkstra_router-IsSound}
use file_sharing_system_with.Benchmark.{Rand, create_random_graph, benchmark}
use file_sharing_system_with.Benchmark.Edges.{IsRand}
use file_sharing_system_with.Benchmark.Routes.{calculate_route-create_random_graph}
use file_sharing_system_with.Benchmark.Runs.{different, benchmark-counts}
use native.Mathlib.Nat.{mod-lt}

abbrev counter : Rand ℕ
counter = record { intn = λ n r. (r % n, suc r) }

counter-IsRand : IsRand counter
counter-IsRand = record { below = λ n r pos. mod-lt r pos }

abbrev clock : ℕ → Time
clock i = i

abbrev times : ℕ → Moments
times i = record { looked_up = i; created = i; stored = i }

abbrev as_is : ℕ → List Int32 → List Int32
as_is r ks = ks

as_is-IsOrder : IsOrder as_is
as_is-IsOrder r ks k = (λ m. m, λ m. m)

calculate_route-create_random_graph_example :
    let g = (create_random_graph counter clock 5 7).0 in
    (r : Route) × ((calculate_route as_is g 4 2 (times 0) new_dijkstra_router).0 ≡ ok r)
    × IsShortest g 4 2 r
    × (r.total_latency ≤ 50 * (5 - 1))
    × IsSound g (calculate_route as_is g 4 2 (times 0) new_dijkstra_router).1
calculate_route-create_random_graph_example =
    calculate_route-create_random_graph counter counter-IsRand clock 5 7 (omega arith) (omega arith)
      as_is as_is-IsOrder 4 2 (times 0) new_dijkstra_router (omega arith) (omega arith)
      (omega arith) (omega arith)
      (new_dijkstra_router-IsSound (create_random_graph counter clock 5 7).0)

benchmark-counts_example :
    let s = benchmark counter (λ i. as_is) clock clock times 3 7 in
    (s.success_count ≡ different counter 3 (create_random_graph counter clock 100 7).1)
    × (s.cache_hits ≤ s.success_count)
benchmark-counts_example =
    benchmark-counts counter counter-IsRand clock 7 (λ i. as_is) (λ i. as_is-IsOrder) clock times 3
