-- ===== src/Benchmark/Runs.antt =====
-- cmd/benchmark/main.go: the loop of `main`, and what it counts.
use file_sharing_system_with.Prelude.{
  ℕ, zero, suc, ◌+◌, ◌≤◌, ◌≡◌, refl, inl, inr, true, false, List, Option, none, some, nat_eq, ◌==◌,
  if◌then◌else◌, Bool-cases, arith, ap,
}
use file_sharing_system_with.Word.{Int32, to_int32}
use file_sharing_system_with.Routing.Types.{Time, Route, Graph}
use file_sharing_system_with.Routing.Cache
use file_sharing_system_with.Routing.Dijkstra.Loop.{IsOrder}
use file_sharing_system_with.Routing.Router.{new_dijkstra_router, Moments}
use file_sharing_system_with.Routing.Router.Sound.{IsSound, new_dijkstra_router-IsSound}
use file_sharing_system_with.Benchmark.{
  Rand, suc32, create_random_graph, Running, count_hit, count_success, bench_round, bench_loop,
  benchmark,
}
use file_sharing_system_with.Benchmark.Edges.{IsRand}
use file_sharing_system_with.Benchmark.Routes.{calculate_route-create_random_graph}

-- How often the next `n` pairs of draws below 100 are two different numbers.
abbrev pub different : {R : Type 0} → Rand R → ℕ → R → ℕ
different rand zero rng = 0
different rand (suc n) rng =
    let (a, rng') = rand.intn 100 rng in
    let (b, rng'') = rand.intn 100 rng' in (if a == b then 0 else 1) + different rand n rng''

module _ {R : Type 0} (rand : Rand R) (fair : IsRand rand) (clock : ℕ → Time) (seed : R)
    (order : ℕ → ℕ → List Int32 → List Int32) (fair_order : (i : ℕ) → IsOrder (order i))
    (checked : ℕ → Time) (times : ℕ → Moments) where
  abbrev network : Graph
  network = (create_random_graph rand clock 100 seed).0

  -- The cache answers only shortest routes, and no more hits than routes were counted.
  record IsRunning (s : Running R) : Type 0 where
    sound : IsSound network s.router
    hits : s.cache_hits ≤ s.success_count

  count_hit-le : (o : Option Route) (n : ℕ) → count_hit o n ≤ n + 1
  unfolding count_hit
  count_hit-le none n = omega arith
  count_hit-le (some _) n = omega arith

  bench_round-IsRunning :
      (i : ℕ) (s : Running R)
      → IsRunning s
      → let a = (rand.intn 100 s.rng).0 in
        let rest = (rand.intn 100 s.rng).1 in
        let b = (rand.intn 100 rest).0 in
        let s' = bench_round rand (order i) network (checked i) (times i) s in
        IsRunning s'
        × (s'.rng ≡ (rand.intn 100 rest).1)
        × (s'.success_count ≡ s.success_count + (if a == b then 0 else 1))
  unfolding bench_round count_success suc32
  bench_round-IsRunning i s running =
      let a = (rand.intn 100 s.rng).0 in
      let rest = (rand.intn 100 s.rng).1 in
      let b = (rand.intn 100 rest).0 in
      let a_lt = fair.below 100 s.rng (omega arith) in
      let b_lt = fair.below 100 rest (omega arith) in
      let from_eq : suc32 (to_int32 a) ≡ a + 1 = omega arith in
      let to_eq : suc32 (to_int32 b) ≡ b + 1 = omega arith in
      elim (Bool-cases (a == b)) [
        | inl same ↦
            let same' : (suc32 (to_int32 a) == suc32 (to_int32 b)) ≡ true = ground arith in
            rw (same', same)
              (record { sound = running.sound; hits = running.hits }, refl, omega arith)
        | inr apart ↦
            let (r, e, _, _, sound') =
              calculate_route-create_random_graph rand fair clock 100 seed (omega arith)
                (omega arith) (order i) (fair_order i) (suc32 (to_int32 a)) (suc32 (to_int32 b))
                (times i) s.router (omega arith) (omega arith) (omega arith) (omega arith)
                running.sound in
            let apart' : (suc32 (to_int32 a) == suc32 (to_int32 b)) ≡ false = ground arith in
            rw (apart', apart)
              (
                record {
                  sound = sound';
                  hits = rw e (
                      omega (
                        arith,
                        count_hit-le
                            (Cache.get (checked i) (suc32 (to_int32 a)) (suc32 (to_int32 b))
                              s.router.cache)
                            s.cache_hits,
                        running.hits,
                      ));
                },
                refl,
                ap (λ o. count_success o s.success_count) e,
              )
      ]

  bench_loop-IsRunning :
      (n i : ℕ) (s : Running R)
      → IsRunning s
      → let s' = bench_loop rand order network checked times n i s in
        IsRunning s' × (s'.success_count ≡ s.success_count + different rand n s.rng)
  unfolding bench_loop
  bench_loop-IsRunning zero i s running = (running, omega arith)
  bench_loop-IsRunning (suc n) i s running =
      let s' = bench_round rand (order i) network (checked i) (times i) s in
      let (running', at, count) = bench_round-IsRunning i s running in
      let (done, total) = bench_loop-IsRunning n (i + 1) s' running' in
      let rest = ap (different rand n) at in (done, omega (arith, total, count, rest))

  -- With draws that are below their bound, and whatever order the searches range over their maps in,
  -- the benchmark finds a route in every round that draws two different peers, and counts it; it does
  -- not count more cache hits than routes.
  pub benchmark-counts :
      (route_count : ℕ)
      → let s = benchmark rand order clock checked times route_count seed in
        (s.success_count ≡ different rand route_count (create_random_graph rand clock 100 seed).1)
        × (s.cache_hits ≤ s.success_count)
  unfolding benchmark
  benchmark-counts route_count =
      let start : Running R = record {
        rng = (create_random_graph rand clock 100 seed).1;
        router = new_dijkstra_router;
        success_count = 0;
        cache_hits = 0;
      } in
      let (running, count) =
        bench_loop-IsRunning route_count 0 start
          (record { sound = new_dijkstra_router-IsSound network; hits = omega arith }) in
      (omega (arith, count), running.hits)
