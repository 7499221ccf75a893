-- ===== src/Routing/Bottlenecks/Exact.antt =====
-- `FindBottlenecks` finds exactly the peers over the threshold.
use mathlib.Core.List.{Memᴰ}
use mathlib.Core.List.Memᴰ
use mathlib.Core.List.Permᴰ
use file_sharing_system_with.Prelude.{
  ℕ, suc, ◌+◌, ◌*◌, ◌/◌, ◌^◌, ◌≤◌, ◌<◌, ◌≡◌, ◌↔◌, inl, inr, true, some, List, [], ◌∷◌, length, All,
  arith, nat_eq, ◌∙◌, ap, sym, subst, Bool-cases, Permᴰ-Memᴰ,
}
use file_sharing_system_with.Word.{Int32, Int64, from_int32, slt32_small, slt64_small, div64_small}
use file_sharing_system_with.GoMap.{GoMap, index, has, lookup}
use file_sharing_system_with.GoMap.Range.{Range, IsRanging}
use file_sharing_system_with.GoMap.Laws.{has→lookup, lookup→index}
use file_sharing_system_with.GoMap.Unique.{IsUnique, lookup→mem, mem→lookup}
use file_sharing_system_with.Routing.Types.{GraphEdge, Graph}
use file_sharing_system_with.Routing.Bottlenecks.{
  no_loads, sum_loads, is_bottleneck, collect, find_bottlenecks,
}
use file_sharing_system_with.Routing.Bottlenecks.Sums.{degree_at, latency_at, foldl-Summed}

collect-mem :
    (degrees : GoMap Int32 Int32) (threshold : Int64) (p : Int32) (entries : List (Int32 × Int64))
    → Memᴰ p (collect degrees threshold entries) ↔ (
        (total : Int64) × Memᴰ (p, total) entries
        × (is_bottleneck degrees threshold (p, total) ≡ true))
unfolding collect
collect-mem degrees threshold p [] = (λ m. absurd (Memᴰ.not-nil m), λ h. absurd (Memᴰ.not-nil h.1))
collect-mem degrees threshold p ((q, k) ∷ entries) =
    let ih = collect-mem degrees threshold p entries in
    elim (Bool-cases (is_bottleneck degrees threshold (q, k))) [
      | inl over ↦ rw over (
        λ m. elim (Memᴰ.cases_cons m) [
          | inl here ↦ (
            k,
            Memᴰ.head (λ i. (here i, k)),
            ap (λ x. is_bottleneck degrees threshold (x, k)) here ∙ over,
          )
          | inr later ↦ let (t, n, e) = ih.0 later in (t, Memᴰ.tail n, e)
        ],
        λ h. elim (Memᴰ.cases_cons h.1) [
          | inl here ↦ Memᴰ.head (ap (λ x. x.0) here)
          | inr later ↦ Memᴰ.tail (ih.1 (h.0, later, h.2))
        ],
      )
      | inr under ↦ rw under (
        λ m. let (t, n, e) = ih.0 m in (t, Memᴰ.tail n, e),
        λ h. elim (Memᴰ.cases_cons h.1) [
          | inl here ↦
              let no = ap (is_bottleneck degrees threshold) here in
              absurd (ground (arith, no, h.2, under))
          | inr later ↦ ih.1 (h.0, later, h.2)
        ],
      )
    ]

degree_at-le : (p : Int32) (edges : List GraphEdge) → degree_at p edges ≤ 2 * length edges
unfolding degree_at
degree_at-le p [] = omega arith
degree_at-le p (e ∷ edges) = ground (arith, degree_at-le p edges)

latency_at-le :
    (p : Int32) (w : ℕ) (edges : List GraphEdge)
    → All (λ e. e.latency_ms ≤ w) edges
    → latency_at p edges ≤ 2 * (length edges * w)
unfolding latency_at
latency_at-le p w [] h = omega arith
latency_at-le p w (e ∷ edges) h =
    let step : suc (length edges) * w ≡ length edges * w + w = grind arith in
    ground (arith, step, h.0, latency_at-le p w edges h.1)

-- The test on sums that fit.
is_bottleneck-small :
    (degrees : GoMap Int32 Int32) (threshold p total degree : ℕ)
    → index 0 p degrees ≡ degree
    → threshold < 2 ^ 63
    → total < 2 ^ 63
    → degree < 2 ^ 31
    → (is_bottleneck degrees threshold (p, total) ≡ true)
      ↔ ((0 < degree) × (threshold < total / degree))
unfolding is_bottleneck from_int32
is_bottleneck-small degrees threshold p total degree e ht hk hd =
    let quotient : total / degree ≤ total = grind arith in
    ground (
      arith,
      e,
      slt32_small 0 degree,
      div64_small total degree,
      slt64_small threshold (total / degree),
    )

module _ (order : Range Int32 Int64) (fair : IsRanging order) (g : Graph) (w threshold : ℕ)
    (light : All (λ e. e.latency_ms ≤ w) g.get_edge_list) (ht : threshold < 2 ^ 63)
    (few : 2 * length g.get_edge_list < 2 ^ 31)
    (room : 2 * (length g.get_edge_list * w) < 2 ^ 63) where
  -- For a threshold that is not negative, fewer than 2 ^ 30 edges, and latencies of at most `w` that
  -- cannot overflow in their sums: a peer is reported exactly if it is the end of an edge and the
  -- average latency over its ends of edges, rounded down, is above the threshold; in whatever order
  -- the peers are visited.
  pub find_bottlenecks-exact :
      (p : Int32)
      → Memᴰ p (find_bottlenecks order g threshold) ↔ (
          (0 < degree_at p g.get_edge_list)
          × (threshold < latency_at p g.get_edge_list / degree_at p g.get_edge_list))
  unfolding find_bottlenecks sum_loads index has lookup
  find_bottlenecks-exact p =
      let edges = g.get_edge_list in
      let l = sum_loads edges in
      let s = foldl-Summed p edges no_loads (omega arith) (omega arith) in
      let total : index 0 p l.peer_total_latency ≡ latency_at p edges =
        omega (arith, s.total, latency_at-le p w edges light) in
      let degree : index 0 p l.peer_degree ≡ degree_at p edges =
        omega (arith, s.ends, degree_at-le p edges) in
      let members = collect-mem l.peer_degree threshold p (order l.peer_total_latency) in
      let test =
        is_bottleneck-small l.peer_degree threshold p (latency_at p edges) (degree_at p edges)
          degree ht (omega (arith, latency_at-le p w edges light))
          (omega (arith, degree_at-le p edges)) in
      let keys : IsUnique l.peer_total_latency = s.unique tt in
      (
        λ m.
            let (t, n, over) = members.0 m in
            let entry = Permᴰ-Memᴰ (p, t) (fair l.peer_total_latency) n in
            let found =
              lookup→index 0 p t l.peer_total_latency
                (mem→lookup p t l.peer_total_latency keys entry) in
            let same : t ≡ latency_at p edges = sym found ∙ total in
            test.0 (subst (λ k. is_bottleneck l.peer_degree threshold (p, k) ≡ true) same over),
        λ h.
            let there : has p l.peer_total_latency ≡ true = ground (arith, s.there, h.0) in
            let found = has→lookup 0 p l.peer_total_latency there in
            let entry =
              lookup→mem p (latency_at p edges) l.peer_total_latency (found ∙ ap some total) in
            members.1 (
              latency_at p edges,
              Permᴰ-Memᴰ (p, latency_at p edges) (Permᴰ.symm (fair l.peer_total_latency)) entry,
              test.1 h,
            ),
      )
