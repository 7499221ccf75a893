-- ===== src/Routing/Analyzer/Bounds.antt =====
-- What `AnalyzeNetwork` reports of the latencies.
use mathlib.Core.List.{Memᴰ}
use mathlib.Core.List.Memᴰ
use file_sharing_system_with.Prelude.{
  ℕ, suc, ◌+◌, ◌*◌, ◌/◌, ◌^◌, ◌≤◌, ◌<◌, ◌≡◌, refl, false, List, [], ◌∷◌, length, nat_beq, All,
  All-intro, All_of_Memᴰ, Bool-cases, ◌⊎◌, inl, inr, sym, ◌∙◌, arith, nat_eq,
}
use file_sharing_system_with.Word.{
  max_int64, slt64, add64_small, slt64_small, to_int32, div64_small, from_int32-to_int32,
}
use file_sharing_system_with.Float.{Float64}
use file_sharing_system_with.Routing.Types.{GraphEdge, Graph}
use file_sharing_system_with.Routing.Analyzer.{
  Totals, add_latency, sum_up, no_totals, analyze_network,
}

-- The sum of the latencies.
pub total_latency : List GraphEdge → ℕ
total_latency [] = 0
total_latency (e ∷ edges) = e.latency_ms + total_latency edges

-- Some edge has this latency.
abbrev pub Attained : List GraphEdge → ℕ → Type 0
Attained edges k = (e : GraphEdge) × Memᴰ e edges × (e.latency_ms ≡ k)

record Within (t : Totals) (edges : List GraphEdge) (r : Totals) : Type 0 where
  exact : r.total ≡ t.total + total_latency edges
  high : t.highest ≤ r.highest
  low : r.lowest ≤ t.lowest
  every : All (λ e. (r.lowest ≤ e.latency_ms) × (e.latency_ms ≤ r.highest)) edges
  lowest_from : (r.lowest ≡ t.lowest) ⊎ Attained edges r.lowest
  highest_from : (r.highest ≡ t.highest) ⊎ Attained edges r.highest

-- A value that is from the start or attained, over a first edge and then over the rest.
from_first :
    (e : GraphEdge) (edges : List GraphEdge) (start middle last : ℕ)
    → (middle ≡ start) ⊎ Attained (e ∷ []) middle
    → (last ≡ middle) ⊎ Attained edges last
    → (last ≡ start) ⊎ Attained (e ∷ edges) last
from_first e edges start middle last first (inr (f, m, at)) = inr (f, Memᴰ.tail m, at)
from_first e edges start middle last (inl same) (inl keeps) = inl (keeps ∙ same)
from_first e edges start middle last (inr (f, m, at)) (inl keeps) =
    inr (f, Memᴰ.append_left edges m, at ∙ sym keeps)

-- Where no edge gives the value, the start does, and then every edge does.
attained :
    (edges : List GraphEdge) (start k : ℕ)
    → 0 < length edges
    → All (λ e. k ≡ start → e.latency_ms ≡ k) edges
    → (k ≡ start) ⊎ Attained edges k
    → Attained edges k
attained [] start k some_edge all from = absurd (omega arith)
attained (e ∷ edges) start k some_edge all (inl same) = (e, Memᴰ.head refl, all.0 same)
attained (e ∷ edges) start k some_edge all (inr found) = found

module _ (w : ℕ) where
  add_latency-Within :
      (t : Totals) (e : GraphEdge)
      → e.latency_ms < 2 ^ 63
      → t.highest < 2 ^ 63
      → t.lowest < 2 ^ 63
      → t.total + e.latency_ms < 2 ^ 63
      → Within t (e ∷ []) (add_latency t e)
        × ((add_latency t e).highest < 2 ^ 63)
        × ((add_latency t e).lowest < 2 ^ 63)
  unfolding add_latency total_latency
  add_latency-Within t e he hh hl ht =
      let sum = add64_small t.total e.latency_ms (omega arith) in
      let up = slt64_small t.highest e.latency_ms hh he in
      let down = slt64_small e.latency_ms t.lowest he hl in
      (
        record {
          exact = ground (arith, sum);
          high = ground (arith, up);
          low = ground (arith, down);
          every = (ground (arith, up, down), tt);
          lowest_from = elim (Bool-cases (slt64 e.latency_ms t.lowest)) [
            | inl less ↦ rw less (inr (e, Memᴰ.head refl, refl))
            | inr keeps ↦ rw keeps (inl refl)
          ];
          highest_from = elim (Bool-cases (slt64 t.highest e.latency_ms)) [
            | inl more ↦ rw more (inr (e, Memᴰ.head refl, refl))
            | inr keeps ↦ rw keeps (inl refl)
          ];
        },
        ground (arith, up),
        ground (arith, down),
      )

  sum_up-Within :
      (edges : List GraphEdge) (t : Totals)
      → All (λ e. e.latency_ms ≤ w) edges
      → w < 2 ^ 63
      → t.highest < 2 ^ 63
      → t.lowest < 2 ^ 63
      → t.total + length edges * w < 2 ^ 63
      → Within t edges (sum_up t edges)
  unfolding sum_up total_latency
  sum_up-Within [] t h hw hh hl ht = record {
    exact = omega arith;
    high = omega arith;
    low = omega arith;
    every = tt;
    lowest_from = inl refl;
    highest_from = inl refl;
  }
  sum_up-Within (e ∷ edges) t h hw hh hl ht =
      let step : suc (length edges) * w ≡ length edges * w + w = grind arith in
      let le = h.0 in
      let (one, hh', hl') = add_latency-Within t e (omega arith) hh hl (omega (arith, step)) in
      let first = one.exact in
      let rest =
        sum_up-Within edges (add_latency t e) h.1 hw hh' hl' (omega (arith, step, first)) in
      record {
        exact = omega (arith, rest.exact, first);
        high = omega (arith, rest.high, one.high);
        low = omega (arith, rest.low, one.low);
        every = (
          (omega (arith, rest.low, one.every.0.0), omega (arith, rest.high, one.every.0.1)),
          rest.every,
        );
        lowest_from = from_first e edges t.lowest _ _ one.lowest_from rest.lowest_from;
        highest_from = from_first e edges t.highest _ _ one.highest_from rest.highest_from;
      }

  total_latency-le :
      (edges : List GraphEdge)
      → All (λ e. e.latency_ms ≤ w) edges
      → total_latency edges ≤ length edges * w
  unfolding total_latency
  total_latency-le [] h = omega arith
  total_latency-le (e ∷ edges) h =
      let step : suc (length edges) * w ≡ length edges * w + w = grind arith in
      omega (arith, step, h.0, total_latency-le edges h.1)

  -- For a graph with at least one and fewer than 2 ^ 31 edges, whose latencies are at most `w` and
  -- cannot overflow an int64 in their sum: no latency is below the least or above the greatest that is
  -- reported, edges have the least and the greatest, and the average is the sum of the latencies
  -- divided by their number, rounded down.
  pub analyze_network-bounds :
      {F : Type 0} (fl : Float64 F) (g : Graph)
      → All (λ e. e.latency_ms ≤ w) g.get_edge_list
      → w < 2 ^ 63
      → 0 < length g.get_edge_list
      → length g.get_edge_list < 2 ^ 31
      → length g.get_edge_list * w < 2 ^ 63
      → All
          (λ e.
            ((analyze_network fl g).min_latency ≤ e.latency_ms)
            × (e.latency_ms ≤ (analyze_network fl g).max_latency))
          g.get_edge_list
        × Attained g.get_edge_list (analyze_network fl g).min_latency
        × Attained g.get_edge_list (analyze_network fl g).max_latency
        × ((analyze_network fl g).avg_latency
            ≡ total_latency g.get_edge_list / length g.get_edge_list)
  unfolding analyze_network
  analyze_network-bounds fl g h hw some_edges few fits =
      let n = length g.get_edge_list in
      let within =
        sum_up-Within g.get_edge_list no_totals h hw (omega arith) (omega arith) (omega arith) in
      let sum = total_latency-le g.get_edge_list h in
      let some_test : nat_beq (to_int32 n) 0 ≡ false = ground arith in
      let count = from_int32-to_int32 n few in
      let total : (sum_up no_totals g.get_edge_list).total ≡ total_latency g.get_edge_list =
        omega (arith, within.exact) in
      let average =
        div64_small (sum_up no_totals g.get_edge_list).total n (omega (arith, total, sum))
          (omega arith) in
      let r = sum_up no_totals g.get_edge_list in
      let least =
        attained g.get_edge_list max_int64 r.lowest some_edges
          (All-intro _ g.get_edge_list (λ e m same.
            let (low, _) =
              All_of_Memᴰ (λ x. (r.lowest ≤ x.latency_ms) × (x.latency_ms ≤ r.highest))
                g.get_edge_list within.every m in
            let small = All_of_Memᴰ (λ x. x.latency_ms ≤ w) g.get_edge_list h m in omega arith))
          within.lowest_from in
      let greatest =
        attained g.get_edge_list 0 r.highest some_edges
          (All-intro _ g.get_edge_list (λ e m same.
            let (_, high) =
              All_of_Memᴰ (λ x. (r.lowest ≤ x.latency_ms) × (x.latency_ms ≤ r.highest))
                g.get_edge_list within.every m in
            omega arith))
          within.highest_from in
      rw (some_test, count, average, total) (within.every, least, greatest, refl)
