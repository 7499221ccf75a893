-- ===== src/Routing/Bottlenecks/Sums.antt =====
-- The maps of `FindBottlenecks` hold the latencies and the ends of edges at each peer.
use mathlib.Core.List.{foldl}
use file_sharing_system_with.Prelude.{
  ℕ, ◌+◌, ◌%◌, ◌^◌, ◌<◌, ◌≡◌, refl, true, List, [], ◌∷◌, arith, nat_eq, ltb, ◌==◌, if◌then◌else◌,
}
use file_sharing_system_with.Word.{Int32, Int64, add64, add32}
use file_sharing_system_with.GoMap.{index, has}
use file_sharing_system_with.GoMap.Laws.{index-insert, has-insert}
use file_sharing_system_with.GoMap.Unique.{IsUnique, insert-IsUnique}
use file_sharing_system_with.Routing.Types.{GraphEdge}
use file_sharing_system_with.Routing.Bottlenecks.{Loads, add_load, add_edge_load}

-- How many ends of the edges are at the peer, and the latencies there; a loop has both ends.
unfoldable pub degree_at : Int32 → List GraphEdge → ℕ
degree_at p [] = 0
degree_at p (e ∷ edges) =
    (if e.from == p then 1 else 0) + (if e.to == p then 1 else 0) + degree_at p edges

unfoldable pub latency_at : Int32 → List GraphEdge → ℕ
latency_at p [] = 0
latency_at p (e ∷ edges) =
    (if e.from == p then e.latency_ms else 0)
    + (if e.to == p then e.latency_ms else 0)
    + latency_at p edges

pub record Summed (p : Int32) (l r : Loads) (latency degree : ℕ) : Type 0 where
  pub total : index 0 p r.peer_total_latency ≡ (index 0 p l.peer_total_latency + latency) % 2 ^ 64
  pub ends : index 0 p r.peer_degree ≡ (index 0 p l.peer_degree + degree) % 2 ^ 32
  pub there :
      has p r.peer_total_latency ≡ (if ltb 0 degree then true else has p l.peer_total_latency)
  pub unique : IsUnique l.peer_total_latency → IsUnique r.peer_total_latency

add_load-Summed :
    (p q : Int32) (k : Int64) (l : Loads)
    → index 0 p l.peer_total_latency < 2 ^ 64
    → index 0 p l.peer_degree < 2 ^ 32
    → Summed p l (add_load q k l) (if q == p then k else 0) (if q == p then 1 else 0)
unfolding add_load add64 add32
add_load-Summed p q k l h h' =
    let latency = add64 (index 0 q l.peer_total_latency) k in
    let degree = add32 (index 0 q l.peer_degree) 1 in
    record {
      total = ground (arith, index-insert 0 q p latency l.peer_total_latency);
      ends = ground (arith, index-insert 0 q p degree l.peer_degree);
      there = ground (arith, has-insert q p latency l.peer_total_latency);
      unique = insert-IsUnique q latency l.peer_total_latency;
    }

Summed-trans :
    (p : Int32) (l m r : Loads) (a b c d : ℕ)
    → Summed p l m a b
    → Summed p m r c d
    → Summed p l r (a + c) (b + d)
Summed-trans p l m r a b c d s t = record {
  total = omega (arith, s.total, t.total);
  ends = omega (arith, s.ends, t.ends);
  there = ground (arith, s.there, t.there);
  unique = λ u. t.unique (s.unique u);
}

-- Whatever the edges are, the sums are exact up to the wrap-around.
pub foldl-Summed :
    (p : Int32) (edges : List GraphEdge) (l : Loads)
    → index 0 p l.peer_total_latency < 2 ^ 64
    → index 0 p l.peer_degree < 2 ^ 32
    → Summed p l (foldl add_edge_load l edges) (latency_at p edges) (degree_at p edges)
unfolding add_edge_load latency_at degree_at
foldl-Summed p [] l h h' = record {
  total = omega arith;
  ends = omega arith;
  there = refl;
  unique = λ u. u;
}
foldl-Summed p (e ∷ edges) l h h' =
    let one = add_load e.from e.latency_ms l in
    let two = add_load e.to e.latency_ms one in
    let first = add_load-Summed p e.from e.latency_ms l h h' in
    let second =
      add_load-Summed p e.to e.latency_ms one (omega (arith, first.total))
        (omega (arith, first.ends)) in
    let both = Summed-trans p l one two _ _ _ _ first second in
    let rest = foldl-Summed p edges two (omega (arith, both.total)) (omega (arith, both.ends)) in
    Summed-trans p l two (foldl add_edge_load two edges) _ _ _ _ both rest
