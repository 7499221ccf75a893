-- ===== src/Routing/Router/Sound.antt =====
-- Over a graph that does not change, the cache holds only shortest routes, so a hit is as good as a
-- search.
use file_sharing_system_with.Prelude.{
  ℕ, ◌^◌, ◌≤◌, ◌<◌, ◌≡◌, refl, inl, inr, some, List, [], ◌∷◌, arith, nat_eq, nat_beq_iff, ◌==◌,
  Bool-cases, Option-cases, subst,
}
use file_sharing_system_with.Word.{Int32, Int64}
use file_sharing_system_with.Routing.Types.{Time, Route, Graph}
use file_sharing_system_with.Routing.Walks.{IsNode, Walk, here, IsRoutable}
use file_sharing_system_with.Routing.Cache
use file_sharing_system_with.Routing.Cache.{RouteCache}
use file_sharing_system_with.Routing.Cache.Laws.{get-new, get-set, matches}
use file_sharing_system_with.Routing.Dijkstra.{Outcome, ok, err, no_path, dijkstra}
use file_sharing_system_with.Routing.Dijkstra.Loop.{IsOrder}
use file_sharing_system_with.Routing.Dijkstra.Correct.{
  IsRight, shortest, unreachable, dijkstra-IsRight,
}
use file_sharing_system_with.Routing.Router.{
  DijkstraRouter, new_dijkstra_router, one_hour, Moments, make_route, self_route, store_outcome,
  calculate_route,
}

-- The route leads between its two peers, and no walk between them is shorter.
pub record IsShortest (g : Graph) (from to : Int32) (r : Route) : Type 0 where
  pub starts : r.from_peer_id ≡ from
  pub ends : r.to_peer_id ≡ to
  pub walk : Walk g from to r.total_latency r.path
  pub least : (k : ℕ) (path : List Int32) → Walk g from to k path → r.total_latency ≤ k

-- All that the cache answers for peers with identifiers of 32 bits is right.
abbrev pub IsSound : Graph → DijkstraRouter → Type 0
IsSound g dr =
    (now : Time) (from to : Int32) (r : Route)
    → from < 2 ^ 32
    → to < 2 ^ 32
    → Cache.get now from to dr.cache ≡ some r
    → IsShortest g from to r

-- A right answer of `CalculateRoute`.
pub data IsAnswer (g : Graph) (from to : Int32) : Outcome Route → Type 0 where
  answered : {r : Route} → IsShortest g from to r → IsAnswer g from to (ok r)
  none_there :
      ((k : ℕ) (path : List Int32) → ¬ Walk g from to k path)
      → IsAnswer g from to (err (no_path from to))

pub self-IsShortest :
    (g : Graph) (from to : Int32) (created : Time)
    → from ≡ to
    → IsShortest g from to (self_route from to created)
unfolding self_route
self-IsShortest g from to created e = record {
  starts = refl;
  ends = refl;
  walk = subst (λ x. Walk g from x 0 (from ∷ [])) e here;
  least = λ k path walk. omega arith;
}

module _ (g : Graph) (from to : Int32) (t : Moments) (dr : DijkstraRouter) (hf : from < 2 ^ 32)
    (ht : to < 2 ^ 32) (sound : IsSound g dr) where
  store-IsSound :
      (route : Route)
      → IsShortest g from to route
      → IsSound g (record dr { cache = Cache.set t.stored route dr.cache })
  store-IsSound route s now a b r ha hb found =
      let law = get-set now t.stored route a b dr.cache (rw s.starts hf) (rw s.ends ht) ha hb in
      elim (Bool-cases (matches route a b)) [
        | inr miss ↦ sound now a b r ha hb (ground arith)
        | inl hit ↦
            let at_a : from ≡ a = ground (arith, s.starts) in
            let at_b : to ≡ b = ground (arith, s.ends) in
            let same : route ≡ r = ground arith in
            subst (λ (x : Int32). IsShortest g x b r) at_a
              (subst (λ (x : Int32). IsShortest g from x r) at_b
                (subst (IsShortest g from to) same s))
      ]

  store_outcome-right :
      (o : Outcome (List Int32 × Int64))
      → IsRight g from to o
      → IsAnswer g from to (store_outcome dr from to t o).0
        × IsSound g (store_outcome dr from to t o).1
  unfolding store_outcome make_route
  store_outcome-right o (shortest {path} {k} walk least) =
      let r = make_route from to path k t.created in
      let s : IsShortest g from to r = record {
        starts = refl;
        ends = refl;
        walk = walk;
        least = least;
      } in
      (answered s, store-IsSound r s)
  store_outcome-right o (unreachable no_walk) = (none_there no_walk, sound)

  -- From a node to a node of a routable graph, for identifiers of 32 bits, and with a cache that answers only shortest routes of
  -- that graph, `CalculateRoute` answers with a shortest route, or with the error if there is no
  -- walk; and the cache that it leaves answers only shortest routes again.
  pub calculate_route-IsAnswer :
      (order : ℕ → List Int32 → List Int32) (w : ℕ)
      → IsOrder order
      → IsRoutable g w
      → IsNode g from
      → IsNode g to
      → IsAnswer g from to (calculate_route order g from to t dr).0
        × IsSound g (calculate_route order g from to t dr).1
  unfolding calculate_route
  calculate_route-IsAnswer order w fair safe nf nt = elim (Bool-cases (from == to)) [
    | inl same ↦
        rw same
          (answered (self-IsShortest g from to t.created ((nat_beq_iff from to).0 same)), sound)
    | inr apart ↦ elim (Option-cases (Cache.get t.looked_up from to dr.cache)) [
      | inl miss ↦
          rw (apart, miss)
            (store_outcome-right (dijkstra order g from to)
              (dijkstra-IsRight g from to w safe nf nt order fair))
      | inr (r, hit) ↦ rw (apart, hit) (answered (sound t.looked_up from to r hf ht hit), sound)
    ]
  ]

-- A new router has no route to answer with.
pub new_dijkstra_router-IsSound : (g : Graph) → IsSound g new_dijkstra_router
unfolding new_dijkstra_router
new_dijkstra_router-IsSound g now from to r hf ht found = let e = get-new now from to one_hour in cc
