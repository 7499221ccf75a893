-- ===== src/Routing/Router/Recent.antt =====
-- Over a graph that changes from call to call, an answer from the cache is at most an hour old.
use mathlib.Core.List.{Memᴰ}
use file_sharing_system_with.Prelude.{
  ℕ, ◌+◌, ◌^◌, ◌≤◌, ◌<◌, ◌≡◌, refl, inl, inr, some, List, [], ◌∷◌, Bytes, bytes_eq, arith, nat_eq,
  nat_beq_iff, ◌==◌, Bool-cases, Option-cases, subst,
}
use file_sharing_system_with.Word.{Int32, Int64}
use file_sharing_system_with.GoMap.Range.{Range}
use file_sharing_system_with.Routing.Types.{Time, Route, Graph}
use file_sharing_system_with.Routing.Walks.{IsNode, IsRoutable}
use file_sharing_system_with.Routing.Cache
use file_sharing_system_with.Routing.Cache.{
  CachedRoute, RouteCache, cache_key, keys_to_delete, delete_all,
}
use file_sharing_system_with.Routing.Cache.Laws.{get-new, get-set, matches, lookup-delete_all}
use file_sharing_system_with.Routing.Dijkstra.{Outcome, ok, err, no_path, dijkstra}
use file_sharing_system_with.Routing.Dijkstra.Loop.{IsOrder}
use file_sharing_system_with.Routing.Dijkstra.Correct.{
  IsRight, shortest, unreachable, dijkstra-IsRight,
}
use file_sharing_system_with.Routing.Router.{
  DijkstraRouter, new_dijkstra_router, one_hour, Moments, make_route, self_route, store_outcome,
  calculate_route, invalidate_cache, invalidate_peer_routes,
}
use file_sharing_system_with.Routing.Router.Sound.{
  IsShortest, IsAnswer, answered, none_there, self-IsShortest,
}

-- When a call of `CalculateRoute` stored its route, and the graph that it was given.
abbrev pub Call : Type 0
Call = Time × Graph

-- Among the calls there is one, at most an hour before `now`, whose graph has the property.
abbrev pub IsRecent : List Call → Time → (Graph → Type 0) → Type 0
IsRecent calls now P = (c : Call) × Memᴰ c calls × (now ≤ c.0 + one_hour) × P c.1

-- What the cache answers is a shortest route of a recent graph.
pub record IsKept (calls : List Call) (dr : DijkstraRouter) : Type 0 where
  pub lifetime : dr.cache.ttl ≡ one_hour
  pub recent :
      (now : Time) (from to : Int32) (r : Route)
      → from < 2 ^ 32
      → to < 2 ^ 32
      → Cache.get now from to dr.cache ≡ some r
      → IsRecent calls now (λ g. IsShortest g from to r)

later-IsRecent :
    (calls : List Call) (c : Call) (now : Time) (P : Graph → Type 0)
    → IsRecent calls now P
    → IsRecent (c ∷ calls) now P
later-IsRecent calls c now P (d, m, t, p) = (d, Memᴰ.tail m, t, p)

-- A router after calls, each for two nodes of a graph of its own that is routable, and invalidations,
-- with the calls since the cache was last cleared.
pub data Called : List Call → DijkstraRouter → Type 0 where
  fresh : Called [] new_dijkstra_router
  asked :
      {calls : List Call} {dr : DijkstraRouter} (order : ℕ → List Int32 → List Int32) (g : Graph)
      (from to : Int32) (t : Moments) (w : ℕ)
      → IsOrder order
      → IsRoutable g w
      → IsNode g from
      → IsNode g to
      → from < 2 ^ 32
      → to < 2 ^ 32
      → t.looked_up ≤ t.stored
      → Called calls dr
      → Called ((t.stored, g) ∷ calls) (calculate_route order g from to t dr).1
  cleared :
      {calls : List Call} {dr : DijkstraRouter}
      → Called calls dr
      → Called [] (invalidate_cache dr).0
  dropped :
      {calls : List Call} {dr : DijkstraRouter} (order : Range Bytes CachedRoute) (peer : Int32)
      → Called calls dr
      → Called calls (invalidate_peer_routes order peer dr).0

module _ (calls : List Call) (dr : DijkstraRouter) (kept : IsKept calls dr) (g : Graph)
    (from to : Int32) (t : Moments) (hf : from < 2 ^ 32) (ht : to < 2 ^ 32)
    (clock : t.looked_up ≤ t.stored) where
  store-IsKept :
      (route : Route)
      → IsShortest g from to route
      → IsKept ((t.stored, g) ∷ calls) (record dr { cache = Cache.set t.stored route dr.cache })
  unfolding Cache.set
  store-IsKept route s = record {
    lifetime = kept.lifetime;
    recent = λ now a b r ha hb found.
        let law = get-set now t.stored route a b dr.cache (rw s.starts hf) (rw s.ends ht) ha hb in
        elim (Bool-cases (matches route a b)) [
          | inr miss ↦
              later-IsRecent calls (t.stored, g) now (λ x. IsShortest x a b r)
                (kept.recent now a b r ha hb (ground arith))
          | inl hit ↦
              let at_a : from ≡ a = ground (arith, s.starts) in
              let at_b : to ≡ b = ground (arith, s.ends) in
              let same : route ≡ r = ground arith in
              let live : now ≤ t.stored + one_hour = ground (arith, kept.lifetime) in
              (
                (t.stored, g),
                Memᴰ.head refl,
                live,
                subst (λ (x : Int32). IsShortest g x b r) at_a
                    (subst (λ (x : Int32). IsShortest g from x r) at_b
                      (subst (IsShortest g from to) same s)),
              )
        ];
  }

  weaken-IsKept : IsKept ((t.stored, g) ∷ calls) dr
  weaken-IsKept = record {
    lifetime = kept.lifetime;
    recent = λ now a b r ha hb found.
        later-IsRecent calls (t.stored, g) now (λ x. IsShortest x a b r)
          (kept.recent now a b r ha hb found);
  }

  -- The answer is right for a recent graph, and the calls explain the cache again.
  abbrev Right : Outcome Route × DijkstraRouter → Type 0
  Right (o, dr') =
      IsRecent ((t.stored, g) ∷ calls) t.looked_up (λ x. IsAnswer x from to o)
      × IsKept ((t.stored, g) ∷ calls) dr'

  right_now :
      (o : Outcome Route)
      → IsAnswer g from to o
      → IsRecent ((t.stored, g) ∷ calls) t.looked_up (λ x. IsAnswer x from to o)
  right_now o a = ((t.stored, g), Memᴰ.head refl, omega arith, a)

  store_outcome-Right :
      (o : Outcome (List Int32 × Int64))
      → IsRight g from to o
      → Right (store_outcome dr from to t o)
  unfolding store_outcome make_route
  store_outcome-Right o (shortest {path} {k} walk least) =
      let r = make_route from to path k t.created in
      let s : IsShortest g from to r = record {
        starts = refl;
        ends = refl;
        walk = walk;
        least = least;
      } in
      (right_now (ok r) (answered s), store-IsKept r s)
  store_outcome-Right o (unreachable no_walk) =
      (right_now (err (no_path from to)) (none_there no_walk), weaken-IsKept)

  calculate_route-Right :
      (order : ℕ → List Int32 → List Int32) (w : ℕ)
      → IsOrder order
      → IsRoutable g w
      → IsNode g from
      → IsNode g to
      → Right (calculate_route order g from to t dr)
  unfolding calculate_route
  calculate_route-Right order w fair safe nf nt = elim (Bool-cases (from == to)) [
    | inl same ↦ rw same (
      right_now (ok (self_route from to t.created))
          (answered (self-IsShortest g from to t.created ((nat_beq_iff from to).0 same))),
      weaken-IsKept,
    )
    | inr apart ↦ elim (Option-cases (Cache.get t.looked_up from to dr.cache)) [
      | inl miss ↦
          rw (apart, miss)
            (store_outcome-Right (dijkstra order g from to)
              (dijkstra-IsRight g from to w safe nf nt order fair))
      | inr (r, hit) ↦
          let (c, m, live, s) = kept.recent t.looked_up from to r hf ht hit in
          rw (apart, hit) ((c, Memᴰ.tail m, live, answered s), weaken-IsKept)
    ]
  ]

cache_after_drop :
    (order : Range Bytes CachedRoute) (peer : Int32) (now : Time) (from to : Int32)
    (rc : RouteCache) (r : Route)
    → Cache.get now from to (Cache.invalidate_peer order peer rc).0 ≡ some r
    → Cache.get now from to rc ≡ some r
unfolding Cache.get Cache.invalidate_peer
cache_after_drop order peer now from to rc r found =
    elim (lookup-delete_all (keys_to_delete peer (order rc.routes)) rc.routes (cache_key from to)) [
      | inl gone ↦ absurd (ground (arith, gone.0, found))
      | inr same ↦ rw (same, Cache.get) at found
    ]

Called-IsKept : (calls : List Call) (dr : DijkstraRouter) → Called calls dr → IsKept calls dr
unfolding new_dijkstra_router invalidate_cache invalidate_peer_routes Cache.new_route_cache
    Cache.invalidate Cache.invalidate_peer
Called-IsKept _ _ fresh = record {
  lifetime = refl;
  recent = λ now from to r hf ht found. let e = get-new now from to one_hour in cc;
}
Called-IsKept _ _
      (asked {calls = calls} {dr = dr} order g from to t w fair safe nf nt hf ht clock h) =
    (calculate_route-Right calls dr (Called-IsKept calls dr h) g from to t hf ht clock order w fair
      safe nf nt).1
Called-IsKept _ _ (cleared {calls = calls} {dr = dr} h) = record {
  lifetime = (Called-IsKept calls dr h).lifetime;
  recent = λ now from to r hf ht found. let e = get-new now from to dr.cache.ttl in cc;
}
Called-IsKept calls _ (dropped {dr = dr} order peer h) =
    let k = Called-IsKept calls dr h in
    record {
      lifetime = k.lifetime;
      recent = λ now from to r hf ht found.
          k.recent now from to r hf ht (cache_after_drop order peer now from to dr.cache r found);
    }

-- However the graph changes between the calls: what `CalculateRoute` answers for two nodes of a routable
-- graph, with identifiers of 32 bits and a clock that does not go back during the call, is right for
-- this graph, or for the graph of a call at most an hour before, since the cache was last cleared.
pub calculate_route-IsRecent :
    (calls : List Call) (dr : DijkstraRouter) (order : ℕ → List Int32 → List Int32) (g : Graph)
    (from to : Int32) (t : Moments) (w : ℕ)
    → Called calls dr
    → IsOrder order
    → IsRoutable g w
    → IsNode g from
    → IsNode g to
    → from < 2 ^ 32
    → to < 2 ^ 32
    → t.looked_up ≤ t.stored
    → IsRecent
        ((t.stored, g) ∷ calls)
        t.looked_up
        (λ x. IsAnswer x from to (calculate_route order g from to t dr).0)
calculate_route-IsRecent calls dr order g from to t w h fair safe nf nt hf ht clock =
    (calculate_route-Right calls dr (Called-IsKept calls dr h) g from to t hf ht clock order w fair
      safe nf nt).0
