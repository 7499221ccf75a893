-- ===== src/Routing/Router.antt =====
-- internal/routing/dijkstra.go: `DijkstraRouter`, the search behind the route cache. A call of
-- `CalculateRoute` reads the clock up to three times: when it looks into the cache, when it stamps a
-- route, and when it stores one.
pub mod Sound
pub mod Recent
mod Tests
use file_sharing_system_with.Prelude.{
  ℕ, zero, suc, ◌*◌, Option, none, some, List, [], ◌∷◌, Bytes, length, nat_eq, ◌==◌, if◌then◌else◌,
}
use file_sharing_system_with.Word.{Int32, Int64, sub64, to_int32}
use file_sharing_system_with.GoMap.{GoMap}
use file_sharing_system_with.Routing.Types.{Time, Route, Graph}
use file_sharing_system_with.Routing.Cache
use file_sharing_system_with.Routing.Cache.{CachedRoute, RouteCache}
use file_sharing_system_with.Routing.Dijkstra.{Outcome, ok, err, out_of_fuel, dijkstra}

pub record DijkstraRouter : Type 0 where
  pub cache : RouteCache

-- 1 * time.Hour, in nanoseconds
abbrev pub one_hour : Time
one_hour = 3_600 * 1_000_000_000

pub new_dijkstra_router : DijkstraRouter
new_dijkstra_router = record { cache = Cache.new_route_cache one_hour }

-- The clock readings of one call.
pub record Moments : Type 0 where
  pub looked_up : Time
  pub created : Time
  pub stored : Time

pub make_route : Int32 → Int32 → List Int32 → Int64 → Time → Route
make_route from to path latency created = record {
  from_peer_id = from;
  to_peer_id = to;
  path = path;
  total_latency = latency;
  hops = to_int32 (sub64 (length path) 1);
  created_at = created;
}

pub self_route : Int32 → Int32 → Time → Route
self_route from to created = record {
  from_peer_id = from;
  to_peer_id = to;
  path = from ∷ [];
  total_latency = 0;
  hops = 0;
  created_at = created;
}

-- From `// Run Dijkstra` on.
pub store_outcome :
    DijkstraRouter
    → Int32
    → Int32
    → Moments
    → Outcome (List Int32 × Int64)
    → Outcome Route × DijkstraRouter
store_outcome dr from to t (err e) = (err e, dr)
store_outcome dr from to t out_of_fuel = (out_of_fuel, dr)
store_outcome dr from to t (ok (path, latency)) =
    let route = make_route from to path latency t.created in
    (ok route, record dr { cache = Cache.set t.stored route dr.cache })

pub calculate_route :
    (ℕ → List Int32 → List Int32)
    → Graph
    → Int32
    → Int32
    → Moments
    → DijkstraRouter
    → Outcome Route × DijkstraRouter
calculate_route order graph from to t dr =
    if from == to
    then (ok (self_route from to t.created), dr)
    else elim (Cache.get t.looked_up from to dr.cache) [
      | some cached ↦ (ok cached, dr)
      | none ↦ store_outcome dr from to t (dijkstra order graph from to)
    ]

pub get_cache : DijkstraRouter → RouteCache
get_cache dr = dr.cache

pub invalidate_cache : DijkstraRouter → DijkstraRouter × ℕ
invalidate_cache dr =
    let (cache, count) = Cache.invalidate dr.cache in (record dr { cache = cache }, count)

pub invalidate_peer_routes :
    (GoMap Bytes CachedRoute → List (Bytes × CachedRoute))
    → Int32
    → DijkstraRouter
    → DijkstraRouter × ℕ
invalidate_peer_routes order peer dr =
    let (cache, count) = Cache.invalidate_peer order peer dr.cache in
    (record dr { cache = cache }, count)
