-- ===== src/Routing/Cache.antt =====
-- internal/routing/types.go: `RouteCache`. The time that a method reads from the clock is its argument
-- `now`. The lock makes each method one step, so a method is a function of the cache before it.
pub mod Laws
pub mod Entries
mod Tests
use mathlib.Core.List.{foldl}
use file_sharing_system_with.Prelude.{
  ℕ, ◌+◌, Bool, true, false, ◌||◌, not, Option, none, some, List, [], ◌∷◌, ◌++◌, Bytes, bytes_eq,
  length, ltb, nat_eq, ◌==◌, if◌then◌else◌,
}
use file_sharing_system_with.Word.{Int32}
use file_sharing_system_with.GoMap.{GoMap, lookup, insert, delete}
use file_sharing_system_with.Fmt.{format_int32}
use file_sharing_system_with.Routing.Types.{Time, Route}

pub record CachedRoute : Type 0 where
  pub route : Route
  pub expires_at : Time

pub record RouteCache : Type 0 where
  pub routes : GoMap Bytes CachedRoute
  pub ttl : Time

unfoldable pub new_route_cache : Time → RouteCache
new_route_cache ttl = record { routes = []; ttl = ttl }

-- fmt.Sprintf("%d->%d", from, to)
pub cache_key : Int32 → Int32 → Bytes
cache_key from to = format_int32 from ++ b'-' ∷ b'>' ∷ format_int32 to

unfoldable pub set : Time → Route → RouteCache → RouteCache
set now route rc = record rc {
  routes =
      insert (cache_key route.from_peer_id route.to_peer_id)
        (record { route = route; expires_at = now + rc.ttl }) rc.routes;
}

unfoldable pub get : Time → Int32 → Int32 → RouteCache → Option Route
get now from to rc = elim (lookup (cache_key from to) rc.routes) [
  | none ↦ none
  | some cached ↦ if ltb cached.expires_at now then none else some cached.route
]

unfoldable pub invalidate : RouteCache → RouteCache × ℕ
invalidate rc = (record rc { routes = [] }, length rc.routes)

-- The inner range of `InvalidatePeer`, which stops at the first hit.
pub passes : Int32 → List Int32 → Bool
passes peer [] = false
passes peer (id ∷ path) = if id == peer then true else passes peer path

-- The outer range, over the entries in some order.
pub keys_to_delete : Int32 → List (Bytes × CachedRoute) → List Bytes
keys_to_delete peer [] = []
keys_to_delete peer ((key, cached) ∷ entries) =
    let rest = keys_to_delete peer entries in
    if passes peer cached.route.path then key ∷ rest else rest

delete_key : GoMap Bytes CachedRoute → Bytes → GoMap Bytes CachedRoute
delete_key m key = delete key m

pub delete_all : List Bytes → GoMap Bytes CachedRoute → GoMap Bytes CachedRoute
delete_all ks m = foldl delete_key m ks

unfoldable pub invalidate_peer :
    (GoMap Bytes CachedRoute → List (Bytes × CachedRoute)) → Int32 → RouteCache → RouteCache × ℕ
invalidate_peer order peer rc =
    let ks = keys_to_delete peer (order rc.routes) in
    (record rc { routes = delete_all ks rc.routes }, length ks)

pub size : RouteCache → ℕ
size rc = length rc.routes

-- The range of `Entries`.
pub live_routes : Time → List (Bytes × CachedRoute) → List Route
live_routes now [] = []
live_routes now ((key, cached) ∷ entries) =
    let rest = live_routes now entries in
    if ltb now cached.expires_at then cached.route ∷ rest else rest

pub entries :
    (GoMap Bytes CachedRoute → List (Bytes × CachedRoute)) → Time → RouteCache → List Route
entries order now rc = live_routes now (order rc.routes)

pub get_ttl : RouteCache → Time
get_ttl rc = rc.ttl
