-- ===== src/Routing/Cache/Tests.antt =====
-- Runs of the cache, and its laws at concrete caches.
use mathlib.Core.List.{Memᴰ}
use mathlib.Core.List.Permᴰ
use file_sharing_system_with.Prelude.{
  ◌↔◌, ◌<◌, ◌≡◌, refl, ◌^◌, ◌-◌, none, some, [], ◌∷◌, bytes_eq, bytes_beq, arith, ltb, ◌+◌,
  if◌then◌else◌,
}
use file_sharing_system_with.GoMap.{lookup, insert, delete, has}
use file_sharing_system_with.Fmt.{format_int32}
use file_sharing_system_with.Routing.Types.{Route}
use file_sharing_system_with.Routing.Cache.{
  CachedRoute, RouteCache, new_route_cache, cache_key, set, get, passes, keys_to_delete, delete_key,
  delete_all, invalidate_peer, live_routes, entries, size,
}
use file_sharing_system_with.Word.{Int32}
use file_sharing_system_with.Routing.Cache.Entries.{Reached, fresh, stored, entries-get}
use file_sharing_system_with.Routing.Cache.Laws.{matches, get-set, get-invalidate_peer}

program : Unit {0}
unfolding new_route_cache cache_key set get passes keys_to_delete delete_key delete_all
    invalidate_peer live_routes entries size lookup insert delete has format_int32 bytes_beq
program = tt

abbrev direct : Route
direct = record {
  from_peer_id = 1;
  to_peer_id = 2;
  path = 1 ∷ 2 ∷ [];
  total_latency = 9;
  hops = 1;
  created_at = 5;
}

abbrev around : Route
around = record {
  from_peer_id = 1;
  to_peer_id = 3;
  path = 1 ∷ 2 ∷ 3 ∷ [];
  total_latency = 12;
  hops = 2;
  created_at = 6;
}

abbrev empty : RouteCache
empty = record { routes = []; ttl = 100 }

keys :
    (cache_key 1 23 ≡ b'1' ∷ b'-' ∷ b'>' ∷ b'2' ∷ b'3' ∷ [])
    × (cache_key (2 ^ 32 - 1) 0 ≡ b'-' ∷ b'1' ∷ b'-' ∷ b'>' ∷ b'0' ∷ [])
unfolding program
keys = (refl, refl)

lifetimes :
    (get 105 1 2 (set 5 direct empty) ≡ some direct)
    × (get 106 1 2 (set 5 direct empty) ≡ none)
    × (entries (λ m. m) 104 (set 5 direct empty) ≡ direct ∷ [])
    × (entries (λ m. m) 105 (set 5 direct empty) ≡ [])
unfolding program
lifetimes = (refl, refl, refl, refl)

invalidations :
    (get 50 1 2 (invalidate_peer (λ m. m) 3 (set 6 around (set 5 direct empty))).0 ≡ some direct)
    × (get 50 1 3 (invalidate_peer (λ m. m) 3 (set 6 around (set 5 direct empty))).0 ≡ none)
unfolding program
invalidations = (refl, refl)

get-set_example : get 50 1 3 (set 5 direct empty) ≡ (
    if matches direct 1 3
    then (if ltb (5 + 100) 50 then none else some direct)
    else get 50 1 3 empty)
get-set_example =
    get-set 50 5 direct 1 3 empty (omega arith) (omega arith) (omega arith) (omega arith)

get-invalidate_peer_example :
    (get 50 1 3 (invalidate_peer (λ m. m) 3 (set 6 around empty)).0 ≡ some around)
    ↔ ((get 50 1 3 (set 6 around empty) ≡ some around) × (¬ Memᴰ 3 around.path))
unfolding program
get-invalidate_peer_example =
    get-invalidate_peer (λ m. m) 3 50 1 3 (set 6 around empty) around (λ m x. (λ h. h, λ h. h))
      (refl, tt)

abbrev two_routes : RouteCache
two_routes = set 6 around (set 5 direct (new_route_cache 100))

two_routes-Reached : Reached two_routes
two_routes-Reached = stored 6 around (stored 5 direct (fresh 100))

entries-get_example :
    ((r : Route)
      → Memᴰ r (entries (λ m. m) 50 two_routes)
      → get 50 r.from_peer_id r.to_peer_id two_routes ≡ some r)
    × ((from to : Int32) (c : CachedRoute)
        → lookup (cache_key from to) two_routes.routes ≡ some c
        → 50 < c.expires_at
        → Memᴰ c.route (entries (λ m. m) 50 two_routes))
entries-get_example = entries-get (λ m. m) (λ m. Permᴰ.refl m) 50 two_routes two_routes-Reached
