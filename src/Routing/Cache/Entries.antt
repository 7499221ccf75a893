-- ===== src/Routing/Cache/Entries.antt =====
-- `Entries` against `Get`.
use mathlib.Core.List.{Memᴰ}
use mathlib.Core.List.Memᴰ
use mathlib.Core.List.Permᴰ
use file_sharing_system_with.Prelude.{
  ◌+◌, ◌<◌, ◌≡◌, refl, Bool, true, false, some, List, [], ◌∷◌, Bytes, bytes_eq, bytes_beq_iff,
  arith, ltb, ◌==◌, if◌then◌else◌, sym, subst, ap, ◌∙◌, Bool-cases, inl, inr, Permᴰ-Memᴰ,
}
use file_sharing_system_with.Word.{Int32}
use file_sharing_system_with.GoMap.{GoMap, lookup, delete}
use file_sharing_system_with.GoMap.Range.{Range, IsRanging}
use file_sharing_system_with.GoMap.Laws.{lookup-insert}
use file_sharing_system_with.GoMap.Unique.{
  IsUnique, insert-IsUnique, delete-IsUnique, lookup→mem, mem→lookup,
}
use file_sharing_system_with.Routing.Types.{Time, Route}
use file_sharing_system_with.Routing.Cache.Laws.{lookup-delete_all}
use file_sharing_system_with.Routing.Cache.{
  CachedRoute, RouteCache, new_route_cache, cache_key, set, invalidate, invalidate_peer,
  keys_to_delete, delete_key, delete_all, get, live_routes, entries,
}

-- Every route stands once, under the key of its peers.
pub record IsKeyed (rc : RouteCache) : Type 0 where
  pub unique : IsUnique rc.routes
  pub keyed :
      (k : Bytes) (c : CachedRoute)
      → lookup k rc.routes ≡ some c
      → k ≡ cache_key c.route.from_peer_id c.route.to_peer_id

-- `Set` keeps each route under its key.
pub set-IsKeyed :
    (now : Time) (route : Route) (rc : RouteCache) → IsKeyed rc → IsKeyed (set now route rc)
unfolding set
set-IsKeyed now route rc h =
    let key = cache_key route.from_peer_id route.to_peer_id in
    let new : CachedRoute = record { route = route; expires_at = now + rc.ttl } in
    record {
      unique = insert-IsUnique key new rc.routes h.unique;
      keyed = λ k c found.
          let read = lookup-insert key k new rc.routes in
          elim (Bool-cases (key == k)) [
            | inl hit ↦
                let same : new ≡ c = ground (arith, read, found) in
                sym ((bytes_beq_iff key k).0 hit)
                ∙ ap (λ x. cache_key x.route.from_peer_id x.route.to_peer_id) same
            | inr miss ↦ h.keyed k c (ground (arith, read, found))
          ];
    }

delete_all-IsUnique :
    (ks : List Bytes) (m : GoMap Bytes CachedRoute) → IsUnique m → IsUnique (delete_all ks m)
unfolding delete_all delete_key
delete_all-IsUnique [] m u = u
delete_all-IsUnique (k ∷ ks) m u = delete_all-IsUnique ks (delete k m) (delete-IsUnique k m u)

-- `InvalidatePeer` only takes routes away.
pub invalidate_peer-IsKeyed :
    (order : Range Bytes CachedRoute) (peer : Int32) (rc : RouteCache)
    → IsKeyed rc
    → IsKeyed (invalidate_peer order peer rc).0
unfolding invalidate_peer
invalidate_peer-IsKeyed order peer rc h =
    let ks = keys_to_delete peer (order rc.routes) in
    record {
      unique = delete_all-IsUnique ks rc.routes h.unique;
      keyed = λ k c found. elim (lookup-delete_all ks rc.routes k) [
        | inl gone ↦ absurd (ground (arith, gone.0, found))
        | inr kept ↦ h.keyed k c (sym kept ∙ found)
      ];
    }

-- The caches that the methods can make.
pub data Reached : RouteCache → Type 0 where
  fresh : (ttl : Time) → Reached (new_route_cache ttl)
  stored : {rc : RouteCache} (now : Time) (route : Route) → Reached rc → Reached (set now route rc)
  cleared : {rc : RouteCache} → Reached rc → Reached (invalidate rc).0
  dropped :
      {rc : RouteCache} (order : Range Bytes CachedRoute) (peer : Int32)
      → Reached rc
      → Reached (invalidate_peer order peer rc).0

-- Each of them has its routes under their keys.
pub Reached-IsKeyed : (rc : RouteCache) → Reached rc → IsKeyed rc
unfolding new_route_cache invalidate lookup
Reached-IsKeyed rc (fresh ttl) = record { unique = tt; keyed = λ k c found. cc }
Reached-IsKeyed rc (stored {rc = old} now route r) =
    set-IsKeyed now route old (Reached-IsKeyed old r)
Reached-IsKeyed rc (cleared r) = record { unique = tt; keyed = λ k c found. cc }
Reached-IsKeyed rc (dropped {rc = old} order peer r) =
    invalidate_peer-IsKeyed order peer old (Reached-IsKeyed old r)

live_routes-member :
    (now : Time) (r : Route) (es : List (Bytes × CachedRoute))
    → Memᴰ r (live_routes now es)
    → (k : Bytes) × (c : CachedRoute) × Memᴰ (k, c) es × (c.route ≡ r) × (now < c.expires_at)
unfolding live_routes
live_routes-member now r [] h = absurd (Memᴰ.not-nil h)
live_routes-member now r ((k, c) ∷ es) h =
    let rest = live_routes now es in
    elim (Bool-cases (ltb now c.expires_at)) [
      | inl live ↦
          elim (Memᴰ.cases_cons (subst (λ b. Memᴰ r (if b then c.route ∷ rest else rest)) live h)) [
            | inl here ↦ (k, c, Memᴰ.head refl, sym here, ground arith)
            | inr later ↦
                let (k', c', m, e, t) = live_routes-member now r es later in
                (k', c', Memᴰ.tail m, e, t)
          ]
      | inr old ↦
          let (k', c', m, e, t) =
            live_routes-member now r es
              (subst (λ b. Memᴰ r (if b then c.route ∷ rest else rest)) old h) in
          (k', c', Memᴰ.tail m, e, t)
    ]

member-live_routes :
    (now : Time) (k : Bytes) (c : CachedRoute) (es : List (Bytes × CachedRoute))
    → Memᴰ (k, c) es
    → now < c.expires_at
    → Memᴰ c.route (live_routes now es)
unfolding live_routes
member-live_routes now k c [] h t = absurd (Memᴰ.not-nil h)
member-live_routes now k c ((k', c') ∷ es) h t =
    let rest = live_routes now es in
    let goal : Bool → Type 0 = λ b. Memᴰ c.route (if b then c'.route ∷ rest else rest) in
    elim (Memᴰ.cases_cons h) [
      | inl here ↦
          let same : c ≡ c' = ap (λ (e : Bytes × CachedRoute). e.1) here in
          let live : ltb now c'.expires_at ≡ true =
            subst (λ (x : CachedRoute). ltb now x.expires_at ≡ true) same (ground arith) in
          subst goal (sym live) (Memᴰ.head (ap (λ (x : CachedRoute). x.route) same))
      | inr later ↦
          let m = member-live_routes now k c es later t in
          elim (Bool-cases (ltb now c'.expires_at)) [
            | inl live ↦ subst goal (sym live) (Memᴰ.tail m)
            | inr old ↦ subst goal (sym old) m
          ]
    ]

-- After any calls of the cache's methods, and in whatever order it is visited: `Get` finds each route
-- that `Entries` lists, and `Entries` lists each route that is stored and has not reached its
-- expiry.
pub entries-get :
    (order : Range Bytes CachedRoute)
    → IsRanging order
    → (now : Time) (rc : RouteCache) → Reached rc
    → ((r : Route)
        → Memᴰ r (entries order now rc)
        → get now r.from_peer_id r.to_peer_id rc ≡ some r)
      × ((from to : Int32) (c : CachedRoute)
          → lookup (cache_key from to) rc.routes ≡ some c
          → now < c.expires_at
          → Memᴰ c.route (entries order now rc))
unfolding entries get
entries-get order fair now rc reached =
    let h = Reached-IsKeyed rc reached in
    (
      λ r m.
          let (k, c, entry, e, t) = live_routes-member now r (order rc.routes) m in
          let found =
            mem→lookup k c rc.routes h.unique (Permᴰ-Memᴰ (k, c) (fair rc.routes) entry) in
          let key = h.keyed k c found in
          let here = subst (λ x. lookup x rc.routes ≡ some c) key found in
          let live : ltb c.expires_at now ≡ false = ground arith in
          subst (λ (x : Route). get now x.from_peer_id x.to_peer_id rc ≡ some x) e
            (rw (here, get, live) refl),
      λ from to c found t.
          member-live_routes now (cache_key from to) c (order rc.routes)
            (Permᴰ-Memᴰ (cache_key from to, c) (Permᴰ.symm (fair rc.routes))
              (lookup→mem (cache_key from to) c rc.routes found))
            t,
    )
