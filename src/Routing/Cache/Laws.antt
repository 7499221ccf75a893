-- ===== src/Routing/Cache/Laws.antt =====
-- What a lookup finds after each change of the cache.
use mathlib.Core.List.{Memᴰ}
use mathlib.Core.List.Memᴰ
use file_sharing_system_with.Prelude.{
  ◌+◌, ◌^◌, ◌<◌, ◌≡◌, refl, ◌↔◌, ◌⊎◌, inl, inr, Bool, true, ◌&&◌, none, some, List, [], ◌∷◌, Bytes,
  bytes_beq, bytes_beq_iff, bytes_eq, arith, nat_eq, nat_beq, ltb, if◌then◌else◌, Memᴰ-cons,
  Bool-cases, ◌∙◌, ap, Option-cases, subst,
}
use file_sharing_system_with.Word.{Int32}
use file_sharing_system_with.GoMap.{GoMap, lookup}
use file_sharing_system_with.GoMap.Laws.{lookup-insert, lookup-delete}
use file_sharing_system_with.GoMap.Unique.{IsUnique, lookup→mem, mem→lookup}
use file_sharing_system_with.Fmt.{format_int32}
use file_sharing_system_with.Fmt.Split.{format_int32-prefix, format_int32-injective}
use file_sharing_system_with.Routing.Types.{Time, Route}
use file_sharing_system_with.Routing.Cache.{
  CachedRoute, RouteCache, new_route_cache, cache_key, set, get, passes, keys_to_delete, delete_key,
  delete_all, invalidate_peer,
}

-- Two pairs of peers with identifiers of 32 bits never share a cache key.
pub cache_key-injective :
    (a b c d : Int32)
    → a < 2 ^ 32
    → b < 2 ^ 32
    → c < 2 ^ 32
    → d < 2 ^ 32
    → cache_key a b ≡ cache_key c d
    → (a ≡ c) × (b ≡ d)
unfolding cache_key
cache_key-injective a b c d ha hb hc hd e =
    let (front, rest) =
      format_int32-prefix a c (b'>' ∷ format_int32 b) (b'>' ∷ format_int32 d) ha hc e in
    (front, format_int32-injective b d hb hd (cc))

-- A new cache finds nothing.
pub get-new :
    (now : Time) (from to : Int32) (ttl : Time) → get now from to (new_route_cache ttl) ≡ none
unfolding get new_route_cache lookup
get-new now from to ttl = refl

abbrev pub matches : Route → Int32 → Int32 → Bool
matches r from to = nat_beq r.from_peer_id from && nat_beq r.to_peer_id to

-- The test on keys is the test on the two peers.
key_test :
    (r : Route) (from to : Int32)
    → r.from_peer_id < 2 ^ 32
    → r.to_peer_id < 2 ^ 32
    → from < 2 ^ 32
    → to < 2 ^ 32
    → bytes_beq (cache_key r.from_peer_id r.to_peer_id) (cache_key from to) ≡ matches r from to
key_test r from to h1 h2 h3 h4 = ground (
  arith,
  bytes_beq_iff (cache_key r.from_peer_id r.to_peer_id) (cache_key from to),
  cache_key-injective r.from_peer_id r.to_peer_id from to h1 h2 h3 h4,
)

-- For identifiers of 32 bits: after `Set` the route is found for its own peers until its lifetime is
-- over, and a lookup for any other pair finds what it found before.
pub get-set :
    (now at : Time) (r : Route) (from to : Int32) (rc : RouteCache)
    → r.from_peer_id < 2 ^ 32
    → r.to_peer_id < 2 ^ 32
    → from < 2 ^ 32
    → to < 2 ^ 32
    → get now from to (set at r rc) ≡ (
        if matches r from to
        then (if ltb (at + rc.ttl) now then none else some r)
        else get now from to rc)
unfolding get set
get-set now at r from to rc h1 h2 h3 h4 = ground (
  arith,
  key_test r from to h1 h2 h3 h4,
  lookup-insert (cache_key r.from_peer_id r.to_peer_id) (cache_key from to)
      (record { route = r; expires_at = at + rc.ttl }) rc.routes,
)

-- A range visits exactly the entries of the map.
abbrev pub IsRange : (GoMap Bytes CachedRoute → List (Bytes × CachedRoute)) → Type 0
IsRange order =
    (m : GoMap Bytes CachedRoute) (x : Bytes × CachedRoute) → Memᴰ x (order m) ↔ Memᴰ x m

pub lookup-delete_all :
    (ks : List Bytes) (m : GoMap Bytes CachedRoute) (k : Bytes)
    → ((lookup k (delete_all ks m) ≡ none) × Memᴰ k ks) ⊎ (lookup k (delete_all ks m) ≡ lookup k m)
unfolding delete_all delete_key
lookup-delete_all [] m k = inr refl
lookup-delete_all (x ∷ ks) m k = ground (
  arith,
  lookup-delete_all ks (delete_key m x) k,
  lookup-delete x k m,
  bytes_beq_iff x k,
  Memᴰ-cons k x ks,
)

delete_all-hits :
    (ks : List Bytes) (m : GoMap Bytes CachedRoute) (k : Bytes)
    → Memᴰ k ks ⊎ (lookup k m ≡ none)
    → lookup k (delete_all ks m) ≡ none
unfolding delete_all delete_key
delete_all-hits [] m k h = elim h [ inl m' ↦ absurd (Memᴰ.not-nil m') | inr e ↦ e ]
delete_all-hits (x ∷ ks) m k h = ground (
  arith,
  delete_all-hits ks (delete_key m x) k,
  lookup-delete x k m,
  bytes_beq_iff x k,
  Memᴰ-cons k x ks,
  h,
)

mem-keys_to_delete :
    (peer : Int32) (l : List (Bytes × CachedRoute)) (k : Bytes)
    → Memᴰ k (keys_to_delete peer l)
    → (c : CachedRoute) × Memᴰ (k, c) l × (passes peer c.route.path ≡ true)
unfolding keys_to_delete
mem-keys_to_delete peer [] k m = absurd (Memᴰ.not-nil m)
mem-keys_to_delete peer ((key, cached) ∷ l) k m =
    elim (Bool-cases (passes peer cached.route.path)) [
      | inl hit ↦ elim (Memᴰ.cases_cons (rw hit at m)) [
        | inl e ↦ (cached, Memᴰ.head (ap (λ x. (x, cached)) e), hit)
        | inr later ↦ let (c, m', p) = mem-keys_to_delete peer l k later in (c, Memᴰ.tail m', p)
      ]
      | inr miss ↦
          let (c, m', p) = mem-keys_to_delete peer l k (rw miss at m) in (c, Memᴰ.tail m', p)
    ]

keys_to_delete-mem :
    (peer : Int32) (l : List (Bytes × CachedRoute)) (k : Bytes) (c : CachedRoute)
    → Memᴰ (k, c) l
    → passes peer c.route.path ≡ true
    → Memᴰ k (keys_to_delete peer l)
unfolding keys_to_delete
keys_to_delete-mem peer [] k c m p = absurd (Memᴰ.not-nil m)
keys_to_delete-mem peer ((key, cached) ∷ l) k c m p = elim (Memᴰ.cases_cons m) [
  | inl e ↦
      let same = ap (λ (x : Bytes × CachedRoute). x.0) e in
      let hit : passes peer cached.route.path ≡ true =
        subst (λ (x : Bytes × CachedRoute). passes peer x.1.route.path ≡ true) e p in
      rw hit (Memᴰ.head same)
  | inr later ↦
      ground (arith, keys_to_delete-mem peer l k c later p, Memᴰ-cons k key (keys_to_delete peer l))
]

lookup-invalidated :
    (order : GoMap Bytes CachedRoute → List (Bytes × CachedRoute)) (peer : Int32)
    (m : GoMap Bytes CachedRoute) (k : Bytes)
    → IsRange order
    → IsUnique m
    → lookup k (delete_all (keys_to_delete peer (order m)) m) ≡ elim (lookup k m) [
      | none ↦ none
      | some c ↦ if passes peer c.route.path then none else some c
    ]
lookup-invalidated order peer m k range unique = elim (Option-cases (lookup k m)) [
  | inl absent ↦ rw absent (delete_all-hits (keys_to_delete peer (order m)) m k (inr absent))
  | inr (c, found) ↦ elim (Bool-cases (passes peer c.route.path)) [
    | inl hit ↦
        rw (found, hit)
          (delete_all-hits (keys_to_delete peer (order m)) m k (
            inl (
              keys_to_delete-mem peer (order m) k c ((range m (k, c)).1 (lookup→mem k c m found))
                hit)))
    | inr miss ↦
        rw (found, miss)
          (elim (lookup-delete_all (keys_to_delete peer (order m)) m k) [
            | inr kept ↦ kept ∙ found
            | inl (gone, named) ↦
                let (c', m', hit) = mem-keys_to_delete peer (order m) k named in
                let found' = mem→lookup k c' m unique ((range m (k, c')).0 m') in ground arith
          ])
  ]
]

get-invalidate_peer-eq :
    (order : GoMap Bytes CachedRoute → List (Bytes × CachedRoute)) (peer : Int32) (now : Time)
    (from to : Int32) (rc : RouteCache)
    → IsRange order
    → IsUnique rc.routes
    → get now from to (invalidate_peer order peer rc).0 ≡ elim (get now from to rc) [
      | none ↦ none
      | some r ↦ if passes peer r.path then none else some r
    ]
unfolding get invalidate_peer
get-invalidate_peer-eq order peer now from to rc range unique =
    ground (arith, lookup-invalidated order peer rc.routes (cache_key from to) range unique)

passes-Memᴰ : (peer : Int32) (path : List Int32) → (passes peer path ≡ true) ↔ Memᴰ peer path
unfolding passes
passes-Memᴰ peer [] = (λ h. cc, λ m. absurd (Memᴰ.not-nil m))
passes-Memᴰ peer (id ∷ path) = ground (arith, passes-Memᴰ peer path, Memᴰ-cons peer id path)

-- In a cache without double keys: after `InvalidatePeer` a lookup finds exactly the routes that it
-- found before and that do not lead over the peer, in whatever order the entries are visited.
pub get-invalidate_peer :
    (order : GoMap Bytes CachedRoute → List (Bytes × CachedRoute)) (peer : Int32) (now : Time)
    (from to : Int32) (rc : RouteCache) (r : Route)
    → IsRange order
    → IsUnique rc.routes
    → (get now from to (invalidate_peer order peer rc).0 ≡ some r)
      ↔ ((get now from to rc ≡ some r) × (¬ Memᴰ peer r.path))
get-invalidate_peer order peer now from to rc r range unique =
    let law = get-invalidate_peer-eq order peer now from to rc range unique in
    elim (Option-cases (get now from to rc)) [
      | inl miss ↦ ground (arith, rw miss at law, miss)
      | inr (s, hit) ↦
          ground (arith, rw hit at law, hit, passes-Memᴰ peer s.path, passes-Memᴰ peer r.path)
    ]
