-- ===== src/Bootstrap/Limit.antt =====
-- How many peers `GetPeers` returns.
use mathlib.Core.List.{Memᴰ}
use mathlib.Core.List.Memᴰ
use Prim.Native.Nat.{min}
use file_sharing_system_with.Prelude.{
  ◌+◌, ◌^◌, ◌<◌, ◌≡◌, ◌⊎◌, inl, inr, not, ◌&&◌, some, List, [], ◌∷◌, ◌++◌, nat_eq, arith, length,
  ltb, if◌then◌else◌, ap, sym, subst, ◌∙◌, Bool-cases, Permᴰ-Memᴰ, Permᴰ-length, length-append,
  Memᴰ-append,
}
use file_sharing_system_with.Word.{Int32, slt32, slt32_small, to_int32}
use file_sharing_system_with.GoMap.Range.{Range, IsRanging}
use file_sharing_system_with.GoMap.Unique.{mem→lookup}
use file_sharing_system_with.Bootstrap.{PeerInfo, get_loop, effective_limit, get_peers}
use file_sharing_system_with.Bootstrap.Registry.{
  Registration, registry, latest_info, lookup-registry, registry-IsUnique, latest_info-id,
}

get_loop-member :
    (limit : Int32) (p : PeerInfo) (entries : List (Int32 × PeerInfo)) (found : List PeerInfo)
    → Memᴰ p (get_loop limit entries found)
    → Memᴰ p found ⊎ ((k : Int32) × Memᴰ (k, p) entries)
unfolding get_loop
get_loop-member limit p [] found h = inl h
get_loop-member limit p ((id, q) ∷ entries) found h =
    let found' = found ++ q ∷ [] in
    let rest = get_loop limit entries found' in
    let from_found' : Memᴰ p found'
        → Memᴰ p found ⊎ ((k : Int32) × Memᴰ (k, p) ((id, q) ∷ entries)) =
      λ m. elim ((Memᴰ-append p found (q ∷ [])).0 m) [
        | inl early ↦ inl early
        | inr last ↦ elim (Memᴰ.cases_cons last) [
          | inl here ↦ inr (id, Memᴰ.head (ap (λ y. (id, y)) here))
          | inr none_left ↦ absurd (Memᴰ.not-nil none_left)
        ]
      ] in
    elim (Bool-cases (not (slt32 (to_int32 (length found')) limit))) [
      | inl full ↦ from_found' (subst (λ b. Memᴰ p (if b then found' else rest)) full h)
      | inr more ↦
          elim (get_loop-member limit p entries found'
            (subst (λ b. Memᴰ p (if b then found' else rest)) more h)) [
              | inl early ↦ from_found' early
              | inr (k, later) ↦ inr (k, Memᴰ.tail later)
            ]
    ]

get_loop-length :
    (limit : Int32) (entries : List (Int32 × PeerInfo)) (found : List PeerInfo)
    → length found < limit
    → limit < 2 ^ 31
    → length (get_loop limit entries found) ≡ min limit (length found + length entries)
unfolding get_loop
get_loop-length limit [] found short range = omega arith
get_loop-length limit ((id, q) ∷ entries) found short range = ground (
  arith,
  length-append found (q ∷ []),
  slt32_small (length (found ++ q ∷ [])) limit,
  get_loop-length limit entries (found ++ q ∷ []),
)

effective_limit_lem :
    (limit : Int32)
    → limit < 2 ^ 32
    → effective_limit limit ≡ (if ltb 0 limit && ltb limit (2 ^ 31) then limit else 10)
unfolding effective_limit slt32
effective_limit_lem limit h = ground arith

effective_limit_range :
    (limit : Int32)
    → limit < 2 ^ 32
    → (0 < effective_limit limit) × (effective_limit limit < 2 ^ 31)
unfolding effective_limit slt32
effective_limit_range limit h = ground arith

module _ (order : Range Int32 PeerInfo) (fair : IsRanging order) where
  -- In whatever order the registry is visited, `GetPeers` returns as many of the registered peers, each
  -- with its latest registration, as the limit allows: the limit is 10 where the request gives none
  -- or a negative one. The registry has fewer than 2 ^ 31 peers.
  pub get_peers-exact :
      (limit : Int32) (history : List Registration)
      → limit < 2 ^ 32
      → length (registry history).peers < 2 ^ 31
      → (length (get_peers order limit (registry history))
          ≡ min
              (if ltb 0 limit && ltb limit (2 ^ 31) then limit else 10)
              (length (registry history).peers))
        × ((p : PeerInfo)
            → Memᴰ p (get_peers order limit (registry history))
            → latest_info p.peer_id history ≡ some p)
  unfolding get_peers
  get_peers-exact limit history range small =
      let m = (registry history).peers in
      let (positive, bounded) = effective_limit_range limit range in
      (
        omega (
          arith,
          get_loop-length (effective_limit limit) (order m) [] positive bounded,
          Permᴰ-length (fair m),
          effective_limit_lem limit range,
        ),
        λ p h. elim (get_loop-member (effective_limit limit) p (order m) [] h) [
          | inl nowhere ↦ absurd (Memᴰ.not-nil nowhere)
          | inr (k, entry) ↦
              let found =
                mem→lookup k p m (registry-IsUnique history) (Permᴰ-Memᴰ (k, p) (fair m) entry) in
              let latest = sym (lookup-registry k history) ∙ found in
              subst (λ x. latest_info x history ≡ some p) (sym (latest_info-id k p history latest))
                latest
        ],
      )
