-- ===== src/Bootstrap/Tests.antt =====
-- Runs of the handlers, and the theorems at a concrete registry.
use mathlib.Core.List.{Memᴰ}
use mathlib.Core.List.Permᴰ
use Prim.Native.Nat.{min}
use file_sharing_system_with.Prelude.{
  ◌*◌, ◌^◌, ◌≤◌, ◌<◌, ◌≡◌, ◌≢◌, refl, some, List, [], ◌∷◌, length, ◌&&◌, ltb, if◌then◌else◌, map,
  arith, Apart,
}
use file_sharing_system_with.Word.{Int32, slt32}
use file_sharing_system_with.GoMap.{insert}
use file_sharing_system_with.Routing.Types.{unix}
use file_sharing_system_with.Bootstrap.{
  PeerInfo, candidates, get_random_peers, store_peer, register_peer, get_loop, effective_limit,
  get_peers,
}
use file_sharing_system_with.Bootstrap.Registry.{Registration, registry, latest_info}
use file_sharing_system_with.Bootstrap.Different.{register_peer-Apart}
use file_sharing_system_with.Bootstrap.Peers.{register_peer-exact}
use file_sharing_system_with.Bootstrap.Limit.{get_peers-exact}

abbrev registration : Int32 → Registration
registration id = record { time = 5 * 10 ^ 9; id = id; address = b'p' ∷ [] }

abbrev newcomer : Registration
newcomer = registration 4

abbrev five : List Registration
five = map registration (9 ∷ 4 ∷ 7 ∷ 6 ∷ 5 ∷ [])

runs :
    (map (λ (p : PeerInfo). p.peer_id) (get_peers (λ m. m) 2 (registry five)) ≡ 5 ∷ 6 ∷ [])
    × (map (λ (p : PeerInfo). p.peer_id) (get_peers (λ m. m) 0 (registry five))
        ≡ 5 ∷ 6 ∷ 7 ∷ 4 ∷ 9 ∷ [])
    × (map
          (λ (p : PeerInfo). p.peer_id)
          (register_peer (λ m. m) (λ ps. ps) 9 5 [] (registry five)).0.peers
        ≡ 6 ∷ 7 ∷ 4 ∷ [])
unfolding candidates get_random_peers store_peer register_peer get_loop effective_limit get_peers
    registry slt32 insert unix
runs = (refl, refl, refl)

register_peer-exact_example :
    let (response, s) =
      register_peer
        (λ m. m)
        (λ ps. ps)
        newcomer.time
        newcomer.id
        newcomer.address
        (registry five) in
    (s ≡ registry (newcomer ∷ five))
    × (length response.peers ≤ 3)
    × ((p : PeerInfo)
        → Memᴰ p response.peers
        → (p.peer_id ≢ newcomer.id) × (latest_info p.peer_id five ≡ some p))
    × (length response.peers < 3
        → (p : PeerInfo) → p.peer_id ≢ newcomer.id
        → latest_info p.peer_id five ≡ some p
        → Memᴰ p response.peers)
register_peer-exact_example =
    register_peer-exact (λ m. m) (λ m. Permᴰ.refl m) (λ ps. ps) (λ ps. Permᴰ.refl ps) newcomer five

five_registered : length (registry five).peers ≡ 5
unfolding registry store_peer insert
five_registered = refl

get_peers-exact_example :
    (length (get_peers (λ m. m) 2 (registry five))
      ≡ min (if ltb 0 2 && ltb 2 (2 ^ 31) then 2 else 10) (length (registry five).peers))
    × ((p : PeerInfo)
        → Memᴰ p (get_peers (λ m. m) 2 (registry five))
        → latest_info p.peer_id five ≡ some p)
get_peers-exact_example =
    get_peers-exact (λ m. m) (λ m. Permᴰ.refl m) 2 five (omega arith)
      (omega (arith, five_registered))

register_peer-Apart_example :
    Apart
      (λ (p : PeerInfo). p.peer_id)
      (register_peer
        (λ m. m)
        (λ ps. ps)
        newcomer.time
        newcomer.id
        newcomer.address
        (registry five)).0.peers
register_peer-Apart_example =
    register_peer-Apart (λ m. m) (λ m. Permᴰ.refl m) (λ ps. ps) (λ ps. Permᴰ.refl ps) newcomer five
