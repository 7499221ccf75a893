-- ===== src/Bootstrap.antt =====
-- cmd/bootstrap/main.go: `BootstrapServer`. The handlers hold the lock throughout, so each is one step.
-- The order of a range over the map and the shuffle of the random number generator are arguments.
pub mod Registry
pub mod Peers
pub mod Limit
pub mod Different
mod Tests
use file_sharing_system_with.Prelude.{
  ℕ, Bool, true, not, ◌||◌, List, [], ◌∷◌, ◌++◌, Bytes, length, take, ltb, nat_eq, ◌==◌,
  if◌then◌else◌,
}
use file_sharing_system_with.Word.{Int32, Int64, slt32, to_int32}
use file_sharing_system_with.GoMap.{GoMap, insert}
use file_sharing_system_with.GoMap.Range.{Range}
use file_sharing_system_with.Routing.Types.{Time, unix}

pub record PeerInfo : Type 0 where
  pub peer_id : Int32
  pub address : Bytes
  pub last_seen : Int64

pub record BootstrapServer : Type 0 where
  pub peers : GoMap Int32 PeerInfo

abbrev pub new_bootstrap_server : BootstrapServer
new_bootstrap_server = record { peers = [] }

pub record RegisterResponse : Type 0 where
  pub success : Bool
  pub peers : List PeerInfo

-- The peers of the range that are not the excluded one.
unfoldable pub candidates : Int32 → List (Int32 × PeerInfo) → List PeerInfo
candidates exclude_id [] = []
candidates exclude_id ((id, p) ∷ entries) =
    let rest = candidates exclude_id entries in if id == exclude_id then rest else p ∷ rest

unfoldable pub store_peer : Time → Int32 → Bytes → BootstrapServer → BootstrapServer
store_peer now id address s = record s {
  peers = insert id (record { peer_id = id; address = address; last_seen = unix now }) s.peers;
}

-- The loop of `GetPeers`, which stops when the list has reached the limit.
pub get_loop : Int32 → List (Int32 × PeerInfo) → List PeerInfo → List PeerInfo
get_loop limit [] peers = peers
get_loop limit ((id, p) ∷ entries) peers =
    let peers' = peers ++ p ∷ [] in
    let rest = get_loop limit entries peers' in
    if not (slt32 (to_int32 (length peers')) limit) then peers' else rest

-- limit <= 0 on int32
pub effective_limit : Int32 → Int32
effective_limit limit = if slt32 limit 0 || limit == 0 then 10 else limit

module _ (order : Range Int32 PeerInfo) where
  module _ (shuffle : List PeerInfo → List PeerInfo) where
    unfoldable pub get_random_peers : Int32 → ℕ → BootstrapServer → List PeerInfo
    get_random_peers exclude_id count s =
        let shuffled = shuffle (candidates exclude_id (order s.peers)) in
        if ltb count (length shuffled) then take count shuffled else shuffled

    unfoldable pub register_peer :
        Time → Int32 → Bytes → BootstrapServer → RegisterResponse × BootstrapServer
    register_peer now id address s =
        let s' = store_peer now id address s in
        (record { success = true; peers = get_random_peers id 3 s' }, s')

  pub get_peers : Int32 → BootstrapServer → List PeerInfo
  get_peers limit s = get_loop (effective_limit limit) (order s.peers) []
