-- ===== src/Bootstrap/Registry.antt =====
-- The registry as a history of its registrations.
use file_sharing_system_with.Prelude.{
  ◌≡◌, refl, Option, none, some, List, [], ◌∷◌, Bytes, nat_eq, arith, ◌==◌, if◌then◌else◌,
}
use file_sharing_system_with.Word.{Int32}
use file_sharing_system_with.GoMap.{lookup}
use file_sharing_system_with.GoMap.Laws.{lookup-insert}
use file_sharing_system_with.GoMap.Unique.{IsUnique, insert-IsUnique}
use file_sharing_system_with.Routing.Types.{Time, unix}
use file_sharing_system_with.Bootstrap.{PeerInfo, BootstrapServer, new_bootstrap_server, store_peer}

-- When a peer registered, its identifier and its address.
pub record Registration : Type 0 where
  pub time : Time
  pub id : Int32
  pub address : Bytes

-- The server after some registrations, the latest of them first.
unfoldable pub registry : List Registration → BootstrapServer
registry [] = new_bootstrap_server
registry (r ∷ history) = store_peer r.time r.id r.address (registry history)

-- What the latest registration of a peer says.
unfoldable pub latest_info : Int32 → List Registration → Option PeerInfo
latest_info k [] = none
latest_info k (r ∷ history) =
    if r.id == k
    then some (record { peer_id = r.id; address = r.address; last_seen = unix r.time })
    else latest_info k history

pub lookup-registry :
    (k : Int32) (history : List Registration)
    → lookup k (registry history).peers ≡ latest_info k history
unfolding registry latest_info store_peer lookup
lookup-registry k [] = refl
lookup-registry k (r ∷ history) = ground (
  arith,
  lookup-insert r.id k (record { peer_id = r.id; address = r.address; last_seen = unix r.time })
      (registry history).peers,
  lookup-registry k history,
)

pub registry-IsUnique : (history : List Registration) → IsUnique (registry history).peers
unfolding registry store_peer
registry-IsUnique [] = tt
registry-IsUnique (r ∷ history) =
    insert-IsUnique r.id (record { peer_id = r.id; address = r.address; last_seen = unix r.time })
      (registry history).peers (registry-IsUnique history)

pub latest_info-id :
    (k : Int32) (p : PeerInfo) (history : List Registration)
    → latest_info k history ≡ some p
    → p.peer_id ≡ k
unfolding latest_info
latest_info-id k p [] h = cc
latest_info-id k p (r ∷ history) h = ground (arith, latest_info-id k p history)
