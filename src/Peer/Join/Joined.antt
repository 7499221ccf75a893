-- ===== src/Peer/Join/Joined.antt =====
-- A peer that joins through the bootstrap server.
use mathlib.Core.List.{Memᴰ, Permᴰ}
use mathlib.Core.List.Memᴰ
use file_sharing_system_with.Prelude.{
  ℕ, ◌^◌, ◌<◌, ◌≡◌, ◌≢◌, true, false, some, List, [], ◌∷◌, map, arith, nat_eq, nat_beq_iff, ◌==◌,
  if◌then◌else◌, ap, ◌∙◌, All, All-intro, Apart,
}
use file_sharing_system_with.Word.{Int32}
use file_sharing_system_with.GoMap.{lookup}
use file_sharing_system_with.GoMap.Range.{Range, IsRanging}
use file_sharing_system_with.GoMap.Laws.{lookup-insert}
use file_sharing_system_with.Routing.Types.{Time}
use file_sharing_system_with.Bootstrap.{PeerInfo, RegisterResponse, register_peer}
use file_sharing_system_with.Bootstrap.Registry.{Registration, registry, latest_info}
use file_sharing_system_with.Bootstrap.Peers.{register_peer-exact}
use file_sharing_system_with.Bootstrap.Different.{register_peer-Apart}
use file_sharing_system_with.Peer.Network.{NetworkNode, add_node}
use file_sharing_system_with.Peer.Node.{PeerNode, measure_latency, register_with_bootstrap}
use file_sharing_system_with.Peer.Connect.{Contact, ConnectToPeers}
use file_sharing_system_with.Peer.Connect.Views.{view}
use file_sharing_system_with.Peer.Connect.Spawn.{Distinct}
use file_sharing_system_with.Peer.Connect.Final.{contacted, ConnectToPeers-contacted}
use file_sharing_system_with.Peer.Join.{Joins}

latest_info_range :
    (k : Int32) (p : PeerInfo) (history : List Registration)
    → All (λ (r : Registration). r.id < 2 ^ 32) history
    → latest_info k history ≡ some p
    → p.peer_id < 2 ^ 32
unfolding latest_info
latest_info_range k p [] range h = cc
latest_info_range k p (r ∷ history) range h =
    ground (arith, range.0, latest_info_range k p history range.1)

-- The answer of a server that has seen some registrations.
abbrev pub answer :
    {C : Type 0}
    → Range Int32 PeerInfo
    → (List PeerInfo → List PeerInfo)
    → Time
    → List Registration
    → PeerNode C
    → RegisterResponse
answer order shuffle time history p =
    (register_peer order shuffle time p.id p.address (registry history)).0

module _ {C : Type 0} (contact : PeerInfo → Contact C) where
  map-All :
      (P : ℕ → Type 0) (qs : List PeerInfo)
      → All (λ (p : PeerInfo). P p.peer_id) qs
      → All (λ (e : PeerInfo × Contact C). P e.0.peer_id) (map (λ q. (q, contact q)) qs)
  map-All P [] h = tt
  map-All P (q ∷ qs) h = (h.0, map-All P qs h.1)

  map-Distinct :
      (peers : List PeerInfo)
      → Apart (λ (p : PeerInfo). p.peer_id) peers
      → Distinct (map (λ q. (q, contact q)) peers)
  map-Distinct [] a = tt
  map-Distinct (info ∷ peers) a =
      (map-All (λ x. x ≢ info.peer_id) peers a.0, map-Distinct peers a.1)

  -- Registering adds only the node itself.
  view-register :
      (k : Int32) (now : Time) (p : PeerNode C)
      → k ≢ p.id
      → view k (record p { graph = add_node now p.id p.address p.graph }) ≡ view k p
  unfolding add_node
  view-register k now p other =
      let n : NetworkNode = record { id = p.id; address = p.address; last_seen = now } in
      let read = lookup-insert p.id k n p.graph.nodes in
      let miss : (p.id == k) ≡ false = ground (arith, nat_beq_iff p.id k) in
      ap (λ x. record (view k p) { known = x })
        (read ∙ ap (λ b. if b then some n else lookup k p.graph.nodes) miss)

  module _ (order : Range Int32 PeerInfo) (fair : IsRanging order)
      (shuffle : List PeerInfo → List PeerInfo)
      (shuffled : (ps : List PeerInfo) → Permᴰ (shuffle ps) ps) where
    Joins-connects :
        (peers : List PeerInfo) (p p' : PeerNode C) (info : PeerInfo)
        → Joins contact (some peers, p) p'
        → Memᴰ info peers
        → ConnectToPeers (map (λ q. (q, contact q)) peers) p p'
    unfolding Joins
    Joins-connects [] p p' info h m = absurd (Memᴰ.not-nil m)
    Joins-connects (q ∷ qs) p p' info h m = h

    -- In whatever order the server visits its registry and however it shuffles: a node that registers with
    -- a server that has seen some registrations, and connects to the peers of the answer in any
    -- interleaving, has afterwards for each of them, under its latest registration, the connection if it
    -- was dialled, then also the node, and the edge with its latency if that was measured. All
    -- identifiers are of 32 bits.
    pub Joins-contacted :
        (time now : Time) (history : List Registration) (p p' : PeerNode C)
        → p.id < 2 ^ 32
        → All (λ (r : Registration). r.id < 2 ^ 32) history
        → Joins contact
            (register_with_bootstrap true (some (answer order shuffle time history p)) now p)
            p'
        → (info : PeerInfo) → Memᴰ info (answer order shuffle time history p).peers
        → (latest_info info.peer_id history ≡ some info)
          × (view info.peer_id p'
              ≡ contacted p.id info
                  (contact info).now
                  (contact info).dialled
                  (measure_latency (contact info).ping)
                  (view info.peer_id p))
    unfolding register_with_bootstrap register_peer
    Joins-contacted time now history p p' small range joins info m =
        let r : Registration = record { time = time; id = p.id; address = p.address } in
        let peers = (answer order shuffle time history p).peers in
        let (_, _, sound, _) = register_peer-exact order fair shuffle shuffled r history in
        let apart = register_peer-Apart order fair shuffle shuffled r history in
        let (other, latest) = sound info m in
        let p1 = record p { graph = add_node now p.id p.address p.graph } in
        let in_range =
          map-All (λ x. x < 2 ^ 32) peers
            (All-intro (λ (q : PeerInfo). q.peer_id < 2 ^ 32) peers
              (λ q mq. latest_info_range q.peer_id q history range (sound q mq).1)) in
        let c = contact info in
        (
          latest,
          ConnectToPeers-contacted (map (λ q. (q, contact q)) peers) p1 p' small in_range
                (Joins-connects peers p1 p' info joins m) (map-Distinct peers apart) info c
                (Memᴰ.map (λ q. (q, contact q)) m) other
              ∙ ap (contacted p.id info c.now c.dialled (measure_latency c.ping))
                  (view-register info.peer_id now p other),
        )
