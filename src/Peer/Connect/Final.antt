-- ===== src/Peer/Connect/Final.antt =====
-- How `ConnectToPeers` leaves the node.
use mathlib.Core.List.{Memᴰ}
use file_sharing_system_with.Prelude.{
  ◌^◌, ◌<◌, ◌≡◌, ◌≢◌, refl, false, Option, none, some, List, [], ◌∷◌, nat_eq, ◌==◌, if◌then◌else◌,
  ap, sym, subst, ◌∙◌, All, All_of_Memᴰ,
}
use file_sharing_system_with.Word.{Int32, Int64}
use file_sharing_system_with.Routing.Types.{Time}
use file_sharing_system_with.Bootstrap.{PeerInfo}
use file_sharing_system_with.Peer.Node.{PeerNode, measure_latency}
use file_sharing_system_with.Peer.Connect.{
  Contact, Action, goroutine, steps, spawn, run, Interleave, ConnectToPeers,
}
use file_sharing_system_with.Peer.Connect.Threads.{target, only, only-Interleave, interleave}
use file_sharing_system_with.Peer.Connect.Views.{View, view, see, see_all, run-id, view-run}
use file_sharing_system_with.Peer.Connect.Spawn.{
  Distinct, goroutine-target, All-map, spawn-Threads, Interleave-All, spawn-others, spawn-HasThread,
}

module _ {C : Type 0} where
  -- What the node keeps about a peer after it has tried to connect to it, from the connection and the
  -- latency.
  pub contacted : Int32 → PeerInfo → Time → Option C → Option Int64 → View C → View C
  contacted self info now none latency v = v
  contacted self info now (some conn) none v = record v {
    connection = some conn;
    known = some (record { id = info.peer_id; address = info.address; last_seen = now });
  }
  contacted self info now (some conn) (some latency) v = record {
    connection = some conn;
    known = some (record { id = info.peer_id; address = info.address; last_seen = now });
    link = some (record { from = self; to = info.peer_id; latency_ms = latency });
  }

  steps-contacted :
      (self : Int32) (info : PeerInfo) (now : Time) (conn : Option C) (latency : Option Int64)
      (v : View C)
      → see_all self (steps info now conn latency) v ≡ contacted self info now conn latency v
  unfolding steps contacted see see_all
  steps-contacted self info now none latency v = refl
  steps-contacted self info now (some conn) none v = refl
  steps-contacted self info now (some conn) (some latency) v = refl

  -- All peers of the list have 32-bit identifiers.
  abbrev pub InRange : List (PeerInfo × Contact C) → Type 0
  InRange = All (λ e. e.0.peer_id < 2 ^ 32)

  trace-InRange :
      (self : Int32) (peers : List (PeerInfo × Contact C)) (trace : List (Action C))
      → InRange peers
      → Interleave (spawn self peers) trace
      → All (λ (a : Action C). target a < 2 ^ 32) trace
  trace-InRange self peers trace range h =
      Interleave-All (λ a. target a < 2 ^ 32) (spawn self peers) trace
        (spawn-Threads (λ a. target a < 2 ^ 32) self peers
          (λ e other m.
            let small =
              All_of_Memᴰ (λ (x : PeerInfo × Contact C). x.0.peer_id < 2 ^ 32) peers range m in
            All-map (goroutine e.0 e.1) (λ a same. subst (λ x. x < 2 ^ 32) (sym same) small)
              (goroutine-target e.0 e.1)))
        h

  only_none :
      (k : Int32) (trace : List (Action C))
      → All (λ (a : Action C). (target a == k) ≡ false) trace
      → only k trace ≡ []
  unfolding only
  only_none k [] h = refl
  only_none k (a ∷ trace) h =
      ap (λ b. if b then a ∷ only k trace else only k trace) h.0 ∙ only_none k trace h.1

  untouched :
      (self k : Int32) (peers : List (PeerInfo × Contact C)) (trace : List (Action C))
      → All (λ (e : PeerInfo × Contact C). e.0.peer_id ≢ k) peers
      → Interleave (spawn self peers) trace
      → only k trace ≡ []
  untouched self k peers trace h run = only_none k trace (
      Interleave-All (λ a. (target a == k) ≡ false) (spawn self peers) trace
        (spawn-others self k peers h) run)

  module _ (peers : List (PeerInfo × Contact C)) (p p' : PeerNode C) (self : p.id < 2 ^ 32)
      (range : InRange peers) (connects : ConnectToPeers peers p p') where
    -- However the goroutines interleave, the node that `ConnectToPeers` leaves has for each other peer of
    -- the list the connection if the peer was dialled, then also the peer as a node, and the edge
    -- with its latency if it was measured; what was not measured is as before. The identifiers of the
    -- list are distinct and, like the node's own, of 32 bits.
    pub ConnectToPeers-contacted :
        Distinct peers
        → (info : PeerInfo) (c : Contact C) → Memᴰ (info, c) peers
        → info.peer_id ≢ p.id
        → view info.peer_id p'
          ≡ contacted p.id info c.now c.dialled (measure_latency c.ping) (view info.peer_id p)
    unfolding ConnectToPeers see_all goroutine
    ConnectToPeers-contacted distinct info c m other =
        let (trace, interleaved, e) = connects in
        let (n, owns, thread) = spawn-HasThread p.id info c peers distinct m other in
        let k = info.peer_id in
        ap (view k) e
        ∙ view-run k trace p
            (All_of_Memᴰ (λ (x : PeerInfo × Contact C). x.0.peer_id < 2 ^ 32) peers range m) self
            (trace-InRange p.id peers trace range interleaved)
        ∙ ap (λ x. see_all p.id x (view k p))
            (only-Interleave k n (spawn p.id peers) trace owns interleaved ∙ thread)
        ∙ steps-contacted p.id info c.now c.dialled (measure_latency c.ping) (view k p)

    -- `ConnectToPeers` changes nothing about a peer outside the list.
    pub ConnectToPeers-others :
        (k : Int32)
        → k < 2 ^ 32
        → All (λ (e : PeerInfo × Contact C). e.0.peer_id ≢ k) peers
        → view k p' ≡ view k p
    unfolding ConnectToPeers see_all
    ConnectToPeers-others k hk absent =
        let (trace, interleaved, e) = connects in
        ap (view k) e
        ∙ view-run k trace p hk self (trace-InRange p.id peers trace range interleaved)
        ∙ ap (λ x. see_all p.id x (view k p)) (untouched p.id k peers trace absent interleaved)

-- There is an interleaving of the goroutines, and what it leaves has the identifier of the node.
pub ConnectToPeers-returns :
    {C : Type 0} (peers : List (PeerInfo × Contact C)) (p : PeerNode C)
    → (p' : PeerNode C) × ConnectToPeers peers p p' × (p'.id ≡ p.id)
unfolding ConnectToPeers
ConnectToPeers-returns peers p =
    let (trace, interleaved) = interleave (spawn p.id peers) in
    (run trace p, (trace, interleaved, refl), run-id trace p)
