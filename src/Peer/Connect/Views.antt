-- ===== src/Peer/Connect/Views.antt =====
-- What a node keeps about one peer, and how a run changes it.
use file_sharing_system_with.Prelude.{
  ℕ, ◌^◌, ◌<◌, ◌≡◌, refl, Bool, true, false, ◌&&◌, Option, some, List, [], ◌∷◌, bytes_eq, nat_eq,
  arith, ◌==◌, if◌then◌else◌, ap, sym, subst, ◌∙◌, All, Bool-cases, inl, inr,
}
use file_sharing_system_with.Word.{Int32}
use file_sharing_system_with.GoMap.{lookup}
use file_sharing_system_with.GoMap.Laws.{lookup-insert}
use file_sharing_system_with.Peer.Network.{NetworkNode, NetworkEdge, add_node, add_edge, edge_key}
use file_sharing_system_with.Peer.Network.History.{edge_key-beq}
use file_sharing_system_with.Peer.Node.{PeerNode}
use file_sharing_system_with.Peer.Connect.{
  Action, store_connection, write_node, write_edge, act, run,
}
use file_sharing_system_with.Peer.Connect.Threads.{target, only}

pub record View (C : Type 0) : Type 0 where
  pub connection : Option C
  pub known : Option NetworkNode
  pub link : Option NetworkEdge

ap-if :
    {A B : Type 0} (f : A → B) (b : Bool) (x y : A)
    → f (if b then x else y) ≡ (if b then f x else f y)
ap-if f true x y = refl
ap-if f false x y = refl

own_and : (a : ℕ) (b : Bool) → (a == a && b) ≡ b
own_and a b = ground arith

module _ {C : Type 0} where
  abbrev pub view : Int32 → PeerNode C → View C
  view k p = record {
    connection = lookup k p.connections;
    known = lookup k p.graph.nodes;
    link = lookup (edge_key p.id k) p.graph.edges;
  }

  -- A step as the peer it is about sees it.
  unfoldable pub see : Int32 → Action C → View C → View C
  see self (store_connection id conn) v = record v { connection = some conn }
  see self (write_node now id address) v = record v {
    known = some (record { id = id; address = address; last_seen = now });
  }
  see self (write_edge to latency) v = record v {
    link = some (record { from = self; to = to; latency_ms = latency });
  }

  unfoldable pub see_all : Int32 → List (Action C) → View C → View C
  see_all self [] v = v
  see_all self (a ∷ trace) v = see_all self trace (see self a v)

  view-act :
      (k : Int32) (a : Action C) (p : PeerNode C)
      → k < 2 ^ 32
      → p.id < 2 ^ 32
      → target a < 2 ^ 32
      → view k (act a p) ≡ (if target a == k then see p.id a (view k p) else view k p)
  unfolding act see target add_node add_edge
  view-act k (store_connection id conn) p hk hp ht =
      ap (λ x. record (view k p) { connection = x }) (lookup-insert id k conn p.connections)
      ∙ ap-if (λ x. record (view k p) { connection = x }) (id == k) (some conn)
          (lookup k p.connections)
  view-act k (write_node now id address) p hk hp ht =
      let n : NetworkNode = record { id = id; address = address; last_seen = now } in
      ap (λ x. record (view k p) { known = x }) (lookup-insert id k n p.graph.nodes)
      ∙ ap-if (λ x. record (view k p) { known = x }) (id == k) (some n) (lookup k p.graph.nodes)
  view-act k (write_edge to latency) p hk hp ht =
      let e : NetworkEdge = record { from = p.id; to = to; latency_ms = latency } in
      let old = lookup (edge_key p.id k) p.graph.edges in
      ap (λ x. record (view k p) { link = x })
        (lookup-insert (edge_key p.id to) (edge_key p.id k) e p.graph.edges)
      ∙ ap (λ b. record (view k p) { link = if b then some e else old })
          (edge_key-beq p.id to p.id k hp ht hp hk ∙ own_and p.id (to == k))
      ∙ ap-if (λ x. record (view k p) { link = x }) (to == k) (some e) old

  act-id : (a : Action C) (p : PeerNode C) → (act a p).id ≡ p.id
  unfolding act
  act-id (store_connection id conn) p = refl
  act-id (write_node now id address) p = refl
  act-id (write_edge to latency) p = refl

  pub run-id : (trace : List (Action C)) (p : PeerNode C) → (run trace p).id ≡ p.id
  unfolding run
  run-id [] p = refl
  run-id (a ∷ trace) p = run-id trace (act a p) ∙ act-id a p

  -- After a run, a peer sees the steps about it, and no other.
  pub view-run :
      (k : Int32) (trace : List (Action C)) (p : PeerNode C)
      → k < 2 ^ 32
      → p.id < 2 ^ 32
      → All (λ (a : Action C). target a < 2 ^ 32) trace
      → view k (run trace p) ≡ see_all p.id (only k trace) (view k p)
  unfolding run only see_all
  view-run k [] p hk hp h = refl
  view-run k (a ∷ trace) p hk hp h =
      let id = act-id a p in
      let ih = view-run k trace (act a p) hk (subst (λ x. x < 2 ^ 32) (sym id) hp) h.1 in
      let now = view-act k a p hk hp h.0 in
      let next = ih ∙ ap (λ x. see_all x (only k trace) (view k (act a p))) id in
      elim (Bool-cases (target a == k)) [
        | inl hit ↦
            next
            ∙ ap (see_all p.id (only k trace))
                (now ∙ ap (λ b. if b then see p.id a (view k p) else view k p) hit)
            ∙ ap (λ b. see_all p.id (if b then a ∷ only k trace else only k trace) (view k p))
                (sym hit)
        | inr miss ↦
            next
            ∙ ap (see_all p.id (only k trace))
                (now ∙ ap (λ b. if b then see p.id a (view k p) else view k p) miss)
            ∙ ap (λ b. see_all p.id (if b then a ∷ only k trace else only k trace) (view k p))
                (sym miss)
      ]
