-- ===== src/Peer/Connect/Spawn.antt =====
-- Which goroutine acts on which peer.
use mathlib.Core.List.{Memᴰ}
use mathlib.Core.List.Memᴰ
use file_sharing_system_with.Prelude.{
  ℕ, zero, suc, ◌≡◌, ◌≢◌, refl, inl, inr, Bool, false, Option, none, some, List, [], ◌∷◌, get_or,
  set, nat_eq, nat_beq_iff, arith, ◌==◌, if◌then◌else◌, ap, sym, subst, ◌∙◌, All, All_of_Memᴰ,
  Bool-cases,
}
use file_sharing_system_with.Word.{Int32, Int64}
use file_sharing_system_with.Routing.Types.{Time}
use file_sharing_system_with.Bootstrap.{PeerInfo}
use file_sharing_system_with.Peer.Node.{measure_latency}
use file_sharing_system_with.Peer.Connect.{
  Contact, Action, goroutine, steps, spawn, Interleave, finished, goes_on,
}
use file_sharing_system_with.Peer.Connect.Threads.{target, Owns}

-- No two entries have the same peer.
abbrev pub Distinct : {C : Type 0} → List (PeerInfo × Contact C) → Type 0
Distinct {C = C} [] = Unit
Distinct {C = C} ((info, c) ∷ peers) =
    All (λ (e : PeerInfo × Contact C). e.0.peer_id ≢ info.peer_id) peers × Distinct peers

module _ {C : Type 0} where
  steps-target :
      (info : PeerInfo) (now : Time) (conn : Option C) (latency : Option Int64)
      → All (λ (a : Action C). target a ≡ info.peer_id) (steps info now conn latency)
  unfolding steps target
  steps-target info now none latency = tt
  steps-target info now (some conn) none = (refl, (refl, tt))
  steps-target info now (some conn) (some latency) = (refl, (refl, (refl, tt)))

  pub goroutine-target :
      (info : PeerInfo) (c : Contact C)
      → All (λ (a : Action C). target a ≡ info.peer_id) (goroutine info c)
  unfolding goroutine
  goroutine-target info c = steps-target info c.now c.dialled (measure_latency c.ping)

  pub All-map :
      {P Q : Action C → Type 0} (actions : List (Action C))
      → ((a : Action C) → P a → Q a)
      → All P actions
      → All Q actions
  All-map [] f h = tt
  All-map (a ∷ actions) f h = (f a h.0, All-map actions f h.1)

  -- A property of the steps of all goroutines.
  abbrev pub Threads : (Action C → Type 0) → List (List (Action C)) → Type 0
  Threads P threads = (j : ℕ) → All P (get_or threads j [])

  Threads-cons :
      (P : Action C → Type 0) (thread : List (Action C)) (threads : List (List (Action C)))
      → All P thread
      → Threads P threads
      → Threads P (thread ∷ threads)
  Threads-cons P thread threads h hs zero = h
  Threads-cons P thread threads h hs (suc j) = hs j

  pub spawn-Threads :
      (P : Action C → Type 0) (self : Int32) (peers : List (PeerInfo × Contact C))
      → ((e : PeerInfo × Contact C) → e.0.peer_id ≢ self → Memᴰ e peers → All P (goroutine e.0 e.1))
      → Threads P (spawn self peers)
  unfolding spawn
  spawn-Threads P self [] h = λ j. tt
  spawn-Threads P self ((info, c) ∷ peers) h =
      let rest = spawn-Threads P self peers (λ e other m. h e other (Memᴰ.tail m)) in
      elim (Bool-cases (info.peer_id == self)) [
        | inl own ↦
            subst
              (λ b. Threads P (if b then spawn self peers else goroutine info c ∷ spawn self peers))
              (sym own) rest
        | inr other ↦
            let differs : info.peer_id ≢ self =
              λ same. ground (arith, nat_beq_iff info.peer_id self) in
            subst
              (λ b. Threads P (if b then spawn self peers else goroutine info c ∷ spawn self peers))
              (sym other)
              (Threads-cons P (goroutine info c) (spawn self peers)
                (h (info, c) differs (Memᴰ.head refl)) rest)
      ]

  set-Threads :
      (P : Action C → Type 0) (threads : List (List (Action C))) (i : ℕ) (rest : List (Action C))
      → All P rest
      → Threads P threads
      → Threads P (set threads i rest)
  set-Threads P [] i rest h hs = hs
  set-Threads P (thread ∷ threads) zero rest h hs = Threads-cons P rest threads h (λ j. hs (suc j))
  set-Threads P (thread ∷ threads) (suc i) rest h hs =
      Threads-cons P thread (set threads i rest) (hs 0)
        (set-Threads P threads i rest h (λ j. hs (suc j)))

  pub Interleave-All :
      (P : Action C → Type 0) (threads : List (List (Action C))) (trace : List (Action C))
      → Threads P threads
      → Interleave threads trace
      → All P trace
  Interleave-All P threads trace hs (finished _ h) = tt
  Interleave-All P threads trace hs (goes_on _ i a rest trace' h later) =
      let step = subst (All P) h (hs i) in
      (
        step.0,
        Interleave-All P (set threads i rest) trace' (set-Threads P threads i rest step.1 hs) later,
      )

  -- The goroutines are not about peers outside the list.
  pub spawn-others :
      (self k : Int32) (peers : List (PeerInfo × Contact C))
      → All (λ (e : PeerInfo × Contact C). e.0.peer_id ≢ k) peers
      → Threads (λ a. (target a == k) ≡ false) (spawn self peers)
  spawn-others self k peers h =
      spawn-Threads (λ a. (target a == k) ≡ false) self peers
        (λ e other m.
          let differs = All_of_Memᴰ (λ (x : PeerInfo × Contact C). x.0.peer_id ≢ k) peers h m in
          All-map (goroutine e.0 e.1) (λ a same. ground (arith, nat_beq_iff (target a) k))
            (goroutine-target e.0 e.1))

  -- One of the threads is the goroutine of a peer, and only that thread is about the peer.
  abbrev pub HasThread : PeerInfo → Contact C → List (List (Action C)) → Type 0
  HasThread info c threads =
      (n : ℕ) × Owns info.peer_id n threads × (get_or threads n [] ≡ goroutine info c)

  Owns-head :
      (k : Int32) (thread : List (Action C)) (threads : List (List (Action C)))
      → All (λ (a : Action C). target a ≡ k) thread
      → Threads (λ a. (target a == k) ≡ false) threads
      → Owns k 0 (thread ∷ threads)
  Owns-head k thread threads h hs zero =
      All-map thread (λ a same. ground (arith, nat_beq_iff (target a) k)) h
  Owns-head k thread threads h hs (suc j) =
      All-map (get_or threads j []) (λ a differs. ground (arith, differs)) (hs j)

  Owns-tail :
      (k : Int32) (n : ℕ) (thread : List (Action C)) (threads : List (List (Action C)))
      → All (λ (a : Action C). (target a == k) ≡ false) thread
      → Owns k n threads
      → Owns k (suc n) (thread ∷ threads)
  Owns-tail k n thread threads h hs zero = All-map thread (λ a differs. ground (arith, differs)) h
  Owns-tail k n thread threads h hs (suc j) =
      All-map (get_or threads j []) (λ a same. ground (arith, same)) (hs j)

  pub spawn-HasThread :
      (self : Int32) (info : PeerInfo) (c : Contact C) (peers : List (PeerInfo × Contact C))
      → Distinct peers
      → Memᴰ (info, c) peers
      → info.peer_id ≢ self
      → HasThread info c (spawn self peers)
  unfolding spawn
  spawn-HasThread self info c [] d m other = absurd (Memᴰ.not-nil m)
  spawn-HasThread self info c ((info', c') ∷ peers) d m other =
      let goal : Bool → Type 0 = λ b.
        HasThread info c (if b then spawn self peers else goroutine info' c' ∷ spawn self peers) in
      elim (Memᴰ.cases_cons m) [
        | inl here ↦
            let id : info'.peer_id ≡ info.peer_id =
              ap (λ (e : PeerInfo × Contact C). e.0.peer_id) (sym here) in
            let thread : goroutine info' c' ≡ goroutine info c =
              ap (λ (e : PeerInfo × Contact C). goroutine e.0 e.1) (sym here) in
            let spawned : (info'.peer_id == self) ≡ false =
              ground (arith, nat_beq_iff info'.peer_id self) in
            subst goal (sym spawned) (
              0,
              Owns-head info.peer_id (goroutine info' c') (spawn self peers)
                  (All-map (goroutine info' c') (λ a e. e ∙ id) (goroutine-target info' c'))
                  (spawn-others self info.peer_id peers (
                    subst (λ k. All (λ (e : PeerInfo × Contact C). e.0.peer_id ≢ k) peers) id d.0)),
              thread,
            )
        | inr later ↦
            let (n, owns, thread) = spawn-HasThread self info c peers d.1 later other in
            let differs : info.peer_id ≢ info'.peer_id =
              All_of_Memᴰ (λ (e : PeerInfo × Contact C). e.0.peer_id ≢ info'.peer_id) peers d.0
                later in
            elim (Bool-cases (info'.peer_id == self)) [
              | inl own ↦ subst goal (sym own) (n, owns, thread)
              | inr spawned ↦ subst goal (sym spawned) (
                suc n,
                Owns-tail info.peer_id n (goroutine info' c') (spawn self peers)
                    (All-map (goroutine info' c')
                      (λ a e. ground (arith, nat_beq_iff (target a) info.peer_id, e, differs))
                      (goroutine-target info' c'))
                    owns,
                thread,
              )
            ]
      ]
