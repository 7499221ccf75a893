-- ===== src/Peer/Connect/Threads.antt =====
-- Interleavings: they exist, and what one of them does to a peer is what the peer's goroutine does.
use file_sharing_system_with.Prelude.{
  ℕ, zero, suc, ◌<◌, ◌≡◌, refl, ◌&&◌, List, [], ◌∷◌, ◌++◌, get_or, set, length, ltb, nat_eq,
  nat_beq_iff, arith, ◌==◌, if◌then◌else◌, ap, sym, subst, ◌∙◌, All, Bool-cases, inl, inr,
}
use file_sharing_system_with.Word.{Int32}
use file_sharing_system_with.Peer.Connect.{
  Action, store_connection, write_node, write_edge, Interleave, finished, goes_on,
}

get_or-set :
    {A : Type 0} (xs : List A) (i j : ℕ) (v d : A)
    → get_or (set xs i v) j d ≡ (if i == j && ltb i (length xs) then v else get_or xs j d)
get_or-set [] i j v d = ground arith
get_or-set (x ∷ xs) zero zero v d = ground arith
get_or-set (x ∷ xs) zero (suc j) v d = ground arith
get_or-set (x ∷ xs) (suc i) zero v d = ground arith
get_or-set (x ∷ xs) (suc i) (suc j) v d = get_or-set xs i j v d ∙ ground arith

get_or-in_range :
    {A : Type 0} (xss : List (List A)) (i : ℕ) (x : A) (xs : List A)
    → get_or xss i [] ≡ x ∷ xs
    → i < length xss
get_or-in_range [] i x xs h = cc
get_or-in_range (ys ∷ xss) zero x xs h = omega arith
get_or-in_range (ys ∷ xss) (suc i) x xs h = omega (arith, get_or-in_range xss i x xs h)

module _ {C : Type 0} where
  -- Which peer a step is about.
  unfoldable pub target : Action C → Int32
  target (store_connection id conn) = id
  target (write_node now id address) = id
  target (write_edge to latency) = to

  unfoldable pub only : Int32 → List (Action C) → List (Action C)
  only k [] = []
  only k (a ∷ trace) = let rest = only k trace in if target a == k then a ∷ rest else rest

  -- The steps about peer `k` are those of thread `n`.
  abbrev pub Owns : Int32 → ℕ → List (List (Action C)) → Type 0
  Owns k n threads =
      (j : ℕ) → All (λ (a : Action C). (target a == k) ≡ (j == n)) (get_or threads j [])

  after_step :
      (k : Int32) (n i : ℕ) (a : Action C) (rest : List (Action C))
      (threads : List (List (Action C)))
      → get_or threads i [] ≡ a ∷ rest
      → Owns k n threads
      → Owns k n (set threads i rest)
  after_step k n i a rest threads h owns j =
      let P : Action C → Type 0 = λ a'. (target a' == k) ≡ (j == n) in
      let read = get_or-set threads i j rest [] in
      elim (Bool-cases (i == j && ltb i (length threads))) [
        | inl hit ↦
            let same : i ≡ j = ground (arith, nat_beq_iff i j) in
            let now : get_or (set threads i rest) j [] ≡ rest = ground (arith, read) in
            let before = subst (All P) (ap (λ x. get_or threads x []) (sym same) ∙ h) (owns j) in
            subst (All P) (sym now) before.1
        | inr miss ↦
            let same : get_or (set threads i rest) j [] ≡ get_or threads j [] =
              ground (arith, read) in
            subst (All P) (sym same) (owns j)
      ]

  -- In every interleaving, the steps about a peer are those of the thread that owns it, in order.
  pub only-Interleave :
      (k : Int32) (n : ℕ) (threads : List (List (Action C))) (trace : List (Action C))
      → Owns k n threads
      → Interleave threads trace
      → only k trace ≡ get_or threads n []
  unfolding only
  only-Interleave k n threads trace owns (finished _ h) = sym (h n)
  only-Interleave k n threads trace owns (goes_on _ i a rest trace' h later) =
      let ih =
        only-Interleave k n (set threads i rest) trace' (after_step k n i a rest threads h owns)
          later in
      let read = get_or-set threads i n rest [] in
      let here = (subst (All (λ (a' : Action C). (target a' == k) ≡ (i == n))) h (owns i)).0 in
      let range = get_or-in_range threads i a rest h in
      elim (Bool-cases (i == n)) [
        | inl own ↦
            let same = (nat_beq_iff i n).0 own in
            let now : get_or (set threads i rest) n [] ≡ rest = ground (arith, read, range, own) in
            ap (λ b. if b then a ∷ only k trace' else only k trace') (here ∙ own)
            ∙ ap (◌∷◌ a) (ih ∙ now)
            ∙ sym h
            ∙ ap (λ x. get_or threads x []) same
        | inr other ↦
            let now : get_or (set threads i rest) n [] ≡ get_or threads n [] =
              ground (arith, read, other) in
            ap (λ b. if b then a ∷ only k trace' else only k trace') (here ∙ other) ∙ ih ∙ now
      ]

  all_finished :
      (threads : List (List (Action C)))
      → ((n : ℕ) → get_or threads n [] ≡ [])
      → (n : ℕ) → get_or ([] ∷ threads) n [] ≡ []
  all_finished threads h zero = refl
  all_finished threads h (suc n) = h n

  put_first :
      (threads : List (List (Action C))) (trace : List (Action C))
      → Interleave threads trace
      → Interleave ([] ∷ threads) trace
  put_first threads trace (finished _ h) = finished ([] ∷ threads) (all_finished threads h)
  put_first threads trace (goes_on _ n a rest trace' h later) =
      goes_on ([] ∷ threads) (suc n) a rest trace' h (put_first (set threads n rest) trace' later)

  run_first :
      (thread : List (Action C)) (threads : List (List (Action C))) (trace : List (Action C))
      → Interleave ([] ∷ threads) trace
      → Interleave (thread ∷ threads) (thread ++ trace)
  run_first [] threads trace h = h
  run_first (a ∷ thread) threads trace h =
      goes_on ((a ∷ thread) ∷ threads) 0 a thread (thread ++ trace) refl
        (run_first thread threads trace h)

  -- Any goroutines can run to their end, for example one after the other.
  pub interleave :
      (threads : List (List (Action C))) → (trace : List (Action C)) × Interleave threads trace
  interleave [] = ([], finished [] (λ n. refl))
  interleave (thread ∷ threads) =
      let (trace, h) = interleave threads in
      (thread ++ trace, run_first thread threads trace (put_first threads trace h))
