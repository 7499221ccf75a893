-- ===== src/Benchmark/Edges.antt =====
-- The edges of the random network: what `addEdge` keeps.
use mathlib.Core.List.{Memᴰ}
use mathlib.Core.List.Memᴰ
use file_sharing_system_with.Prelude.{
  ℕ, zero, suc, ◌+◌, ◌^◌, ◌≤◌, ◌<◌, ◌≡◌, refl, ◌⊎◌, inl, inr, true, false, List, [], ◌∷◌, bytes_eq,
  bytes_beq, bytes_beq_iff, nat_eq, ◌==◌, subst, sym, arith, Bool-cases,
}
use file_sharing_system_with.Word.{Int32, Int64, to_int32, add64}
use file_sharing_system_with.GoMap.{index, insert}
use file_sharing_system_with.GoMap.Laws.{index-insert}
use file_sharing_system_with.Fmt.Split.{format_int32-prefix, format_int32-injective}
use file_sharing_system_with.Routing.Types.{GraphEdge}
use file_sharing_system_with.Benchmark.{
  Rand, suc32, Building, edge_key, add_edge, neighbor_round, neighbor_loop, random_edges,
}

-- A draw below `n` is below `n`.
pub record IsRand {R : Type 0} (rand : Rand R) : Type 0 where
  pub below : (n : ℕ) (r : R) → 0 < n → (rand.intn n r).0 < n

-- An edge between two of the nodes 1 to `n`, of 1 to 50 ms.
pub record IsShort (n : ℕ) (e : GraphEdge) : Type 0 where
  pub from_low : 1 ≤ e.from
  pub from_high : e.from ≤ n
  pub to_low : 1 ≤ e.to
  pub to_high : e.to ≤ n
  pub slow : 1 ≤ e.latency_ms
  pub fast : e.latency_ms ≤ 50

-- There is an edge from `a` to `b`.
abbrev pub Joined : List GraphEdge → Int32 → Int32 → Type 0
Joined edges a b = (e : GraphEdge) × Memᴰ e edges × (e.from ≡ a) × (e.to ≡ b)

-- The edges are short, and `edgeSet` has the keys of edges only.
pub record IsBuilt {R : Type 0} (n : ℕ) (s : Building R) : Type 0 where
  pub short : (e : GraphEdge) → Memᴰ e s.edges → IsShort n e
  pub known :
      (a b : Int32)
      → a < 2 ^ 32
      → b < 2 ^ 32
      → index false (edge_key a b) s.edge_set ≡ true
      → Joined s.edges a b

edge_key-injective :
    (a b c d : Int32)
    → a < 2 ^ 32
    → b < 2 ^ 32
    → c < 2 ^ 32
    → d < 2 ^ 32
    → edge_key a b ≡ edge_key c d
    → (a ≡ c) × (b ≡ d)
unfolding edge_key
edge_key-injective a b c d ha hb hc hd e =
    let (front, back) = format_int32-prefix a c _ _ ha hc e in
    (front, format_int32-injective b d hb hd back)

module _ {R : Type 0} (rand : Rand R) where
  pub add_edge-keeps :
      (a b : Int32) (latency : Int64) (s : Building R) (e : GraphEdge)
      → Memᴰ e s.edges
      → Memᴰ e (add_edge rand a b latency s).edges
  unfolding add_edge
  add_edge-keeps a b latency s e m = elim (Bool-cases (index false (edge_key a b) s.edge_set)) [
    | inl there ↦ rw there m
    | inr fresh ↦ rw fresh (Memᴰ.append_left _ m)
  ]

  -- Afterwards there is an edge from `a` to `b`, new or old.
  pub add_edge-Joined :
      (n : ℕ) (a b : Int32) (latency : Int64) (s : Building R)
      → a < 2 ^ 32
      → b < 2 ^ 32
      → IsBuilt n s
      → Joined (add_edge rand a b latency s).edges a b
  unfolding add_edge
  add_edge-Joined n a b latency s ha hb built =
      elim (Bool-cases (index false (edge_key a b) s.edge_set)) [
        | inl there ↦ rw there (built.known a b ha hb there)
        | inr fresh ↦ rw fresh (
          record { from = a; to = b; latency_ms = latency },
          Memᴰ.append_right s.edges (Memᴰ.head refl),
          refl,
          refl,
        )
      ]

  pub add_edge-IsBuilt :
      (n : ℕ) (a b : Int32) (latency : Int64) (s : Building R)
      → n < 2 ^ 31
      → IsShort n (record { from = a; to = b; latency_ms = latency })
      → IsBuilt n s
      → IsBuilt n (add_edge rand a b latency s)
  unfolding add_edge
  add_edge-IsBuilt n a b latency s small new built =
      elim (Bool-cases (index false (edge_key a b) s.edge_set)) [
        | inl there ↦ rw there built
        | inr fresh ↦
            let edge : GraphEdge = record { from = a; to = b; latency_ms = latency } in
            rw fresh (record {
              short = λ e m. elim (Memᴰ.append_cases s.edges m) [
                | inl old ↦ built.short e old
                | inr last ↦ elim (Memᴰ.cases_cons last) [
                  | inl same ↦ subst (IsShort n) (sym same) new
                  | inr gone ↦ absurd (Memᴰ.not-nil gone)
                ]
              ];
              known = λ c d hc hd h.
                  elim (known_cases s a b c d (omega (arith, new.from_high))
                    (omega (arith, new.to_high)) hc hd h) [
                      | inl (same, same') ↦
                          (edge, Memᴰ.append_right s.edges (Memᴰ.head refl), same, same')
                      | inr old ↦
                          let (e, m, e_from, e_to) = built.known c d hc hd old in
                          (e, Memᴰ.append_left (edge ∷ []) m, e_from, e_to)
                    ];
            })
      ]
    where
      known_cases :
          (s : Building R) (a b c d : Int32)
          → a < 2 ^ 32
          → b < 2 ^ 32
          → c < 2 ^ 32
          → d < 2 ^ 32
          → index false (edge_key c d) (insert (edge_key a b) true s.edge_set) ≡ true
          → ((a ≡ c) × (b ≡ d)) ⊎ (index false (edge_key c d) s.edge_set ≡ true)
      known_cases s a b c d ha hb hc hd h =
          let law = index-insert false (edge_key a b) (edge_key c d) true s.edge_set in
          elim (Bool-cases (bytes_beq (edge_key a b) (edge_key c d))) [
            | inl same ↦ inl (
                edge_key-injective a b c d ha hb hc hd
                  ((bytes_beq_iff (edge_key a b) (edge_key c d)).0 same))
            | inr other ↦ inr (ground (arith, law, other, h))
          ]

  module _ (fair : IsRand rand) (n : ℕ) (some_node : 0 < n) (small : n < 2 ^ 31) where
    neighbor_round-IsBuilt :
        (i : ℕ) (s : Building R)
        → 1 ≤ i
        → i ≤ n
        → IsBuilt n s
        → IsBuilt n (neighbor_round rand n i s)
    unfolding neighbor_round suc32 add64
    neighbor_round-IsBuilt i s low high built =
        let drawn = (rand.intn n s.rng).0 in
        let rng = (rand.intn n s.rng).1 in
        let wait = (rand.intn 50 rng).0 in
        let drawn_lt = fair.below n s.rng some_node in
        let wait_lt = fair.below 50 rng (omega arith) in
        elim (Bool-cases (suc32 (to_int32 drawn) == to_int32 i)) [
          | inl self ↦ rw self (record { short = built.short; known = built.known })
          | inr other ↦ rw other (
              add_edge-IsBuilt n (to_int32 i) (suc32 (to_int32 drawn)) (add64 wait 1)
                (record s { rng = (rand.intn 50 rng).1 }) small
                (record {
                  from_low = omega arith;
                  from_high = omega arith;
                  to_low = omega (arith, drawn_lt);
                  to_high = omega (arith, drawn_lt);
                  slow = omega (arith, wait_lt);
                  fast = omega (arith, wait_lt);
                })
                (record { short = built.short; known = built.known }))
        ]

    neighbor_loop-IsBuilt :
        (i m : ℕ) (s : Building R)
        → 1 ≤ i
        → i ≤ n
        → IsBuilt n s
        → IsBuilt n (neighbor_loop rand n i m s)
    unfolding neighbor_loop
    neighbor_loop-IsBuilt i zero s low high built = built
    neighbor_loop-IsBuilt i (suc m) s low high built =
        neighbor_loop-IsBuilt i m (neighbor_round rand n i s) low high
          (neighbor_round-IsBuilt i s low high built)

    pub random_edges-IsBuilt :
        (m i : ℕ) (s : Building R)
        → 1 ≤ i
        → i + m ≤ n + 1
        → IsBuilt n s
        → IsBuilt n (random_edges rand n m i s)
    unfolding random_edges
    random_edges-IsBuilt zero i s low high built = built
    random_edges-IsBuilt (suc m) i s low high built =
        let drawn = (rand.intn 5 s.rng).0 in
        let rng = (rand.intn 5 s.rng).1 in
        random_edges-IsBuilt m (i + 1) _ (omega arith) (omega arith) (
          neighbor_loop-IsBuilt i (4 + drawn) (record s { rng = rng }) low (omega arith)
            (record { short = built.short; known = built.known }))
