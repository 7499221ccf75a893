-- ===== src/Benchmark/Ring.antt =====
-- The ring of the random network: each node has an edge to the next one.
use mathlib.Core.List.{Memᴰ}
use mathlib.Core.List.Memᴰ
use native.Mathlib.Nat.{mod-eq_of_lt, mod_self}
use file_sharing_system_with.Prelude.{
  le_cases, le_or_lt, ℕ, zero, suc, ◌+◌, ◌-◌, ◌*◌, ◌%◌, ◌^◌, ◌≤◌, ◌<◌, ◌≡◌, inl, inr, List, [], ◌∷◌,
  ◌++◌, map, arith, nat_eq, subst, ap, ◌∙◌,
}
use file_sharing_system_with.Word.{Int32, to_int32, add64}
use file_sharing_system_with.Routing.Types.{Time, GraphEdge, Graph}
use file_sharing_system_with.Routing.Walks.{IsNode, Walk, here, step}
use file_sharing_system_with.Benchmark.{Rand, Building, make_nodes, ring_round, ring_edges}
use file_sharing_system_with.Benchmark.Edges.{
  IsRand, IsShort, Joined, IsBuilt, add_edge-keeps, add_edge-Joined, add_edge-IsBuilt,
}

module _ {R : Type 0} (rand : Rand R) (fair : IsRand rand) (n : ℕ) (small : n < 2 ^ 31) where
  next_low : (i : ℕ) → 1 ≤ i → i ≤ n → (1 ≤ i % n + 1) × (i % n + 1 ≤ n)
  next_low i low high = (omega arith, omega arith)

  ring_round-IsBuilt :
      (i : ℕ) (s : Building R)
      → 1 ≤ i
      → i ≤ n
      → IsBuilt n s
      → IsBuilt n (ring_round rand n i s) × Joined (ring_round rand n i s).edges i (i % n + 1)
  unfolding ring_round add64
  ring_round-IsBuilt i s low high built =
      let wait = (rand.intn 20 s.rng).0 in
      let wait_lt = fair.below 20 s.rng (omega arith) in
      let (next_pos, next_le) = next_low i low high in
      let s' : Building R = record s { rng = (rand.intn 20 s.rng).1 } in
      let built' : IsBuilt n s' = record { short = built.short; known = built.known } in
      let i_same : to_int32 i ≡ i = omega arith in
      let next_same : to_int32 (i % n + 1) ≡ i % n + 1 = omega arith in
      rw (i_same, next_same)
        (
          add_edge-IsBuilt rand n i (i % n + 1) (add64 wait 5) s' small
              (record {
                from_low = low;
                from_high = high;
                to_low = next_pos;
                to_high = next_le;
                slow = omega arith;
                fast = omega arith;
              })
              built',
          add_edge-Joined rand n i (i % n + 1) (add64 wait 5) s' (omega arith) (omega arith) built',
        )

  ring_edges-keeps :
      (m i : ℕ) (s : Building R) (e : GraphEdge)
      → Memᴰ e s.edges
      → Memᴰ e (ring_edges rand n m i s).edges
  unfolding ring_edges ring_round
  ring_edges-keeps zero i s e mem = mem
  ring_edges-keeps (suc m) i s e mem =
      ring_edges-keeps m (i + 1) (ring_round rand n i s) e (add_edge-keeps rand _ _ _ _ e mem)

  pub ring_edges-IsBuilt :
      (m i : ℕ) (s : Building R)
      → 1 ≤ i
      → i + m ≤ n + 1
      → IsBuilt n s
      → IsBuilt n (ring_edges rand n m i s)
        × ((j : ℕ) → i ≤ j → j < i + m → Joined (ring_edges rand n m i s).edges j (j % n + 1))
  unfolding ring_edges
  ring_edges-IsBuilt zero i s low high built = (built, λ j lo hi. absurd (omega arith))
  ring_edges-IsBuilt (suc m) i s low high built =
      let (built', (e, mem, e_from, e_to)) = ring_round-IsBuilt i s low (omega arith) built in
      let (built'', rest) =
        ring_edges-IsBuilt m (i + 1) (ring_round rand n i s) (omega arith) (omega arith) built' in
      (
        built'',
        λ j lo hi. elim (le_cases i j lo) [
          | inl same ↦ (
            e,
            ring_edges-keeps m (i + 1) (ring_round rand n i s) e mem,
            e_from ∙ same,
            e_to ∙ ap (λ x. x % n + 1) same,
          )
          | inr later ↦ rest j later (omega arith)
        ],
      )

-- The nodes are those from `i` to `i + n - 1`.
pub make_nodes-ids :
    (clock : ℕ → Time) (n i j : ℕ)
    → i + n ≤ 2 ^ 31
    → i ≤ j
    → j < i + n
    → Memᴰ j (map (λ v. v.id) (make_nodes clock n i))
unfolding make_nodes
make_nodes-ids clock zero i j small lo hi = absurd (omega arith)
make_nodes-ids clock (suc n) i j small lo hi = elim (le_cases i j lo) [
  | inl same ↦ Memᴰ.head (omega arith)
  | inr later ↦ Memᴰ.tail (make_nodes-ids clock n (i + 1) j (omega arith) later (omega arith))
]

pub make_nodes-range :
    (clock : ℕ → Time) (n i j : ℕ)
    → i + n ≤ 2 ^ 31
    → Memᴰ j (map (λ v. v.id) (make_nodes clock n i))
    → (i ≤ j) × (j < i + n)
unfolding make_nodes
make_nodes-range clock zero i j small m = absurd (Memᴰ.not-nil m)
make_nodes-range clock (suc n) i j small m = elim (Memᴰ.cases_cons m) [
  | inl same ↦ (omega arith, omega arith)
  | inr later ↦
      let (lo, hi) = make_nodes-range clock n (i + 1) j (omega arith) later in
      (omega arith, omega arith)
]

-- What the walks along the ring need of a graph.
pub record IsRinged (n : ℕ) (g : Graph) : Type 0 where
  pub nodes : (v : ℕ) → 1 ≤ v → v ≤ n → IsNode g v
  pub short : (e : GraphEdge) → Memᴰ e g.get_edge_list → IsShort n e
  pub joined : (j : ℕ) → 1 ≤ j → j ≤ n → Joined g.get_edge_list j (j % n + 1)

-- A walk of at most `d` edges, each of at most 50 ms.
abbrev pub Within : Graph → Int32 → Int32 → ℕ → Type 0
Within g s v d = (k : ℕ) × (path : List Int32) × Walk g s v k path × (k ≤ 50 * d)

module _ (n : ℕ) (g : Graph) (ringed : IsRinged n g) (s : Int32) where
  -- One more step along the ring.
  Within-next : (v d : ℕ) → 1 ≤ v → v ≤ n → Within g s v d → Within g s (v % n + 1) (d + 1)
  Within-next v d low high (k, path, walk, le) =
      let (e, mem, e_from, e_to) = ringed.joined v low high in
      let short = ringed.short e mem in
      (
        k + e.latency_ms,
        path ++ e.to ∷ [],
        subst (λ x. Walk g s x (k + e.latency_ms) (path ++ e.to ∷ [])) e_to
            (step walk e mem e_from (ringed.nodes e.to short.to_low short.to_high)),
        omega (arith, short.fast),
      )

  -- Further up, not past the last node.
  Within-up : (m v d : ℕ) → 1 ≤ v → v + m ≤ n → Within g s v d → Within g s (v + m) (d + m)
  Within-up zero v d low high w =
      let same : v + 0 ≡ v = omega arith in
      let same' : d + 0 ≡ d = omega arith in rw (same, same') w
  Within-up (suc m) v d low high w =
      let inside : v < n = omega arith in
      let up : v % n + 1 ≡ v + 1 = ap (λ x. x + 1) (mod-eq_of_lt inside) in
      let same : v + 1 + m ≡ v + suc m = omega arith in
      let same' : d + 1 + m ≡ d + suc m = omega arith in
      rw (← same, ← same')
        (Within-up m (v + 1) (d + 1) (omega arith) (omega arith)
          (rw (← up) (Within-next v d low (omega arith) w)))

  -- From any node to any node, in at most n - 1 steps.
  pub IsRinged-Within : (t : ℕ) → 1 ≤ s → s ≤ n → 1 ≤ t → t ≤ n → Within g s t (n - 1)
  IsRinged-Within t s_low s_high t_low t_high = elim (le_or_lt s t) [
    | inl up ↦
        let there : s + (t - s) ≡ t = omega arith in
        let (k, path, walk, le) = Within-up (t - s) s 0 s_low (omega arith) start in
        (k, path, subst (λ x. Walk g s x k path) there walk, omega arith)
    | inr down ↦
        let top : s + (n - s) ≡ n = omega arith in
        let around : n % n + 1 ≡ 1 = ap (λ x. x + 1) (mod_self n) in
        let there : 1 + (t - 1) ≡ t = omega arith in
        let last = Within-up (n - s) s 0 s_low (omega arith) start in
        let first = Within-next (s + (n - s)) (0 + (n - s)) (omega arith) (omega arith) last in
        let one : (s + (n - s)) % n + 1 ≡ 1 = ap (λ x. x % n + 1) top ∙ around in
        let (k, path, walk, le) =
          Within-up (t - 1) 1 (0 + (n - s) + 1) (omega arith) (omega arith)
            (subst (λ x. Within g s x (0 + (n - s) + 1)) one first) in
        (k, path, subst (λ x. Walk g s x k path) there walk, omega arith)
  ]
    where
      start : Within g s s 0
      start = (0, s ∷ [], here, omega arith)
