-- ===== src/Routing/Dijkstra/Relax.antt =====
-- What relaxing a list of edges out of one settled node does to the maps.
use mathlib.Core.List.{Memᴰ, foldl}
use mathlib.Core.List.Memᴰ
use file_sharing_system_with.Prelude.{
  ℕ, ◌+◌, ◌≤◌, ◌<◌, ◌≡◌, refl, ◌⊎◌, inl, inr, Bool, true, false, List, [], ◌∷◌, arith, ltb, ltb→lt,
  nat_eq, Bool-cases, nat_beq, All, ◌∙◌, sym, nat_beq_iff, subst,
}
use file_sharing_system_with.Word.{Int32, Int64, slt64_small, add64_small}
use file_sharing_system_with.GoMap.{index, insert}
use file_sharing_system_with.GoMap.Laws.{index-insert}
use file_sharing_system_with.Routing.Types.{GraphEdge}
use file_sharing_system_with.Routing.Dijkstra.{inf, Search, relax}

abbrev pub dist : Search → Int32 → Int64
dist s v = index 0 v s.distances

abbrev pub prev : Search → Int32 → Int32
prev s v = index 0 v s.previous

abbrev pub open_at : Search → Int32 → Bool
open_at s v = index false v s.unvisited

-- What holds before each relaxation out of `c`, where `w` bounds the latencies.
pub record Ready (c : Int32) (w : ℕ) (s : Search) : Type 0 where
  pub settled : open_at s c ≡ false
  pub room : dist s c + w < inf
  pub top : (v : ℕ) → open_at s v ≡ true → dist s v ≤ inf

-- `v` got its values from an edge out of `c`.
pub record Improved (c : Int32) (es : List GraphEdge) (s t : Search) (v : Int32) : Type 0 where
  pub edge : GraphEdge
  pub among : Memᴰ edge es
  pub target : edge.to ≡ v
  pub was_open : open_at s v ≡ true
  pub distance : dist t v ≡ dist s c + edge.latency_ms
  pub parent : prev t v ≡ c
  pub smaller : dist t v < dist s v

pub record Relaxed (c : Int32) (es : List GraphEdge) (s t : Search) : Type 0 where
  pub unvisited : t.unvisited ≡ s.unvisited
  pub falls : (v : ℕ) → dist t v ≤ dist s v
  pub done :
      (e : GraphEdge) → Memᴰ e es → open_at s e.to ≡ true → dist t e.to ≤ dist s c + e.latency_ms
  pub change : (v : ℕ) → ((dist t v ≡ dist s v) × (prev t v ≡ prev s v)) ⊎ Improved c es s t v

relax_stays :
    (c : Int32) (w : ℕ) (s : Search) (e : GraphEdge)
    → Ready c w s
    → e.latency_ms ≤ w
    → (relax c s e ≡ s) × (open_at s e.to ≡ true → dist s e.to ≤ dist s c + e.latency_ms)
      ⊎ (open_at s e.to ≡ true)
        × (dist s c + e.latency_ms < dist s e.to)
        × (relax c s e ≡ record s {
          distances = insert e.to (dist s c + e.latency_ms) s.distances;
          previous = insert e.to c s.previous;
        })
unfolding relax
relax_stays c w s e r h = elim (Bool-cases (open_at s e.to)) [
  | inr shut ↦ inl (rw shut, λ open_now. cc)
  | inl is_open ↦
      let sum = add64_small (dist s c) e.latency_ms (omega (arith, r.room)) in
      let test =
        slt64_small (dist s c + e.latency_ms) (dist s e.to) (omega (arith, r.room))
          (omega (arith, r.top e.to is_open)) in
      elim (Bool-cases (ltb (dist s c + e.latency_ms) (dist s e.to))) [
        | inl t ↦ inr (is_open, ltb→lt _ _ t, rw (is_open, sum, test, t))
        | inr f ↦ inl (rw (is_open, sum, test, f), λ _. ground arith)
      ]
]

relax-Improved :
    (c : Int32) (s : Search) (e : GraphEdge)
    → open_at s c ≡ false
    → open_at s e.to ≡ true
    → dist s c + e.latency_ms < dist s e.to
    → Relaxed c (e ∷ []) s (record s {
      distances = insert e.to (dist s c + e.latency_ms) s.distances;
      previous = insert e.to c s.previous;
    })
relax-Improved c s e hc ho hl = record {
  unvisited = refl;
  falls = λ v. ground (arith, index-insert 0 e.to v (dist s c + e.latency_ms) s.distances);
  done = λ f m o. ground (
    arith,
    Memᴰ.eq_of_singleton m,
    index-insert 0 e.to f.to (dist s c + e.latency_ms) s.distances,
  );
  change = λ v. elim (Bool-cases (nat_beq e.to v)) [
    | inl hit ↦
        let at : e.to ≡ v = (nat_beq_iff e.to v).0 hit in
        inr (record {
          edge = e;
          among = Memᴰ.head refl;
          target = at;
          was_open = subst (λ x. open_at s x ≡ true) at ho;
          distance = rw (index-insert, hit);
          parent = rw (index-insert, hit);
          smaller = rw (index-insert, hit) (subst (λ x. dist s c + e.latency_ms < dist s x) at hl);
        })
    | inr miss ↦ inl (rw (index-insert, miss), rw (index-insert, miss))
  ];
}

Relaxed-refl :
    (c : Int32) (s : Search) (e : GraphEdge)
    → (open_at s e.to ≡ true → dist s e.to ≤ dist s c + e.latency_ms)
    → Relaxed c (e ∷ []) s s
Relaxed-refl c s e h = record {
  unvisited = refl;
  falls = λ v. omega arith;
  done = λ f m o.
      subst (λ g. open_at s g.to ≡ true → dist s g.to ≤ dist s c + g.latency_ms)
        (sym (Memᴰ.eq_of_singleton m)) h o;
  change = λ v. inl (refl, refl);
}

relax-Relaxed :
    (c : Int32) (w : ℕ) (s : Search) (e : GraphEdge)
    → Ready c w s
    → e.latency_ms ≤ w
    → Relaxed c (e ∷ []) s (relax c s e)
relax-Relaxed c w s e r h = elim (relax_stays c w s e r h) [
  | inl (same, kept) ↦ rw same (Relaxed-refl c s e kept)
  | inr (is_open, less, new) ↦ rw new (relax-Improved c s e r.settled is_open less)
]

-- The distance of the node that is being settled stays.
pub Relaxed-settled :
    (c : Int32) (es : List GraphEdge) {s t : Search}
    → open_at s c ≡ false
    → Relaxed c es s t
    → dist t c ≡ dist s c
Relaxed-settled c es h r = elim (r.change c) [ inl same ↦ same.0 | inr new ↦ cc (new.was_open) ]

module _ (c : Int32) (e : GraphEdge) (es : List GraphEdge) {s t u : Search} where
  Relaxed-change :
      (v : ℕ)
      → open_at s c ≡ false
      → Relaxed c (e ∷ []) s t
      → Relaxed c es t u
      → ((dist u v ≡ dist s v) × (prev u v ≡ prev s v)) ⊎ Improved c (e ∷ es) s u v
  Relaxed-change v h r q = elim (q.change v) [
    | inl same ↦ elim (r.change v) [
      | inl same' ↦ inl (same.0 ∙ same'.0, same.1 ∙ same'.1)
      | inr new ↦ inr (record {
        edge = new.edge;
        among = Memᴰ.head (Memᴰ.eq_of_singleton new.among);
        target = new.target;
        was_open = new.was_open;
        distance = same.0 ∙ new.distance;
        parent = same.1 ∙ new.parent;
        smaller = omega (arith, same.0, new.smaller);
      })
    ]
    | inr new ↦ inr (record {
      edge = new.edge;
      among = Memᴰ.tail new.among;
      target = new.target;
      was_open = rw (← r.unvisited) new.was_open;
      distance = omega (arith, new.distance, Relaxed-settled c (e ∷ []) h r);
      parent = new.parent;
      smaller = omega (arith, new.smaller, r.falls v);
    })
  ]

  Relaxed-trans :
      open_at s c ≡ false → Relaxed c (e ∷ []) s t → Relaxed c es t u → Relaxed c (e ∷ es) s u
  Relaxed-trans h r q = record {
    unvisited = q.unvisited ∙ r.unvisited;
    falls = λ v. omega (arith, q.falls v, r.falls v);
    done = λ f m o. elim (Memᴰ.cases_cons m) [
      | inl first ↦ omega (arith, r.done f (Memᴰ.head first) o, q.falls f.to)
      | inr later ↦ omega (arith, q.done f later (rw r.unvisited o), Relaxed-settled c (e ∷ []) h r)
    ];
    change = λ v. Relaxed-change v h r q;
  }

relax-Ready :
    (c : Int32) (w : ℕ) (s t : Search) (e : GraphEdge)
    → Ready c w s
    → Relaxed c (e ∷ []) s t
    → Ready c w t
relax-Ready c w s t e r q = record {
  settled = rw q.unvisited r.settled;
  room = omega (arith, r.room, q.falls c);
  top = λ v o. omega (arith, q.falls v, r.top v (rw (← q.unvisited) o));
}

-- All edges out of `c` are relaxed, and nothing else changes.
pub foldl-relax-Relaxed :
    (c : Int32) (w : ℕ) (es : List GraphEdge) (s : Search)
    → Ready c w s
    → All (λ e. e.latency_ms ≤ w) es
    → Relaxed c es s (foldl (relax c) s es)
foldl-relax-Relaxed c w [] s r h = record {
  unvisited = refl;
  falls = λ v. omega arith;
  done = λ f m o. absurd (Memᴰ.not-nil m);
  change = λ v. inl (refl, refl);
}
foldl-relax-Relaxed c w (e ∷ es) s r h =
    let first = relax-Relaxed c w s e r h.0 in
    Relaxed-trans c e es r.settled first
      (foldl-relax-Relaxed c w es (relax c s e) (relax-Ready c w s (relax c s e) e r first) h.1)
