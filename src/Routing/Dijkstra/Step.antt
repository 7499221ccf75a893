-- ===== src/Routing/Dijkstra/Step.antt =====
-- A round of the main loop that settles a nearest node keeps the invariant.
use mathlib.Core.List.{Memᴰ}
use file_sharing_system_with.Prelude.{
  ℕ, ◌+◌, ◌*◌, ◌≤◌, ◌<◌, ◌≡◌, ◌≢◌, ◌⊎◌, inl, inr, true, false, List, [], ◌∷◌, ◌++◌, arith, length,
  nat_eq, Bool-cases, ◌∙◌, sym, ap, subst, All, All-intro, All_of_Memᴰ, length-append,
}
use file_sharing_system_with.Word.{Int32}
use file_sharing_system_with.GoMap.{index, has, delete}
use file_sharing_system_with.GoMap.Laws.{index-delete, has-delete, length-delete-lt}
use file_sharing_system_with.Routing.Types.{GraphEdge, Graph}
use file_sharing_system_with.Routing.Walks.{IsNode, IsRoutable}
use file_sharing_system_with.Routing.Dijkstra.{inf, Search, build_adjacency, settle}
use file_sharing_system_with.Routing.Dijkstra.Maps.{mem-build_adjacency}
use file_sharing_system_with.Routing.Dijkstra.Relax.{
  dist, prev, open_at, Ready, Relaxed, Relaxed-settled, foldl-relax-Relaxed,
}
use file_sharing_system_with.Routing.Dijkstra.Invariant.{
  link, Frame, Trail-Frame, Known, Inv, times_mono,
}

light_step : (a l w m n b : ℕ) → l ≤ w → m < n → a + n * w ≤ b → a + l + m * w ≤ b
light_step a l w m n b hl hm h = omega (arith, times_mono w (m + 1) n (omega arith), hl, h)

-- `c` is a nearest unvisited node, and it has been reached.
pub record Chosen (g : Graph) (source : Int32) (w : ℕ) (s : Search) (c : Int32) : Type 0 where
  pub inv : Inv g source w s
  pub is_open : open_at s c ≡ true
  pub near : dist s c < inf
  pub least : (v : ℕ) → open_at s v ≡ true → dist s c ≤ dist s v

module _ (g : Graph) (source : Int32) (w : ℕ) (s : Search) (c : Int32) (ok : IsRoutable g w)
    (chosen : Chosen g source w s c) where
  open chosen use {inv, is_open, near, least}

  -- The state in which the edges out of `c` are relaxed.
  abbrev removed : Search
  removed = record s { unvisited = delete c s.unvisited }

  abbrev out_of_c : List GraphEdge
  out_of_c = index [] c (build_adjacency g.get_edge_list)

  abbrev next : Search
  next = settle (build_adjacency g.get_edge_list) s c

  c-Known : Known g source w s c
  c-Known = elim (inv.known c (inv.nodes c is_open)) [ inl far ↦ absurd (omega arith) | inr k ↦ k ]

  fewer : length (delete c s.unvisited) < length s.unvisited
  fewer = length-delete-lt c s.unvisited (inv.flags c ∙ is_open)

  removed_open : (v : ℕ) → open_at removed v ≡ true → (open_at s v ≡ true) × (c ≢ v)
  removed_open v o = ground (arith, index-delete false c v s.unvisited)

  removed_shut : (v : ℕ) → open_at removed v ≡ false → (c ≡ v) ⊎ (open_at s v ≡ false)
  removed_shut v o = ground (arith, index-delete false c v s.unvisited)

  Ready-removed : Ready c w removed
  Ready-removed = record {
    settled = ground (arith, index-delete false c c s.unvisited);
    room = omega (
      arith,
      light_step (dist s c) w w (length (delete c s.unvisited)) (length s.unvisited) _ (omega arith)
          fewer c-Known.light,
      ok.room,
    );
    top = λ v o. elim (inv.known v (inv.nodes v (removed_open v o).0)) [
      | inl far ↦ omega arith
      | inr k ↦ omega (arith, k.light, ok.room)
    ];
  }

  light_edges : All (λ e. e.latency_ms ≤ w) out_of_c
  light_edges = All-intro _ _ (λ e m.
      All_of_Memᴰ (λ x. x.latency_ms ≤ w) g.get_edge_list ok.light
        ((mem-build_adjacency g.get_edge_list e c).0 m).0)

  relaxed : Relaxed c out_of_c removed next
  unfolding settle
  relaxed = foldl-relax-Relaxed c w out_of_c removed Ready-removed light_edges

  open-next : (v : ℕ) → open_at next v ≡ open_at removed v
  open-next v = rw relaxed.unvisited

  Frame-next : Frame s next
  Frame-next = record {
    shut = λ v o. open-next v ∙ still_shut v o;
    distance = λ v o. (kept v o).0;
    parent = λ v o. (kept v o).1;
  }
    where
      still_shut : (v : ℕ) → open_at s v ≡ false → open_at removed v ≡ false
      still_shut v o = ground (arith, index-delete false c v s.unvisited)

      kept : (v : ℕ) → open_at s v ≡ false → (dist next v ≡ dist s v) × (prev next v ≡ prev s v)
      kept v o = elim (relaxed.change v) [
        | inl same ↦ same
        | inr new ↦ let shut = still_shut v o in cc (new.was_open)
      ]

  c_distance : dist next c ≡ dist s c
  c_distance = Relaxed-settled c out_of_c Ready-removed.settled relaxed

  c_parent : prev next c ≡ prev s c
  c_parent = elim (relaxed.change c) [
    | inl same ↦ same.1
    | inr new ↦ let shut = Ready-removed.settled in cc (new.was_open)
  ]

  -- What is still unvisited is no nearer than `c`, and what is settled no farther.
  above : (v : ℕ) → open_at next v ≡ true → dist s c ≤ dist next v
  above v o =
      let was = (removed_open v (sym (open-next v) ∙ o)).0 in
      elim (relaxed.change v) [
        | inl same ↦ omega (arith, same.0, least v was)
        | inr new ↦ omega (arith, new.distance)
      ]

  below : (x : ℕ) → IsNode g x → open_at next x ≡ false → dist next x ≤ dist s c
  below x n o = elim (removed_shut x (sym (open-next x) ∙ o)) [
    | inl at ↦ subst (λ y. dist next y ≤ dist s c) at (omega (arith, c_distance))
    | inr shut ↦ omega (arith, Frame-next.distance x shut, inv.ordered x c n shut is_open)
  ]

  closed_next :
      (e : GraphEdge)
      → Memᴰ e g.get_edge_list
      → IsNode g e.from
      → open_at next e.from ≡ false
      → IsNode g e.to
      → dist next e.to ≤ dist next e.from + e.latency_ms
  closed_next e m n o n' = elim (removed_shut e.from (sym (open-next e.from) ∙ o)) [
    | inl at ↦
        let far = ap (dist next) at in
        let here = c_distance in
        elim (Bool-cases (open_at removed e.to)) [
          | inl is_open' ↦ omega (
            arith,
            far,
            here,
            relaxed.done e ((mem-build_adjacency g.get_edge_list e c).1 (m, sym at)) is_open',
          )
          | inr shut ↦ omega (arith, far, here, below e.to n' (open-next e.to ∙ shut))
        ]
    | inr shut ↦
        omega (arith, Frame-next.distance e.from shut, relaxed.falls e.to, inv.closed e m n shut n')
  ]

  pub fewer_next : length next.unvisited < length s.unvisited
  fewer_next = rw relaxed.unvisited fewer

  Known-same :
      (v : ℕ)
      → Known g source w s v
      → dist next v ≡ dist s v
      → prev next v ≡ prev s v
      → Known g source w next v
  Known-same v k hd hp = record {
    path = k.path;
    trail = Trail-Frame g source Frame-next k.trail hd hp;
    short = omega (arith, k.short, fewer_next);
    light = omega (
      arith,
      hd,
      k.light,
      times_mono w (length next.unvisited) (length s.unvisited) (omega (arith, fewer_next)),
    );
  }

  Known-new :
      (new : GraphEdge)
      → Memᴰ new out_of_c
      → IsNode g new.to
      → dist next new.to ≡ dist s c + new.latency_ms
      → prev next new.to ≡ c
      → Known g source w next new.to
  Known-new e m n hd hp =
      let (m', from_c) = (mem-build_adjacency g.get_edge_list e c).0 m in
      record {
        path = c-Known.path ++ e.to ∷ [];
        trail =
            link (Trail-Frame g source Frame-next c-Known.trail c_distance c_parent)
              (open-next c ∙ Ready-removed.settled) e m' from_c n hp
              (hd ∙ ap (λ k. k + e.latency_ms) (sym c_distance));
        short = omega (arith, length-append c-Known.path (e.to ∷ []), c-Known.short, fewer_next);
        light = omega (
          arith,
          hd,
          light_step (dist s c) e.latency_ms w (length next.unvisited) (length s.unvisited) _
              (All_of_Memᴰ (λ x. x.latency_ms ≤ w) _ light_edges m) fewer_next c-Known.light,
        );
      }

  Known-next : (v : ℕ) → IsNode g v → (dist next v ≡ inf) ⊎ Known g source w next v
  Known-next v n = elim (relaxed.change v) [
    | inl same ↦ elim (inv.known v n) [
      | inl far ↦ inl (same.0 ∙ far)
      | inr k ↦ inr (Known-same v k same.0 same.1)
    ]
    | inr new ↦
        let at = new.target in
        inr (
          subst (Known g source w next) at (
            Known-new new.edge new.among (rw at n) (ap (dist next) at ∙ new.distance)
              (ap (prev next) at ∙ new.parent)))
  ]

  start_next : dist next source ≡ 0
  start_next = elim (relaxed.change source) [
    | inl same ↦ same.0 ∙ inv.start
    | inr new ↦ absurd (omega (arith, new.smaller, inv.start))
  ]

  pub settle-Inv : Inv g source w next
  settle-Inv = record {
    nodes = λ v o. inv.nodes v (removed_open v (sym (open-next v) ∙ o)).0;
    flags = λ v. flags_next v;
    start = start_next;
    ordered = λ x v n o o'. omega (arith, below x n o, above v o');
    finite = λ x n o. omega (arith, below x n o, near);
    closed = closed_next;
    known = Known-next;
  }
    where
      flags_next : (v : ℕ) → has v next.unvisited ≡ open_at next v
      flags_next v =
          rw relaxed.unvisited (rw (has-delete, index-delete) (ground (arith, inv.flags v)))
