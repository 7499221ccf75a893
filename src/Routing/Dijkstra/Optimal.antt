-- ===== src/Routing/Dijkstra/Optimal.antt =====
-- Distances and trails at the end of the loop against the walks through the graph.
use mathlib.Core.List.{append_assoc}
use file_sharing_system_with.Prelude.{
  ℕ, zero, suc, ◌≤◌, ◌<◌, ◌≡◌, ◌⊎◌, inl, inr, true, false, some, List, [], ◌∷◌, ◌++◌, arith, length,
  length-append, nat_eq, Bool-cases, ◌∙◌, ap, All_of_Memᴰ,
}
use file_sharing_system_with.Word.{Int32}
use file_sharing_system_with.GoMap.Laws.{length-delete-lt}
use file_sharing_system_with.Routing.Types.{Graph}
use file_sharing_system_with.Routing.Walks.{IsNode, Walk, here, step, IsRoutable}
use file_sharing_system_with.Routing.Dijkstra.{Search, walk_back}
use file_sharing_system_with.Routing.Dijkstra.Relax.{dist, open_at}
use file_sharing_system_with.Routing.Dijkstra.Invariant.{Trail, root, link, Inv, times_mono}
use file_sharing_system_with.Routing.Dijkstra.Loop.{IsExhausted}

module _ (g : Graph) (source : Int32) (w : ℕ) (s : Search) (ok : IsRoutable g w)
    (inv : Inv g source w s) (at_source : IsNode g source) where
  pub Walk-IsNode : {v : Int32} {k : ℕ} {path : List Int32} → Walk g source v k path → IsNode g v
  Walk-IsNode here = at_source
  Walk-IsNode (step wk e m ef n) = n

  -- A trail is a walk, of the latency that `distances` holds.
  pub Trail-Walk :
      {v : Int32} {path : List Int32} → Trail g source s v path → Walk g source v (dist s v) path
  Trail-Walk (root p) = rw inv.start here
  Trail-Walk (link tr o e m ef n p d) = rw d (step (Trail-Walk tr) e m ef n)

  -- The walk back along `previous` ends, and finds the trail.
  pub walk_back-Trail :
      {v : Int32} {path : List Int32} (fuel : ℕ) (rest : List Int32)
      → Trail g source s v path
      → IsNode g v
      → length path ≤ fuel
      → walk_back fuel s.previous v rest ≡ some (path ++ rest)
  unfolding walk_back
  walk_back-Trail zero rest (root p) n h = absurd (omega arith)
  walk_back-Trail zero rest (link {path} tr o e m ef n' p d) n h =
      absurd (omega (arith, length-append path (e.to ∷ [])))
  walk_back-Trail (suc zero) rest (root p) n h = ground (arith, ok.proper source n)
  walk_back-Trail (suc (suc fuel)) rest (root p) n h = ground (arith, ok.proper source n)
  walk_back-Trail (suc fuel) rest (link {x} {path} tr o e m ef n' p d) n h =
      let found =
        walk_back-Trail fuel (e.to ∷ rest) tr (Walk-IsNode (Trail-Walk tr))
          (omega (arith, length-append path (e.to ∷ []))) in
      ground (arith, ok.proper e.to n, p, found, append_assoc path (e.to ∷ []) rest)

  -- No walk is shorter than the distance of a settled node, or than `m` if its end is unvisited.
  pub Walk-dist-le :
      (m : ℕ)
      → ((v : ℕ) → open_at s v ≡ true → m ≤ dist s v)
      → {v : Int32} {k : ℕ} {path : List Int32} → Walk g source v k path
      → (open_at s v ≡ false) × (dist s v ≤ k) ⊎ (m ≤ k)
  Walk-dist-le m low here = elim (Bool-cases (open_at s source)) [
    | inl o ↦ inr (omega (arith, low source o, inv.start))
    | inr o ↦ inl (o, omega (arith, inv.start))
  ]
  Walk-dist-le m low (step {u} wk e me ef n) = elim (Walk-dist-le m low wk) [
    | inr far ↦ inr (omega arith)
    | inl (shut, near) ↦
        let reached = inv.closed e me (rw ef (Walk-IsNode wk)) (rw ef shut) n in
        let same = ap (dist s) ef in
        elim (Bool-cases (open_at s e.to)) [
          | inl o ↦ inr (omega (arith, low e.to o, reached, same))
          | inr o ↦ inl (o, omega (arith, reached, same))
        ]
  ]

  some_left : (v : ℕ) → open_at s v ≡ true → 0 < length s.unvisited
  some_left v o = omega (arith, length-delete-lt v s.unvisited (inv.flags v ∙ o))

  -- With no unvisited node in reach, all nodes that a walk leads to are settled.
  pub Walk-shut :
      IsExhausted s
      → {v : Int32} {k : ℕ} {path : List Int32} → Walk g source v k path
      → open_at s v ≡ false
  Walk-shut ex here = elim (Bool-cases (open_at s source)) [
    | inl o ↦ absurd (omega (arith, ex source o, inv.start))
    | inr o ↦ o
  ]
  Walk-shut ex (step {u} wk e me ef n) =
      let shut = Walk-shut ex wk in
      let reached = inv.closed e me (rw ef (Walk-IsNode wk)) (rw ef shut) n in
      elim (Bool-cases (open_at s e.to)) [
        | inr o ↦ o
        | inl o ↦ elim (inv.known u (Walk-IsNode wk)) [
          | inl far ↦ absurd (omega (arith, inv.finite u (Walk-IsNode wk) shut))
          | inr k ↦ absurd (
              omega (
                arith,
                reached,
                ap (dist s) ef,
                ex e.to o,
                All_of_Memᴰ (λ x. x.latency_ms ≤ w) g.get_edge_list ok.light me,
                times_mono w 1 (length s.unvisited) (some_left e.to o),
                k.light,
                ok.room,
              ))
        ]
      ]
