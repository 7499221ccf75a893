-- ===== src/Routing/Dijkstra/Correct.antt =====
-- `dijkstra` against the walks through the graph.
use mathlib.Core.List.{append-nil}
use file_sharing_system_with.Prelude.{
  ℕ, suc, ◌≤◌, ◌<◌, ◌≡◌, ◌⊎◌, inl, inr, false, List, [], arith, length, nat_eq, nat_beq, ◌∙◌,
}
use file_sharing_system_with.Word.{Int32, Int64}
use file_sharing_system_with.Routing.Types.{Graph}
use file_sharing_system_with.Routing.Walks.{IsNode, Walk, IsRoutable}
use file_sharing_system_with.Routing.Dijkstra.{
  inf, Search, no_path, Outcome, ok, err, dijkstra, finish,
}
use file_sharing_system_with.Routing.Dijkstra.Maps.{
  init_search-IsFresh, open-init_search, length-init_search,
}
use file_sharing_system_with.Routing.Dijkstra.Relax.{dist}
use file_sharing_system_with.Routing.Dijkstra.Invariant.{Known, Inv, started, Inv-started}
use file_sharing_system_with.Routing.Dijkstra.Step.{Chosen}
use file_sharing_system_with.Routing.Dijkstra.Loop.{IsOrder, IsExhausted, main_loop_ends, IsEnd}
use file_sharing_system_with.Routing.Dijkstra.Optimal.{
  Trail-Walk, walk_back-Trail, Walk-dist-le, Walk-shut,
}

-- The answers that are right: a shortest walk and its latency, or an error where there is no walk.
pub data IsRight (g : Graph) (source target : Int32) : Outcome (List Int32 × Int64) → Type 0 where
  shortest :
      {path : List Int32} {k : Int64}
      → Walk g source target k path
      → ((k' : ℕ) (path' : List Int32) → Walk g source target k' path' → k ≤ k')
      → IsRight g source target (ok (path, k))
  unreachable :
      ((k : ℕ) (path : List Int32) → ¬ Walk g source target k path)
      → IsRight g source target (err (no_path source target))

module _ (g : Graph) (source target : Int32) (w : ℕ) (safe : IsRoutable g w)
    (at_source : IsNode g source) (at_target : IsNode g target) where
  dist_least :
      (s : Search)
      → Inv g source w s
      → IsExhausted s ⊎ Chosen g source w s target
      → dist s target < inf
      → {k : ℕ} {path : List Int32} → Walk g source target k path
      → dist s target ≤ k
  dist_least s inv (inl ex) near walk = ground (
    arith,
    Walk-dist-le g source w s safe inv at_source inf (λ v o. omega (arith, ex v o)) walk,
    ex target,
  )
  dist_least s inv (inr chosen) near walk = ground (
    arith,
    Walk-dist-le g source w s safe inv at_source (dist s target) chosen.least walk,
    chosen.is_open,
  )

  finish_reached :
      (s : Search)
      → Inv g source w s
      → IsExhausted s ⊎ Chosen g source w s target
      → Known g source w s target
      → IsRight g source target (finish source target (suc (length g.get_node_list)) s)
  unfolding finish
  finish_reached s inv ends k =
      let found =
        walk_back-Trail g source w s safe inv at_source (suc (length g.get_node_list)) [] k.trail
          at_target (omega (arith, k.short)) in
      let light : dist s target < inf = omega (arith, k.light, safe.room) in
      let finite : nat_beq (dist s target) inf ≡ false = ground arith in
      rw (finite, found, append-nil)
        (shortest (Trail-Walk g source w s safe inv at_source k.trail)
          (λ k' path' walk. dist_least s inv ends light walk))

  finish_unreached :
      (s : Search)
      → Inv g source w s
      → IsExhausted s ⊎ Chosen g source w s target
      → dist s target ≡ inf
      → IsRight g source target (finish source target (suc (length g.get_node_list)) s)
  unfolding finish
  finish_unreached s inv ends far = rw far (
      unreachable (λ k path walk. elim ends [
        | inl ex ↦ absurd (
            omega (
              arith,
              inv.finite target at_target (Walk-shut g source w s safe inv at_source ex walk),
              far,
            ))
        | inr chosen ↦ absurd (omega (arith, chosen.near, far))
      ]))

  finish-IsRight :
      (s : Search)
      → IsEnd g source target w s
      → IsRight g source target (finish source target (suc (length g.get_node_list)) s)
  finish-IsRight s (inv, ends) = elim (inv.known target at_target) [
    | inl far ↦ finish_unreached s inv ends far
    | inr k ↦ finish_reached s inv ends k
  ]

  -- From a node to a node of a routable graph, where -1 is no identifier and no path's
  -- latency overflows, the search ends, in whatever orders it ranges over its
  -- maps, with a walk of least latency if there is a walk, and otherwise with the error.
  pub dijkstra-IsRight :
      (order : ℕ → List Int32 → List Int32)
      → IsOrder order
      → IsRight g source target (dijkstra order g source target)
  unfolding dijkstra
  dijkstra-IsRight order fair =
      let fresh = init_search-IsFresh g.get_node_list in
      let has_source = fresh.same source ∙ (open-init_search g.get_node_list source).1 at_source in
      let has_target = fresh.same target ∙ (open-init_search g.get_node_list target).1 at_target in
      let (s, run, ends) =
        main_loop_ends g source target w order safe fair (length g.get_node_list)
          (started g source w) (Inv-started g source w at_source)
          (length-init_search g.get_node_list) in
      rw (has_source, has_target, run) (finish-IsRight s ends)
