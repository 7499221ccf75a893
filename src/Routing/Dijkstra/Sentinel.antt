-- ===== src/Routing/Dijkstra/Sentinel.antt =====
-- The search marks "no node" by -1, which is also an identifier that a peer can have.
use mathlib.Core.List.{Memᴰ}
use file_sharing_system_with.Prelude.{
  ℕ, zero, suc, ◌≤◌, ◌≡◌, refl, ◌≢◌, ◌⊎◌, inl, inr, true, some, List, arith, length, nat_eq,
  List-cases, ◌∙◌, ap, sym,
}
use file_sharing_system_with.Word.{Int32, minus_one32}
use file_sharing_system_with.GoMap.Laws.{index-insert, mem-keys→has}
use file_sharing_system_with.Routing.Types.{Graph}
use file_sharing_system_with.Routing.Walks.{IsNode}
use file_sharing_system_with.Routing.Dijkstra.{
  inf, Search, err, no_path, dijkstra, finish, choose, main_loop, init_search, build_adjacency,
  keys,
}
use file_sharing_system_with.Routing.Dijkstra.Maps.{
  init_search-IsFresh, open-init_search, length-init_search,
}
use file_sharing_system_with.Routing.Dijkstra.Pick.{pick-Nearest}
use file_sharing_system_with.Routing.Dijkstra.Relax.{dist, open_at}
use file_sharing_system_with.Routing.Dijkstra.Invariant.{started}
use file_sharing_system_with.Routing.Dijkstra.Loop.{IsOrder}

module _ (g : Graph) (order : ℕ → List Int32 → List Int32) (fair : IsOrder order) where
  abbrev begun : Search
  begun = started g minus_one32 0

  begun-dist : (v : Int32) → open_at begun v ≡ true → (v ≡ minus_one32) ⊎ (dist begun v ≡ inf)
  begun-dist v o = ground (
    arith,
    index-insert 0 minus_one32 v 0 (init_search g.get_node_list).distances,
    (init_search-IsFresh g.get_node_list).far v,
  )

  choose-minus_one : (r : ℕ) → (choose order r begun).0 ≡ minus_one32
  unfolding choose
  choose-minus_one r =
      let fresh = init_search-IsFresh g.get_node_list in
      let at = λ (k : ℕ) (m : Memᴰ k (order r (keys begun.unvisited))).
        sym (fresh.flags k)
        ∙ mem-keys→has k begun.unvisited ((fair r (keys begun.unvisited) k).0 m) in
      let nearest =
        pick-Nearest begun.distances (order r (keys begun.unvisited)) (minus_one32, inf)
          (omega arith)
          (λ k m. ground (
            arith,
            begun-dist k (at k m),
            index-insert 0 minus_one32 minus_one32 0 (init_search g.get_node_list).distances,
          )) in
      elim (nearest.source) [
        | inl none_found ↦ ap (λ (p : Int32 × ℕ). p.0) none_found
        | inr (m, e, l) ↦ elim (begun-dist _ (at _ m)) [
          | inl found ↦ found
          | inr far ↦ absurd (omega arith)
        ]
      ]

  main_loop-begun :
      (target : Int32) (fuel : ℕ)
      → length begun.unvisited ≤ fuel
      → main_loop order (build_adjacency g.get_edge_list) target fuel begun ≡ some begun
  unfolding main_loop
  main_loop-begun target zero h = elim (List-cases begun.unvisited) [
    | inl empty ↦ ground arith
    | inr (x, rest, e) ↦ absurd (omega (arith, ap length e))
  ]
  main_loop-begun target (suc fuel) h = elim (List-cases begun.unvisited) [
    | inl empty ↦ ground arith
    | inr (x, rest, e) ↦ ground (arith, choose-minus_one fuel)
  ]

  -- If the peer with identifier -1 and another peer are in the graph, the search from the first to the
  -- second answers that there is no path, whatever the edges are.
  pub dijkstra-minus_one :
      (target : Int32)
      → IsNode g minus_one32
      → IsNode g target
      → target ≢ minus_one32
      → dijkstra order g minus_one32 target ≡ err (no_path minus_one32 target)
  unfolding dijkstra finish
  dijkstra-minus_one target ns nt ne =
      let fresh = init_search-IsFresh g.get_node_list in
      let has_source =
        fresh.same minus_one32 ∙ (open-init_search g.get_node_list minus_one32).1 ns in
      let is_open = (open-init_search g.get_node_list target).1 nt in
      let has_target = fresh.same target ∙ is_open in
      let far : dist begun target ≡ inf = ground (arith, begun-dist target is_open) in
      rw
        (
          has_source,
          has_target,
          main_loop-begun target (length g.get_node_list) (length-init_search g.get_node_list),
          far,
        )
        refl
