-- ===== src/Routing/Dijkstra/Missing.antt =====
-- The search answers with an error if an end of the route is not in the graph.
use file_sharing_system_with.Prelude.{ℕ, ◌≡◌, ◌↔◌, true, List, arith, nat_eq}
use file_sharing_system_with.Word.{Int32}
use file_sharing_system_with.GoMap.{has}
use file_sharing_system_with.Routing.Types.{Graph}
use file_sharing_system_with.Routing.Walks.{IsNode}
use file_sharing_system_with.Routing.Dijkstra.{
  err, source_not_found, target_not_found, dijkstra, finish, init_search,
}
use file_sharing_system_with.Routing.Dijkstra.Maps.{init_search-IsFresh, open-init_search}

module _ (g : Graph) where
  has-IsNode : (v : Int32) → (has v (init_search g.get_node_list).distances ≡ true) ↔ IsNode g v
  has-IsNode v =
      ground
        (arith, (init_search-IsFresh g.get_node_list).same v, open-init_search g.get_node_list v)

  -- Whatever the edges and the orders are, the search answers that the source is not found exactly
  -- when it is not in the graph.
  pub dijkstra-source_not_found :
      (order : ℕ → List Int32 → List Int32) (source target : Int32)
      → (dijkstra order g source target ≡ err (source_not_found source)) ↔ (¬ IsNode g source)
  unfolding dijkstra finish
  dijkstra-source_not_found order source target =
      ground (arith, has-IsNode source, has-IsNode target)

  -- Whatever the edges and the orders are, the search answers that the target is not found exactly
  -- when the source is in the graph and the target is not.
  pub dijkstra-target_not_found :
      (order : ℕ → List Int32 → List Int32) (source target : Int32)
      → (dijkstra order g source target ≡ err (target_not_found target))
        ↔ (IsNode g source × (¬ IsNode g target))
  unfolding dijkstra finish
  dijkstra-target_not_found order source target =
      ground (arith, has-IsNode source, has-IsNode target)
