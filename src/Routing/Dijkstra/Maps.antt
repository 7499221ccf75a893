-- ===== src/Routing/Dijkstra/Maps.antt =====
-- The maps that `dijkstra` builds before its main loop: the adjacency lists and the initial search.
use mathlib.Core.List.{Memᴰ, foldl}
use mathlib.Core.List.Memᴰ
use file_sharing_system_with.Prelude.{
  ℕ, ◌+◌, ◌≤◌, ◌≡◌, refl, ◌⊎◌, inl, inr, ◌↔◌, true, false, List, [], ◌∷◌, ◌++◌, map, arith, nat_eq,
  Memᴰ-cons, Memᴰ-append, length,
}
use file_sharing_system_with.Word.{Int32, minus_one32}
use file_sharing_system_with.GoMap.{GoMap, index, has, lookup}
use file_sharing_system_with.GoMap.Laws.{index-insert, has-insert, length-insert-le}
use file_sharing_system_with.Routing.Types.{GraphEdge, GraphNode}
use file_sharing_system_with.Routing.Dijkstra.{
  inf, Search, nothing, add_edge, build_adjacency, add_node, init_search,
}
use file_sharing_system_with.Routing.Dijkstra.Relax.{dist, prev, open_at}

mem-add_edge :
    (adj : GoMap Int32 (List GraphEdge)) (x e : GraphEdge) (c : Int32)
    → Memᴰ e (index [] c (add_edge adj x)) ↔ (Memᴰ e (index [] c adj) ⊎ (e ≡ x) × (x.from ≡ c))
unfolding add_edge
mem-add_edge adj x e c = ground (
  arith,
  index-insert [] x.from c (index [] x.from adj ++ x ∷ []) adj,
  Memᴰ-append e (index [] x.from adj) (x ∷ []),
  Memᴰ-cons e x [],
  not_in_nil,
)
  where
    not_in_nil : ¬ Memᴰ e []
    not_in_nil = Memᴰ.not-nil

mem-foldl-add_edge :
    (adj : GoMap Int32 (List GraphEdge)) (es : List GraphEdge) (e : GraphEdge) (c : Int32)
    → Memᴰ e (index [] c (foldl add_edge adj es))
      ↔ (Memᴰ e (index [] c adj) ⊎ Memᴰ e es × (e.from ≡ c))
mem-foldl-add_edge adj [] e c = (inl, λ s. elim s [ inl m ↦ m | inr p ↦ absurd (Memᴰ.not-nil p.0) ])
mem-foldl-add_edge adj (x ∷ es) e c =
    ground
      (arith, mem-foldl-add_edge (add_edge adj x) es e c, mem-add_edge adj x e c, Memᴰ-cons e x es)

-- adjacency[c] holds exactly the edges out of `c`.
pub mem-build_adjacency :
    (es : List GraphEdge) (e : GraphEdge) (c : Int32)
    → Memᴰ e (index [] c (build_adjacency es)) ↔ (Memᴰ e es × (e.from ≡ c))
unfolding build_adjacency index lookup
mem-build_adjacency es e c = ground (arith, mem-foldl-add_edge [] es e c, not_in_nil)
  where
    not_in_nil : ¬ Memᴰ e []
    not_in_nil = Memᴰ.not-nil

-- The three maps have the same keys, and no distance is known.
pub record IsFresh (s : Search) : Type 0 where
  pub same : (v : ℕ) → has v s.distances ≡ open_at s v
  pub flags : (v : ℕ) → has v s.unvisited ≡ open_at s v
  pub far : (v : ℕ) → open_at s v ≡ true → dist s v ≡ inf
  pub root : (v : ℕ) → open_at s v ≡ true → prev s v ≡ minus_one32

add_node-IsFresh : (s : Search) (n : GraphNode) → IsFresh s → IsFresh (add_node s n)
unfolding add_node
add_node-IsFresh s n h = record {
  same = λ v. rw (has-insert, index-insert) (ground (arith, h.same v));
  flags = λ v. rw (has-insert, index-insert) (ground (arith, h.flags v));
  far = λ v o. ground (
    arith,
    h.far v,
    index-insert 0 n.id v inf s.distances,
    index-insert false n.id v true s.unvisited,
  );
  root = λ v o. ground (
    arith,
    h.root v,
    index-insert 0 n.id v minus_one32 s.previous,
    index-insert false n.id v true s.unvisited,
  );
}

foldl-add_node-IsFresh :
    (s : Search) (ns : List GraphNode) → IsFresh s → IsFresh (foldl add_node s ns)
foldl-add_node-IsFresh s [] h = h
foldl-add_node-IsFresh s (n ∷ ns) h =
    foldl-add_node-IsFresh (add_node s n) ns (add_node-IsFresh s n h)

pub init_search-IsFresh : (ns : List GraphNode) → IsFresh (init_search ns)
unfolding init_search has index lookup
init_search-IsFresh ns =
    foldl-add_node-IsFresh nothing ns
      (record { same = λ v. refl; flags = λ v. refl; far = λ v o. cc; root = λ v o. cc })

abbrev pub ids : List GraphNode → List Int32
ids = map (λ n. n.id)

open-foldl-add_node :
    (s : Search) (ns : List GraphNode) (v : Int32)
    → (open_at (foldl add_node s ns) v ≡ true) ↔ ((open_at s v ≡ true) ⊎ Memᴰ v (ids ns))
unfolding add_node
open-foldl-add_node s [] v = (inl, λ x. elim x [ inl o ↦ o | inr m ↦ absurd (Memᴰ.not-nil m) ])
open-foldl-add_node s (n ∷ ns) v = ground (
  arith,
  open-foldl-add_node (add_node s n) ns v,
  index-insert false n.id v true s.unvisited,
  Memᴰ-cons v n.id (ids ns),
)

-- At the start the unvisited nodes are those of the graph.
pub open-init_search :
    (ns : List GraphNode) (v : Int32) → (open_at (init_search ns) v ≡ true) ↔ Memᴰ v (ids ns)
unfolding init_search index lookup
open-init_search ns v = ground (arith, open-foldl-add_node nothing ns v)

length-foldl-add_node :
    (s : Search) (ns : List GraphNode)
    → length (foldl add_node s ns).unvisited ≤ length s.unvisited + length ns
unfolding add_node
length-foldl-add_node s [] = omega arith
length-foldl-add_node s (n ∷ ns) =
    omega (arith, length-foldl-add_node (add_node s n) ns, length-insert-le n.id true s.unvisited)

pub length-init_search : (ns : List GraphNode) → length (init_search ns).unvisited ≤ length ns
unfolding init_search
length-init_search ns = omega (arith, length-foldl-add_node nothing ns)
