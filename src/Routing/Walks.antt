-- ===== src/Routing/Walks.antt =====
-- Walks through a graph, independent of the search: what a route is.
use mathlib.Core.List.{Memᴰ}
use file_sharing_system_with.Prelude.{
  ℕ, ◌+◌, ◌*◌, ◌≤◌, ◌<◌, ◌≡◌, ◌≢◌, List, [], ◌∷◌, ◌++◌, map, length, All,
}
use file_sharing_system_with.Word.{Int32, minus_one32, max_int64}
use file_sharing_system_with.Routing.Types.{GraphEdge, Graph}

abbrev pub IsNode : Graph → Int32 → Type 0
IsNode g v = Memᴰ v (map (λ n. n.id) g.get_node_list)

-- `Walk g s v k path`: `path` leads from `s` to `v` along edges between nodes of the graph, whose
-- latencies add up to `k`.
pub data Walk (g : Graph) (s : Int32) : Int32 → ℕ → List Int32 → Type 0 where
  here : Walk g s s 0 (s ∷ [])
  step :
      {u : Int32} {k : ℕ} {path : List Int32}
      → Walk g s u k path
      → (e : GraphEdge) → Memᴰ e g.get_edge_list
      → e.from ≡ u
      → IsNode g e.to
      → Walk g s e.to (k + e.latency_ms) (path ++ e.to ∷ [])

-- What the search relies on: -1 is no identifier, and with latencies of at most `w` no sum along a
-- path through all nodes reaches the largest int64.
pub record IsRoutable (g : Graph) (w : ℕ) : Type 0 where
  pub proper : (v : Int32) → IsNode g v → v ≢ minus_one32
  pub light : All (λ e. e.latency_ms ≤ w) g.get_edge_list
  pub room : length g.get_node_list * w < max_int64
