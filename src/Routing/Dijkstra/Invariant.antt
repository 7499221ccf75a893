-- ===== src/Routing/Dijkstra/Invariant.antt =====
-- The invariant of the main loop, and that it holds when the loop starts.
use mathlib.Core.List.{Memᴰ}
use file_sharing_system_with.Prelude.{
  ℕ, ◌+◌, ◌*◌, ◌≤◌, ◌<◌, ◌≡◌, ◌⊎◌, inl, inr, true, false, List, [], ◌∷◌, ◌++◌, arith, length,
  nat_eq, nat_beq, nat_beq_iff, subst, Bool-cases, ◌∙◌, sym, ap,
}
use file_sharing_system_with.Word.{Int32, minus_one32}
use file_sharing_system_with.GoMap.{has, insert}
use file_sharing_system_with.GoMap.Laws.{index-insert}
use file_sharing_system_with.Routing.Types.{GraphEdge, Graph}
use file_sharing_system_with.Routing.Walks.{IsNode}
use file_sharing_system_with.Routing.Dijkstra.{inf, Search, init_search}
use file_sharing_system_with.Routing.Dijkstra.Relax.{dist, prev, open_at}
use file_sharing_system_with.Routing.Dijkstra.Maps.{
  IsFresh, init_search-IsFresh, open-init_search, length-init_search,
}

pub times_mono : (w a b : ℕ) → a ≤ b → a * w ≤ b * w
times_mono w a b h = grind arith

-- `t` keeps what `s` holds of its settled nodes.
pub record Frame (s t : Search) : Type 0 where
  pub shut : (v : ℕ) → open_at s v ≡ false → open_at t v ≡ false
  pub distance : (v : ℕ) → open_at s v ≡ false → dist t v ≡ dist s v
  pub parent : (v : ℕ) → open_at s v ≡ false → prev t v ≡ prev s v

module _ (g : Graph) (source : Int32) where
  -- `previous` leads from `v` back to the source through settled nodes, along `path`.
  pub data Trail (s : Search) : Int32 → List Int32 → Type 0 where
    root : prev s source ≡ minus_one32 → Trail s source (source ∷ [])
    link :
        {x : Int32} {path : List Int32}
        → Trail s x path
        → open_at s x ≡ false
        → (e : GraphEdge) → Memᴰ e g.get_edge_list
        → e.from ≡ x
        → IsNode g e.to
        → prev s e.to ≡ x
        → dist s e.to ≡ dist s x + e.latency_ms
        → Trail s e.to (path ++ e.to ∷ [])

  pub Trail-Frame :
      {s t : Search} {v : Int32} {path : List Int32}
      → Frame s t
      → Trail s v path
      → dist t v ≡ dist s v
      → prev t v ≡ prev s v
      → Trail t v path
  Trail-Frame f (root p) hd hp = root (hp ∙ p)
  Trail-Frame f (link {x} tr o e m ef n p d) hd hp =
      link (Trail-Frame f tr (f.distance x o) (f.parent x o)) (f.shut x o) e m ef n (hp ∙ p)
        (hd ∙ d ∙ ap (λ k. k + e.latency_ms) (sym (f.distance x o)))

  module _ (w : ℕ) where
    -- A known distance is that of a trail, and leaves room for the nodes still unvisited.
    pub record Known (s : Search) (v : Int32) : Type 0 where
      pub path : List Int32
      pub trail : Trail s v path
      pub short : length path + length s.unvisited ≤ length g.get_node_list + 1
      pub light : dist s v + length s.unvisited * w ≤ length g.get_node_list * w

    pub record Inv (s : Search) : Type 0 where
      pub nodes : (v : ℕ) → open_at s v ≡ true → IsNode g v
      pub flags : (v : ℕ) → has v s.unvisited ≡ open_at s v
      pub start : dist s source ≡ 0
      pub ordered :
          (x v : ℕ) → IsNode g x → open_at s x ≡ false → open_at s v ≡ true → dist s x ≤ dist s v
      pub finite : (x : ℕ) → IsNode g x → open_at s x ≡ false → dist s x < inf
      pub closed :
          (e : GraphEdge)
          → Memᴰ e g.get_edge_list
          → IsNode g e.from
          → open_at s e.from ≡ false
          → IsNode g e.to
          → dist s e.to ≤ dist s e.from + e.latency_ms
      pub known : (v : ℕ) → IsNode g v → (dist s v ≡ inf) ⊎ Known s v

    abbrev pub started : Search
    started =
        let s = init_search g.get_node_list in record s { distances = insert source 0 s.distances }

    Known-started : IsNode g source → Known started source
    Known-started hs =
        let root_of = (init_search-IsFresh g.get_node_list).root source in
        let is_open = (open-init_search g.get_node_list source).1 hs in
        record {
          path = source ∷ [];
          trail = root (root_of is_open);
          short = omega (arith, length-init_search g.get_node_list);
          light = ground (
            arith,
            index-insert 0 source source 0 (init_search g.get_node_list).distances,
            times_mono w _ _ (length-init_search g.get_node_list),
          );
        }

    pub Inv-started : IsNode g source → Inv started
    Inv-started hs = record {
      nodes = λ v o. (open-init_search g.get_node_list v).0 o;
      flags = λ v. fresh.flags v;
      start = ground (arith, index-insert 0 source source 0 s.distances);
      ordered = λ x v n o. ground (arith, all_open x n);
      finite = λ x n o. ground (arith, all_open x n);
      closed = λ e m n o. ground (arith, all_open e.from n);
      known = λ v n. elim (Bool-cases (nat_beq source v)) [
        | inl hit ↦ inr (subst (Known started) ((nat_beq_iff source v).0 hit) (Known-started hs))
        | inr miss ↦ inl (rw (index-insert, miss) (fresh.far v (all_open v n)))
      ];
    }
      where
        s : Search
        s = init_search g.get_node_list

        fresh : IsFresh s
        fresh = init_search-IsFresh g.get_node_list

        all_open : (v : ℕ) → IsNode g v → open_at s v ≡ true
        all_open v n = (open-init_search g.get_node_list v).1 n
