-- ===== src/Routing/Dijkstra/Loop.antt =====
-- The main loop ends within as many rounds as there are nodes, whatever order each round takes: it
-- has then chosen the target, or no unvisited node is reached.
use mathlib.Core.List.{Memᴰ}
use file_sharing_system_with.Prelude.{
  ℕ, zero, suc, ◌≤◌, ◌<◌, ◌≡◌, ◌≢◌, ◌⊎◌, inl, inr, ◌↔◌, true, some, List, [], arith, length, nat_eq,
  nat_beq_iff, ◌==◌, Bool-cases, List-cases, ap, ◌∙◌, sym, subst,
}
use file_sharing_system_with.Word.{Int32, minus_one32}
use file_sharing_system_with.GoMap.{has, lookup}
use file_sharing_system_with.GoMap.Laws.{has→mem-keys, mem-keys→has}
use file_sharing_system_with.Routing.Types.{Graph}
use file_sharing_system_with.Routing.Walks.{IsNode, IsRoutable}
use file_sharing_system_with.Routing.Dijkstra.{
  inf, Search, build_adjacency, settle, choose, main_loop, keys,
}
use file_sharing_system_with.Routing.Dijkstra.Pick.{pick-Nearest}
use file_sharing_system_with.Routing.Dijkstra.Relax.{dist, open_at}
use file_sharing_system_with.Routing.Dijkstra.Invariant.{Inv}
use file_sharing_system_with.Routing.Dijkstra.Step.{Chosen, settle-Inv, fewer_next}

-- Ranging over a map visits exactly its keys, in some order.
abbrev pub IsOrder : (ℕ → List Int32 → List Int32) → Type 0
IsOrder order = (r : ℕ) (ks : List Int32) (k : ℕ) → Memᴰ k (order r ks) ↔ Memᴰ k ks

abbrev pub IsExhausted : Search → Type 0
IsExhausted s = (v : ℕ) → open_at s v ≡ true → dist s v ≡ inf

-- How the loop may end.
abbrev pub IsEnd : Graph → Int32 → Int32 → ℕ → Search → Type 0
IsEnd g source target w t = Inv g source w t × (IsExhausted t ⊎ Chosen g source w t target)

module _ (g : Graph) (source target : Int32) (w : ℕ) (order : ℕ → List Int32 → List Int32)
    (ok : IsRoutable g w) (fair : IsOrder order) where
  top : (s : Search) → Inv g source w s → (v : ℕ) → IsNode g v → dist s v ≤ inf
  top s inv v n = elim (inv.known v n) [
    | inl far ↦ omega arith
    | inr k ↦ omega (arith, k.light, ok.room)
  ]

  key-open :
      (s : Search)
      → Inv g source w s
      → (r v : ℕ) → Memᴰ v (order r (keys s.unvisited))
      → open_at s v ≡ true
  key-open s inv r v m =
      sym (inv.flags v) ∙ mem-keys→has v s.unvisited ((fair r (keys s.unvisited) v).0 m)

  open-key :
      (s : Search)
      → Inv g source w s
      → (r v : ℕ) → open_at s v ≡ true
      → Memᴰ v (order r (keys s.unvisited))
  open-key s inv r v o =
      (fair r (keys s.unvisited) v).1 (has→mem-keys v s.unvisited (inv.flags v ∙ o))

  Chosen-or-IsExhausted :
      (s : Search) (r : ℕ)
      → Inv g source w s
      → (choose order r s ≡ (minus_one32, inf)) × IsExhausted s
        ⊎ Chosen g source w s (choose order r s).0 × ((choose order r s).1 < inf)
  unfolding choose
  Chosen-or-IsExhausted s r inv =
      let nearest =
        pick-Nearest s.distances (order r (keys s.unvisited)) (minus_one32, inf) (omega arith)
          (λ k m. top s inv k (inv.nodes k (key-open s inv r k m))) in
      elim (nearest.source) [
        | inl none_found ↦ inl (
          none_found,
          λ v o. omega (
            arith,
            nearest.least v (open-key s inv r v o),
            top s inv v (inv.nodes v o),
            ap (λ (p : Int32 × ℕ). p.1) none_found,
          ),
        )
        | inr (m, e, l) ↦ inr (
          record {
            inv = inv;
            is_open = key-open s inv r _ m;
            near = omega arith;
            least = λ v o. omega (arith, nearest.least v (open-key s inv r v o));
          },
          l,
        )
      ]

  empty-IsExhausted : (s : Search) → Inv g source w s → s.unvisited ≡ [] → IsExhausted s
  unfolding has lookup
  empty-IsExhausted s inv e v o = ground (arith, inv.flags v)

  pub main_loop_ends :
      (fuel : ℕ) (s : Search)
      → Inv g source w s
      → length s.unvisited ≤ fuel
      → (t : Search) × (main_loop order (build_adjacency g.get_edge_list) target fuel s ≡ some t)
        × IsEnd g source target w t
  unfolding main_loop
  main_loop_ends zero s inv h = elim (List-cases s.unvisited) [
    | inl empty ↦ (s, ground arith, (inv, inl (empty-IsExhausted s inv empty)))
    | inr (x, rest, e) ↦ absurd (omega (arith, ap length e))
  ]
  main_loop_ends (suc fuel) s inv h = elim (List-cases s.unvisited) [
    | inl empty ↦ (s, ground arith, (inv, inl (empty-IsExhausted s inv empty)))
    | inr (x, rest, e) ↦ elim (Chosen-or-IsExhausted s fuel inv) [
      | inl (none_found, ex) ↦ (s, ground arith, (inv, inl ex))
      | inr (chosen, near) ↦
          let c = (choose order fuel s).0 in
          let proper : c ≢ minus_one32 = ok.proper c (inv.nodes c chosen.is_open) in
          elim (Bool-cases (c == target)) [
            | inl at ↦ (
              s,
              ground arith,
              (inv, inr (subst (Chosen g source w s) ((nat_beq_iff c target).0 at) chosen)),
            )
            | inr other ↦
                let (t, run, ends) =
                  main_loop_ends fuel (settle (build_adjacency g.get_edge_list) s c)
                    (settle-Inv g source w s c ok chosen)
                    (omega (arith, fewer_next g source w s c ok chosen)) in
                (t, ground arith, ends)
          ]
    ]
  ]
