-- ===== src/Routing/Dijkstra/Pick.antt =====
-- The range over `unvisited` finds a nearest node, in whatever order it runs.
use mathlib.Core.List.{Memᴰ}
use mathlib.Core.List.Memᴰ
use file_sharing_system_with.Prelude.{
  ℕ, ◌≤◌, ◌<◌, ◌≡◌, refl, ◌⊎◌, inl, inr, List, [], ◌∷◌, arith, ltb, nat_eq, Bool-cases, Memᴰ-cons,
}
use file_sharing_system_with.Word.{Int32, Int64, slt64_small}
use file_sharing_system_with.GoMap.{GoMap, index}
use file_sharing_system_with.Routing.Dijkstra.{inf, pick}

-- `best` is at most the start value and every distance seen, and is the start value or one of them.
pub record Nearest (d : GoMap Int32 Int64) (ks : List Int32) (b best : Int32 × Int64) : Type 0 where
  pub below : best.1 ≤ b.1
  pub least : (k : ℕ) → Memᴰ k ks → best.1 ≤ index 0 k d
  pub source : (best ≡ b) ⊎ (Memᴰ best.0 ks × (index 0 best.0 d ≡ best.1) × (best.1 < b.1))

pub pick-Nearest :
    (d : GoMap Int32 Int64) (ks : List Int32) (b : Int32 × Int64)
    → b.1 ≤ inf
    → ((k : ℕ) → Memᴰ k ks → index 0 k d ≤ inf)
    → Nearest d ks b (pick d ks b)
unfolding pick
pick-Nearest d [] b hb h = record {
  below = omega arith;
  least = λ k m. absurd (Memᴰ.not-nil m);
  source = inl refl;
}
pick-Nearest d (x ∷ ks) b hb h =
    let hx = h x (Memᴰ.head refl) in
    let test = slt64_small (index 0 x d) b.1 (omega arith) (omega arith) in
    elim (Bool-cases (ltb (index 0 x d) b.1)) [
      | inl t ↦
          let rest = pick-Nearest d ks (x, index 0 x d) hx (λ k m. h k (Memᴰ.tail m)) in
          rw (test, t)
            (record {
              below = ground (arith, rest.below);
              least = λ k m. ground (arith, rest.below, rest.least k, Memᴰ-cons k x ks);
              source = ground (arith, rest.source, Memᴰ-cons (pick d ks (x, index 0 x d)).0 x ks);
            })
      | inr f ↦
          let rest = pick-Nearest d ks b hb (λ k m. h k (Memᴰ.tail m)) in
          rw (test, f)
            (record {
              below = rest.below;
              least = λ k m. ground (arith, rest.below, rest.least k, Memᴰ-cons k x ks);
              source = ground (arith, rest.source, Memᴰ-cons (pick d ks b).0 x ks);
            })
    ]
