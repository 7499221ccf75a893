-- ===== src/Peer/Join/Target.antt =====
-- The target of the first route.
use mathlib.Core.List.{Memᴰ}
use file_sharing_system_with.Prelude.{
  ◌^◌, ◌<◌, ◌≤◌, ◌≡◌, ◌≢◌, ◌⊎◌, refl, true, false, some, none, Option, length, ltb, not, ◌&&◌, List,
  [], ◌∷◌, arith, nat_eq, nat_beq_iff, ◌==◌, if◌then◌else◌, All, All_of_Memᴰ, All-intro, Bool-cases,
  inl, inr, subst, sym,
}
use file_sharing_system_with.Word.{Int32, slt32}
use file_sharing_system_with.Peer.Network.{NetworkNode}
use file_sharing_system_with.Peer.Join.{target_loop, pick_target}

-- The target so far is below the result, all other nodes with a positive identifier are, and the result
-- is one of them.
record Picked (self target_id : Int32) (nodes : List NetworkNode) (result : Int32) : Type 0 where
  grows : target_id ≤ result
  small : result < 2 ^ 31
  largest : All (λ (n : NetworkNode). n.id ≢ self → n.id < 2 ^ 31 → n.id ≤ result) nodes
  found :
      (result ≡ target_id) ⊎ ((n : NetworkNode) × Memᴰ n nodes × (n.id ≢ self) × (n.id ≡ result))

-- A target that is not negative is less than exactly the positive identifiers above it.
slt32-positive : (a b : Int32) → a < 2 ^ 31 → b < 2 ^ 32 → slt32 a b ≡ true → (a < b) × (b < 2 ^ 31)
unfolding slt32
slt32-positive a b ha hb h = ground (arith, h)

slt32-not : (a b : Int32) → a < 2 ^ 31 → b < 2 ^ 31 → slt32 a b ≡ false → b ≤ a
unfolding slt32
slt32-not a b ha hb h = ground (arith, h)

target_loop-Picked :
    (self target_id : Int32) (nodes : List NetworkNode)
    → target_id < 2 ^ 31
    → All (λ (n : NetworkNode). n.id < 2 ^ 32) nodes
    → Picked self target_id nodes (target_loop self nodes target_id)
unfolding target_loop
target_loop-Picked self t [] ht range = record {
  grows = omega arith;
  small = ht;
  largest = tt;
  found = inl refl;
}
target_loop-Picked self t (n ∷ nodes) ht range =
    elim (Bool-cases (not (n.id == self) && slt32 t n.id)) [
      | inl takes ↦
          let less : slt32 t n.id ≡ true = ground arith in
          let (higher, positive) = slt32-positive t n.id ht range.0 less in
          let p = target_loop-Picked self n.id nodes positive range.1 in
          let other : n.id ≢ self = λ e. ground (arith, nat_beq_iff n.id self, e) in
          subst (λ b. Picked self t (n ∷ nodes) (target_loop self nodes (if b then n.id else t)))
            (sym takes)
            (record {
              grows = omega (arith, p.grows);
              small = p.small;
              largest = ((λ _ _. p.grows), p.largest);
              found = elim p.found [
                | inl same ↦ inr (n, Memᴰ.head refl, other, sym same)
                | inr (m, at, differs, e) ↦ inr (m, Memᴰ.tail at, differs, e)
              ];
            })
      | inr keeps ↦
          let p = target_loop-Picked self t nodes ht range.1 in
          let lower : n.id ≢ self → n.id < 2 ^ 31 → n.id ≤ t =
            λ other low. slt32-not t n.id ht low (ground (arith, nat_beq_iff n.id self, other)) in
          subst (λ b. Picked self t (n ∷ nodes) (target_loop self nodes (if b then n.id else t)))
            (sym keeps)
            (record {
              grows = p.grows;
              small = p.small;
              largest = ((λ other low. omega (arith, p.grows, lower other low)), p.largest);
              found = elim p.found [
                | inl same ↦ inl same
                | inr (m, at, differs, e) ↦ inr (m, Memᴰ.tail at, differs, e)
              ];
            })
    ]

-- A right choice among the nodes: the highest positive identifier of another node. There is none where
-- there are not two nodes, or no other node has a positive identifier.
pub data IsChoice (self : Int32) (nodes : List NetworkNode) : Option Int32 → Type 0 where
  chosen :
      {t : Int32}
      → 1 < length nodes
      → 0 < t
      → t < 2 ^ 31
      → (n : NetworkNode) × Memᴰ n nodes × (n.id ≢ self) × (n.id ≡ t)
      → All (λ (n : NetworkNode). n.id ≢ self → n.id < 2 ^ 31 → n.id ≤ t) nodes
      → IsChoice self nodes (some t)
  unchosen :
      (length nodes ≤ 1) ⊎ All (λ (n : NetworkNode). n.id ≢ self → n.id < 2 ^ 31 → n.id ≡ 0) nodes
      → IsChoice self nodes none

pub pick_target-IsChoice :
    (self : Int32) (nodes : List NetworkNode)
    → All (λ (n : NetworkNode). n.id < 2 ^ 32) nodes
    → IsChoice self nodes (pick_target self nodes)
unfolding pick_target
pick_target-IsChoice self nodes range =
    let p = target_loop-Picked self 0 nodes (omega arith) range in
    let t = target_loop self nodes 0 in
    elim (Bool-cases (ltb 1 (length nodes))) [
      | inr few ↦ rw few (unchosen (inl (ground (arith, few))))
      | inl many ↦ elim (Bool-cases (slt32 0 t)) [
        | inl positive ↦
            let (above, _) = slt32-positive 0 t (omega arith) (omega (arith, p.small)) positive in
            rw (many, positive)
              (chosen (ground (arith, many)) above p.small
                (elim p.found [
                  | inl same ↦ absurd (omega (arith, same, above))
                  | inr found ↦ found
                ])
                p.largest)
        | inr zero_or_less ↦
            let no_target = slt32-not 0 t (omega arith) p.small zero_or_less in
            rw (many, zero_or_less)
              (unchosen (
                inr (
                  All-intro _ nodes (λ n m other low.
                    let high =
                      All_of_Memᴰ (λ (x : NetworkNode). x.id ≢ self → x.id < 2 ^ 31 → x.id ≤ t)
                        nodes p.largest m other low in
                    omega (arith, high, no_target)))))
      ]
    ]
