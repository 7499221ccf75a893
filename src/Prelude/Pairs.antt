-- ===== src/Prelude/Pairs.antt =====
-- Lists whose members have different keys, in any order.
use Prim.Native.Nat.{ℕ, zero, suc}
use mathlib.Core.List.Permᴰ
use mathlib.Core.Path.{ap, ◌∙◌, subst, sym}
use mathlib.Core.Logic.{◌≢◌, inl, inr}
use mathlib.Core.List.{List, [], ◌∷◌, Memᴰ, Permᴰ}
use mathlib.Core.List.Memᴰ
use file_sharing_system_with.Prelude.Lists.{take}
use file_sharing_system_with.Prelude.Members.{All, All_of_Memᴰ, All-intro, Permᴰ-Memᴰ}

pub take-Memᴰ : {A : Type 0} {x : A} (n : ℕ) (xs : List A) → Memᴰ x (take n xs) → Memᴰ x xs
take-Memᴰ zero xs h = absurd (Memᴰ.not-nil h)
take-Memᴰ (suc n) [] h = h
take-Memᴰ (suc n) (x ∷ xs) h = elim (Memᴰ.cases_cons h) [
  | inl here ↦ Memᴰ.head here
  | inr later ↦ Memᴰ.tail (take-Memᴰ n xs later)
]

module _ {A : Type 0} (key : A → ℕ) where
  abbrev pub Apart : List A → Type 0
  Apart [] = Unit
  Apart (x ∷ xs) = All (λ y. key y ≢ key x) xs × Apart xs

  pub Apart-Permᴰ : {xs ys : List A} → Permᴰ xs ys → Apart xs → Apart ys
  Apart-Permᴰ Permᴰ.nil h = h
  Apart-Permᴰ (Permᴰ.cons {l₂ = ys} e p) h = (
    subst (λ k. All (λ y. key y ≢ k) ys) (ap key e)
        (All-intro (λ y. key y ≢ key _) ys
          (λ y m. All_of_Memᴰ (λ z. key z ≢ key _) _ h.0 (Permᴰ-Memᴰ y (Permᴰ.symm p) m))),
    Apart-Permᴰ p h.1,
  )
  Apart-Permᴰ (Permᴰ.swap {l = rest} e e') h = (
    (
      λ x. h.0.0 (ap key e' ∙ sym x ∙ ap key (sym e)),
      subst (λ k. All (λ y. key y ≢ k) rest) (ap key e') h.1.0,
    ),
    (subst (λ k. All (λ y. key y ≢ k) rest) (ap key e) h.0.1, h.1.1),
  )
  Apart-Permᴰ (Permᴰ.trans p q) h = Apart-Permᴰ q (Apart-Permᴰ p h)

  pub Apart-take : (n : ℕ) (xs : List A) → Apart xs → Apart (take n xs)
  Apart-take zero xs h = tt
  Apart-take (suc n) [] h = tt
  Apart-take (suc n) (x ∷ xs) h = (
    All-intro (λ y. key y ≢ key x) (take n xs)
        (λ y m. All_of_Memᴰ (λ z. key z ≢ key x) xs h.0 (take-Memᴰ n xs m)),
    Apart-take n xs h.1,
  )
