-- ===== src/Prelude/Members.antt =====
-- Membership in a list, by the library's inductive family, and a property of all members.
use Prim.Native.Nat.{suc}
use file_sharing_system_with.Prelude.Lists.{length}
use mathlib.Core.Path.{ap, ◌∙◌, ◌≡◌, refl, subst, sym}
use mathlib.Core.Logic.{inl, inr, ◌⊎◌, ◌↔◌, ⊎_elim}
use mathlib.Core.List.{List, [], ◌∷◌, ◌++◌, Memᴰ, Permᴰ}
use mathlib.Core.List.Memᴰ

module _ {ℓ} {A : Type ℓ} where
  pub Memᴰ-cons : (a x : A) (xs : List A) → Memᴰ a (x ∷ xs) ↔ ((a ≡ x) ⊎ Memᴰ a xs)
  Memᴰ-cons a x xs = (Memᴰ.cases_cons, ⊎_elim Memᴰ.head Memᴰ.tail)

  pub Memᴰ-append : (a : A) (xs ys : List A) → Memᴰ a (xs ++ ys) ↔ (Memᴰ a xs ⊎ Memᴰ a ys)
  Memᴰ-append a xs ys = (Memᴰ.append_cases xs, ⊎_elim (Memᴰ.append_left ys) (Memᴰ.append_right xs))

module _ {ℓ κ} {A : Type ℓ} where
  abbrev pub All : (A → Type κ) → List A → Type κ
  All P [] = Unit
  All P (x ∷ xs) = P x × All P xs

  pub All_of_Memᴰ : (P : A → Type κ) (xs : List A) {a : A} → All P xs → Memᴰ a xs → P a
  All_of_Memᴰ P [] h m = absurd (Memᴰ.not-nil m)
  All_of_Memᴰ P (x ∷ xs) h (Memᴰ.head e) = subst P (sym e) h.0
  All_of_Memᴰ P (x ∷ xs) h (Memᴰ.tail m) = All_of_Memᴰ P xs h.1 m

  pub All-intro : (P : A → Type κ) (xs : List A) → ((a : A) → Memᴰ a xs → P a) → All P xs
  All-intro P [] h = tt
  All-intro P (x ∷ xs) h = (h x (Memᴰ.head refl), All-intro P xs (λ a m. h a (Memᴰ.tail m)))

module _ {ℓ} {A : Type ℓ} where
  pub Permᴰ-Memᴰ : {xs ys : List A} (a : A) → Permᴰ xs ys → Memᴰ a xs → Memᴰ a ys
  Permᴰ-Memᴰ a Permᴰ.nil m = m
  Permᴰ-Memᴰ a (Permᴰ.cons e p) m = elim (Memᴰ.cases_cons m) [
    | inl here ↦ Memᴰ.head (here ∙ e)
    | inr later ↦ Memᴰ.tail (Permᴰ-Memᴰ a p later)
  ]
  Permᴰ-Memᴰ a (Permᴰ.swap e e') m = elim (Memᴰ.cases_cons m) [
    | inl here ↦ Memᴰ.tail (Memᴰ.head (here ∙ e))
    | inr later ↦ elim (Memᴰ.cases_cons later) [
      | inl next ↦ Memᴰ.head (next ∙ e')
      | inr rest ↦ Memᴰ.tail (Memᴰ.tail rest)
    ]
  ]
  Permᴰ-Memᴰ a (Permᴰ.trans p q) m = Permᴰ-Memᴰ a q (Permᴰ-Memᴰ a p m)

  pub Permᴰ-length : {xs ys : List A} → Permᴰ xs ys → length xs ≡ length ys
  Permᴰ-length Permᴰ.nil = refl
  Permᴰ-length (Permᴰ.cons e p) = ap suc (Permᴰ-length p)
  Permᴰ-length (Permᴰ.swap e e') = refl
  Permᴰ-length (Permᴰ.trans p q) = Permᴰ-length p ∙ Permᴰ-length q
