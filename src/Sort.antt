-- ===== src/Sort.antt =====
-- Package sort: what sort.Slice promises of its result, whatever algorithm it uses.
use mathlib.Core.Path.{ap₂}
use mathlib.Core.Logic.{∥∥₁_elim}
use mathlib.Core.List.{Memᴰ, Mem, Perm, mem-cons_self, mem-cons_of_mem}
use mathlib.Core.List.Memᴰ
use mathlib.Core.List.Perm
use file_sharing_system_with.Prelude.{
  ◌≡◌, ◌⊎◌, inl, inr, Bool, false, List, [], ◌∷◌, All, All_of_Memᴰ, sym, subst,
}

-- No later element is less than an earlier one.
abbrev pub IsSorted : {A : Type 0} → (A → A → Bool) → List A → Type 0
IsSorted less [] = Unit
IsSorted less (x ∷ xs) = All (λ y. less y x ≡ false) xs × IsSorted less xs

-- sort.Slice with this `less` reorders a list of proper elements so that it is sorted.
abbrev pub IsSorting : {A : Type 0} → (A → Type 0) → (A → A → Bool) → (List A → List A) → Type 0
IsSorting {A = A} IsProper less sort =
    (xs : List A) → All IsProper xs → Perm (sort xs) xs × IsSorted less (sort xs)

-- Of two different elements one is less.
abbrev pub IsTelling : {A : Type 0} → (A → A → Bool) → List A → Type 0
IsTelling {A = A} less xs =
    (x y : A) → Mem x xs → Mem y xs → less x y ≡ false → less y x ≡ false → x ≡ y

module _ {A : Type 0} (A_set : IsSet A) (less : A → A → Bool) where
  first_or_later :
      (x y : A) (xs : List A)
      → IsSorted less (x ∷ xs)
      → Memᴰ y (x ∷ xs)
      → (y ≡ x) ⊎ (less y x ≡ false)
  first_or_later x y xs sorted m = elim (Memᴰ.cases_cons m) [
    | inl same ↦ inl same
    | inr later ↦ inr (All_of_Memᴰ (λ z. less z x ≡ false) xs sorted.0 later)
  ]

  same_first :
      (x y : A) (xs ys : List A)
      → IsSorted less (x ∷ xs)
      → IsSorted less (y ∷ ys)
      → IsTelling less (x ∷ xs)
      → Mem y (x ∷ xs)
      → Mem x (y ∷ ys)
      → x ≡ y
  same_first x y xs ys sx sy telling my mx = ∥∥₁_elim my (A_set x y) (λ my'.
      ∥∥₁_elim mx (A_set x y) (λ mx'. elim (first_or_later x y xs sx my') [
        | inl same ↦ sym same
        | inr y_not_less ↦ elim (first_or_later y x ys sy mx') [
          | inl same ↦ same
          | inr x_not_less ↦ telling x y mem-cons_self my x_not_less y_not_less
        ]
      ]))

  -- A sorted order of elements that `less` tells apart is the only one.
  pub sorted_unique :
      (xs ys : List A)
      → IsSorted less xs
      → IsSorted less ys
      → IsTelling less xs
      → Perm xs ys
      → xs ≡ ys
  sorted_unique [] ys sx sy telling p = Perm.nil-eq p
  sorted_unique (x ∷ xs) [] sx sy telling p = Perm.eq-nil p
  sorted_unique (x ∷ xs) (y ∷ ys) sx sy telling p =
      let same =
        same_first x y xs ys sx sy telling ((Perm.mem_iff p).1 mem-cons_self)
          ((Perm.mem_iff p).0 mem-cons_self) in
      let p' : Perm (x ∷ xs) (x ∷ ys) = subst (λ z. Perm (x ∷ xs) (z ∷ ys)) (sym same) p in
      ap₂ (λ z zs. z ∷ zs) same
        (sorted_unique xs ys sx.1 sy.1
          (λ a b ma mb. telling a b (mem-cons_of_mem x ma) (mem-cons_of_mem x mb))
          (Perm.cons_inv p'))
