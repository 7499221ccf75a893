-- ===== src/GoMap/Unique.antt =====
-- A map holds every key once, which its operations keep; then its entries are what a lookup finds.
use mathlib.Core.List.{Memᴰ}
use mathlib.Core.List.Memᴰ
use file_sharing_system_with.Prelude.{
  ◌≡◌, refl, true, false, some, [], ◌∷◌, Eq, ◌==◌, arith, inl, inr, ap, subst, sym, Bool-cases,
}
use file_sharing_system_with.GoMap.{GoMap, lookup, insert, delete, has}
use file_sharing_system_with.GoMap.Laws.{has-insert, has-delete}

module _ {ℓ} {K V : Type ℓ} ⦃e : Eq K⦄ where
  abbrev pub IsUnique : GoMap K V → Type 0
  IsUnique [] = Unit
  IsUnique ((k, v) ∷ m) = (has k m ≡ false) × IsUnique m

  pub insert-IsUnique : (k : K) (v : V) (m : GoMap K V) → IsUnique m → IsUnique (insert k v m)
  unfolding insert has lookup
  insert-IsUnique k v [] h = (refl, tt)
  insert-IsUnique k v ((j, w) ∷ m) h =
      ground (arith, e.same_iff j k, e.same_iff k j, insert-IsUnique k v m h.1, has-insert k j v m)

  pub delete-IsUnique : (k : K) (m : GoMap K V) → IsUnique m → IsUnique (delete k m)
  unfolding delete
  delete-IsUnique k [] h = tt
  delete-IsUnique k ((j, w) ∷ m) h = ground (arith, delete-IsUnique k m h.1, has-delete k j m)

  pub lookup→mem : (k : K) (v : V) (m : GoMap K V) → lookup k m ≡ some v → Memᴰ (k, v) m
  unfolding lookup
  lookup→mem k v [] h = cc
  lookup→mem k v ((j, w) ∷ m) h = elim (Bool-cases (j == k)) [
    | inl hit ↦
        let same = (e.same_iff j k).0 hit in
        let value : w ≡ v = ground arith in Memᴰ.head (sym (λ i. (same i, value i)))
    | inr miss ↦ Memᴰ.tail (lookup→mem k v m (rw miss at h))
  ]

  mem→has : (k : K) (v : V) (m : GoMap K V) → Memᴰ (k, v) m → has k m ≡ true
  unfolding has lookup
  mem→has k v [] h = absurd (Memᴰ.not-nil h)
  mem→has k v ((j, w) ∷ m) h = elim (Memᴰ.cases_cons h) [
    | inl here ↦ let same = ap (λ (x : K × V). x.0) here in ground (arith, e.same_iff j k)
    | inr later ↦ ground (arith, mem→has k v m later)
  ]

  pub mem→lookup :
      (k : K) (v : V) (m : GoMap K V) → IsUnique m → Memᴰ (k, v) m → lookup k m ≡ some v
  unfolding lookup
  mem→lookup k v [] u h = absurd (Memᴰ.not-nil h)
  mem→lookup k v ((j, w) ∷ m) u h = elim (Memᴰ.cases_cons h) [
    | inl here ↦
        let same = ap (λ (x : K × V). x.0) here in
        let value = ap (λ (x : K × V). x.1) here in ground (arith, e.same_iff j k)
    | inr later ↦ elim (Bool-cases (j == k)) [
      | inl hit ↦
          let there = mem→has k v m later in
          let same = (e.same_iff j k).0 hit in
          let both : has k m ≡ false = subst (λ x. has x m ≡ false) same u.0 in cc
      | inr miss ↦ rw miss (mem→lookup k v m u.1 later)
    ]
  ]
