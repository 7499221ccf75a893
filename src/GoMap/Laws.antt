-- ===== src/GoMap/Laws.antt =====
-- The laws of the map operations, in the form `lookup j (operation) ≡ if k == j then … else …`.
use mathlib.Core.List.{Memᴰ}
use mathlib.Core.List.Memᴰ
use file_sharing_system_with.Prelude.{
  suc, ◌≤◌, ◌<◌, ◌≡◌, refl, true, false, none, some, [], ◌∷◌, Eq, ◌==◌, if◌then◌else◌, arith,
  length, map, Memᴰ-cons,
}
use file_sharing_system_with.GoMap.{GoMap, lookup, insert, delete, index, has}

module _ {ℓ} {K V : Type ℓ} ⦃e : Eq K⦄ where
  pub lookup-insert :
      (k j : K) (v : V) (m : GoMap K V)
      → lookup j (insert k v m) ≡ (if k == j then some v else lookup j m)
  unfolding lookup insert
  lookup-insert key other value [] = refl
  lookup-insert key other value ((k, w) ∷ rest) = ground (
    arith,
    lookup-insert key other value rest,
    e.same_iff key other,
    e.same_iff k key,
    e.same_iff k other,
  )

  pub lookup-insert_same : (k : K) (v : V) (m : GoMap K V) → lookup k (insert k v m) ≡ some v
  lookup-insert_same k v m = ground (arith, lookup-insert k k v m, e.same_iff k k)

  pub lookup-delete :
      (k j : K) (m : GoMap K V) → lookup j (delete k m) ≡ (if k == j then none else lookup j m)
  unfolding lookup delete
  lookup-delete k j [] = ground arith
  lookup-delete k j ((i, w) ∷ m) =
      ground (arith, e.same_iff k j, e.same_iff i k, e.same_iff i j, lookup-delete k j m)

  pub length-insert-le : (k : K) (v : V) (m : GoMap K V) → length (insert k v m) ≤ suc (length m)
  unfolding insert
  length-insert-le k v [] = omega arith
  length-insert-le k v ((i, w) ∷ m) = ground (arith, length-insert-le k v m)

  pub length-delete-le : (k : K) (m : GoMap K V) → length (delete k m) ≤ length m
  unfolding delete
  length-delete-le k [] = ground arith
  length-delete-le k ((i, w) ∷ m) = ground (arith, length-delete-le k m)

  pub length-delete-lt : (k : K) (m : GoMap K V) → has k m ≡ true → length (delete k m) < length m
  unfolding has delete lookup
  length-delete-lt k [] h = cc
  length-delete-lt k ((i, w) ∷ m) h = ground (arith, length-delete-le k m, length-delete-lt k m)

  pub index-insert :
      (z : V) (k j : K) (v : V) (m : GoMap K V)
      → index z j (insert k v m) ≡ (if k == j then v else index z j m)
  unfolding index
  index-insert z k j v m = ground (arith, lookup-insert k j v m)

  pub index-delete :
      (z : V) (k j : K) (m : GoMap K V)
      → index z j (delete k m) ≡ (if k == j then z else index z j m)
  unfolding index
  index-delete z k j m = ground (arith, lookup-delete k j m)

  pub has-insert :
      (k j : K) (v : V) (m : GoMap K V) → has j (insert k v m) ≡ (if k == j then true else has j m)
  unfolding has
  has-insert k j v m = ground (arith, lookup-insert k j v m)

  pub has-delete :
      (k j : K) (m : GoMap K V) → has j (delete k m) ≡ (if k == j then false else has j m)
  unfolding has
  has-delete k j m = ground (arith, lookup-delete k j m)

  -- The keys that a range over the map visits are those that it has.
  pub has→mem-keys : (k : K) (m : GoMap K V) → has k m ≡ true → Memᴰ k (map (λ e. e.0) m)
  unfolding has lookup
  has→mem-keys k [] h = cc
  has→mem-keys k ((j, v) ∷ m) h =
      ground (arith, e.same_iff j k, has→mem-keys k m, Memᴰ-cons k j (map (λ (e : K × V). e.0) m))

  pub mem-keys→has : (k : K) (m : GoMap K V) → Memᴰ k (map (λ e. e.0) m) → has k m ≡ true
  unfolding has lookup
  mem-keys→has k [] h = absurd (Memᴰ.not-nil h)
  mem-keys→has k ((j, v) ∷ m) h =
      ground (arith, e.same_iff j k, mem-keys→has k m, Memᴰ-cons k j (map (λ (e : K × V). e.0) m))

  pub has→lookup :
      (z : V) (k : K) (m : GoMap K V) → has k m ≡ true → lookup k m ≡ some (index z k m)
  unfolding has index
  has→lookup z k m h = ground arith

  pub lookup→index : (z : V) (k : K) (v : V) (m : GoMap K V) → lookup k m ≡ some v → index z k m ≡ v
  unfolding index
  lookup→index z k v m h = rw (h, index)
