-- ===== src/Storage/Bloom/Merge.antt =====
-- `Merge`: the union of two filters.
use Prim.Native.Nat.{bit_or}
use file_sharing_system_with.Prelude.{
  ℕ, zero, suc, ◌/◌, ◌%◌, ◌<◌, ◌≡◌, refl, ◌≢◌, ◌↔◌, ◌⊎◌, inl, inr, true, some, [], ◌∷◌, Bytes,
  length, get_elem?, arith, nat_eq, Option-cases, sym, ◌∙◌,
}
use file_sharing_system_with.Storage.Bloom.{
  BloomFilter, get_bit, might_contain, base_hashes, rounds, merged, incompatible_filters,
  merge_bytes, merge,
}
use file_sharing_system_with.Storage.Bloom.Bits.{flag-bit_or, bit_or-lt}
use file_sharing_system_with.Storage.Bloom.SetBit.{IsBytes, get_bit-of, get_elem?-lt}
use file_sharing_system_with.Storage.Bloom.Add.{
  IsValid, AllSet-Grown, check_bits→AllSet, AllSet→check_bits, might_contain-eq-check_bits,
}

merge_bytes-runs :
    (xs ys : Bytes)
    → IsBytes xs
    → IsBytes ys
    → length xs ≡ length ys
    → (zs : Bytes) × (merge_bytes xs ys ≡ some zs) × (length zs ≡ length xs) × IsBytes zs
unfolding merge_bytes
merge_bytes-runs [] ys hx hy e = ([], refl, refl, tt)
merge_bytes-runs (x ∷ xs) [] hx hy e = absurd (omega arith)
merge_bytes-runs (x ∷ xs) (y ∷ ys) hx hy e =
    let (zs, runs, size, bytes) = merge_bytes-runs xs ys hx.1 hy.1 (omega arith) in
    (bit_or x y ∷ zs, rw runs, omega arith, (bit_or-lt x y hx.0 hy.0, bytes))

merge_bytes-get :
    (xs ys zs : Bytes) (i a b : ℕ)
    → merge_bytes xs ys ≡ some zs
    → get_elem? xs i ≡ some a
    → get_elem? ys i ≡ some b
    → get_elem? zs i ≡ some (bit_or a b)
unfolding merge_bytes
merge_bytes-get [] ys zs i a b e ha hb = cc
merge_bytes-get (x ∷ xs) [] zs i a b e ha hb = cc
merge_bytes-get (x ∷ xs) (y ∷ ys) [] zero a b e ha hb = ground arith
merge_bytes-get (x ∷ xs) (y ∷ ys) (z ∷ zs) zero a b e ha hb = ground arith
merge_bytes-get (x ∷ xs) (y ∷ ys) [] (suc i) a b e ha hb = ground arith
merge_bytes-get (x ∷ xs) (y ∷ ys) (z ∷ zs) (suc i) a b e ha hb =
    ground (arith, merge_bytes-get xs ys zs i a b)

module _ (xs ys zs : Bytes) (runs : merge_bytes xs ys ≡ some zs) (hx : IsBytes xs) (hy : IsBytes ys)
    (same : length xs ≡ length ys) where
  -- A bit of the union is set exactly when it is set in one of the two.
  get_bit-merge :
      (j : ℕ)
      → j / 8 < length xs
      → (get_bit zs j ≡ some true) ↔ ((get_bit xs j ≡ some true) ⊎ (get_bit ys j ≡ some true))
  get_bit-merge j inside =
      let (a, at_x, small_a) = get_elem?-lt xs (j / 8) hx inside in
      let (b, at_y, small_b) = get_elem?-lt ys (j / 8) hy (omega arith) in
      ground (
        arith,
        get_bit-of xs j a at_x,
        get_bit-of ys j b at_y,
        get_bit-of zs j (bit_or a b) (merge_bytes-get xs ys zs (j / 8) a b runs at_x at_y),
        flag-bit_or a b (j % 8) small_a small_b (omega arith),
      )

get_elem?-inside : (xs : Bytes) (i b : ℕ) → get_elem? xs i ≡ some b → i < length xs
get_elem?-inside [] i b e = cc
get_elem?-inside (x ∷ xs) zero b e = omega arith
get_elem?-inside (x ∷ xs) (suc i) b e = omega (arith, get_elem?-inside xs i b e)

get_bit-inside : (xs : Bytes) (j : ℕ) → get_bit xs j ≡ some true → j / 8 < length xs
unfolding get_bit
get_bit-inside xs j e = elim (Option-cases (get_elem? xs (j / 8))) [
  | inl absent ↦ absurd (ground arith)
  | inr (b, here) ↦ get_elem?-inside xs (j / 8) b here
]

-- Two filters of the same sizes.
pub record IsAlike (bf other : BloomFilter) : Type 0 where
  pub bits : bf.num_bits ≡ other.num_bits
  pub hashes : bf.num_hashes ≡ other.num_hashes
  pub size : length bf.bit_array ≡ length other.bit_array

-- All positions of a key stay set in a filter of the same sizes that has the bits of the first.
might_contain-grown :
    (bf bf' : BloomFilter) (k : Bytes)
    → IsValid bf
    → bf'.num_bits ≡ bf.num_bits
    → bf'.num_hashes ≡ bf.num_hashes
    → ((j : ℕ) → get_bit bf.bit_array j ≡ some true → get_bit bf'.bit_array j ≡ some true)
    → might_contain k bf ≡ some true
    → might_contain k bf' ≡ some true
might_contain-grown bf bf' k v nb nh keeps before =
    let here = might_contain-eq-check_bits k bf v.positive v.small in
    let there =
      might_contain-eq-check_bits k bf' (omega (arith, v.positive)) (omega (arith, v.small)) in
    let set_before =
      check_bits→AllSet (base_hashes k) bf.num_bits (rounds bf.num_hashes) 0 bf.bit_array
        (sym here ∙ before) in
    let set_after =
      AllSet-Grown (base_hashes k) bf.num_bits (rounds bf.num_hashes) 0 bf.bit_array bf'.bit_array
        keeps set_before in
    there
    ∙ rw (nb, nh)
        (AllSet→check_bits (base_hashes k) bf.num_bits (rounds bf.num_hashes) 0 bf'.bit_array
          set_after)

-- Filters of different bit counts are refused, and nothing else is.
pub merge-incompatible :
    (bf other : BloomFilter)
    → (merge bf other ≡ incompatible_filters) ↔ (bf.num_bits ≢ other.num_bits)
unfolding merge
merge-incompatible bf other = ground arith

-- Merging two valid filters of the same sizes succeeds, and leaves a valid filter that might contain
-- whatever one of the two might contain, and whose set bits are those of the two.
pub merge-union :
    (bf other : BloomFilter)
    → IsValid bf
    → IsValid other
    → IsAlike bf other
    → (m : BloomFilter) × (merge bf other ≡ merged m)
      × IsValid m
      × ((k : Bytes)
          → (might_contain k bf ≡ some true) ⊎ (might_contain k other ≡ some true)
          → might_contain k m ≡ some true)
      × ((j : ℕ)
          → (get_bit m.bit_array j ≡ some true)
            ↔ ((get_bit bf.bit_array j ≡ some true) ⊎ (get_bit other.bit_array j ≡ some true)))
unfolding merge
merge-union bf other v v' alike =
    let (zs, runs, size, bytes) =
      merge_bytes-runs bf.bit_array other.bit_array v.bytes v'.bytes alike.size in
    let union = get_bit-merge bf.bit_array other.bit_array zs runs v.bytes v'.bytes alike.size in
    let m = record bf { bit_array = zs } in
    let left = λ (j : ℕ) (e : get_bit bf.bit_array j ≡ some true).
      (union j (get_bit-inside bf.bit_array j e)).1 (inl e) in
    let right = λ (j : ℕ) (e : get_bit other.bit_array j ≡ some true).
      (union j (omega (arith, get_bit-inside other.bit_array j e, alike.size))).1 (inr e) in
    (
      m,
      ground (arith, alike.bits),
      record {
        bytes = bytes;
        positive = v.positive;
        small = v.small;
        room = omega (arith, v.room, size);
      },
      λ k h. elim h [
        | inl mine ↦ might_contain-grown bf m k v refl refl left mine
        | inr theirs ↦ might_contain-grown other m k v' alike.bits alike.hashes right theirs
      ],
      λ j. (
        λ e. (union j (omega (arith, get_bit-inside zs j e, size))).0 e,
        λ h. elim h [ inl e ↦ left j e | inr e ↦ right j e ],
      ),
    )
