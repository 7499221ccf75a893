-- ===== src/Storage/Bloom/Tests.antt =====
-- Runs of the filter, and the theorems at concrete filters.
use mathlib.Core.List.{Memᴰ}
use file_sharing_system_with.Prelude.{
  ℕ, ◌≡◌, refl, ◌⊎◌, ◌↔◌, none, some, true, false, [], ◌∷◌, Bytes, arith,
}
use file_sharing_system_with.Word.{from_int32, div64, add64, slt64}
use file_sharing_system_with.Storage.Bloom.{
  BloomFilter, fnv32a, fnv32, base_hashes, combined_hash, bit_pos, set_bit, get_bit, rounds,
  add_bits, add, add_all, check_bits, might_contain, serialize, deserialize_bloom_filter, merged,
  merge_bytes, merge,
}
use file_sharing_system_with.Storage.Bloom.Add.{IsValid, add_all-might_contain}
use file_sharing_system_with.Storage.Bloom.Merge.{merge-union}
use file_sharing_system_with.Storage.Bloom.Transfer.{deserialize-serialize}
use file_sharing_system_with.Storage.Bloom.Sizes.{
  optimal_num_bits, optimal_num_hashes, new_bloom_filter,
}
use file_sharing_system_with.Storage.Bloom.Fresh.{new_bloom_filter-IsValid}
use file_sharing_system_with.Float.{toy_float, toy_float-IsLawful}

program : Unit {0}
unfolding new_bloom_filter optimal_num_bits optimal_num_hashes div64 add64 slt64 fnv32a fnv32
    base_hashes combined_hash bit_pos set_bit get_bit rounds add_bits add check_bits might_contain
    serialize deserialize_bloom_filter merge_bytes merge add_all from_int32
program = tt

abbrev key : Bytes
key = b'a' ∷ b'b' ∷ []

abbrev small : BloomFilter
small = record { bit_array = 0 ∷ 0 ∷ []; num_bits = 10; num_hashes = 2; item_count = 0 }

-- The FNV offset basis, and the published hashes of "a".
hashes :
    (base_hashes [] ≡ (2_166_136_261, 2_166_136_261))
    × (base_hashes (b'a' ∷ []) ≡ (0xe40c292c, 0x050c5d7e))
unfolding program
hashes = (refl, refl)

runs :
    (might_contain key small ≡ some false)
    × (add_all (key ∷ []) small ≡ add key small)
    × (might_contain key (record small { num_bits = 0 }) ≡ none)
unfolding program
runs = (refl, refl, refl)

small-IsValid : IsValid small
small-IsValid = record {
  bytes = omega arith;
  positive = omega arith;
  small = omega arith;
  room = omega arith;
}

-- A filter that was filled under one hash count loses its key when it is merged into a filter of
-- another count.
abbrev one_hash : BloomFilter
one_hash = record small { num_hashes = 1 }

lost :
    elim (add key one_hash) [
      | none ↦ none
      | some filled ↦ elim (merge small filled) [ merged m ↦ might_contain key m | _ ↦ none ]
    ]
    ≡ some false
unfolding program
lost = refl

add_all-might_contain_example :
    (bf : BloomFilter) × (add_all (key ∷ [] ∷ []) small ≡ some bf)
    × IsValid bf
    × ((k : Bytes)
        → Memᴰ k (key ∷ [] ∷ []) ⊎ (might_contain k small ≡ some true)
        → might_contain k bf ≡ some true)
add_all-might_contain_example = add_all-might_contain (key ∷ [] ∷ []) small small-IsValid

merge-union_example :
    (m : BloomFilter) × (merge small small ≡ merged m)
    × IsValid m
    × ((k : Bytes)
        → (might_contain k small ≡ some true) ⊎ (might_contain k small ≡ some true)
        → might_contain k m ≡ some true)
    × ((j : ℕ)
        → (get_bit m.bit_array j ≡ some true)
          ↔ ((get_bit small.bit_array j ≡ some true) ⊎ (get_bit small.bit_array j ≡ some true)))
merge-union_example =
    merge-union small small small-IsValid small-IsValid
      (record { bits = refl; hashes = refl; size = refl })

new_bloom_filter-IsValid_example :
    (bf : BloomFilter) × (new_bloom_filter toy_float 10_000 1 ≡ some bf)
    × IsValid bf
    × ((k : Bytes) → might_contain k bf ≡ some false)
unfolding program
new_bloom_filter-IsValid_example =
    new_bloom_filter-IsValid toy_float toy_float-IsLawful 10_000 1 (omega arith) (omega arith)

deserialize-serialize_example : deserialize_bloom_filter (serialize small) ≡ small
deserialize-serialize_example =
    deserialize-serialize small (omega arith) (omega arith) (omega arith)
