-- ===== src/Storage/Bloom/Fresh.antt =====
-- A new filter is valid and empty.
use Prim.Native.Nat.{bit_and, bit_and-bitwise}
use file_sharing_system_with.Prelude.{
  ◌-◌, ◌∙◌, ℕ, zero, suc, ◌+◌, ◌*◌, ◌/◌, ◌%◌, ◌^◌, ◌<◌, ◌≡◌, refl, true, false, some, Bytes,
  length-replicate, get_elem?, replicate, arith, ltb,
}
use file_sharing_system_with.Word.{Int64, add64, add64_small, slt64, div64, div64_small}
use file_sharing_system_with.Float.{Float64, IsLawful}
use file_sharing_system_with.Storage.Bloom.{
  BloomFilter, base_hashes, bit_pos, get_bit, rounds, check_bits, might_contain,
}
use file_sharing_system_with.Storage.Bloom.SetBit.{IsBytes}
use file_sharing_system_with.Storage.Bloom.Add.{IsValid, bit_pos-lt, might_contain-eq-check_bits}
use file_sharing_system_with.Storage.Bloom.Sizes.{
  optimal_num_bits, optimal_num_hashes, new_bloom_filter,
}

IsBytes-replicate : (n : ℕ) → IsBytes (replicate n 0)
IsBytes-replicate zero = tt
IsBytes-replicate (suc n) = (omega arith, IsBytes-replicate n)

get_elem?-replicate : (n i : ℕ) (a : ℕ) → i < n → get_elem? (replicate n a) i ≡ some a
get_elem?-replicate zero i a h = absurd (omega arith)
get_elem?-replicate (suc n) zero a h = refl
get_elem?-replicate (suc n) (suc i) a h = get_elem?-replicate n i a (omega arith)

-- No bit of a zero array is set.
get_bit-replicate : (n pos : ℕ) → pos < 8 * n → get_bit (replicate n 0) pos ≡ some false
unfolding get_bit
get_bit-replicate n pos h =
    let at = get_elem?-replicate n (pos / 8) 0 (omega arith) in
    let bit : bit_and 0 (2 ^ (pos % 8)) ≡ 0 = bit_and-bitwise 0 (2 ^ (pos % 8)) in
    rw (at, get_bit, bit)

rounds-optimal_num_hashes :
    {F : Type 0} (fl : Float64 F) (lawful : IsLawful fl) (m n : Int64)
    → (k : ℕ) × (rounds (optimal_num_hashes fl m n) ≡ suc k)
unfolding optimal_num_hashes rounds slt64
rounds-optimal_num_hashes fl lawful m n =
    let word = lawful.to_int_lt (fl.round (fl.mul (fl.div (fl.of_int m) (fl.of_int n)) fl.ln2)) in
    (rounds (optimal_num_hashes fl m n) - 1, ground (arith, word))

-- If the number of bits that the formula gives is positive and fits 32 bits, the new filter is made:
-- it is valid, and it certainly contains no key.
pub new_bloom_filter-IsValid :
    {F : Type 0} (fl : Float64 F) (lawful : IsLawful fl) (expected_items : Int64)
    (false_positive_rate : F)
    → 0 < optimal_num_bits fl expected_items false_positive_rate
    → optimal_num_bits fl expected_items false_positive_rate < 2 ^ 32
    → (bf : BloomFilter) × (new_bloom_filter fl expected_items false_positive_rate ≡ some bf)
      × IsValid bf
      × ((k : Bytes) → might_contain k bf ≡ some false)
unfolding new_bloom_filter check_bits
new_bloom_filter-IsValid fl lawful n p pos small =
    let m = optimal_num_bits fl n p in
    let size = (m + 7) / 8 in
    let (k, hashes) = rounds-optimal_num_hashes fl lawful m n in
    let sum = add64_small m 7 (omega arith) in
    let bytes : div64 (add64 m 7) 8 ≡ size =
      rw sum (div64_small (m + 7) 8 (omega arith) (omega arith)) in
    let fits : ltb size (2 ^ 63) ≡ true = ground arith in
    let bound : (key : Bytes) → bit_pos (base_hashes key) m 0 < 8 * size =
      λ key. omega (arith, bit_pos-lt (base_hashes key) m 0 pos) in
    let bf : BloomFilter = record {
      bit_array = replicate size 0;
      num_bits = m;
      num_hashes = optimal_num_hashes fl m n;
      item_count = 0;
    } in
    (
      bf,
      rw (bytes, fits),
      record {
        bytes = IsBytes-replicate size;
        positive = pos;
        small = small;
        room = omega (arith, length-replicate size (zero));
      },
      λ key.
          let first = get_bit-replicate size (bit_pos (base_hashes key) m 0) (bound key) in
          might_contain-eq-check_bits key bf pos small ∙ rw (hashes, check_bits, first),
    )
