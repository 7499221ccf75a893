-- ===== src/Storage/Bloom/Total.antt =====
-- A query of a valid filter does not panic.
use file_sharing_system_with.Prelude.{
  ℕ, zero, suc, ◌+◌, ◌*◌, ◌/◌, ◌≤◌, ◌<◌, ◌≡◌, refl, Bool, true, false, some, Bytes, length, arith,
  ◌∙◌, Bool-cases, inl, inr,
}
use file_sharing_system_with.Word.{UInt32}
use file_sharing_system_with.Storage.Bloom.{
  BloomFilter, base_hashes, bit_pos, get_bit, rounds, check_bits, might_contain,
}
use file_sharing_system_with.Storage.Bloom.SetBit.{IsBytes, get_bit-of, get_elem?-lt}
use file_sharing_system_with.Storage.Bloom.Add.{IsValid, bit_pos-lt, might_contain-eq-check_bits}

get_bit-some :
    (bits : Bytes) (pos : ℕ)
    → IsBytes bits
    → pos < 8 * length bits
    → (b : Bool) × (get_bit bits pos ≡ some b)
get_bit-some bits pos bytes h =
    let (byte, at, _) = get_elem?-lt bits (pos / 8) bytes (omega arith) in
    (_, get_bit-of bits pos byte at)

check_bits-some :
    (h : UInt32 × UInt32) (m n i : ℕ) (bits : Bytes)
    → IsBytes bits
    → 0 < m
    → m ≤ 8 * length bits
    → (b : Bool) × (check_bits h m n i bits ≡ some b)
unfolding check_bits
check_bits-some h m zero i bits bytes pos room = (true, refl)
check_bits-some h m (suc n) i bits bytes pos room =
    let (bit, found) =
      get_bit-some bits (bit_pos h m i) bytes (omega (arith, bit_pos-lt h m i pos)) in
    let (b, rest) = check_bits-some h m n (i + 1) bits bytes pos room in
    elim (Bool-cases bit) [
      | inl set ↦ (b, rw (found, check_bits, set) rest)
      | inr clear ↦ (false, rw (found, check_bits, clear))
    ]

-- A valid filter answers every query.
pub might_contain-some :
    (key : Bytes) (bf : BloomFilter) → IsValid bf → (b : Bool) × (might_contain key bf ≡ some b)
might_contain-some key bf v =
    let (b, runs) =
      check_bits-some (base_hashes key) bf.num_bits (rounds bf.num_hashes) 0 bf.bit_array v.bytes
        v.positive v.room in
    (b, might_contain-eq-check_bits key bf v.positive v.small ∙ runs)
