-- ===== src/Storage/Bloom.antt =====
-- internal/storage/bloom.go. `none` is a run-time panic: an index out of range, or a remainder by 0.
pub mod Bits
pub mod SetBit
pub mod Add
pub mod Merge
pub mod Transfer
pub mod Sizes
pub mod Fresh
pub mod Total
mod Tests
use Prim.Native.Nat.{bit_and, bit_or, bit_xor}
use file_sharing_system_with.Prelude.{
  ℕ, zero, suc, ◌+◌, ◌-◌, ◌*◌, ◌/◌, ◌%◌, ◌^◌, Bool, true, false, not, ◌&&◌, Option, none, some,
  List, [], ◌∷◌, ◌++◌, Bytes, length, get_elem?, set, replicate, nat_eq, nat_beq, ltb, ◌==◌,
  if◌then◌else◌,
}
use file_sharing_system_with.Word.{Int32, Int64, UInt32, to_int32, from_int32}

pub record BloomFilter : Type 0 where
  pub bit_array : Bytes
  pub num_bits : Int64
  pub num_hashes : Int64
  pub item_count : Int64

-- hash/fnv: New32a xors before it multiplies, New32 after.
abbrev offset32 : UInt32
offset32 = 2_166_136_261

abbrev prime32 : UInt32
prime32 = 16_777_619

pub fnv32a : UInt32 → Bytes → UInt32
fnv32a h [] = h
fnv32a h (b ∷ bs) = fnv32a (bit_xor h b * prime32 % 2 ^ 32) bs

pub fnv32 : UInt32 → Bytes → UInt32
fnv32 h [] = h
fnv32 h (b ∷ bs) = fnv32 (bit_xor (h * prime32 % 2 ^ 32) b) bs

pub base_hashes : Bytes → UInt32 × UInt32
base_hashes key = (fnv32a offset32 key, fnv32 offset32 key)

pub combined_hash : UInt32 → UInt32 → ℕ → UInt32
combined_hash h1 h2 i = (h1 + i % 2 ^ 32 * h2) % 2 ^ 32

-- combinedHash(h1, h2, i) % uint32(numBits), for a divisor that is not 0
pub bit_pos : UInt32 × UInt32 → UInt32 → ℕ → ℕ
bit_pos h m i = combined_hash h.0 h.1 i % m

pub set_bit : Bytes → ℕ → Option Bytes
set_bit bits pos = elim (get_elem? bits (pos / 8)) [
  | none ↦ none
  | some b ↦ some (set bits (pos / 8) (bit_or b (2 ^ (pos % 8))))
]

pub get_bit : Bytes → ℕ → Option Bool
get_bit bits pos = elim (get_elem? bits (pos / 8)) [
  | none ↦ none
  | some b ↦ some (not (nat_beq (bit_and b (2 ^ (pos % 8))) 0))
]

-- The rounds of `for i := 0; i < n; i++` on int: none if `n` is negative.
pub rounds : Int64 → ℕ
rounds n = if ltb n (2 ^ 63) then n else 0

-- The loop of `Add`, with `n` rounds left from `i` on.
pub add_bits : UInt32 × UInt32 → UInt32 → ℕ → ℕ → Bytes → Option Bytes
add_bits h m zero i bits = some bits
add_bits h m (suc n) i bits = elim (set_bit bits (bit_pos h m i)) [
  | none ↦ none
  | some bits' ↦ add_bits h m n (i + 1) bits'
]

pub add : Bytes → BloomFilter → Option BloomFilter
add key bf =
    let m = bf.num_bits % 2 ^ 32 in
    if nat_beq m 0 && not (nat_beq (rounds bf.num_hashes) 0)
    then none
    else elim (add_bits (base_hashes key) m (rounds bf.num_hashes) 0 bf.bit_array) [
      | none ↦ none
      | some bits ↦ some (record bf { bit_array = bits; item_count = (bf.item_count + 1) % 2 ^ 64 })
    ]

-- A loop of `Add` calls, as over the chunks of a file.
pub add_all : List Bytes → BloomFilter → Option BloomFilter
add_all [] bf = some bf
add_all (k ∷ ks) bf = elim (add k bf) [ none ↦ none | some bf' ↦ add_all ks bf' ]

-- The loop of `MightContain`.
pub check_bits : UInt32 × UInt32 → UInt32 → ℕ → ℕ → Bytes → Option Bool
check_bits h m zero i bits = some true
check_bits h m (suc n) i bits = elim (get_bit bits (bit_pos h m i)) [
  | none ↦ none
  | some false ↦ some false
  | some true ↦ check_bits h m n (i + 1) bits
]

pub might_contain : Bytes → BloomFilter → Option Bool
might_contain key bf =
    let m = bf.num_bits % 2 ^ 32 in
    if nat_beq m 0 && not (nat_beq (rounds bf.num_hashes) 0)
    then none
    else check_bits (base_hashes key) m (rounds bf.num_hashes) 0 bf.bit_array

-- The four values that are sent.
pub record Serialized : Type 0 where
  pub bit_array : Bytes
  pub num_bits : Int32
  pub num_hashes : Int32
  pub item_count : Int32

pub serialize : BloomFilter → Serialized
serialize bf = record {
  bit_array = bf.bit_array;
  num_bits = to_int32 bf.num_bits;
  num_hashes = to_int32 bf.num_hashes;
  item_count = to_int32 bf.item_count;
}

pub deserialize_bloom_filter : Serialized → BloomFilter
deserialize_bloom_filter s = record {
  bit_array = s.bit_array;
  num_bits = from_int32 s.num_bits;
  num_hashes = from_int32 s.num_hashes;
  item_count = from_int32 s.item_count;
}

pub data MergeResult : Type 0 where
  merged : BloomFilter → MergeResult
  incompatible_filters : MergeResult
  panicked : MergeResult

-- The loop of `Merge`; `none` where the other array is too short.
pub merge_bytes : Bytes → Bytes → Option Bytes
merge_bytes [] ys = some []
merge_bytes (x ∷ xs) [] = none
merge_bytes (x ∷ xs) (y ∷ ys) = elim (merge_bytes xs ys) [
  | none ↦ none
  | some zs ↦ some (bit_or x y ∷ zs)
]

pub merge : BloomFilter → BloomFilter → MergeResult
merge bf other =
    if not (bf.num_bits == other.num_bits)
    then incompatible_filters
    else elim (merge_bytes bf.bit_array other.bit_array) [
      | none ↦ panicked
      | some bits ↦ merged (record bf { bit_array = bits })
    ]
