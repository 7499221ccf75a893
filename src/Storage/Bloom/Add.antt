-- ===== src/Storage/Bloom/Add.antt =====
-- `Add` and `MightContain`: the filter has no false negatives, and neither panics on a valid filter.
use mathlib.Core.List.{Memᴰ}
use mathlib.Core.List.Memᴰ
use file_sharing_system_with.Prelude.{
  ℕ, zero, suc, ◌+◌, ◌*◌, ◌%◌, ◌^◌, ◌≤◌, ◌<◌, ◌≡◌, refl, ◌⊎◌, inl, inr, true, false, some, List, [],
  ◌∷◌, Bytes, length, arith, nat_beq, subst, sym, ◌∙◌,
}
use file_sharing_system_with.Word.{UInt32}
use file_sharing_system_with.Storage.Bloom.{
  BloomFilter, bit_pos, get_bit, add_bits, add, check_bits, might_contain, base_hashes, rounds,
  add_all,
}
use file_sharing_system_with.Storage.Bloom.SetBit.{IsBytes, Grown, set_bit-Grown}

-- The sizes fit the array, so no position is out of range and no remainder is by 0.
pub record IsValid (bf : BloomFilter) : Type 0 where
  pub bytes : IsBytes bf.bit_array
  pub positive : 0 < bf.num_bits
  pub small : bf.num_bits < 2 ^ 32
  pub room : bf.num_bits ≤ 8 * length bf.bit_array

-- The bits at the positions of the rounds from `i` on are set.
abbrev pub AllSet : UInt32 × UInt32 → UInt32 → ℕ → ℕ → Bytes → Type 0
AllSet h m zero i bits = Unit {0}
AllSet h m (suc n) i bits = (get_bit bits (bit_pos h m i) ≡ some true) × AllSet h m n (i + 1) bits

pub AllSet-Grown :
    (h : UInt32 × UInt32) (m n i : ℕ) (xs ys : Bytes)
    → ((j : ℕ) → get_bit xs j ≡ some true → get_bit ys j ≡ some true)
    → AllSet h m n i xs
    → AllSet h m n i ys
AllSet-Grown h m zero i xs ys keeps a = tt
AllSet-Grown h m (suc n) i xs ys keeps a =
    (keeps (bit_pos h m i) a.0, AllSet-Grown h m n (i + 1) xs ys keeps a.1)

pub check_bits→AllSet :
    (h : UInt32 × UInt32) (m n i : ℕ) (bits : Bytes)
    → check_bits h m n i bits ≡ some true
    → AllSet h m n i bits
unfolding check_bits
check_bits→AllSet h m zero i bits e = tt
check_bits→AllSet h m (suc n) i bits e = ground (arith, check_bits→AllSet h m n (i + 1) bits)

pub AllSet→check_bits :
    (h : UInt32 × UInt32) (m n i : ℕ) (bits : Bytes)
    → AllSet h m n i bits
    → check_bits h m n i bits ≡ some true
unfolding check_bits
AllSet→check_bits h m zero i bits a = refl
AllSet→check_bits h m (suc n) i bits a =
    rw (a.0, check_bits) (AllSet→check_bits h m n (i + 1) bits a.1)

pub bit_pos-lt : (h : UInt32 × UInt32) (m i : ℕ) → 0 < m → bit_pos h m i < m
unfolding bit_pos
bit_pos-lt h m i pos = omega arith

Grown-trans : (xs ys zs : Bytes) → Grown xs ys → Grown ys zs → Grown xs zs
Grown-trans xs ys zs g h = record {
  size = h.size ∙ g.size;
  bytes = h.bytes;
  keeps = λ j o. h.keeps j (g.keeps j o);
}

-- The loop of `Add` runs through, sets its bits and keeps the others.
add_bits-Grown :
    (h : UInt32 × UInt32) (m n i : ℕ) (xs : Bytes)
    → IsBytes xs
    → 0 < m
    → m ≤ 8 * length xs
    → (ys : Bytes) × (add_bits h m n i xs ≡ some ys) × Grown xs ys × AllSet h m n i ys
unfolding add_bits
add_bits-Grown h m zero i xs b pos room =
    (xs, refl, record { size = refl; bytes = b; keeps = λ j o. o }, tt)
add_bits-Grown h m (suc n) i xs b pos room =
    let (ys, first, grown, here) =
      set_bit-Grown xs (bit_pos h m i) b (omega (arith, bit_pos-lt h m i pos)) in
    let (zs, rest, grown', all) =
      add_bits-Grown h m n (i + 1) ys grown.bytes pos (omega (arith, grown.size)) in
    (
      zs,
      rw (first, add_bits) rest,
      Grown-trans xs ys zs grown grown',
      (grown'.keeps (bit_pos h m i) here, all),
    )

-- The filter that `Add` leaves on a valid filter.
pub record Added (key : Bytes) (bf bf' : BloomFilter) : Type 0 where
  pub valid : IsValid bf'
  pub found : might_contain key bf' ≡ some true
  pub keeps : (k : Bytes) → might_contain k bf ≡ some true → might_contain k bf' ≡ some true
  pub counted : bf'.item_count ≡ (bf.item_count + 1) % 2 ^ 64

-- Within its sizes the filter runs the loop.
pub might_contain-eq-check_bits :
    (key : Bytes) (bf : BloomFilter)
    → 0 < bf.num_bits
    → bf.num_bits < 2 ^ 32
    → might_contain key bf
      ≡ check_bits (base_hashes key) bf.num_bits (rounds bf.num_hashes) 0 bf.bit_array
unfolding might_contain
might_contain-eq-check_bits key bf pos small =
    let fits : bf.num_bits % 2 ^ 32 ≡ bf.num_bits = omega arith in
    let some_bits : nat_beq bf.num_bits 0 ≡ false = ground arith in rw (fits, some_bits)

add-eq-add_bits :
    (key : Bytes) (bf : BloomFilter) (bits : Bytes)
    → 0 < bf.num_bits
    → bf.num_bits < 2 ^ 32
    → add_bits (base_hashes key) bf.num_bits (rounds bf.num_hashes) 0 bf.bit_array ≡ some bits
    → add key bf ≡ some (record bf { bit_array = bits; item_count = (bf.item_count + 1) % 2 ^ 64 })
unfolding add
add-eq-add_bits key bf bits pos small runs =
    let fits : bf.num_bits % 2 ^ 32 ≡ bf.num_bits = omega arith in
    let some_bits : nat_beq bf.num_bits 0 ≡ false = ground arith in rw (fits, some_bits, runs)

-- On a valid filter `Add` does not panic, and leaves a valid filter that might contain the key and
-- all that it might contain before, and counts one item more.
pub add-Added :
    (key : Bytes) (bf : BloomFilter)
    → IsValid bf
    → (bf' : BloomFilter) × (add key bf ≡ some bf') × Added key bf bf'
add-Added key bf v =
    let (bits, runs, grown, all) =
      add_bits-Grown (base_hashes key) bf.num_bits (rounds bf.num_hashes) 0 bf.bit_array v.bytes
        v.positive v.room in
    let bf' = record bf { bit_array = bits; item_count = (bf.item_count + 1) % 2 ^ 64 } in
    (
      bf',
      add-eq-add_bits key bf bits v.positive v.small runs,
      record {
        valid = record {
          bytes = grown.bytes;
          positive = v.positive;
          small = v.small;
          room = omega (arith, v.room, grown.size);
        };
        found =
            might_contain-eq-check_bits key bf' v.positive v.small
            ∙ AllSet→check_bits (base_hashes key) bf.num_bits (rounds bf.num_hashes) 0 bits all;
        keeps = λ k before.
            might_contain-eq-check_bits k bf' v.positive v.small
            ∙ AllSet→check_bits (base_hashes k) bf.num_bits (rounds bf.num_hashes) 0 bits (
                AllSet-Grown (base_hashes k) bf.num_bits (rounds bf.num_hashes) 0 bf.bit_array bits
                  grown.keeps
                  (check_bits→AllSet (base_hashes k) bf.num_bits (rounds bf.num_hashes) 0
                    bf.bit_array
                    (sym (might_contain-eq-check_bits k bf v.positive v.small) ∙ before)));
        counted = refl;
      },
    )

pub add_all-nil : (bf : BloomFilter) → add_all [] bf ≡ some bf
unfolding add_all
add_all-nil bf = refl

-- On a valid filter any number of `Add` calls run through, and leave a valid filter that might
-- contain every key added and all that it might contain before: there are no false negatives.
pub add_all-might_contain :
    (ks : List Bytes) (bf : BloomFilter)
    → IsValid bf
    → (bf' : BloomFilter) × (add_all ks bf ≡ some bf')
      × IsValid bf'
      × ((k : Bytes)
          → Memᴰ k ks ⊎ (might_contain k bf ≡ some true)
          → might_contain k bf' ≡ some true)
unfolding add_all
add_all-might_contain [] bf v =
    (bf, refl, v, λ k h. elim h [ inl m ↦ absurd (Memᴰ.not-nil m) | inr before ↦ before ])
add_all-might_contain (x ∷ ks) bf v =
    let (bf1, first, a) = add-Added x bf v in
    let (bf2, rest, valid, all) = add_all-might_contain ks bf1 a.valid in
    (
      bf2,
      rw (first, add_all) rest,
      valid,
      λ k h. all k (elim h [
        | inr before ↦ inr (a.keeps k before)
        | inl m ↦ elim (Memᴰ.cases_cons m) [
          | inl here ↦ inr (subst (λ y. might_contain y bf1 ≡ some true) (sym here) a.found)
          | inr later ↦ inl later
        ]
      ]),
    )
