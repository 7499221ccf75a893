-- ===== src/Storage/Bloom/Sizes.antt =====
-- The sizes of a new filter and its statistics, which are computed in float64.
use file_sharing_system_with.Prelude.{
  ◌^◌, Option, none, some, length, replicate, ltb, if◌then◌else◌,
}
use file_sharing_system_with.Word.{Int64, minus_one64, add64, slt64, div64}
use file_sharing_system_with.Float.{Float64}
use file_sharing_system_with.Storage.Bloom.{BloomFilter}

pub record BloomStats (F : Type 0) : Type 0 where
  pub num_bits : Int64
  pub num_hashes : Int64
  pub item_count : Int64
  pub estimated_fp_rate : F
  pub size_bytes : Int64

module _ {F : Type 0} (fl : Float64 F) where
  open fl use {of_int, to_int, mul, div, sub, neg, log, exp, pow, ceil, round, ln2, ln2_squared}

  unfoldable pub optimal_num_bits : Int64 → F → Int64
  optimal_num_bits n p =
      to_int (ceil (div (mul (mul (of_int minus_one64) (of_int n)) (log p)) ln2_squared))

  unfoldable pub optimal_num_hashes : Int64 → Int64 → Int64
  optimal_num_hashes m n =
      let rounded = to_int (round (mul (div (of_int m) (of_int n)) ln2)) in
      if slt64 rounded 1 then 1 else rounded

  -- The array is made of so many bytes; a negative number of them panics.
  unfoldable pub new_bloom_filter : Int64 → F → Option BloomFilter
  new_bloom_filter expected_items false_positive_rate =
      let num_bits = optimal_num_bits expected_items false_positive_rate in
      let num_bytes = div64 (add64 num_bits 7) 8 in
      if ltb num_bytes (2 ^ 63)
      then some (record {
        bit_array = replicate num_bytes 0;
        num_bits = num_bits;
        num_hashes = optimal_num_hashes num_bits expected_items;
        item_count = 0;
      })
      else none

  pub estimated_false_positive_rate : BloomFilter → F
  estimated_false_positive_rate bf =
      let k = of_int bf.num_hashes in
      let exponent = div (mul (neg k) (of_int bf.item_count)) (of_int bf.num_bits) in
      pow (sub (of_int 1) (exp exponent)) k

  pub stats : BloomFilter → BloomStats F
  stats bf = record {
    num_bits = bf.num_bits;
    num_hashes = bf.num_hashes;
    item_count = bf.item_count;
    estimated_fp_rate = estimated_false_positive_rate bf;
    size_bytes = length bf.bit_array;
  }
