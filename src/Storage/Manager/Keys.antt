-- ===== src/Storage/Manager/Keys.antt =====
-- The keys of the Bloom filter: two chunks never share one.
use file_sharing_system_with.Prelude.{
  ℕ, ◌^◌, ◌<◌, ◌≡◌, ◌∷◌, Bytes, length, length-append, get_or, drop, append_split, arith, ap,
}
use file_sharing_system_with.Word.{Int32}
use file_sharing_system_with.Storage.Manager.{big_endian32, chunk_key}

length-big_endian32 : (i : Int32) → length (big_endian32 i) ≡ 4
unfolding big_endian32
length-big_endian32 i = omega arith

big_endian32-injective :
    (i j : Int32) → i < 2 ^ 32 → j < 2 ^ 32 → big_endian32 i ≡ big_endian32 j → i ≡ j
unfolding big_endian32
big_endian32-injective i j hi hj e =
    let nth : ℕ → Bytes → ℕ = λ n xs. get_or xs n 0 in
    let e0 = ap (nth 0) e in
    let e1 = ap (nth 1) e in
    let e2 = ap (nth 2) e in let e3 = ap (nth 3) e in omega (arith, e0, e1, e2, e3)

-- The filter's key of a chunk with a 32-bit index determines the file and the index, whatever bytes
-- the file identifier has.
pub chunk_key-injective :
    (f g : Bytes) (i j : Int32)
    → i < 2 ^ 32
    → j < 2 ^ 32
    → chunk_key f i ≡ chunk_key g j
    → (f ≡ g) × (i ≡ j)
unfolding chunk_key
chunk_key-injective f g i j hi hj e =
    let sizes = ap length e in
    let same : length f ≡ length g = omega (
      arith,
      sizes,
      length-append f (b':' ∷ big_endian32 i),
      length-append g (b':' ∷ big_endian32 j),
      length-big_endian32 i,
      length-big_endian32 j,
    ) in
    let (files, rest) = append_split f (b':' ∷ big_endian32 i) g (b':' ∷ big_endian32 j) same e in
    (files, big_endian32-injective i j hi hj (ap (drop 1) rest))
