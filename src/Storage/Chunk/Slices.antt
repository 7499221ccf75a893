-- ===== src/Storage/Chunk/Slices.antt =====
-- The chunks of a text, put together, are the text.
use file_sharing_system_with.Prelude.{
  true, ℕ, zero, suc, ◌+◌, ◌-◌, ◌*◌, ◌^◌, ◌≤◌, ◌<◌, ◌≡◌, refl, [], ◌∷◌, ◌++◌, Bytes, length, take,
  drop, length-drop, take-append-drop, arith, ltb, Bool-cases, inl, inr, ◌∙◌, ap, sym,
}
use file_sharing_system_with.Storage.Chunk.{
  default_chunk_size, slice, num_chunks, rounds32, chunk_data,
}

take_all : (n : ℕ) (xs : Bytes) → length xs ≤ n → take n xs ≡ xs
take_all zero [] h = refl
take_all zero (x ∷ xs) h = absurd (omega arith)
take_all (suc n) [] h = refl
take_all (suc n) (x ∷ xs) h = ap (λ t. x ∷ t) (take_all n xs (omega arith))

drop-drop : (m n : ℕ) (xs : Bytes) → drop n (drop m xs) ≡ drop (m + n) xs
drop-drop zero n xs = ground arith
drop-drop (suc m) zero [] = ground arith
drop-drop (suc m) (suc n) [] = let e : suc m + suc n ≡ suc (m + suc n) = omega arith in rw e
drop-drop (suc m) n (x ∷ xs) =
    let e : suc m + n ≡ suc (m + n) = omega arith in rw e (drop-drop m n xs)

pub drop_all : (n : ℕ) (xs : Bytes) → length xs ≤ n → drop n xs ≡ []
drop_all zero [] h = refl
drop_all zero (x ∷ xs) h = absurd (omega arith)
drop_all (suc n) [] h = refl
drop_all (suc n) (x ∷ xs) h = drop_all n xs (omega arith)

pub default_chunk_size_pos : 0 < default_chunk_size
unfolding default_chunk_size
default_chunk_size_pos = omega arith

-- Cutting the end at the length of the text changes nothing.
chunk_data-take :
    (i : ℕ) (text : Bytes)
    → chunk_data i text ≡ take default_chunk_size (drop (i * default_chunk_size) text)
unfolding chunk_data slice
chunk_data-take i text =
    let start = i * default_chunk_size in
    elim (Bool-cases (ltb (length text) (start + default_chunk_size))) [
      | inl cut ↦
          let rest = drop start text in
          let size = length-drop start text in
          rw cut (
            take_all (length text - start) rest (omega arith)
            ∙ sym (take_all default_chunk_size rest (ground arith)))
      | inr whole ↦
          let e : start + default_chunk_size - start ≡ default_chunk_size = omega arith in
          rw (whole, e)
    ]

pub chunk_data-append-drop :
    (i : ℕ) (text : Bytes)
    → chunk_data i text ++ drop ((i + 1) * default_chunk_size) text
      ≡ drop (i * default_chunk_size) text
chunk_data-append-drop i text =
    let start = i * default_chunk_size in
    let e : (i + 1) * default_chunk_size ≡ start + default_chunk_size = grind arith in
    rw (chunk_data-take, e, ← drop-drop) (take-append-drop default_chunk_size (drop start text))

-- The number of chunks covers the text, if it fits an int32.
pub num_chunks-covers :
    (text : Bytes)
    → length text ≤ (2 ^ 31 - 1) * 2 ^ 18
    → (ltb (num_chunks text) (2 ^ 31) ≡ true)
      × (rounds32 (num_chunks text) < 2 ^ 31)
      × (length text ≤ rounds32 (num_chunks text) * default_chunk_size)
unfolding rounds32 num_chunks default_chunk_size
num_chunks-covers text h = ground arith
