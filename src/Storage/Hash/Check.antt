-- ===== src/Storage/Hash/Check.antt =====
-- `VerifyChunk` against the hash of a text.
use file_sharing_system_with.Prelude.{
  ◌*◌, ◌≡◌, ◌≢◌, ◌⊎◌, inl, inr, [], ◌∷◌, Bytes, bytes_beq, bytes_beq_iff, length, arith, Bool-cases,
}
use file_sharing_system_with.Storage.Hash.{mismatch, hex, compute_hash, verify_chunk, valid}

-- Two different texts of the same hash.
pub record Collision (sha256 : Bytes → Bytes) : Type 0 where
  pub first : Bytes
  pub second : Bytes
  pub differ : first ≢ second
  pub agree : compute_hash sha256 first ≡ compute_hash sha256 second

abbrev pub IsDigest : Bytes → Type 0
IsDigest h = length h ≡ 64

pub length-hex : (bs : Bytes) → length (hex bs) ≡ 2 * length bs
unfolding hex
length-hex [] = omega arith
length-hex (b ∷ bs) = omega (arith, length-hex bs)

module _ (sha256 : Bytes → Bytes) where
  pub verify_chunk-mismatch :
      (text expected : Bytes)
      → compute_hash sha256 text ≢ expected
      → verify_chunk sha256 text expected ≡ mismatch expected (compute_hash sha256 text)
  unfolding verify_chunk
  verify_chunk-mismatch text expected ne =
      elim (Bool-cases (bytes_beq (compute_hash sha256 text) expected)) [
        | inl same ↦ absurd (ne ((bytes_beq_iff (compute_hash sha256 text) expected).0 same))
        | inr other ↦ rw other
      ]

  pub verify_chunk-valid :
      (text expected : Bytes)
      → compute_hash sha256 text ≡ expected
      → verify_chunk sha256 text expected ≡ valid
  unfolding verify_chunk
  verify_chunk-valid text expected same =
      rw ((bytes_beq_iff (compute_hash sha256 text) expected).1 same)

  -- Equal hashes are those of one text, or a collision.
  pub compute_hash-cases :
      (x y : Bytes) → compute_hash sha256 x ≡ compute_hash sha256 y → (x ≡ y) ⊎ Collision sha256
  compute_hash-cases x y e = elim (Bool-cases (bytes_beq x y)) [
    | inl same ↦ inl ((bytes_beq_iff x y).0 same)
    | inr other ↦ inr (record {
      first = x;
      second = y;
      differ = λ p. let same = (bytes_beq_iff x y).1 p in cc;
      agree = e;
    })
  ]

  -- A chunk that passes the check against the hash of a text is that text, or there is a collision.
  pub verify_chunk-cases :
      (text expected : Bytes)
      → verify_chunk sha256 text (compute_hash sha256 expected) ≡ valid
      → (text ≡ expected) ⊎ Collision sha256
  unfolding verify_chunk
  verify_chunk-cases text expected h =
      compute_hash-cases text expected
        (ground (arith, bytes_beq_iff (compute_hash sha256 text) (compute_hash sha256 expected)))
