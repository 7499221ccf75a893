-- ===== src/Storage/Hash/Tests.antt =====
-- Runs of the hashes, and the theorems at concrete hashes.
use file_sharing_system_with.Prelude.{◌≡◌, refl, ◌⊎◌, [], ◌∷◌, Bytes, bytes_beq, length, replicate}
use file_sharing_system_with.Storage.Hash.{
  hex_digit, hex, MerkleNode, tree, compute_hash, verify_chunk, build_merkle_tree, build_levels,
  next_level, root_hash, verify_file_integrity,
}
use file_sharing_system_with.Storage.Hash.Tree.{leaves, IsHashed, build_merkle_tree-leaves}
use file_sharing_system_with.Storage.Hash.Check.{Collision}
use file_sharing_system_with.Storage.Hash.Binding.{verify_file_integrity-binding}

program : Unit {0}
unfolding hex_digit hex compute_hash verify_chunk build_merkle_tree build_levels next_level
    root_hash verify_file_integrity bytes_beq
program = tt

-- A stand-in for SHA-256: the sum is the first byte, 32 times.
abbrev toy_sum : Bytes → Bytes
toy_sum [] = replicate 32 0
toy_sum (b ∷ bs) = replicate 32 b

length-toy_sum : (t : Bytes) → length (toy_sum t) ≡ 32
length-toy_sum [] = refl
length-toy_sum (b ∷ bs) = refl

abbrev words : Bytes
words = b'h' ∷ b'i' ∷ []

-- The hexadecimal sum of "a".
abbrev twice : Bytes
twice = hex (replicate 32 b'a')

abbrev digest : Bytes
digest = replicate 64 b'a'

build_merkle_tree-leaves_example :
    (t : MerkleNode) × (build_merkle_tree toy_sum (digest ∷ words ∷ digest ∷ []) ≡ tree t)
    × (leaves t ≡ digest ∷ words ∷ digest ∷ [])
    × IsHashed toy_sum t
build_merkle_tree-leaves_example = build_merkle_tree-leaves toy_sum digest (words ∷ digest ∷ [])

verify_file_integrity-binding_example :
    (digest ∷ digest ∷ [] ≡ digest ∷ digest ∷ []) ⊎ Collision toy_sum
unfolding program
verify_file_integrity-binding_example =
    verify_file_integrity-binding toy_sum length-toy_sum (digest ∷ digest ∷ [])
      (digest ∷ digest ∷ []) twice (refl, (refl, tt)) (refl, (refl, tt)) refl refl refl
