-- ===== src/Storage/Hash.antt =====
-- internal/storage/hash.go. SHA-256 is the argument `sha256`, from a text to its 32 bytes.
pub mod Tree
pub mod Check
pub mod Binding
pub mod Root
mod Tests
use file_sharing_system_with.Prelude.{
  ℕ, zero, suc, ◌+◌, ◌/◌, ◌%◌, Bool, true, false, Option, none, some, List, [], ◌∷◌, ◌++◌, map,
  Bytes, bytes_beq, length, ltb, if◌then◌else◌,
}

-- hex.EncodeToString
pub hex_digit : ℕ → ℕ
hex_digit n = if ltb n 10 then 48 + n else 87 + n

unfoldable pub hex : Bytes → Bytes
hex [] = []
hex (b ∷ bs) = hex_digit (b / 16) ∷ hex_digit (b % 16) ∷ hex bs

-- A node has both children or none.
pub data MerkleNode : Type 0 where
  leaf : Bytes → MerkleNode
  branch : Bytes → MerkleNode → MerkleNode → MerkleNode

abbrev pub hash_of : MerkleNode → Bytes
hash_of (leaf h) = h
hash_of (branch h l r) = h

-- What `BuildMerkleTree` returns; `out_of_fuel` if its loop goes on after its fuel.
pub data Built : Type 0 where
  no_tree : Built
  tree : MerkleNode → Built
  out_of_fuel : Built

pub data Verdict : Type 0 where
  valid : Verdict
  mismatch : Bytes → Bytes → Verdict

module _ (sha256 : Bytes → Bytes) where
  unfoldable pub compute_hash : Bytes → Bytes
  compute_hash text = hex (sha256 text)

  pub verify_chunk : Bytes → Bytes → Verdict
  verify_chunk text expected =
      let actual = compute_hash text in
      if bytes_beq actual expected then valid else mismatch expected actual

  -- The inner loop: one level from the level below.
  pub next_level : List MerkleNode → List MerkleNode
  next_level [] = []
  next_level (x ∷ []) = x ∷ []
  next_level (x ∷ y ∷ nodes) = branch (compute_hash (hash_of x ++ hash_of y)) x y ∷ next_level nodes

  -- The loop `for len(nodes) > 1`.
  pub build_levels : ℕ → List MerkleNode → Built
  build_levels fuel [] = no_tree
  build_levels fuel (x ∷ []) = tree x
  build_levels zero (x ∷ y ∷ nodes) = out_of_fuel
  build_levels (suc fuel) (x ∷ y ∷ nodes) = build_levels fuel (next_level (x ∷ y ∷ nodes))

  pub build_merkle_tree : List Bytes → Built
  build_merkle_tree hashes = build_levels (length hashes) (map leaf hashes)

  -- The root's text, "" for no tree; `none` stands for a tree that is never built.
  pub root_hash : List Bytes → Option Bytes
  root_hash hashes = elim (build_merkle_tree hashes) [
    | no_tree ↦ some []
    | tree root ↦ some (hash_of root)
    | out_of_fuel ↦ none
  ]

  pub verify_file_integrity : List Bytes → Bytes → Option Bool
  verify_file_integrity hashes expected = elim (root_hash hashes) [
    | none ↦ none
    | some root ↦ some (bytes_beq root expected)
  ]
