-- ===== src/Storage/Hash/Root.antt =====
-- The root of the tree: always computed, a digest, and what the integrity check compares with.
use file_sharing_system_with.Prelude.{
  subst, ◌≡◌, refl, true, some, List, [], ◌∷◌, ◌++◌, Bytes, bytes_beq_iff, length, arith, sym, All,
}
use file_sharing_system_with.Storage.Hash.{
  branch, MerkleNode, leaf, hash_of, build_levels, build_merkle_tree, root_hash,
  verify_file_integrity,
}
use file_sharing_system_with.Storage.Hash.Tree.{IsHashed, leaves, build_merkle_tree-leaves}
use file_sharing_system_with.Storage.Hash.Check.{IsDigest}
use file_sharing_system_with.Storage.Hash.Binding.{root_hash-tree, compute_hash-IsDigest}

module _ (sha256 : Bytes → Bytes) (digest : (t : Bytes) → length (sha256 t) ≡ 32) where
  hash_of-IsDigest :
      (t : MerkleNode) → IsHashed sha256 t → All IsDigest (leaves t) → IsDigest (hash_of t)
  unfolding leaves
  hash_of-IsDigest (leaf h) hashed below = below.0
  hash_of-IsDigest (branch h l r) hashed below =
      rw hashed.0 (compute_hash-IsDigest sha256 digest (hash_of l ++ hash_of r))

  -- The root of at least one digest is a digest.
  pub root_hash-IsDigest :
      (h : Bytes) (hs : List Bytes) (root : Bytes)
      → All IsDigest (h ∷ hs)
      → root_hash sha256 (h ∷ hs) ≡ some root
      → IsDigest root
  root_hash-IsDigest h hs root below e =
      let (t, built, same, hashed) = build_merkle_tree-leaves sha256 h hs in
      let top = root_hash-tree sha256 (h ∷ hs) t built in
      let it : hash_of t ≡ root = cc in
      subst IsDigest it (hash_of-IsDigest t hashed (subst (All IsDigest) (sym same) below))

pub verify_file_integrity-root :
    (sha256 : Bytes → Bytes) (hs : List Bytes) (root : Bytes)
    → root_hash sha256 hs ≡ some root
    → verify_file_integrity sha256 hs root ≡ some true
unfolding verify_file_integrity
verify_file_integrity-root sha256 hs root e = ground (arith, bytes_beq_iff root root)

pub root_hash-nil : (sha256 : Bytes → Bytes) → root_hash sha256 [] ≡ some []
unfolding root_hash build_merkle_tree build_levels
root_hash-nil sha256 = refl

-- The root is always computed.
pub root_hash-total :
    (sha256 : Bytes → Bytes) (hs : List Bytes) → (r : Bytes) × (root_hash sha256 hs ≡ some r)
root_hash-total sha256 [] = ([], root_hash-nil sha256)
root_hash-total sha256 (h ∷ hs) =
    let (t, built, _, _) = build_merkle_tree-leaves sha256 h hs in
    (hash_of t, root_hash-tree sha256 (h ∷ hs) t built)
