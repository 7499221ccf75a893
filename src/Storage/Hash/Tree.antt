-- ===== src/Storage/Hash/Tree.antt =====
-- `BuildMerkleTree` always returns, and its tree has the hashes as its leaves, in order.
use mathlib.Core.List.{append-nil, append_assoc}
use file_sharing_system_with.Prelude.{
  ℕ, zero, suc, ◌≤◌, ◌≡◌, refl, List, [], ◌∷◌, ◌++◌, map, Bytes, length, length-map, arith, ap, sym,
  ◌∙◌, All,
}
use file_sharing_system_with.Storage.Hash.{
  MerkleNode, leaf, branch, hash_of, tree, compute_hash, next_level, build_levels,
  build_merkle_tree,
}

unfoldable pub leaves : MerkleNode → List Bytes
leaves (leaf h) = h ∷ []
leaves (branch h l r) = leaves l ++ leaves r

pub all_leaves : List MerkleNode → List Bytes
all_leaves [] = []
all_leaves (x ∷ nodes) = leaves x ++ all_leaves nodes

all_leaves-leaf : (hashes : List Bytes) → all_leaves (map leaf hashes) ≡ hashes
unfolding all_leaves leaves
all_leaves-leaf [] = refl
all_leaves-leaf (h ∷ hashes) = ap (λ t. h ∷ t) (all_leaves-leaf hashes)

module _ (sha256 : Bytes → Bytes) where
  -- Every inner node carries the hash of its children's hashes.
  abbrev pub IsHashed : MerkleNode → Type 0
  IsHashed (leaf h) = Unit {0}
  IsHashed (branch h l r) =
      (h ≡ compute_hash sha256 (hash_of l ++ hash_of r)) × IsHashed l × IsHashed r

  next_level-leaves :
      (nodes : List MerkleNode) → all_leaves (next_level sha256 nodes) ≡ all_leaves nodes
  unfolding next_level all_leaves leaves
  next_level-leaves [] = refl
  next_level-leaves (x ∷ []) = refl
  next_level-leaves (x ∷ y ∷ nodes) =
      append_assoc (leaves x) (leaves y) (all_leaves (next_level sha256 nodes))
      ∙ ap (λ t. leaves x ++ (leaves y ++ t)) (next_level-leaves nodes)

  next_level-IsHashed :
      (nodes : List MerkleNode) → All IsHashed nodes → All IsHashed (next_level sha256 nodes)
  unfolding next_level
  next_level-IsHashed [] h = tt
  next_level-IsHashed (x ∷ []) h = h
  next_level-IsHashed (x ∷ y ∷ nodes) h = ((refl, h.0, h.1.0), next_level-IsHashed nodes h.1.1)

  pub length-next_level :
      (nodes : List MerkleNode) → length (next_level sha256 nodes) ≤ length nodes
  unfolding next_level
  length-next_level [] = omega arith
  length-next_level (x ∷ []) = omega arith
  length-next_level (x ∷ y ∷ nodes) = omega (arith, length-next_level nodes)

  build_levels-tree :
      (fuel : ℕ) (x : MerkleNode) (nodes : List MerkleNode)
      → length nodes ≤ fuel
      → All IsHashed (x ∷ nodes)
      → (t : MerkleNode) × (build_levels sha256 fuel (x ∷ nodes) ≡ tree t)
        × (leaves t ≡ all_leaves (x ∷ nodes))
        × IsHashed t
  unfolding build_levels all_leaves next_level
  build_levels-tree fuel x [] l h = (x, refl, sym (append-nil (leaves x)), h.0)
  build_levels-tree zero x (y ∷ nodes) l h = absurd (omega arith)
  build_levels-tree (suc fuel) x (y ∷ nodes) l h =
      let node = branch (compute_hash sha256 (hash_of x ++ hash_of y)) x y in
      let (t, runs, same, hashed) =
        build_levels-tree fuel node (next_level sha256 nodes)
          (omega (arith, length-next_level nodes)) (next_level-IsHashed (x ∷ y ∷ nodes) h) in
      (t, runs, same ∙ next_level-leaves (x ∷ y ∷ nodes), hashed)

  All-leaf-IsHashed : (hashes : List Bytes) → All IsHashed (map leaf hashes)
  All-leaf-IsHashed [] = tt
  All-leaf-IsHashed (h ∷ hashes) = (tt, All-leaf-IsHashed hashes)

  -- From at least one hash the loop ends with a tree, whose leaves are the hashes in order, and whose
  -- inner nodes carry the hash of their children's hashes.
  pub build_merkle_tree-leaves :
      (h : Bytes) (hashes : List Bytes)
      → (t : MerkleNode) × (build_merkle_tree sha256 (h ∷ hashes) ≡ tree t)
        × (leaves t ≡ h ∷ hashes)
        × IsHashed t
  unfolding build_merkle_tree
  build_merkle_tree-leaves h hashes =
      let (t, runs, same, hashed) =
        build_levels-tree (suc (length hashes)) (leaf h) (map leaf hashes)
          (omega (arith, length-map leaf hashes)) (tt, All-leaf-IsHashed hashes) in
      (t, runs, same ∙ all_leaves-leaf (h ∷ hashes), hashed)
