-- ===== src/Storage/Hash/Binding.antt =====
-- A root stands for one list of hashes of each length, unless two texts have the same hash.
use file_sharing_system_with.Prelude.{
  append_split, ℕ, zero, suc, ◌≡◌, refl, ◌⊎◌, inl, inr, true, some, List, [], ◌∷◌, ◌++◌, map, Bytes,
  bytes_beq_iff, length, arith, ap, sym, ◌∙◌, All,
}
use file_sharing_system_with.Storage.Hash.{
  MerkleNode, leaf, hash_of, tree, compute_hash, next_level, build_levels, build_merkle_tree,
  root_hash, verify_file_integrity,
}
use file_sharing_system_with.Storage.Hash.Tree.{build_merkle_tree-leaves}
use file_sharing_system_with.Storage.Hash.Check.{
  Collision, IsDigest, length-hex, compute_hash-cases,
}

pub root_hash-tree :
    (sha256 : Bytes → Bytes) (hs : List Bytes) (t : MerkleNode)
    → build_merkle_tree sha256 hs ≡ tree t
    → root_hash sha256 hs ≡ some (hash_of t)
unfolding root_hash
root_hash-tree sha256 hs t built = rw (built, root_hash)

module _ (sha256 : Bytes → Bytes) (digest : (t : Bytes) → length (sha256 t) ≡ 32) where
  pub compute_hash-IsDigest : (t : Bytes) → IsDigest (compute_hash sha256 t)
  unfolding compute_hash
  compute_hash-IsDigest t = omega (arith, length-hex (sha256 t), digest t)

  abbrev IsLevel : List MerkleNode → Type 0
  IsLevel = All (λ n. IsDigest (hash_of n))

  next_level-IsLevel : (ns : List MerkleNode) → IsLevel ns → IsLevel (next_level sha256 ns)
  unfolding next_level
  next_level-IsLevel [] h = tt
  next_level-IsLevel (x ∷ []) h = h
  next_level-IsLevel (x ∷ y ∷ ns) h =
      (compute_hash-IsDigest (hash_of x ++ hash_of y), next_level-IsLevel ns h.1.1)

  abbrev hashes_of : List MerkleNode → List Bytes
  hashes_of = map hash_of

  length-next_level-eq :
      (ns ms : List MerkleNode)
      → length ns ≡ length ms
      → length (next_level sha256 ns) ≡ length (next_level sha256 ms)
  unfolding next_level
  length-next_level-eq [] [] l = refl
  length-next_level-eq (x ∷ []) (u ∷ []) l = refl
  length-next_level-eq (x ∷ y ∷ ns) (u ∷ v ∷ ms) l =
      ap suc (length-next_level-eq ns ms (omega arith))
  length-next_level-eq [] (u ∷ ms) l = absurd (omega arith)
  length-next_level-eq (x ∷ []) [] l = absurd (omega arith)
  length-next_level-eq (x ∷ []) (u ∷ v ∷ ms) l = absurd (omega arith)
  length-next_level-eq (x ∷ y ∷ ns) [] l = absurd (omega arith)
  length-next_level-eq (x ∷ y ∷ ns) (u ∷ []) l = absurd (omega arith)

  pair_cases :
      (x y u v : Bytes)
      → length x ≡ length u
      → compute_hash sha256 (x ++ y) ≡ compute_hash sha256 (u ++ v)
      → (x ≡ u) × (y ≡ v) ⊎ Collision sha256
  pair_cases x y u v l e = elim (compute_hash-cases sha256 (x ++ y) (u ++ v) e) [
    | inl same ↦ inl (append_split x y u v l same)
    | inr c ↦ inr c
  ]

  next_level-cases :
      (ns ms : List MerkleNode)
      → length ns ≡ length ms
      → IsLevel ns
      → IsLevel ms
      → hashes_of (next_level sha256 ns) ≡ hashes_of (next_level sha256 ms)
      → (hashes_of ns ≡ hashes_of ms) ⊎ Collision sha256
  unfolding next_level
  next_level-cases [] [] l h k e = inl refl
  next_level-cases (x ∷ []) (u ∷ []) l h k e = inl e
  next_level-cases (x ∷ y ∷ ns) (u ∷ v ∷ ms) l h k e =
      let l' : length ns ≡ length ms = omega arith in
      let head : compute_hash sha256 (hash_of x ++ hash_of y)
          ≡ compute_hash sha256 (hash_of u ++ hash_of v) =
        cc in
      let rest : hashes_of (next_level sha256 ns) ≡ hashes_of (next_level sha256 ms) = cc in
      let front = pair_cases (hash_of x) (hash_of y) (hash_of u) (hash_of v) (h.0 ∙ sym k.0) head in
      let back = next_level-cases ns ms l' h.1.1 k.1.1 rest in
      elim front [ inr c ↦ inr c | inl (p, q) ↦ elim back [ inr c ↦ inr c | inl r ↦ inl (cc) ] ]
  next_level-cases [] (u ∷ ms) l h k e = absurd (omega arith)
  next_level-cases (x ∷ []) [] l h k e = absurd (omega arith)
  next_level-cases (x ∷ []) (u ∷ v ∷ ms) l h k e = absurd (omega arith)
  next_level-cases (x ∷ y ∷ ns) [] l h k e = absurd (omega arith)
  next_level-cases (x ∷ y ∷ ns) (u ∷ []) l h k e = absurd (omega arith)

  build_levels-cases :
      (fuel : ℕ) (ns ms : List MerkleNode) (t t' : MerkleNode)
      → length ns ≡ length ms
      → IsLevel ns
      → IsLevel ms
      → build_levels sha256 fuel ns ≡ tree t
      → build_levels sha256 fuel ms ≡ tree t'
      → hash_of t ≡ hash_of t'
      → (hashes_of ns ≡ hashes_of ms) ⊎ Collision sha256
  unfolding build_levels
  build_levels-cases fuel [] [] t t' l h k e e' same = inl refl
  build_levels-cases fuel (x ∷ []) (u ∷ []) t t' l h k e e' same =
      let left : x ≡ t = cc in
      let right : u ≡ t' = cc in
      inl (ap (λ (z : Bytes). z ∷ []) (ap hash_of left ∙ same ∙ sym (ap hash_of right)))
  build_levels-cases zero (x ∷ y ∷ ns) ms t t' l h k e e' same = cc
  build_levels-cases (suc fuel) (x ∷ y ∷ ns) (u ∷ v ∷ ms) t t' l h k e e' same =
      let upper = x ∷ y ∷ ns in
      let upper' = u ∷ v ∷ ms in
      elim (build_levels-cases fuel (next_level sha256 upper) (next_level sha256 upper') t t'
        (length-next_level-eq upper upper' l) (next_level-IsLevel upper h)
        (next_level-IsLevel upper' k) e e' same) [
          | inr c ↦ inr c
          | inl level ↦ next_level-cases upper upper' l h k level
        ]
  build_levels-cases fuel [] (u ∷ ms) t t' l h k e e' same = absurd (omega arith)
  build_levels-cases fuel (x ∷ []) [] t t' l h k e e' same = absurd (omega arith)
  build_levels-cases fuel (x ∷ []) (u ∷ v ∷ ms) t t' l h k e e' same = absurd (omega arith)
  build_levels-cases (suc fuel) (x ∷ y ∷ ns) [] t t' l h k e e' same = absurd (omega arith)
  build_levels-cases (suc fuel) (x ∷ y ∷ ns) (u ∷ []) t t' l h k e e' same = absurd (omega arith)

  hashes_of-leaf : (xs : List Bytes) → hashes_of (map leaf xs) ≡ xs
  hashes_of-leaf [] = refl
  hashes_of-leaf (x ∷ xs) = ap (λ t. x ∷ t) (hashes_of-leaf xs)

  leaf-IsLevel : (xs : List Bytes) → All IsDigest xs → IsLevel (map leaf xs)
  leaf-IsLevel [] h = tt
  leaf-IsLevel (x ∷ xs) h = (h.0, leaf-IsLevel xs h.1)

  length-leaf : (xs : List Bytes) → length (map leaf xs) ≡ length xs
  length-leaf [] = refl
  length-leaf (x ∷ xs) = ap suc (length-leaf xs)

  pub verified_root :
      (hs : List Bytes) (root root' : Bytes)
      → root_hash sha256 hs ≡ some root'
      → verify_file_integrity sha256 hs root ≡ some true
      → root' ≡ root
  unfolding verify_file_integrity
  verified_root hs root root' e v = ground (arith, bytes_beq_iff root' root)

  trees_cases :
      (xs ys : List Bytes) (t t' : MerkleNode)
      → All IsDigest xs
      → All IsDigest ys
      → length xs ≡ length ys
      → build_merkle_tree sha256 xs ≡ tree t
      → build_merkle_tree sha256 ys ≡ tree t'
      → hash_of t ≡ hash_of t'
      → (xs ≡ ys) ⊎ Collision sha256
  unfolding build_merkle_tree
  trees_cases xs ys t t' h k l built built' same =
      let size : length (map leaf xs) ≡ length (map leaf ys) =
        omega (arith, length-leaf xs, length-leaf ys) in
      let fuel : build_levels sha256 (length xs) (map leaf ys) ≡ tree t' = rw l built' in
      elim (build_levels-cases (length xs) (map leaf xs) (map leaf ys) t t' size (leaf-IsLevel xs h)
        (leaf-IsLevel ys k) built fuel same) [
          | inr c ↦ inr c
          | inl e ↦ inl (sym (hashes_of-leaf xs) ∙ e ∙ hashes_of-leaf ys)
        ]

  -- With a hash of 32 bytes: if the digests `ys` pass the integrity check against the root of as many digests `xs`, the two
  -- lists are the same, or two different texts have the same hash.
  pub verify_file_integrity-binding :
      (xs ys : List Bytes) (root : Bytes)
      → All IsDigest xs
      → All IsDigest ys
      → length xs ≡ length ys
      → root_hash sha256 xs ≡ some root
      → verify_file_integrity sha256 ys root ≡ some true
      → (xs ≡ ys) ⊎ Collision sha256
  verify_file_integrity-binding [] [] root h k l e e' = inl refl
  verify_file_integrity-binding (x ∷ xs) (y ∷ ys) root h k l e e' =
      let (t, built, _, _) = build_merkle_tree-leaves sha256 x xs in
      let (t', built', _, _) = build_merkle_tree-leaves sha256 y ys in
      let left = root_hash-tree sha256 (x ∷ xs) t built in
      let here : hash_of t ≡ root = cc in
      let there =
        verified_root (y ∷ ys) root (hash_of t') (root_hash-tree sha256 (y ∷ ys) t' built') e' in
      trees_cases (x ∷ xs) (y ∷ ys) t t' h k l built built' (here ∙ sym there)
  verify_file_integrity-binding [] (y ∷ ys) root h k l e e' = absurd (omega arith)
  verify_file_integrity-binding (x ∷ xs) [] root h k l e e' = absurd (omega arith)
