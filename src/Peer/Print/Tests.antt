-- ===== src/Peer/Print/Tests.antt =====
-- The theorem at two orders of a small graph, with an insertion sort.
use mathlib.Core.List.{Permᴰ}
use mathlib.Core.List.Permᴰ
use file_sharing_system_with.Prelude.{
  ℕ, ◌≡◌, refl, Bool, true, false, List, [], ◌∷◌, Bool-cases, inl, inr, nat_eq, if◌then◌else◌, All,
  All-intro, All_of_Memᴰ, Permᴰ-Memᴰ, arith, bytes_beq,
}
use file_sharing_system_with.Word.{slt32}
use file_sharing_system_with.GoMap.{GoMap, insert}
use file_sharing_system_with.GoMap.Range.{IsRanging}
use file_sharing_system_with.Fmt.{format_int32}
use file_sharing_system_with.Samples.{manager}
use file_sharing_system_with.Sort.{IsSorted, IsSorting}
use file_sharing_system_with.Peer.Network.{get_nodes, get_edges, add_node, add_edge, edge_key}
use file_sharing_system_with.Peer.Network.History.{Change, node, edge, after, make_change}
use file_sharing_system_with.Peer.Node.{PeerNode, make_node}
use file_sharing_system_with.Peer.Print.{
  node_less, edge_less, print_graph, blank, title, nodes_header, node_line, edges_header, edge_line,
  rule, print_node, print_edge,
}
use file_sharing_system_with.Peer.Print.Same.{IsProperNode, IsProperEdge, print_graph-same}

-- A comparison of which sort.Slice makes sense.
record IsOrdering {A : Type 0} (IsProper : A → Type 0) (less : A → A → Bool) : Type 0 where
  asym : (a b : A) → less a b ≡ true → less b a ≡ false
  through :
      (a b c : A)
      → IsProper a
      → IsProper b
      → IsProper c
      → less a b ≡ false
      → less b c ≡ false
      → less a c ≡ false

module _ {A : Type 0} (less : A → A → Bool) where
  abbrev put : A → List A → List A
  put x [] = x ∷ []
  put x (y ∷ ys) = let rest = put x ys in if less y x then y ∷ rest else x ∷ y ∷ ys

  abbrev insertion_sort : List A → List A
  insertion_sort [] = []
  insertion_sort (x ∷ xs) = put x (insertion_sort xs)

  put-Permᴰ : (x : A) (ys : List A) → Permᴰ (put x ys) (x ∷ ys)
  put-Permᴰ x [] = Permᴰ.refl (x ∷ [])
  put-Permᴰ x (y ∷ ys) = elim (Bool-cases (less y x)) [
    | inl after_y ↦
        rw after_y (Permᴰ.trans (Permᴰ.cons refl (put-Permᴰ x ys)) (Permᴰ.swap refl refl))
    | inr here ↦ rw here (Permᴰ.refl (x ∷ y ∷ ys))
  ]

  insertion_sort-Permᴰ : (xs : List A) → Permᴰ (insertion_sort xs) xs
  insertion_sort-Permᴰ [] = Permᴰ.nil
  insertion_sort-Permᴰ (x ∷ xs) =
      Permᴰ.trans (put-Permᴰ x (insertion_sort xs)) (Permᴰ.cons refl (insertion_sort-Permᴰ xs))

  module _ (IsProper : A → Type 0) (ordering : IsOrdering IsProper less) where
    put-IsSorted :
        (x : A) (ys : List A) → All IsProper (x ∷ ys) → IsSorted less ys → IsSorted less (put x ys)
    put-IsSorted x [] proper sorted = (tt, tt)
    put-IsSorted x (y ∷ ys) (px, (py, pys)) sorted = elim (Bool-cases (less y x)) [
      | inl after_y ↦ rw after_y (
        All-intro (λ z. less z y ≡ false) (put x ys)
            (λ z m.
              All_of_Memᴰ (λ w. less w y ≡ false) (x ∷ ys) (ordering.asym y x after_y, sorted.0)
                (Permᴰ-Memᴰ z (put-Permᴰ x ys) m)),
        put-IsSorted x ys (px, pys) sorted.1,
      )
      | inr first ↦ rw first (
        (
          first,
          All-intro (λ z. less z x ≡ false) ys
              (λ z m.
                ordering.through z y x (All_of_Memᴰ IsProper ys pys m) py px
                  (All_of_Memᴰ (λ w. less w y ≡ false) ys sorted.0 m) first),
        ),
        sorted,
      )
    ]

    insertion_sort-proper : (xs : List A) → All IsProper xs → All IsProper (insertion_sort xs)
    insertion_sort-proper xs proper =
        All-intro IsProper (insertion_sort xs)
          (λ x m. All_of_Memᴰ IsProper xs proper (Permᴰ-Memᴰ x (insertion_sort-Permᴰ xs) m))

    insertion_sort-IsSorted : (xs : List A) → All IsProper xs → IsSorted less (insertion_sort xs)
    insertion_sort-IsSorted [] proper = tt
    insertion_sort-IsSorted (x ∷ xs) (px, pxs) =
        put-IsSorted x (insertion_sort xs) (px, insertion_sort-proper xs pxs)
          (insertion_sort-IsSorted xs pxs)

    insertion_sort-IsSorting : IsSorting IsProper less insertion_sort
    insertion_sort-IsSorting xs proper =
        (∣ insertion_sort-Permᴰ xs ∣₁, insertion_sort-IsSorted xs proper)

node_less-IsOrdering : IsOrdering IsProperNode node_less
unfolding node_less slt32
node_less-IsOrdering = record {
  asym = λ a b h. ground arith;
  through = λ a b c pa pb pc h h'. ground arith;
}

edge_less-IsOrdering : IsOrdering IsProperEdge edge_less
unfolding edge_less slt32
edge_less-IsOrdering = record {
  asym = λ a b h. ground arith;
  through = λ a b c pa pb pc h h'. ground arith;
}

abbrev history : List Change
history =
    edge 1 2 7
    ∷ edge 1 3 4
    ∷ node 5 3 (b'c' ∷ [])
    ∷ node 4 2 (b'b' ∷ [])
    ∷ node 3 1 (b'a' ∷ [])
    ∷ []

abbrev swap_first : {A : Type 0} → List A → List A
swap_first (x ∷ y ∷ rest) = y ∷ x ∷ rest
swap_first xs = xs

swap_first-Permᴰ : {A : Type 0} (xs : List A) → Permᴰ (swap_first xs) xs
swap_first-Permᴰ [] = Permᴰ.nil
swap_first-Permᴰ (x ∷ []) = Permᴰ.refl (x ∷ [])
swap_first-Permᴰ (x ∷ y ∷ rest) = Permᴰ.swap refl refl

swap_first-IsRanging : {K V : Type 0} → IsRanging (λ (m : GoMap K V). swap_first m)
swap_first-IsRanging m = swap_first-Permᴰ m

abbrev me : PeerNode ℕ
me = record (make_node 1 9_001 [] manager) { graph = after history }

-- The nodes and the edges come out sorted, and the node itself as localhost.
prints :
    print_graph insertion_sort insertion_sort (λ m. swap_first m) (λ m. swap_first m) me
    ≡ blank
      ∷ title 1
      ∷ nodes_header 3
      ∷ node_line 1 (b'l' ∷ b'o' ∷ b'c' ∷ b'a' ∷ b'l' ∷ b'h' ∷ b'o' ∷ b's' ∷ b't' ∷ [])
      ∷ node_line 2 (b'b' ∷ [])
      ∷ node_line 3 (b'c' ∷ [])
      ∷ edges_header 2
      ∷ edge_line 1 2 7
      ∷ edge_line 1 3 4
      ∷ rule
      ∷ []
unfolding print_graph print_node print_edge node_less edge_less slt32 get_nodes get_edges after
    make_change add_node add_edge insert edge_key format_int32 make_node bytes_beq
prints = refl

print_graph-same_example :
    print_graph insertion_sort insertion_sort (λ m. m) (λ m. m) me
    ≡ print_graph insertion_sort insertion_sort (λ m. swap_first m) (λ m. swap_first m) me
print_graph-same_example =
    print_graph-same history (omega arith) me insertion_sort insertion_sort insertion_sort
      insertion_sort (λ m. m) (λ m. swap_first m) (λ m. m) (λ m. swap_first m) refl
      (insertion_sort-IsSorting node_less IsProperNode node_less-IsOrdering)
      (insertion_sort-IsSorting node_less IsProperNode node_less-IsOrdering)
      (insertion_sort-IsSorting edge_less IsProperEdge edge_less-IsOrdering)
      (insertion_sort-IsSorting edge_less IsProperEdge edge_less-IsOrdering) Permᴰ.refl
      swap_first-IsRanging Permᴰ.refl swap_first-IsRanging
