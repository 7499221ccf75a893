-- ===== src/Routing/Dijkstra.antt =====
-- internal/routing/dijkstra.go, `dijkstra`. The order in which a round ranges over `unvisited` is the
-- argument `order`, and may differ from round to round.
pub mod Maps
pub mod Pick
pub mod Relax
pub mod Invariant
pub mod Step
pub mod Loop
pub mod Optimal
pub mod Correct
pub mod Missing
pub mod Sentinel
mod Tests
use mathlib.Core.List.{foldl}
use file_sharing_system_with.Prelude.{
  ℕ, zero, suc, ◌-◌, ◌+◌, Bool, true, false, not, ◌||◌, Option, none, some, List, [], ◌∷◌, ◌++◌,
  map, length, nat_beq, ◌==◌, nat_eq, if◌then◌else◌,
}
use file_sharing_system_with.Word.{Int32, Int64, minus_one32, max_int64, add64, slt64}
use file_sharing_system_with.GoMap.{GoMap, lookup, insert, delete, index, has}
use file_sharing_system_with.Routing.Types.{GraphNode, GraphEdge, Graph}

pub data RouteError : Type 0 where
  source_not_found : Int32 → RouteError
  target_not_found : Int32 → RouteError
  no_path : Int32 → Int32 → RouteError

-- `out_of_fuel` stands for a loop that goes on after its fuel.
pub data Outcome {ℓ} (A : Type ℓ) : Type ℓ where
  ok : A → Outcome A
  err : RouteError → Outcome A
  out_of_fuel : Outcome A

abbrev pub inf : Int64
inf = max_int64

add_edge : GoMap Int32 (List GraphEdge) → GraphEdge → GoMap Int32 (List GraphEdge)
add_edge adj e = insert e.from (index [] e.from adj ++ e ∷ []) adj

pub build_adjacency : List GraphEdge → GoMap Int32 (List GraphEdge)
build_adjacency = foldl add_edge []

-- The three maps of a run.
pub record Search : Type 0 where
  pub distances : GoMap Int32 Int64
  pub previous : GoMap Int32 Int32
  pub unvisited : GoMap Int32 Bool

add_node : Search → GraphNode → Search
add_node s n = record {
  distances = insert n.id inf s.distances;
  previous = insert n.id minus_one32 s.previous;
  unvisited = insert n.id true s.unvisited;
}

abbrev pub nothing : Search
nothing = record { distances = []; previous = []; unvisited = [] }

pub init_search : List GraphNode → Search
init_search = foldl add_node nothing

-- The range over `unvisited` that finds the nearest node: (currentID, minDist).
pub pick : GoMap Int32 Int64 → List Int32 → Int32 × Int64 → Int32 × Int64
pick d [] best = best
pick d (k ∷ ks) best = pick d ks (if slt64 (index 0 k d) best.1 then (k, index 0 k d) else best)

-- The body of the range over adjacency[currentID].
pub relax : Int32 → Search → GraphEdge → Search
relax current s e =
    let new_dist = add64 (index 0 current s.distances) e.latency_ms in
    if not (index false e.to s.unvisited)
    then s
    else if slt64 new_dist (index 0 e.to s.distances)
    then record s {
      distances = insert e.to new_dist s.distances;
      previous = insert e.to current s.previous;
    }
    else s

pub settle : GoMap Int32 (List GraphEdge) → Search → Int32 → Search
settle adj s current =
    foldl (relax current) (record s { unvisited = delete current s.unvisited })
      (index [] current adj)

abbrev pub keys : GoMap Int32 Bool → List Int32
keys = map (λ e. e.0)

-- What a round finds: (currentID, minDist).
pub choose : (ℕ → List Int32 → List Int32) → ℕ → Search → Int32 × Int64
choose order round s = pick s.distances (order round (keys s.unvisited)) (minus_one32, inf)

-- The main loop, on fuel; `none` when the fuel runs out before the loop ends.
pub main_loop :
    (ℕ → List Int32 → List Int32)
    → GoMap Int32 (List GraphEdge)
    → Int32
    → ℕ
    → Search
    → Option Search
main_loop order adj target zero s = elim s.unvisited [ [] ↦ some s | _ ∷ _ ↦ none ]
main_loop order adj target (suc fuel) s = elim s.unvisited [
  | [] ↦ some s
  | _ ∷ _ ↦
      let current = (choose order fuel s).0 in
      let rest = main_loop order adj target fuel (settle adj s current) in
      if current == minus_one32 || (choose order fuel s).1 == inf
      then some s
      else if current == target
      then some s
      else rest
]

-- The walk back along `previous`, in front of the path found so far.
pub walk_back : ℕ → GoMap Int32 Int32 → Int32 → List Int32 → Option (List Int32)
walk_back zero prev current path = if current == minus_one32 then some path else none
walk_back (suc fuel) prev current path =
    let rest = walk_back fuel prev (index 0 current prev) (current ∷ path) in
    if current == minus_one32 then some path else rest

-- From `// Check if target was reached` on.
pub finish : Int32 → Int32 → ℕ → Search → Outcome (List Int32 × Int64)
finish source target fuel s =
    if index 0 target s.distances == inf
    then err (no_path source target)
    else elim (walk_back fuel s.previous target []) [
      | none ↦ out_of_fuel
      | some path ↦ ok (path, index 0 target s.distances)
    ]

pub dijkstra : (ℕ → List Int32 → List Int32) → Graph → Int32 → Int32 → Outcome (List Int32 × Int64)
dijkstra order graph source target =
    let nodes = graph.get_node_list in
    let start = init_search nodes in
    if not (has source start.distances)
    then err (source_not_found source)
    else if not (has target start.distances)
    then err (target_not_found target)
    else elim (main_loop order (build_adjacency graph.get_edge_list) target (length nodes)
        (record start { distances = insert source 0 start.distances })) [
          | none ↦ out_of_fuel
          | some s ↦ finish source target (suc (length nodes)) s
        ]
