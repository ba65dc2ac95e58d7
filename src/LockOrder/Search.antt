-- ===== src/LockOrder/Search.antt =====
-- pkg/analyzer/lockorder.go: `detectCycles`, `extractCycle` and `deduplicateCycles`.
use Prim.Native.String.{◌++◌ as ◌+++◌, compare}
use text.Mathlib.Text.{is_lt}
use golintmu.Base.{
  ℕ, zero, suc, String, true, false, Option, none, some, List, [], ◌∷◌, ◌++◌, ◌==◌, if◌then◌else◌,
  string_eq, ◌>>=◌, Map, lookup, lookup_list, insert, contains, add, fold, length,
}
use golintmu.Ssa.{Program}
use golintmu.Pass.{LockOrderEdge, MutexFieldKey}
use golintmu.Pass.Keys.{MutexFieldKey_eq}
use golintmu.Report.{mutex_field_key_name}
use golintmu.LockOrder.{LockOrderGraph}

pub data Color : Type 0 where
  white gray black : Color

-- The maps that the search closes over, and the cycles found.
pub record Search : Type 0 where
  pub color : Map MutexFieldKey Color
  pub parent : Map MutexFieldKey LockOrderEdge
  pub cycles : List (List LockOrderEdge)

abbrev pub new_search : Search
new_search = record { color = []; parent = []; cycles = [] }

-- A key that the map does not have is white.
unfoldable pub color_of : Map MutexFieldKey Color → MutexFieldKey → Color
color_of m k = elim (lookup k m) [ none ↦ white | some c ↦ c ]

-- The loop of `extractCycle`; the cycle is built from its end. The outer `none`: the fuel ran out;
-- the inner: the source's nil.
unfoldable pub follow :
    ℕ
    → Map MutexFieldKey LockOrderEdge
    → MutexFieldKey
    → MutexFieldKey
    → List MutexFieldKey
    → List LockOrderEdge
    → Option (Option (List LockOrderEdge))
follow zero parent target current visited cycle = none
follow (suc fuel) parent target current visited cycle = elim (current == target) [
  | true ↦ some (some cycle)
  | false ↦ elim (contains visited current) [
    | true ↦ some none
    | false ↦ elim (lookup current parent) [
      | none ↦ some none
      | some edge ↦ follow fuel parent target edge.from (add current visited) (edge ∷ cycle)
    ]
  ]
]

-- Each round but the last visits another key of `parent`.
unfoldable pub extract_cycle :
    Map MutexFieldKey LockOrderEdge → LockOrderEdge → Option (Option (List LockOrderEdge))
unfolding follow
extract_cycle parent back_edge =
    follow (suc (length parent)) parent back_edge.to back_edge.from [] (back_edge ∷ [])

unfoldable pub add_cycle : Option (List LockOrderEdge) → Search → Search
add_cycle none s = s
add_cycle (some cycle) s = record s { cycles = s.cycles ++ cycle ∷ [] }

-- The loop over the edges of a node. `dfs` is the recursive call.
unfoldable pub scan :
    (MutexFieldKey → Search → Option Search) → List LockOrderEdge → Search → Option Search
unfolding color_of extract_cycle add_cycle
scan dfs [] s = some s
scan dfs (edge ∷ edges) s = elim (color_of s.color edge.to) [
  | white ↦ dfs edge.to (record s { parent = insert edge.to edge s.parent }) >>= scan dfs edges
  | gray ↦ extract_cycle s.parent edge >>= λ cycle. scan dfs edges (add_cycle cycle s)
  | black ↦ scan dfs edges s
]

-- All sources and targets of edges.
unfoldable pub nodes_of : LockOrderGraph → List MutexFieldKey
nodes_of edges = fold (λ nodes (from, es). fold (λ ns e. add e.to ns) (add from nodes) es) [] edges

-- `sort.Slice` by a name, as an insertion sort.
module _ {A : Type 0} (name : A → String) where
  unfoldable pub insert_by : A → List A → List A
  insert_by x [] = x ∷ []
  insert_by x (y ∷ l) =
      let rest = insert_by x l in if is_lt (compare (name x) (name y)) then x ∷ y ∷ l else y ∷ rest

  unfoldable pub sort_by : List A → List A
  unfolding insert_by
  sort_by [] = []
  sort_by (x ∷ l) = insert_by x (sort_by l)

-- The name that is least, and its index: `minIdx`.
min_index : ℕ → String → ℕ → List String → ℕ
min_index best best_name i [] = best
min_index best best_name i (n ∷ names) = elim (is_lt (compare n best_name)) [
  | true ↦ min_index i n (suc i) names
  | false ↦ min_index best best_name (suc i) names
]

-- The names from index `n` on, and then those before it.
rotate : ℕ → List String → List String → List String
rotate zero before names = names ++ before
rotate (suc n) before [] = before
rotate (suc n) before (x ∷ names) = rotate n (before ++ x ∷ []) names

join : List String → String
join [] = ""
join (n ∷ names) = n +++ ";" +++ join names

module _ (prog : Program) where
  unfoldable pub dfs : LockOrderGraph → ℕ → MutexFieldKey → Search → Option Search
  unfolding scan sort_by
  dfs edges zero node s = none
  dfs edges (suc fuel) node s =
      scan (dfs edges fuel) (sort_by (λ e. mutex_field_key_name prog e.to) (lookup_list node edges))
        (record s { color = insert node gray s.color })
      >>= λ t. some (record t { color = insert node black t.color })

  -- The loop over the sorted nodes.
  unfoldable pub search_nodes : LockOrderGraph → ℕ → List MutexFieldKey → Search → Option Search
  unfolding dfs color_of
  search_nodes edges fuel [] s = some s
  search_nodes edges fuel (node ∷ nodes) s = elim (color_of s.color node) [
    | white ↦ dfs edges fuel node s >>= search_nodes edges fuel nodes
    | _ ↦ search_nodes edges fuel nodes s
  ]

  edge_name : LockOrderEdge → String
  edge_name e = mutex_field_key_name prog e.from +++ "->" +++ mutex_field_key_name prog e.to

  edge_names : List LockOrderEdge → List String
  unfolding edge_name
  edge_names [] = []
  edge_names (e ∷ cycle) = edge_name e ∷ edge_names cycle

  -- The names of the edges, from the least on.
  unfoldable pub cycle_key : List LockOrderEdge → String
  unfolding edge_names min_index rotate join
  cycle_key cycle = elim (edge_names cycle) [
    | [] ↦ ""
    | n ∷ names ↦ join (rotate (min_index 0 n 1 names) [] (n ∷ names))
  ]

  unfoldable pub deduplicate_from :
      List String → List (List LockOrderEdge) → List (List LockOrderEdge)
  unfolding cycle_key
  deduplicate_from seen [] = []
  deduplicate_from seen (cycle ∷ cycles) = elim (contains seen (cycle_key cycle)) [
    | true ↦ deduplicate_from seen cycles
    | false ↦ cycle ∷ deduplicate_from (add (cycle_key cycle) seen) cycles
  ]

  unfoldable pub deduplicate_cycles : List (List LockOrderEdge) → List (List LockOrderEdge)
  unfolding deduplicate_from
  deduplicate_cycles = deduplicate_from []

  -- `none`: the fuel ran out. Each recursive call of the search colours another node.
  unfoldable pub detect_cycles : LockOrderGraph → Option (List (List LockOrderEdge))
  unfolding search_nodes nodes_of sort_by deduplicate_cycles
  detect_cycles edges =
      search_nodes edges (length (nodes_of edges))
        (sort_by (mutex_field_key_name prog) (nodes_of edges)) new_search
      >>= λ s. some (deduplicate_cycles s.cycles)
