-- ===== src/LockOrder/Ends.antt =====
-- The search of pkg/analyzer/lockorder.go ends: each call of `dfs` colours another node, and each
-- round of `extractCycle` visits another one.
use mathlib.Core.List.{Memᴰ}
use mathlib.Core.List.Memᴰ
use golintmu.Base.{
  ℕ, zero, suc, String, ◌≤◌, ◌<◌, ◌≡◌, refl, sym, ◌∙◌, subst, Bool, true, false, not, ◌||◌, inl,
  inr, Option, none, some, List, [], ◌∷◌, ◌==◌, arith, ◌>>=◌, Bool-cases, Option-cases,
  lookup-insert, Map, keys, has_of_lookup, lookup, lookup_list, insert, contains, contains-add, add,
  fold, length, length-keys, keep, length-keep-le, unmarked, unmarked-add-lt,
}
use golintmu.Base.Fixpoint.{unmarked_of-le, unmarked_of-lt}
use golintmu.Ssa.{Program}
use golintmu.Pass.{LockOrderEdge, MutexFieldKey}
use golintmu.Pass.Keys.{MutexFieldKey_eq}
use golintmu.Report.{mutex_field_key_name}
use golintmu.LockOrder.{LockOrderGraph}
use golintmu.LockOrder.Search.{
  Color, white, gray, black, Search, new_search, color_of, follow, extract_cycle, add_cycle, scan,
  insert_by, sort_by, dfs, search_nodes, nodes_of, deduplicate_cycles, detect_cycles,
}
use golintmu.LockOrder.Cycles.{sort_by-mem}

-- Every chain of parents ends, or comes back to a node that it visited.
follow_returns :
    (parent : Map MutexFieldKey LockOrderEdge) (target : MutexFieldKey) (fuel : ℕ)
    (current : MutexFieldKey) (visited : List MutexFieldKey) (cycle : List LockOrderEdge)
    → unmarked (keys parent) visited < fuel
    → (r : Option (List LockOrderEdge)) × (follow fuel parent target current visited cycle ≡ some r)
unfolding follow
follow_returns parent target zero current visited cycle h = absurd (omega arith)
follow_returns parent target (suc fuel) current visited cycle h =
    elim (Bool-cases (current == target)) [
      | inl closed ↦ (some cycle, rw (follow, closed) refl)
      | inr open_path ↦ elim (Bool-cases (contains visited current)) [
        | inl old ↦ (none, rw (follow, open_path, old) refl)
        | inr new ↦ elim (Option-cases (lookup current parent)) [
          | inl no_parent ↦ (none, rw (follow, open_path, new, no_parent) refl)
          | inr (edge, at) ↦
              let (r, returned) =
                follow_returns parent target fuel edge.from (add current visited) (edge ∷ cycle) (
                  omega (
                    arith,
                    h,
                    unmarked-add-lt (keys parent) visited current
                        (has_of_lookup current edge parent at) new,
                  )) in
              (r, rw (follow, open_path, new, at) returned)
        ]
      ]
    ]

extract_cycle_returns :
    (parent : Map MutexFieldKey LockOrderEdge) (e : LockOrderEdge)
    → (r : Option (List LockOrderEdge)) × (extract_cycle parent e ≡ some r)
unfolding extract_cycle
extract_cycle_returns parent e =
    follow_returns parent e.to (suc (length parent)) e.from [] (e ∷ [])
      (omega (arith, length-keys parent, length-keep-le (λ k. not (contains [] k)) (keys parent)))

add_cycle-color :
    (cycle : Option (List LockOrderEdge)) (s : Search) → (add_cycle cycle s).color ≡ s.color
unfolding add_cycle
add_cycle-color none s = refl
add_cycle-color (some c) s = refl

is_marked : Map MutexFieldKey Color → MutexFieldKey → Bool
unfolding color_of
is_marked m k = elim (color_of m k) [ white ↦ false | gray ↦ true | black ↦ true ]

-- Nodes do not turn white.
abbrev Grows : Map MutexFieldKey Color → Map MutexFieldKey Color → Type 0
Grows m m' = (k : MutexFieldKey) → is_marked m k ≡ true → is_marked m' k ≡ true

module _ (k : MutexFieldKey) (m : Map MutexFieldKey Color) where
  gray-Grows : Grows m (insert k gray m)
  unfolding is_marked color_of
  gray-Grows j h = ground (arith, lookup-insert k j gray m)

  black-Grows : Grows m (insert k black m)
  unfolding is_marked color_of
  black-Grows j h = ground (arith, lookup-insert k j black m)

  is_marked-gray : is_marked (insert k gray m) k ≡ true
  unfolding is_marked color_of
  is_marked-gray = ground (arith, lookup-insert k k gray m)

is_marked-white :
    (m : Map MutexFieldKey Color) (k : MutexFieldKey) → color_of m k ≡ white → is_marked m k ≡ false
unfolding is_marked
is_marked-white m k e = rw (is_marked, e) refl

module _ (prog : Program) (edges : LockOrderGraph) (nodes : List MutexFieldKey)
    (closed : (k : MutexFieldKey) (e : LockOrderEdge)
      → Memᴰ e (lookup_list k edges)
      → contains nodes e.to ≡ true) where
  -- How many nodes are white.
  abbrev left : Map MutexFieldKey Color → ℕ
  left m = length (keep (λ k. not (is_marked m k)) nodes)

  left-le : (m m' : Map MutexFieldKey Color) → Grows m m' → left m' ≤ left m
  left-le m m' h = unmarked_of-le is_marked (λ _. Unit) nodes m m' h

  abbrev Returns : Search → Option Search → Type 0
  Returns s r = (t : Search) × (r ≡ some t) × Grows s.color t.color

  abbrev DfsReturns : ℕ → Type 0
  DfsReturns fuel =
      (k : MutexFieldKey) (s : Search)
      → contains nodes k ≡ true
      → color_of s.color k ≡ white
      → left s.color ≤ fuel
      → Returns s (dfs prog edges fuel k s)

  scan-Returns :
      (fuel : ℕ)
      → DfsReturns fuel
      → (es : List LockOrderEdge) (s : Search)
      → ((e : LockOrderEdge) → Memᴰ e es → contains nodes e.to ≡ true)
      → left s.color ≤ fuel
      → Returns s (scan (dfs prog edges fuel) es s)
  unfolding scan
  scan-Returns fuel ih [] s all h = (s, refl, λ k m. m)
  scan-Returns fuel ih (e ∷ es) s all h =
      by_color (color_of s.color e.to) refl
        (λ u. scan-Returns fuel ih es u (λ f m. all f (Memᴰ.tail m)))
    where
      by_color :
          (c : Color)
          → color_of s.color e.to ≡ c
          → ((u : Search) → left u.color ≤ fuel → Returns u (scan (dfs prog edges fuel) es u))
          → Returns s (scan (dfs prog edges fuel) (e ∷ es) s)
      by_color white k again =
          let entered = record s { parent = insert e.to e s.parent } in
          let (u, first, grows) = ih e.to entered (all e (Memᴰ.head refl)) k h in
          let (t, rest, grows') = again u (omega (arith, h, left-le s.color u.color grows)) in
          (t, rw (scan, k, first, ◌>>=◌) rest, λ j m. grows' j (grows j m))
      by_color gray k again =
          let (cycle, first) = extract_cycle_returns s.parent e in
          let (t, rest, grows) = again (add_cycle cycle s) (rw (add_cycle-color cycle s) h) in
          (t, rw (scan, k, first, ◌>>=◌) rest, rw (add_cycle-color cycle s) at grows)
      by_color black k again = let (t, rest, grows) = again s h in (t, rw (scan, k) rest, grows)

  dfs_returns : (fuel : ℕ) → DfsReturns fuel
  unfolding dfs
  dfs_returns fuel k s is_node is_white h = by_fuel fuel k s is_node is_white h
    where
      gray-lt :
          (k : MutexFieldKey) (s : Search)
          → contains nodes k ≡ true
          → color_of s.color k ≡ white
          → left (insert k gray s.color) < left s.color
      gray-lt k s is_node is_white =
          unmarked_of-lt is_marked (λ _. Unit) nodes s.color (insert k gray s.color) k
            (gray-Grows k s.color) is_node (is_marked-white s.color k is_white)
            (is_marked-gray k s.color)

      by_fuel : (fuel : ℕ) → DfsReturns fuel
      by_fuel zero k s is_node is_white h = absurd (omega (arith, h, gray-lt k s is_node is_white))
      by_fuel (suc n) k s is_node is_white h =
          let entered = record s { color = insert k gray s.color } in
          let (u, scanned, grows) =
            scan-Returns n (by_fuel n)
              (sort_by (λ e. mutex_field_key_name prog e.to) (lookup_list k edges)) entered
              (λ e m.
                closed k e
                  (sort_by-mem (λ x. mutex_field_key_name prog x.to) e (lookup_list k edges) m))
              (omega (arith, h, gray-lt k s is_node is_white)) in
          (
            record u { color = insert k black u.color },
            rw (dfs, scanned, ◌>>=◌) refl,
            λ j m. black-Grows k u.color j (grows j (gray-Grows k s.color j m)),
          )

  search_nodes_returns :
      (fuel : ℕ) (ns : List MutexFieldKey) (s : Search)
      → ((k : MutexFieldKey) → contains ns k ≡ true → contains nodes k ≡ true)
      → left s.color ≤ fuel
      → (t : Search) × (search_nodes prog edges fuel ns s ≡ some t)
  unfolding search_nodes
  search_nodes_returns fuel [] s all h = (s, refl)
  search_nodes_returns fuel (k ∷ ns) s all h =
      by_color (color_of s.color k) refl
        (λ u. search_nodes_returns fuel ns u (λ j m. all j (ground (arith, m))))
    where
      by_color :
          (c : Color)
          → color_of s.color k ≡ c
          → ((u : Search)
              → left u.color ≤ fuel
              → (t : Search) × (search_nodes prog edges fuel ns u ≡ some t))
          → (t : Search) × (search_nodes prog edges fuel (k ∷ ns) s ≡ some t)
      by_color white e again =
          let (u, first, grows) = dfs_returns fuel k s (all k (ground arith)) e h in
          let (t, rest) = again u (omega (arith, h, left-le s.color u.color grows)) in
          (t, rw (search_nodes, e, first, ◌>>=◌) rest)
      by_color gray e again = let (t, rest) = again s h in (t, rw (search_nodes, e) rest)
      by_color black e again = let (t, rest) = again s h in (t, rw (search_nodes, e) rest)

-- The nodes that the loop over the edges of a source collects.
abbrev with_targets : List MutexFieldKey → List LockOrderEdge → List MutexFieldKey
with_targets nodes es = fold (λ ns e. add e.to ns) nodes es

abbrev with_nodes : List MutexFieldKey → LockOrderGraph → List MutexFieldKey
with_nodes nodes edges = fold (λ ns (from, es). with_targets (add from ns) es) nodes edges

with_targets-keeps :
    (es : List LockOrderEdge) (ns : List MutexFieldKey) (x : MutexFieldKey)
    → contains ns x ≡ true
    → contains (with_targets ns es) x ≡ true
with_targets-keeps [] ns x m = m
with_targets-keeps (e ∷ es) ns x m =
    with_targets-keeps es (add e.to ns) x (ground (arith, contains-add e.to x ns, m))

with_targets-has :
    (es : List LockOrderEdge) (ns : List MutexFieldKey) (e : LockOrderEdge)
    → Memᴰ e es
    → contains (with_targets ns es) e.to ≡ true
with_targets-has [] ns e m = absurd (Memᴰ.not-nil m)
with_targets-has (f ∷ es) ns e m = elim (Memᴰ.cases_cons m) [
  | inl same ↦ with_targets-keeps es (add f.to ns) e.to (
      subst (λ (g : LockOrderEdge). contains (add f.to ns) g.to ≡ true) (sym same)
        (ground (arith, contains-add f.to f.to ns)))
  | inr rest ↦ with_targets-has es (add f.to ns) e rest
]

with_nodes-keeps :
    (edges : LockOrderGraph) (ns : List MutexFieldKey) (x : MutexFieldKey)
    → contains ns x ≡ true
    → contains (with_nodes ns edges) x ≡ true
with_nodes-keeps [] ns x m = m
with_nodes-keeps ((from, es) ∷ edges) ns x m =
    with_nodes-keeps edges (with_targets (add from ns) es) x
      (with_targets-keeps es (add from ns) x (ground (arith, contains-add from x ns, m)))

with_nodes-has :
    (edges : LockOrderGraph) (ns : List MutexFieldKey) (k : MutexFieldKey) (e : LockOrderEdge)
    → Memᴰ e (lookup_list k edges)
    → contains (with_nodes ns edges) e.to ≡ true
with_nodes-has [] ns k e m = absurd (Memᴰ.not-nil m)
with_nodes-has ((from, es) ∷ edges) ns k e m = elim (Bool-cases (from == k)) [
  | inl here ↦
      let own : lookup_list k ((from, es) ∷ edges) ≡ es = ground (arith, here) in
      with_nodes-keeps edges (with_targets (add from ns) es) e.to
        (with_targets-has es (add from ns) e (rw own at m))
  | inr other ↦
      let rest : lookup_list k ((from, es) ∷ edges) ≡ lookup_list k edges = ground (arith, other) in
      with_nodes-has edges (with_targets (add from ns) es) k e (rw rest at m)
]

module _ (name : MutexFieldKey → String) where
  contains-insert_by :
      (x k : MutexFieldKey) (l : List MutexFieldKey)
      → contains (insert_by name x l) k ≡ (x == k || contains l k)
  unfolding insert_by
  contains-insert_by x k [] = refl
  contains-insert_by x k (y ∷ l) = ground (arith, contains-insert_by x k l)

  contains-sort_by :
      (k : MutexFieldKey) (l : List MutexFieldKey) → contains (sort_by name l) k ≡ contains l k
  unfolding sort_by
  contains-sort_by k [] = refl
  contains-sort_by k (x ∷ l) =
      ground (arith, contains-sort_by k l, contains-insert_by x k (sort_by name l))

-- `detectCycles` returns, whatever the graph.
pub detect_cycles_total :
    (prog : Program) (edges : LockOrderGraph)
    → (cycles : List (List LockOrderEdge)) × (detect_cycles prog edges ≡ some cycles)
unfolding detect_cycles nodes_of
detect_cycles_total prog edges =
    let nodes = nodes_of edges in
    let name = mutex_field_key_name prog in
    let (s, found) =
      search_nodes_returns prog edges nodes (λ k e m. with_nodes-has edges [] k e m) (length nodes)
        (sort_by name nodes) new_search (λ k m. sym (contains-sort_by name k nodes) ∙ m)
        (length-keep-le (λ k. not (is_marked [] k)) nodes) in
    (deduplicate_cycles prog s.cycles, rw (detect_cycles, found, ◌>>=◌) refl)
