-- ===== src/LockOrder/Cycles.antt =====
-- What the search of pkg/analyzer/lockorder.go finds are cycles of the graph.
use Prim.Native.String.{compare}
use text.Mathlib.Text.{is_lt}
use mathlib.Core.List.{Memᴰ}
use mathlib.Core.List.Memᴰ
use golintmu.Base.{
  ℕ, zero, suc, String, ◌≡◌, refl, sym, ◌∙◌, ap, subst, true, false, inl, inr, Option, none, some,
  List, [], ◌∷◌, ◌==◌, arith, string_eq, >>=-eq-some, Bool-cases, Option-cases, lookup-insert,
  lookup, lookup_list, insert, contains, add, length,
}
use golintmu.Ssa.{Program}
use golintmu.Pass.{LockOrderEdge, MutexFieldKey}
use golintmu.Pass.Keys.{MutexFieldKey_eq}
use golintmu.Report.{mutex_field_key_name}
use golintmu.LockOrder.{LockOrderGraph}
use golintmu.LockOrder.Search.{
  new_search, nodes_of, Color, white, gray, black, Search, color_of, follow, extract_cycle,
  add_cycle, scan, insert_by, sort_by, dfs, search_nodes, deduplicate_from, deduplicate_cycles,
  detect_cycles, cycle_key,
}

-- The graph has the edge.
abbrev pub IsEdge : LockOrderGraph → LockOrderEdge → Type 0
IsEdge edges e = (k : MutexFieldKey) × Memᴰ e (lookup_list k edges)

-- Edges of the graph that lead from `a` to `b`, each from where the one before ends.
abbrev pub IsPath : LockOrderGraph → List LockOrderEdge → MutexFieldKey → MutexFieldKey → Type 0
IsPath edges [] a b = a ≡ b
IsPath edges (e ∷ es) a b = (e.from ≡ a) × IsEdge edges e × IsPath edges es e.to b

-- A path with an edge at least, back to where it starts.
abbrev pub IsCycle : LockOrderGraph → List LockOrderEdge → Type 0
IsCycle edges [] = true ≡ false
IsCycle edges (e ∷ es) = IsPath edges (e ∷ es) e.from e.from

module _ (name : LockOrderEdge → String) where
  insert_by-mem :
      (e x : LockOrderEdge) (l : List LockOrderEdge) → Memᴰ e (insert_by name x l) → Memᴰ e (x ∷ l)
  unfolding insert_by
  insert_by-mem e x [] m = m
  insert_by-mem e x (y ∷ l) m = elim (Bool-cases (is_lt (compare (name x) (name y)))) [
    | inl here ↦ rw (insert_by, here) at m
    | inr later ↦ elim (Memᴰ.cases_cons (rw (insert_by, later) at m)) [
      | inl same ↦ Memᴰ.tail (Memᴰ.head same)
      | inr rest ↦ elim (Memᴰ.cases_cons (insert_by-mem e x l rest)) [
        | inl same ↦ Memᴰ.head same
        | inr old ↦ Memᴰ.tail (Memᴰ.tail old)
      ]
    ]
  ]

  pub sort_by-mem :
      (e : LockOrderEdge) (l : List LockOrderEdge) → Memᴰ e (sort_by name l) → Memᴰ e l
  unfolding sort_by
  sort_by-mem e [] m = m
  sort_by-mem e (x ∷ l) m = elim (Memᴰ.cases_cons (insert_by-mem e x (sort_by name l) m)) [
    | inl same ↦ Memᴰ.head same
    | inr rest ↦ Memᴰ.tail (sort_by-mem e l rest)
  ]

module _ (edges : LockOrderGraph) where
  -- What the search keeps: the parent of a node is an edge to it, and the cycles are cycles.
  record Sound (s : Search) : Type 0 where
    parents :
        (k : MutexFieldKey) (e : LockOrderEdge)
        → lookup k s.parent ≡ some e
        → (e.to ≡ k) × IsEdge edges e
    found : (c : List LockOrderEdge) → Memᴰ c s.cycles → IsCycle edges c

  follow-IsCycle :
      (s : Search) (target : MutexFieldKey)
      → Sound s
      → (fuel : ℕ) (current : MutexFieldKey) (visited : List MutexFieldKey) (e : LockOrderEdge)
        (es c : List LockOrderEdge)
      → IsPath edges (e ∷ es) current target
      → follow fuel s.parent target current visited (e ∷ es) ≡ some (some c)
      → IsCycle edges c
  unfolding follow
  follow-IsCycle s target sound zero current visited e es c path h = absurd (cc)
  follow-IsCycle s target sound (suc fuel) current visited e es c path h =
      elim (Bool-cases (current == target)) [
        | inl closed ↦
            let same : (e ∷ es) ≡ c = ground (arith, closed, h) in
            let at_end : current ≡ target = ground (arith, closed) in
            subst (IsCycle edges) same (
              refl,
              path.1,
              subst (λ (b : MutexFieldKey). IsPath edges es e.to b) (sym (path.0 ∙ at_end)) path.2,
            )
        | inr open_path ↦ elim (Bool-cases (contains visited current)) [
          | inl old ↦ absurd (ground (arith, open_path, old, h))
          | inr new ↦ elim (Option-cases (lookup current s.parent)) [
            | inl no_parent ↦ absurd (ground (arith, open_path, new, no_parent, h))
            | inr (edge, at) ↦
                let (to_current, is_edge) = sound.parents current edge at in
                follow-IsCycle s target sound fuel edge.from (add current visited) edge (e ∷ es) c
                  (refl, is_edge, (path.0 ∙ sym to_current, path.1, path.2))
                  (rw (follow, open_path, new, at) at h)
          ]
        ]
      ]

  extract_cycle-IsCycle :
      (s : Search) (e : LockOrderEdge) (c : List LockOrderEdge)
      → Sound s
      → IsEdge edges e
      → extract_cycle s.parent e ≡ some (some c)
      → IsCycle edges c
  unfolding extract_cycle
  extract_cycle-IsCycle s e c sound is_edge h =
      follow-IsCycle s e.to sound (suc (length s.parent)) e.from [] e [] c (refl, is_edge, refl) h

  parent-Sound :
      (s : Search) (e : LockOrderEdge)
      → Sound s
      → IsEdge edges e
      → Sound (record s { parent = insert e.to e s.parent })
  parent-Sound s e sound is_edge = record {
    parents = λ k f at. elim (Bool-cases (e.to == k)) [
      | inl here ↦
          let to_k : e.to ≡ k = ground arith in
          let same : e ≡ f = ground (arith, at, here, lookup-insert e.to k e s.parent) in
          subst (λ (g : LockOrderEdge). (g.to ≡ k) × IsEdge edges g) same (to_k, is_edge)
      | inr other ↦ sound.parents k f (ground (arith, at, other, lookup-insert e.to k e s.parent))
    ];
    found = sound.found;
  }

  add_cycle-Sound :
      (s : Search) (cycle : Option (List LockOrderEdge))
      → Sound s
      → ((c : List LockOrderEdge) → cycle ≡ some c → IsCycle edges c)
      → Sound (add_cycle cycle s)
  unfolding add_cycle
  add_cycle-Sound s none sound is_cycle = sound
  add_cycle-Sound s (some cycle) sound is_cycle = record {
    parents = sound.parents;
    found = λ c m. elim (Memᴰ.append_cases s.cycles m) [
      | inl old ↦ sound.found c old
      | inr new ↦ subst (IsCycle edges) (sym (Memᴰ.eq_of_singleton new)) (is_cycle cycle refl)
    ];
  }

  abbrev KeepsSound : (MutexFieldKey → Search → Option Search) → Type 0
  KeepsSound step = (k : MutexFieldKey) (s t : Search) → Sound s → step k s ≡ some t → Sound t

  scan-Sound :
      (step : MutexFieldKey → Search → Option Search)
      → KeepsSound step
      → (es : List LockOrderEdge) (s t : Search)
      → ((e : LockOrderEdge) → Memᴰ e es → IsEdge edges e)
      → Sound s
      → scan step es s ≡ some t
      → Sound t
  unfolding scan
  scan-Sound step ih [] s t all sound h = let same : s ≡ t = cc in subst Sound same sound
  scan-Sound step ih (e ∷ es) s t all sound h =
      by_color (color_of s.color e.to) refl
        (λ u. scan-Sound step ih es u t (λ f m. all f (Memᴰ.tail m)))
    where
      by_color :
          (c : Color)
          → color_of s.color e.to ≡ c
          → ((u : Search) → Sound u → scan step es u ≡ some t → Sound t)
          → Sound t
      by_color white k again =
          let entered = record s { parent = insert e.to e s.parent } in
          let (u, first, rest) = >>=-eq-some (step e.to entered) _ (rw (scan, k) at h) in
          again u (ih e.to entered u (parent-Sound s e sound (all e (Memᴰ.head refl))) first) rest
      by_color gray k again =
          let (cycle, first, rest) = >>=-eq-some (extract_cycle s.parent e) _ (rw (scan, k) at h) in
          again (add_cycle cycle s)
            (add_cycle-Sound s cycle sound (λ c same.
              extract_cycle-IsCycle s e c sound (all e (Memᴰ.head refl)) (first ∙ ap some same)))
            rest
      by_color black k again = again s sound (rw (scan, k) at h)

  module _ (prog : Program) where
    abbrev edges_from : MutexFieldKey → List LockOrderEdge
    edges_from k = sort_by (λ e. mutex_field_key_name prog e.to) (lookup_list k edges)

    dfs_sound : (fuel : ℕ) → KeepsSound (dfs prog edges fuel)
    unfolding dfs
    dfs_sound zero k s t sound h = absurd (cc)
    dfs_sound (suc fuel) k s t sound h =
        let entered = record s { color = insert k gray s.color } in
        let (u, scanned, rest) =
          >>=-eq-some (scan (dfs prog edges fuel) (edges_from k) entered)
            (λ t. some (record t { color = insert k black t.color })) h in
        let sound' =
          scan-Sound (dfs prog edges fuel) (dfs_sound fuel) (edges_from k) entered u
            (λ e m.
              (k, sort_by-mem (λ x. mutex_field_key_name prog x.to) e (lookup_list k edges) m))
            (record { parents = sound.parents; found = sound.found }) scanned in
        let same : record u { color = insert k black u.color } ≡ t = cc in
        subst Sound same (record { parents = sound'.parents; found = sound'.found })

    search_nodes-Sound :
        (fuel : ℕ) (nodes : List MutexFieldKey) (s t : Search)
        → Sound s
        → search_nodes prog edges fuel nodes s ≡ some t
        → Sound t
    unfolding search_nodes
    search_nodes-Sound fuel [] s t sound h = let same : s ≡ t = cc in subst Sound same sound
    search_nodes-Sound fuel (k ∷ nodes) s t sound h =
        by_color (color_of s.color k) refl (λ u. search_nodes-Sound fuel nodes u t)
      where
        by_color :
            (c : Color)
            → color_of s.color k ≡ c
            → ((u : Search) → Sound u → search_nodes prog edges fuel nodes u ≡ some t → Sound t)
            → Sound t
        by_color white e again =
            let (u, first, rest) =
              >>=-eq-some (dfs prog edges fuel k s) _ (rw (search_nodes, e) at h) in
            again u (dfs_sound fuel k s u sound first) rest
        by_color gray e again = again s sound (rw (search_nodes, e) at h)
        by_color black e again = again s sound (rw (search_nodes, e) at h)

    deduplicate_from-mem :
        (seen : List String) (c : List LockOrderEdge) (cycles : List (List LockOrderEdge))
        → Memᴰ c (deduplicate_from prog seen cycles)
        → Memᴰ c cycles
    unfolding deduplicate_from
    deduplicate_from-mem seen c [] m = m
    deduplicate_from-mem seen c (d ∷ cycles) m =
        elim (Bool-cases (contains seen (cycle_key prog d))) [
          | inl old ↦
              Memᴰ.tail (deduplicate_from-mem seen c cycles (rw (deduplicate_from, old) at m))
          | inr new ↦ elim (Memᴰ.cases_cons (rw (deduplicate_from, new) at m)) [
            | inl same ↦ Memᴰ.head same
            | inr rest ↦
                Memᴰ.tail (deduplicate_from-mem (add (cycle_key prog d) seen) c cycles rest)
          ]
        ]

    -- Each list of edges that the search answers with is a cycle of the graph.
    pub detect_cycles_sound :
        (cycles : List (List LockOrderEdge)) (c : List LockOrderEdge)
        → detect_cycles prog edges ≡ some cycles
        → Memᴰ c cycles
        → IsCycle edges c
    unfolding detect_cycles deduplicate_cycles
    detect_cycles_sound cycles c h m =
        let (s, found, rest) =
          >>=-eq-some
            (search_nodes prog edges (length (nodes_of edges))
              (sort_by (mutex_field_key_name prog) (nodes_of edges)) new_search)
            (λ t. some (deduplicate_cycles prog t.cycles)) h in
        let sound =
          search_nodes-Sound (length (nodes_of edges))
            (sort_by (mutex_field_key_name prog) (nodes_of edges)) new_search s
            (record { parents = λ k e at. absurd (cc); found = λ d n. absurd (Memᴰ.not-nil n) })
            found in
        let same : deduplicate_cycles prog s.cycles ≡ cycles = cc in
        sound.found c (deduplicate_from-mem [] c s.cycles (rw (sym same) at m))
