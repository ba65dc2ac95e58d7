-- ===== src/Concurrency/Reachable.antt =====
-- The search of pkg/analyzer/concurrency.go finds what call chains from the entrypoints reach.
use golintmu.Base.{
  ℕ, zero, suc, ◌+◌, ◌≤◌, ◌≡◌, refl, ap, ◌↔◌, ◌⊎◌, inl, inr, true, not, none, some, List, [], ◌∷◌,
  arith, nat_eq, contains, fold, length, unmarked, length-keep-le, IsSubset, Map, lookup_list, map,
  Bool-cases, List-cases,
}
use golintmu.Ssa.{Program}
use golintmu.Pass.{PassContext, CallSiteRecord}
use golintmu.Concurrency.{
  visit, search_from, search_fuel, build_forward_call_graph, is_concurrent,
  detect_concurrent_entrypoints, compute_concurrent_context,
}
use golintmu.Concurrency.Visit.{
  contains-visited, contains-queued, visited-measure, calls, forward-calls,
}

-- The functions that a chain of call sites leads to from an entrypoint.
pub data Reach (entrypoints : List ℕ) (sites : List CallSiteRecord) : ℕ → Type 0 where
  start : {f : ℕ} → contains entrypoints f ≡ true → Reach entrypoints sites f
  step : {f g : ℕ} → Reach entrypoints sites f → calls sites f g ≡ true → Reach entrypoints sites g

abbrev callees : List CallSiteRecord → List ℕ
callees sites = map (λ cs. cs.callee) sites

contains-callees :
    (sites : List CallSiteRecord) (f g : ℕ)
    → calls sites f g ≡ true
    → contains (callees sites) g ≡ true
contains-callees [] f g h = cc
contains-callees (cs ∷ sites) f g h = ground (arith, contains-callees sites f g)

length-callees : (sites : List CallSiteRecord) → length (callees sites) ≡ length sites
length-callees [] = refl
length-callees (cs ∷ sites) = ap suc (length-callees sites)

module _ (entrypoints : List ℕ) (sites : List CallSiteRecord) where
  abbrev forward : Map ℕ (List ℕ)
  forward = build_forward_call_graph sites

  search_returns :
      (fuel : ℕ) (reachable queue : List ℕ)
      → length queue + unmarked (callees sites) reachable ≤ fuel
      → (t : List ℕ) × (search_from fuel forward reachable queue ≡ some t)
  unfolding search_from
  search_returns zero r [] h = (r, refl)
  search_returns zero r (f ∷ q) h = absurd (omega arith)
  search_returns (suc fuel) r [] h = (r, refl)
  search_returns (suc fuel) r (f ∷ q) h =
      let cs = lookup_list f forward in
      let s = fold visit (r, q) cs in
      search_returns fuel s.0 s.1 (
        omega (
          arith,
          visited-measure (callees sites) cs r q
              (λ g m. contains-callees sites f g (rw (forward-calls sites f g) at m)),
        ))

  -- What the search knows: each function marked is reached, each queued is marked, and the callees
  -- of the marked that left the queue are marked.
  record Inv (reachable queue : List ℕ) : Type 0 where
    sound : (f : ℕ) → contains reachable f ≡ true → Reach entrypoints sites f
    first : IsSubset entrypoints reachable
    queued : IsSubset queue reachable
    closed :
        (f g : ℕ)
        → contains reachable f ≡ true
        → calls sites f g ≡ true
        → (contains queue f ≡ true) ⊎ (contains reachable g ≡ true)

  Inv-visit :
      (f : ℕ) (r q : List ℕ)
      → Inv r (f ∷ q)
      → Inv
          (fold visit (r, q) (lookup_list f forward)).0
          (fold visit (r, q) (lookup_list f forward)).1
  Inv-visit f r q h =
      let cs = lookup_list f forward in
      let marked = contains-visited cs r q in
      let waits = contains-queued cs r q in
      record {
        sound = λ g m. elim (Bool-cases (contains r g)) [
          | inl old ↦ h.sound g old
          | inr new ↦
              step (h.sound f (h.queued f (ground arith)))
                (ground (arith, marked g, forward-calls sites f g))
        ];
        first = λ g m. ground (arith, marked g, h.first g m);
        queued = λ g m. ground (arith, marked g, waits g, h.queued g);
        closed = λ g k m c.
            ground (arith, marked g, marked k, waits g, h.closed g k, forward-calls sites f k);
      }

  search-Inv :
      (fuel : ℕ) (r q t : List ℕ) → Inv r q → search_from fuel forward r q ≡ some t → Inv t []
  unfolding search_from
  search-Inv zero r [] t h e = let same : r ≡ t = cc in rw (← same) h
  search-Inv zero r (f ∷ q) t h e = absurd (cc)
  search-Inv (suc fuel) r [] t h e = let same : r ≡ t = cc in rw (← same) h
  search-Inv (suc fuel) r (f ∷ q) t h e =
      let s = fold visit (r, q) (lookup_list f forward) in
      search-Inv fuel s.0 s.1 t (Inv-visit f r q h) e

  Inv-start : Inv entrypoints entrypoints
  Inv-start = record {
    sound = λ f m. start m;
    first = λ f m. m;
    queued = λ f m. m;
    closed = λ f g m c. inl m;
  }

  complete : (t : List ℕ) → Inv t [] → {f : ℕ} → Reach entrypoints sites f → contains t f ≡ true
  complete t h (start {f} m) = h.first f m
  complete t h (step {f} {g} path c) = elim (h.closed f g (complete t h path) c) [
    | inl waiting ↦ absurd (cc)
    | inr m ↦ m
  ]

  search_correct :
      (t : List ℕ) × (search_from (search_fuel entrypoints sites) forward entrypoints entrypoints
        ≡ some t)
      × ((f : ℕ) → (contains t f ≡ true) ↔ Reach entrypoints sites f)
  unfolding search_fuel
  search_correct =
      let (t, found) = search_returns (search_fuel entrypoints sites) entrypoints entrypoints (
        omega (
          arith,
          length-callees sites,
          length-keep-le (λ v. not (contains entrypoints v)) (callees sites),
        )) in
      let inv =
        search-Inv (search_fuel entrypoints sites) entrypoints entrypoints t Inv-start found in
      (t, found, λ f. (inv.sound f, complete t inv))

-- `computeConcurrentContext` returns; after it a function counts as concurrent exactly if no
-- entrypoint was detected, or a chain of recorded call sites leads to it from an entrypoint.
pub compute_concurrent_context_lem :
    (prog : Program) (ctx : PassContext)
    → (ctx' : PassContext) × (compute_concurrent_context prog ctx ≡ some ctx')
      × ((f : ℕ)
          → (is_concurrent ctx' f ≡ true) ↔ (
              (detect_concurrent_entrypoints prog ctx ≡ [])
              ⊎ Reach (detect_concurrent_entrypoints prog ctx) ctx.call_sites f))
unfolding compute_concurrent_context is_concurrent
compute_concurrent_context_lem prog ctx =
    elim (List-cases (detect_concurrent_entrypoints prog ctx)) [
      | inl empty ↦ (
        record ctx { concurrent_funcs = none },
        rw (empty, compute_concurrent_context),
        λ f. (λ _. inl empty, λ _. refl),
      )
      | inr (e, es, some_entry) ↦
          let (t, found, correct) = search_correct (e ∷ es) ctx.call_sites in
          (
            record ctx { concurrent_funcs = some t },
            rw (some_entry, compute_concurrent_context, found),
            λ f. rw some_entry (
                (
                  λ m. inr ((correct f).0 m),
                  λ r. elim r [ inl empty ↦ absurd (cc) | inr path ↦ (correct f).1 path ],
                )),
          )
    ]
