-- ===== src/Leaks/Holding.antt =====
-- Which functions `computeReturnsHolding` of pkg/analyzer/reporter.go takes for acquire helpers.
use golintmu.Base.{
  ap, suc, List-cases, Eq, subst, ℕ, ◌≤◌, ◌≡◌, ◌≢◌, refl, ◌↔◌, ◌⊎◌, inl, inr, Bool, true, false,
  ◌&&◌, ◌||◌, none, some, List, [], ◌∷◌, ◌==◌, nat_eq, pair_eq, ltb, arith, Map, keys, lookup,
  lookup_list, contains, contains-add, any, fold, length, IsDistinct, IsSubset, length-le_of_subset,
  subset_of_length-eq, Bool-cases, ==_iff,
}
use golintmu.Ssa.{Program}
use golintmu.Pass.{PassContext, MutexFieldKey}
use golintmu.Pass.Keys.{MutexFieldKey_eq}
use golintmu.FuncFacts.{func_facts_of, add_returns_holding, func_facts_of-update}
use golintmu.Leaks.{
  count_at, return_count, return_positions, mark_returns_holding, compute_returns_holding,
}
use golintmu.Leaks.Counts.{returns_of, count_at-return_count}
use golintmu.Leaks.Positions.{leaks_at, contains-return_positions, return_positions-IsCollected}

module _ {K V : Type 0} ⦃e : Eq K⦄ (k : K) (test : V → Bool) where
  -- The entry of one key, if it passes the test.
  abbrev passes : Map K V → Bool
  passes m = elim (lookup k m) [ none ↦ false | some v ↦ test v ]

  any-absent :
      (m : Map K V) → contains (keys m) k ≡ false → any (λ (j, v). j == k && test v) m ≡ false
  any-absent [] h = refl
  any-absent ((j, v) ∷ m) h = ground (arith, any-absent m, h)

  any-passes : (m : Map K V) → IsDistinct (keys m) → any (λ (j, v). j == k && test v) m ≡ passes m
  any-passes [] d = refl
  any-passes ((j, v) ∷ m) d = elim (Bool-cases (j == k)) [
    | inl same ↦
        let e : j ≡ k = (==_iff j k).0 same in
        ground (arith, same, any-absent m, subst (λ i. contains (keys m) i ≡ false) e d.0)
    | inr other ↦ ground (arith, other, any-passes m d.1)
  ]

module _ (prog : Program) (fn : ℕ) (mfk : MutexFieldKey) where
  abbrev pub returns_holding : PassContext → Bool
  returns_holding ctx = contains (func_facts_of ctx fn).returns_holding mfk

  -- Every return of the function is in the list.
  abbrev is_full : List ℕ → Bool
  is_full ps =
      length ps == count_at fn (return_count prog) && ltb 0 (count_at fn (return_count prog))

  abbrev is_marked : (ℕ × MutexFieldKey) × List ℕ → Bool
  is_marked (key, ps) = key == (fn, mfk) && is_full ps

  returns_holding-mark :
      (ctx : PassContext) (entry : (ℕ × MutexFieldKey) × List ℕ)
      → returns_holding (mark_returns_holding prog ctx entry)
        ≡ (returns_holding ctx || is_marked entry)
  unfolding mark_returns_holding
  returns_holding-mark ctx ((g, k), ps) = ground (
    arith,
    func_facts_of-update ctx g fn (add_returns_holding k),
    contains-add k mfk (func_facts_of ctx g).returns_holding,
  )

  returns_holding-fold :
      (ctx : PassContext) (l : Map (ℕ × MutexFieldKey) (List ℕ))
      → returns_holding (fold (mark_returns_holding prog) ctx l)
        ≡ (returns_holding ctx || any is_marked l)
  returns_holding-fold ctx [] = ground arith
  returns_holding-fold ctx (entry ∷ l) = ground (
    arith,
    returns_holding-fold (mark_returns_holding prog ctx entry) l,
    returns_holding-mark ctx entry,
  )

  -- The positions at which the function leaks the lock.
  abbrev leak_positions : PassContext → List ℕ
  leak_positions ctx = lookup_list (fn, mfk) (return_positions prog ctx)

  returns_holding-compute :
      (ctx : PassContext)
      → returns_holding (compute_returns_holding prog ctx)
        ≡ (returns_holding ctx || is_full (leak_positions ctx))
  unfolding compute_returns_holding
  returns_holding-compute ctx = ground (
    arith,
    returns_holding-fold ctx (return_positions prog ctx),
    any-passes (fn, mfk) is_full (return_positions prog ctx)
        (return_positions-IsCollected prog fn mfk ctx).distinct_keys,
  )

  -- Every return of the function leaks the lock, and there is one.
  abbrev pub LeaksAtEveryReturn : PassContext → Type 0
  LeaksAtEveryReturn ctx =
      (returns_of prog fn ≢ [])
      × ((p : ℕ) → contains (returns_of prog fn) p ≡ true → leaks_at prog fn mfk ctx p ≡ true)

  is_full_iff :
      (ctx : PassContext)
      → count_at fn (return_count prog) ≡ length (returns_of prog fn)
      → IsDistinct (returns_of prog fn)
      → ((p : ℕ) → leaks_at prog fn mfk ctx p ≡ true → contains (returns_of prog fn) p ≡ true)
      → (is_full (leak_positions ctx) ≡ true) ↔ LeaksAtEveryReturn ctx
  is_full_iff ctx counted distinct within =
      let ps = leak_positions ctx in
      let rs = returns_of prog fn in
      let known : (p : ℕ) → contains ps p ≡ leaks_at prog fn mfk ctx p =
        contains-return_positions prog fn mfk ctx in
      let collected = (return_positions-IsCollected prog fn mfk ctx).distinct in
      let subset : IsSubset ps rs = λ p m. within p (ground (arith, known p, m)) in
      (
        λ full. (
          λ none_left.
              let empty : length rs ≡ 0 = ap length none_left in
              ground (arith, full, counted, empty),
          λ p m.
              let found : contains ps p ≡ true =
                subset_of_length-eq ps rs collected subset (ground (arith, full, counted)) p m in
              ground (arith, known p, found),
        ),
        λ (some_return, leaks).
            let back : IsSubset rs ps = λ p m. ground (arith, known p, leaks p m) in
            let le : length ps ≤ length rs = length-le_of_subset ps rs collected subset in
            let ge : length rs ≤ length ps = length-le_of_subset rs ps distinct back in
            elim (List-cases rs) [
              | inl empty ↦ absurd (some_return empty)
              | inr (r, more, e) ↦
                  let positive : length rs ≡ suc (length more) = ap length e in
                  ground (arith, le, ge, counted, positive)
            ],
      )

-- `computeReturnsHolding` marks a function of the package as an acquire helper for a lock exactly
-- if it returns at all and leaks the lock at each of its returns, or was marked before: provided
-- that no function is listed twice, the function's returns have different positions, and its leaks
-- were recorded at its returns.
pub compute_returns_holding_lem :
    (prog : Program) (ctx : PassContext) (fn : ℕ) (mfk : MutexFieldKey)
    → IsDistinct prog.src_funcs
    → contains prog.src_funcs fn ≡ true
    → IsDistinct (returns_of prog fn)
    → ((p : ℕ) → leaks_at prog fn mfk ctx p ≡ true → contains (returns_of prog fn) p ≡ true)
    → (returns_holding prog fn mfk (compute_returns_holding prog ctx) ≡ true)
      ↔ ((returns_holding prog fn mfk ctx ≡ true) ⊎ LeaksAtEveryReturn prog fn mfk ctx)
compute_returns_holding_lem prog ctx fn mfk listed_once listed distinct within =
    let counted = count_at-return_count prog fn listed_once listed in
    let full = is_full_iff prog fn mfk ctx counted distinct within in
    let computed = returns_holding-compute prog fn mfk ctx in
    (
      λ h. elim (Bool-cases (returns_holding prog fn mfk ctx)) [
        | inl before ↦ inl before
        | inr fresh ↦ inr (full.0 (ground (arith, h, computed, fresh)))
      ],
      λ s. elim s [
        | inl before ↦ ground (arith, before, computed)
        | inr all_leak ↦ ground (arith, full.1 all_leak, computed)
      ],
    )
