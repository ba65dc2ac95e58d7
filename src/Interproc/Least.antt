-- ===== src/Interproc/Least.antt =====
-- The loops of `propagateRequirements` as a whole.
use golintmu.Base.{
  ℕ, zero, suc, ◌<◌, ◌≡◌, refl, sym, ◌∙◌, subst, ◌↔◌, Bool, true, false, not, inl, inr, List, [],
  ◌∷◌, arith, nat_eq, pair_eq, Option-cases, Bool-cases, contains, fold, keys, lookup,
  lookup_of_not-has, length, length-keep-le,
}
use golintmu.Base.Fixpoint.{
  Derivable, given, derived, repeat, AllOf-every, of_AllOf, AllMarked, Progress, fold-step,
  IsClosed, repeat_sound, repeat-IsClosed, IsJob,
}
use golintmu.Ssa.{Program}
use golintmu.Pass.{PassContext, MutexFieldKey, CallSiteRecord, FuncLockFacts}
use golintmu.Pass.Keys.{MutexFieldKey_eq}
use golintmu.FuncFacts.{
  func_facts_of, update_func_facts, func_facts_of-update, add_acquires_transitive,
}
use golintmu.Interproc.{
  propagate_from, requires_round, max_iterations, acquires_at, acquires_round, start_transitive,
  propagate_requirements,
}
use golintmu.Interproc.Requires.{requires, asks, Settled, propagate_from-step, asks-PassedAll}

-- A function with requirements has facts.
has-requires :
    (ctx : PassContext) (g : ℕ) (k : MutexFieldKey)
    → requires ctx (g, k) ≡ true
    → contains (keys ctx.func_facts) g ≡ true
unfolding requires func_facts_of
has-requires ctx g k m = elim (Bool-cases (contains (keys ctx.func_facts) g)) [
  | inl in_facts ↦ in_facts
  | inr out ↦ absurd (ground (arith, lookup_of_not-has g ctx.func_facts out))
]

module _ (prog : Program) (sites : List CallSiteRecord) (start : ℕ × MutexFieldKey → Bool) where
  -- One iteration.
  requires_round-step :
      (ctx : PassContext)
      → AllMarked requires (Derivable start (asks prog sites)) ctx
      → Progress requires
          (Derivable start (asks prog sites))
          (ctx, false)
          (requires_round prog sites ctx)
        × ((requires_round prog sites ctx).1 ≡ false
            → IsClosed requires (Derivable start (asks prog sites)) (asks prog sites) ctx)
  unfolding requires_round
  requires_round-step ctx all =
      let D = Derivable start (asks prog sites) in
      let (p, done) =
        fold-step requires D (propagate_from prog sites) (Settled prog sites start)
          (keys ctx.func_facts)
          (AllOf-every (IsJob requires D (propagate_from prog sites) (Settled prog sites start))
            (keys ctx.func_facts) (propagate_from-step prog sites start))
          (ctx, false) all in
      (
        p,
        λ e (g, k) (f, k') a m. elim (Bool-cases (contains (keys ctx.func_facts) g)) [
          | inr out ↦ absurd (ground (arith, has-requires ctx g k m))
          | inl in_facts ↦
              let settled =
                of_AllOf (λ h. Settled prog sites start h (requires ctx)) (keys ctx.func_facts) g
                  (done e) in_facts in
              let same : k ≡ k' = ground arith in
              subst (λ (j : MutexFieldKey). requires ctx (f, j) ≡ true) same
                (asks-PassedAll prog sites start g f k (requires ctx) sites (settled k m)
                  (ground arith))
        ],
      )

-- The second loop leaves the requirements.
requires-update :
    (ctx : PassContext) (fn : ℕ) (f : FuncLockFacts → FuncLockFacts) (x : ℕ × MutexFieldKey)
    → ((h : FuncLockFacts) → (f h).requires ≡ h.requires)
    → requires (update_func_facts ctx fn f) x ≡ requires ctx x
unfolding requires
requires-update ctx fn f (g, k) same =
    ground (arith, func_facts_of-update ctx fn g f, same (func_facts_of ctx fn))

-- A loop whose body keeps the requirements keeps them.
requires-fold :
    {A S : Type 0} (at : S → PassContext) (body : S → A → S) (l : List A) (s : S)
    (x : ℕ × MutexFieldKey)
    → ((t : S) (a : A) → requires (at (body t a)) x ≡ requires (at t) x)
    → requires (at (fold body s l)) x ≡ requires (at s) x
requires-fold at body [] s x same = refl
requires-fold at body (a ∷ l) s x same = requires-fold at body l (body s a) x same ∙ same s a

module _ (prog : Program) where
  requires-acquires_at :
      (s : PassContext × Bool) (cs : CallSiteRecord) (x : ℕ × MutexFieldKey)
      → requires (acquires_at prog s cs).0 x ≡ requires s.0 x
  unfolding acquires_at
  requires-acquires_at (ctx, ch) cs x = elim (Option-cases (lookup cs.callee ctx.func_facts)) [
    | inl e ↦ rw (acquires_at, e) refl
    | inr (facts, e) ↦
        rw (acquires_at, e)
          (requires-fold (λ (s : PassContext × Bool). s.0) _ facts.acquires_transitive
              (update_func_facts ctx cs.caller (λ f. f), ch) x
              (λ t k. requires-update t.0 cs.caller (add_acquires_transitive k) x (λ h. refl))
            ∙ requires-update ctx cs.caller (λ f. f) x (λ h. refl))
  ]

  requires-repeat :
      (n : ℕ) (sites : List CallSiteRecord) (s : PassContext × Bool) (x : ℕ × MutexFieldKey)
      → requires (repeat n (acquires_round prog sites) s).0 x ≡ requires s.0 x
  unfolding repeat acquires_round
  requires-repeat zero sites s x = refl
  requires-repeat (suc n) sites (ctx, false) x = refl
  requires-repeat (suc n) sites (ctx, true) x =
      requires-repeat n sites (acquires_round prog sites ctx) x
      ∙ requires-fold (λ (s : PassContext × Bool). s.0) (acquires_at prog) sites (ctx, false) x
          (λ t cs. requires-acquires_at t cs x)

  requires-start_transitive :
      (ctx : PassContext) (x : ℕ × MutexFieldKey)
      → requires (start_transitive prog ctx) x ≡ requires ctx x
  unfolding start_transitive
  requires-start_transitive ctx x =
      requires-fold (λ c. c) _ (keys ctx.func_facts) ctx x
        (λ c fn. requires-update c fn _ x (λ h. refl))

module _ (prog : Program) (ctx : PassContext) where
  -- What the call sites ask for, from the requirements that the functions have at the start.
  abbrev pub IsAskedFor : ℕ × MutexFieldKey → Type 0
  IsAskedFor = Derivable (requires ctx) (asks prog ctx.call_sites)

  requires-propagate :
      (x : ℕ × MutexFieldKey)
      → requires (propagate_requirements prog ctx) x
        ≡ requires (repeat max_iterations (requires_round prog ctx.call_sites) (ctx, true)).0 x
  unfolding propagate_requirements
  requires-propagate x =
      let first = (repeat max_iterations (requires_round prog ctx.call_sites) (ctx, true)).0 in
      requires-repeat prog max_iterations ctx.call_sites (start_transitive prog first, true) x
      ∙ requires-start_transitive prog first x

  sound_and_kept :
      ((x : ℕ × MutexFieldKey) → requires (propagate_requirements prog ctx) x ≡ true → IsAskedFor x)
      × ((x : ℕ × MutexFieldKey)
          → requires ctx x ≡ true
          → requires (propagate_requirements prog ctx) x ≡ true)
  sound_and_kept =
      let (sound, grows) =
        repeat_sound requires IsAskedFor max_iterations (requires_round prog ctx.call_sites)
          (ctx, true) (λ t all. (requires_round-step prog ctx.call_sites (requires ctx) t all).0)
          (λ x m. given m) in
      (λ x m. sound x (sym (requires-propagate x) ∙ m), λ x m. requires-propagate x ∙ grows x m)

  -- Whatever number of iterations the loop takes, a function that requires a lock after
  -- `propagateRequirements` required it before, or calls, through a chain of call sites none of
  -- which holds the lock or is a constructor's call before it publishes the object, a function
  -- that did.
  pub propagate_requirements_sound :
      (x : ℕ × MutexFieldKey) → requires (propagate_requirements prog ctx) x ≡ true → IsAskedFor x
  propagate_requirements_sound = sound_and_kept.0

  derived-closed :
      (m : ℕ × MutexFieldKey → Bool) (x : ℕ × MutexFieldKey)
      → ((y : ℕ × MutexFieldKey) → requires ctx y ≡ true → m y ≡ true)
      → ((y z : ℕ × MutexFieldKey) → asks prog ctx.call_sites y z ≡ true → m y ≡ true → m z ≡ true)
      → IsAskedFor x
      → m x ≡ true
  derived-closed m x start closed (given s) = start x s
  derived-closed m y start closed (derived {x} d r) =
      closed x y r (derived-closed m x start closed d)

  -- When fewer than `maxIterations` pairs of a function and a lock can be asked for, a function
  -- requires a lock after `propagateRequirements` exactly if it required it before, or calls,
  -- through a chain of call sites none of which holds the lock or is a constructor's call before
  -- it publishes the object, a function that did.
  pub propagate_requirements_least :
      (universe : List (ℕ × MutexFieldKey))
      → ((x : ℕ × MutexFieldKey) → IsAskedFor x → contains universe x ≡ true)
      → length universe < max_iterations
      → (x : ℕ × MutexFieldKey) → requires (propagate_requirements prog ctx) x ≡ true ↔ IsAskedFor x
  propagate_requirements_least universe inside bound x = (
    propagate_requirements_sound x,
    λ d.
        requires-propagate x
        ∙ derived-closed
            (requires (repeat max_iterations (requires_round prog ctx.call_sites) (ctx, true)).0) x
            (λ y m. sym (requires-propagate y) ∙ sound_and_kept.1 y m)
            (repeat-IsClosed requires IsAskedFor (asks prog ctx.call_sites) universe max_iterations
              (requires_round prog ctx.call_sites) (ctx, true) inside
              (λ t all. requires_round-step prog ctx.call_sites (requires ctx) t all)
              (λ y m. given m) refl
              (omega (arith, bound, length-keep-le (λ y. not (requires ctx y)) universe)))
            d,
  )
