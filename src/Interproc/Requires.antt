-- ===== src/Interproc/Requires.antt =====
-- The first loop of `propagateRequirements`: the requirements that it leaves are the least that
-- the call sites ask for.
use golintmu.Base.{
  ℕ, ◌≡◌, subst, Bool, true, false, not, ◌&&◌, ◌||◌, inl, inr, List, [], ◌∷◌, arith, ◌==◌,
  if◌then◌else◌, nat_eq, pair_eq, Bool-cases, contains, contains-add, fold, any, keep,
}
use golintmu.Base.Fixpoint.{
  Derivable, derived, AllOf, AllOf-contains, of_AllOf, AllMarked, Progress, IsJob, fold-step,
}
use golintmu.Ssa.{Program}
use golintmu.Pass.{PassContext, MutexFieldKey, CallSiteRecord, FuncLockFacts}
use golintmu.Pass.Keys.{MutexFieldKey_eq}
use golintmu.FuncFacts.{func_facts_of, func_facts_of-update, add_requires}
use golintmu.Interproc.{
  caller_holds_mutex, is_pre_publication_constructor_call, add_origin, propagate_to, propagate_from,
}

-- A function requires a lock.
unfoldable pub requires : PassContext → ℕ × MutexFieldKey → Bool
requires ctx (fn, mfk) = contains (func_facts_of ctx fn).requires mfk

add_origin-requires :
    (k : MutexFieldKey) (g pos : ℕ) (f : FuncLockFacts)
    → (add_origin k g pos f).requires ≡ f.requires
unfolding add_origin
add_origin-requires k g pos f = ground arith

module _ (prog : Program) where
  -- The call site does not satisfy the requirement.
  abbrev pub passes : CallSiteRecord → MutexFieldKey → Bool
  passes cs mfk = not (caller_holds_mutex cs mfk || is_pre_publication_constructor_call prog cs)

  -- What the callee requires, the caller requires too: some call site passes it on.
  abbrev pub asks : List CallSiteRecord → ℕ × MutexFieldKey → ℕ × MutexFieldKey → Bool
  asks sites (g, k) (f, k') =
      k == k' && any (λ cs. cs.callee == g && (cs.caller == f && passes cs k)) sites

  requires-propagate_to :
      (g : ℕ) (k : MutexFieldKey) (s : PassContext × Bool) (cs : CallSiteRecord)
      (x : ℕ × MutexFieldKey)
      → requires (propagate_to prog g k s cs).0 x
        ≡ ((passes cs k && (cs.caller == x.0 && k == x.1)) || requires s.0 x)
  unfolding requires propagate_to
  requires-propagate_to g k (ctx, ch) cs (f, k') = elim (Bool-cases ctx.verbose) [
    | inl on ↦ ground (
      arith,
      on,
      func_facts_of-update ctx cs.caller f
          (λ h. if ctx.verbose then add_origin k g cs.pos (add_requires k h) else add_requires k h),
      add_origin-requires k g cs.pos (add_requires k (func_facts_of ctx cs.caller)),
      contains-add k k' (func_facts_of ctx cs.caller).requires,
    )
    | inr off ↦ ground (
      arith,
      off,
      func_facts_of-update ctx cs.caller f
          (λ h. if ctx.verbose then add_origin k g cs.pos (add_requires k h) else add_requires k h),
      contains-add k k' (func_facts_of ctx cs.caller).requires,
    )
  ]

  changed-propagate_to :
      (g : ℕ) (k : MutexFieldKey) (s : PassContext × Bool) (cs : CallSiteRecord)
      → (propagate_to prog g k s cs).1 ≡ ((passes cs k && not (requires s.0 (cs.caller, k))) || s.1)
  unfolding requires propagate_to
  changed-propagate_to g k (ctx, ch) cs = ground arith

  module _ (sites : List CallSiteRecord) (start : ℕ × MutexFieldKey → Bool) where
    abbrev pub Required : ℕ × MutexFieldKey → Type 0
    Required = Derivable start (asks sites)

    -- The call site is one of them.
    abbrev IsSite : CallSiteRecord → Type 0
    IsSite cs = (p : CallSiteRecord → Bool) → p cs ≡ true → any p sites ≡ true

    -- The call site has passed the requirement on.
    abbrev pub Passed : MutexFieldKey → CallSiteRecord → (ℕ × MutexFieldKey → Bool) → Type 0
    Passed k cs m = passes cs k ≡ true → m (cs.caller, k) ≡ true

    propagate_to-step :
        (g : ℕ) (k : MutexFieldKey) (cs : CallSiteRecord)
        → Required (g, k)
        → IsSite cs
        → cs.callee ≡ g
        → (s : PassContext × Bool) → AllMarked requires Required s.0
        → Progress requires Required s (propagate_to prog g k s cs)
          × ((propagate_to prog g k s cs).1 ≡ false → Passed k cs (requires s.0))
    propagate_to-step g k cs req is_site callee s all =
        let marks = requires-propagate_to g k s cs in
        let changed = changed-propagate_to g k s cs in
        (
          record {
            sound = λ x m. elim (Bool-cases (requires s.0 x)) [
              | inl old ↦ all x old
              | inr new ↦
                  let caller : cs.caller ≡ x.0 = ground (arith, marks x) in
                  let same : k ≡ x.1 = ground (arith, marks x) in
                  let here : Required (cs.caller, k) = derived req (
                    ground (
                      arith,
                      marks x,
                      is_site (λ c. c.callee == g && (c.caller == cs.caller && passes c k))
                          (ground (arith, marks x)),
                    )) in
                  subst (λ (f : ℕ). Required (f, x.1)) caller
                    (subst (λ (j : MutexFieldKey). Required (cs.caller, j)) same here)
            ];
            grows = λ x m. ground (arith, marks x);
            same = λ e. (ground (arith, changed), λ (f, j). ground (arith, changed, marks (f, j)));
            fresh = λ e. elim (Bool-cases s.1) [
              | inl before ↦ inl before
              | inr before ↦ inr (
                (cs.caller, k),
                ground (arith, changed),
                ground (arith, changed, marks (cs.caller, k)),
              )
            ];
          },
          λ e h. ground (arith, changed),
        )

    -- The call sites of `g`, in order.
    abbrev pub of_callee : ℕ → List CallSiteRecord → List CallSiteRecord
    of_callee g = keep (λ cs. cs.callee == g)

    abbrev pub PassedAll : ℕ → MutexFieldKey → (ℕ × MutexFieldKey → Bool) → Type 0
    PassedAll g k m = AllOf (λ cs. Passed k cs m) (of_callee g sites)

    AllOf-of_callee :
        (g : ℕ) (P : CallSiteRecord → Type 0) (l : List CallSiteRecord)
        → ((cs : CallSiteRecord) → IsSite cs → cs.callee ≡ g → P cs)
        → AllOf IsSite l
        → AllOf P (of_callee g l)
    AllOf-of_callee g P [] f h = tt
    AllOf-of_callee g P (cs ∷ l) f h = elim (Bool-cases (cs.callee == g)) [
      | inl same ↦ rw same (f cs h.0 (ground arith), AllOf-of_callee g P l f h.1)
      | inr other ↦ rw other (AllOf-of_callee g P l f h.1)
    ]

    AllOf-IsSite :
        (l : List CallSiteRecord)
        → ((p : CallSiteRecord → Bool) → any p l ≡ true → any p sites ≡ true)
        → AllOf IsSite l
    AllOf-IsSite [] f = tt
    AllOf-IsSite (cs ∷ l) f =
        (λ p h. f p (ground (arith, h)), AllOf-IsSite l (λ p h. f p (ground (arith, h))))

    -- The innermost loop.
    to_sites-step :
        (g : ℕ) (k : MutexFieldKey)
        → Required (g, k)
        → (s : PassContext × Bool) → AllMarked requires Required s.0
        → Progress requires Required s (fold (propagate_to prog g k) s (of_callee g sites))
          × ((fold (propagate_to prog g k) s (of_callee g sites)).1 ≡ false
              → PassedAll g k (requires s.0))
    to_sites-step g k req =
        fold-step requires Required (propagate_to prog g k) (Passed k) (of_callee g sites) (
          AllOf-of_callee g (IsJob requires Required (propagate_to prog g k) (Passed k)) sites
            (λ cs is_site callee. propagate_to-step g k cs req is_site callee)
            (AllOf-IsSite sites (λ p h. h)))

    abbrev pub Settled : ℕ → (ℕ × MutexFieldKey → Bool) → Type 0
    Settled g m = (k : MutexFieldKey) → m (g, k) ≡ true → PassedAll g k m

    pub propagate_from-step :
        (g : ℕ) → IsJob requires Required (propagate_from prog sites) Settled g
    unfolding propagate_from requires
    propagate_from-step g s all =
        let (p, done) =
          fold-step requires Required (λ t k. fold (propagate_to prog g k) t (of_callee g sites))
            (PassedAll g) (func_facts_of s.0 g).requires
            (AllOf-contains
              (IsJob requires Required (λ t k. fold (propagate_to prog g k) t (of_callee g sites))
                (PassedAll g))
              (func_facts_of s.0 g).requires (λ k m. to_sites-step g k (all (g, k) m)))
            s all in
        (
          p,
          λ e k m.
              of_AllOf (λ j. PassedAll g j (requires s.0)) (func_facts_of s.0 g).requires k (done e)
                m,
        )

    -- A call site that asks is among those of its callee.
    pub asks-PassedAll :
        (g f : ℕ) (k : MutexFieldKey) (m : ℕ × MutexFieldKey → Bool) (l : List CallSiteRecord)
        → AllOf (λ cs. Passed k cs m) (of_callee g l)
        → any (λ cs. cs.callee == g && (cs.caller == f && passes cs k)) l ≡ true
        → m (f, k) ≡ true
    asks-PassedAll g f k m [] h a = absurd (cc)
    asks-PassedAll g f k m (cs ∷ l) h a = elim (Bool-cases (cs.callee == g)) [
      | inr other ↦ asks-PassedAll g f k m l (rw other at h) (ground (arith, other))
      | inl same ↦
          let (first, rest) = rw same at h in
          elim (Bool-cases (cs.caller == f && passes cs k)) [
            | inr not_this ↦ asks-PassedAll g f k m l rest (ground (arith, same, not_this))
            | inl this ↦
                let caller : cs.caller ≡ f = ground (arith, this) in
                subst (λ (x : ℕ). m (x, k) ≡ true) caller (first (ground (arith, this)))
          ]
    ]
