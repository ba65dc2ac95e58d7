-- ===== src/Calls/Reasons.antt =====
-- What the explanations of pkg/analyzer/reporter.go say: the loop of `formatRequirementReasons`.
use mathlib.Core.List.{Memᴰ}
use golintmu.Base.{
  ◌≡◌, refl, subst, ◌⊎◌, inl, inr, ℕ, suc, ◌*◌, ◌≤◌, List, [], ◌∷◌, ◌++◌, ◌==◌, nat_eq, arith,
  Bool-cases, Option-cases, List-cases, lookup, lookup_list, fold, length, leb, length-append,
}
use golintmu.Ssa.{Program}
use golintmu.Pass.{PassContext, MutexFieldKey, RequirementOrigin, Reason}
use golintmu.Pass.Reason.{blank}
use golintmu.Pass.Keys.{MutexFieldKey_eq}
use golintmu.Calls.{max_depth, format_single_origin, add_chain, format_requirement_reasons}
use golintmu.Calls.Origins.{Explains, length-format_single_origin, format_single_origin-Explains}

module _ (prog : Program) (ctx : PassContext) (mfk : MutexFieldKey) where
  -- The explanations of `fn`, with empty lines in between.
  pub data Chains (fn : ℕ) : List Reason → Type 0 where
    no_chain : Chains fn []
    one_chain : {chain : List Reason} → Explains prog ctx mfk fn chain → Chains fn chain
    next_chain :
        {lines chain : List Reason}
        → Chains fn lines
        → Explains prog ctx mfk fn chain
        → Chains fn ((lines ++ blank ∷ []) ++ chain)

  -- What holds of the lines and the number of chains so far.
  record IsPrefix (limit fn : ℕ) (s : List Reason × ℕ) : Type 0 where
    in_limit : s.1 ≤ limit
    in_bound : length s.0 ≤ s.1 * 6
    explained : Chains fn s.0

  add_chain-IsPrefix :
      (limit fn : ℕ) (explain : RequirementOrigin → List Reason) (s : List Reason × ℕ)
      (origin : RequirementOrigin)
      → (explain origin ≡ []) ⊎ Explains prog ctx mfk fn (explain origin)
      → length (explain origin) ≤ 5
      → IsPrefix limit fn s
      → IsPrefix limit fn (add_chain limit explain s origin)
  unfolding add_chain
  add_chain-IsPrefix limit fn explain (lines, chains) origin why short p =
      elim (Bool-cases (leb limit chains)) [
        | inl full ↦ subst (IsPrefix limit fn) {x = (lines, chains)} (ground (arith, full)) p
        | inr free ↦ elim (List-cases (explain origin)) [
          | inl silent ↦
              subst (IsPrefix limit fn) {x = (lines, chains)} (ground (arith, free, silent)) p
          | inr (line, chain, e) ↦
              let because : Explains prog ctx mfk fn (line ∷ chain) = elim why [
                | inl silent ↦ absurd (cc (e, silent))
                | inr x ↦ subst (Explains prog ctx mfk fn) e x
              ] in
              elim (Bool-cases (chains == 0)) [
                | inl first ↦ elim (List-cases lines) [
                  | inl empty ↦
                      subst (IsPrefix limit fn) {x = (line ∷ chain, suc chains)}
                        (ground (arith, free, e, first, empty))
                        (record {
                          in_limit = ground (arith, free);
                          in_bound = ground (arith, e, short);
                          explained = one_chain because;
                        })
                  | inr (l, ls, more) ↦ absurd (ground (arith, p.in_bound, more, first))
                ]
                | inr other ↦
                    subst (IsPrefix limit fn)
                      {x = ((lines ++ blank ∷ []) ++ line ∷ chain, suc chains)}
                      (ground (arith, free, e, other))
                      (record {
                        in_limit = ground (arith, free);
                        in_bound = ground (
                          arith,
                          e,
                          short,
                          p.in_bound,
                          length-append (lines ++ blank ∷ []) (line ∷ chain),
                          length-append lines (blank ∷ []),
                        );
                        explained = next_chain p.explained because;
                      })
              ]
        ]
      ]

  fold-IsPrefix :
      (limit fn : ℕ) (explain : RequirementOrigin → List Reason) (s : List Reason × ℕ)
      (origins : List RequirementOrigin)
      → ((origin : RequirementOrigin)
          → Memᴰ origin origins
          → (explain origin ≡ []) ⊎ Explains prog ctx mfk fn (explain origin))
      → ((origin : RequirementOrigin) → length (explain origin) ≤ 5)
      → IsPrefix limit fn s
      → IsPrefix limit fn (fold (add_chain limit explain) s origins)
  fold-IsPrefix limit fn explain s [] why short p = p
  fold-IsPrefix limit fn explain s (origin ∷ origins) why short p =
      fold-IsPrefix limit fn explain (add_chain limit explain s origin) origins
        (λ o m. why o (Memᴰ.tail m)) short
        (add_chain-IsPrefix limit fn explain s origin (why origin (Memᴰ.head refl)) (short origin)
          p)

-- What `formatRequirementReasons` answers for a function, a lock and a limit on the chains: a
-- sequence of explanations with empty lines in between, each of which starts at the function and
-- follows recorded origins of the requirement, call by call, to an access or to where it is cut
-- off; and at most six lines for each chain that the limit allows.
pub format_requirement_reasons_lem :
    (prog : Program) (ctx : PassContext) (fn : ℕ) (mfk : MutexFieldKey) (limit : ℕ)
    → Chains prog ctx mfk fn (format_requirement_reasons prog ctx fn mfk limit)
      × (length (format_requirement_reasons prog ctx fn mfk limit) ≤ limit * 6)
unfolding format_requirement_reasons
format_requirement_reasons_lem prog ctx fn mfk limit =
    elim (Option-cases (lookup fn ctx.func_facts)) [
      | inl unknown ↦
          subst (λ lines. Chains prog ctx mfk fn lines × (length lines ≤ limit * 6)) {x = []}
            (ground (arith, unknown)) (no_chain, omega arith)
      | inr (facts, found) ↦
          let explain = format_single_origin prog max_depth ctx mfk fn in
          let end =
            fold-IsPrefix prog ctx mfk limit fn explain ([], 0)
              (lookup_list mfk facts.requires_origin)
              (λ origin m.
                format_single_origin-Explains prog ctx mfk max_depth fn origin (facts, found, m))
              (length-format_single_origin prog ctx mfk max_depth fn)
              (record { in_limit = omega arith; in_bound = omega arith; explained = no_chain }) in
          subst (λ lines. Chains prog ctx mfk fn lines × (length lines ≤ limit * 6))
            (ground (arith, found)) (end.explained, ground (arith, end.in_bound, end.in_limit))
    ]
