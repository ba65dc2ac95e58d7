-- ===== src/Inference/Store.antt =====
-- `inferGuards` of pkg/analyzer/inference.go: which guards the pass stores.
use golintmu.Base.{
  or_else, ◌≡◌, refl, ◌↔◌, true, false, not, inl, inr, Option, none, some, List, [], ◌∷◌, arith,
  Option-cases, List-cases, Map, lookup, insert, keys, IsDistinct, lookup-insert, keep,
  lookup_of_not-has,
}
use golintmu.Ssa.{Program}
use golintmu.Pass.{PassContext, FieldKey, GuardInfo, Observation}
use golintmu.Pass.Keys.{FieldKey_eq}
use golintmu.Inference.{
  is_constructor_like, is_local_type, is_immutable_field, infer_field_guard, candidate_guard,
  store_guards, infer_guards,
}

module _ (prog : Program) where
  -- The guard that the observations of a field give, if there are any.
  abbrev pub observed_guard : FieldKey → Option (List Observation) → Option GuardInfo
  observed_guard key none = none
  observed_guard key (some observations) = candidate_guard prog key observations

  lookup-store_guards :
      (m : Map FieldKey (List Observation)) (guards : Map FieldKey GuardInfo) (key : FieldKey)
      → IsDistinct (keys m)
      → lookup key (store_guards prog m guards)
        ≡ or_else (observed_guard key (lookup key m)) (lookup key guards)
  unfolding store_guards
  lookup-store_guards [] guards key d = refl
  lookup-store_guards ((k, observations) ∷ m) guards key d =
      elim (Option-cases (candidate_guard prog k observations)) [
        | inl no_guard ↦
            rw (no_guard, store_guards)
              (ground
                (arith, no_guard, lookup-store_guards m guards key d.1, lookup_of_not-has k m d.0))
        | inr (g, found) ↦
            rw (found, store_guards)
              (ground (
                arith,
                found,
                lookup-store_guards m (insert k g guards) key d.1,
                lookup-insert k key g guards,
                lookup_of_not-has k m d.0,
              ))
      ]

  -- The observations that are not of a constructor.
  abbrev pub relevant : FieldKey → List Observation → List Observation
  relevant key = keep (λ obs. not (is_constructor_like prog obs.fn key.struct_type))

  -- A field has a candidate exactly if its type is local, some access outside the constructors is
  -- a write, and `inferFieldGuard` finds one among the accesses outside the constructors.
  candidate_guard_iff :
      (key : FieldKey) (observations : List Observation) (g : GuardInfo)
      → (candidate_guard prog key observations ≡ some g) ↔ (
          (is_local_type prog key.struct_type ≡ true)
          × (is_immutable_field (relevant key observations) ≡ false)
          × (infer_field_guard key (relevant key observations) ≡ some g))
  unfolding candidate_guard is_immutable_field
  candidate_guard_iff key observations g = elim (List-cases (relevant key observations)) [
    | inl empty ↦ ground (arith, empty)
    | inr (x, rest, e) ↦ ground (arith, e)
  ]

-- Where the map of observations has each field once: `inferGuards` stores a guard for a field exactly if the field was observed, its type is local,
-- an access outside the constructors writes it, and `inferFieldGuard` finds a guard in the
-- accesses outside the constructors. For all other fields the guards stay as they were, so those
-- imported from other packages are kept.
pub infer_guards_lem :
    (prog : Program) (ctx : PassContext) (key : FieldKey)
    → IsDistinct (keys ctx.observations)
    → (lookup key (infer_guards prog ctx).guards
        ≡ or_else (observed_guard prog key (lookup key ctx.observations)) (lookup key ctx.guards))
      × ((g : GuardInfo)
          → (observed_guard prog key (lookup key ctx.observations) ≡ some g) ↔ (
              (observations : List Observation) × (lookup key ctx.observations ≡ some observations)
              × (is_local_type prog key.struct_type ≡ true)
              × (is_immutable_field (relevant prog key observations) ≡ false)
              × (infer_field_guard key (relevant prog key observations) ≡ some g)))
unfolding infer_guards
infer_guards_lem prog ctx key d = (
  lookup-store_guards prog ctx.observations ctx.guards key d,
  λ g. elim (Option-cases (lookup key ctx.observations)) [
    | inl unseen ↦ (λ h. absurd (ground (arith, unseen)), λ (obs, at, _, _, _). absurd (cc))
    | inr (obs, at) ↦ (
      λ h.
          let (l, m, i) = (candidate_guard_iff prog key obs g).0 (rw at at h) in (obs, at, l, m, i),
      λ (obs', at', l, m, i). rw at' ((candidate_guard_iff prog key obs' g).1 (l, m, i)),
    )
  ],
)
