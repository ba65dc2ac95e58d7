-- ===== src/Resolver/Phi.antt =====
-- What the unwrapping of phi nodes in pkg/analyzer/resolver.go keeps.
use golintmu.Base.{
  ℕ, zero, suc, ◌≡◌, refl, ◌∙◌, true, false, Option, none, some, List, [], ◌∷◌, inl, inr, arith,
  ◌==◌, nat_eq, >>=-eq-some, contains, add, Bool-cases, Option-cases,
}
use golintmu.Ssa.{Program, Value, phi}
use golintmu.Resolver.{uniform, unwrap_visited, unwrap_fuel, unwrap_ssa_value}

-- The values that an execution gives to the names: a phi has the value of one of its edges.
abbrev pub IsRun : Program → (ℕ → ℕ) → Type 0
IsRun prog run =
    (v : ℕ) (edges : List ℕ)
    → prog.value_of v ≡ phi edges
    → (e : ℕ) × (contains edges e ≡ true) × (run v ≡ run e)

module _ (run : ℕ → ℕ) where
  -- If all edges unwrap to one value, each edge has its value.
  uniform_sound :
      (unwrap : ℕ → List ℕ → Option (ℕ × List ℕ))
      → ((v : ℕ) (marked : List ℕ) (u : ℕ) (m' : List ℕ)
          → unwrap v marked ≡ some (u, m')
          → run v ≡ run u)
      → (edges : List ℕ) (unique : Option ℕ) (marked : List ℕ) (u : ℕ) (m' : List ℕ)
      → uniform unwrap edges unique marked ≡ some (some u, m')
      → ((w : ℕ) → unique ≡ some w → w ≡ u) × ((e : ℕ) → contains edges e ≡ true → run e ≡ run u)
  unfolding uniform
  uniform_sound unwrap sound [] unique marked u m' h = (λ w k. cc, λ e k. absurd (cc))
  uniform_sound unwrap sound (x ∷ edges) none marked u m' h =
      let ((y, m), first, rest) = >>=-eq-some (unwrap x marked) _ h in
      let (same, others) = uniform_sound unwrap sound edges (some y) m u m' rest in
      (λ w k. absurd (cc), λ e k. ground (arith, others e, same y refl, sound x marked y m first))
  uniform_sound unwrap sound (x ∷ edges) (some w) marked u m' h =
      let ((y, m), first, rest) = >>=-eq-some (unwrap x marked) _ h in
      elim (Bool-cases (w == y)) [
        | inl agree ↦
            let (same, others) =
              uniform_sound unwrap sound edges (some w) m u m' (rw agree at rest) in
            (
              λ w' k. same w' k,
              λ e k. ground (arith, others e, same w refl, sound x marked y m first),
            )
        | inr differ ↦ absurd (ground arith)
      ]

  module _ (prog : Program) (is_run : IsRun prog run) where
    abbrev UnwrapSound : ℕ → Type 0
    UnwrapSound fuel =
        (v : ℕ) (marked : List ℕ) (u : ℕ) (m' : List ℕ)
        → unwrap_visited prog fuel v marked ≡ some (u, m')
        → run v ≡ run u

    UnwrapSound-phi :
        (fuel v : ℕ) (marked edges : List ℕ) (u : ℕ) (m' : List ℕ)
        → UnwrapSound fuel
        → prog.value_of v ≡ phi edges
        → contains marked v ≡ false
        → unwrap_visited prog (suc fuel) v marked ≡ some (u, m')
        → run v ≡ run u
    unfolding unwrap_visited
    UnwrapSound-phi fuel v marked edges u m' ih e new h =
        let ((resolved, m), inner, rest) =
          >>=-eq-some (uniform (unwrap_visited prog fuel) edges none (add v marked)) _
            (rw (e, unwrap_visited, new) at h) in
        by_resolved resolved m inner rest
      where
        by_resolved :
            (resolved : Option ℕ) (m : List ℕ)
            → uniform (unwrap_visited prog fuel) edges none (add v marked) ≡ some (resolved, m)
            → ◌≡◌ {A = Option (ℕ × List ℕ)}
                (elim resolved [ none ↦ some (v, m) | some w ↦ unwrap_visited prog fuel w m ])
                (some (u, m'))
            → run v ≡ run u
        by_resolved none m inner rest = cc
        by_resolved (some w) m inner rest =
            let (edge, is_edge, same) = is_run v edges e in
            same
            ∙ (uniform_sound (unwrap_visited prog fuel) ih edges none (add v marked) w m inner).1
                edge is_edge
            ∙ ih w m u m' rest

    unwrap_sound : (fuel : ℕ) → UnwrapSound fuel
    unfolding unwrap_visited
    unwrap_sound zero v marked u m' h = cc
    unwrap_sound (suc fuel) v marked u m' h = by_value (prog.value_of v) refl (unwrap_sound fuel)
      where
        by_value : (x : Value) → prog.value_of v ≡ x → UnwrapSound fuel → run v ≡ run u
        by_value (phi edges) e ih = elim (Bool-cases (contains marked v)) [
          | inl old ↦ ground (arith, e, old)
          | inr new ↦ UnwrapSound-phi fuel v marked edges u m' ih e new h
        ]
        by_value _ e ih = ground (arith, e)

    -- In a run where each phi has the value of one of its edges, `unwrapSSAValue` answers with a
    -- name for the same value.
    pub unwrap_ssa_value-same : (v : ℕ) → run v ≡ run (unwrap_ssa_value prog v)
    unfolding unwrap_ssa_value
    unwrap_ssa_value-same v = elim (Option-cases (unwrap_visited prog (unwrap_fuel prog) v [])) [
      | inl out ↦ rw (out, unwrap_ssa_value)
      | inr ((u, m), found) ↦
          rw (found, unwrap_ssa_value) (unwrap_sound (unwrap_fuel prog) v [] u m found)
    ]
