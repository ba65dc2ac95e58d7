-- ===== src/Resolver/Fuel.antt =====
-- The loops of pkg/analyzer/resolver.go end: `visited` and `seen` grow with each round, and there
-- are finitely many values.
use golintmu.Base.{
  ℕ, zero, suc, ◌≤◌, ◌<◌, ◌≡◌, refl, true, false, not, Option, none, some, List, [], ◌∷◌, inl, inr,
  arith, ◌==◌, nat_eq, ◌>>=◌, contains, add, Bool-cases, Option-cases, length-keep-le, unmarked,
  unmarked-add-lt,
}
use golintmu.Ssa.{Program, Value, Token, phi, unop, mul, arrow, other_token}
use golintmu.Resolver.{uniform, unwrap_visited, unwrap_fuel, unwrap_ssa_value, canonicalize_from}

-- `values` lists every phi and every operation.
pub record IsListed (prog : Program) : Type 0 where
  pub listed_phi :
      (v : ℕ) (edges : List ℕ) → prog.value_of v ≡ phi edges → contains prog.values v ≡ true
  pub listed_unop :
      (v : ℕ) (op : Token) (x : ℕ) → prog.value_of v ≡ unop op x → contains prog.values v ≡ true

-- A step that returns, with at most `n` values unmarked.
abbrev Returns {ℓ} : {A : Type ℓ} → List ℕ → ℕ → Option (A × List ℕ) → Type ℓ
Returns {A = A} values n m = (r : A × List ℕ) × (m ≡ some r) × (unmarked values r.1 ≤ n)

module _ (values : List ℕ) where
  uniform-Returns :
      (unwrap : ℕ → List ℕ → Option (ℕ × List ℕ)) (n : ℕ)
      → ((v : ℕ) (marked : List ℕ)
          → unmarked values marked ≤ n
          → Returns values (unmarked values marked) (unwrap v marked))
      → (edges : List ℕ) (unique : Option ℕ) (marked : List ℕ) → unmarked values marked ≤ n
      → Returns values (unmarked values marked) (uniform unwrap edges unique marked)
  unfolding uniform
  uniform-Returns unwrap n step [] unique marked h = ((unique, marked), refl, omega arith)
  uniform-Returns unwrap n step (e ∷ edges) none marked h =
      let ((v, marked'), returned, le) = step e marked h in
      let (r, rest, le') = uniform-Returns unwrap n step edges (some v) marked' (omega arith) in
      (r, rw (returned, ◌>>=◌) rest, omega arith)
  uniform-Returns unwrap n step (e ∷ edges) (some u) marked h =
      let ((v, marked'), returned, le) = step e marked h in
      let (r, rest, le') = uniform-Returns unwrap n step edges (some u) marked' (omega arith) in
      elim (Bool-cases (u == v)) [
        | inl same ↦ (r, rw (returned, ◌>>=◌, same) rest, omega arith)
        | inr differ ↦ ((none, marked'), rw (returned, ◌>>=◌, differ), le)
      ]

module _ (prog : Program) (listed : IsListed prog) where
  -- `unwrap_visited` with this fuel returns, whatever value it is given.
  abbrev UnwrapReturns : ℕ → Type 0
  UnwrapReturns fuel =
      (v : ℕ) (marked : List ℕ)
      → unmarked prog.values marked < fuel
      → Returns prog.values (unmarked prog.values marked) (unwrap_visited prog fuel v marked)

  UnwrapReturns-phi :
      (fuel v : ℕ) (marked edges : List ℕ)
      → UnwrapReturns fuel
      → prog.value_of v ≡ phi edges
      → contains marked v ≡ false
      → unmarked prog.values marked < suc fuel
      → Returns prog.values (unmarked prog.values marked) (unwrap_visited prog (suc fuel) v marked)
  unfolding unwrap_visited
  UnwrapReturns-phi fuel v marked edges ih e new h =
      let fewer : unmarked prog.values (add v marked) < unmarked prog.values marked =
        unmarked-add-lt prog.values marked v (listed.listed_phi v edges e) new in
      let (r, returned, le) =
        uniform-Returns prog.values (unwrap_visited prog fuel) (unmarked prog.values (add v marked))
          (λ u m k. ih u m (omega arith)) edges none (add v marked) (omega arith) in
      elim (Option-cases r.0) [
        | inl diverge ↦
            ((v, r.1), rw (e, unwrap_visited, new, returned, ◌>>=◌, diverge), omega arith)
        | inr (u, agree) ↦
            let (r', again, le') = ih u r.1 (omega arith) in
            (r', rw (e, unwrap_visited, new, returned, ◌>>=◌, agree) again, omega arith)
      ]

  unwrap_returns : (fuel : ℕ) → UnwrapReturns fuel
  unfolding unwrap_visited
  unwrap_returns zero v marked h = absurd (omega arith)
  unwrap_returns (suc fuel) v marked h = by_value (prog.value_of v) refl (unwrap_returns fuel)
    where
      by_value :
          (x : Value)
          → prog.value_of v ≡ x
          → UnwrapReturns fuel
          → Returns prog.values
              (unmarked prog.values marked)
              (unwrap_visited prog (suc fuel) v marked)
      by_value (phi edges) e ih = elim (Bool-cases (contains marked v)) [
        | inl old ↦ ((v, marked), rw (e, unwrap_visited, old), omega arith)
        | inr new ↦ UnwrapReturns-phi fuel v marked edges ih e new h
      ]
      by_value _ e ih = ((v, marked), rw (e, unwrap_visited), omega arith)

  -- Where `values` lists every phi and operation, `unwrapSSAValue` returns: its fuel is enough for each phi to be visited once.
  pub unwrap_total :
      (v : ℕ) → (r : ℕ × List ℕ) × (unwrap_visited prog (unwrap_fuel prog) v [] ≡ some r)
  unwrap_total v =
      let (r, returned, _) =
        unwrap_returns (unwrap_fuel prog) v []
          (omega (arith, length-keep-le (λ x. not (contains [] x)) prog.values)) in
      (r, returned)

  canonicalize_returns :
      (fuel v : ℕ) (seen : List ℕ)
      → unmarked prog.values seen < fuel
      → (w : ℕ) × (canonicalize_from prog fuel v seen ≡ some w)
  unfolding canonicalize_from
  canonicalize_returns zero v seen h = absurd (omega arith)
  canonicalize_returns (suc fuel) v seen h = elim (Bool-cases (contains seen v)) [
    | inl old ↦ (v, rw (old, canonicalize_from))
    | inr new ↦ by_value (prog.value_of v) refl (canonicalize_returns fuel) new
  ]
    where
      by_value :
          (x : Value)
          → prog.value_of v ≡ x
          → ((u : ℕ) (m : List ℕ)
              → unmarked prog.values m < fuel
              → (w : ℕ) × (canonicalize_from prog fuel u m ≡ some w))
          → contains seen v ≡ false
          → (w : ℕ) × (canonicalize_from prog (suc fuel) v seen ≡ some w)
      by_value (unop mul x) e ih new =
          let (w, returned) = ih (unwrap_ssa_value prog x) (add v seen) (
            omega (arith, unmarked-add-lt prog.values seen v (listed.listed_unop v mul x e) new)) in
          (w, rw (new, e, canonicalize_from) returned)
      by_value (unop arrow x) e ih new = (v, rw (new, e, canonicalize_from))
      by_value (unop other_token x) e ih new = (v, rw (new, e, canonicalize_from))
      by_value _ e ih new = (v, rw (new, e, canonicalize_from))

  -- Where `values` lists every phi and operation, the loop of `canonicalizeBase` returns within its
  -- fuel.
  pub canonicalize_total :
      (v : ℕ) → (w : ℕ) × (canonicalize_from prog (unwrap_fuel prog) v [] ≡ some w)
  canonicalize_total v =
      canonicalize_returns (unwrap_fuel prog) v []
        (omega (arith, length-keep-le (λ x. not (contains [] x)) prog.values))
