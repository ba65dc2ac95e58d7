-- ===== src/Inference/Guard.antt =====
-- The guards of pkg/analyzer/inference.go, against the votes of the observations.
use golintmu.Base.{
  ℕ, ◌<◌, ◌≡◌, ◌≢◌, ap, ◌∙◌, subst, ◌↔◌, Bool, true, false, ◌⊎◌, inl, inr, Option, none, some, List,
  [], ◌∷◌, arith, ◌==◌, nat_eq, Option-cases, Map, lookup, any,
}
use mathlib.Core.Option
use golintmu.Pass.{FieldKey, GuardInfo, Observation, HeldMutexField}
use golintmu.Pass.Keys.{FieldKey_eq}
use golintmu.Inference.{pick_most_frequent_mutex, count_mutexes, has_write_under, infer_field_guard}
use golintmu.Inference.Best.{AtLeast, pick_best_lem, positive_of_lookup}
use golintmu.Inference.Count.{
  votes, votes_fields, votes_self, votes-writes-le, IsCount, count_mutexes-IsCount,
  count_of-count_mutexes,
}

-- `i` has a vote; no other has more, and none before it has as many.
abbrev pub IsMostFrequent : FieldKey → Bool → List Observation → ℕ → Type 0
IsMostFrequent key writes_only observations i =
    (0 < votes key writes_only observations i)
    × ((j : ℕ)
        → AtLeast (i, votes key writes_only observations i)
            (j, votes key writes_only observations j))

module _ (key : FieldKey) (writes_only : Bool) (observations : List Observation) where
  abbrev counts : Map ℕ ℕ
  counts = count_mutexes key writes_only observations []

  counts-IsCount : IsCount counts
  counts-IsCount =
      count_mutexes-IsCount key writes_only observations []
        (record { distinct = tt; positive = tt })

  pick_most_frequent_mutex_sound :
      ((i : ℕ)
        → pick_most_frequent_mutex key observations writes_only ≡ some i
        → IsMostFrequent key writes_only observations i)
      × (pick_most_frequent_mutex key observations writes_only ≡ none
          → (j : ℕ) → votes key writes_only observations j ≡ 0)
  unfolding pick_most_frequent_mutex
  pick_most_frequent_mutex_sound =
      let (found, absent) = pick_best_lem counts counts-IsCount.distinct counts-IsCount.positive in
      let count = count_of-count_mutexes key writes_only observations [] in
      (
        λ i h.
            let (c, at, best) = found i h in
            (
              ground (arith, count i, positive_of_lookup counts i c counts-IsCount.positive at),
              λ j. elim (Option-cases (lookup j counts)) [
                | inl none_j ↦ ground (
                  arith,
                  count i,
                  count j,
                  positive_of_lookup counts i c counts-IsCount.positive at,
                )
                | inr (d, e) ↦ ground (arith, count i, count j, best j d e)
              ],
            ),
        λ h j. ground (arith, count j, absent h j),
      )

  -- `pickMostFrequentMutex` answers with the mutex that most of the observations, or of the
  -- writes, hold, and the lowest field index among equals; it answers -1 exactly if none of them
  -- holds a mutex other than the field. So the order of Go's map does not matter.
  pub pick_most_frequent_mutex_lem :
      ((i : ℕ)
        → (pick_most_frequent_mutex key observations writes_only ≡ some i)
          ↔ IsMostFrequent key writes_only observations i)
      × ((pick_most_frequent_mutex key observations writes_only ≡ none)
          ↔ ((j : ℕ) → votes key writes_only observations j ≡ 0))
  pick_most_frequent_mutex_lem =
      let (found, absent) = pick_most_frequent_mutex_sound in
      (
        λ i. (
          found i,
          λ h. elim (Option-cases (pick_most_frequent_mutex key observations writes_only)) [
            | inl no_best ↦ absurd (omega (arith, absent no_best i, h.0))
            | inr (k, best) ↦
                let (pos, most) = found k best in
                let same : k ≡ i = ground (arith, most i, h.1 k) in best ∙ ap some same
          ],
        ),
        (
          absent,
          λ h. elim (Option-cases (pick_most_frequent_mutex key observations writes_only)) [
            | inl no_best ↦ no_best
            | inr (k, best) ↦ absurd (omega (arith, h k, (found k best).0))
          ],
        ),
      )

held_any :
    (self b : ℕ) (fields : List HeldMutexField)
    → b ≢ self
    → (any (λ hmf. hmf.field_index == b) fields ≡ true) ↔ (0 < votes_fields self fields b)
held_any self b [] h = (λ k. absurd (cc), λ k. absurd (omega arith))
held_any self b (hmf ∷ fields) h = ground (arith, held_any self b fields h)

-- Some write holds mutex `b` exactly if `b` has a vote among the writes.
has_write_under-votes :
    (key : FieldKey) (b : ℕ) (observations : List Observation)
    → b ≢ key.field_index
    → (has_write_under b observations ≡ true) ↔ (0 < votes key true observations b)
unfolding has_write_under
has_write_under-votes key b [] h = (λ k. absurd (cc), λ k. absurd (omega arith))
has_write_under-votes key b (obs ∷ observations) h = ground (
  arith,
  held_any key.field_index b obs.same_base_mutex_fields h,
  has_write_under-votes key b observations h,
)

ne_self :
    (key : FieldKey) (w : Bool) (observations : List Observation) (b : ℕ)
    → 0 < votes key w observations b
    → b ≢ key.field_index
ne_self key w observations b h e =
    let z : votes key w observations b ≡ 0 = rw e (votes_self key w observations) in
    absurd (omega arith)

module _ (key : FieldKey) (observations : List Observation) where
  abbrev guard_by : ℕ → GuardInfo
  guard_by b = record { mutex_field_index = b; needs_exclusive = has_write_under b observations }

  infer-writes :
      (b : ℕ)
      → pick_most_frequent_mutex key observations true ≡ some b
      → infer_field_guard key observations ≡ some (guard_by b)
  unfolding infer_field_guard
  infer-writes b w = rw (w, infer_field_guard)

  infer-every :
      (o : Option ℕ)
      → pick_most_frequent_mutex key observations true ≡ none
      → pick_most_frequent_mutex key observations false ≡ o
      → infer_field_guard key observations ≡ Option.map guard_by o
  unfolding infer_field_guard
  infer-every none w e = ground (arith, w, e)
  infer-every (some b) w e = ground (arith, w, e)

  -- What a guard is, by the two phases.
  abbrev IsGuard : GuardInfo → Type 0
  IsGuard g =
      ((g.needs_exclusive ≡ true) × IsMostFrequent key true observations g.mutex_field_index)
      ⊎ ((g.needs_exclusive ≡ false)
          × ((j : ℕ) → votes key true observations j ≡ 0)
          × IsMostFrequent key false observations g.mutex_field_index)

  writes-IsGuard :
      (b : ℕ) → pick_most_frequent_mutex key observations true ≡ some b → IsGuard (guard_by b)
  writes-IsGuard b w =
      let most = ((pick_most_frequent_mutex_lem key true observations).0 b).0 w in
      inl (
        (has_write_under-votes key b observations (ne_self key true observations b most.0)).1
            most.0,
        most,
      )

  every-IsGuard :
      (b : ℕ)
      → pick_most_frequent_mutex key observations true ≡ none
      → pick_most_frequent_mutex key observations false ≡ some b
      → IsGuard (guard_by b)
  every-IsGuard b w e =
      let most = ((pick_most_frequent_mutex_lem key false observations).0 b).0 e in
      let no_write = (pick_most_frequent_mutex_lem key true observations).1.0 w in
      inr (
        ground (
          arith,
          no_write b,
          has_write_under-votes key b observations (ne_self key false observations b most.0),
        ),
        no_write,
        most,
      )

  infer-cases :
      ((b : ℕ) × (infer_field_guard key observations ≡ some (guard_by b))
        × IsGuard (guard_by b)
        × (0 < votes key false observations b))
      ⊎ ((infer_field_guard key observations ≡ none)
          × ((j : ℕ) → votes key false observations j ≡ 0))
  infer-cases = elim (Option-cases (pick_most_frequent_mutex key observations true)) [
    | inr (b, w) ↦
        let most = ((pick_most_frequent_mutex_lem key true observations).0 b).0 w in
        inl (
          b,
          infer-writes b w,
          writes-IsGuard b w,
          omega (arith, votes-writes-le key observations b, most.0),
        )
    | inl w ↦ elim (Option-cases (pick_most_frequent_mutex key observations false)) [
      | inr (b, e) ↦
          let most = ((pick_most_frequent_mutex_lem key false observations).0 b).0 e in
          inl (b, infer-every (some b) w e, every-IsGuard b w e, most.0)
      | inl e ↦
          inr (infer-every none w e, (pick_most_frequent_mutex_lem key false observations).1.0 e)
    ]
  ]

IsMostFrequent-unique :
    (key : FieldKey) (w : Bool) (observations : List Observation) (i j : ℕ)
    → IsMostFrequent key w observations i
    → IsMostFrequent key w observations j
    → i ≡ j
IsMostFrequent-unique key w observations i j p q = ground (arith, p.1 j, q.1 i)

IsGuard-unique :
    (key : FieldKey) (observations : List Observation) (g h : GuardInfo)
    → IsGuard key observations g
    → IsGuard key observations h
    → g ≡ h
IsGuard-unique key observations g h (inl (x, p)) (inl (y, q)) =
    let i = IsMostFrequent-unique key true observations _ _ p q in cc
IsGuard-unique key observations g h (inr (x, _, p)) (inr (y, _, q)) =
    let i = IsMostFrequent-unique key false observations _ _ p q in cc
IsGuard-unique key observations g h (inl (x, p)) (inr (y, none_written, q)) =
    absurd (omega (arith, none_written g.mutex_field_index, p.0))
IsGuard-unique key observations g h (inr (x, none_written, p)) (inl (y, q)) =
    absurd (omega (arith, none_written h.mutex_field_index, q.0))

no-IsGuard :
    (key : FieldKey) (observations : List Observation)
    → ((j : ℕ) → votes key false observations j ≡ 0)
    → (g : GuardInfo) → ¬ (IsGuard key observations g)
no-IsGuard key observations z g (inl (x, p)) =
    omega (arith, z g.mutex_field_index, votes-writes-le key observations g.mutex_field_index, p.0)
no-IsGuard key observations z g (inr (x, _, p)) = omega (arith, z g.mutex_field_index, p.0)

-- What `inferFieldGuard` answers. If some write holds a mutex, the guard is the most frequent
-- mutex of the writes, and must be held exclusively. Otherwise it is the most frequent of all
-- observations, and a shared hold is enough. There is none exactly if no observation holds a
-- mutex other than the field.
pub infer_field_guard_lem :
    (key : FieldKey) (observations : List Observation)
    → ((g : GuardInfo)
        → (infer_field_guard key observations ≡ some g) ↔ (
            ((g.needs_exclusive ≡ true) × IsMostFrequent key true observations g.mutex_field_index)
            ⊎ ((g.needs_exclusive ≡ false)
                × ((j : ℕ) → votes key true observations j ≡ 0)
                × IsMostFrequent key false observations g.mutex_field_index)))
      × ((infer_field_guard key observations ≡ none)
          ↔ ((j : ℕ) → votes key false observations j ≡ 0))
infer_field_guard_lem key observations = elim (infer-cases key observations) [
  | inl (b, found, is_guard, pos) ↦ (
    λ g. (
      λ h.
          let same : guard_by key observations b ≡ g = cc in
          subst (IsGuard key observations) same is_guard,
      λ h. found ∙ ap some (IsGuard-unique key observations _ g is_guard h),
    ),
    (λ h. absurd (cc), λ h. absurd (omega (arith, h b))),
  )
  | inr (absent, zero_votes) ↦ (
    λ g. (λ h. absurd (cc), λ h. absurd (no-IsGuard key observations zero_votes g h)),
    (λ _. zero_votes, λ _. absent),
  )
]
