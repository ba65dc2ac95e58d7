-- ===== src/Inference/Best.antt =====
-- The choice of `pickMostFrequentMutex`: the highest count, and the lowest index among equals.
use golintmu.Base.{
  ℕ, ◌≤◌, ◌<◌, ◌≡◌, refl, ap, ◌∙◌, true, ◌||◌, ◌&&◌, ◌⊎◌, inl, inr, Option, none, some, [], ◌∷◌,
  arith, ◌==◌, nat_eq, Bool-cases, Option-cases, lookup, Map, keys, IsDistinct, fold, ltb,
  lookup_of_not-has,
}
use golintmu.Inference.{better, pick_best}

-- An index and its count are no worse than another's.
abbrev pub AtLeast : ℕ × ℕ → ℕ × ℕ → Type 0
AtLeast (i, c) (j, d) = (d < c) ⊎ ((d ≡ c) × (i ≤ j))

-- The loop's state has an index that is no worse.
abbrev Holds : Option ℕ × ℕ → ℕ × ℕ → Type 0
Holds r e = (i : ℕ) × (r.0 ≡ some i) × AtLeast (i, r.1) e

abbrev pub IsPositive : Map ℕ ℕ → Type 0
IsPositive [] = Unit
IsPositive ((_, c) ∷ m) = (0 < c) × IsPositive m

-- With no index yet the count is 0.
abbrev IsStarted : Option ℕ × ℕ → Type 0
IsStarted s = s.0 ≡ none → s.1 ≡ 0

better-IsStarted : (s : Option ℕ × ℕ) (e : ℕ × ℕ) → IsStarted s → IsStarted (better s e)
unfolding better
better-IsStarted (none, c) (j, d) h = ground (arith, h refl)
better-IsStarted (some b, c) (j, d) h = ground arith

better-new : (s : Option ℕ × ℕ) (e : ℕ × ℕ) → IsStarted s → 0 < e.1 → Holds (better s e) e
unfolding better
better-new (none, c) (j, d) h pos = let z : c ≡ 0 = h refl in (j, ground arith, ground arith)
better-new (some b, c) (j, d) h pos = elim (Bool-cases (ltb c d || (d == c && ltb j b))) [
  | inl new ↦ (j, rw (new, better), ground (arith, new))
  | inr old ↦ (b, rw (old, better), ground (arith, old))
]

better-old : (s : Option ℕ × ℕ) (e : ℕ × ℕ) (i : ℕ) → s.0 ≡ some i → Holds (better s e) (i, s.1)
unfolding better
better-old (none, c) (j, d) i h = absurd (cc)
better-old (some b, c) (j, d) i h =
    let same : b ≡ i = cc in
    elim (Bool-cases (ltb c d || (d == c && ltb j b))) [
      | inl new ↦ (j, rw (new, better), ground (arith, new))
      | inr old ↦ (b, rw (old, better), ground (arith, old))
    ]

AtLeast-trans : (x y z : ℕ × ℕ) → AtLeast x y → AtLeast y z → AtLeast x z
AtLeast-trans (i, c) (j, d) (k, e) p q = ground arith

Holds-trans : (r : Option ℕ × ℕ) (y z : ℕ × ℕ) → Holds r y → AtLeast y z → Holds r z
Holds-trans r y z (i, at, p) q = (i, at, AtLeast-trans (i, r.1) y z p q)

fold-old :
    (m : Map ℕ ℕ) (s : Option ℕ × ℕ) (i : ℕ) → s.0 ≡ some i → Holds (fold better s m) (i, s.1)
fold-old [] s i h = (i, h, ground arith)
fold-old (e ∷ m) s i h =
    let (k, at, p) = better-old s e i h in
    Holds-trans (fold better (better s e) m) (k, (better s e).1) (i, s.1)
      (fold-old m (better s e) k at) p

fold-best :
    (m : Map ℕ ℕ) (s : Option ℕ × ℕ) (j d : ℕ)
    → IsStarted s
    → IsPositive m
    → lookup j m ≡ some d
    → Holds (fold better s m) (j, d)
fold-best [] s j d h pos at = absurd (cc)
fold-best ((k, c) ∷ m) s j d h pos at = elim (Bool-cases (k == j)) [
  | inl same ↦
      let (i, here, p) = better-new s (k, c) h pos.0 in
      let e : AtLeast (k, c) (j, d) = ground arith in
      Holds-trans (fold better (better s (k, c)) m) (k, c) (j, d)
        (Holds-trans (fold better (better s (k, c)) m) (i, (better s (k, c)).1) (k, c)
          (fold-old m (better s (k, c)) i here) p)
        e
  | inr other ↦ fold-best m (better s (k, c)) j d (better-IsStarted s (k, c) h) pos.1 (ground arith)
]

better-known : (s : Option ℕ × ℕ) (e : ℕ × ℕ) → (better s e ≡ s) ⊎ (better s e ≡ (some e.0, e.1))
unfolding better
better-known (o, c) (j, d) =
    elim (Bool-cases (ltb c d || (d == c && elim o [ none ↦ true | some b ↦ ltb j b ]))) [
      | inl new ↦ inr (rw (new, better))
      | inr old ↦ inl (rw (old, better))
    ]

-- The loop ends with its first state, or with an entry of the map.
fold-known :
    (m : Map ℕ ℕ) (s : Option ℕ × ℕ)
    → IsDistinct (keys m)
    → (fold better s m ≡ s) ⊎ ((i c : ℕ) × (fold better s m ≡ (some i, c)) × (lookup i m ≡ some c))
fold-known [] s d = inl refl
fold-known ((k, c) ∷ m) s d = elim (fold-known m (better s (k, c)) d.1) [
  | inr (i, n, at, found) ↦ inr (i, n, at, ground (arith, lookup_of_not-has k m d.0))
  | inl same ↦ elim (better-known s (k, c)) [
    | inl old ↦ inl (same ∙ old)
    | inr new ↦ inr (k, c, same ∙ new, ground arith)
  ]
]

pub positive_of_lookup : (m : Map ℕ ℕ) (j d : ℕ) → IsPositive m → lookup j m ≡ some d → 0 < d
positive_of_lookup [] j d pos e = absurd (cc)
positive_of_lookup ((k, c) ∷ m) j d pos e = ground (arith, positive_of_lookup m j d pos.1)

-- The index chosen has the highest count, and is the lowest index with that count. There is none
-- only if the map is empty.
pub pick_best_lem :
    (m : Map ℕ ℕ)
    → IsDistinct (keys m)
    → IsPositive m
    → ((i : ℕ)
        → pick_best m ≡ some i
        → (c : ℕ) × (lookup i m ≡ some c)
          × ((j d : ℕ) → lookup j m ≡ some d → AtLeast (i, c) (j, d)))
      × (pick_best m ≡ none → (j : ℕ) → lookup j m ≡ none)
unfolding pick_best
pick_best_lem m distinct pos = (
  λ i h. elim (fold-known m (none, 0) distinct) [
    | inl same ↦ absurd (cc)
    | inr (k, c, at, found) ↦
        let same : k ≡ i = cc in
        let count : (fold better (none, 0) m).1 ≡ c = ap (λ (r : Option ℕ × ℕ). r.1) at in
        (
          c,
          rw (← same) found,
          λ j d e.
              let (b, is_best, p) = fold-best m (none, 0) j d (λ _. refl) pos e in
              let same' : b ≡ i = cc in rw (← same', ← count) p,
        )
  ],
  λ h j. elim (Option-cases (lookup j m)) [
    | inl absent ↦ absent
    | inr (d, e) ↦ let (b, is_best, p) = fold-best m (none, 0) j d (λ _. refl) pos e in absurd (cc)
  ],
)
