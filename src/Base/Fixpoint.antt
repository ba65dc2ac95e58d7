-- ===== src/Base/Fixpoint.antt =====
-- Loops that mark until nothing changes: `for changed && i < limit`. A round goes through jobs,
-- each of which may mark more and say that it did.
use Prim.Native.Nat.{ℕ, zero, suc, ◌≤◌, ◌<◌}
use mathlib.Core.Path.{◌≡◌, refl, sym, ◌∙◌, subst, fun_ext}
use mathlib.Core.Logic.{◌⊎◌, inl, inr}
use mathlib.Core.Bool.{Bool, true, false, not}
use mathlib.Core.List.{List, [], ◌∷◌}
use native.Mathlib.Omega.{arith}
use golintmu.Base.Tests.{Eq, ◌==◌, Bool-cases}
use golintmu.Base.Lists.{length, keep, contains, fold}

-- What the rules derive from the start.
pub data Derivable {X : Type 0} (start : X → Bool) (rule : X → X → Bool) : X → Type 0 where
  given : {x : X} → start x ≡ true → Derivable start rule x
  derived : {x y : X} → Derivable start rule x → rule x y ≡ true → Derivable start rule y

-- The loop; `round` sets `changed` anew.
unfoldable pub repeat : {S : Type 0} → ℕ → (S → S × Bool) → S × Bool → S × Bool
repeat zero round s = s
repeat (suc n) round s = elim s.1 [ false ↦ s | true ↦ repeat n round (round s.0) ]

repeat-stop :
    {S : Type 0} (n : ℕ) (round : S → S × Bool) (s : S × Bool) → s.1 ≡ false → repeat n round s ≡ s
unfolding repeat
repeat-stop zero round s e = refl
repeat-stop (suc n) round (t, true) e = absurd (cc)
repeat-stop (suc n) round (t, false) e = refl

abbrev pub AllOf : {A : Type 0} → (A → Type 0) → List A → Type 0
AllOf P [] = Unit
AllOf P (x ∷ xs) = P x × AllOf P xs

pub AllOf-map :
    {A : Type 0} (P Q : A → Type 0) (xs : List A) → ((a : A) → P a → Q a) → AllOf P xs → AllOf Q xs
AllOf-map P Q [] f h = tt
AllOf-map P Q (x ∷ xs) f h = (f x h.0, AllOf-map P Q xs f h.1)

pub AllOf-every : {A : Type 0} (P : A → Type 0) (xs : List A) → ((a : A) → P a) → AllOf P xs
AllOf-every P [] f = tt
AllOf-every P (x ∷ xs) f = (f x, AllOf-every P xs f)

-- The conjunction with membership.
pub AllOf-contains :
    {A : Type 0} ⦃e : Eq A⦄ (P : A → Type 0) (xs : List A)
    → ((a : A) → contains xs a ≡ true → P a)
    → AllOf P xs
AllOf-contains P [] f = tt
AllOf-contains P (x ∷ xs) f = (f x (ground arith), AllOf-contains P xs (λ a m. f a (ground arith)))

pub of_AllOf :
    {A : Type 0} ⦃e : Eq A⦄ (P : A → Type 0) (xs : List A) (a : A)
    → AllOf P xs
    → contains xs a ≡ true
    → P a
of_AllOf P [] a h m = absurd (cc)
of_AllOf P (x ∷ xs) a h m = elim (Bool-cases (x == a)) [
  | inl same ↦ let k : x ≡ a = ground arith in subst P k h.0
  | inr other ↦ of_AllOf P xs a h.1 (ground arith)
]

module _ {S X : Type 0} (mark : S → X → Bool) (D : X → Type 0) where
  abbrev pub AllMarked : S → Type 0
  AllMarked s = (x : X) → mark s x ≡ true → D x

  pub record Progress (s s' : S × Bool) : Type 0 where
    pub sound : AllMarked s'.0
    pub grows : (x : X) → mark s.0 x ≡ true → mark s'.0 x ≡ true
    pub same : s'.1 ≡ false → (s.1 ≡ false) × ((x : X) → mark s'.0 x ≡ mark s.0 x)
    pub fresh : s'.1 ≡ true → (s.1 ≡ true) ⊎ ((x : X) × (mark s.0 x ≡ false) × (mark s'.0 x ≡ true))

  pub Progress-refl : (s : S × Bool) → AllMarked s.0 → Progress s s
  Progress-refl s all = record {
    sound = all;
    grows = λ x m. m;
    same = λ e. (e, λ x. refl);
    fresh = λ e. inl e;
  }

  pub Progress-trans : {s t u : S × Bool} → Progress s t → Progress t u → Progress s u
  Progress-trans {s} {t} {u} p q = record {
    sound = q.sound;
    grows = λ x m. q.grows x (p.grows x m);
    same = λ e.
        let (e', same') = q.same e in
        let (e'', same'') = p.same e' in (e'', λ x. same' x ∙ same'' x);
    fresh = λ e. elim (q.fresh e) [
      | inr (x, old, now) ↦ elim (Bool-cases (mark s.0 x)) [
        | inl before ↦ absurd (ground (arith, p.grows x))
        | inr before ↦ inr (x, before, now)
      ]
      | inl e' ↦ elim (p.fresh e') [
        | inl e'' ↦ inl e''
        | inr (x, old, now) ↦ inr (x, old, q.grows x now)
      ]
    ];
  }

  fold-Progress :
      {A : Type 0} (f : S × Bool → A → S × Bool) (xs : List A) (s : S × Bool)
      → AllOf (λ a. (t : S × Bool) → AllMarked t.0 → Progress t (f t a)) xs
      → AllMarked s.0
      → Progress s (fold f s xs)
  fold-Progress f [] s jobs all = Progress-refl s all
  fold-Progress f (a ∷ xs) s jobs all =
      let p = jobs.0 s all in Progress-trans p (fold-Progress f xs (f s a) jobs.1 p.sound)

  -- If a round ends with no change, each of its jobs found its marks in place.
  fold-Settled :
      {A : Type 0} (f : S × Bool → A → S × Bool) (Done : A → (X → Bool) → Type 0) (xs : List A)
      (s : S × Bool)
      → AllOf
          (λ a.
            (t : S × Bool)
            → AllMarked t.0
            → Progress t (f t a) × ((f t a).1 ≡ false → Done a (mark t.0)))
          xs
      → AllMarked s.0
      → (fold f s xs).1 ≡ false
      → AllOf (λ a. Done a (mark s.0)) xs
  fold-Settled f Done [] s jobs all e = tt
  fold-Settled {A} f Done (a ∷ xs) s jobs all e =
      let t = f s a in
      let (p, done) = jobs.0 s all in
      let q =
        fold-Progress f xs t
          (AllOf-map
            (λ (b : A).
              (u : S × Bool)
              → AllMarked u.0
              → Progress u (f u b) × ((f u b).1 ≡ false → Done b (mark u.0)))
            (λ b. (u : S × Bool) → AllMarked u.0 → Progress u (f u b)) xs (λ b h u k. (h u k).0)
            jobs.1)
          p.sound in
      let unchanged = (q.same e).0 in
      let marks : mark t.0 ≡ mark s.0 = fun_ext ((p.same unchanged).1) in
      (
        done unchanged,
        subst (λ m. AllOf (λ b. Done b m) xs) marks (fold-Settled f Done xs t jobs.1 p.sound e),
      )

  -- A job that makes progress, and that finds its marks in place if it changes nothing.
  abbrev pub IsJob :
      {A : Type 0} → (S × Bool → A → S × Bool) → (A → (X → Bool) → Type 0) → A → Type 0
  IsJob f Done a =
      (s : S × Bool) → AllMarked s.0 → Progress s (f s a) × ((f s a).1 ≡ false → Done a (mark s.0))

  pub fold-step :
      {A : Type 0} (f : S × Bool → A → S × Bool) (Done : A → (X → Bool) → Type 0) (xs : List A)
      → AllOf (IsJob f Done) xs
      → (s : S × Bool) → AllMarked s.0
      → Progress s (fold f s xs) × ((fold f s xs).1 ≡ false → AllOf (λ a. Done a (mark s.0)) xs)
  fold-step {A} f Done xs jobs s all = (
    fold-Progress f xs s
        (AllOf-map (IsJob f Done) (λ a. (t : S × Bool) → AllMarked t.0 → Progress t (f t a)) xs
          (λ a job t h. (job t h).0) jobs)
        all,
    fold-Settled f Done xs s jobs all,
  )

  -- How much of the universe is not marked.
  abbrev pub unmarked_of : List X → S → ℕ
  unmarked_of universe s = length (keep (λ x. not (mark s x)) universe)

  module _ ⦃eq : Eq X⦄ where
    pub unmarked_of-le :
        (universe : List X) (s t : S)
        → ((x : X) → mark s x ≡ true → mark t x ≡ true)
        → unmarked_of universe t ≤ unmarked_of universe s
    unmarked_of-le [] s t h = omega arith
    unmarked_of-le (x ∷ u) s t h = ground (arith, h x, unmarked_of-le u s t h)

    pub unmarked_of-lt :
        (universe : List X) (s t : S) (y : X)
        → ((x : X) → mark s x ≡ true → mark t x ≡ true)
        → contains universe y ≡ true
        → mark s y ≡ false
        → mark t y ≡ true
        → unmarked_of universe t < unmarked_of universe s
    unmarked_of-lt [] s t y h m old now = absurd (cc)
    unmarked_of-lt (x ∷ u) s t y h m old now = ground (
      arith,
      h x,
      unmarked_of-le u s t h,
      λ (k : contains u y ≡ true). unmarked_of-lt u s t y h k old now,
    )

    abbrev pub IsClosed : (X → X → Bool) → S → Type 0
    IsClosed rule s = (x y : X) → rule x y ≡ true → mark s x ≡ true → mark s y ≡ true

    -- With more rounds allowed than there are things to mark, the loop ends with marks that are
    -- closed under the rules; with fewer, its marks are still derived.
    pub repeat_sound :
        (n : ℕ) (round : S → S × Bool) (s : S × Bool)
        → ((t : S) → AllMarked t → Progress (t, false) (round t))
        → AllMarked s.0
        → AllMarked (repeat n round s).0
          × ((x : X) → mark s.0 x ≡ true → mark (repeat n round s).0 x ≡ true)
    unfolding repeat
    repeat_sound zero round s step all = (all, λ x m. m)
    repeat_sound (suc n) round (s, false) step all = (all, λ x m. m)
    repeat_sound (suc n) round (s, true) step all =
        let p = step s all in
        let (sound, grows) = repeat_sound n round (round s) step p.sound in
        (sound, λ x m. grows x (p.grows x m))

    pub repeat-IsClosed :
        (rule : X → X → Bool) (universe : List X) (n : ℕ) (round : S → S × Bool) (s : S × Bool)
        → ((x : X) → D x → contains universe x ≡ true)
        → ((t : S)
            → AllMarked t
            → Progress (t, false) (round t) × ((round t).1 ≡ false → IsClosed rule t))
        → AllMarked s.0
        → s.1 ≡ true
        → unmarked_of universe s.0 < n
        → IsClosed rule (repeat n round s).0
    unfolding repeat
    repeat-IsClosed rule u zero round s inside step all going h = absurd (omega arith)
    repeat-IsClosed rule u (suc n) round s inside step all going h =
        let (p, done) = step s.0 all in
        elim (Bool-cases (round s.0).1) [
          | inl changed ↦ elim (p.fresh changed) [
            | inl e ↦ absurd (cc)
            | inr (y, old, now) ↦
                rw (going, repeat)
                  (repeat-IsClosed rule u n round (round s.0) inside step p.sound changed (
                    omega (
                      arith,
                      unmarked_of-lt u s.0 (round s.0).0 y p.grows (inside y (p.sound y now)) old
                          now,
                    )))
          ]
          | inr stable ↦
              rw (going, repeat, repeat-stop n round (round s.0) stable)
                (λ x y r m.
                  let kept = (p.same stable).1 in kept y ∙ done stable x y r (sym (kept x) ∙ m))
        ]
