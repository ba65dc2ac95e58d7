-- ===== src/Base/Lists.antt =====
-- Lists by native numbers, and lists without repetition, which stand for Go's `map[T]bool`.
use Prim.Native.Nat.{ℕ, zero, suc, ◌+◌, ◌≤◌}
use mathlib.Core.Path.{◌≡◌, refl}
use mathlib.Core.Logic.{◌⊎◌, inl, inr}
use mathlib.Core.Bool.{Bool, true, false, ◌&&◌, ◌||◌}
use mathlib.Core.Option.{Option, none, some}
use mathlib.Core.List.{List, [], ◌∷◌, ◌++◌}
use native.Mathlib.Omega.{arith}
use golintmu.Base.Tests.{Eq, ◌==◌, if◌then◌else◌, Bool-cases}

module _ {ℓ} {A : Type ℓ} where
  abbrev pub length : List A → ℕ
  length [] = 0
  length (x ∷ xs) = suc (length xs)

  abbrev pub get_elem? : List A → ℕ → Option A
  get_elem? [] i = none
  get_elem? (x ∷ xs) zero = some x
  get_elem? (x ∷ xs) (suc i) = get_elem? xs i

  -- The elements that pass the test, in order.
  abbrev pub keep : (A → Bool) → List A → List A
  keep p [] = []
  keep p (x ∷ xs) = let rest = keep p xs in if p x then x ∷ rest else rest

  abbrev pub any : (A → Bool) → List A → Bool
  any p [] = false
  any p (x ∷ xs) = p x || any p xs

  abbrev pub all : (A → Bool) → List A → Bool
  all p [] = true
  all p (x ∷ xs) = p x && all p xs

  -- A `for range` loop over the state that its body changes.
  abbrev pub fold {κ} : {S : Type κ} → (S → A → S) → S → List A → S
  fold f s [] = s
  fold f s (x ∷ xs) = fold f (f s x) xs

  -- What a loop reads of its state, if each step adds one test to it.
  pub fold-any {κ} :
      {S : Type κ} (f : S → A → S) (test : A → Bool) (read : S → Bool)
      → ((s : S) (a : A) → read (f s a) ≡ (read s || test a))
      → (s : S) (l : List A) → read (fold f s l) ≡ (read s || any test l)
  fold-any f test read step s [] = ground arith
  fold-any f test read step s (x ∷ l) =
      ground (arith, fold-any f test read step (f s x) l, step s x)

  pub length-append : (xs ys : List A) → length (xs ++ ys) ≡ length xs + length ys
  length-append [] ys = omega arith
  length-append (x ∷ xs) ys = omega (arith, length-append xs ys)

  pub length-keep-le : (p : A → Bool) (xs : List A) → length (keep p xs) ≤ length xs
  length-keep-le p [] = omega arith
  length-keep-le p (x ∷ xs) = ground (arith, length-keep-le p xs)

  pub List-cases : (xs : List A) → (xs ≡ []) ⊎ ((x : A) × (rest : List A) × (xs ≡ x ∷ rest))
  List-cases [] = inl refl
  List-cases (x ∷ xs) = inr (x, xs, refl)

module _ {ℓ} {A : Type ℓ} ⦃e : Eq A⦄ where
  abbrev pub contains : List A → A → Bool
  contains [] a = false
  contains (x ∷ xs) a = x == a || contains xs a

  -- `m[a] = true`
  abbrev pub add : A → List A → List A
  add a xs = if contains xs a then xs else xs ++ a ∷ []

  abbrev pub IsDistinct : List A → Type 0
  IsDistinct [] = Unit
  IsDistinct (x ∷ xs) = (contains xs x ≡ false) × IsDistinct xs

  pub contains-append :
      (xs ys : List A) (a : A) → contains (xs ++ ys) a ≡ (contains xs a || contains ys a)
  contains-append [] ys a = refl
  contains-append (x ∷ xs) ys a = ground (arith, contains-append xs ys a)

  pub contains-add : (x a : A) (xs : List A) → contains (add x xs) a ≡ (x == a || contains xs a)
  contains-add x a xs = ground (arith, contains-append xs (x ∷ []) a)

  pub IsDistinct-concat :
      (xs : List A) (a : A) → IsDistinct xs → contains xs a ≡ false → IsDistinct (xs ++ a ∷ [])
  IsDistinct-concat [] a d h = (refl, tt)
  IsDistinct-concat (x ∷ xs) a d h =
      (ground (arith, contains-append xs (a ∷ []) x), IsDistinct-concat xs a d.1 (ground arith))

  pub IsDistinct-add : (a : A) (xs : List A) → IsDistinct xs → IsDistinct (add a xs)
  IsDistinct-add a xs d = ground (arith, IsDistinct-concat xs a d)

  pub contains-keep :
      (p : A → Bool) (xs : List A) (a : A) → contains (keep p xs) a ≡ (contains xs a && p a)
  contains-keep p [] a = refl
  contains-keep p (x ∷ xs) a = ground (arith, contains-keep p xs a)

  pub IsDistinct-keep : (p : A → Bool) (xs : List A) → IsDistinct xs → IsDistinct (keep p xs)
  IsDistinct-keep p [] d = tt
  IsDistinct-keep p (x ∷ xs) d = ground (arith, IsDistinct-keep p xs d.1, contains-keep p xs x)

  -- All of `xs` is in `ys`.
  abbrev pub IsSubset : List A → List A → Type ℓ
  IsSubset xs ys = (a : A) → contains xs a ≡ true → contains ys a ≡ true

  erase : A → List A → List A
  erase a [] = []
  erase a (x ∷ xs) = if x == a then xs else x ∷ erase a xs

  length-erase :
      (a : A) (xs : List A) → contains xs a ≡ true → suc (length (erase a xs)) ≡ length xs
  unfolding erase
  length-erase a [] h = cc
  length-erase a (x ∷ xs) h = ground (arith, length-erase a xs)

  contains-erase :
      (a b : A) (xs : List A)
      → contains xs b ≡ true
      → (a == b) ≡ false
      → contains (erase a xs) b ≡ true
  unfolding erase
  contains-erase a b [] h k = h
  contains-erase a b (x ∷ xs) h k = ground (arith, contains-erase a b xs)

  -- A list without repetition is no longer than a list that holds all of it.
  pub length-le_of_subset :
      (xs ys : List A) → IsDistinct xs → IsSubset xs ys → length xs ≤ length ys
  length-le_of_subset [] ys d s = omega arith
  length-le_of_subset (x ∷ xs) ys d s =
      let ih : length xs ≤ length (erase x ys) =
        length-le_of_subset xs (erase x ys) d.1
          (λ a h. contains-erase x a ys (s a (ground arith)) (ground arith)) in
      omega (arith, length-erase x ys (s x (ground arith)))

  -- If it is as long, the two hold the same elements.
  pub subset_of_length-eq :
      (xs ys : List A) → IsDistinct xs → IsSubset xs ys → length xs ≡ length ys → IsSubset ys xs
  subset_of_length-eq xs ys d s h a m = elim (Bool-cases (contains xs a)) [
    | inl old ↦ old
    | inr new ↦
        let le : suc (length xs) ≤ length ys =
          length-le_of_subset (a ∷ xs) ys (new, d)
            (λ b k. elim (Bool-cases (a == b)) [
              | inl p ↦ ground arith
              | inr p ↦ s b (ground arith)
            ]) in
        absurd (omega arith)
  ]
