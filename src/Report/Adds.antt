-- ===== src/Report/Adds.antt =====
-- How a phase that only reports changes the pass: by the diagnostics that it appends.
use mathlib.Core.List.{Memᴰ}
use mathlib.Core.List.Memᴰ
use golintmu.Base.{
  ◌≡◌, refl, ap, sym, ◌∙◌, subst, ◌↔◌, ◌⊎◌, inl, inr, Bool, true, false, List, [], ◌∷◌, ◌++◌, fold,
  if◌then◌else◌,
}
use golintmu.Pass.{PassContext, Diagnostic}

append_nil : {A : Type 0} (xs : List A) → xs ++ [] ≡ xs
append_nil [] = refl
append_nil (x ∷ xs) = ap (λ l. x ∷ l) (append_nil xs)

pub append_assoc : {A : Type 0} (xs ys zs : List A) → (xs ++ ys) ++ zs ≡ xs ++ (ys ++ zs)
append_assoc [] ys zs = refl
append_assoc (x ∷ xs) ys zs = ap (λ l. x ∷ l) (append_assoc xs ys zs)

module _ (ctx : PassContext) where
  -- The pass with other diagnostics.
  abbrev pub reporting : List Diagnostic → PassContext
  reporting ds = record ctx { diagnostics = ds }

  -- A step that adds the diagnostics that `P` allows, and no other.
  abbrev pub Adds : (Diagnostic → Type 0) → List Diagnostic → PassContext → Type 0
  Adds P ds c =
      (new : List Diagnostic) × (c ≡ reporting (ds ++ new)) × ((d : Diagnostic) → Memᴰ d new ↔ P d)

  pub nothing :
      (P : Diagnostic → Type 0) (ds : List Diagnostic) (c : PassContext)
      → c ≡ reporting ds
      → ((d : Diagnostic) → ¬ P d)
      → Adds P ds c
  nothing P ds c e h = (
    [],
    e ∙ ap reporting (sym (append_nil ds)),
    λ d. (λ m. absurd (Memᴰ.not-nil m), λ p. absurd (h d p)),
  )

  pub one :
      (P : Diagnostic → Type 0) (ds : List Diagnostic) (c : PassContext) (d : Diagnostic)
      → c ≡ reporting (ds ++ d ∷ [])
      → P d
      → ((d' : Diagnostic) → P d' → d' ≡ d)
      → Adds P ds c
  one P ds c d e p unique = (
    d ∷ [],
    e,
    λ d'. (λ m. subst P (sym (Memᴰ.eq_of_singleton m)) p, λ p'. Memᴰ.head (unique d' p')),
  )

  -- A step that reports `d` if the test `b` holds.
  pub when-Adds :
      (P : Diagnostic → Type 0) (ds : List Diagnostic) (c : PassContext) (b : Bool) (d : Diagnostic)
      → c ≡ (if b then reporting (ds ++ d ∷ []) else reporting ds)
      → (b ≡ true → P d)
      → ((d' : Diagnostic) → P d' → (b ≡ true) × (d' ≡ d))
      → Adds P ds c
  when-Adds P ds c true d e p unique = one P ds c d e (p refl) (λ d' p'. (unique d' p').1)
  when-Adds P ds c false d e p unique = nothing P ds c e (λ d' p'. cc ((unique d' p').0))

  -- Two steps, one after the other.
  pub then-Adds :
      (P Q : Diagnostic → Type 0) (f g : PassContext → PassContext)
      → ((ds : List Diagnostic) → Adds P ds (f (reporting ds)))
      → ((ds : List Diagnostic) → Adds Q ds (g (reporting ds)))
      → (ds : List Diagnostic) → Adds (λ d. P d ⊎ Q d) ds (g (f (reporting ds)))
  then-Adds P Q f g first second ds =
      let (new, e, here) = first ds in
      let (more, e', there) = second (ds ++ new) in
      (
        new ++ more,
        ap g e ∙ e' ∙ ap reporting (append_assoc ds new more),
        λ d. (
          λ m. elim (Memᴰ.append_cases new m) [
            | inl k ↦ inl ((here d).0 k)
            | inr k ↦ inr ((there d).0 k)
          ],
          λ s. elim s [
            | inl p ↦ Memᴰ.append_left more ((here d).1 p)
            | inr q ↦ Memᴰ.append_right new ((there d).1 q)
          ],
        ),
      )

  -- The same step and the same diagnostics, said otherwise.
  pub Adds-iff :
      (P Q : Diagnostic → Type 0) (ds : List Diagnostic) (c c' : PassContext)
      → c' ≡ c
      → ((d : Diagnostic) → P d ↔ Q d)
      → Adds P ds c
      → Adds Q ds c'
  Adds-iff P Q ds c c' same h (new, e, here) =
      (new, same ∙ e, λ d. (λ m. (h d).0 ((here d).0 m), λ q. (here d).1 ((h d).1 q)))

  pub fold-Adds :
      {A : Type 0} (f : PassContext → A → PassContext) (Q : A → Diagnostic → Type 0) (l : List A)
      → ((a : A) (ds : List Diagnostic) → Adds (Q a) ds (f (reporting ds) a))
      → (ds : List Diagnostic) → Adds (λ d. (a : A) × Memᴰ a l × Q a d) ds (fold f (reporting ds) l)
  fold-Adds f Q [] step ds =
      nothing (λ d. (a : _) × Memᴰ a [] × Q a d) ds (reporting ds) refl
        (λ d (a, m, q). Memᴰ.not-nil m)
  fold-Adds f Q (x ∷ l) step ds =
      let (new, e, here) = step x ds in
      let (more, e', there) = fold-Adds f Q l step (ds ++ new) in
      (
        new ++ more,
        ap (λ c. fold f c l) e ∙ e' ∙ ap reporting (append_assoc ds new more),
        λ d. (
          λ m. elim (Memᴰ.append_cases new m) [
            | inl first ↦ (x, Memᴰ.head refl, (here d).0 first)
            | inr rest ↦ let (a, k, q) = (there d).0 rest in (a, Memᴰ.tail k, q)
          ],
          λ (a, k, q). elim (Memᴰ.cases_cons k) [
            | inl same ↦ Memᴰ.append_left more ((here d).1 (subst (λ b. Q b d) same q))
            | inr rest ↦ Memᴰ.append_right new ((there d).1 (a, rest, q))
          ],
        ),
      )
