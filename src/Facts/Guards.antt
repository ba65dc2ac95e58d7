-- ===== src/Facts/Guards.antt =====
-- What `exportFieldGuardFacts` of pkg/analyzer/facts.go exports for one field.
use golintmu.Base.{
  ℕ, ◌≡◌, refl, ap, ◌∙◌, subst, inl, inr, Bool, true, false, ◌&&◌, Option, none, some, [], ◌∷◌,
  ◌==◌, ==_iff, if◌then◌else◌, nat_eq, arith, Map, keys, lookup, lookup-insert, insert-IsDistinct,
  contains, fold, IsDistinct, Bool-cases, Option-cases,
}
use golintmu.Ssa.{Program}
use golintmu.Inference.{is_local_type}
use golintmu.Pass.{PassContext, FieldKey, GuardInfo}
use golintmu.Pass.Keys.{FieldKey_eq}
use golintmu.Facts.{FieldGuardFact}
use golintmu.Facts.Import.{needs_exclusive_of}
use golintmu.Facts.Export.{
  TypeGuards, new_type_guards, add_guard, fact_of, facts_of, group_guard, export_field_guard_facts,
}

pub FieldKey_parts :
    (k j : FieldKey) → (k == j) ≡ (k.struct_type == j.struct_type && k.field_index == j.field_index)
FieldKey_parts k j = ground arith

-- What is recorded for a field.
abbrev Entry : Type 0
Entry = Option ℕ × Option Bool

abbrev entry : TypeGuards → ℕ → Entry
entry tg i = (lookup i tg.guards, lookup i tg.needs_exclusive)

abbrev entry_of : GuardInfo → Option Bool → Entry
entry_of guard before =
    (some guard.mutex_field_index, if guard.needs_exclusive then some true else before)

abbrev guards_at : ℕ → Map ℕ TypeGuards → TypeGuards
guards_at t m = elim (lookup t m) [ none ↦ new_type_guards | some tg ↦ tg ]

entry-add_guard :
    (key : FieldKey) (guard : GuardInfo) (tg : TypeGuards) (i : ℕ)
    → entry (add_guard key guard tg) i
      ≡ (if key.field_index == i then entry_of guard (lookup i tg.needs_exclusive) else entry tg i)
unfolding add_guard
entry-add_guard key guard tg i = ground (
  arith,
  lookup-insert key.field_index i guard.mutex_field_index tg.guards,
  lookup-insert key.field_index i true tg.needs_exclusive,
)

lookup-facts_of :
    (t : ℕ) (m : Map ℕ TypeGuards)
    → lookup t (facts_of m) ≡ elim (lookup t m) [ none ↦ none | some tg ↦ some (fact_of tg) ]
unfolding facts_of
lookup-facts_of t [] = refl
lookup-facts_of t ((s, tg) ∷ m) = ground (arith, lookup-facts_of t m)

module _ (prog : Program) where
  open prog use {type_exported}

  -- The guards of the type are exported.
  abbrev pub exports : ℕ → Bool
  exports t = is_local_type prog t && type_exported t

  module _ (key : FieldKey) where
    abbrev recorded : Map ℕ TypeGuards → Entry
    recorded m = entry (guards_at key.struct_type m) key.field_index

    recorded-group_guard :
        (m : Map ℕ TypeGuards) (k : FieldKey) (guard : GuardInfo)
        → recorded (group_guard prog m (k, guard)) ≡ (
            if exports key.struct_type && k == key
            then entry_of guard (recorded m).1
            else recorded m)
    unfolding group_guard
    recorded-group_guard m k guard =
        let split = FieldKey_parts k key in
        let tg = guards_at k.struct_type m in
        elim (Bool-cases (k.struct_type == key.struct_type)) [
          | inl same ↦
              let e : k.struct_type ≡ key.struct_type =
                (==_iff k.struct_type key.struct_type).0 same in
              ground (
                arith,
                split,
                same,
                e,
                lookup-insert k.struct_type key.struct_type (add_guard k guard tg) m,
                entry-add_guard k guard tg key.field_index,
              )
          | inr other ↦ ground (
            arith,
            split,
            other,
            lookup-insert k.struct_type key.struct_type (add_guard k guard tg) m,
          )
        ]

    recorded-absent :
        (m : Map ℕ TypeGuards) (l : Map FieldKey GuardInfo)
        → contains (keys l) key ≡ false
        → recorded (fold (group_guard prog) m l) ≡ recorded m
    recorded-absent m [] h = refl
    recorded-absent m ((k, guard) ∷ l) h = ground (
      arith,
      h,
      recorded-absent (group_guard prog m (k, guard)) l,
      recorded-group_guard m k guard,
    )

    -- What the entry of the field becomes, from the guards of the pass.
    abbrev grouped : Map FieldKey GuardInfo → Entry
    grouped l =
        if exports key.struct_type
        then (elim (lookup key l) [ none ↦ (none, none) | some guard ↦ entry_of guard none ])
        else (none, none)

    recorded-fold :
        (m : Map ℕ TypeGuards) (l : Map FieldKey GuardInfo)
        → IsDistinct (keys l)
        → recorded m ≡ (none, none)
        → recorded (fold (group_guard prog) m l) ≡ grouped l
    recorded-fold m [] d fresh = fresh ∙ ground arith
    recorded-fold m ((k, guard) ∷ l) d fresh =
        let step = recorded-group_guard m k guard in
        elim (Bool-cases (k == key)) [
          | inl same ↦
              let e : k ≡ key = (==_iff k key).0 same in
              let gone : contains (keys l) key ≡ false =
                subst (λ j. contains (keys l) j ≡ false) e d.0 in
              recorded-absent (group_guard prog m (k, guard)) l gone
              ∙ step
              ∙ ground (arith, same, fresh)
          | inr other ↦
              let still : recorded (group_guard prog m (k, guard)) ≡ (none, none) =
                step ∙ ground (arith, other, fresh) in
              recorded-fold (group_guard prog m (k, guard)) l d.1 still ∙ ground (arith, other)
        ]

    -- The guard that the fact of the type has for the field.
    abbrev pub guard_in : Option FieldGuardFact → Option GuardInfo
    guard_in none = none
    guard_in (some fact) = elim (lookup key.field_index fact.guards) [
      | none ↦ none
      | some i ↦ some (record {
        mutex_field_index = i;
        needs_exclusive = needs_exclusive_of fact key.field_index;
      })
    ]

    abbrev guard_of_entry : Entry → Option GuardInfo
    guard_of_entry (none, needs) = none
    guard_of_entry (some i, needs) = some (record {
      mutex_field_index = i;
      needs_exclusive = elim needs [ none ↦ false | some b ↦ b ];
    })

    guard_of_entry_lem : (guard : GuardInfo) → guard_of_entry (entry_of guard none) ≡ some guard
    guard_of_entry_lem guard = elim (Bool-cases guard.needs_exclusive) [
      | inl needed ↦ ground (arith, needed)
      | inr free ↦ ground (arith, free)
    ]

    guard_in-recorded :
        (m : Map ℕ TypeGuards)
        → guard_in (lookup key.struct_type (facts_of m)) ≡ guard_of_entry (recorded m)
    unfolding needs_exclusive_of
    guard_in-recorded m = ground (arith, lookup-facts_of key.struct_type m)

    pub guard_in-export :
        (ctx : PassContext)
        → IsDistinct (keys ctx.guards)
        → guard_in (lookup key.struct_type (export_field_guard_facts prog ctx))
          ≡ (if exports key.struct_type then lookup key ctx.guards else none)
    unfolding export_field_guard_facts
    guard_in-export ctx d =
        guard_in-recorded (fold (group_guard prog) [] ctx.guards)
        ∙ ap guard_of_entry (recorded-fold [] ctx.guards d refl)
        ∙ elim (Option-cases (lookup key ctx.guards)) [
          | inl unguarded ↦ ground (arith, unguarded)
          | inr (guard, found) ↦ ground (arith, found, guard_of_entry_lem guard)
        ]

  -- The fields of each type's fact are distinct.
  abbrev AreDistinct : ℕ → Map ℕ TypeGuards → Type 0
  AreDistinct t m = IsDistinct (keys (guards_at t m).guards)

  group_guard-AreDistinct :
      (t : ℕ) (m : Map ℕ TypeGuards) (k : FieldKey) (guard : GuardInfo)
      → AreDistinct t m
      → AreDistinct t (group_guard prog m (k, guard))
  unfolding group_guard add_guard
  group_guard-AreDistinct t m k guard d =
      let tg = guards_at k.struct_type m in
      elim (Bool-cases (k.struct_type == t)) [
        | inl same ↦
            let e : k.struct_type ≡ t = (==_iff k.struct_type t).0 same in
            ground (
              arith,
              same,
              e,
              lookup-insert k.struct_type t (add_guard k guard tg) m,
              insert-IsDistinct k.field_index guard.mutex_field_index (guards_at t m).guards d,
              d,
            )
        | inr other ↦
            ground (arith, other, lookup-insert k.struct_type t (add_guard k guard tg) m, d)
      ]

  fold-AreDistinct :
      (t : ℕ) (m : Map ℕ TypeGuards) (l : Map FieldKey GuardInfo)
      → AreDistinct t m
      → AreDistinct t (fold (group_guard prog) m l)
  fold-AreDistinct t m [] d = d
  fold-AreDistinct t m ((k, guard) ∷ l) d =
      fold-AreDistinct t (group_guard prog m (k, guard)) l (group_guard-AreDistinct t m k guard d)

  pub export_field_guard_facts-IsDistinct :
      (ctx : PassContext) (t : ℕ) (fact : FieldGuardFact)
      → lookup t (export_field_guard_facts prog ctx) ≡ some fact
      → IsDistinct (keys fact.guards)
  unfolding export_field_guard_facts
  export_field_guard_facts-IsDistinct ctx t fact h =
      let m = fold (group_guard prog) [] ctx.guards in
      let d = fold-AreDistinct t [] ctx.guards tt in
      elim (Option-cases (lookup t m)) [
        | inl missing ↦ absurd (ground (arith, h, missing, lookup-facts_of t m))
        | inr (tg, found) ↦
            let e : tg.guards ≡ fact.guards = ground (arith, h, found, lookup-facts_of t m) in
            let f : (guards_at t m).guards ≡ fact.guards = ground (arith, found, e) in
            subst (λ g. IsDistinct (keys g)) f d
      ]
