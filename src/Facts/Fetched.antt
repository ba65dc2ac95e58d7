-- ===== src/Facts/Fetched.antt =====
-- What `importFieldGuardFacts` of pkg/analyzer/facts.go makes of the facts that another package
-- exports.
use golintmu.Base.{
  or_else, ℕ, ◌≡◌, sym, ap, ◌∙◌, subst, inl, inr, Bool, true, false, not, ◌&&◌, Option, none, some,
  List, [], ◌∷◌, ◌==◌, ==_iff, if◌then◌else◌, nat_eq, arith, Map, keys, lookup, insert,
  lookup-insert, contains, contains-add, any, fold, IsDistinct, Bool-cases, Option-cases,
  lookup_of_not-has,
}
use golintmu.Ssa.{Program}
use golintmu.Inference.{is_local_type}
use golintmu.Pass.{PassContext, FieldKey, GuardInfo}
use golintmu.Pass.Keys.{FieldKey_eq}
use golintmu.Facts.{FieldGuardFact, Imported}
use golintmu.Facts.Import.{needs_exclusive_of, import_guards, import_type, import_field_guard_facts}
use golintmu.Facts.Export.{export_field_guard_facts}
use golintmu.Facts.Guards.{
  FieldKey_parts, exports, guard_in, guard_in-export, export_field_guard_facts-IsDistinct,
}

module _ (key : FieldKey) where
  -- The guard of one entry of a fact.
  abbrev guard_from : FieldGuardFact → Map ℕ ℕ → Option GuardInfo
  guard_from fact entries = elim (lookup key.field_index entries) [
    | none ↦ none
    | some i ↦ some (record {
      mutex_field_index = i;
      needs_exclusive = needs_exclusive_of fact key.field_index;
    })
  ]

  lookup-import_guards :
      (t : ℕ) (fact : FieldGuardFact) (guards : Map FieldKey GuardInfo) (entries : Map ℕ ℕ)
      → IsDistinct (keys entries)
      → lookup key (import_guards t fact guards entries) ≡ (
          if t == key.struct_type
          then or_else (guard_from fact entries) (lookup key guards)
          else lookup key guards)
  unfolding import_guards
  lookup-import_guards t fact guards [] d = ground arith
  lookup-import_guards t fact guards ((i, mutex) ∷ entries) d =
      let k : FieldKey = record { struct_type = t; field_index = i } in
      let guard : GuardInfo = record {
        mutex_field_index = mutex;
        needs_exclusive = needs_exclusive_of fact i;
      } in
      let rest = lookup-import_guards t fact (insert k guard guards) entries d.1 in
      let split = FieldKey_parts k key in
      let here = lookup-insert k key guard guards in
      elim (Bool-cases (i == key.field_index)) [
        | inl same ↦
            let e : i ≡ key.field_index = (==_iff i key.field_index).0 same in
            let gone : lookup key.field_index entries ≡ none =
              lookup_of_not-has key.field_index entries
                (subst (λ j. contains (keys entries) j ≡ false) e d.0) in
            ground (arith, same, e, gone, rest, here, split)
        | inr other ↦ ground (arith, other, rest, here, split)
      ]

module _ (prog : Program) (imported : Imported) (key : FieldKey) where
  open imported use {field_guard_fact}

  abbrev HasDistinct : Option FieldGuardFact → Type 0
  HasDistinct known = (fact : FieldGuardFact) → known ≡ some fact → IsDistinct (keys fact.guards)

  -- The guard after the fact of the type was read.
  abbrev fetched : Map FieldKey GuardInfo → Option GuardInfo
  fetched guards =
      or_else (guard_in prog key (field_guard_fact key.struct_type)) (lookup key guards)

  abbrev is_new : List ℕ → Bool
  is_new seen = not (is_local_type prog key.struct_type) && not (contains seen key.struct_type)

  seen-import_type :
      (guards : Map FieldKey GuardInfo) (seen : List ℕ) (k : FieldKey)
      → is_new (import_type prog imported (guards, seen) k).1
        ≡ (is_new seen && not (k.struct_type == key.struct_type))
  unfolding import_type
  seen-import_type guards seen k = elim (Bool-cases (k.struct_type == key.struct_type)) [
    | inl same ↦
        let e : k.struct_type ≡ key.struct_type = (==_iff k.struct_type key.struct_type).0 same in
        ground (arith, same, e, contains-add k.struct_type key.struct_type seen)
    | inr other ↦ ground (arith, other, contains-add k.struct_type key.struct_type seen)
  ]

  lookup-import_type :
      (guards : Map FieldKey GuardInfo) (seen : List ℕ) (k : FieldKey)
      → HasDistinct (field_guard_fact key.struct_type)
      → HasDistinct (field_guard_fact k.struct_type)
      → lookup key (import_type prog imported (guards, seen) k).0 ≡ (
          if is_new seen && k.struct_type == key.struct_type
          then fetched guards
          else lookup key guards)
  unfolding import_type
  lookup-import_type guards seen k d d' = elim (Option-cases (field_guard_fact k.struct_type)) [
    | inl unknown ↦ elim (Bool-cases (k.struct_type == key.struct_type)) [
      | inl same ↦
          let e : k.struct_type ≡ key.struct_type = (==_iff k.struct_type key.struct_type).0 same in
          ground (arith, same, e, unknown)
      | inr other ↦ ground (arith, other, unknown)
    ]
    | inr (fact, known) ↦
        let entry =
          lookup-import_guards key k.struct_type fact guards fact.guards (d' fact known) in
        elim (Bool-cases (k.struct_type == key.struct_type)) [
          | inl same ↦
              let e : k.struct_type ≡ key.struct_type =
                (==_iff k.struct_type key.struct_type).0 same in
              ground (arith, same, e, known, entry)
          | inr other ↦ ground (arith, other, known, entry)
        ]
  ]

  lookup-import_types :
      (guards : Map FieldKey GuardInfo) (seen : List ℕ) (ks : List FieldKey)
      → ((t : ℕ) → HasDistinct (field_guard_fact t))
      → lookup key (fold (import_type prog imported) (guards, seen) ks).0 ≡ (
          if is_new seen && any (λ k. k.struct_type == key.struct_type) ks
          then fetched guards
          else lookup key guards)
  lookup-import_types guards seen [] d = ground arith
  lookup-import_types guards seen (k ∷ ks) d =
      let next = import_type prog imported (guards, seen) k in
      ground (
        arith,
        lookup-import_types next.0 next.1 ks d,
        seen-import_type guards seen k,
        lookup-import_type guards seen k (d key.struct_type) (d k.struct_type),
      )

-- The guards of a package, exported and imported again: for a field of a type of another package
-- that the importing package accesses, the importing package has the guard that the exporting one
-- inferred, if the type is exported and of that package, and else the guard that it had. The
-- facts are those that the exporting package has exported, and its guards are a map.
pub import_field_guard_facts-export_field_guard_facts :
    (exporter importer : Program) (up ctx : PassContext) (imported : Imported) (key : FieldKey)
    → IsDistinct (keys up.guards)
    → ((t : ℕ) → imported.field_guard_fact t ≡ lookup t (export_field_guard_facts exporter up))
    → is_local_type importer key.struct_type ≡ false
    → any (λ k. k.struct_type == key.struct_type) (keys ctx.observations) ≡ true
    → lookup key (import_field_guard_facts importer imported ctx).guards
      ≡ or_else
          (if exports exporter key.struct_type then lookup key up.guards else none)
          (lookup key ctx.guards)
unfolding import_field_guard_facts
import_field_guard_facts-export_field_guard_facts exporter importer up ctx imported key d known
      foreign seen =
    ground (
      arith,
      foreign,
      seen,
      lookup-import_types importer imported key ctx.guards [] (keys ctx.observations)
          (λ t fact h. export_field_guard_facts-IsDistinct exporter up t fact (sym (known t) ∙ h)),
      ap (guard_in exporter key) (known key.struct_type),
      guard_in-export exporter key up d,
    )
