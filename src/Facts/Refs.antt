-- ===== src/Facts/Refs.antt =====
-- References to mutex fields, from the package that exports them to the package that imports them:
-- pkg/analyzer/facts.go.
use golintmu.Base.{
  ℕ, ◌<◌, ◌≡◌, refl, inl, inr, Bool, true, false, ◌||◌, none, some, List, [], ◌∷◌, ◌==◌, nat_eq,
  string_eq, arith, length, contains, contains-add, add, any, Option-cases,
}
use golintmu.Types.{named, StructField}
use golintmu.Ssa.{Program}
use golintmu.Resolver.{fields_of, named_of}
use golintmu.Pass.{MutexFieldKey}
use golintmu.Pass.Keys.{MutexFieldKey_eq}
use golintmu.Facts.{
  MutexRef, Imported, type_object, type_of_object, insert_ref, sort_refs, mutex_field_key_to_ref,
  refs_of, mutex_field_key_set_to_refs, package_of, mutex_ref_to_key, import_refs,
}

any-insert_ref :
    (p : MutexRef → Bool) (ref : MutexRef) (refs : List MutexRef)
    → any p (insert_ref ref refs) ≡ (p ref || any p refs)
unfolding insert_ref
any-insert_ref p ref [] = refl
any-insert_ref p ref (r ∷ refs) = ground (arith, any-insert_ref p ref refs)

any-sort_refs : (p : MutexRef → Bool) (refs : List MutexRef) → any p (sort_refs refs) ≡ any p refs
unfolding sort_refs
any-sort_refs p [] = refl
any-sort_refs p (ref ∷ refs) =
    ground (arith, any-insert_ref p ref (sort_refs refs), any-sort_refs p refs)

module _ (prog : Program) (imported : Imported) where
  open prog use {pkg_path, type_pkg, type_name, type_underlying}
  open imported use {scope_lookup}

  -- The importing package finds the struct type of the key under its package's path and its name,
  -- and the struct has the field.
  pub record IsVisible (mfk : MutexFieldKey) : Type 0 where
    pub pkg : ℕ
    pub fields : List StructField
    pub of_pkg : type_pkg mfk.struct_type ≡ some pkg
    pub found_pkg : package_of prog imported (pkg_path pkg) ≡ some pkg
    pub in_scope :
        scope_lookup pkg (type_name mfk.struct_type) ≡ some (type_object (named mfk.struct_type))
    pub of_struct : fields_of prog (type_underlying mfk.struct_type) ≡ some fields
    pub in_struct : mfk.field_index < length fields

  mutex_ref_to_key-mutex_field_key_to_ref :
      (mfk : MutexFieldKey)
      → IsVisible mfk
      → (ref : MutexRef) × (mutex_field_key_to_ref prog mfk ≡ some ref)
        × (mutex_ref_to_key prog imported ref ≡ some mfk)
  unfolding mutex_field_key_to_ref mutex_ref_to_key type_of_object named_of
  mutex_ref_to_key-mutex_field_key_to_ref mfk v = (
    record {
      ref_pkg_path = pkg_path v.pkg;
      ref_type_name = type_name mfk.struct_type;
      ref_field_index = mfk.field_index;
    },
    ground (arith, v.of_pkg),
    ground (arith, v.found_pkg, v.in_scope, v.of_struct, v.in_struct),
  )

  -- The reference resolves to the key.
  abbrev resolves_to : MutexFieldKey → MutexRef → Bool
  resolves_to mfk ref = elim (mutex_ref_to_key prog imported ref) [
    | none ↦ false
    | some k ↦ k == mfk
  ]

  pub contains-import_refs :
      (set : List MutexFieldKey) (refs : List MutexRef) (mfk : MutexFieldKey)
      → contains (import_refs prog imported set refs) mfk
        ≡ (contains set mfk || any (resolves_to mfk) refs)
  unfolding import_refs
  contains-import_refs set [] mfk = ground arith
  contains-import_refs set (ref ∷ refs) mfk =
      elim (Option-cases (mutex_ref_to_key prog imported ref)) [
        | inl unknown ↦ ground (arith, unknown, contains-import_refs set refs mfk)
        | inr (k, known) ↦
            ground (arith, known, contains-import_refs (add k set) refs mfk, contains-add k mfk set)
      ]

  -- The references of a set of visible keys resolve to the keys of the set.
  any-refs_of :
      (set : List MutexFieldKey)
      → ((k : MutexFieldKey) → contains set k ≡ true → IsVisible k)
      → (refs : List MutexRef) × (refs_of prog set ≡ some refs)
        × ((mfk : MutexFieldKey) → any (resolves_to mfk) refs ≡ contains set mfk)
  unfolding refs_of
  any-refs_of [] visible = ([], refl, λ mfk. refl)
  any-refs_of (k ∷ set) visible =
      let (ref, e, back) = mutex_ref_to_key-mutex_field_key_to_ref k (visible k (ground arith)) in
      let (refs, e', rest) = any-refs_of set (λ j m. visible j (ground (arith, m))) in
      (ref ∷ refs, ground (arith, e, e'), λ mfk. ground (arith, back, rest mfk))

-- A set of keys that is exported as references and imported again, by a package that sees the
-- struct types of all of them, is the same set: the import adds the keys of the set and no other
-- to those that are there.
pub import_refs-mutex_field_key_set_to_refs :
    (prog : Program) (imported : Imported) (set : List MutexFieldKey)
    → ((k : MutexFieldKey) → contains set k ≡ true → IsVisible prog imported k)
    → (refs : List MutexRef) × (mutex_field_key_set_to_refs prog set ≡ some refs)
      × ((before : List MutexFieldKey) (mfk : MutexFieldKey)
          → contains (import_refs prog imported before refs) mfk
            ≡ (contains before mfk || contains set mfk))
unfolding mutex_field_key_set_to_refs
import_refs-mutex_field_key_set_to_refs prog imported set visible =
    let (refs, e, resolved) = any-refs_of prog imported set visible in
    (
      sort_refs refs,
      ground (arith, e),
      λ before mfk. ground (
        arith,
        contains-import_refs prog imported before (sort_refs refs) mfk,
        any-sort_refs (resolves_to prog imported mfk) refs,
        resolved mfk,
      ),
    )
