-- ===== src/Validation/References/Laws.antt =====
-- What a run of `validateReferences` without an error has checked.
use mergeway_cli.Prelude.{
  append-nil_inv, String, ◌≡◌, refl, true, false, some, List, [], ◌∷◌, ◌==◌, arith, eq_refl,
  text-cases, In, here, there, inl, inr, subst, sym, ◌∙◌, member-In, Bool-cases, Option-cases, ◌↔◌,
  member,
}
use mergeway_cli.Go.Map.{Map, get, keys, has-keys, get-has}
use mergeway_cli.Go.Order.{member-sort_strings}
use mergeway_cli.Value.Scalar.{FloatFormat}
use mergeway_cli.Config.Model.{FieldDefinition, spec, is_reference, TypeDefinition, Config}
use mergeway_cli.Config.IsA.{assignable_types}
use mergeway_cli.Validation.Types.{RawObject, entries}
use mergeway_cli.Validation.Field.{value_at}
use mergeway_cli.Validation.Index.{Assignable, matches_of}
use mergeway_cli.Validation.References.{
  is_empty, resolve_reference_types, reference_errors, check_targets, collect_reference_values,
  check_reference_fields, check_reference_objects, check_reference_types, validate_references,
}

-- A reference resolves to the types that it names, that have assignable types and under which the
-- index has an object with the identifier.
pub member-resolve_reference_types :
    (index : Assignable) (c : Config) (ts : List String) (id u : String)
    → (member (resolve_reference_types index c ts id) u ≡ true) ↔ (
        (member ts u ≡ true)
        × (is_empty (assignable_types c u) ≡ false)
        × (is_empty (matches_of index u id) ≡ false))
unfolding resolve_reference_types member
member-resolve_reference_types index c [] id u = ground arith
member-resolve_reference_types index c (t ∷ ts) id u = elim (text-cases t u) [
  | inl e ↦
      subst
        (λ v. (member (resolve_reference_types index c (t ∷ ts) id) v ≡ true) ↔ (
          (member (t ∷ ts) v ≡ true)
          × (is_empty (assignable_types c v) ≡ false)
          × (is_empty (matches_of index v id) ≡ false)))
        e (ground (arith, member-resolve_reference_types index c ts id t, eq_refl t))
  | inr d ↦ ground (arith, member-resolve_reference_types index c ts id u, d)
]

-- the reference resolves to one type
abbrev pub IsResolved : Assignable → Config → FieldDefinition → String → Type 0
IsResolved index c f id =
    (u : String) × (resolve_reference_types index c (spec f).reference_types id ≡ u ∷ [])

reference_errors-none :
    (name : String) (f : FieldDefinition) (o : RawObject) (id : String) (ts : List String)
    → reference_errors name f o id ts ≡ []
    → (u : String) × (ts ≡ u ∷ [])
reference_errors-none name f o id [] h = absurd (cc)
reference_errors-none name f o id (t ∷ []) h = (t, refl)
reference_errors-none name f o id (t ∷ u ∷ ts) h = absurd (cc)

check_targets-none :
    (index : Assignable) (c : Config) (name : String) (f : FieldDefinition) (o : RawObject)
    (ids : List String) {id : String}
    → check_targets index c name f o ids ≡ []
    → In id ids
    → IsResolved index c f id
unfolding check_targets
check_targets-none index c name f o [] h m = elim m [ ]
check_targets-none index c name f o (i ∷ ids) h here =
    reference_errors-none name f o i _ (append-nil_inv _ _ h).0
check_targets-none index c name f o (i ∷ ids) h (there m) =
    check_targets-none index c name f o ids (append-nil_inv (reference_errors name f o i _) _ h).1 m

module _ (floats : FloatFormat) where
  check_reference_fields-none :
      (index : Assignable) (c : Config) (fs : Map FieldDefinition) (o : RawObject) {name : String}
      {f : FieldDefinition} {id : String}
      → check_reference_fields floats index c fs o ≡ []
      → In (name, f) fs
      → is_reference f ≡ true
      → In id (collect_reference_values floats (value_at (entries o.fields) name) (spec f).repeated)
      → IsResolved index c f id
  unfolding check_reference_fields
  check_reference_fields-none index c [] o h m r i = elim m [ ]
  check_reference_fields-none index c ((name, f) ∷ fs) o h here r i =
      check_targets-none index c name f o _ (append-nil_inv _ _ (rw r at h)).0 i
  check_reference_fields-none index c ((n, g) ∷ fs) o h (there m) r i =
      elim (Bool-cases (is_reference g)) [
        | inl e ↦ check_reference_fields-none index c fs o (append-nil_inv _ _ (rw e at h)).1 m r i
        | inr e ↦ check_reference_fields-none index c fs o (rw e at h) m r i
      ]

  check_reference_objects-none :
      (index : Assignable) (c : Config) (t : TypeDefinition) (os : List RawObject) {o : RawObject}
      → check_reference_objects floats index c t os ≡ []
      → In o os
      → (o.id == "") ≡ false
      → check_reference_fields floats index c t.fields o ≡ []
  unfolding check_reference_objects
  check_reference_objects-none index c t [] h m n = elim m [ ]
  check_reference_objects-none index c t (o ∷ os) h here n = (append-nil_inv _ _ (rw n at h)).0
  check_reference_objects-none index c t (p ∷ os) h (there m) n = elim (Bool-cases (p.id == "")) [
    | inl e ↦ check_reference_objects-none index c t os (rw e at h) m n
    | inr e ↦ check_reference_objects-none index c t os (append-nil_inv _ _ (rw e at h)).1 m n
  ]

  check_reference_types-none :
      (index : Assignable) (c : Config) (all : Map (List RawObject)) (names : List String)
      {name : String} {t : TypeDefinition} {os : List RawObject}
      → check_reference_types floats index c all names ≡ []
      → In name names
      → get c.types name ≡ some t
      → get all name ≡ some os
      → check_reference_objects floats index c t os ≡ []
  unfolding check_reference_types
  check_reference_types-none index c all [] h m g a = elim m [ ]
  check_reference_types-none index c all (n ∷ names) h here g a =
      (append-nil_inv _ _ (rw (check_reference_types, g, a) at h)).0
  check_reference_types-none index c all (n ∷ names) h (there m) g a =
      elim (Option-cases (get c.types n)) [
        | inl e ↦
            check_reference_types-none index c all names (rw (check_reference_types, e) at h) m g a
        | inr e ↦ elim (Option-cases (get all n)) [
          | inl b ↦
              check_reference_types-none index c all names (rw (check_reference_types, e.1, b) at h)
                m g a
          | inr b ↦
              check_reference_types-none index c all names
                (append-nil_inv _ _ (rw (check_reference_types, e.1, b.1) at h)).1 m g a
        ]
      ]

  -- Where `validateReferences` reports no error, every reference resolves: for each object of a
  -- type that has an identifier, each field of the type that is a reference and each text that the
  -- object has there, exactly one of the field's types resolves the text.
  pub validate_references-IsResolved :
      (all : Map (List RawObject)) (index : Assignable) (c : Config) (type_name name : String)
      {id : String} {t : TypeDefinition} {os : List RawObject} {o : RawObject} {f : FieldDefinition}
      → validate_references floats all index c ≡ []
      → get c.types type_name ≡ some t
      → get all type_name ≡ some os
      → In o os
      → (o.id == "") ≡ false
      → In (name, f) t.fields
      → is_reference f ≡ true
      → In id (collect_reference_values floats (value_at (entries o.fields) name) (spec f).repeated)
      → IsResolved index c f id
  unfolding validate_references
  validate_references-IsResolved all index c type_name name {t = t} {os} {o} h g a m n k r i =
      let listed = member-In _ type_name (
        member-sort_strings (keys c.types) type_name
        ∙ (sym (has-keys c.types type_name) ∙ get-has c.types type_name g)) in
      let objects = check_reference_types-none index c all _ h listed g a in
      check_reference_fields-none index c t.fields o
        (check_reference_objects-none index c t os objects m n) k r i
