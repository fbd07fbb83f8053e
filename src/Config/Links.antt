-- ===== src/Config/Links.antt =====
-- `validateFieldReferences` of internal/config/normalize.go: the types that fields refer to are known.
use Prim.Native.String
use mergeway_cli.Prelude.{
  String, ◌≡◌, true, List, [], ◌∷◌, not, if◌then◌else◌, Result, ok, err, ◌>>=◌, >>=-eq-ok, ok_inj,
  err-ne-ok, subst, All, Bool-cases, inl, inr, ap,
}
use mergeway_cli.Go.Map.{Map, has}
use mergeway_cli.Config.Model.{
  FieldSpec, FieldDefinition, define, Properties, no_more, property, TypeDefinition,
}
use mergeway_cli.Config.References.{ReferenceError, parse_reference_types}

-- The errors, with the path of the field in the messages.
pub data LinkError : Type 0 where
  invalid_reference : String → ReferenceError → LinkError
  unknown_type : String → String → LinkError

-- `typeName + "." + field.Name`
abbrev pub link_path : String → FieldSpec → String
link_path type_name f = String.◌++◌ type_name (String.◌++◌ "." f.name)

abbrev at_path : String → Result ReferenceError (List String) → Result LinkError (List String)
at_path path (err e) = err (invalid_reference path e)
at_path path (ok refs) = ok refs

-- the loop over the types that a field refers to
unfoldable pub check_known : Map TypeDefinition → String → List String → Result LinkError (Unit {0})
check_known types path [] = ok tt
check_known types path (r ∷ refs) =
    let rest = check_known types path refs in
    if not (has types r) then err (unknown_type path r) else rest

abbrev pub with_references : FieldSpec → List String → FieldSpec
with_references f refs = record f { reference_types = refs }

-- `validateFieldReference`, with the field as the run leaves it, and its loop over the properties
unfoldable mutual
  pub validate_field_reference :
      Map TypeDefinition → String → FieldDefinition → Result LinkError FieldDefinition
  validate_field_reference types type_name (define f ps) =
      at_path (link_path type_name f) (parse_reference_types f.type_name) >>= λ refs.
      check_known types (link_path type_name f) refs >>= λ _.
      validate_property_references types (link_path type_name f) ps >>= λ checked.
      ok (define (with_references f refs) checked)

  pub validate_property_references :
      Map TypeDefinition → String → Properties → Result LinkError Properties
  validate_property_references types type_name no_more = ok no_more
  validate_property_references types type_name (property name f ps) =
      validate_field_reference types type_name f >>= λ checked.
      validate_property_references types type_name ps >>= λ rest. ok (property name checked rest)

-- the loop of `validateFieldReferences` over the fields of a type
unfoldable pub validate_type_references :
    Map TypeDefinition → String → Map FieldDefinition → Result LinkError (Map FieldDefinition)
validate_type_references types type_name [] = ok []
validate_type_references types type_name ((name, f) ∷ fs) =
    validate_field_reference types type_name f >>= λ checked.
    validate_type_references types type_name fs >>= λ rest. ok ((name, checked) ∷ rest)

-- `validateFieldReferences`; `all` are the types that a reference finds.
unfoldable pub validate_field_references :
    Map TypeDefinition → Map TypeDefinition → Result LinkError (Map TypeDefinition)
validate_field_references all [] = ok []
validate_field_references all ((name, t) ∷ types) =
    validate_type_references all t.name t.fields >>= λ fields.
    validate_field_references all types >>= λ rest. ok ((name, record t { fields = fields }) ∷ rest)

-- The field's type parses to the types that it refers to, all of which are known; and so at any depth.
unfoldable mutual
  pub IsLinked : Map TypeDefinition → FieldDefinition → Type 0
  IsLinked types (define f ps) =
      (parse_reference_types f.type_name ≡ ok f.reference_types)
      × All (λ r. has types r ≡ true) f.reference_types
      × AreLinked types ps

  pub AreLinked : Map TypeDefinition → Properties → Type 0
  AreLinked types no_more = Unit
  AreLinked types (property name f ps) = IsLinked types f × AreLinked types ps

at_path-ok :
    (path : String) (r : Result ReferenceError (List String)) {refs : List String}
    → at_path path r ≡ ok refs
    → r ≡ ok refs
at_path-ok path (ok rs) h = ap ok (ok_inj h)
at_path-ok path (err e) h = absurd (err-ne-ok h)

check_known-All :
    (types : Map TypeDefinition) (path : String) (refs : List String)
    → check_known types path refs ≡ ok tt
    → All (λ r. has types r ≡ true) refs
unfolding check_known
check_known-All types path [] h = tt
check_known-All types path (r ∷ refs) h = elim (Bool-cases (has types r)) [
  | inl e ↦ (e, check_known-All types path refs (rw (check_known, e) at h))
  | inr e ↦ absurd (err-ne-ok (rw (check_known, e) at h))
]

mutual
  unfolding validate_field_reference IsLinked

  validate_field_reference-IsLinked :
      (types : Map TypeDefinition) (type_name : String) (f : FieldDefinition) {g : FieldDefinition}
      → validate_field_reference types type_name f ≡ ok g
      → IsLinked types g
  validate_field_reference-IsLinked types type_name (define f ps) h =
      let (refs, e, h1) =
        >>=-eq-ok (at_path (link_path type_name f) (parse_reference_types f.type_name)) _ h in
      let (u, k, h2) = >>=-eq-ok (check_known types (link_path type_name f) refs) _ h1 in
      let (checked, p, h3) =
        >>=-eq-ok (validate_property_references types (link_path type_name f) ps) _ h2 in
      subst (IsLinked types) (ok_inj h3) (
        at_path-ok (link_path type_name f) (parse_reference_types f.type_name) e,
        check_known-All types (link_path type_name f) refs k,
        validate_property_references-AreLinked types (link_path type_name f) ps p,
      )

  validate_property_references-AreLinked :
      (types : Map TypeDefinition) (type_name : String) (ps : Properties) {qs : Properties}
      → validate_property_references types type_name ps ≡ ok qs
      → AreLinked types qs
  validate_property_references-AreLinked types type_name no_more h =
      subst (AreLinked types) (ok_inj h) tt
  validate_property_references-AreLinked types type_name (property name f ps) h =
      let (checked, e, h1) = >>=-eq-ok (validate_field_reference types type_name f) _ h in
      let (rest, p, h2) = >>=-eq-ok (validate_property_references types type_name ps) _ h1 in
      subst (AreLinked types) (ok_inj h2) (
        validate_field_reference-IsLinked types type_name f e,
        validate_property_references-AreLinked types type_name ps p,
      )

validate_type_references-IsLinked :
    (types : Map TypeDefinition) (type_name : String) (fs : Map FieldDefinition)
    {gs : Map FieldDefinition}
    → validate_type_references types type_name fs ≡ ok gs
    → All (λ q. IsLinked types q.1) gs
unfolding validate_type_references
validate_type_references-IsLinked types type_name [] h =
    subst (All (λ q. IsLinked types q.1)) (ok_inj h) tt
validate_type_references-IsLinked types type_name ((name, f) ∷ fs) h =
    let (checked, e, h1) = >>=-eq-ok (validate_field_reference types type_name f) _ h in
    let (rest, p, h2) = >>=-eq-ok (validate_type_references types type_name fs) _ h1 in
    subst (All (λ q. IsLinked types q.1)) (ok_inj h2) (
      validate_field_reference-IsLinked types type_name f e,
      validate_type_references-IsLinked types type_name fs p,
    )

-- Where `validateFieldReferences` accepts the types, the types to which each field and each property
-- at any depth refers are those that its type parses to, and all of them are known.
pub validate_field_references-IsLinked :
    (all types : Map TypeDefinition) {new : Map TypeDefinition}
    → validate_field_references all types ≡ ok new
    → All (λ t. All (λ q. IsLinked all q.1) t.1.fields) new
unfolding validate_field_references
validate_field_references-IsLinked all [] h =
    subst (All (λ t. All (λ q. IsLinked all q.1) t.1.fields)) (ok_inj h) tt
validate_field_references-IsLinked all ((name, t) ∷ types) h =
    let (fields, e, h1) = >>=-eq-ok (validate_type_references all t.name t.fields) _ h in
    let (rest, p, h2) = >>=-eq-ok (validate_field_references all types) _ h1 in
    subst (All (λ t. All (λ q. IsLinked all q.1) t.1.fields)) (ok_inj h2) (
      validate_type_references-IsLinked all t.name t.fields e,
      validate_field_references-IsLinked all types p,
    )
