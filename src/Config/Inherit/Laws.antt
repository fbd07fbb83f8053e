-- ===== src/Config/Inherit/Laws.antt =====
-- A type has what its parent has.
use mergeway_cli.Prelude.{
  String, ◌≡◌, refl, false, Option, none, some, List, [], ◌∷◌, ◌++◌, ok, err-ne-ok, ok_inj, subst,
  ap, sym, ◌∙◌, arith, true, ◌==◌, eq_iff, member, if_true, text-cases, Bool-cases, Option-cases,
  inl, inr,
}
use mathlib.Core.Path.{ap₂}
use mergeway_cli.Go.Map.{Map, get, put, has, get-put, get-has}
use mergeway_cli.Value.Maps.{clone_value_lem}
use mergeway_cli.Config.Model.{
  IdentifierDefinition, FieldSourceDefinition, FieldSpec, FieldDefinition, define, Properties,
  no_more, property, TypeDefinition,
}
use mergeway_cli.Config.Raw.{RawType}
use mergeway_cli.Config.Inherit.{
  normalize_identifier_definition, clone_source, clone_spec, clone_field_definition,
  clone_properties, clone_field_map, merge_local, merge_inherited_fields,
}

clone_source_lem : (s : Option FieldSourceDefinition) → clone_source s ≡ s
clone_source_lem none = refl
clone_source_lem (some s) = refl

clone_spec_lem : (f : FieldSpec) → clone_spec f ≡ f
clone_spec_lem f =
    ap₂ (λ d s. record f { default = d; source = s }) (clone_value_lem f.default)
      (clone_source_lem f.source)

-- A copy of a field is the field.
mutual
  unfolding clone_field_definition

  pub clone_field_definition_lem : (f : FieldDefinition) → clone_field_definition f ≡ f
  clone_field_definition_lem (define f ps) = ap₂ define (clone_spec_lem f) (clone_properties_lem ps)

  clone_properties_lem : (ps : Properties) → clone_properties ps ≡ ps
  clone_properties_lem no_more = refl
  clone_properties_lem (property name f ps) =
      ap₂ (property name) (clone_field_definition_lem f) (clone_properties_lem ps)

clone_field_map_lem : (fs : Map FieldDefinition) → clone_field_map fs ≡ fs
unfolding clone_field_map
clone_field_map_lem [] = refl
clone_field_map_lem ((name, f) ∷ fs) =
    ap₂ (λ g gs. (name, g) ∷ gs) (clone_field_definition_lem f) (clone_field_map_lem fs)

append_assoc :
    (xs : List String) (y : String) (ys : List String) → (xs ++ y ∷ []) ++ ys ≡ xs ++ y ∷ ys
append_assoc [] y ys = refl
append_assoc (x ∷ xs) y ys = ap (λ zs. x ∷ zs) (append_assoc xs y ys)

append_nil : (xs : List String) → xs ++ [] ≡ xs
append_nil [] = refl
append_nil (x ∷ xs) = ap (λ ys. x ∷ ys) (append_nil xs)

-- What a round of the merge keeps.
record Extends (old : Map FieldDefinition) (order names : List String)
    (new : Map FieldDefinition × List String) : Type 0 where
  pub keeps : (k : String) (f : FieldDefinition) → get old k ≡ some f → get new.0 k ≡ some f
  pub ordered : new.1 ≡ order ++ names

some-ne-none : {f : FieldDefinition} → some f ≡ none → ⊥
some-ne-none h = cc

-- Adding a field under a new name keeps the others.
get-put_keeps :
    (m : Map FieldDefinition) (k j : String) (g f : FieldDefinition)
    → has m k ≡ false
    → get m j ≡ some f
    → get (put m k g) j ≡ some f
get-put_keeps m k j g f n h = elim (text-cases k j) [
  | inl e ↦ absurd (ground (arith, get-has m k (ap (get m) e ∙ h), n))
  | inr d ↦ rw (get-put m k j g, d) h
]

merge_local-Extends :
    (type_name : String) (fields merged : Map FieldDefinition) (order names : List String)
    {new : Map FieldDefinition × List String}
    → merge_local type_name fields merged order names ≡ ok new
    → Extends merged order names new
unfolding merge_local
merge_local-Extends type_name fields merged order [] {new} h =
    subst (Extends merged order []) (ok_inj h)
      (record { keeps = λ k f q. q; ordered = sym (append_nil order) })
merge_local-Extends type_name fields merged order (name ∷ names) {new} h =
    elim (Bool-cases (has merged name)) [
      | inl e ↦ absurd (err-ne-ok (rw (merge_local, e) at h))
      | inr e ↦ elim (Option-cases (get fields name)) [
        | inl n ↦
            let rest =
              merge_local-Extends type_name fields merged (order ++ name ∷ []) names
                (rw (merge_local, e, n) at h) in
            record { keeps = rest.keeps; ordered = rest.ordered ∙ append_assoc order name names }
        | inr f ↦
            let g = clone_field_definition f.0 in
            let rest =
              merge_local-Extends type_name fields (put merged name g) (order ++ name ∷ []) names
                (rw (merge_local, e, f.1) at h) in
            record {
              keeps = λ k d q. rest.keeps k d (get-put_keeps merged name k g d e q);
              ordered = rest.ordered ∙ append_assoc order name names;
            }
      ]
    ]

some_inj : {f g : FieldDefinition} → some f ≡ some g → f ≡ g
some_inj h = cc

-- A local field of the order is a field of the result.
merge_local-own :
    (type_name : String) (fields merged : Map FieldDefinition) (order names : List String)
    (k : String) {f : FieldDefinition} {new : Map FieldDefinition × List String}
    → merge_local type_name fields merged order names ≡ ok new
    → member names k ≡ true
    → get fields k ≡ some f
    → get new.0 k ≡ some f
unfolding merge_local member
merge_local-own type_name fields merged order [] k h m q = absurd (ground arith)
merge_local-own type_name fields merged order (name ∷ names) k {f} h m q =
    elim (Bool-cases (has merged name)) [
      | inl e ↦ absurd (err-ne-ok (rw (merge_local, e) at h))
      | inr e ↦ elim (Bool-cases (name == k)) [
        | inl s ↦
            let g = clone_field_definition f in
            let found : get fields name ≡ some f = ap (get fields) ((eq_iff name k).0 s) ∙ q in
            let rest =
              merge_local-Extends type_name fields (put merged name g) (order ++ name ∷ []) names
                (rw (merge_local, e, found) at h) in
            rest.keeps k f (
              get-put merged name k g
              ∙ (if_true (name == k) _ _ s ∙ ap some (clone_field_definition_lem f)))
        | inr s ↦ elim (Option-cases (get fields name)) [
          | inl n ↦
              merge_local-own type_name fields merged (order ++ name ∷ []) names k
                (rw (merge_local, e, n) at h) (ground (arith, m, s, eq_iff name k)) q
          | inr d ↦
              merge_local-own type_name fields (put merged name (clone_field_definition d.0))
                (order ++ name ∷ []) names k (rw (merge_local, e, d.1) at h)
                (ground (arith, m, s, eq_iff name k)) q
        ]
      ]
    ]

-- A type that `mergeInheritedFields` accepts lists the parent's fields first, in their order, and then
-- its own, and has the fields of both with the same definitions.
pub record IsMerged (parent : TypeDefinition) (fields : Map FieldDefinition) (order : List String)
    (new : Map FieldDefinition × List String) : Type 0 where
  pub ordered : new.1 ≡ parent.field_order ++ order
  pub keeps :
      (k : String) (f : FieldDefinition) → get parent.fields k ≡ some f → get new.0 k ≡ some f
  pub adds :
      (k : String) (f : FieldDefinition)
      → member order k ≡ true
      → get fields k ≡ some f
      → get new.0 k ≡ some f

pub merge_inherited_fields-IsMerged :
    (type_name : String) (parent : TypeDefinition) (fields : Map FieldDefinition)
    (order : List String) {new : Map FieldDefinition × List String}
    → merge_inherited_fields type_name (some parent) fields order ≡ ok new
    → IsMerged parent fields order new
unfolding merge_inherited_fields
merge_inherited_fields-IsMerged type_name parent fields order h =
    let h' = rw (clone_field_map_lem parent.fields) at h in
    let merge = merge_local-Extends type_name fields parent.fields parent.field_order order h' in
    record {
      ordered = merge.ordered;
      keeps = merge.keeps;
      adds = λ k f m q.
          merge_local-own type_name fields parent.fields parent.field_order order k h' m q;
    }

-- A type with a parent has the identifier of its parent.
pub normalize_identifier_definition_inherited :
    (raw : RawType) (parent : TypeDefinition) {i : IdentifierDefinition}
    → normalize_identifier_definition raw (some parent) ≡ ok i
    → i ≡ parent.identifier
unfolding normalize_identifier_definition
normalize_identifier_definition_inherited raw parent h = ground arith
