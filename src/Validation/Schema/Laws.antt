-- ===== src/Validation/Schema/Laws.antt =====
-- What a run of `validateTypeSchema` without an error has checked.
use mergeway_cli.Prelude.{
  append-nil_inv, String, ◌≡◌, refl, false, Option, none, some, List, [], ◌∷◌, Result, ok, err,
  >>=-eq-ok, ok_inj, subst, inl, inr, Result-cases, All, map, Distinct, arith, eq_iff, eq_refl,
  text-cases, member, ap, sym, ◌∙◌,
}
use mergeway_cli.Go.Map.{Map, get, put, get-put}
use mergeway_cli.Value.Defs.{Fields}
use mergeway_cli.Value.Scalar.{FloatFormat}
use mergeway_cli.Config.Model.{FieldDefinition, TypeDefinition}
use mergeway_cli.Validation.Types.{Message, Error, RawObject, identifier_for_object}
use mergeway_cli.Validation.Field.{TextTests, validate_field, value_at}
use mergeway_cli.Validation.Schema.{
  KeyTexts, UniqueTrack, with_id, after, check_unique, check_fields, document, identifier,
  patterned, fresh, identify, validate_objects, validate_type_schema,
}

some-ne-none : {o : RawObject} → some o ≡ none → ⊥
some-ne-none h = cc

cons-none : {e : Error} {es : List Error} → e ∷ es ≡ [] → ⊥
cons-none h = cc

get-put_same : (m : Map RawObject) (k : String) (o : RawObject) → get (put m k o) k ≡ some o
get-put_same m k o = rw (get-put m k k o, eq_refl k) refl

-- Adding an object under a new key keeps what the index has.
get-put_keeps :
    (m : Map RawObject) (k j : String) (o : RawObject) {x : RawObject}
    → get m k ≡ none
    → get m j ≡ some x
    → get (put m k o) j ≡ some x
get-put_keeps m k j o {x} n h = elim (text-cases k j) [
  | inl e ↦ elim (some-ne-none (sym h ∙ (ap (get m) (sym e) ∙ n))) [ ]
  | inr d ↦ rw (get-put m k j o, d) h
]

module _ (floats : FloatFormat) (texts : TextTests) (prints : KeyTexts) where
  -- the object has a document and its identifier, and no field of it has an error
  pub record IsChecked (t : TypeDefinition) (o : RawObject) : Type 0 where
    pub document : Fields
    pub has_document : o.fields ≡ some document
    pub has_identifier : identifier_for_object floats o ≡ ok o.id
    pub has_no_error :
        All (λ q. validate_field floats texts q.1 (value_at document q.0) o q.0 ≡ []) t.fields

  check_fields-none :
      (fs : Map FieldDefinition) (track : UniqueTrack) (m : Fields) (o : RawObject)
      → (check_fields floats texts prints fs track m o).1 ≡ []
      → All (λ q. validate_field floats texts q.1 (value_at m q.0) o q.0 ≡ []) fs
  unfolding check_fields
  check_fields-none [] track m o h = tt
  check_fields-none ((name, f) ∷ fs) track m o h =
      let now = check_unique floats texts prints track name f m o in
      let p = append-nil_inv (validate_field floats texts f (value_at m name) o name) _ h in
      let q = append-nil_inv now.1 _ p.1 in (p.0, check_fields-none fs now.0 m o q.1)

  identifier_for_object-with_id :
      (o : RawObject) (id : String)
      → identifier_for_object floats (with_id o id) ≡ identifier_for_object floats o
  unfolding identifier_for_object
  identifier_for_object-with_id o id = refl

  document-ok :
      (t : TypeDefinition) (o : RawObject) (d : Option Fields) {m : Fields}
      → document floats texts prints t o d ≡ ok m
      → d ≡ some m
  document-ok t o none h = cc
  document-ok t o (some n) h = cc

  identifier-ok :
      (t : TypeDefinition) (o : RawObject) (r : Result Message String) {id : String}
      → identifier floats texts prints t o r ≡ ok id
      → r ≡ ok id
  identifier-ok t o (err e) h = cc
  identifier-ok t o (ok id) h = cc

  fresh-ok :
      (t : TypeDefinition) (o : RawObject) (id : String) (found : Option RawObject) {i : String}
      → fresh floats texts prints t o id found ≡ ok i
      → found ≡ none
  fresh-ok t o id none h = refl
  fresh-ok t o id (some first) h = cc

  -- An identified object has its document and its identifier, which is not in the index.
  identify-ok :
      (t : TypeDefinition) (indexed : Map RawObject) (o : RawObject) {p : String × Fields}
      → identify floats texts prints t indexed o ≡ ok p
      → (o.fields ≡ some p.1) × (identifier_for_object floats o ≡ ok p.0) × (get indexed p.0 ≡ none)
  unfolding identify
  identify-ok t indexed o {p} h =
      let a = >>=-eq-ok (document floats texts prints t o o.fields) _ h in
      let b =
        >>=-eq-ok (identifier floats texts prints t o (identifier_for_object floats o)) _ a.2 in
      let c = >>=-eq-ok (patterned floats texts prints t o b.0) _ b.2 in
      let d = >>=-eq-ok (fresh floats texts prints t o b.0 (get indexed b.0)) _ c.2 in
      subst
        (λ q.
          (o.fields ≡ some q.1)
          × (identifier_for_object floats o ≡ ok q.0)
          × (get indexed q.0 ≡ none))
        (ok_inj d.2) (document-ok t o o.fields a.1, identifier-ok t o _ b.1, fresh-ok t o b.0 _ d.1)

  -- The objects of a run without an error, one after the other.
  data Accepts (t : TypeDefinition)
      : Map RawObject → List RawObject → List RawObject → Map RawObject → Type 0 where
    done : {indexed : Map RawObject} → Accepts t indexed [] [] indexed
    next :
        {indexed final : Map RawObject} {o : RawObject} {os rs : List RawObject} (id : String)
        → IsChecked t (with_id o id)
        → get indexed id ≡ none
        → Accepts t (put indexed id (with_id o id)) os rs final
        → Accepts t indexed (o ∷ os) (with_id o id ∷ rs) final

  -- A run without an error identifies its first object, finds no error in its fields and adds it to
  -- the index.
  validate_objects-cons :
      (t : TypeDefinition) (indexed : Map RawObject) (track : UniqueTrack) (o : RawObject)
      (os : List RawObject)
      → (validate_objects floats texts prints t indexed track (o ∷ os)).errors ≡ []
      → (id : String) × (later : UniqueTrack) × IsChecked t (with_id o id)
        × (get indexed id ≡ none)
        × (validate_objects floats texts prints t indexed track (o ∷ os)
            ≡ after
                (with_id o id)
                []
                (validate_objects floats texts prints t (put indexed id (with_id o id)) later os))
  unfolding validate_objects
  validate_objects-cons t indexed track o os h =
      elim (Result-cases (identify floats texts prints t indexed o)) [
        | inr q ↦ elim (cons-none (rw (validate_objects, q.1) at h)) [ ]
        | inl q ↦
            let facts = identify-ok t indexed o q.1 in
            let named = with_id o q.0.0 in
            let checked = check_fields floats texts prints t.fields track q.0.1 named in
            let none = append-nil_inv checked.1 _ (rw (validate_objects, q.1) at h) in
            (
              q.0.0,
              checked.0,
              record {
                document = q.0.1;
                has_document = facts.0;
                has_identifier = identifier_for_object-with_id o q.0.0 ∙ facts.1;
                has_no_error = check_fields-none t.fields track q.0.1 named none.0;
              },
              facts.2,
              rw (validate_objects, q.1, none.0) refl,
            )
      ]

  validate_objects-Accepts :
      (t : TypeDefinition) (indexed : Map RawObject) (track : UniqueTrack) (os : List RawObject)
      → (validate_objects floats texts prints t indexed track os).errors ≡ []
      → Accepts t indexed os
          (validate_objects floats texts prints t indexed track os).objects
          (validate_objects floats texts prints t indexed track os).indexed
  unfolding validate_objects
  validate_objects-Accepts t indexed track [] h = done
  validate_objects-Accepts t indexed track (o ∷ os) h =
      let s = validate_objects-cons t indexed track o os h in
      let rest =
        validate_objects-Accepts t (put indexed s.0 (with_id o s.0)) s.1 os (rw s.4 at h) in
      subst (λ r. Accepts t indexed (o ∷ os) r.objects r.indexed) (sym s.4) (next s.0 s.2 s.3 rest)

  Accepts-keeps :
      {t : TypeDefinition} {indexed final : Map RawObject} {os rs : List RawObject} (k : String)
      {x : RawObject}
      → Accepts t indexed os rs final
      → get indexed k ≡ some x
      → get final k ≡ some x
  Accepts-keeps k done h = h
  Accepts-keeps {indexed = indexed} k (next {o = o} id c n rest) h =
      Accepts-keeps k rest (get-put_keeps indexed id k (with_id o id) n h)

  Accepts-fresh :
      {t : TypeDefinition} {indexed final : Map RawObject} {os rs : List RawObject} (k : String)
      {x : RawObject}
      → Accepts t indexed os rs final
      → get indexed k ≡ some x
      → member (map (λ o. o.id) rs) k ≡ false
  unfolding member
  Accepts-fresh k done h = refl
  Accepts-fresh {indexed = indexed} k {x} (next {o = o} id c n rest) h =
      ground
        (arith, Accepts-fresh k rest (get-put_keeps indexed id k (with_id o id) n h), eq_iff id k)

  Accepts-Distinct :
      {t : TypeDefinition} {indexed final : Map RawObject} {os rs : List RawObject}
      → Accepts t indexed os rs final
      → Distinct (map (λ o. o.id) rs)
  Accepts-Distinct done = tt
  Accepts-Distinct {indexed = indexed} (next {o = o} id c n rest) =
      (Accepts-fresh id rest (get-put_same indexed id (with_id o id)), Accepts-Distinct rest)

  Accepts-All :
      {t : TypeDefinition} {indexed final : Map RawObject} {os rs : List RawObject}
      → Accepts t indexed os rs final
      → All (λ o. IsChecked t o × (get final o.id ≡ some o)) rs
  Accepts-All done = tt
  Accepts-All {indexed = indexed} (next {o = o} id c n rest) =
      ((c, Accepts-keeps id rest (get-put_same indexed id (with_id o id))), Accepts-All rest)

  Accepts-same :
      {t : TypeDefinition} {indexed final : Map RawObject} {os rs : List RawObject}
      → Accepts t indexed os rs final
      → map (λ o. with_id o "") rs ≡ map (λ o. with_id o "") os
  Accepts-same done = refl
  Accepts-same (next {o = o} id c n rest) = ap (λ l. with_id o "" ∷ l) (Accepts-same rest)

  -- Where `validateTypeSchema` reports no error, it keeps every object in its place, changing no more
  -- than its identifier: each object has a document, the identifier that its type takes from it and
  -- no error in any field of the type, the index finds it under that identifier, and no two objects
  -- have the same identifier.
  pub validate_type_schema-accepts :
      (os : List RawObject) (t : TypeDefinition)
      → (validate_type_schema floats texts prints os t).errors ≡ []
      → (map (λ o. with_id o "") (validate_type_schema floats texts prints os t).objects
          ≡ map (λ o. with_id o "") os)
        × All
            (λ o.
              IsChecked t o
              × (get (validate_type_schema floats texts prints os t).indexed o.id ≡ some o))
            (validate_type_schema floats texts prints os t).objects
        × Distinct (map (λ o. o.id) (validate_type_schema floats texts prints os t).objects)
  unfolding validate_type_schema
  validate_type_schema-accepts os t h =
      let run = validate_objects-Accepts t [] [] os h in
      (Accepts-same run, Accepts-All run, Accepts-Distinct run)
