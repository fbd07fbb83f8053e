-- ===== src/Config/Types/Laws.antt =====
-- What a type takes over from its parent.
use mergeway_cli.Prelude.{
  String, ◌≡◌, Bool, true, false, not, ◌&&◌, ◌||◌, some, Result, ok, err, ok_inj, err-ne-ok, ◌>>=◌,
  >>=-eq-ok, reject_if, List, [], ◌∷◌, ◌++◌, ◌≢◌, refl, sym, ◌∙◌, inl, inr, Option-cases, member,
  Distinct, All, if_true, if_false, eq_refl, ne→not-eq, arith, ◌==◌, ap, subst,
}
use mergeway_cli.Go.Map.{Map, get, put, keys, get-put, has-keys, has-get}
use mergeway_cli.Go.Text.{trim_space}
use mergeway_cli.Config.Model.{FieldDefinition, is_path, TypeDefinition}
use mergeway_cli.Config.Raw.{RawType, RawFieldDefinition, RawEntries, no_entry, entry}
use mergeway_cli.Config.Fields.{FieldError, has_entries, names_of, normalize_field_definition}
use mergeway_cli.Config.Names.{is_valid_identifier}
use mergeway_cli.Config.Inherit.{
  InheritError, normalize_identifier_definition, merge_inherited_fields,
}
use mergeway_cli.Config.Inherit.Laws.{
  merge_inherited_fields-IsMerged, normalize_identifier_definition_inherited,
}
use mergeway_cli.Config.Types.{
  TypeError, unnamed_field, invalid_field, field_of, normalize_entries, fields_and_schema,
  no_fields, schema_inherits, path_with_data, no_includes, has_any, is_none, OrderedFields,
  identifier_of, check_derived, own_fields, normalize_type_definition,
}

identifier_of-ok :
    {A : Type 0} (r : Result InheritError A) {a : A} → identifier_of r ≡ ok a → r ≡ ok a
identifier_of-ok (ok a) h = ap ok (ok_inj h)
identifier_of-ok (err e) h = absurd (err-ne-ok h)

-- A step that rejects nothing goes on.
goes_on :
    {A : Type 0} (b : Bool) (e : TypeError) (k : Result TypeError A) {a : A}
    → (reject_if b e >>= λ u. k) ≡ ok a
    → k ≡ ok a
goes_on true e k h = absurd (err-ne-ok h)
goes_on false e k h = h

rejects_not :
    {A : Type 0} (b : Bool) (e : TypeError) (k : Result TypeError A) {a : A}
    → (reject_if b e >>= λ u. k) ≡ ok a
    → b ≡ false
rejects_not true e k h = absurd (err-ne-ok h)
rejects_not false e k h = refl

field_of-ok : {A : Type 0} (r : Result FieldError A) {a : A} → field_of r ≡ ok a → r ≡ ok a
field_of-ok (ok a) h = ap ok (ok_inj h)
field_of-ok (err e) h = absurd (err-ne-ok h)

-- The fields have each entry under its name, as `normalizeFieldDefinition` makes it.
abbrev pub Declares : String → Map FieldDefinition → RawEntries → Type 0
Declares type_name fields no_entry = Unit
Declares type_name fields (entry name raw es) =
    ((f : FieldDefinition) × (normalize_field_definition raw name (type_name ∷ []) ≡ ok f)
      × (get fields name ≡ some f))
    × Declares type_name fields es

-- What a type takes over from its parent, and what it adds.
pub record Inherits (raw : RawType) (parent t : TypeDefinition) : Type 0 where
  pub identifier : t.identifier ≡ parent.identifier
  pub order : t.field_order ≡ parent.field_order ++ names_of raw.spec.fields
  pub kept : All (λ name. get t.fields name ≡ get parent.fields name) (keys parent.fields)
  pub own : Declares raw.name t.fields raw.spec.fields

-- A round of the loop over the entries.
normalize_entries_round :
    (type_name name : String) (fs : OrderedFields) (raw : RawFieldDefinition) (es : RawEntries)
    {out : OrderedFields}
    → normalize_entries type_name fs (entry name raw es) ≡ ok out
    → (f : FieldDefinition) × (normalize_field_definition raw name (type_name ∷ []) ≡ ok f)
      × (normalize_entries type_name (put fs.0 name f, fs.1 ++ name ∷ []) es ≡ ok out)
unfolding normalize_entries
normalize_entries_round type_name name fs raw es h =
    let k1 = goes_on (name == "") (unnamed_field type_name) _ h in
    let k2 = goes_on (not (is_valid_identifier name)) (invalid_field type_name name) _ k1 in
    let (f, e, k3) =
      >>=-eq-ok (field_of (normalize_field_definition raw name (type_name ∷ []))) _ k2 in
    (f, field_of-ok (normalize_field_definition raw name (type_name ∷ [])) e, k3)

append_assoc :
    (xs : List String) (y : String) (ys : List String) → (xs ++ y ∷ []) ++ ys ≡ xs ++ y ∷ ys
append_assoc [] y ys = refl
append_assoc (x ∷ xs) y ys = ap (λ zs. x ∷ zs) (append_assoc xs y ys)

append_nil : (xs : List String) → xs ++ [] ≡ xs
append_nil [] = refl
append_nil (x ∷ xs) = ap (λ ys. x ∷ ys) (append_nil xs)

normalize_entries_order :
    (type_name : String) (fs : OrderedFields) (es : RawEntries) {out : OrderedFields}
    → normalize_entries type_name fs es ≡ ok out
    → out.1 ≡ fs.1 ++ names_of es
unfolding normalize_entries
normalize_entries_order type_name fs no_entry h =
    ap (λ o. o.1) (sym (ok_inj h)) ∙ sym (append_nil fs.1)
normalize_entries_order type_name fs (entry name raw es) h =
    let (f, e, k) = normalize_entries_round type_name name fs raw es h in
    normalize_entries_order type_name (put fs.0 name f, fs.1 ++ name ∷ []) es k
    ∙ append_assoc fs.1 name (names_of es)

normalize_entries_others :
    (type_name : String) (fs : OrderedFields) (es : RawEntries) (n : String) {out : OrderedFields}
    → member (names_of es) n ≡ false
    → normalize_entries type_name fs es ≡ ok out
    → get out.0 n ≡ get fs.0 n
unfolding normalize_entries member
normalize_entries_others type_name fs no_entry n m h = ap (λ o. get o.0 n) (sym (ok_inj h))
normalize_entries_others type_name fs (entry name raw es) n m h =
    let (f, e, k) = normalize_entries_round type_name name fs raw es h in
    normalize_entries_others type_name (put fs.0 name f, fs.1 ++ name ∷ []) es n (ground (arith, m))
      k
    ∙ (get-put fs.0 name n f ∙ if_false (name == n) _ _ (ground (arith, m)))

normalize_entries-Declares :
    (type_name : String) (fs : OrderedFields) (es : RawEntries) {out : OrderedFields}
    → Distinct (names_of es)
    → normalize_entries type_name fs es ≡ ok out
    → Declares type_name out.0 es
unfolding normalize_entries
normalize_entries-Declares type_name fs no_entry d h = tt
normalize_entries-Declares type_name fs (entry name raw es) d h =
    let (f, e, k) = normalize_entries_round type_name name fs raw es h in
    (
      (
        f,
        e,
        normalize_entries_others type_name (put fs.0 name f, fs.1 ++ name ∷ []) es name d.0 k
            ∙ (get-put fs.0 name name f ∙ if_true (name == name) _ _ (eq_refl name)),
      ),
      normalize_entries-Declares type_name (put fs.0 name f, fs.1 ++ name ∷ []) es d.1 k,
    )

Declares-In_names :
    (type_name : String) (a b : Map FieldDefinition) (es : RawEntries)
    → ((n : String) (f : FieldDefinition)
        → member (names_of es) n ≡ true
        → get a n ≡ some f
        → get b n ≡ some f)
    → Declares type_name a es
    → Declares type_name b es
unfolding member
Declares-In_names type_name a b no_entry h d = tt
Declares-In_names type_name a b (entry name raw es) h ((f, e, g), d) = (
  (f, e, h name f (ground (arith, eq_refl name)) g),
  Declares-In_names type_name a b es (λ n g m q. h n g (ground (arith, m)) q) d,
)

All-member :
    (P : String → Type 0) (ks : List String) → ((n : String) → member ks n ≡ true → P n) → All P ks
unfolding member
All-member P [] h = tt
All-member P (k ∷ ks) h =
    (h k (ground (arith, eq_refl k)), All-member P ks (λ n m. h n (ground (arith, m))))

kept_fields :
    (old new : Map FieldDefinition)
    → ((k : String) (f : FieldDefinition) → get old k ≡ some f → get new k ≡ some f)
    → All (λ name. get new name ≡ get old name) (keys old)
kept_fields old new h =
    All-member (λ name. get new name ≡ get old name) (keys old)
      λ n m. elim (Option-cases (get old n)) [
        | inl e ↦ absurd (ground (arith, has-keys old n, has-get old n, e, m))
        | inr f ↦ h n f.0 f.1 ∙ sym f.1
      ]

module _ (load_schema : String → String → String → Result String OrderedFields) where
  -- For a type that names a parent and whose fields have distinct names: where
  -- `normalizeTypeDefinition` accepts it, it has the parent's identifier, lists the parent's fields
  -- first, in their order, and then its own, in theirs, and has the parent's fields as the parent has
  -- them and its own as `normalizeFieldDefinition` makes them.
  pub normalize_type_definition-Inherits :
      (raw : RawType) (parent : TypeDefinition) (has_children : Bool) {t : TypeDefinition}
      → trim_space raw.spec.extends ≢ ""
      → Distinct (names_of raw.spec.fields)
      → normalize_type_definition load_schema raw (some parent) has_children ≡ ok t
      → Inherits raw parent t
  unfolding normalize_type_definition own_fields
  normalize_type_definition-Inherits raw parent has_children x d h =
      let schema = trim_space raw.spec.json_schema in
      let k1 =
        goes_on (not (schema == "") && has_entries raw.spec.fields) (fields_and_schema raw.name) _
          h in
      let k2 =
        goes_on (is_none (some parent) && schema == "" && not (has_entries raw.spec.fields))
          (no_fields raw.name) _ k1 in
      let k3 =
        goes_on (not (schema == "") && (not (trim_space raw.spec.extends == "") || has_children))
          (schema_inherits raw.name) _ k2 in
      let (i, e, k4) =
        >>=-eq-ok (identifier_of (normalize_identifier_definition raw (some parent))) _ k3 in
      let k5 = goes_on (is_path i && has_any raw.spec.inline_data) (path_with_data raw.name) _ k4 in
      let k6 =
        goes_on
          (not (has_any raw.spec.include) && not (has_any raw.spec.inline_data) && not has_children)
          (no_includes raw.name) _ k5 in
      let (own, e', k7) = >>=-eq-ok (own_fields load_schema raw schema) _ k6 in
      let (u, e'', k8) =
        >>=-eq-ok (check_derived raw.name i.field (has_any raw.spec.inline_data) own.0) _ k7 in
      let (new, m, k9) =
        >>=-eq-ok (identifier_of (merge_inherited_fields raw.name (some parent) own.0 own.1)) _
          k8 in
      let no_schema =
        rejects_not
          (not (schema == "") && (not (trim_space raw.spec.extends == "") || has_children))
          (schema_inherits raw.name) _ k2 in
      let extends = ne→not-eq (trim_space raw.spec.extends) "" x in
      let plain : (schema == "") ≡ true = ground (arith, no_schema, extends) in
      let entries = sym (if_true (schema == "") _ _ plain) ∙ e' in
      let order = normalize_entries_order raw.name ([], []) raw.spec.fields entries in
      let merge =
        merge_inherited_fields-IsMerged raw.name parent own.0 own.1
          (identifier_of-ok (merge_inherited_fields raw.name (some parent) own.0 own.1) m) in
      subst (Inherits raw parent) (ok_inj k9) (record {
        identifier =
            normalize_identifier_definition_inherited raw parent
              (identifier_of-ok (normalize_identifier_definition raw (some parent)) e);
        order = merge.ordered ∙ ap (λ o. parent.field_order ++ o) order;
        kept = kept_fields parent.fields new.0 merge.keeps;
        own =
            Declares-In_names raw.name own.0 new.0 raw.spec.fields
              (λ n f m q. merge.adds n f (ap (λ o. member o n) order ∙ m) q)
              (normalize_entries-Declares raw.name ([], []) raw.spec.fields d entries);
      })
