-- ===== src/Config/Fields/Laws.antt =====
-- What a field definition that `normalizeFieldDefinition` returns is known to satisfy.
use mergeway_cli.Prelude.{
  ℕ, String, ◌≡◌, refl, ◌≢◌, Bool, true, false, Option, none, some, List, [], ◌∷◌, ◌++◌, ◌+◌,
  not-eq→ne, ap, ◌==◌, not, ◌&&◌, ◌||◌, ok, >>=-eq-ok, ok_inj, reject_if, arith, Bool-cases, inl,
  inr, subst,
}
use mergeway_cli.Config.Model.{
  FieldSourceDefinition, is_some, FieldSpec, FieldDefinition, define, Properties, no_more, property,
  spec,
}
use mergeway_cli.Config.Raw.{
  RawFieldSpec, RawFieldDefinition, raw_field, RawEntries, no_entry, entry,
}
use mergeway_cli.Config.Names.{is_valid_identifier}
use mergeway_cli.Config.Fields.{
  is_negative, count_if, normalize_field_source, is_true, has_entries, check_source, put_property,
  finished, normalize_field_definition, normalize_properties, is_null,
}

-- Exactly one selector is given, and an index of a segment is not negative.
pub record IsSelector (s : FieldSourceDefinition) : Type 0 where
  pub one :
      ◌≡◌ {A = ℕ}
        (count_if s.path
          + (count_if (is_some s.path_segment) + count_if (is_some s.path_segment_rev)))
        1
  pub segment : is_negative s.path_segment ≡ false
  pub segment_rev : is_negative s.path_segment_rev ≡ false

pub normalize_field_source-IsSelector :
    (raw : FieldSourceDefinition) (name : String) (path : List String) {s : FieldSourceDefinition}
    → normalize_field_source raw name path ≡ ok (some s)
    → IsSelector s
unfolding normalize_field_source
normalize_field_source-IsSelector raw name path h = ground arith

-- A field with a source holds text, has no default, and is neither repeated nor of an unclear
-- source.
abbrev pub SourceFits : FieldSpec → Option FieldSourceDefinition → Type 0
SourceFits f none = Unit
SourceFits f (some s) =
    IsSelector s
    × (f.repeated ≡ false)
    × (is_null f.default ≡ true)
    × (f.type_name ≢ "integer")
    × (f.type_name ≢ "number")
    × (f.type_name ≢ "boolean")
    × (f.type_name ≢ "object")

abbrev pub has_properties : Properties → Bool
has_properties no_more = false
has_properties (property k f ps) = true

-- What holds of the attributes of a field with these properties.
pub record IsSpec (f : FieldSpec) (ps : Properties) : Type 0 where
  pub typed : f.type_name ≢ ""
  pub unique_once : (f.repeated && f.unique) ≡ false
  pub object_iff : (f.type_name == "object") ≡ has_properties ps
  pub source_fits : SourceFits f f.source

-- A field that satisfies the rules, and its properties, at any depth.
unfoldable mutual
  pub IsField : FieldDefinition → Type 0
  IsField (define f ps) = IsSpec f ps × AreProperties ps

  pub AreProperties : Properties → Type 0
  AreProperties no_more = Unit
  AreProperties (property k f ps) = (is_valid_identifier k ≡ true) × IsField f × AreProperties ps

put_property-AreProperties :
    (ps : Properties) (k : String) (f : FieldDefinition)
    → is_valid_identifier k ≡ true
    → IsField f
    → AreProperties ps
    → AreProperties (put_property ps k f)
unfolding put_property IsField
put_property-AreProperties no_more k f v h hs = (v, h, tt)
put_property-AreProperties (property j g ps) k f v h hs = elim (Bool-cases (j == k)) [
  | inl e ↦ rw e (v, h, hs.2)
  | inr e ↦ rw e (hs.0, hs.1, put_property-AreProperties ps k f v h hs.2)
]

put_property-has :
    (ps : Properties) (k : String) (f : FieldDefinition)
    → has_properties (put_property ps k f) ≡ true
unfolding put_property
put_property-has no_more k f = refl
put_property-has (property j g ps) k f = ground arith

pub reject_if-ok : {E : Type 0} (b : Bool) (e : E) {u : Unit {0}} → reject_if b e ≡ ok u → b ≡ false
reject_if-ok true e h = cc
reject_if-ok false e h = refl

-- A round of the loop over the properties that goes well.
record Round (prop : String) (f : RawFieldDefinition) (es : RawEntries) (name : String)
    (path : List String) (ps ps' : Properties) : Type 0 where
  child : FieldDefinition
  valid : is_valid_identifier prop ≡ true
  defined : normalize_field_definition f prop (path ++ name ∷ []) ≡ ok child
  rest : normalize_properties es name path true (put_property ps prop child) ≡ ok ps'

round :
    (prop : String) (f : RawFieldDefinition) (es : RawEntries) (name : String) (path : List String)
    (ps : Properties) {ps' : Properties}
    → normalize_properties (entry prop f es) name path true ps ≡ ok ps'
    → Round prop f es name path ps ps'
unfolding normalize_properties
round prop f es name path ps h =
    let (u, v, h1) = >>=-eq-ok (reject_if (not (is_valid_identifier prop)) _) _ h in
    let (c, d, h2) = >>=-eq-ok (normalize_field_definition f prop (path ++ name ∷ [])) _ h1 in
    record { child = c; valid = ground (arith, reject_if-ok _ _ v); defined = d; rest = h2 }

normalize_properties-has :
    (es : RawEntries) (name : String) (path : List String) (ps : Properties) {ps' : Properties}
    → normalize_properties es name path true ps ≡ ok ps'
    → has_properties ps' ≡ (has_properties ps || has_entries es)
unfolding normalize_properties
normalize_properties-has no_entry name path ps h = ground (arith, ap has_properties (ok_inj h))
normalize_properties-has (entry n f es) name path ps h =
    let r = round n f es name path ps h in
    ground (
      arith,
      normalize_properties-has es name path (put_property ps n r.child) r.rest,
      put_property-has ps n r.child,
    )

check_source-SourceFits :
    (source : Option FieldSourceDefinition) (raw : RawFieldSpec) (name : String)
    (path order : List String) (ps : Properties) {u : Unit {0}}
    → normalize_field_source raw.source name path ≡ ok source
    → check_source source raw name path ≡ ok u
    → SourceFits (spec (finished raw name source order ps)) source
check_source-SourceFits none raw name path order ps n h = tt
check_source-SourceFits (some s) raw name path order ps n h =
    let (u, a, h1) = >>=-eq-ok (reject_if raw.repeated _) _ h in
    let (v, b, c) =
      >>=-eq-ok
        (reject_if
          (raw.type_name == "integer"
            || raw.type_name == "number"
            || raw.type_name == "boolean"
            || raw.type_name == "object")
          _)
        _ h1 in
    let b' = reject_if-ok _ _ b in
    (
      normalize_field_source-IsSelector raw.source name path n,
      reject_if-ok _ _ a,
      ground (arith, reject_if-ok _ _ c),
      not-eq→ne _ _ (ground (arith, b')),
      not-eq→ne _ _ (ground (arith, b')),
      not-eq→ne _ _ (ground (arith, b')),
      not-eq→ne _ _ (ground (arith, b')),
    )

-- The parts of a definition that is returned.
record Accepted (raw : RawFieldSpec) (props : RawEntries) (name : String) (path : List String)
    (f : FieldDefinition) : Type 0 where
  source : Option FieldSourceDefinition
  ps : Properties
  typed : raw.type_name ≢ ""
  unique_once : (raw.repeated && is_true raw.unique) ≡ false
  object_only : (has_entries props && not (raw.type_name == "object")) ≡ false
  object_some : ((raw.type_name == "object") && not (has_entries props)) ≡ false
  source_fits : (order : List String) → SourceFits (spec (finished raw name source order ps)) source
  loop : normalize_properties props name path (raw.type_name == "object") no_more ≡ ok ps
  order : List String
  same : finished raw name source order ps ≡ f

accepted :
    (raw : RawFieldSpec) (props nested : RawEntries) (name : String) (path : List String)
    {f : FieldDefinition}
    → normalize_field_definition (raw_field raw props nested) name path ≡ ok f
    → Accepted raw props name path f
unfolding normalize_field_definition
accepted raw props nested name path h =
    let (u1, e1, h1) = >>=-eq-ok (reject_if (raw.type_name == "") _) _ h in
    let (u2, e2, h2) = >>=-eq-ok (reject_if (raw.repeated && is_true raw.unique) _) _ h1 in
    let (u3, e3, h3) =
      >>=-eq-ok (reject_if (has_entries props && not (raw.type_name == "object")) _) _ h2 in
    let (u4, e4, h4) = >>=-eq-ok (reject_if (has_entries nested) _) _ h3 in
    let (source, e5, h5) = >>=-eq-ok (normalize_field_source raw.source name path) _ h4 in
    let (u6, e6, h6) = >>=-eq-ok (check_source source raw name path) _ h5 in
    let (u7, e7, h7) =
      >>=-eq-ok (reject_if ((raw.type_name == "object") && not (has_entries props)) _) _ h6 in
    let (ps, e8, h8) =
      >>=-eq-ok (normalize_properties props name path (raw.type_name == "object") no_more) _ h7 in
    record {
      source = source;
      ps = ps;
      typed = not-eq→ne _ _ (reject_if-ok _ _ e1);
      unique_once = reject_if-ok _ _ e2;
      object_only = reject_if-ok _ _ e3;
      object_some = reject_if-ok _ _ e7;
      source_fits = λ order. check_source-SourceFits source raw name path order ps e5 e6;
      loop = e8;
      order = _;
      same = ok_inj h8;
    }

-- Only an object has properties, and an object has some.
loop-object :
    (b : Bool) (props : RawEntries) (name : String) (path : List String) {ps : Properties}
    → (has_entries props && not b) ≡ false
    → (b && not (has_entries props)) ≡ false
    → normalize_properties props name path b no_more ≡ ok ps
    → b ≡ has_properties ps
unfolding normalize_properties
loop-object true props name path alone given loop =
    ground (arith, normalize_properties-has props name path no_more loop, given)
loop-object false no_entry name path alone given loop =
    ground (arith, ap has_properties (ok_inj loop))
loop-object false (entry n f es) name path alone given loop = cc

Accepted-IsSpec :
    (raw : RawFieldSpec) (props : RawEntries) (name : String) (path : List String)
    (f : FieldDefinition) (a : Accepted raw props name path f)
    → IsSpec (spec (finished raw name a.source a.order a.ps)) a.ps
Accepted-IsSpec raw props name path f a = record {
  typed = a.typed;
  unique_once = a.unique_once;
  object_iff =
      loop-object (raw.type_name == "object") props name path a.object_only a.object_some a.loop;
  source_fits = a.source_fits a.order;
}

mutual
  unfolding IsField normalize_properties

  normalize_field_definition_sound :
      (raw : RawFieldDefinition) (name : String) (path : List String) {f : FieldDefinition}
      → normalize_field_definition raw name path ≡ ok f
      → IsField f
  normalize_field_definition_sound (raw_field raw props nested) name path {f} h =
      let a = accepted raw props nested name path h in
      subst IsField a.same (
        Accepted-IsSpec raw props name path f a,
        normalize_properties_sound props name path (raw.type_name == "object") no_more tt a.loop,
      )

  normalize_properties_sound :
      (es : RawEntries) (name : String) (path : List String) (b : Bool) (ps : Properties)
      {ps' : Properties}
      → AreProperties ps
      → normalize_properties es name path b ps ≡ ok ps'
      → AreProperties ps'
  normalize_properties_sound no_entry name path b ps hs h = subst AreProperties (ok_inj h) hs
  normalize_properties_sound (entry n f es) name path false ps hs h =
      subst AreProperties (ok_inj h) hs
  normalize_properties_sound (entry n f es) name path true ps hs h =
      let r = round n f es name path ps h in
      normalize_properties_sound es name path true (put_property ps n r.child)
        (put_property-AreProperties ps n r.child r.valid
          (normalize_field_definition_sound f n (path ++ name ∷ []) r.defined) hs)
        r.rest

-- A field definition that `normalizeFieldDefinition` returns, and each property in it at any depth,
-- has a type, is not both repeated and unique, has properties exactly if it is an object, each with
-- a valid name, and if it has a source, that selects one part of the path by no negative index, and
-- the field is a single text with no default.
pub normalize_field_definition-IsField :
    (raw : RawFieldDefinition) (name : String) (path : List String) {f : FieldDefinition}
    → normalize_field_definition raw name path ≡ ok f
    → IsField f
normalize_field_definition-IsField raw name path h =
    normalize_field_definition_sound raw name path h
