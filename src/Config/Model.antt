-- ===== src/Config/Model.antt =====
-- internal/config/model.go: the normalised configuration. A Go pointer that the code never leaves
-- `nil` is the value behind it; `any` and a pointer that may be `nil` are `Value.null` and `none`.
use mergeway_cli.Prelude.{
  ℕ, String, Bool, true, false, Option, none, some, List, ◌==◌, ltb, length, ◌||◌,
}
use mergeway_cli.Go.Int.{ℤ}
use mergeway_cli.Go.Map.{Map}
use mergeway_cli.Value.Defs.{Value, Fields}

pub data WriteFormat : Type 0 where
  yaml json : WriteFormat

-- `WriteDefaults` and `WriteDefinition`
pub record WriteDefinition : Type 0 where
  pub template : String
  pub format : WriteFormat

-- `PathIdentifierField`
abbrev pub path_identifier_field : String
path_identifier_field = "$path"

pub record IncludeDefinition : Type 0 where
  pub path : String
  pub selector : String

pub record IdentifierDefinition : Type 0 where
  pub field : String
  pub generated : Bool
  pub pattern : String

-- `IdentifierDefinition.IsPath`
abbrev pub is_path : IdentifierDefinition → Bool
is_path d = d.field == path_identifier_field

pub record FieldSourceDefinition : Type 0 where
  pub path : Bool
  pub path_segment : Option ℤ
  pub path_segment_rev : Option ℤ

abbrev pub is_some : {A : Type 0} → Option A → Bool
is_some none = false
is_some (some a) = true

-- `FieldSourceDefinition.IsPathDerived`, on a pointer that may be `nil`
abbrev pub is_path_derived : Option FieldSourceDefinition → Bool
is_path_derived none = false
is_path_derived (some d) = d.path || is_some d.path_segment || is_some d.path_segment_rev

-- The fields of `FieldDefinition` but for `Properties`.
pub record FieldSpec : Type 0 where
  pub name : String
  pub type_name : String
  pub reference_types : List String
  pub required : Bool
  pub repeated : Bool
  pub format : String
  pub enum : List String
  pub default : Value
  pub unique : Bool
  pub pattern : String
  pub description : String
  pub property_order : List String
  pub source : Option FieldSourceDefinition

mutual
  pub data FieldDefinition : Type 0 where
    define : FieldSpec → Properties → FieldDefinition

  -- `map[string]*FieldDefinition`
  pub data Properties : Type 0 where
    no_more : Properties
    property : String → FieldDefinition → Properties → Properties

abbrev pub spec : FieldDefinition → FieldSpec
spec (define s ps) = s

abbrev pub properties : FieldDefinition → Properties
properties (define s ps) = ps

-- `FieldDefinition.IsReference`
abbrev pub is_reference : FieldDefinition → Bool
is_reference f = ltb 0 (length (spec f).reference_types)

-- `FieldDefinition.HasReferenceUnion`
abbrev pub has_reference_union : FieldDefinition → Bool
has_reference_union f = ltb 1 (length (spec f).reference_types)

pub record TypeDefinition : Type 0 where
  pub name : String
  pub source : String
  pub description : String
  pub extends : String
  pub ancestors : List String
  pub descendants : List String
  pub json_schema : String
  pub identifier : IdentifierDefinition
  pub include : List IncludeDefinition
  pub fields : Map FieldDefinition
  pub field_order : List String
  pub inline_data : List Fields
  pub write : WriteDefinition

pub record Config : Type 0 where
  pub version : ℕ
  pub types : Map TypeDefinition
  pub write : WriteDefinition
