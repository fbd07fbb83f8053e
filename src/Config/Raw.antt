-- ===== src/Config/Raw.antt =====
-- internal/config/raw.go: the configuration as the YAML decoder leaves it.
use mergeway_cli.Prelude.{String, Bool, Option, List}
use mergeway_cli.Value.Defs.{Value, Fields}
use mergeway_cli.Config.Model.{IncludeDefinition, FieldSourceDefinition}

-- `set` tells an identifier that is given from one that is left out.
pub record RawIdentifierSpec : Type 0 where
  pub field : String
  pub generated : Bool
  pub pattern : String
  pub set : Bool

-- The fields of `rawFieldDefinition` but for `Properties` and `Fields`.
pub record RawFieldSpec : Type 0 where
  pub type_name : String
  pub required : Bool
  pub repeated : Bool
  pub format : String
  pub enum : List String
  pub default : Value
  pub unique : Option Bool
  pub pattern : String
  pub description : String
  pub source : FieldSourceDefinition

mutual
  -- with the entries of `Properties` and of `Fields`
  pub data RawFieldDefinition : Type 0 where
    raw_field : RawFieldSpec → RawEntries → RawEntries → RawFieldDefinition

  -- `rawFieldMap`
  pub data RawEntries : Type 0 where
    no_entry : RawEntries
    entry : String → RawFieldDefinition → RawEntries → RawEntries

pub record RawTypeSpec : Type 0 where
  pub identifier : RawIdentifierSpec
  pub extends : String
  pub include : List IncludeDefinition
  pub fields : RawEntries
  pub json_schema : String
  pub inline_data : List Fields
  pub description : String

-- `rawTypeWithSource`
pub record RawType : Type 0 where
  pub name : String
  pub spec : RawTypeSpec
  pub source : String
