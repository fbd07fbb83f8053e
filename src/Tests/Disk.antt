-- ===== src/Tests/Disk.antt =====
-- A store in memory: a file system that is a map of texts, and one document that all files hold.
use mergeway_cli.Prelude.{
  String, ◌≡◌, refl, ◌≢◌, Bool, true, false, Option, none, some, List, [], ◌∷◌, Result, ok, err,
  arith, eq_iff, eq_refl, ◌==◌,
}
use mergeway_cli.Go.Map.{Map, get, put, remove, keys, get-put, get-remove}
use mergeway_cli.Go.Int.{pos}
use mergeway_cli.Value.Defs.{null, str, Fields, end, field}
use mergeway_cli.Config.Model.{
  FieldDefinition, FieldSourceDefinition, define, no_more, TypeDefinition, Config,
  IncludeDefinition, yaml,
}
use mergeway_cli.Store.Defs.{MaybeMap, FileError, not_exist, Env, IsLawful}

pub point_five : ◌≢◌ {A = String} "0.5" ""
point_five h = ground (arith, (eq_iff "0.5" "").1 h)

abbrev pub read_text : Map String → String → Result FileError String
read_text s p = elim (get s p) [ none ↦ err not_exist | some t ↦ ok t ]

abbrev pub no_dir : Map String → String → Result FileError Bool
no_dir s p = elim (get s p) [ none ↦ err not_exist | some t ↦ ok false ]

-- All documents decode to `doc`; a path to a place in a document finds nothing.
abbrev pub memory : MaybeMap → Config → Env
memory doc config = record {
  State = Map String;
  read_file = read_text;
  is_dir = no_dir;
  glob = λ s p. ok (keys s);
  make_dir = λ s d. (s, ok tt);
  write_text = λ s p t. (put s p t, ok tt);
  remove = λ s p. (remove s p, ok tt);
  glob_match = λ pattern p. ok true;
  decode_map = λ t. ok doc;
  decode = λ t. ok null;
  encode = λ f m. ok "doc";
  select = λ selector v. ok [];
  parse_float = λ s. none;
  float_of_int = λ i. 0;
  is_integral = λ bits. true;
  int64_of_float = λ bits. pos 0;
  floats = record { format_float = λ k bits. "0.5"; format_float-ne = λ k bits. point_five };
  root = "/repo";
  config = config;
}

read-put :
    (s : Map String) (p q t : String) → (p == q) ≡ false → read_text (put s p t) q ≡ read_text s q
read-put s p q t n = ground (arith, get-put s p q t, n)

read-removed :
    (s : Map String) (p q : String) → (p == q) ≡ false → read_text (remove s p) q ≡ read_text s q
read-removed s p q n = ground (arith, get-remove s p q, n)

pub memory-IsLawful : (doc : MaybeMap) (config : Config) → IsLawful (memory doc config)
memory-IsLawful doc config = record {
  read-write_text = λ s p t h. ground (arith, get-put s p p t, eq_refl p);
  read-write_text_ne = λ s p q t n. read-put s p q t n;
  read-remove = λ s p h. ground (arith, get-remove s p p, eq_refl p);
  read-remove_ne = λ s p q n. read-removed s p q n;
  read-make_dir = λ s d q. refl;
}

abbrev pub a_field : String → Option FieldSourceDefinition → FieldDefinition
a_field name source =
    define
      (record {
        name = name;
        type_name = "string";
        reference_types = [];
        required = false;
        repeated = false;
        format = "";
        enum = [];
        default = null;
        unique = false;
        pattern = "";
        description = "";
        property_order = [];
        source = source;
      })
      no_more

abbrev pub a_type : String → List IncludeDefinition → Map FieldDefinition → TypeDefinition
a_type id includes fields = record {
  name = "User";
  source = "";
  description = "";
  extends = "";
  ancestors = [];
  descendants = [];
  json_schema = "";
  identifier = record { field = id; generated = false; pattern = "" };
  include = includes;
  fields = fields;
  field_order = [];
  inline_data = [];
  write = record { template = ""; format = yaml };
}

abbrev pub include_of : String → IncludeDefinition
include_of path = record { path = path; selector = "" }

abbrev pub config_of : TypeDefinition → Config
config_of t = record {
  version = 1;
  types = ("User", t) ∷ [];
  write = record { template = ""; format = yaml };
}

abbrev pub named : String → Fields
named id = field "id" (str id) end
