-- ===== src/Store/Paths.antt =====
-- The paths of internal/data: normalizeRelativePathIdentifier and relativePathIdentifier of
-- identifier.go, and detectFormat, sanitizeFilename, replaceGlob and pathWithinRoot of util.go.
use Prim.Native.Char.{Char, code}
use mergeway_cli.Prelude.{
  ℕ, String, Bool, not, ◌&&◌, ◌||◌, none, some, Result, ok, err, ◌==◌, leb, eqb, if◌then◌else◌,
}
use mergeway_cli.Go.Text.{trim_space, contains, replace_char, map_chars}
use mergeway_cli.Go.FilePath.{is_abs, clean, join_path, rel, leads_out, ext}
use mergeway_cli.Store.Defs.{
  FileFormat, format_yaml, format_json, StoreError, not_text, not_relative, outside_root,
  not_file_backed, unresolved_path,
}
use mergeway_cli.Config.Model.{path_identifier_field}

-- `unicode.ToLower` on the letters that `.json` has; no other letter has one of them as its lower case.
abbrev lower_char : Char → Char
lower_char c =
    if eqb (code c) b'J'
    then "j"
    else if eqb (code c) b'S'
    then "s"
    else if eqb (code c) b'O'
    then "o"
    else if eqb (code c) b'N'
    then "n"
    else c

-- `detectFormat`
unfoldable pub detect_format : String → FileFormat
detect_format path = if map_chars lower_char (ext path) == ".json" then format_json else format_yaml

-- `normalizeRelativePathIdentifier(value, allowParent)`
unfoldable pub normalize_relative_path_identifier : Bool → String → Result StoreError String
normalize_relative_path_identifier allow_parent raw =
    let value = trim_space raw in
    let cleaned = clean value in
    if value == ""
    then err (not_text path_identifier_field)
    else if is_abs value
    then err not_relative
    else if cleaned == "." || cleaned == ""
    then err (not_text path_identifier_field)
    else if not allow_parent && leads_out cleaned
    then err outside_root
    else ok cleaned

-- the path under the root, unless it is absolute
abbrev pub absolute : String → String → String
absolute root path = if is_abs path then path else join_path root path

-- `relativePathIdentifier(root, path, allowParent)`
unfoldable pub relative_path_identifier : Bool → String → String → Result StoreError String
relative_path_identifier allow_parent root path =
    if path == "" then err not_file_backed else elim (rel root (absolute root path)) [
      | none ↦ err (unresolved_path path)
      | some relative ↦ normalize_relative_path_identifier allow_parent relative
    ]

-- `pathWithinRoot`
unfoldable pub path_within_root : String → String → Result StoreError Bool
path_within_root root path = elim (rel root (absolute root path)) [
  | none ↦ err (unresolved_path path)
  | some relative ↦ ok (not (leads_out relative))
]

-- the characters that a file name keeps
abbrev pub is_file_char : ℕ → Bool
is_file_char r =
    (leb b'a' r && leb r b'z')
    || (leb b'A' r && leb r b'Z')
    || (leb b'0' r && leb r b'9')
    || eqb r b'-'
    || eqb r b'_'
    || eqb r b'.'

abbrev pub file_char : Char → Char
file_char c = if is_file_char (code c) then c else "-"

-- `sanitizeFilename`
unfoldable pub sanitize_filename : String → String
sanitize_filename value = if value == "" then "object" else map_chars file_char value

-- `replaceGlob`
unfoldable pub replace_glob : String → String → String
replace_glob pattern value =
    let starred = if contains pattern b'*' then replace_char b'*' value pattern else pattern in
    if contains starred b'?' then replace_char b'?' value starred else starred

-- `strings.ContainsAny(pattern, "*?[")`
unfoldable pub has_glob : String → Bool
has_glob pattern = contains pattern b'*' || contains pattern b'?' || contains pattern b'['
