-- ===== src/Config/Names.antt =====
-- The tests of names in internal/config/normalize.go.
use Prim.Native.Char.{code}
use mergeway_cli.Prelude.{
  ℕ, String, ◌≡◌, ◌≢◌, Bool, true, false, ◌&&◌, ◌||◌, leb, eqb, if◌then◌else◌, ◌==◌, arith, eq_iff,
  &&-eq-true,
}
use mergeway_cli.Go.Text.{all_chars, is_space}
use mergeway_cli.Go.Text.Laws.{NoSpace, Lacks}
use mergeway_cli.Config.Model.{path_identifier_field}

-- `r >= 'a' && r <= 'z'`, and so on for the other ranges, `-` and `_`
abbrev pub is_identifier_char : ℕ → Bool
is_identifier_char r =
    (leb b'a' r && leb r b'z')
    || (leb b'A' r && leb r b'Z')
    || (leb b'0' r && leb r b'9')
    || eqb r b'-'
    || eqb r b'_'

-- `isValidIdentifier`
unfoldable pub is_valid_identifier : String → Bool
is_valid_identifier value = if value == "" then false else all_chars is_identifier_char value

-- `isValidIdentifierField`
unfoldable pub is_valid_identifier_field : String → Bool
is_valid_identifier_field value = value == path_identifier_field || is_valid_identifier value

abbrev starts_upper : String → Bool
starts_upper String.[] = false
starts_upper (String.◌∷◌ c s) = leb b'A' (code c) && leb (code c) b'Z'

-- `isValidTypeName`; a first byte outside ASCII is no upper-case letter, and neither is its text.
unfoldable pub is_valid_type_name : String → Bool
is_valid_type_name value = if is_valid_identifier value then starts_upper value else false

identifier_char_no_space : (c : ℕ) → is_identifier_char c ≡ true → is_space c ≡ false
unfolding is_space
identifier_char_no_space c h = ground arith

identifier_char_no_bar : (c : ℕ) → is_identifier_char c ≡ true → eqb c b'|' ≡ false
identifier_char_no_bar c h = ground arith

all_chars-NoSpace : (s : String) → all_chars is_identifier_char s ≡ true → NoSpace s
unfolding all_chars
all_chars-NoSpace String.[] h = tt
all_chars-NoSpace (String.◌∷◌ c s) h =
    let (first, rest) = &&-eq-true _ _ h in
    (identifier_char_no_space (code c) first, all_chars-NoSpace s rest)

all_chars-Lacks : (s : String) → all_chars is_identifier_char s ≡ true → Lacks b'|' s
unfolding all_chars
all_chars-Lacks String.[] h = tt
all_chars-Lacks (String.◌∷◌ c s) h =
    let (first, rest) = &&-eq-true _ _ h in
    (identifier_char_no_bar (code c) first, all_chars-Lacks s rest)

pub is_valid_type_name-ne : (s : String) → is_valid_type_name s ≡ true → s ≢ ""
unfolding is_valid_type_name is_valid_identifier
is_valid_type_name-ne s h e = ground (arith, eq_iff s "")

valid_chars : (s : String) → is_valid_type_name s ≡ true → all_chars is_identifier_char s ≡ true
unfolding is_valid_type_name is_valid_identifier
valid_chars s h = ground arith

pub is_valid_type_name-NoSpace : (s : String) → is_valid_type_name s ≡ true → NoSpace s
is_valid_type_name-NoSpace s h = all_chars-NoSpace s (valid_chars s h)

pub is_valid_type_name-Lacks : (s : String) → is_valid_type_name s ≡ true → Lacks b'|' s
is_valid_type_name-Lacks s h = all_chars-Lacks s (valid_chars s h)
