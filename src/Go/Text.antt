-- ===== src/Go/Text.antt =====
-- The functions of the package strings that the code uses.
pub mod Laws
use Prim.Native.Char.{Char, code}
use Prim.Native.String
use mergeway_cli.Prelude.{
  ℕ, String, Bool, true, false, List, [], ◌∷◌, eqb, leb, ◌&&◌, ◌||◌, not, if◌then◌else◌, ◌==◌,
}

-- `unicode.IsSpace`
unfoldable pub is_space : ℕ → Bool
is_space c =
    (leb 9 c && leb c 13)
    || eqb c 32
    || eqb c 0x85
    || eqb c 0xA0
    || eqb c 0x1680
    || (leb 0x2000 c && leb c 0x200A)
    || eqb c 0x2028
    || eqb c 0x2029
    || eqb c 0x202F
    || eqb c 0x205F
    || eqb c 0x3000

unfoldable pub trim_left : String → String
trim_left String.[] = ""
trim_left (String.◌∷◌ c s) = if is_space (code c) then trim_left s else String.◌∷◌ c s

-- What is left of `c ∷ s` where `rest` is left of `s`.
abbrev pub keep_right : Char → String → String
keep_right c String.[] = if is_space (code c) then "" else String.◌∷◌ c ""
keep_right c (String.◌∷◌ d s) = String.◌∷◌ c (String.◌∷◌ d s)

unfoldable pub trim_right : String → String
trim_right String.[] = ""
trim_right (String.◌∷◌ c s) = keep_right c (trim_right s)

-- `strings.TrimSpace`
unfoldable pub trim_space : String → String
trim_space s = trim_right (trim_left s)

abbrev pub push_head : Char → List String → List String
push_head c [] = String.◌∷◌ c "" ∷ []
push_head c (x ∷ xs) = String.◌∷◌ c x ∷ xs

-- `strings.Split(s, sep)`
unfoldable pub split : ℕ → String → List String
split sep String.[] = "" ∷ []
split sep (String.◌∷◌ c s) =
    let parts = split sep s in if eqb (code c) sep then "" ∷ parts else push_head c parts

-- `strings.Join(parts, sep)`
unfoldable pub join : List String → String → String
join [] sep = ""
join (x ∷ []) sep = x
join (x ∷ y ∷ xs) sep = String.◌++◌ x (String.◌++◌ sep (join (y ∷ xs) sep))

-- `strings.Contains(s, sep)`
unfoldable pub contains : String → ℕ → Bool
contains String.[] sep = false
contains (String.◌∷◌ c s) sep = eqb (code c) sep || contains s sep

-- every character of the text passes the test
unfoldable pub all_chars : (ℕ → Bool) → String → Bool
all_chars p String.[] = true
all_chars p (String.◌∷◌ c s) = p (code c) && all_chars p s

-- `strings.HasPrefix(s, prefix)`
unfoldable pub has_prefix : String → String → Bool
has_prefix String.[] s = true
has_prefix (String.◌∷◌ c p) String.[] = false
has_prefix (String.◌∷◌ c p) (String.◌∷◌ d s) = eqb (code c) (code d) && has_prefix p s

-- `strings.ReplaceAll(s, old, new)` for one character `old`
unfoldable pub replace_char : ℕ → String → String → String
replace_char old new String.[] = ""
replace_char old new (String.◌∷◌ c s) =
    let rest = replace_char old new s in
    if eqb (code c) old then String.◌++◌ new rest else String.◌∷◌ c rest

-- `strings.Map` of a function on the characters
unfoldable pub map_chars : (Char → Char) → String → String
map_chars f String.[] = ""
map_chars f (String.◌∷◌ c s) = String.◌∷◌ (f c) (map_chars f s)
