-- ===== src/Go/FilePath.antt =====
-- path/filepath on Unix, where `FromSlash` and `ToSlash` change nothing.
use Prim.Native.String
use Prim.Native.Char.{code}
use mathlib.Core.List.{reverse}
use mergeway_cli.Prelude.{
  String, ◌≡◌, refl, Bool, true, false, not, ◌&&◌, Option, none, some, List, [], ◌∷◌, eqb, ◌==◌,
  ◌||◌, if◌then◌else◌,
}
use mergeway_cli.Go.Text.{split, join, contains, has_prefix}

-- `filepath.IsAbs`
unfoldable pub is_abs : String → Bool
is_abs String.[] = false
is_abs (String.◌∷◌ c s) = eqb (code c) b'/'

-- One element of the path, on the elements so far, the last one first.
unfoldable pub clean_step : Bool → List String → String → List String
clean_step rooted [] part =
    if part == "" || part == "."
    then []
    else if part == ".."
    then (if rooted then [] else ".." ∷ [])
    else part ∷ []
clean_step rooted (top ∷ stack) part =
    if part == "" || part == "."
    then top ∷ stack
    else if part == ".."
    then (if top == ".." then ".." ∷ top ∷ stack else stack)
    else part ∷ top ∷ stack

unfoldable pub clean_parts : Bool → List String → List String → List String
clean_parts rooted stack [] = stack
clean_parts rooted stack (p ∷ ps) = clean_parts rooted (clean_step rooted stack p) ps

-- `filepath.Clean`
unfoldable pub clean : String → String
clean path =
    let rooted = is_abs path in
    let text = join (reverse (clean_parts rooted [] (split b'/' path))) "/" in
    if rooted then String.◌++◌ "/" text else if text == "" then "." else text

clean_runs : clean "a/./b//../c/" ≡ "a/c"
unfolding clean is_abs clean_parts clean_step split join
clean_runs = refl

-- `filepath.Join` of two elements; empty elements are left out.
unfoldable pub join_path : String → String → String
join_path a b =
    if a == ""
    then (if b == "" then "" else clean b)
    else if b == ""
    then clean a
    else clean (String.◌++◌ a (String.◌++◌ "/" b))

-- The elements of a clean path, without its leading slash.
abbrev drop_root : List String → List String
drop_root [] = []
drop_root (x ∷ xs) = if x == "" then xs else x ∷ xs

unfoldable pub path_parts : String → List String
path_parts path = if path == "." || path == "/" then [] else drop_root (split b'/' path)

abbrev ups : List String → List String → List String
ups [] rest = rest
ups (b ∷ bs) rest = ".." ∷ ups bs rest

-- `filepath.Rel` on the elements: what is left behind the common ones; `none` where `..` stands there.
unfoldable pub rel_parts : List String → List String → Option (List String)
rel_parts [] targ = some targ
rel_parts (b ∷ base) [] = if b == ".." then none else some (ups (b ∷ base) [])
rel_parts (b ∷ base) (t ∷ targ) =
    let deeper = rel_parts base targ in
    if b == t then deeper else if b == ".." then none else some (ups (b ∷ base) (t ∷ targ))

abbrev same_root : Bool → Bool → Bool
same_root true b = b
same_root false b = not b

-- `filepath.Rel(base, targ)`, `none` for its error
unfoldable pub rel : String → String → Option String
rel base_path targ_path =
    let base = clean base_path in
    let targ = clean targ_path in
    if base == targ
    then some "."
    else if not (same_root (is_abs base) (is_abs targ))
    then none
    else elim (rel_parts (path_parts base) (path_parts targ)) [
      | none ↦ none
      | some parts ↦ some (join parts "/")
    ]

-- What `rel` gives leads out of its base.
unfoldable pub leads_out : String → Bool
leads_out path = path == ".." || has_prefix "../" path

-- The text up to the last slash.
abbrev without_last : List String → List String
without_last [] = []
without_last (x ∷ []) = "" ∷ []
without_last (x ∷ y ∷ xs) = x ∷ without_last (y ∷ xs)

-- `filepath.Dir`
unfoldable pub dir : String → String
dir path = clean (join (without_last (split b'/' path)) "/")

-- The text from the last dot on; a slash ends the search.
unfoldable pub last_dot : String → String
last_dot String.[] = ""
last_dot (String.◌∷◌ c s) =
    let later = last_dot s in
    if later == ""
    then (if eqb (code c) b'.' && not (contains s b'/') then String.◌∷◌ c s else "")
    else later

-- `filepath.Ext`
unfoldable pub ext : String → String
ext path = last_dot path

ext_runs : ext "a.b/c.tar.JSON" ≡ ".JSON"
unfolding ext last_dot contains
ext_runs = refl

no_ext_runs : ext "a.b/c" ≡ ""
unfolding ext last_dot contains
no_ext_runs = refl

dir_runs : dir "/a" ≡ "/"
unfolding dir clean is_abs clean_parts clean_step split join
dir_runs = refl

rel_runs : rel "/repo/data" "/repo/other/x.yaml" ≡ some "../other/x.yaml"
unfolding rel rel_parts path_parts clean is_abs clean_parts clean_step split join
rel_runs = refl
