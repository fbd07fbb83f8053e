-- ===== src/Config/PathSource.antt =====
-- internal/config/path_source.go: the value of a field that is derived from the path of its file.
use mergeway_cli.Prelude.{
  ℕ, ◌-◌, ◌<◌, String, ◌≡◌, refl, ◌≢◌, false, Option, none, some, List, [], ◌∷◌, ◌==◌, ◌||◌,
  if◌then◌else◌, Result, ok, err, arith, length, get_elem?, leb, ltb, Bool-cases, Option-cases, inl,
  inr, suc, zero, not,
}
use mergeway_cli.Go.Int.{ℤ, pos, negsuc}
use mergeway_cli.Go.Text.{trim_space, split}
use mergeway_cli.Go.FilePath.{clean}
use mergeway_cli.Config.Model.{FieldSourceDefinition, is_path_derived}
use mergeway_cli.Config.Fields.{is_negative, normalize_field_source}
use mergeway_cli.Config.Fields.Laws.{IsSelector, normalize_field_source-IsSelector}

-- `panics` is Go's run-time panic at a slice index out of range.
pub data PathSourceError : Type 0 where
  not_file_backed : PathSourceError
  segment_out_of_range : ℕ → String → PathSourceError
  panics : PathSourceError

-- `segments[i]`, where the index is a natural number
abbrev at_index : List String → ℕ → Result PathSourceError String
at_index segments i = elim (get_elem? segments i) [ none ↦ err panics | some s ↦ ok s ]

-- `segments[index]` behind the test `index >= len(segments)`
unfoldable pub segment_at : String → List String → ℤ → Result PathSourceError String
segment_at cleaned segments (pos index) =
    if leb (length segments) index
    then err (segment_out_of_range index cleaned)
    else at_index segments index
segment_at cleaned segments (negsuc n) = err panics

-- the index `len-1-index`, which is none where it would be negative
abbrev from_end : ℕ → ℕ → Option ℕ
from_end len index = if ltb index len then some (len - 1 - index) else none

-- `segments[i]`, where the index is negative if it is none
abbrev at_signed : List String → Option ℕ → Result PathSourceError String
at_signed segments none = err panics
at_signed segments (some i) = at_index segments i

-- `segments[len(segments)-1-index]` behind the test `index >= len(segments)`; where `index` is
-- negative, the place lies behind the end
unfoldable pub segment_rev_at : String → List String → ℤ → Result PathSourceError String
segment_rev_at cleaned segments (pos index) =
    if leb (length segments) index
    then err (segment_out_of_range index cleaned)
    else at_signed segments (from_end (length segments) index)
segment_rev_at cleaned segments (negsuc n) = err panics

abbrev segment_of : FieldSourceDefinition → String → List String → Result PathSourceError String
segment_of s cleaned segments = elim s.path_segment [
  | some index ↦ segment_at cleaned segments index
  | none ↦ elim s.path_segment_rev [
    | some index ↦ segment_rev_at cleaned segments index
    | none ↦ ok ""
  ]
]

-- `DerivePathSourceValue`
unfoldable pub derive_path_source_value :
    Option FieldSourceDefinition → String → Result PathSourceError String
derive_path_source_value none path = ok ""
derive_path_source_value (some s) path =
    let trimmed = trim_space path in
    let cleaned = clean trimmed in
    if not (is_path_derived (some s))
    then ok ""
    else if trimmed == ""
    then err not_file_backed
    else if cleaned == "." || cleaned == ""
    then err not_file_backed
    else if s.path
    then ok cleaned
    else segment_of s cleaned (split b'/' cleaned)

get_elem?-some :
    (xs : List String) (i : ℕ) → i < length xs → (s : String) × (get_elem? xs i ≡ some s)
get_elem?-some [] i h = elim h [ ]
get_elem?-some (x ∷ xs) zero h = (x, refl)
get_elem?-some (x ∷ xs) (suc i) h = get_elem?-some xs i (omega arith)

segment_at-no_panic :
    (cleaned : String) (segments : List String) (index : ℤ)
    → is_negative (some index) ≡ false
    → segment_at cleaned segments index ≢ err panics
unfolding segment_at
segment_at-no_panic cleaned segments (pos i) h e = elim (Bool-cases (leb (length segments) i)) [
  | inl out ↦ ground (arith, out, e)
  | inr inside ↦
      let (s, found) = get_elem?-some segments i (ground (arith, inside)) in
      ground (arith, inside, found, e)
]
segment_at-no_panic cleaned segments (negsuc n) h e = cc

segment_rev_at-no_panic :
    (cleaned : String) (segments : List String) (index : ℤ)
    → is_negative (some index) ≡ false
    → segment_rev_at cleaned segments index ≢ err panics
unfolding segment_rev_at
segment_rev_at-no_panic cleaned segments (pos i) h e = elim (Bool-cases (leb (length segments) i)) [
  | inl out ↦ ground (arith, out, e)
  | inr inside ↦
      let (s, found) = get_elem?-some segments (length segments - 1 - i) (ground (arith, inside)) in
      ground (arith, inside, found, e)
]
segment_rev_at-no_panic cleaned segments (negsuc n) h e = cc

segment_of-no_panic :
    (s : FieldSourceDefinition) (cleaned : String) (segments : List String)
    → IsSelector s
    → segment_of s cleaned segments ≢ err panics
segment_of-no_panic s cleaned segments h e = elim (Option-cases s.path_segment) [
  | inr (i, q) ↦
      segment_at-no_panic cleaned segments i (ground (arith, q, h.segment)) (ground (arith, q, e))
  | inl q ↦ elim (Option-cases s.path_segment_rev) [
    | inr (i, r) ↦
        segment_rev_at-no_panic cleaned segments i (ground (arith, r, h.segment_rev))
          (ground (arith, q, r, e))
    | inl r ↦ ground (arith, q, r, e)
  ]
]

-- With a source that `normalizeFieldSource` returned, deriving the value of a path never indexes
-- outside the list of its segments: it returns a value or an error of the program.
pub derive_path_source_value-no_panic :
    (raw : FieldSourceDefinition) (name : String) (field_path : List String) (path : String)
    {s : FieldSourceDefinition}
    → normalize_field_source raw name field_path ≡ ok (some s)
    → derive_path_source_value (some s) path ≢ err panics
unfolding derive_path_source_value
derive_path_source_value-no_panic raw name field_path path {s} h e =
    let cleaned = clean (trim_space path) in
    ground (
      arith,
      e,
      segment_of-no_panic s cleaned (split b'/' cleaned)
          (normalize_field_source-IsSelector raw name field_path h),
    )
