-- ===== src/Validation/Phases.antt =====
-- internal/validation/validate.go, with `normalizePhases` and `appendFiltered` of util.go. Reading
-- the objects from the files (`collectObjects`) is a parameter: what it collects, and its errors.
use mergeway_cli.Prelude.{
  ◌≡◌, refl, Bool, true, false, List, [], ◌∷◌, ◌||◌, if◌then◌else◌, ◌↔◌, any,
}
use mergeway_cli.Go.Map.{Map}
use mergeway_cli.Value.Scalar.{FloatFormat}
use mergeway_cli.Config.Model.{Config}
use mergeway_cli.Validation.Types.{Phase, format, schema, references, Error, RawObject}
use mergeway_cli.Validation.Field.{TextTests}
use mergeway_cli.Validation.Schema.{KeyTexts}
use mergeway_cli.Validation.Index.{validate_schema}
use mergeway_cli.Validation.References.{validate_references}

-- the map of `normalizePhases`
pub record PhaseSet : Type 0 where
  pub has_format : Bool
  pub has_schema : Bool
  pub has_references : Bool

abbrev is_format : Phase → Bool
is_format format = true
is_format p = false

abbrev is_schema : Phase → Bool
is_schema schema = true
is_schema p = false

abbrev is_references : Phase → Bool
is_references references = true
is_references p = false

-- `normalizePhases`
unfoldable pub normalize_phases : List Phase → PhaseSet
normalize_phases [] = record { has_format = true; has_schema = true; has_references = true }
normalize_phases (p ∷ ps) = record {
  has_format = any is_format (p ∷ ps);
  has_schema = any is_schema (p ∷ ps);
  has_references = any is_references (p ∷ ps);
}

-- `appendFiltered` onto an empty list
abbrev pub filtered : Bool → List Error → List Error
filtered true errs = errs
filtered false errs = []

-- `errs[:1]` where the run fails fast and there are more
abbrev pub cut_short : Bool → List Error → List Error
cut_short true (e ∷ es) = e ∷ []
cut_short fast es = es

abbrev pub or_next : List Error → List Error → List Error → List Error
or_next [] found next = next
or_next (e ∷ es) found next = found

module _ (floats : FloatFormat) (texts : TextTests) (prints : KeyTexts) where
  -- `ValidateWithOps`
  unfoldable pub validate_with_ops :
      (Config → Map (List RawObject) × List Error) → Config → List Phase → Bool → List Error
  validate_with_ops collect c phases fail_fast =
      let wanted = normalize_phases phases in
      let collected = collect c in
      let index = validate_schema floats texts prints collected.0 c in
      or_next collected.1 (filtered wanted.has_format (cut_short fail_fast collected.1)) (
        or_next index.errors
          (filtered (wanted.has_schema || wanted.has_references) (cut_short fail_fast index.errors))
          (if wanted.has_references
            then cut_short fail_fast (validate_references floats index.all index.by_assignable c)
            else []))

  cut_short-none : (fast : Bool) (es : List Error) → cut_short fast es ≡ [] → es ≡ []
  cut_short-none true [] h = refl
  cut_short-none true (e ∷ es) h = absurd (cc)
  cut_short-none false es h = h

  cut_short-nil : (fast : Bool) → cut_short fast [] ≡ []
  cut_short-nil true = refl
  cut_short-nil false = refl

  or_next-none :
      (fast : Bool) (es next : List Error)
      → or_next es (cut_short fast es) next ≡ []
      → (es ≡ []) × (next ≡ [])
  or_next-none fast [] next h = (refl, h)
  or_next-none true (e ∷ es) next h = absurd (cc)
  or_next-none false (e ∷ es) next h = absurd (cc)

  -- A run over all phases has no error exactly where reading the objects, the check of the schema and
  -- the check of the references have none, whether it fails fast or not.
  pub validate_with_ops-none_iff :
      (collect : Config → Map (List RawObject) × List Error) (c : Config) (fail_fast : Bool)
      → (validate_with_ops collect c [] fail_fast ≡ []) ↔ (
          ((collect c).1 ≡ [])
          × ((validate_schema floats texts prints (collect c).0 c).errors ≡ [])
          × (validate_references floats
                (validate_schema floats texts prints (collect c).0 c).all
                (validate_schema floats texts prints (collect c).0 c).by_assignable
                c
              ≡ []))
  unfolding validate_with_ops normalize_phases
  validate_with_ops-none_iff collect c fail_fast =
      let index = validate_schema floats texts prints (collect c).0 c in
      let refs = validate_references floats index.all index.by_assignable c in
      (
        (λ h.
            let p = or_next-none fail_fast (collect c).1 _ h in
            let q = or_next-none fail_fast index.errors _ p.1 in
            (p.0, q.0, cut_short-none fail_fast refs q.1)),
        λ h. rw (h.0, h.1, h.2) (cut_short-nil fail_fast),
      )
