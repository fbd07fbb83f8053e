-- ===== src/Config/Fields/Includes.antt =====
-- `normalizeIncludeDirectives` drops the directives with no path and the repetitions, and nothing
-- else.
use mergeway_cli.Prelude.{
  String, ◌≡◌, refl, false, List, [], ◌∷◌, ◌==◌, if◌then◌else◌, arith, eq_iff, eq_refl, member,
  Distinct, Bool-cases, inl, inr, ◌&&◌, not,
}
use mergeway_cli.Config.Model.{IncludeDefinition}
use mergeway_cli.Config.Fields.{include_key, include_directives, normalize_include_directives}

abbrev pub include_keys : List IncludeDefinition → List String
include_keys [] = []
include_keys (e ∷ es) = include_key e ∷ include_keys es

abbrev pub with_path : List IncludeDefinition → List IncludeDefinition
with_path [] = []
with_path (e ∷ es) = let rest = with_path es in if e.path == "" then rest else e ∷ rest

-- The keys of the result are those of the entries with a path that were not seen before.
member-include_directives :
    (seen : List String) (es : List IncludeDefinition) (k : String)
    → member (include_keys (include_directives seen es)) k
      ≡ (member (include_keys (with_path es)) k && not (member seen k))
unfolding include_directives member
member-include_directives seen [] k = refl
member-include_directives seen (e ∷ es) k = ground (
  arith,
  member-include_directives seen es k,
  member-include_directives (include_key e ∷ seen) es k,
  eq_iff (include_key e) k,
)

-- A key that was seen is not taken again.
fresh :
    (seen : List String) (k : String) (es : List IncludeDefinition)
    → member (include_keys (include_directives (k ∷ seen) es)) k ≡ false
unfolding member
fresh seen k es = ground (arith, member-include_directives (k ∷ seen) es k, eq_refl k)

Distinct-include_directives :
    (seen : List String) (es : List IncludeDefinition)
    → Distinct (include_keys (include_directives seen es))
unfolding include_directives member
Distinct-include_directives seen [] = tt
Distinct-include_directives seen (e ∷ es) = elim (Bool-cases (e.path == "")) [
  | inl p ↦ rw p (Distinct-include_directives seen es)
  | inr p ↦ elim (Bool-cases (member seen (include_key e))) [
    | inl m ↦ rw (p, m) (Distinct-include_directives seen es)
    | inr m ↦
        rw (p, m)
          (fresh seen (include_key e) es, Distinct-include_directives (include_key e ∷ seen) es)
  ]
]

-- The directives that are left have distinct keys, path and selector together, and their keys are
-- exactly those of the entries that have a path.
pub normalize_include_directives-keys :
    (es : List IncludeDefinition)
    → Distinct (include_keys (normalize_include_directives es))
      × ((k : String)
          → member (include_keys (normalize_include_directives es)) k
            ≡ member (include_keys (with_path es)) k)
unfolding normalize_include_directives member
normalize_include_directives-keys es =
    (Distinct-include_directives [] es, λ k. ground (arith, member-include_directives [] es k))
