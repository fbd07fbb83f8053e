-- ===== src/Config/References/Sound.antt =====
-- What `parseReferenceTypes` lets through.
use mergeway_cli.Prelude.{
  String, ◌≡◌, refl, true, false, List, [], ◌∷◌, ◌++◌, ◌==◌, ◌||◌, ok, member, ok_inj, arith,
  Bool-cases, inl, inr, All, All-append, Distinct, subst, eq_iff,
}
use mergeway_cli.Go.Text.{trim_space, split, contains}
use mergeway_cli.Config.Names.{is_valid_type_name}
use mergeway_cli.Config.References.{
  is_primitive, union_members, parse_trimmed, parse_reference_types,
}

-- The names are valid names of types, none is a primitive type, and none stands twice.
pub record AreReferences (names : List String) : Type 0 where
  pub valid : All (λ n. (is_valid_type_name n ≡ true) × (is_primitive n ≡ false)) names
  pub distinct : Distinct names

pub member-append :
    (xs : List String) (y x : String) → member (xs ++ y ∷ []) x ≡ (member xs x || y == x)
unfolding member
member-append [] y x = ground arith
member-append (z ∷ xs) y x = ground (arith, member-append xs y x)

Distinct-append :
    (xs : List String) (y : String) → Distinct xs → member xs y ≡ false → Distinct (xs ++ y ∷ [])
unfolding member
Distinct-append [] y d n = (refl, tt)
Distinct-append (x ∷ xs) y d n = (
  ground (arith, member-append xs y x, d.0, n, eq_iff x y, eq_iff y x),
  Distinct-append xs y d.1 (ground (arith, n)),
)

union_members-AreReferences :
    (type_name : String) (ref_types parts : List String) {names : List String}
    → AreReferences ref_types
    → union_members type_name ref_types parts ≡ ok names
    → AreReferences names
unfolding union_members
union_members-AreReferences type_name ref_types [] r h = subst AreReferences (ok_inj h) r
union_members-AreReferences type_name ref_types (raw ∷ parts) r h =
    let part = trim_space raw in
    union_members-AreReferences type_name (ref_types ++ part ∷ []) parts
      (record {
        valid =
            All-append _ ref_types (part ∷ []) r.valid ((ground (arith, h), ground (arith, h)), tt);
        distinct = Distinct-append ref_types part r.distinct (ground (arith, h));
      })
      (ground (arith, h))

parse_trimmed-AreReferences :
    (t : String) {names : List String} → parse_trimmed t ≡ ok names → AreReferences names
unfolding parse_trimmed member
parse_trimmed-AreReferences t {names} h = elim (Bool-cases (is_primitive t)) [
  | inl p ↦
      let e : ◌≡◌ {A = List String} [] names = ground (arith, p) in
      subst AreReferences e (record { valid = tt; distinct = tt })
  | inr p ↦ elim (Bool-cases (contains t b'|')) [
    | inl c ↦
        union_members-AreReferences t [] (split b'|' t) (record { valid = tt; distinct = tt })
          (ground (arith, p, c))
    | inr c ↦
        let e : t ∷ [] ≡ names = ground (arith, p, c) in
        subst AreReferences e
          (record { valid = ((ground (arith, p, c), p), tt); distinct = (refl, tt) })
  ]
]

-- The names that `parseReferenceTypes` returns are distinct valid names of types, and none of them
-- is a primitive type.
pub parse_reference_types-AreReferences :
    (raw : String) {names : List String}
    → parse_reference_types raw ≡ ok names
    → AreReferences names
unfolding parse_reference_types
parse_reference_types-AreReferences raw h = parse_trimmed-AreReferences (trim_space raw) h
