-- ===== src/Config/IsA/Laws.antt =====
-- What `IsA` and `AssignableTypes` decide: the inheritance relation of the configuration.
use mergeway_cli.Prelude.{
  ℕ, zero, suc, ◌+◌, ◌<◌, String, ◌≡◌, refl, ◌≢◌, ◌↔◌, ◌⊎◌, inl, inr, true, false, some, List, [],
  ◌∷◌, ◌==◌, ◌∙◌, if◌then◌else◌, eq_iff, eq_refl, arith, length, member, Distinct, Bool-cases,
  Option-cases, text-cases, Distinct-length-le, subst, sym, ne→not-eq, ◌&&◌, not, ap,
}
use mergeway_cli.Go.Map.{Map, get, has, keys, length-keys, has-keys, get-has}
use mergeway_cli.Go.Order.{member-sort_strings}
use mergeway_cli.Config.Model.{TypeDefinition, Config}
use mergeway_cli.Config.IsA.{is_a_loop, is_a, descendants_among, descendant_types, assignable_types}

-- `child` names `parent` in its `extends`, or a type that inherits from it.
pub data Inherits (types : Map TypeDefinition) : String → String → Type 0 where
  extends :
      {child parent : String} (t : TypeDefinition)
      → get types child ≡ some t
      → t.extends ≡ parent
      → parent ≢ ""
      → Inherits types child parent
  further :
      {child middle parent : String} (t : TypeDefinition)
      → get types child ≡ some t
      → t.extends ≡ middle
      → middle ≢ ""
      → Inherits types middle parent
      → Inherits types child parent

-- No type inherits from itself, as `validateInheritanceCycles` makes sure.
abbrev pub IsAcyclic : Map TypeDefinition → Type 0
IsAcyclic types = (name : String) → ¬ Inherits types name name

pub Inherits-trans :
    {types : Map TypeDefinition} {a b c : String}
    → Inherits types a b
    → Inherits types b c
    → Inherits types a c
Inherits-trans (extends t e p ne) h = further t e p ne h
Inherits-trans (further t e p ne k) h = further t e p ne (Inherits-trans k h)

is_a_loop_sound :
    (fuel : ℕ) (types : Map TypeDefinition) (seen : List String) (name parent : String)
    → parent ≢ ""
    → is_a_loop fuel types seen (get types name) parent ≡ true
    → Inherits types name parent
unfolding is_a_loop
is_a_loop_sound zero types seen name parent ne h = cc
is_a_loop_sound (suc fuel) types seen name parent ne h = elim (Option-cases (get types name)) [
  | inl e ↦ absurd (ground (arith, e))
  | inr (t, e) ↦ elim (text-cases t.extends parent) [
    | inl p ↦ extends t e p ne
    | inr n ↦
        further t e refl (ground (arith, e, eq_iff t.extends ""))
          (is_a_loop_sound fuel types (t.extends ∷ seen) t.extends parent ne (ground (arith, e, n)))
  ]
]

-- Every name that the loop has seen is the current one or inherits it.
abbrev AreBelow : Map TypeDefinition → List String → String → Type 0
AreBelow types seen name = (s : String) → member seen s ≡ true → (s ≡ name) ⊎ Inherits types s name

Inherits-has : {types : Map TypeDefinition} {a b : String} → Inherits types a b → has types a ≡ true
Inherits-has {types} {a} (extends t e p ne) = get-has types a e
Inherits-has {types} {a} (further t e p ne h) = get-has types a e

-- Below the current name, its parent is new.
not-seen :
    (types : Map TypeDefinition) (seen : List String) (name : String) (t : TypeDefinition)
    → IsAcyclic types
    → AreBelow types seen name
    → get types name ≡ some t
    → t.extends ≢ ""
    → member seen t.extends ≡ false
not-seen types seen name t acyclic below e ne = elim (Bool-cases (member seen t.extends)) [
  | inr n ↦ n
  | inl s ↦ elim (below t.extends s) [
    | inl same ↦ absurd (acyclic name (extends t e same (λ q. ne (same ∙ q))))
    | inr up ↦ absurd (acyclic name (further t e refl ne up))
  ]
]

AreBelow-parent :
    (types : Map TypeDefinition) (seen : List String) (name : String) (t : TypeDefinition)
    → AreBelow types seen name
    → get types name ≡ some t
    → t.extends ≢ ""
    → AreBelow types (t.extends ∷ seen) t.extends
unfolding member
AreBelow-parent types seen name t below e ne s m = elim (text-cases t.extends s) [
  | inl q ↦ inl (sym q)
  | inr n ↦ elim (below s (ground (arith, m, n))) [
    | inl same ↦ inr (extends t (ap (get types) same ∙ e) refl ne)
    | inr up ↦ inr (Inherits-trans up (extends t e refl ne))
  ]
]

known-cons :
    (types : Map TypeDefinition) (seen : List String) (x : String)
    → has types x ≡ true
    → ((s : String) → member seen s ≡ true → member (keys types) s ≡ true)
    → (s : String) → member (x ∷ seen) s ≡ true
    → member (keys types) s ≡ true
unfolding member
known-cons types seen x h known s m = elim (text-cases x s) [
  | inl q ↦ subst (λ y. member (keys types) y ≡ true) q (sym (has-keys types x) ∙ h)
  | inr n ↦ known s (ground (arith, m, n))
]

is_a_loop_complete :
    (fuel : ℕ) (types : Map TypeDefinition) (seen : List String) (name parent : String)
    → IsAcyclic types
    → Distinct seen
    → AreBelow types seen name
    → ((s : String) → member seen s ≡ true → member (keys types) s ≡ true)
    → length types < fuel + length seen
    → Inherits types name parent
    → is_a_loop fuel types seen (get types name) parent ≡ true
unfolding is_a_loop
is_a_loop_complete zero types seen name parent acyclic distinct below known enough h =
    absurd (omega (arith, Distinct-length-le seen (keys types) distinct known, length-keys types))
is_a_loop_complete (suc fuel) types seen name parent acyclic distinct below known enough
      (extends t e p ne) =
    rw e (ground (arith, eq_iff t.extends "", eq_iff t.extends parent))
is_a_loop_complete (suc fuel) types seen name parent acyclic distinct below known enough
      (further t e p ne h) =
    let ne' : t.extends ≢ "" = λ q. ne (sym p ∙ q) in
    let h' : Inherits types t.extends parent = subst (λ m. Inherits types m parent) (sym p) h in
    let new = not-seen types seen name t acyclic below e ne' in
    let rest =
      is_a_loop_complete fuel types (t.extends ∷ seen) t.extends parent acyclic (new, distinct)
        (AreBelow-parent types seen name t below e ne')
        (known-cons types seen t.extends (Inherits-has h') known) (omega arith) h' in
    rw e (ground (arith, eq_iff t.extends "", new, rest))

-- `IsA` of two known names is the comparison, and else the loop.
is_a_lem :
    (c : Config) (child parent : String)
    → child ≢ ""
    → parent ≢ ""
    → has c.types child ≡ true
    → has c.types parent ≡ true
    → is_a c child parent ≡ (
        if child == parent
        then true
        else is_a_loop (suc (length c.types)) c.types (child ∷ []) (get c.types child) parent)
unfolding is_a
is_a_lem c child parent ne ne' known known' =
    rw (ne→not-eq child "" ne, ne→not-eq parent "" ne', known, known') refl

one_seen : (child s : String) → member (child ∷ []) s ≡ true → child ≡ s
unfolding member
one_seen child s m = ground (arith, eq_iff child s)

-- In a configuration with no inheritance cycle `IsA` answers true for exactly the known types that
-- are the parent itself or inherit from it, directly or through others.
pub is_a_iff :
    (c : Config) (child parent : String)
    → IsAcyclic c.types
    → child ≢ ""
    → parent ≢ ""
    → has c.types child ≡ true
    → has c.types parent ≡ true
    → (is_a c child parent ≡ true) ↔ ((child ≡ parent) ⊎ Inherits c.types child parent)
unfolding member
is_a_iff c child parent acyclic ne ne' known known' =
    let same = is_a_lem c child parent ne ne' known known' in
    (
      λ h. elim (text-cases child parent) [
        | inl e ↦ inl e
        | inr n ↦ inr (
            is_a_loop_sound (suc (length c.types)) c.types (child ∷ []) child parent ne'
              (ground (arith, same, h, n)))
      ],
      λ s. elim (text-cases child parent) [
        | inl e ↦ ground (arith, same, eq_iff child parent, e)
        | inr n ↦ elim s [
          | inl e ↦ ground (arith, same, eq_iff child parent, e)
          | inr up ↦ ground (
            arith,
            same,
            n,
            is_a_loop_complete (suc (length c.types)) c.types (child ∷ []) child parent acyclic
                (refl, tt) (λ x m. inl (sym (one_seen child x m)))
                (λ x m.
                  subst (λ y. member (keys c.types) y ≡ true) (one_seen child x m)
                    (sym (has-keys c.types child) ∙ known))
                (omega arith) up,
          )
        ]
      ],
    )

member-descendants_among :
    (c : Config) (t : String) (names : List String) (x : String)
    → member (descendants_among c t names) x ≡ (member names x && (not (x == t) && is_a c x t))
unfolding descendants_among member
member-descendants_among c t [] x = refl
member-descendants_among c t (n ∷ names) x =
    ground (arith, member-descendants_among c t names x, eq_iff n t, eq_iff n x, eq_iff x t)

-- A known type is assignable from itself.
is_a_self : (c : Config) (t : String) → t ≢ "" → has c.types t ≡ true → is_a c t t ≡ true
is_a_self c t ne known = rw (is_a_lem c t t ne ne known known, eq_refl t) refl

-- `AssignableTypes(t)` of a known type holds a name exactly if the name is known and `IsA` answers
-- true for it and `t`.
pub member-assignable_types :
    (c : Config) (t x : String)
    → t ≢ ""
    → has c.types t ≡ true
    → member (assignable_types c t) x ≡ (has c.types x && is_a c x t)
unfolding assignable_types descendant_types member
member-assignable_types c t x ne known = ground (
  arith,
  ne→not-eq t "" ne,
  known,
  member-sort_strings (descendants_among c t (keys c.types)) x,
  member-descendants_among c t (keys c.types) x,
  has-keys c.types x,
  is_a_self c t ne known,
  eq_iff t x,
  eq_iff x t,
)
