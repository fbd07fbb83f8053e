-- ===== src/Prelude/Pigeonhole.antt =====
-- Lists of distinct texts, and the pigeonhole principle for them.
use Prim.Native.Nat.{suc, ◌≤◌}
use Prim.Native.String.{String}
use mathlib.Core.Path.{◌≡◌, sym, subst}
use mathlib.Core.Logic.{inl, inr}
use mathlib.Core.Bool.{Bool, true, false, ◌||◌}
use mathlib.Core.List.{List, [], ◌∷◌}
use native.Mathlib.Omega.{arith}
use text.Mathlib.Text.{◌==◌}
use text.Mathlib.TextEquality.{eq_iff}
use text.Mathlib.TextPositions.{eq_refl}
use mergeway_cli.Prelude.Tests.{if◌then◌else◌, Bool-cases}
use mergeway_cli.Prelude.Lists.{length, In, here, there}

-- `_, ok := set[a]` for a set of texts
unfoldable pub member : List String → String → Bool
member [] a = false
member (x ∷ xs) a = x == a || member xs a

pub member-In : (xs : List String) (a : String) → member xs a ≡ true → In a xs
unfolding member
member-In [] a h = cc
member-In (x ∷ xs) a h = elim (Bool-cases (x == a)) [
  | inl e ↦ subst (λ y. In a (y ∷ xs)) (sym ((eq_iff x a).0 e)) here
  | inr e ↦ there (member-In xs a (ground (arith, e)))
]

pub In-member : {a : String} (xs : List String) → In a xs → member xs a ≡ true
unfolding member
In-member [] m = elim m [ ]
In-member {a} (x ∷ xs) here = ground (arith, eq_refl a)
In-member (x ∷ xs) (there m) = ground (arith, In-member xs m)

-- No text stands twice in the list.
abbrev pub Distinct : List String → Type 0
Distinct [] = Unit
Distinct (x ∷ xs) = (member xs x ≡ false) × Distinct xs

drop_one : List String → String → List String
drop_one [] a = []
drop_one (x ∷ xs) a = if x == a then xs else x ∷ drop_one xs a

length-drop_one :
    (ys : List String) (a : String) → member ys a ≡ true → length ys ≡ suc (length (drop_one ys a))
unfolding drop_one member
length-drop_one [] a h = cc
length-drop_one (y ∷ ys) a h = ground (arith, length-drop_one ys a)

member-drop_one :
    (ys : List String) (a b : String)
    → member ys b ≡ true
    → (a == b) ≡ false
    → member (drop_one ys a) b ≡ true
unfolding drop_one member
member-drop_one [] a b h n = cc
member-drop_one (y ∷ ys) a b h n =
    ground (arith, eq_iff y a, eq_iff y b, eq_iff a b, member-drop_one ys a b)

-- A list of distinct texts that all stand in another list is no longer than that.
pub Distinct-length-le :
    (xs ys : List String)
    → Distinct xs
    → ((a : String) → member xs a ≡ true → member ys a ≡ true)
    → length xs ≤ length ys
unfolding member
Distinct-length-le [] ys d h = omega arith
Distinct-length-le (x ∷ xs) ys d h =
    let in_ys = h x (ground (arith, eq_refl x)) in
    let shorter = Distinct-length-le xs (drop_one ys x) d.1 (λ a m.
      member-drop_one ys x a (h a (ground (arith, m))) (ground (arith, eq_iff x a, d.0, m))) in
    omega (arith, shorter, length-drop_one ys x in_ys)
