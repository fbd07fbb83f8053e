-- ===== src/Config/References/RoundTrip.antt =====
-- The label of a field's reference targets, parsed again.
use Prim.Native.String
use mathlib.Core.List
use text.Mathlib.TextLemmas.{nil-append, cons-append, append_assoc}
use mergeway_cli.Prelude.{
  ℕ, String, ◌≡◌, refl, ◌≢◌, Bool, true, false, List, [], ◌∷◌, ◌++◌, ◌||◌, ok, member, arith, All,
  Distinct, sym, ap, ◌∙◌, eq_iff, ne→not-eq, text-cases, inl, inr,
}
use mergeway_cli.Go.Text.{trim_right, trim_space, split, join, contains}
use mergeway_cli.Go.Text.Laws.{
  Lacks, split-append_sep, split_of_Lacks, trim_space_of_NoSpace, trim_space-append_space,
  trim_space-space, trim_right_of_NoSpace, trim_right-append, trim_left_of_NoSpace, append-ne,
  append-ne_left, contains-append, contains_of_Lacks,
}
use mergeway_cli.Config.Names.{
  is_valid_type_name, is_valid_type_name-ne, is_valid_type_name-NoSpace, is_valid_type_name-Lacks,
}
use mergeway_cli.Config.References.{
  primitive_types, is_primitive, union_members, parse_trimmed, parse_reference_types,
}
use mergeway_cli.Config.References.Sound.{AreReferences, member-append}

-- The parts of a joined union: each name, with the spaces that the separator leaves beside it.
abbrev spaced : List String → List String
spaced [] = []
spaced (x ∷ []) = String.◌∷◌ " " x ∷ []
spaced (x ∷ y ∷ xs) = String.◌∷◌ " " (String.◌++◌ x " ") ∷ spaced (y ∷ xs)

abbrev AreNames : List String → Type 0
AreNames names = All (λ n. (is_valid_type_name n ≡ true) × (is_primitive n ≡ false)) names

Lacks-append : (a : String) → Lacks b'|' a → Lacks b'|' (String.◌++◌ a " ")
Lacks-append String.[] h = (refl, tt)
Lacks-append (String.◌∷◌ c a) h = rw (cons-append c a " ") (h.0, Lacks-append a h.1)

bar_append : (s : String) → String.◌++◌ " | " s ≡ String.◌∷◌ " " (String.◌∷◌ "|" (String.◌∷◌ " " s))
bar_append s =
    cons-append " " "| " s
    ∙ ap (String.◌∷◌ " ") (
        cons-append "|" " " s
        ∙ ap (String.◌∷◌ "|") (cons-append " " "" s ∙ ap (String.◌∷◌ " ") (nil-append s)))

space_append : (s : String) → String.◌++◌ " " s ≡ String.◌∷◌ " " s
space_append s = cons-append " " "" s ∙ ap (String.◌∷◌ " ") (nil-append s)

-- the separator after a name, as the text goes on
bar_text :
    (a s : String)
    → String.◌++◌ a (String.◌++◌ " | " s)
      ≡ String.◌++◌ (String.◌++◌ a " ") (String.◌∷◌ "|" (String.◌∷◌ " " s))
bar_text a s = ap (String.◌++◌ a) (bar_append s ∙ sym (space_append _)) ∙ sym (append_assoc a " " _)

split-join :
    (x : String) (xs : List String)
    → AreNames (x ∷ xs)
    → split b'|' (String.◌∷◌ " " (join (x ∷ xs) " | ")) ≡ spaced (x ∷ xs)
unfolding join
split-join x [] h = split_of_Lacks b'|' (String.◌∷◌ " " x) (refl, is_valid_type_name-Lacks x h.0.0)
split-join x (y ∷ xs) h =
    let rest = join (y ∷ xs) " | " in
    ap (λ s. split b'|' (String.◌∷◌ " " s)) (bar_text x rest)
    ∙ ap (split b'|')
        (sym (cons-append " " (String.◌++◌ x " ") (String.◌∷◌ "|" (String.◌∷◌ " " rest))))
    ∙ split-append_sep b'|' (String.◌∷◌ " " (String.◌++◌ x " ")) "|" (String.◌∷◌ " " rest)
        (refl, Lacks-append x (is_valid_type_name-Lacks x h.0.0)) refl
    ∙ ap (λ ps. String.◌∷◌ " " (String.◌++◌ x " ") ∷ ps) (split-join y xs h.1)

-- The first part of a union has no space before it.
split-join_trimmed :
    (x y : String) (xs : List String)
    → AreNames (x ∷ y ∷ xs)
    → split b'|' (join (x ∷ y ∷ xs) " | ") ≡ String.◌++◌ x " " ∷ spaced (y ∷ xs)
unfolding join
split-join_trimmed x y xs h =
    let rest = join (y ∷ xs) " | " in
    ap (split b'|') (bar_text x rest)
    ∙ split-append_sep b'|' (String.◌++◌ x " ") "|" (String.◌∷◌ " " rest)
        (Lacks-append x (is_valid_type_name-Lacks x h.0.0)) refl
    ∙ ap (λ ps. String.◌++◌ x " " ∷ ps) (split-join y xs h.1)

-- A part that trims to a fresh name is taken.
union_members-step :
    (t : String) (refs : List String) (raw x : String) (parts : List String)
    → trim_space raw ≡ x
    → is_valid_type_name x ≡ true
    → is_primitive x ≡ false
    → member refs x ≡ false
    → union_members t refs (raw ∷ parts) ≡ union_members t (refs ++ x ∷ []) parts
unfolding union_members
union_members-step t refs raw x parts e v p n =
    rw (e, ne→not-eq x "" (is_valid_type_name-ne x v), p, v, n) refl

-- None of the names stands in the list already, and none stands twice.
abbrev AreFresh : List String → List String → Type 0
AreFresh refs [] = Unit
AreFresh refs (x ∷ xs) = (member refs x ≡ false) × AreFresh (refs ++ x ∷ []) xs

trim_spaced_last : (x : String) → is_valid_type_name x ≡ true → trim_space (String.◌∷◌ " " x) ≡ x
trim_spaced_last x v =
    trim_space-space x
    ∙ trim_space_of_NoSpace x (is_valid_type_name-ne x v) (is_valid_type_name-NoSpace x v)

trim_spaced : (x : String) → is_valid_type_name x ≡ true → trim_space (String.◌++◌ x " ") ≡ x
trim_spaced x v =
    trim_space-append_space x (is_valid_type_name-ne x v) (is_valid_type_name-NoSpace x v)

union_members-spaced :
    (t : String) (refs xs : List String)
    → AreNames xs
    → AreFresh refs xs
    → union_members t refs (spaced xs) ≡ ok (refs ++ xs)
unfolding union_members
union_members-spaced t refs [] h f = ap ok (sym (List.append-nil refs))
union_members-spaced t refs (x ∷ []) h f =
    union_members-step t refs (String.◌∷◌ " " x) x [] (trim_spaced_last x h.0.0) h.0.0 h.0.1 f.0
union_members-spaced t refs (x ∷ y ∷ xs) h f =
    union_members-step t refs (String.◌∷◌ " " (String.◌++◌ x " ")) x (spaced (y ∷ xs))
      (trim_space-space (String.◌++◌ x " ") ∙ trim_spaced x h.0.0) h.0.0 h.0.1 f.0
    ∙ union_members-spaced t (refs ++ x ∷ []) (y ∷ xs) h.1 f.1
    ∙ ap ok (List.append_assoc refs (x ∷ []) (y ∷ xs))

grown :
    (refs ys : List String) (x : String)
    → member ys x ≡ false
    → All (λ y. member refs y ≡ false) ys
    → All (λ y. member (refs ++ x ∷ []) y ≡ false) ys
unfolding member
grown refs [] x n k = tt
grown refs (y ∷ ys) x n k = (
  ground (arith, member-append refs x y, n, k.0, eq_iff x y, eq_iff y x),
  grown refs ys x (ground (arith, n)) k.1,
)

Distinct-AreFresh :
    (refs xs : List String) → Distinct xs → All (λ x. member refs x ≡ false) xs → AreFresh refs xs
Distinct-AreFresh refs [] d h = tt
Distinct-AreFresh refs (x ∷ xs) d h =
    (h.0, Distinct-AreFresh (refs ++ x ∷ []) xs d.1 (grown refs xs x d.0 h.1))

All-append_new : (xs : List String) → All (λ x. member [] x ≡ false) xs
unfolding member
All-append_new [] = tt
All-append_new (x ∷ xs) = (refl, All-append_new xs)

join-trim_right :
    (x : String) (xs : List String)
    → AreNames (x ∷ xs)
    → trim_right (join (x ∷ xs) " | ") ≡ join (x ∷ xs) " | "
unfolding join
join-trim_right x [] h = trim_right_of_NoSpace x (is_valid_type_name-NoSpace x h.0.0)
join-trim_right x (y ∷ xs) h =
    trim_right-append x _ (join_tail-ne y xs h.1)
      (trim_right-append " | " (join (y ∷ xs) " | ") (join-ne y xs h.1) (join-trim_right y xs h.1))
  where
    join-ne : (z : String) (zs : List String) → AreNames (z ∷ zs) → join (z ∷ zs) " | " ≢ ""
    join-ne z [] k = is_valid_type_name-ne z k.0.0
    join-ne z (w ∷ zs) k = append-ne_left z _ (is_valid_type_name-ne z k.0.0)

    join_tail-ne :
        (z : String) (zs : List String)
        → AreNames (z ∷ zs)
        → String.◌++◌ " | " (join (z ∷ zs) " | ") ≢ ""
    join_tail-ne z zs k = append-ne " | " _ (join-ne z zs k)

join-trim_space :
    (x : String) (xs : List String)
    → AreNames (x ∷ xs)
    → trim_space (join (x ∷ xs) " | ") ≡ join (x ∷ xs) " | "
unfolding trim_space join
join-trim_space x [] h =
    trim_space_of_NoSpace x (is_valid_type_name-ne x h.0.0) (is_valid_type_name-NoSpace x h.0.0)
join-trim_space x (y ∷ xs) h =
    ap trim_right (
      trim_left_of_NoSpace x (String.◌++◌ " | " (join (y ∷ xs) " | "))
        (is_valid_type_name-ne x h.0.0) (is_valid_type_name-NoSpace x h.0.0))
    ∙ join-trim_right x (y ∷ xs) h

true-ne-false : ◌≡◌ {A = Bool} true false → ⊥
true-ne-false h = cc

none_contains :
    (names : List String) (t : String) (sep : ℕ)
    → All (λ n. contains n sep ≡ false) names
    → contains t sep ≡ true
    → member names t ≡ false
unfolding member
none_contains [] t sep h c = refl
none_contains (n ∷ names) t sep h c = elim (text-cases n t) [
  | inl e ↦ absurd (true-ne-false (sym c ∙ ap (λ s. contains s sep) (sym e) ∙ h.0))
  | inr ne ↦ rw ne (none_contains names t sep h.1 c)
]

-- A primitive type holds no `|`.
bar-not-primitive : (t : String) → contains t b'|' ≡ true → is_primitive t ≡ false
unfolding is_primitive contains
bar-not-primitive t h =
    none_contains primitive_types t b'|' (refl, (refl, (refl, (refl, (refl, (refl, tt)))))) h

union-contains : (x s : String) → contains (String.◌++◌ x (String.◌++◌ " | " s)) b'|' ≡ true
unfolding contains
union-contains x s =
    contains-append x (String.◌++◌ " | " s) b'|'
    ∙ ap (λ t. contains x b'|' || contains t b'|') (bar_append s)
    ∙ or-true (contains x b'|')
  where
    or-true : (b : Bool) → (b || true) ≡ true
    or-true b = ground arith

parse_trimmed-join :
    (x : String) (xs : List String)
    → AreNames (x ∷ xs)
    → Distinct (x ∷ xs)
    → parse_trimmed (join (x ∷ xs) " | ") ≡ ok (x ∷ xs)
unfolding parse_trimmed join
parse_trimmed-join x [] h d =
    rw
      (
        ne→not-eq x "" (is_valid_type_name-ne x h.0.0),
        h.0.1,
        h.0.0,
        contains_of_Lacks b'|' x (is_valid_type_name-Lacks x h.0.0),
      )
      refl
parse_trimmed-join x (y ∷ xs) h d =
    let text = join (x ∷ y ∷ xs) " | " in
    let bar = union-contains x (join (y ∷ xs) " | ") in
    rw
      (
        ne→not-eq text "" (append-ne_left x _ (is_valid_type_name-ne x h.0.0)),
        bar-not-primitive text bar,
        bar,
      )
      (ap (union_members text []) (split-join_trimmed x y xs h)
        ∙ union_members-step text [] (String.◌++◌ x " ") x (spaced (y ∷ xs)) (trim_spaced x h.0.0)
            h.0.0 h.0.1 (All-append_new (x ∷ [])).0
        ∙ union_members-spaced text (x ∷ []) (y ∷ xs) h.1
            (Distinct-AreFresh [] (x ∷ y ∷ xs) d (All-append_new (x ∷ y ∷ xs))).1)

-- The label that is shown for reference targets parses back to those targets, in their order: for
-- one or more distinct valid names of types of which none is a primitive type.
pub parse_reference_types-join :
    (x : String) (xs : List String)
    → AreReferences (x ∷ xs)
    → parse_reference_types (join (x ∷ xs) " | ") ≡ ok (x ∷ xs)
unfolding parse_reference_types
parse_reference_types-join x xs r =
    ap parse_trimmed (join-trim_space x xs r.valid) ∙ parse_trimmed-join x xs r.valid r.distinct
