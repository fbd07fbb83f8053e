-- ===== src/Go/Text/Laws.antt =====
-- Splitting what was joined, and trimming what has no space.
use Prim.Native.Char.{Char, code}
use Prim.Native.String
use text.Mathlib.TextLemmas.{nil-append, cons-append, append-nil, cons≢nil}
use mergeway_cli.Prelude.{
  ℕ, String, ◌≡◌, ◌≢◌, refl, true, false, [], ◌∷◌, eqb, ◌||◌, arith, ap, sym, ◌∙◌,
}
use mergeway_cli.Go.Text.{is_space, trim_left, keep_right, trim_right, trim_space, split, contains}

-- No character of the text is a space.
abbrev pub NoSpace : String → Type 0
NoSpace String.[] = Unit
NoSpace (String.◌∷◌ c s) = (is_space (code c) ≡ false) × NoSpace s

-- No character of the text is the separator.
abbrev pub Lacks : ℕ → String → Type 0
Lacks sep String.[] = Unit
Lacks sep (String.◌∷◌ c s) = (eqb (code c) sep ≡ false) × Lacks sep s

pub split-append_sep :
    (sep : ℕ) (a : String) (c : Char) (s : String)
    → Lacks sep a
    → eqb (code c) sep ≡ true
    → split sep (String.◌++◌ a (String.◌∷◌ c s)) ≡ a ∷ split sep s
unfolding split
split-append_sep sep String.[] c s h e = rw (nil-append (String.◌∷◌ c s), e) refl
split-append_sep sep (String.◌∷◌ d a) c s h e =
    rw (cons-append d a (String.◌∷◌ c s), split-append_sep sep a c s h.1 e, h.0) refl

pub split_of_Lacks : (sep : ℕ) (a : String) → Lacks sep a → split sep a ≡ a ∷ []
unfolding split
split_of_Lacks sep String.[] h = refl
split_of_Lacks sep (String.◌∷◌ d a) h = rw (split_of_Lacks sep a h.1, h.0) refl

pub trim_right_of_NoSpace : (a : String) → NoSpace a → trim_right a ≡ a
unfolding trim_right
trim_right_of_NoSpace String.[] h = refl
trim_right_of_NoSpace (String.◌∷◌ c String.[]) h = rw h.0 refl
trim_right_of_NoSpace (String.◌∷◌ c (String.◌∷◌ d s)) h =
    rw (trim_right_of_NoSpace (String.◌∷◌ d s) h.1) refl

pub trim_left_of_NoSpace :
    (a s : String) → a ≢ "" → NoSpace a → trim_left (String.◌++◌ a s) ≡ String.◌++◌ a s
unfolding trim_left
trim_left_of_NoSpace String.[] s ne h = absurd (ne refl)
trim_left_of_NoSpace (String.◌∷◌ c a) s ne h = rw (cons-append c a s, h.0) refl

trim_right_space : trim_right " " ≡ ""
unfolding trim_right is_space
trim_right_space = refl

-- A space at the end is trimmed.
pub trim_right-append_space : (a : String) → NoSpace a → trim_right (String.◌++◌ a " ") ≡ a
unfolding trim_right
trim_right-append_space String.[] h = rw (nil-append " ") trim_right_space
trim_right-append_space (String.◌∷◌ c String.[]) h =
    rw (cons-append c "" " ", nil-append " ", trim_right_space, h.0) refl
trim_right-append_space (String.◌∷◌ c (String.◌∷◌ d s)) h =
    rw (cons-append c (String.◌∷◌ d s) " ", trim_right-append_space (String.◌∷◌ d s) h.1) refl

-- A space at the front is trimmed.
pub trim_left-space : (s : String) → trim_left (String.◌∷◌ " " s) ≡ trim_left s
unfolding trim_left is_space
trim_left-space s = refl

pub trim_space_of_NoSpace : (a : String) → a ≢ "" → NoSpace a → trim_space a ≡ a
unfolding trim_space
trim_space_of_NoSpace a ne h =
    ap trim_right
      (ap trim_left (sym (append-nil a)) ∙ trim_left_of_NoSpace a "" ne h ∙ append-nil a)
    ∙ trim_right_of_NoSpace a h

pub trim_space-append_space : (a : String) → a ≢ "" → NoSpace a → trim_space (String.◌++◌ a " ") ≡ a
unfolding trim_space
trim_space-append_space a ne h =
    ap trim_right (trim_left_of_NoSpace a " " ne h) ∙ trim_right-append_space a h

pub trim_space-space : (s : String) → trim_space (String.◌∷◌ " " s) ≡ trim_space s
unfolding trim_space
trim_space-space s = ap trim_right (trim_left-space s)

pub append-ne : (a s : String) → s ≢ "" → String.◌++◌ a s ≢ ""
append-ne String.[] s h = rw (nil-append s) h
append-ne (String.◌∷◌ c a) s h = rw (cons-append c a s) cons≢nil

keep_right_of_ne : (c : Char) (s : String) → s ≢ "" → keep_right c s ≡ String.◌∷◌ c s
keep_right_of_ne c String.[] h = absurd (h refl)
keep_right_of_ne c (String.◌∷◌ d s) h = refl

-- What stands before a text that ends in no space is kept.
pub trim_right-append :
    (a s : String) → s ≢ "" → trim_right s ≡ s → trim_right (String.◌++◌ a s) ≡ String.◌++◌ a s
unfolding trim_right
trim_right-append String.[] s ne h = rw (nil-append s) h
trim_right-append (String.◌∷◌ c a) s ne h =
    rw (cons-append c a s, trim_right-append a s ne h)
      (keep_right_of_ne c (String.◌++◌ a s) (append-ne a s ne))

pub contains-append :
    (a s : String) (sep : ℕ) → contains (String.◌++◌ a s) sep ≡ (contains a sep || contains s sep)
unfolding contains
contains-append String.[] s sep = rw (nil-append s) refl
contains-append (String.◌∷◌ c a) s sep =
    rw (cons-append c a s, contains-append a s sep) (ground arith)

pub append-ne_left : (a s : String) → a ≢ "" → String.◌++◌ a s ≢ ""
append-ne_left String.[] s h = absurd (h refl)
append-ne_left (String.◌∷◌ c a) s h = rw (cons-append c a s) cons≢nil

pub contains_of_Lacks : (sep : ℕ) (a : String) → Lacks sep a → contains a sep ≡ false
unfolding contains
contains_of_Lacks sep String.[] h = refl
contains_of_Lacks sep (String.◌∷◌ c a) h = rw (h.0, contains_of_Lacks sep a h.1) refl
