-- ===== src/Go/Order.antt =====
-- `<` on Go strings and `sort.Strings`. Go compares bytes; texts here are their code points, whose
-- order is that of the bytes in UTF-8.
use Prim.Native.Char.{Char, code}
use mathlib.Core.Path.{ap₂}
use mathlib.Core.List.{Permᴰ}
use text.Mathlib.TextEquality.{Char-path}
use mergeway_cli.Prelude.{
  String, ◌≡◌, refl, Bool, true, false, List, [], ◌∷◌, arith, ltb, if◌then◌else◌, ◌∙◌, ◌⊎◌, inl,
  inr, Bool-cases, Distinct, subst, text-cases, eq_iff, eq_refl, sym, All, In, here, there, member,
  ◌==◌, ◌||◌, In-cons_cases,
}

unfoldable pub text_lt : String → String → Bool
text_lt s String.[] = false
text_lt String.[] (String.◌∷◌ d t) = true
text_lt (String.◌∷◌ c s) (String.◌∷◌ d t) =
    if ltb (code c) (code d) then true else if ltb (code d) (code c) then false else text_lt s t

pub text_lt_irrefl : (s : String) → text_lt s s ≡ false
unfolding text_lt
text_lt_irrefl String.[] = refl
text_lt_irrefl (String.◌∷◌ c s) = ground (arith, text_lt_irrefl s)

pub text_lt_asymm : (s t : String) → text_lt s t ≡ true → text_lt t s ≡ false
unfolding text_lt
text_lt_asymm s String.[] h = cc
text_lt_asymm String.[] (String.◌∷◌ d t) h = refl
text_lt_asymm (String.◌∷◌ c s) (String.◌∷◌ d t) h = ground (arith, text_lt_asymm s t)

pub text_lt_trans : (s t u : String) → text_lt s t ≡ true → text_lt t u ≡ true → text_lt s u ≡ true
unfolding text_lt
text_lt_trans s t String.[] h k = cc
text_lt_trans s String.[] (String.◌∷◌ e u) h k = cc
text_lt_trans String.[] (String.◌∷◌ d t) (String.◌∷◌ e u) h k = refl
text_lt_trans (String.◌∷◌ c s) (String.◌∷◌ d t) (String.◌∷◌ e u) h k =
    ground (arith, text_lt_trans s t u)

cons_path : {c d : Char} {s t : String} → c ≡ d → s ≡ t → String.◌∷◌ c s ≡ String.◌∷◌ d t
cons_path p q = λ i. String.◌∷◌ (p i) (q i)

-- The order is linear.
pub text_lt_antisymm : (s t : String) → text_lt s t ≡ false → text_lt t s ≡ false → s ≡ t
unfolding text_lt
text_lt_antisymm String.[] String.[] h k = refl
text_lt_antisymm (String.◌∷◌ c s) String.[] h k = cc
text_lt_antisymm String.[] (String.◌∷◌ d t) h k = cc
text_lt_antisymm (String.◌∷◌ c s) (String.◌∷◌ d t) h k =
    cons_path (Char-path c d (ground arith)) (text_lt_antisymm s t (ground arith) (ground arith))

pub text_lt_of_le_lt :
    (s t u : String) → text_lt t s ≡ false → text_lt t u ≡ true → text_lt s u ≡ true
text_lt_of_le_lt s t u h k = elim (Bool-cases (text_lt s t)) [
  | inl p ↦ text_lt_trans s t u p k
  | inr p ↦ ground (arith, text_lt_antisymm s t p h)
]

-- `sort.Strings`, by insertion: the order is linear, so that every sort gives this list.
unfoldable pub insert : String → List String → List String
insert a [] = a ∷ []
insert a (x ∷ xs) = if text_lt x a then x ∷ insert a xs else a ∷ x ∷ xs

unfoldable pub sort_strings : List String → List String
unfolding insert
sort_strings [] = []
sort_strings (x ∷ xs) = insert x (sort_strings xs)

-- Each text is before all later ones, or equal to them.
abbrev pub IsSorted : List String → Type 0
IsSorted [] = Unit
IsSorted (x ∷ xs) = All (λ y. text_lt y x ≡ false) xs × IsSorted xs

-- Each text is strictly before all later ones.
abbrev pub IsAscending : List String → Type 0
IsAscending [] = Unit
IsAscending (x ∷ xs) = All (λ y. text_lt x y ≡ true) xs × IsAscending xs

pub insert_comm : (a b : String) (l : List String) → insert a (insert b l) ≡ insert b (insert a l)
unfolding insert
insert_comm a b [] = ground (arith, text_lt_antisymm a b, text_lt_asymm a b)
insert_comm a b (x ∷ l) = ground (
  arith,
  insert_comm a b l,
  text_lt_antisymm a b,
  text_lt_asymm a b,
  text_lt_of_le_lt b a x,
  text_lt_of_le_lt a b x,
  text_lt_trans x a b,
  text_lt_trans x b a,
  text_lt_trans a b x,
  text_lt_trans b a x,
)

-- The order in which the texts come, such as that of a map's iteration, is lost.
pub sort_strings-Permᴰ : {xs ys : List String} → Permᴰ xs ys → sort_strings xs ≡ sort_strings ys
unfolding sort_strings
sort_strings-Permᴰ Permᴰ.nil = refl
sort_strings-Permᴰ (Permᴰ.cons e p) = ap₂ insert e (sort_strings-Permᴰ p)
sort_strings-Permᴰ (Permᴰ.swap {a} {b} {l} e f) = rw (← e, ← f) (insert_comm a b (sort_strings l))
sort_strings-Permᴰ (Permᴰ.trans p q) = sort_strings-Permᴰ p ∙ sort_strings-Permᴰ q

pub In-insert : {a : String} (b : String) (l : List String) → In a l → In a (insert b l)
unfolding insert
In-insert b [] m = elim m [ ]
In-insert b (x ∷ l) here = elim (Bool-cases (text_lt x b)) [
  | inl h ↦ rw h here
  | inr h ↦ rw h (there here)
]
In-insert b (x ∷ l) (there m) = elim (Bool-cases (text_lt x b)) [
  | inl h ↦ rw h (there (In-insert b l m))
  | inr h ↦ rw h (there (there m))
]

pub In-insert_self : (b : String) (l : List String) → In b (insert b l)
unfolding insert
In-insert_self b [] = here
In-insert_self b (x ∷ l) = elim (Bool-cases (text_lt x b)) [
  | inl h ↦ rw h (there (In-insert_self b l))
  | inr h ↦ rw h here
]

pub In-insert_cases :
    {a : String} (b : String) (l : List String) → In a (insert b l) → (a ≡ b) ⊎ In a l
unfolding insert
In-insert_cases b [] m = In-cons_cases m
In-insert_cases b (x ∷ l) m = elim (Bool-cases (text_lt x b)) [
  | inl h ↦ elim (In-cons_cases (rw h at m)) [
    | inl e ↦ inr (rw e here)
    | inr m' ↦ elim (In-insert_cases b l m') [ inl e ↦ inl e | inr k ↦ inr (there k) ]
  ]
  | inr h ↦ In-cons_cases (rw h at m)
]

pub In-sort_strings : {a : String} (l : List String) → In a l → In a (sort_strings l)
unfolding sort_strings
In-sort_strings [] m = elim m [ ]
In-sort_strings (x ∷ l) here = In-insert_self x (sort_strings l)
In-sort_strings (x ∷ l) (there m) = In-insert x (sort_strings l) (In-sort_strings l m)

pub In-sort_strings_inv : {a : String} (l : List String) → In a (sort_strings l) → In a l
unfolding sort_strings
In-sort_strings_inv [] m = m
In-sort_strings_inv (x ∷ l) m = elim (In-insert_cases x (sort_strings l) m) [
  | inl e ↦ rw e here
  | inr h ↦ there (In-sort_strings_inv l h)
]

module _ (P : String → Type 0) where
  All-insert : (a : String) (l : List String) → P a → All P l → All P (insert a l)
  unfolding insert
  All-insert a [] h hs = (h, tt)
  All-insert a (x ∷ l) h hs = elim (Bool-cases (text_lt x a)) [
    | inl e ↦ rw e (hs.0, All-insert a l h hs.1)
    | inr e ↦ rw e (h, hs)
  ]

All-le_trans :
    (a x : String) (l : List String)
    → text_lt x a ≡ false
    → All (λ y. text_lt y x ≡ false) l
    → All (λ y. text_lt y a ≡ false) l
All-le_trans a x [] h hs = tt
All-le_trans a x (y ∷ l) h hs =
    (ground (arith, text_lt_of_le_lt x y a, hs.0), All-le_trans a x l h hs.1)

insert-IsSorted : (a : String) (l : List String) → IsSorted l → IsSorted (insert a l)
unfolding insert
insert-IsSorted a [] h = (tt, tt)
insert-IsSorted a (x ∷ l) h = elim (Bool-cases (text_lt x a)) [
  | inl e ↦ rw e (All-insert _ a l (text_lt_asymm x a e) h.0, insert-IsSorted a l h.1)
  | inr e ↦ rw e ((e, All-le_trans a x l e h.0), h)
]

pub sort_strings-IsSorted : (l : List String) → IsSorted (sort_strings l)
unfolding sort_strings
sort_strings-IsSorted [] = tt
sort_strings-IsSorted (x ∷ l) = insert-IsSorted x (sort_strings l) (sort_strings-IsSorted l)

member-insert : (a b : String) (l : List String) → member (insert a l) b ≡ (a == b || member l b)
unfolding insert member
member-insert a b [] = refl
member-insert a b (x ∷ l) = ground (arith, member-insert a b l)

pub member-sort_strings : (l : List String) (a : String) → member (sort_strings l) a ≡ member l a
unfolding sort_strings member
member-sort_strings [] a = refl
member-sort_strings (x ∷ l) a =
    ground (arith, member-insert x a (sort_strings l), member-sort_strings l a)

module _ (P : String → Type 0) where
  All-In_le : (a : String) (l : List String) → All P l → member l a ≡ true → P a
  unfolding member
  All-In_le a [] h m = cc
  All-In_le a (x ∷ l) h m = elim (text-cases x a) [
    | inl e ↦ subst P e h.0
    | inr n ↦ All-In_le a l h.1 (ground (arith, n, m))
  ]

All-lt_trans :
    (a x : String) (l : List String)
    → text_lt a x ≡ true
    → All (λ y. text_lt x y ≡ true) l
    → All (λ y. text_lt a y ≡ true) l
All-lt_trans a x [] h hs = tt
All-lt_trans a x (y ∷ l) h hs = (text_lt_trans a x y h hs.0, All-lt_trans a x l h hs.1)

insert-IsAscending :
    (a : String) (l : List String) → member l a ≡ false → IsAscending l → IsAscending (insert a l)
unfolding insert member
insert-IsAscending a [] n h = (tt, tt)
insert-IsAscending a (x ∷ l) n h = elim (Bool-cases (text_lt x a)) [
  | inl e ↦ rw e (All-insert _ a l e h.0, insert-IsAscending a l (ground (arith, n)) h.1)
  | inr e ↦
      let lt : text_lt a x ≡ true = elim (Bool-cases (text_lt a x)) [
        | inl q ↦ q
        | inr q ↦ absurd (ground (arith, n, eq_iff x a, text_lt_antisymm x a e q))
      ] in
      rw e ((lt, All-lt_trans a x l lt h.0), h)
]

-- Distinct texts are sorted strictly.
pub sort_strings-IsAscending : (l : List String) → Distinct l → IsAscending (sort_strings l)
unfolding sort_strings
sort_strings-IsAscending [] d = tt
sort_strings-IsAscending (x ∷ l) d =
    insert-IsAscending x (sort_strings l) (member-sort_strings l x ∙ d.0)
      (sort_strings-IsAscending l d.1)

head_least :
    (a b : String) (l : List String)
    → IsAscending (b ∷ l)
    → member (b ∷ l) a ≡ true
    → text_lt a b ≡ false
unfolding member
head_least a b l h m = elim (text-cases b a) [
  | inl e ↦ subst (λ c. text_lt c b ≡ false) e (text_lt_irrefl b)
  | inr n ↦ text_lt_asymm b a (All-In_le (λ c. text_lt b c ≡ true) a l h.0 (ground (arith, n, m)))
]

pub head_fresh : (b : String) (l : List String) → IsAscending (b ∷ l) → member l b ≡ false
head_fresh b l h = elim (Bool-cases (member l b)) [
  | inl m ↦ absurd (ground (arith, All-In_le (λ c. text_lt b c ≡ true) b l h.0 m, text_lt_irrefl b))
  | inr n ↦ n
]

-- A list that is sorted strictly is determined by its members.
pub IsAscending-unique :
    (xs ys : List String)
    → IsAscending xs
    → IsAscending ys
    → ((a : String) → member xs a ≡ member ys a)
    → xs ≡ ys
unfolding member
IsAscending-unique [] [] hx hy same = refl
IsAscending-unique [] (y ∷ ys) hx hy same = absurd (ground (arith, same y, eq_refl y))
IsAscending-unique (x ∷ xs) [] hx hy same = absurd (ground (arith, same x, eq_refl x))
IsAscending-unique (x ∷ xs) (y ∷ ys) hx hy same =
    let e : x ≡ y =
      text_lt_antisymm x y (head_least x y ys hy (sym (same x) ∙ ground (arith, eq_refl x)))
        (head_least y x xs hx (same y ∙ ground (arith, eq_refl y))) in
    ap₂ (λ z zs. z ∷ zs) e
      (IsAscending-unique xs ys hx.1 hy.1 (λ a.
        ground (arith, same a, e, eq_iff x a, eq_iff y a, head_fresh x xs hx, head_fresh y ys hy)))
