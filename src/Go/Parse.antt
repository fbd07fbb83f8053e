-- ===== src/Go/Parse.antt =====
-- `strconv.ParseInt(s, 10, 64)`.
use Prim.Native.Char.{code}
use mergeway_cli.Prelude.{
  ℕ, zero, suc, ◌+◌, ◌-◌, ◌*◌, String, ◌≡◌, ◌&&◌, Option, none, some, ◌==◌, leb, eqb, if◌then◌else◌,
  arith, Bool-cases, inl, inr,
}
use mergeway_cli.Go.Int.{ℤ, pos, negsuc, max_int64, IsInt64}

-- The digits behind the ones that give `n`; `none` at a character that is no digit.
unfoldable pub parse_digits : ℕ → String → Option ℕ
parse_digits n String.[] = some n
parse_digits n (String.◌∷◌ c s) =
    let rest = parse_digits (10 * n + (code c - b'0')) s in
    if leb b'0' (code c) && leb (code c) b'9' then rest else none

-- a number of at least one digit
unfoldable pub parse_magnitude : String → Option ℕ
parse_magnitude s = if s == "" then none else parse_digits 0 s

abbrev pub bounded_pos : Option ℕ → Option ℤ
bounded_pos none = none
bounded_pos (some n) = if leb n max_int64 then some (pos n) else none

abbrev pub bounded_neg : Option ℕ → Option ℤ
bounded_neg none = none
bounded_neg (some zero) = some (pos 0)
bounded_neg (some (suc n)) = if leb n max_int64 then some (negsuc n) else none

-- `none` is an error, of the syntax or of the range
unfoldable pub parse_int : String → Option ℤ
parse_int String.[] = none
parse_int (String.◌∷◌ c s) =
    if eqb (code c) b'-'
    then bounded_neg (parse_magnitude s)
    else if eqb (code c) b'+'
    then bounded_pos (parse_magnitude s)
    else bounded_pos (parse_magnitude (String.◌∷◌ c s))

bounded_pos-IsInt64 : (n : Option ℕ) {i : ℤ} → bounded_pos n ≡ some i → IsInt64 i
bounded_pos-IsInt64 none h = absurd (cc)
bounded_pos-IsInt64 (some n) {i = pos m} h = ground arith
bounded_pos-IsInt64 (some n) {i = negsuc m} h = ground arith

bounded_neg-IsInt64 : (n : Option ℕ) {i : ℤ} → bounded_neg n ≡ some i → IsInt64 i
bounded_neg-IsInt64 none h = absurd (cc)
bounded_neg-IsInt64 (some zero) {i = pos m} h = ground arith
bounded_neg-IsInt64 (some zero) {i = negsuc m} h = ground arith
bounded_neg-IsInt64 (some (suc n)) {i = pos m} h = ground arith
bounded_neg-IsInt64 (some (suc n)) {i = negsuc m} h = ground arith

pub parse_int-IsInt64 : (s : String) {i : ℤ} → parse_int s ≡ some i → IsInt64 i
unfolding parse_int
parse_int-IsInt64 String.[] h = absurd (cc)
parse_int-IsInt64 (String.◌∷◌ c s) h = elim (Bool-cases (eqb (code c) b'-')) [
  | inl e ↦ bounded_neg-IsInt64 (parse_magnitude s) (rw (parse_int, e) at h)
  | inr e ↦ elim (Bool-cases (eqb (code c) b'+')) [
    | inl f ↦ bounded_pos-IsInt64 (parse_magnitude s) (rw (parse_int, e, f) at h)
    | inr f ↦ bounded_pos-IsInt64 (parse_magnitude (String.◌∷◌ c s)) (rw (parse_int, e, f) at h)
  ]
]
