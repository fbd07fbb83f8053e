-- ===== src/Store/Identifier/Bounds.antt =====
-- The numbers that `toInt64` returns, and which of them are sure to fit an `int64`.
use mergeway_cli.Prelude.{ℕ, ◌<◌, ◌≤◌, ◌≡◌, ◌⊎◌, true, Option, none, some, ◌==◌, false}
use mergeway_cli.Go.Int.{ℤ, pos, IsInt64, max_int64}
use mergeway_cli.Go.Parse.{parse_int}
use mergeway_cli.Value.Defs.{Value, int, uint, float, number, str, Width, w8, w16, w32}
use mergeway_cli.Store.Defs.{Env}

-- The range of an unsigned integer of the width, on a machine of 64 bits.
abbrev pub unsigned_limit : Width → ℕ
unsigned_limit w8 = 256
unsigned_limit w16 = 65536
unsigned_limit w32 = 4294967296
unsigned_limit k = 18446744073709551616

-- An integer value is in the range of its type, as every Go value is; the narrower signed types are
-- parts of `int64`.
abbrev pub InRange : Value → Type 0
InRange (int k i) = IsInt64 i
InRange (uint k n) = n < unsigned_limit k
InRange v = Unit

-- The float that is read is integral, and the number is what the conversion `int64(v)` gives of it,
-- whatever that is where the float is out of range.
abbrev pub Converts : (w : Env) → Option ℕ → ℤ → Type 0
Converts w f i =
    (bits : ℕ) × (f ≡ some bits) × (w.is_integral bits ≡ true) × (i ≡ w.int64_of_float bits)

-- What the number is that an identifier of the value denotes: the integer itself, an unsigned one that
-- an `int64` holds, a text's, or a conversion of an integral float; a text of a number is read
-- as an integer first.
abbrev pub Denotes : (w : Env) → Value → ℤ → Type 0
Denotes w (int k j) i = (i ≡ j) × IsInt64 i
Denotes w (uint k n) i = (i ≡ pos n) × (n ≤ max_int64)
Denotes w (float k bits) i = Converts w (some bits) i
Denotes w (number s) i =
    ((parse_int s ≡ some i) × IsInt64 i) ⊎ ((parse_int s ≡ none) × Converts w (w.parse_float s) i)
Denotes w (str s) i = ((s == "") ≡ false) × (parse_int s ≡ some i) × IsInt64 i
Denotes w v i = ⊥
