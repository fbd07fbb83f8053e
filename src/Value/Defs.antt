-- ===== src/Value/Defs.antt =====
-- The values that the YAML and JSON decoders hand to the program, Go's `any`.
-- Each `map` and each slice that a value holds is a list of its own in the block.
use Prim.Native.String.{String}
use mergeway_cli.Prelude.{ℕ, Bool}
use mergeway_cli.Go.Int.{ℤ}

-- `int int8 int16 int32 int64`, and the same for `uint`
pub data Width : Type 0 where
  native w8 w16 w32 w64 : Width

pub data FloatWidth : Type 0 where
  f32 f64 : FloatWidth

-- A float is the bit pattern of its value as a `float64`; `number` is a `json.Number`, and `stringer`
-- any other value with a `String()` method (a YAML timestamp), with the text that it returns.
mutual
  pub data Value : Type 0 where
    null : Value
    bool : Bool → Value
    int : Width → ℤ → Value
    uint : Width → ℕ → Value
    float : FloatWidth → ℕ → Value
    number : String → Value
    stringer : String → Value
    str : String → Value
    arr : Items → Value
    obj : Fields → Value
    any_map : AnyFields → Value

  -- `[]any`
  pub data Items : Type 0 where
    nil : Items
    cons : Value → Items → Items

  -- `map[string]any`
  pub data Fields : Type 0 where
    end : Fields
    field : String → Value → Fields → Fields

  -- `map[any]any`
  pub data AnyFields : Type 0 where
    none_left : AnyFields
    entry : Value → Value → AnyFields → AnyFields
