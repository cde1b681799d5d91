-- ===== src/Floats.antt =====
-- Python's floating-point numbers, as the program uses them: amounts of CPU cores, and sizes on the
-- way from a text to a whole number. The type is a parameter, and so are its operations.
use application_as_service.Prelude.{ℕ, Bool, String, Option}
use application_as_service.Integers.{ℤ}

pub record Floats (F : Type 0) : Type 0 where
  -- `a >= b` and `a < b`
  pub at_least : F → F → Bool
  pub below : F → F → Bool
  -- the literal `0.5`
  pub half : F
  -- `float(text)`, which raises ValueError for `none`
  pub parse : String → Option F
  -- `float(n)`
  pub from_integer : ℤ → F
  -- the float that is a number halved so many times, with its sign
  pub from_fraction : Bool → ℕ → ℕ → F
  -- `x * 1024`
  pub times_1024 : F → F
  -- `int(x)`, which raises for `none` (ValueError or OverflowError, told apart nowhere). A negative
  -- number is 0 here: it is only used as an amount that is asked for, and every node has as much.
  pub to_int : F → Option ℕ
