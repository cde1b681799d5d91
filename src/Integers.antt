-- ===== src/Integers.antt =====
-- Python's whole numbers, where the program may meet negative ones: the numbers of the inputs that a
-- user gives, and their bounds.
use application_as_service.Prelude.{ℕ, ◌≡◌, ap, arith, Bool, true, false, ltb, Option, none, some}
use application_as_service.Value.{Value}

-- `pos n` is n, and `negsuc n` is -1 - n.
pub data ℤ : Type 0 where
  pos negsuc : ℕ → ℤ

-- `a < b`
abbrev pub below : ℤ → ℤ → Bool
below (pos a) (pos b) = ltb a b
below (pos a) (negsuc b) = false
below (negsuc a) (pos b) = true
below (negsuc a) (negsuc b) = ltb b a

-- A number, or None, as a JSON value.
abbrev pub of_integer : Option ℤ → Value
of_integer none = Value.null
of_integer (some (pos n)) = Value.number n
of_integer (some (negsuc n)) = Value.negative n

-- Two numbers of which neither is below the other are equal.
pub below_connected : (a b : ℤ) → below a b ≡ false → below b a ≡ false → a ≡ b
below_connected (pos a) (pos b) h k = ap pos (ground arith)
below_connected (pos a) (negsuc b) h k = ground arith
below_connected (negsuc a) (pos b) h k = ground arith
below_connected (negsuc a) (negsuc b) h k = ap negsuc (ground arith)
