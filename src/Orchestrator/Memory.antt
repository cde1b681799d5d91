-- ===== src/Orchestrator/Memory.antt =====
-- `_parse_memory` of execution_engine/orchestrator/deployment_orchestrator.py, and `float(value)` of a
-- JSON value. `parse` is `int(text)`, where none is a ValueError.
use application_as_service.Prelude.{ℕ, String, true, false, Option, none, some}
use application_as_service.Prelude.Strip.{strip, without_suffix}
use application_as_service.Outcome.{
  Result, ok, err, ◌>>=◌, value_error, type_error, attribute_error,
}
use application_as_service.Value.{Value}
use application_as_service.Integers.{ℤ, pos, negsuc}
use application_as_service.Floats.{Floats}

abbrev pub value_or_error : {A : Type 0} → Option A → Result A
value_or_error none = err value_error
value_or_error (some a) = ok a

-- A negative amount is as good as 0: every node has as much.
abbrev pub amount : ℤ → ℕ
amount (pos n) = n
amount (negsuc n) = 0

module _ {F : Type 0} (floats : Floats F) where
  -- `float(value)`
  unfoldable pub float_of : Value → Result F
  float_of (Value.text s) = value_or_error (floats.parse s)
  float_of (Value.number n) = ok (floats.from_integer (pos n))
  float_of (Value.negative n) = ok (floats.from_integer (negsuc n))
  float_of (Value.boolean true) = ok (floats.from_integer (pos 1))
  float_of (Value.boolean false) = ok (floats.from_integer (pos 0))
  float_of (Value.fraction is_negative m k) = ok (floats.from_fraction is_negative m k)
  float_of _ = err type_error

  -- `int(float(s) * 1024)` and `int(float(s))`
  abbrev pub gibibytes : String → Result ℕ
  gibibytes s =
      value_or_error (floats.parse s) >>= λ x. value_or_error (floats.to_int (floats.times_1024 x))

  abbrev pub mebibytes : String → Result ℕ
  mebibytes s = value_or_error (floats.parse s) >>= λ x. value_or_error (floats.to_int x)

  module _ (parse : String → Option ℤ) where
    abbrev pub plain_number : String → Result ℕ
    plain_number s = value_or_error (parse s) >>= λ n. ok (amount n)

    -- The first suffix that the text ends with decides.
    unfoldable pub parse_stripped : String → Result ℕ
    unfolding without_suffix
    parse_stripped s = elim (without_suffix "Gi" s) [
      | some number ↦ gibibytes number
      | none ↦ elim (without_suffix "Mi" s) [
        | some number ↦ mebibytes number
        | none ↦ elim (without_suffix "G" s) [
          | some number ↦ gibibytes number
          | none ↦ elim (without_suffix "M" s) [
            | some number ↦ mebibytes number
            | none ↦ plain_number s
          ]
        ]
      ]
    ]

    unfoldable pub parse_memory : Value → Result ℕ
    unfolding parse_stripped strip
    parse_memory (Value.text s) = parse_stripped (strip s)
    parse_memory _ = err attribute_error
