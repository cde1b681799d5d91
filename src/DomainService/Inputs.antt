-- ===== src/DomainService/Inputs.antt =====
-- The test of a user's inputs against a template: `_validate_inputs` of
-- execution_engine/domain/service.py. Two parameters: `parse`, which is `int(text)`, where none is a
-- ValueError, and `matches`, which is `re.match(regex, str(value))` as a Boolean, or the exception
-- that it raises.
use application_as_service.Prelude.{
  ℕ, zero, suc, ◌/◌, ◌≡◌, String, Bool, true, false, not, ◌&&◌, Option, none, some, List, [], ◌∷◌,
  str_eq, if◌then◌else◌,
}
use application_as_service.Outcome.{
  Error, Result, ok, err, ◌>>=◌, validation_error, value_error, type_error,
}
use application_as_service.Value.{Value, Fields, lookup, truthy}
use application_as_service.Integers.{ℤ, pos, negsuc, below}
use application_as_service.Templates.{TemplateInputField}

-- `user_inputs.get(name)`
unfoldable pub value_of : String → Fields → Value
unfolding lookup
value_of name inputs = elim (lookup name inputs) [ none ↦ Value.null | some v ↦ v ]

-- `name in user_inputs`
unfoldable pub is_in : String → Fields → Bool
unfolding lookup
is_in name inputs = elim (lookup name inputs) [ none ↦ false | some v ↦ true ]

-- `value is not None`
abbrev pub is_not_none : Value → Bool
is_not_none Value.null = false
is_not_none v = true

-- `if test: raise ExecutionValidationError`
abbrev pub reject_if : Bool → Result (Unit {0})
reject_if true = err validation_error
reject_if false = ok tt

-- A ValueError becomes a validation error; another exception passes.
abbrev pub caught : Error → Error
caught value_error = validation_error
caught e = e

abbrev pub reject_value_error : Result ℤ → Result (Unit {0})
reject_value_error (ok n) = ok tt
reject_value_error (err e) = err (caught e)

abbrev pub check_match : Result Bool → Result (Unit {0})
check_match r = r >>= λ matched. reject_if (not matched)

-- The whole part of n after so many halvings, and a number with its sign.
unfoldable pub halved : ℕ → ℕ → ℕ
halved zero n = n
halved (suc k) n = halved k (n / 2)

abbrev pub signed : Bool → ℕ → ℤ
signed false n = pos n
signed true zero = pos 0
signed true (suc n) = negsuc n

module _ (parse : String → Option ℤ) where
  abbrev pub parsed : Option ℤ → Result ℤ
  parsed none = err value_error
  parsed (some n) = ok n

  -- `int(value)`, which leaves the whole part of a float
  unfoldable pub int_of : Value → Result ℤ
  unfolding halved
  int_of (Value.number n) = ok (pos n)
  int_of (Value.negative n) = ok (negsuc n)
  int_of (Value.fraction is_negative m k) = ok (signed is_negative (halved k m))
  int_of (Value.boolean true) = ok (pos 1)
  int_of (Value.boolean false) = ok (pos 0)
  int_of (Value.text s) = parsed (parse s)
  int_of (Value.array vs) = err type_error
  int_of (Value.object members) = err type_error
  int_of Value.null = err type_error

  unfoldable pub check_type : TemplateInputField → Value → Result (Unit {0})
  unfolding int_of
  check_type input value =
      if is_not_none value && str_eq input.field_type "integer"
      then reject_value_error (int_of value)
      else ok tt

  -- The number that the value stands for is on the wrong side of the bound.
  unfoldable pub check_bound : (ℤ → ℤ → Bool) → Option ℤ → Value → Result (Unit {0})
  unfolding truthy int_of
  check_bound is_beyond none value = ok tt
  check_bound is_beyond (some bound) value =
      if truthy value then (int_of value >>= λ n. reject_if (is_beyond n bound)) else ok tt

  abbrev pub check_min : Option ℤ → Value → Result (Unit {0})
  check_min = check_bound (λ n least. below n least)

  abbrev pub check_max : Option ℤ → Value → Result (Unit {0})
  check_max = check_bound (λ n most. below most n)

  -- What `int` makes of the value, and a test on the number.
  abbrev pub HasNumber : Value → (ℤ → Bool) → Type 0
  HasNumber value test = (n : ℤ) × (int_of value ≡ ok n) × (test n ≡ true)

  module _ (matches : String → Value → Result Bool) where
    unfoldable pub check_regex : Option String → Value → Result (Unit {0})
    unfolding truthy
    check_regex none value = ok tt
    check_regex (some regex) value =
        if truthy value && not (str_eq regex "") then check_match (matches regex value) else ok tt

    unfoldable pub check_value : TemplateInputField → Value → Result (Unit {0})
    unfolding check_type check_regex check_bound
    check_value input value = check_type input value >>= λ typed.
        check_regex input.validation_regex value >>= λ matched.
        check_min input.min_value value >>= λ least. check_max input.max_value value

    unfoldable pub check_field : Fields → TemplateInputField → Result (Unit {0})
    unfolding check_value value_of is_in
    check_field inputs input =
        if input.required && not (is_in input.field_name inputs)
        then err validation_error
        else check_value input (value_of input.field_name inputs)

    unfoldable pub validate_inputs : List TemplateInputField → Fields → Result (Unit {0})
    unfolding check_field
    validate_inputs [] inputs = ok tt
    validate_inputs (input ∷ rest) inputs =
        check_field inputs input >>= λ checked. validate_inputs rest inputs

    -- What the inputs owe to a field of the template.
    pub record IsAccepted (inputs : Fields) (input : TemplateInputField) : Type 0 where
      pub present : input.required ≡ true → is_in input.field_name inputs ≡ true
      pub integer :
          is_not_none (value_of input.field_name inputs) ≡ true
          → str_eq input.field_type "integer" ≡ true
          → HasNumber (value_of input.field_name inputs) (λ n. true)
      pub matching :
          (regex : String)
          → input.validation_regex ≡ some regex
          → str_eq regex "" ≡ false
          → truthy (value_of input.field_name inputs) ≡ true
          → matches regex (value_of input.field_name inputs) ≡ ok true
      pub enough :
          (least : ℤ)
          → input.min_value ≡ some least
          → truthy (value_of input.field_name inputs) ≡ true
          → HasNumber (value_of input.field_name inputs) (λ n. not (below n least))
      pub not_too_much :
          (most : ℤ)
          → input.max_value ≡ some most
          → truthy (value_of input.field_name inputs) ≡ true
          → HasNumber (value_of input.field_name inputs) (λ n. not (below most n))
