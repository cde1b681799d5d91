-- ===== src/Value.antt =====
-- JSON values: the dynamically typed dictionaries that executions, templates and deployed
-- resources carry (`Dict[str, Any]`).
use application_as_service.Prelude.{
  ℕ, zero, suc, String, Bool, true, false, not, Option, none, some, str_eq, ◌==◌, if◌then◌else◌,
}

-- A whole number: `number n` is n, and `negative n` is -1 - n. A float: `fraction is_negative m k` is
-- m halved k times, with its sign. Every finite float is of this form; NaN and the infinities, which
-- are not JSON, are no values.
mutual
  pub data Value : Type 0 where
    object : Fields → Value
    array : Elements → Value
    text : String → Value
    number : ℕ → Value
    negative : ℕ → Value
    fraction : Bool → ℕ → ℕ → Value
    boolean : Bool → Value
    null : Value

  -- The keys of a dictionary with their values, in the order of insertion.
  pub data Fields : Type 0 where
    field : String → Value → Fields → Fields
    no_fields : Fields

  pub data Elements : Type 0 where
    element : Value → Elements → Elements
    no_elements : Elements

-- `bool(value)`: None, False, 0, 0.0, "", [] and {} are false.
unfoldable pub truthy : Value → Bool
truthy null = false
truthy (boolean b) = b
truthy (number zero) = false
truthy (number (suc n)) = true
truthy (negative n) = true
truthy (fraction is_negative m k) = not (m == 0)
truthy (text s) = not (str_eq s "")
truthy (array no_elements) = false
truthy (array (element v vs)) = true
truthy (object no_fields) = false
truthy (object (field k v fs)) = true

-- `fields.get(key)`
unfoldable pub lookup : String → Fields → Option Value
lookup key no_fields = none
lookup key (field k v fs) = if str_eq k key then some v else lookup key fs

-- `fields[key] = value`
unfoldable pub put : String → Value → Fields → Fields
put key value no_fields = field key value no_fields
put key value (field k v fs) =
    let rest = put key value fs in if str_eq k key then field k value fs else field k v rest
