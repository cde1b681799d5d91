-- ===== src/DomainService/Accepting.antt =====
-- When `_validate_inputs` accepts a user's inputs.
use application_as_service.Prelude.{
  ◌≡◌, refl, ◌↔◌, inl, inr, String, Bool, true, false, not, ◌&&◌, Option, none, some, List, [], ◌∷◌,
  arith, str_eq, All, Bool-cases,
}
use application_as_service.Outcome.{Result, ok, err, ◌>>=◌}
use application_as_service.Value.{Value, Fields, truthy}
use application_as_service.Integers.{ℤ, below}
use application_as_service.Templates.{TemplateInputField}
use application_as_service.DomainService.Inputs.{
  value_of, is_in, is_not_none, reject_if, reject_value_error, int_of, check_type, check_match,
  check_regex, check_bound, check_min, check_max, check_value, check_field, validate_inputs,
  HasNumber, IsAccepted,
}

then_iff : (r s : Result (Unit {0})) → ((r >>= λ done. s) ≡ ok tt) ↔ ((r ≡ ok tt) × (s ≡ ok tt))
then_iff (ok tt) s = (λ h. (refl, h), λ h. h.1)
then_iff (err e) s = (λ h. absurd (ground arith), λ h. absurd (ground arith))

module _ (parse : String → Option ℤ) where
  rejected_iff :
      (r : Result ℤ) → (reject_value_error r ≡ ok tt) ↔ ((n : ℤ) × (r ≡ ok n) × (true ≡ true))
  rejected_iff (ok n) = (λ h. (n, refl, refl), λ h. refl)
  rejected_iff (err e) = (λ h. absurd (ground arith), λ h. absurd (ground (arith, h)))

  type_iff :
      (input : TemplateInputField) (value : Value)
      → (check_type parse input value ≡ ok tt) ↔ (
          is_not_none value ≡ true
          → str_eq input.field_type "integer" ≡ true
          → HasNumber parse value (λ n. true))
  unfolding check_type
  type_iff input value = (
    λ h given integer. (rejected_iff (int_of parse value)).0 (ground arith),
    λ h. elim (Bool-cases (is_not_none value && str_eq input.field_type "integer")) [
      | inl both ↦ rw both ((rejected_iff (int_of parse value)).1 (h (ground arith) (ground arith)))
      | inr other ↦ rw other refl
    ],
  )

  test_iff :
      (test : ℤ → Bool) (r : Result ℤ)
      → ((r >>= λ n. reject_if (test n)) ≡ ok tt) ↔ ((n : ℤ) × (r ≡ ok n) × (not (test n) ≡ true))
  test_iff test (ok n) = (
    λ h. (n, refl, ground arith),
    λ (m, e, t). let same : n ≡ m = ground arith in rw same (ground arith),
  )
  test_iff test (err e) = (λ h. absurd (ground arith), λ (n, e, t). absurd (ground arith))

  bound_iff :
      (is_beyond : ℤ → ℤ → Bool) (o : Option ℤ) (value : Value)
      → (check_bound parse is_beyond o value ≡ ok tt) ↔ (
          (bound : ℤ)
          → o ≡ some bound
          → truthy value ≡ true
          → HasNumber parse value (λ n. not (is_beyond n bound)))
  unfolding check_bound
  bound_iff is_beyond none value = (λ h bound e. absurd (ground arith), λ h. refl)
  bound_iff is_beyond (some bound) value = (
    λ h b e given.
        let same : bound ≡ b = ground arith in
        rw (← same) ((test_iff (λ n. is_beyond n bound) (int_of parse value)).0 (rw given at h)),
    λ h. elim (Bool-cases (truthy value)) [
      | inl given ↦
          rw given ((test_iff (λ n. is_beyond n bound) (int_of parse value)).1 (h bound refl given))
      | inr other ↦ rw other refl
    ],
  )

  module _ (matches : String → Value → Result Bool) where
    match_iff : (r : Result Bool) → (check_match r ≡ ok tt) ↔ (r ≡ ok true)
    match_iff r = ground arith

    regex_iff :
        (o : Option String) (value : Value)
        → (check_regex parse matches o value ≡ ok tt) ↔ (
            (regex : String)
            → o ≡ some regex
            → str_eq regex "" ≡ false
            → truthy value ≡ true
            → matches regex value ≡ ok true)
    unfolding check_regex
    regex_iff none value = (λ h regex e. absurd (ground arith), λ h. refl)
    regex_iff (some regex) value = (
      λ h r e. ground arith,
      λ h. elim (Bool-cases (truthy value && not (str_eq regex ""))) [
        | inl both ↦
            rw both
              ((match_iff (matches regex value)).1 (h regex refl (ground arith) (ground arith)))
        | inr other ↦ rw other refl
      ],
    )

    value_iff :
        (input : TemplateInputField) (value : Value)
        → (check_value parse matches input value ≡ ok tt) ↔ (
            (check_type parse input value ≡ ok tt)
            × (check_regex parse matches input.validation_regex value ≡ ok tt)
            × (check_min parse input.min_value value ≡ ok tt)
            × (check_max parse input.max_value value ≡ ok tt))
    unfolding check_value
    value_iff input value =
        let typed = check_type parse input value in
        let matched = check_regex parse matches input.validation_regex value in
        let least = check_min parse input.min_value value in
        let most = check_max parse input.max_value value in
        let one = then_iff typed (matched >>= λ m. least >>= λ l. most) in
        let two = then_iff matched (least >>= λ l. most) in
        let three = then_iff least most in
        (
          λ h.
              let rest = two.0 (one.0 h).1 in
              let last = three.0 rest.1 in ((one.0 h).0, rest.0, last.0, last.1),
          λ h. one.1 (h.0, two.1 (h.1, three.1 (h.2, h.3))),
        )

    field_iff :
        (inputs : Fields) (input : TemplateInputField)
        → (check_field parse matches inputs input ≡ ok tt) ↔ IsAccepted parse matches inputs input
    unfolding check_field
    field_iff inputs input =
        let value = value_of input.field_name inputs in
        let parts = value_iff input value in
        let typed = type_iff input value in
        let matched = regex_iff input.validation_regex value in
        let least = bound_iff (λ n m. below n m) input.min_value value in
        let most = bound_iff (λ n m. below m n) input.max_value value in
        (
          λ h.
              let p = parts.0 (ground arith) in
              record {
                present = λ needed. ground arith;
                integer = typed.0 p.0;
                matching = matched.0 p.1;
                enough = least.0 p.2;
                not_too_much = most.0 p.3;
              },
          λ a. elim (Bool-cases (input.required && not (is_in input.field_name inputs))) [
            | inl missing ↦ absurd (ground (arith, a.present))
            | inr there ↦ rw there (
                parts.1 (
                  typed.1 a.integer,
                  matched.1 a.matching,
                  least.1 a.enough,
                  most.1 a.not_too_much,
                ))
          ],
        )

    -- The validation accepts the inputs if and only if for each field: a required one is there;
    -- one of type integer that is not None can be converted to a number; and a value that is not
    -- false for Python matches the regular expression, if there is one that is not empty, and is
    -- a number that is not below the minimum and not above the maximum, where there are such.
    pub validate_inputs_iff :
        (inputs : Fields) (fields : List TemplateInputField)
        → (validate_inputs parse matches fields inputs ≡ ok tt)
          ↔ All (IsAccepted parse matches inputs) fields
    unfolding validate_inputs
    validate_inputs_iff inputs [] = (λ h. tt, λ h. refl)
    validate_inputs_iff inputs (input ∷ rest) =
        let here = field_iff inputs input in
        let there = validate_inputs_iff inputs rest in
        let both =
          then_iff (check_field parse matches inputs input)
            (validate_inputs parse matches rest inputs) in
        (λ h. (here.0 (both.0 h).0, there.0 (both.0 h).1), λ h. both.1 (here.1 h.0, there.1 h.1))
