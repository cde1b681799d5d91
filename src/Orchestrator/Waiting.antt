-- ===== src/Orchestrator/Waiting.antt =====
-- `_wait_for_execution` of execution_engine/orchestrator/deployment_orchestrator.py: the loop that asks
-- for an execution until it is decided. `poll i` is what the i-th turn finds in the repository, and
-- `clock i` what it reads of the clock, after `start_time`; both in microseconds. The loop runs on
-- fuel, one unit for each turn; without fuel it gives none.
use application_as_service.Prelude.{
  ℕ, zero, suc, ◌+◌, ◌-◌, ◌*◌, ◌/◌, ◌≤◌, ◌<◌, ◌≡◌, ◌⊎◌, inl, inr, refl, String, Bool, true, Option,
  none, some, ltb, arith, if◌then◌else◌, Option-cases, Bool-cases, subst,
}
use native.Mathlib.Decide.{ℕ_discrete}
use application_as_service.Value.{Value, Fields}
use application_as_service.Execution
use application_as_service.Execution.{ExecutionState, Execution, same_state}
use application_as_service.Validation.{is_given}
use application_as_service.Value.{truthy}
use application_as_service.Templates.Json.{◌⊳◌}
use application_as_service.DomainService.Config.{Texts}

-- How the wait ends: with a result, or with a RuntimeError of this text.
pub data Waited : Type 0 where
  finished : Value → Waited
  not_found : Waited
  failed_with : String → Waited
  timed_out : ExecutionState → Waited

-- `execution.deployment_result or {}`
abbrev pub or_empty : Option Value → Value
or_empty none = Value.object Fields.no_fields
or_empty (some v) = if truthy v then v else Value.object Fields.no_fields

-- `execution.error_message or "Unknown error"`
abbrev pub or_unknown : Option String → String
or_unknown none = "Unknown error"
or_unknown (some m) = if is_given (some m) then m else "Unknown error"

module _ (texts : Texts) (poll : ℕ → Option Execution) (clock : ℕ → ℕ)
    (start_time timeout_seconds : ℕ) where
  abbrev pub wait_result : Execution → Value
  wait_result e = Value.object (
      ("execution_id", Value.text (texts.uuid_text e.execution_id))
      ⊳ ("status", Value.text "completed")
      ⊳ ("deployment_result", or_empty e.deployment_result)
      ⊳ Fields.no_fields)

  -- The test `elapsed > timeout_seconds`
  abbrev pub is_late : ℕ → Bool
  is_late i = ltb (timeout_seconds * 1000000) (clock i - start_time)

  -- One turn of the loop; none where it sleeps and goes on.
  unfoldable pub turn : ℕ → Option Waited
  unfolding truthy
  turn i = elim (poll i) [
    | none ↦ some not_found
    | some e ↦
        if same_state e.state Execution.completed
        then some (finished (wait_result e))
        else if same_state e.state Execution.failed
        then some (failed_with (or_unknown e.error_message))
        else if is_late i
        then some (timed_out e.state)
        else none
  ]

  unfoldable pub wait_from : ℕ → ℕ → Option Waited
  unfolding turn
  wait_from zero i = none
  wait_from (suc fuel) i =
      let rest = wait_from fuel (suc i) in elim (turn i) [ some w ↦ some w | none ↦ rest ]

  unfoldable pub wait_for_execution : ℕ → Option Waited
  unfolding wait_from
  wait_for_execution fuel = wait_from fuel 0

  -- The turn n is the first from i on that does not sleep, and the wait ends with what it gives.
  abbrev pub IsFirst : ℕ → ℕ → ℕ → Type 0
  IsFirst fuel i n =
      (w : Waited) × (wait_from fuel i ≡ some w)
      × (turn n ≡ some w)
      × ((k : ℕ) → i ≤ k → k < n → turn k ≡ none)

  from_next : (P : ℕ → Type 0) (i : ℕ) → P i → (k : ℕ) → i ≤ k → (suc i ≤ k → P k) → P k
  from_next P i here k le next = elim (ℕ_discrete i k) [
    | yes same ↦ subst P same here
    | no differs ↦ next (omega arith)
  ]

  wait_from-IsFirst :
      (fuel i : ℕ)
      → ((n : ℕ) × (i ≤ n) × (n < i + fuel) × IsFirst fuel i n)
        ⊎ ((k : ℕ) → i ≤ k → k < i + fuel → turn k ≡ none)
  unfolding wait_from
  wait_from-IsFirst zero i = inr (λ k a b. absurd (omega arith))
  wait_from-IsFirst (suc fuel) i = elim (Option-cases (turn i)) [
    | inr (w, now) ↦ inl (
      i,
      omega arith,
      omega arith,
      (w, rw (now, wait_from) refl, now, λ k a b. absurd (omega arith)),
    )
    | inl asleep ↦ elim (wait_from-IsFirst fuel (suc i)) [
      | inl (n, a, b, (w, e, t, asleep_before)) ↦ inl (
        n,
        omega arith,
        omega arith,
        (
          w,
          rw (asleep, wait_from) e,
          t,
          λ k c d. from_next (λ k. turn k ≡ none) i asleep k c (λ c'. asleep_before k c' d),
        ),
      )
      | inr never ↦
          inr
            (λ k a b. from_next (λ k. turn k ≡ none) i asleep k a (λ a'. never k a' (omega arith)))
    ]
  ]

  late-turn : (i : ℕ) → is_late i ≡ true → (w : Waited) × (turn i ≡ some w)
  unfolding turn
  late-turn i late = elim (Option-cases (poll i)) [
    | inl missing ↦ (not_found, rw (missing, turn) refl)
    | inr (e, found) ↦ elim (Bool-cases (same_state e.state Execution.completed)) [
      | inl done ↦ (finished (wait_result e), rw (found, done, turn) refl)
      | inr going ↦ elim (Bool-cases (same_state e.state Execution.failed)) [
        | inl broken ↦
            (failed_with (or_unknown e.error_message), rw (found, going, broken, turn) refl)
        | inr running ↦ (timed_out e.state, rw (found, going, running, late, turn) refl)
      ]
    ]
  ]

  -- If turn i of the wait for an execution (counted from 0) reads the clock at least 2 i seconds
  -- after the start, fuel for half the timeout in seconds, rounded down, and two more turns is
  -- enough: within these turns the loop ends, with what the first turn gives that does not sleep.
  pub wait_for_execution_ends :
      ((i : ℕ) → start_time + i * 2000000 ≤ clock i)
      → (n : ℕ) × (n < timeout_seconds / 2 + 2) × IsFirst (timeout_seconds / 2 + 2) 0 n
  wait_for_execution_ends sleeps = elim (wait_from-IsFirst (timeout_seconds / 2 + 2) 0) [
    | inl (n, a, b, first) ↦ (n, omega arith, first)
    | inr never ↦
        let last = timeout_seconds / 2 + 1 in
        let slept = sleeps last in
        let late : is_late last ≡ true = ground (arith, slept) in
        let (w, decided) = late-turn last late in
        let asleep = never last (omega arith) (omega arith) in absurd (ground arith)
  ]
