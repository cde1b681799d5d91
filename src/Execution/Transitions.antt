-- ===== src/Execution/Transitions.antt =====
-- The methods of `Execution` as one state machine: the diagram of its states, the invariant of a
-- record, and what a sequence of calls can do.
use application_as_service.Prelude.{
  ℕ, ◌+◌, ◌≡◌, ◌≢◌, ◌↔◌, ◌⊎◌, Bool, true, false, Option, none, String, arith,
}
use application_as_service.Outcome.{Result, ok, err, value_error}
use application_as_service.Value.{Value}
use application_as_service.Execution.{
  ExecutionState, created, queued, claimed, started, completed, failed, cancelled, Execution, queue,
  claim, start, complete, fail, cancel, renew_lease, is_lease_valid, is_final,
}

-- The diagram of the states, as the class's doc comments describe it.
infix 40 ◌⟶◌
pub data ◌⟶◌ : ExecutionState → ExecutionState → Type 0 where
  queueing : created ⟶ queued
  claiming : queued ⟶ claimed
  starting : claimed ⟶ started
  completing : started ⟶ completed
  failing_queued : queued ⟶ failed
  failing_claimed : claimed ⟶ failed
  failing_started : started ⟶ failed
  cancelling_created : created ⟶ cancelled
  cancelling_queued : queued ⟶ cancelled
  cancelling_claimed : claimed ⟶ cancelled
  cancelling_started : started ⟶ cancelled

-- A call of a method that changes the record, with the clock readings that it takes.
pub data Call : Type 0 where
  queue_call start_call cancel_call : ℕ → Call
  claim_call renew_call : ℕ → ℕ → String → ℕ → Call
  complete_call : ℕ → Option Value → Call
  fail_call : ℕ → String → Call

unfoldable pub call : Call → Execution → Result Execution
call (queue_call now) e = queue now e
call (start_call now) e = start now e
call (cancel_call now) e = cancel now e
call (claim_call now now' w n) e = claim now now' w n e
call (renew_call now now' w n) e = renew_lease now now' w n e
call (complete_call now r) e = complete now r e
call (fail_call now m) e = fail now m e

program : Unit {0}
unfolding call queue claim start complete fail cancel renew_lease is_lease_valid
program = tt

ruleset edges = (
  queueing, claiming, starting, completing, failing_queued, failing_claimed, failing_started,
  cancelling_created, cancelling_queued, cancelling_claimed, cancelling_started,
)

abbrev pub is_renewal : Call → Bool
is_renewal (renew_call now now' w n) = true
is_renewal _ = false

-- A method call of the execution record that returns follows an edge of the diagram of states, or
-- is a lease renewal and keeps the state; in either case the version grows by one.
pub call_follows_diagram :
    (c : Call) (e e' : Execution)
    → call c e ≡ ok e'
    → ((e.state ⟶ e'.state) ⊎ ((is_renewal c ≡ true) × (e'.state ≡ e.state)))
      × (e'.version ≡ e.version + 1)
unfolding program
call_follows_diagram (queue_call now) e e' h = grind (arith, edges)
call_follows_diagram c e e' h = grind (arith, edges)

-- What holds of a record between two calls.
pub record IsConsistent (e : Execution) : Type 0 where
  pub final_finished : is_final e.state ≡ true → e.finished_at ≢ none
  pub finished_final : is_final e.state ≡ false → e.finished_at ≡ none
  pub final_unleased : is_final e.state ≡ true → e.lease_owner ≡ none
  pub owner_expiry : (e.lease_owner ≡ none) ↔ (e.lease_expires_at ≡ none)
  pub leased_states : e.lease_owner ≢ none → (e.state ≡ claimed) ⊎ (e.state ≡ started)
  pub claimed_leased : e.state ≡ claimed → e.lease_owner ≢ none
  pub started_leased : e.state ≡ started → e.lease_owner ≢ none

-- A method call that returns keeps the record consistent: a finish time exactly in the final
-- states, a lease owner exactly when there is an expiry, only in CLAIMED and STARTED, and always
-- there.
pub call-IsConsistent :
    (c : Call) (e e' : Execution) → IsConsistent e → call c e ≡ ok e' → IsConsistent e'
unfolding program
call-IsConsistent (queue_call now) e e' v h = ground arith
call-IsConsistent c e e' v h = ground arith

-- A consistent record in a final state refuses every method call with ValueError, the renewal of
-- its lease too.
pub call_final :
    (c : Call) (e : Execution)
    → IsConsistent e
    → is_final e.state ≡ true
    → call c e ≡ err value_error
unfolding program
call_final (queue_call now) e v final = ground arith
call_final c e v final = ground arith
