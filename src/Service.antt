-- ===== src/Service.antt =====
-- execution_engine/core/service.py: the execution service, over any repository and emitters. The
-- numbers that come first are the readings of the clock, in the order in which the service, the
-- domain model, the repository and the event take them.
pub mod Emitting
pub mod Calls
pub mod Atomic
pub mod Accepted
pub mod Lifecycle
pub mod Reasons
use application_as_service.Prelude.{
  ℕ, String, Bool, true, false, not, none, some, List, [], ◌∷◌, if◌then◌else◌,
}
use application_as_service.Outcome.{
  Result, ok, err, Action, proceed, and_then, lift, pure, raise_if, concurrency_error,
  invalid_state_error, lease_error,
}
use application_as_service.Time.{naive, has_lapsed}
use application_as_service.Execution.{
  Uuid, created, claimed, started, completed, failed, same_state, Execution, owned_by, queue,
}
use application_as_service.Events.{
  ExecutionEvent, Emitter, multi_emit, execution_registered, execution_queued, execution_claimed,
  execution_started, execution_completed, execution_failed,
}
use application_as_service.Repository.{Repository}

-- What the service reaches: the repository's store and the emitters.
pub record World (S : Type 0) : Type 0 where
  pub store : S
  pub emitters : List Emitter

module _ {S : Type 0} where
  abbrev pub put_store : {A : Type 0} → World S → Result A × S → Result A × World S
  put_store w (r, s) = (r, record w { store = s })

  abbrev pub put_emitters : {A : Type 0} → World S → Result A × List Emitter → Result A × World S
  put_emitters w (r, es) = (r, record w { emitters = es })

  -- A call of the repository.
  abbrev pub on_store : {A : Type 0} → Action S A → Action (World S) A
  on_store m w = put_store w (m w.store)

  unfoldable pub emit_events : List ExecutionEvent → Action (World S) (Unit {0})
  emit_events events w = put_emitters w (multi_emit events w.emitters)

  -- `_assert_valid_lease`
  unfoldable pub assert_valid_lease : ℕ → Execution → String → Action (World S) (Unit {0})
  assert_valid_lease now e worker_id w =
      if not (owned_by e.lease_owner worker_id)
      then (err lease_error, w)
      else proceed (has_lapsed e.lease_expires_at (naive now), w)
          λ lapsed. raise_if lapsed lease_error

module _ {S : Type 0} (repo : Repository S) where
  -- `_require_execution`
  unfoldable pub require_execution : Uuid → Action (World S) Execution
  require_execution id w = elim (repo.get id w.store) [
    | none ↦ (err concurrency_error, w)
    | some e ↦ (ok e, w)
  ]

  unfoldable pub register_execution : ℕ → Execution → Action (World S) (Unit {0})
  unfolding emit_events
  register_execution now e =
      and_then (on_store (repo.create e))
        λ created_row. emit_events (execution_registered now e ∷ [])

  unfoldable pub queue_execution : ℕ → ℕ → Uuid → Action (World S) (Unit {0})
  unfolding emit_events require_execution
  queue_execution now now' id = and_then (require_execution id) λ e.
      and_then (raise_if (not (same_state e.state created)) invalid_state_error) λ checked.
        and_then (lift (queue now e)) λ e'.
          and_then (on_store (repo.update e'))
            λ updated. emit_events (execution_queued now' e' ∷ [])

  unfoldable pub claim_execution : ℕ → ℕ → Uuid → String → ℕ → Action (World S) Bool
  unfolding emit_events require_execution
  claim_execution now now' id worker_id lease_seconds =
      and_then (on_store (repo.try_claim now id worker_id lease_seconds)) λ won.
        if won
        then and_then (require_execution id)
            (λ e. and_then (emit_events (execution_claimed now' e ∷ [])) λ emitted. pure true)
        else pure false

  unfoldable pub start_execution : ℕ → ℕ → ℕ → Uuid → String → Action (World S) (Unit {0})
  unfolding emit_events require_execution assert_valid_lease
  start_execution now now' now'' id worker_id = and_then (require_execution id) λ e.
      and_then (assert_valid_lease now e worker_id) λ leased.
        and_then (raise_if (not (same_state e.state claimed)) invalid_state_error) λ checked.
          and_then (on_store (repo.start now' id worker_id)) λ done.
            and_then (require_execution id) λ e'. emit_events (execution_started now'' e' ∷ [])

  unfoldable pub complete_execution : ℕ → ℕ → ℕ → Uuid → String → Action (World S) (Unit {0})
  unfolding emit_events require_execution assert_valid_lease
  complete_execution now now' now'' id worker_id = and_then (require_execution id) λ e.
      and_then (assert_valid_lease now e worker_id) λ leased.
        and_then (raise_if (not (same_state e.state started)) invalid_state_error) λ checked.
          and_then (on_store (repo.finalize now' id worker_id completed)) λ done.
            and_then (require_execution id) λ e'. emit_events (execution_completed now'' e' ∷ [])

  unfoldable pub fail_execution : ℕ → ℕ → ℕ → Uuid → String → String → Action (World S) (Unit {0})
  unfolding emit_events require_execution assert_valid_lease
  fail_execution now now' now'' id worker_id reason = and_then (require_execution id) λ e.
      and_then (assert_valid_lease now e worker_id) λ leased.
        and_then (on_store (repo.finalize now' id worker_id failed)) λ done.
          and_then (require_execution id) λ e'. emit_events (execution_failed now'' e' reason ∷ [])

  unfoldable pub renew_execution_lease : ℕ → ℕ → Uuid → String → ℕ → Action (World S) (Unit {0})
  unfolding require_execution assert_valid_lease
  renew_execution_lease now now' id worker_id lease_seconds = and_then (require_execution id) λ e.
      and_then (assert_valid_lease now e worker_id)
        λ leased. on_store (repo.renew_lease now' id worker_id lease_seconds)
