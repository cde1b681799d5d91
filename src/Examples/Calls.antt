-- ===== src/Examples/Calls.antt =====
-- The theorems on the record's methods and on the service, at sample calls.
use application_as_service.Prelude.{ℕ, ◌+◌, ◌≡◌, refl, ◌⊎◌, none, some, [], ◌∷◌, arith, true, false}
use application_as_service.Prelude.Table
use application_as_service.Outcome.{ok, err, lease_error}
use application_as_service.Time.{aware}
use application_as_service.Execution
use application_as_service.Execution.{Uuid, Execution}
use application_as_service.Execution.Transitions.{
  claim_call, call, ◌⟶◌, is_renewal, IsConsistent, call_follows_diagram, call-IsConsistent,
}
use application_as_service.Events
use application_as_service.Events.{
  Emitter, printing, silent, multi_emit, execution_queued, take_all, multi_emit_allowed,
}
use application_as_service.Postgres
use application_as_service.Postgres.{Rows, row_id, orm_to_domain}
use application_as_service.Retries.{is_due}
use application_as_service.Service
use application_as_service.Service.{World}
use application_as_service.Service.Calls
use application_as_service.Service.Calls.{PostgresWorld, serve, run_calls}
use application_as_service.Service.Atomic.{serve_atomic}
use application_as_service.Service.Lifecycle.{whole_life, at_end, whole_life_completes}
use application_as_service.Service.Reasons.{serve_all, reason_is_lost}
use application_as_service.Examples.{session, fresh, running_row, leased_row, empty_world}

abbrev waiting : Execution
waiting = record fresh { state = Execution.queued; queued_at = some (aware 1500); version = 1 }

abbrev taken : Execution
taken = record waiting {
  state = Execution.claimed;
  lease_owner = some "w1";
  lease_expires_at = some (aware 60002000);
  claimed_at = some (aware 2001);
  version = 2;
}

claiming : call (claim_call 2000 2001 "w1" 60) waiting ≡ ok taken
unfolding call Execution.claim
claiming = refl

call_follows_diagram_example :
    ((waiting.state ⟶ taken.state)
      ⊎ ((is_renewal (claim_call 2000 2001 "w1" 60) ≡ true) × (taken.state ≡ waiting.state)))
    × (taken.version ≡ waiting.version + 1)
call_follows_diagram_example =
    call_follows_diagram (claim_call 2000 2001 "w1" 60) waiting taken claiming

waiting-IsConsistent : IsConsistent waiting
waiting-IsConsistent = ground arith

call-IsConsistent_example : IsConsistent taken
call-IsConsistent_example =
    call-IsConsistent (claim_call 2000 2001 "w1" 60) waiting taken waiting-IsConsistent claiming

queued_allowed :
    Events.is_allowed Events.allowed_events (execution_queued 3 waiting).event_type ≡ true
unfolding Events.is_allowed execution_queued
queued_allowed = refl

abbrev leased_world : PostgresWorld
leased_world = record empty_world { store = leased_row ∷ [] }

-- A worker that has no lease wants to start the execution.
abbrev theft : Calls.Call
theft = Calls.start 4000 4001 4002 7 "w2"

theft_raises : (serve session theft leased_world).0 ≡ err lease_error
unfolding serve Service.start_execution Postgres.postgres Postgres.get orm_to_domain Table.find
theft_raises = refl

serve_atomic_example : (serve session theft leased_world).1 ≡ leased_world
serve_atomic_example = serve_atomic session theft leased_world lease_error theft_raises

no_row : Table.find row_id fresh.execution_id empty_world.store ≡ none
unfolding Table.find
no_row = refl

whole_life_completes_example :
    ((run_calls session (whole_life session fresh "w1" 60 1 2 3 4 5 6 7 8 9 10 11) empty_world).0
      ≡ ok tt)
    × (Postgres.get 7
          (run_calls session
            (whole_life session fresh "w1" 60 1 2 3 4 5 6 7 8 9 10 11)
            empty_world).1.store
        ≡ some (at_end session fresh "w1" 60 1 2 3 4 5 6 7 8 9 10 11))
whole_life_completes_example =
    whole_life_completes session fresh "w1" 60 1 2 3 4 5 6 7 8 9 10 11 empty_world no_row refl refl
      (omega arith) (omega arith) (omega arith) (omega arith)

abbrev running_world : PostgresWorld
running_world = record empty_world { store = running_row ∷ [] }

known_running : Postgres.get 7 running_world.store ≡ some (orm_to_domain running_row)
unfolding Postgres.get Table.find
known_running = refl

silent_row : (orm_to_domain running_row).error_message ≡ none
unfolding orm_to_domain
silent_row = refl

reason_is_lost_example :
    (e : Execution) × (Postgres.get 7
        (serve_all session (Calls.fail 5000 5001 5002 7 "w1" "timeout" ∷ []) running_world).store
      ≡ some e)
    × (e.error_message ≡ none)
    × ((now : ℕ) → is_due now e ≡ ok false)
reason_is_lost_example =
    reason_is_lost session (Calls.fail 5000 5001 5002 7 "w1" "timeout" ∷ []) running_world 7
      (orm_to_domain running_row) known_running silent_row
