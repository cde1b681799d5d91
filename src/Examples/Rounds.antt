-- ===== src/Examples/Rounds.antt =====
-- The theorems on retries, at sample executions.
use application_as_service.Prelude.{◌≡◌, refl, ◌⊎◌, some, [], ◌∷◌, arith, true, All, length, ◌≤◌}
use application_as_service.Prelude.Text.{codes, lower, contains}
use application_as_service.Outcome.{ok, err, type_error}
use application_as_service.Time.{aware}
use application_as_service.Execution
use application_as_service.Execution.{Execution, can_retry}
use application_as_service.Execution.Retry.{occurs_any, calculate_retry_delay, is_transient_error}
use application_as_service.Memory.{Store, memory, list_by_state}
use application_as_service.Postgres.{postgres}
use application_as_service.Retries.{process_retries, is_due, find_retryable_executions}
use application_as_service.Retries.Due.{
  IsDue, WithinRetries, find_retryable_executions-IsDue, process_retries-WithinRetries,
}
use application_as_service.Retries.Never.{HasFinish, process_retries_never}
use application_as_service.Examples.{session, fresh, failed_row, queued_row}

abbrev failed_once : Execution
failed_once = record fresh {
  state = Execution.failed;
  finished_at = some (aware 5000);
  error_message = some "Connection refused";
  retry_count = 1;
}

says_so : contains (codes "node not found") (lower "Node not found: n1") ≡ true
unfolding contains lower
says_so = refl

abbrev memory_store : Store
memory_store = failed_once ∷ []

found_one : find_retryable_executions memory 60000000 100 memory_store ≡ ok (failed_once ∷ [])
unfolding find_retryable_executions memory list_by_state is_due can_retry is_transient_error
    occurs_any contains lower calculate_retry_delay
found_one = refl

find_retryable_executions-IsDue_example :
    All (IsDue 60000000) (failed_once ∷ []) × (length (failed_once ∷ []) ≤ 100)
find_retryable_executions-IsDue_example =
    find_retryable_executions-IsDue 60000000 100 memory memory_store (failed_once ∷ [])
      (omega arith) found_one

process_retries-WithinRetries_example :
    All WithinRetries (process_retries memory 60000000 memory_store).1
process_retries-WithinRetries_example =
    process_retries-WithinRetries 60000000 memory_store (omega arith, tt)

finishes : All HasFinish (failed_row ∷ queued_row ∷ [])
finishes = ground arith

process_retries_never_example :
    (process_retries (postgres session) 90000000 (failed_row ∷ queued_row ∷ [])
      ≡ (err type_error, failed_row ∷ queued_row ∷ []))
    ⊎ (process_retries (postgres session) 90000000 (failed_row ∷ queued_row ∷ [])
        ≡ (ok 0, failed_row ∷ queued_row ∷ []))
process_retries_never_example =
    process_retries_never session 90000000 (failed_row ∷ queued_row ∷ []) finishes
