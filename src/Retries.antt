-- ===== src/Retries.antt =====
-- execution_engine/executor/retry_service.py and the cycle of run_retry_worker.py: failed executions
-- are put back to CREATED and queued again. `clock i` is the i-th reading of the clock in a cycle.
pub mod Due
pub mod Never
use application_as_service.Prelude.{
  ℕ, suc, ◌+◌, ◌*◌, String, Bool, true, false, not, ◌&&◌, Option, none, some, List, [], ◌∷◌, ◌++◌,
  ltb, leb, length, if◌then◌else◌,
}
use application_as_service.Outcome.{Result, ok, err, ◌>>=◌, Action, and_then, proceed, lift, pure}
use application_as_service.Time.{DateTime, aware, add_seconds, before}
use application_as_service.Execution.{created, failed, Execution, can_retry}
use application_as_service.Execution.Retry.{is_transient_error, calculate_retry_delay}
use application_as_service.Repository.{Repository}
use application_as_service.Service.{World, on_store, queue_execution}

-- The tests of the loop of `find_retryable_executions` on one execution, up to its `append`. The
-- last one orders `datetime.now(timezone.utc)` and the end of the delay.
unfoldable pub is_due : ℕ → Execution → Result Bool
is_due now e =
    if not (can_retry e)
    then ok false
    else if not (is_transient_error e)
    then ok false
    else elim e.finished_at [
      | none ↦ ok true
      | some finished ↦
          before (aware now) (add_seconds finished (calculate_retry_delay e)) >>= λ early.
          ok (not early)
    ]

-- The loop: it ends with the first exception, or once `limit` executions are collected, which it
-- tests after each `append`.
unfoldable pub collect_due : ℕ → ℕ → List Execution → List Execution → Result (List Execution)
collect_due now limit retryable [] = ok retryable
collect_due now limit retryable (e ∷ es) = elim (is_due now e) [
  | err x ↦ err x
  | ok false ↦ collect_due now limit retryable es
  | ok true ↦
      let rest = collect_due now limit (retryable ++ e ∷ []) es in
      if leb limit (length (retryable ++ e ∷ [])) then ok (retryable ++ e ∷ []) else rest
]

-- What `retry_execution` makes of an execution.
abbrev pub retried : Execution → Execution
retried e = record e {
  retry_count = e.retry_count + 1;
  state = created;
  finished_at = none;
  error_message = none;
  lease_owner = none;
  lease_expires_at = none;
  version = e.version + 1;
}

abbrev pub default_limit : ℕ
default_limit = 100

module _ {S : Type 0} (repo : Repository S) where
  unfoldable pub find_retryable_executions : ℕ → ℕ → S → Result (List Execution)
  unfolding collect_due
  find_retryable_executions now limit s =
      collect_due now limit [] (repo.list_by_state failed (limit * 2) s)

  unfoldable pub retry_execution : Execution → Action S (Unit {0})
  retry_execution e = repo.update (retried e)

  -- An exception of one retry is logged, and the loop goes on.
  abbrev pub count_retry : Result (Unit {0}) → ℕ → ℕ
  count_retry (ok done) n = n + 1
  count_retry (err x) n = n

  unfoldable pub retry_all : List Execution → ℕ → S → ℕ × S
  unfolding retry_execution
  retry_all [] done s = (done, s)
  retry_all (e ∷ es) done s =
      let (r, s') = retry_execution e s in retry_all es (count_retry r done) s'

  abbrev pub report : ℕ × S → Result ℕ × S
  report (n, s) = (ok n, s)

  abbrev pub retry_found : Result (List Execution) → Action S ℕ
  unfolding retry_all
  retry_found (err x) s = (err x, s)
  retry_found (ok retryable) s = report (retry_all retryable 0 s)

  unfoldable pub process_retries : ℕ → Action S ℕ
  unfolding find_retryable_executions retry_all
  process_retries now s = retry_found (find_retryable_executions now default_limit s) s

  -- The worker queues the CREATED executions that have been retried; an exception is logged.
  unfoldable pub queue_retried : (ℕ → ℕ) → ℕ → List Execution → World S → World S
  queue_retried clock i [] w = w
  queue_retried clock i (e ∷ es) w = queue_retried clock (i + 2) es (
      if ltb 0 e.retry_count
      then (queue_execution repo (clock i) (clock (i + 1)) e.execution_id w).1
      else w)

  -- `_retry_cycle`
  unfoldable pub retry_cycle : (ℕ → ℕ) → Action (World S) (Unit {0})
  unfolding process_retries queue_retried
  retry_cycle clock = and_then (on_store (process_retries (clock 0))) λ count w.
      if ltb 0 count
      then (ok tt, queue_retried clock 1 (repo.list_by_state created default_limit w.store) w)
      else (ok tt, w)
