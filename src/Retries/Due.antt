-- ===== src/Retries/Due.antt =====
-- Which executions are retried, whatever the repository.
use application_as_service.Prelude.{
  ℕ, ◌+◌, ◌*◌, ◌≤◌, ◌<◌, ◌≡◌, ◌≢◌, true, some, List, [], ◌∷◌, ◌++◌, arith, length, length-append,
  leb, subst, All, All-append, Bool-cases, inl, inr,
}
use application_as_service.Outcome.{Result, ok, err, Result-cases, Outcome-cases}
use application_as_service.Time.{naive, aware}
use application_as_service.Execution.{failed, Execution, can_retry}
use application_as_service.Execution.Retry.{is_transient_error, calculate_retry_delay}
use application_as_service.Memory
use application_as_service.Memory.{Store, memory, id_of}
use application_as_service.Prelude.Table
use application_as_service.Repository.{Repository}
use application_as_service.Retries.{
  is_due, collect_due, retried, find_retryable_executions, retry_all, count_retry, process_retries,
  default_limit,
}

-- An execution that it is time to retry.
pub record IsDue (now : ℕ) (e : Execution) : Type 0 where
  pub state : e.state ≡ failed
  pub retries_left : e.retry_count < e.max_retries
  pub transient : is_transient_error e ≡ true
  pub not_naive : (t : ℕ) → e.finished_at ≢ some (naive t)
  pub waited :
      (t : ℕ) → e.finished_at ≡ some (aware t) → t + calculate_retry_delay e * 1000000 ≤ now

is_due-IsDue : (now : ℕ) (e : Execution) → is_due now e ≡ ok true → IsDue now e
unfolding is_due can_retry
is_due-IsDue now e h = record {
  state = ground arith;
  retries_left = ground arith;
  transient = ground arith;
  not_naive = λ t f. ground arith;
  waited = λ t f. ground arith;
}

module _ (now limit : ℕ) where
  -- What is promised of the result of the loop.
  abbrev Promised : Result (List Execution) → Type 0
  Promised (ok es) = All (IsDue now) es × (length es ≤ limit)
  Promised (err x) = Unit

  collect_due-Promised :
      (found es : List Execution)
      → All (IsDue now) found
      → length found < limit
      → Promised (collect_due now limit found es)
  unfolding collect_due
  collect_due-Promised found [] h short = (h, omega arith)
  collect_due-Promised found (e ∷ es) h short = elim (Result-cases (is_due now e)) [
    | inl (x, raised) ↦ rw (raised, Promised) tt
    | inr (inr skipped) ↦ rw (skipped, Promised) (collect_due-Promised found es h short)
    | inr (inl due) ↦
        let longer = All-append (IsDue now) found (e ∷ []) h (is_due-IsDue now e due, tt) in
        let count = length-append found (e ∷ []) in
        rw (due, Promised)
          (elim (Bool-cases (leb limit (length (found ++ e ∷ [])))) [
            | inl full ↦ rw (full, Promised) (longer, omega (arith, count))
            | inr more ↦
                rw (more, Promised)
                  (collect_due-Promised (found ++ e ∷ []) es longer (ground (arith, count)))
          ])
  ]

  -- For a limit of at least one and any repository, the executions that are found for a retry are
  -- FAILED, have retries left, failed of a transient error, and have waited for their delay since
  -- an aware time of failure or have no time of failure; and they are at most as many as the
  -- limit.
  pub find_retryable_executions-IsDue :
      {S : Type 0} (repo : Repository S) (s : S) (es : List Execution)
      → 0 < limit
      → find_retryable_executions repo now limit s ≡ ok es
      → All (IsDue now) es × (length es ≤ limit)
  unfolding find_retryable_executions
  find_retryable_executions-IsDue repo s es positive h =
      subst Promised h
        (collect_due-Promised [] (repo.list_by_state failed (limit * 2) s) tt positive)

-- The retries that an execution has had are at most those that it may have.
abbrev pub WithinRetries : Execution → Type 0
WithinRetries e = e.retry_count ≤ e.max_retries

update-WithinRetries :
    (e : Execution) (s : Store)
    → WithinRetries e
    → All WithinRetries s
    → All WithinRetries (Memory.update e s).1
unfolding Memory.update
update-WithinRetries e s h k = ground (arith, Table.All-replace id_of WithinRetries e s h k)

retry_all-WithinRetries :
    (now : ℕ) (es : List Execution) (n : ℕ) (s : Store)
    → All (IsDue now) es
    → All WithinRetries s
    → All WithinRetries (retry_all memory es n s).1
unfolding retry_all memory
retry_all-WithinRetries now [] n s due h = h
retry_all-WithinRetries now (e ∷ es) n s due h =
    let (r, s') = Memory.update (retried e) s in
    retry_all-WithinRetries now es (count_retry memory r n) s' due.1
      (update-WithinRetries (retried e) s (omega (arith, due.0.retries_left)) h)

-- Over the repository in memory, if no execution has had more retries than it may have, that is
-- so after a round of retries too.
pub process_retries-WithinRetries :
    (now : ℕ) (s : Store) → All WithinRetries s → All WithinRetries (process_retries memory now s).1
unfolding process_retries
process_retries-WithinRetries now s h =
    elim (Outcome-cases (find_retryable_executions memory now default_limit s)) [
      | inl (x, raised) ↦ rw raised h
      | inr (es, found) ↦ rw found (
          retry_all-WithinRetries now es 0 s
            (find_retryable_executions-IsDue now default_limit memory s es (omega arith) found).0 h)
    ]
