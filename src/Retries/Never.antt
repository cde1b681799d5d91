-- ===== src/Retries/Never.antt =====
-- Retries over the table `executions`, whose times are naive.
use application_as_service.Prelude.{
  ℕ, ◌*◌, ◌≡◌, ◌≢◌, refl, true, false, none, some, List, [], ◌∷◌, ◌⊎◌, inl, inr, arith, All,
  Option-cases,
}
use mathlib.Core.List.{map}
use application_as_service.Outcome.{ok, err, type_error}
use application_as_service.Time.{naive}
use application_as_service.Execution.{failed, same_state, Execution}
use application_as_service.Postgres.{
  ExecutionOrm, Rows, orm_to_domain, list_by_state, rows_by_state, postgres,
}
use application_as_service.Postgres.Listing.{All-rows_by_state, rows_by_state-state}
use application_as_service.Retries.{
  is_due, collect_due, find_retryable_executions, retry_all, process_retries, default_limit,
}

-- A FAILED row has the time of its failure, as `finalize` leaves it.
abbrev pub HasFinish : ExecutionOrm → Type 0
HasFinish row = row.state ≡ failed → row.finished_at ≢ none

-- The time of failure is there, and it is naive.
abbrev IsNaive : Execution → Type 0
IsNaive e = (t : ℕ) × (e.finished_at ≡ some (naive t))

is_due_naive :
    (now : ℕ) (e : Execution)
    → IsNaive e
    → (is_due now e ≡ err type_error) ⊎ (is_due now e ≡ ok false)
unfolding is_due
is_due_naive now e h = ground arith

collect_due_naive :
    (now limit : ℕ) (es : List Execution)
    → All IsNaive es
    → (collect_due now limit [] es ≡ err type_error) ⊎ (collect_due now limit [] es ≡ ok [])
unfolding collect_due
collect_due_naive now limit [] h = inr refl
collect_due_naive now limit (e ∷ es) h =
    ground (arith, is_due_naive now e h.0, collect_due_naive now limit es h.1)

row-IsNaive :
    (row : ExecutionOrm)
    → HasFinish row
    → same_state row.state failed ≡ true
    → IsNaive (orm_to_domain row)
unfolding orm_to_domain
row-IsNaive row h k = elim (Option-cases row.finished_at) [
  | inl missing ↦ absurd (ground arith)
  | inr (t, known) ↦ (t, rw known refl)
]

rows-IsNaive :
    (rows : Rows)
    → All HasFinish rows
    → All (λ row. same_state row.state failed ≡ true) rows
    → All IsNaive (map orm_to_domain rows)
unfolding orm_to_domain
rows-IsNaive [] h k = tt
rows-IsNaive (row ∷ rows) h k = (row-IsNaive row h.0 k.0, rows-IsNaive rows h.1 k.1)

found-IsNaive :
    (limit : ℕ) (rows : Rows)
    → All HasFinish rows
    → All IsNaive (list_by_state failed limit none rows)
unfolding list_by_state
found-IsNaive limit rows h =
    rows-IsNaive (rows_by_state failed limit none rows)
      (All-rows_by_state HasFinish failed limit none rows h)
      (rows_by_state-state failed limit none rows)

-- If every FAILED row has its time of failure, a round of retries over PostgreSQL either raises
-- TypeError or retries nothing, and in both cases leaves the table as it was: no execution is
-- ever retried.
pub process_retries_never :
    (local : ℕ → ℕ) (now : ℕ) (rows : Rows)
    → All HasFinish rows
    → (process_retries (postgres local) now rows ≡ (err type_error, rows))
      ⊎ (process_retries (postgres local) now rows ≡ (ok 0, rows))
unfolding process_retries find_retryable_executions postgres retry_all
process_retries_never local now rows h =
    elim (collect_due_naive now default_limit _ (found-IsNaive (default_limit * 2) rows h)) [
      | inl raised ↦ inl (rw raised refl)
      | inr nothing ↦ inr (rw nothing refl)
    ]
