-- ===== src/Service/Lifecycle.antt =====
-- The life of an execution through the service, from its registration to its end.
use application_as_service.Prelude.{
  ℕ, ◌+◌, ◌*◌, ◌<◌, ◌≡◌, refl, none, some, String, List, [], ◌∷◌, ap, Bool,
}
use application_as_service.Prelude.Table
use application_as_service.Outcome.{Result, ok}
use application_as_service.Time.{naive}
use application_as_service.Execution.{Uuid, Execution}
use application_as_service.Execution
use application_as_service.Postgres
use application_as_service.Postgres.{
  ExecutionOrm, Rows, row_id, orm_to_domain, domain_to_orm, claimed_row, started_row, final_row,
  updated_row, write_time,
}
use application_as_service.Postgres.Mapping.{stored}
use application_as_service.Service.Calls.{
  Call, register, queue, claim, start, complete, PostgresWorld, serve, run_calls, forget,
}
use application_as_service.Service.Accepted.{
  register_accepted, queue_accepted, queued_execution, claim_accepted, start_accepted,
  complete_accepted,
}

-- The call `c` returns and leaves `row` as the row of `id`.
Leads : (ℕ → ℕ) → Call → Uuid → PostgresWorld → ExecutionOrm → Type 0
Leads local c id s row =
    (s' : PostgresWorld) × (serve local c s ≡ (ok tt, s'))
    × (Table.find row_id id s'.store ≡ some row)

run_calls_cons :
    (local : ℕ → ℕ) (c : Call) (cs : List Call) (s s' s'' : PostgresWorld)
    → serve local c s ≡ (ok tt, s')
    → run_calls local cs s' ≡ (ok tt, s'')
    → run_calls local (c ∷ cs) s ≡ (ok tt, s'')
unfolding run_calls
run_calls_cons local c cs s s' s'' h k = rw h k

run_calls-nil : (local : ℕ → ℕ) (s : PostgresWorld) → run_calls local [] s ≡ (ok tt, s)
unfolding run_calls
run_calls-nil local s = refl

module _ (local : ℕ → ℕ) where
  registering :
      (a : ℕ) (e : Execution) (s : PostgresWorld)
      → Table.find row_id e.execution_id s.store ≡ none
      → Leads local (register a e) e.execution_id s (domain_to_orm local e)
  unfolding Leads serve domain_to_orm
  registering a e s missing = (
    _,
    register_accepted local a e s missing,
    Table.find-append_self row_id (domain_to_orm local e) s.store missing,
  )

  module _ (id : Uuid) (s : PostgresWorld) (row : ExecutionOrm)
      (found : Table.find row_id id s.store ≡ some row) where
    queueing :
        (b c : ℕ)
        → row.state ≡ Execution.created
        → Leads local
            (queue b c id)
            id
            s
            (updated_row local (queued_execution local b (orm_to_domain row)) row)
    unfolding Leads serve
    queueing b c fresh = (
      _,
      queue_accepted local b c id s row found fresh,
      Table.find-replace_found row_id id _ s.store row refl found,
    )

    claiming :
        (d f : ℕ) (w : String) (n : ℕ)
        → row.state ≡ Execution.queued
        → row.lease_expires_at ≡ none
        → Leads local (claim d f id w n) id s (claimed_row d w n row)
    unfolding Leads serve
    claiming d f w n ready free = (
      _,
      ap (λ (r : Result Bool × PostgresWorld). forget local r)
          (claim_accepted local d f id w n s row found ready free),
      Table.find-replace_found row_id id _ s.store row refl found,
    )

    module _ (w : String) (expiry : ℕ) (owned : row.lease_owner ≡ some w)
        (leased : row.lease_expires_at ≡ some expiry) (g h i : ℕ) (live : g < expiry)
        (live' : h < expiry) where
      starting :
          row.state ≡ Execution.claimed → Leads local (start g h i id w) id s (started_row h row)
      unfolding Leads serve
      starting ready = (
        _,
        start_accepted local g h i id w s row expiry found owned leased live live' ready,
        Table.find-replace_found row_id id _ s.store row refl found,
      )

      completing :
          row.state ≡ Execution.started
          → Leads local (complete g h i id w) id s (final_row h Execution.completed row)
      unfolding Leads serve
      completing ready = (
        _,
        complete_accepted local g h i id w s row expiry found owned leased live live' ready,
        Table.find-replace_found row_id id _ s.store row refl found,
      )

get-found :
    (id : Uuid) (rows : Rows) (row : ExecutionOrm)
    → Table.find row_id id rows ≡ some row
    → Postgres.get id rows ≡ some (orm_to_domain row)
unfolding Postgres.get
get-found id rows row found = rw found

module _ (local : ℕ → ℕ) (e : Execution) (w : String) (n : ℕ) (a b c d f g h i j k l : ℕ) where
  -- The calls that take an execution from its creation to its completion by the worker `w`. The
  -- numbers are the readings of the clock.
  abbrev pub whole_life : List Call
  whole_life =
      register a e
      ∷ queue b c e.execution_id
      ∷ claim d f e.execution_id w n
      ∷ start g h i e.execution_id w
      ∷ complete j k l e.execution_id w
      ∷ []

  -- The execution at the end of that life.
  abbrev pub at_end : Execution
  at_end = record (stored local e) {
    state = Execution.completed;
    queued_at = some (naive (local b));
    claimed_at = some (naive d);
    started_at = some (naive h);
    finished_at = some (naive k);
    lease_owner = none;
    lease_expires_at = none;
    version = e.version + 1 + 1 + 1 + 1;
  }

  -- A new execution (CREATED, without a lease, with an id that is not in the table) that is
  -- registered, queued, claimed, and started and completed before the lease runs out goes through
  -- all five calls of the service without an exception, and the table then holds it COMPLETED,
  -- without a lease, with the times of its steps and a version that is four higher.
  pub whole_life_completes :
      (s : PostgresWorld)
      → Table.find row_id e.execution_id s.store ≡ none
      → e.state ≡ Execution.created
      → e.lease_expires_at ≡ none
      → g < d + n * 1000000
      → h < d + n * 1000000
      → j < d + n * 1000000
      → k < d + n * 1000000
      → ((run_calls local whole_life s).0 ≡ ok tt)
        × (Postgres.get e.execution_id (run_calls local whole_life s).1.store ≡ some at_end)
  unfolding Leads domain_to_orm orm_to_domain
  whole_life_completes s missing fresh free hg hh hj hk =
      let id = e.execution_id in
      let (s₁, q₁, f₁) = registering local a e s missing in
      let (s₂, q₂, f₂) = queueing local id s₁ _ f₁ b c fresh in
      let (s₃, q₃, f₃) = claiming local id s₂ _ f₂ d f w n refl (rw free) in
      let (s₄, q₄, f₄) = starting local id s₃ _ f₃ w _ refl refl g h i hg hh refl in
      let (s₅, q₅, f₅) = completing local id s₄ _ f₄ w _ refl refl j k l hj hk refl in
      let run : run_calls local whole_life s ≡ (ok tt, s₅) = run_calls_cons local _ _ _ _ _ q₁ (
        run_calls_cons local _ _ _ _ _ q₂ (
          run_calls_cons local _ _ _ _ _ q₃ (
            run_calls_cons local _ _ _ _ _ q₄
              (run_calls_cons local _ _ _ _ _ q₅ (run_calls-nil local s₅))))) in
      rw run (refl, get-found id s₅.store _ f₅)
