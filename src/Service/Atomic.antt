-- ===== src/Service/Atomic.antt =====
-- The service over the table `executions`: what a call that raises leaves behind.
use application_as_service.Prelude.{ℕ, ◌≡◌, refl, String, arith, Option-cases, inl, inr}
use application_as_service.Prelude.Table
use application_as_service.Outcome.{err, Error}
use application_as_service.Execution.{Uuid, Execution}
use application_as_service.Execution
use application_as_service.Postgres
use application_as_service.Postgres.{ExecutionOrm, Rows, row_id, postgres}
use application_as_service.Service.{
  register_execution, queue_execution, claim_execution, start_execution, complete_execution,
  fail_execution, renew_execution_lease,
}
use application_as_service.Service.Calls.{
  Call, register, queue, claim, start, complete, fail, renew, PostgresWorld, serve,
}
use application_as_service.Service.Emitting.{
  emit_registered, emit_queued, emit_claimed, emit_started, emit_completed, emit_failed,
}

ruleset emitting =
    (emit_registered, emit_queued, emit_claimed, emit_started, emit_completed, emit_failed)

module _ (local : ℕ → ℕ) where
  start_raises :
      (now now' now'' : ℕ) (id : Uuid) (w : String) (s : PostgresWorld) (x : Error)
      → (start_execution (postgres local) now now' now'' id w s).0 ≡ err x
      → (start_execution (postgres local) now now' now'' id w s).1 ≡ s
  unfolding start_execution postgres Postgres.get Postgres.orm_to_domain Postgres.start
  start_raises now now' now'' id w s x h = elim (Option-cases (Table.find row_id id s.store)) [
    | inl missing ↦ ground arith
    | inr (row, found) ↦ grind (
      arith,
      emit_started,
      Table.find-replace_found row_id id (Postgres.started_row now' row) s.store row refl found,
    )
  ]

  complete_raises :
      (now now' now'' : ℕ) (id : Uuid) (w : String) (s : PostgresWorld) (x : Error)
      → (complete_execution (postgres local) now now' now'' id w s).0 ≡ err x
      → (complete_execution (postgres local) now now' now'' id w s).1 ≡ s
  unfolding complete_execution postgres Postgres.get Postgres.orm_to_domain Postgres.finalize
  complete_raises now now' now'' id w s x h = elim (Option-cases (Table.find row_id id s.store)) [
    | inl missing ↦ ground arith
    | inr (row, found) ↦ grind (
      arith,
      emit_completed,
      Table.find-replace_found row_id id (Postgres.final_row now' Execution.completed row) s.store
          row refl found,
    )
  ]

  fail_raises :
      (now now' now'' : ℕ) (id : Uuid) (w reason : String) (s : PostgresWorld) (x : Error)
      → (fail_execution (postgres local) now now' now'' id w reason s).0 ≡ err x
      → (fail_execution (postgres local) now now' now'' id w reason s).1 ≡ s
  unfolding fail_execution postgres Postgres.get Postgres.orm_to_domain Postgres.finalize
  fail_raises now now' now'' id w reason s x h =
      elim (Option-cases (Table.find row_id id s.store)) [
        | inl missing ↦ ground arith
        | inr (row, found) ↦ grind (
          arith,
          emit_failed,
          Table.find-replace_found row_id id (Postgres.final_row now' Execution.failed row) s.store
              row refl found,
        )
      ]

  claim_raises :
      (now now' : ℕ) (id : Uuid) (w : String) (n : ℕ) (s : PostgresWorld) (x : Error)
      → (claim_execution (postgres local) now now' id w n s).0 ≡ err x
      → (claim_execution (postgres local) now now' id w n s).1 ≡ s
  unfolding claim_execution postgres Postgres.get Postgres.orm_to_domain Postgres.try_claim
  claim_raises now now' id w n s x h = elim (Option-cases (Table.find row_id id s.store)) [
    | inl missing ↦ ground arith
    | inr (row, found) ↦ grind (
      arith,
      emit_claimed,
      Table.find-replace_found row_id id (Postgres.claimed_row now w n row) s.store row refl found,
    )
  ]

  renew_raises :
      (now now' : ℕ) (id : Uuid) (w : String) (n : ℕ) (s : PostgresWorld) (x : Error)
      → (renew_execution_lease (postgres local) now now' id w n s).0 ≡ err x
      → (renew_execution_lease (postgres local) now now' id w n s).1 ≡ s
  unfolding renew_execution_lease postgres Postgres.get Postgres.renew_lease Postgres.orm_to_domain
  renew_raises now now' id w n s x h = ground arith

  queue_raises :
      (now now' : ℕ) (id : Uuid) (s : PostgresWorld) (x : Error)
      → (queue_execution (postgres local) now now' id s).0 ≡ err x
      → (queue_execution (postgres local) now now' id s).1 ≡ s
  unfolding queue_execution postgres Postgres.get Postgres.update Postgres.orm_to_domain
      Execution.queue
  queue_raises now now' id s x h = grind (arith, emit_queued)

  register_raises :
      (now : ℕ) (e : Execution) (s : PostgresWorld) (x : Error)
      → (register_execution (postgres local) now e s).0 ≡ err x
      → (register_execution (postgres local) now e s).1 ≡ s
  unfolding register_execution postgres Postgres.create
  register_raises now e s x h = grind (arith, emit_registered)

  -- Over the PostgreSQL repository a call of the service that raises leaves the table and the
  -- emitters as they were.
  pub serve_atomic :
      (c : Call) (s : PostgresWorld) (x : Error)
      → (serve local c s).0 ≡ err x
      → (serve local c s).1 ≡ s
  unfolding serve
  serve_atomic (register now e) s x h = register_raises now e s x h
  serve_atomic (queue now now' id) s x h = queue_raises now now' id s x h
  serve_atomic (claim now now' id w n) s x h = ground (arith, claim_raises now now' id w n s x)
  serve_atomic (start now now' now'' id w) s x h = start_raises now now' now'' id w s x h
  serve_atomic (complete now now' now'' id w) s x h = complete_raises now now' now'' id w s x h
  serve_atomic (fail now now' now'' id w r) s x h = fail_raises now now' now'' id w r s x h
  serve_atomic (renew now now' id w n) s x h = renew_raises now now' id w n s x h
