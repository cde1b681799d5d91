-- ===== src/Service/Accepted.antt =====
-- What each call of the service does to the table and the emitters when it is accepted.
use application_as_service.Prelude.{
  ℕ, ◌+◌, ◌<◌, ◌≡◌, refl, true, none, some, String, [], ◌∷◌, ◌++◌, arith,
}
use text.Mathlib.TextPositions.{eq_refl}
use application_as_service.Prelude.Table
use application_as_service.Outcome.{ok}
use application_as_service.Time.{aware}
use application_as_service.Execution.{Uuid, Execution}
use application_as_service.Execution
use application_as_service.Events.{
  take_all, execution_registered, execution_queued, execution_claimed, execution_started,
  execution_completed, execution_failed,
}
use application_as_service.Postgres
use application_as_service.Postgres.{
  ExecutionOrm, Rows, row_id, postgres, orm_to_domain, domain_to_orm, claimed_row, started_row,
  final_row, renewed_row, updated_row,
}
use application_as_service.Service.{
  register_execution, queue_execution, claim_execution, start_execution, complete_execution,
  fail_execution, renew_execution_lease,
}
use application_as_service.Service.Calls.{PostgresWorld}
use application_as_service.Service.Emitting.{
  emit_registered, emit_queued, emit_claimed, emit_started, emit_completed, emit_failed,
}

module _ (local : ℕ → ℕ) where
  pub register_accepted :
      (now : ℕ) (e : Execution) (s : PostgresWorld)
      → Table.find row_id e.execution_id s.store ≡ none
      → register_execution (postgres local) now e s ≡ (
        ok tt,
        record {
          store = s.store ++ domain_to_orm local e ∷ [];
          emitters = take_all (execution_registered now e) s.emitters;
        },
      )
  unfolding register_execution postgres Postgres.create
  register_accepted now e s missing = ground (arith, emit_registered now e s.emitters)

  -- What `queue` makes of an execution.
  abbrev pub queued_execution : ℕ → Execution → Execution
  queued_execution now e = record e {
    state = Execution.queued;
    queued_at = some (aware now);
    version = e.version + 1;
  }

  pub queue_accepted :
      (now now' : ℕ) (id : Uuid) (s : PostgresWorld) (row : ExecutionOrm)
      → Table.find row_id id s.store ≡ some row
      → row.state ≡ Execution.created
      → queue_execution (postgres local) now now' id s ≡ (
        ok tt,
        record {
          store =
              Table.replace row_id
                (updated_row local (queued_execution now (orm_to_domain row)) row)
                s.store;
          emitters =
              take_all
                (execution_queued now' (queued_execution now (orm_to_domain row)))
                s.emitters;
        },
      )
  unfolding queue_execution postgres Postgres.get Postgres.update Postgres.orm_to_domain
      Execution.queue
  queue_accepted now now' id s row found fresh = ground (
    arith,
    Table.key-find row_id id s.store row found,
    emit_queued now' (queued_execution now (orm_to_domain row)) s.emitters,
  )

  pub claim_accepted :
      (now now' : ℕ) (id : Uuid) (w : String) (n : ℕ) (s : PostgresWorld) (row : ExecutionOrm)
      → Table.find row_id id s.store ≡ some row
      → row.state ≡ Execution.queued
      → row.lease_expires_at ≡ none
      → claim_execution (postgres local) now now' id w n s ≡ (
        ok true,
        record {
          store = Table.replace row_id (claimed_row now w n row) s.store;
          emitters =
              take_all
                (execution_claimed now' (orm_to_domain (claimed_row now w n row)))
                s.emitters;
        },
      )
  unfolding claim_execution postgres Postgres.get Postgres.try_claim
  claim_accepted now now' id w n s row found ready free = ground (
    arith,
    Table.find-replace_found row_id id (claimed_row now w n row) s.store row refl found,
    emit_claimed now' (orm_to_domain (claimed_row now w n row)) s.emitters,
  )

  module _ (now now' now'' : ℕ) (id : Uuid) (w : String) (s : PostgresWorld) (row : ExecutionOrm)
      (expiry : ℕ) (found : Table.find row_id id s.store ≡ some row)
      (owned : row.lease_owner ≡ some w) (leased : row.lease_expires_at ≡ some expiry)
      (live : now < expiry) (live' : now' < expiry) where
    pub start_accepted :
        row.state ≡ Execution.claimed
        → start_execution (postgres local) now now' now'' id w s ≡ (
          ok tt,
          record {
            store = Table.replace row_id (started_row now' row) s.store;
            emitters =
                take_all
                  (execution_started now'' (orm_to_domain (started_row now' row)))
                  s.emitters;
          },
        )
    unfolding start_execution postgres Postgres.get Postgres.start Postgres.orm_to_domain
    start_accepted ready = ground (
      arith,
      eq_refl w,
      Table.find-replace_found row_id id (started_row now' row) s.store row refl found,
      emit_started now'' (orm_to_domain (started_row now' row)) s.emitters,
    )

    pub complete_accepted :
        row.state ≡ Execution.started
        → complete_execution (postgres local) now now' now'' id w s ≡ (
          ok tt,
          record {
            store = Table.replace row_id (final_row now' Execution.completed row) s.store;
            emitters =
                take_all
                  (execution_completed now''
                    (orm_to_domain (final_row now' Execution.completed row)))
                  s.emitters;
          },
        )
    unfolding complete_execution postgres Postgres.get Postgres.finalize Postgres.orm_to_domain
    complete_accepted ready = ground (
      arith,
      eq_refl w,
      Table.find-replace_found row_id id (final_row now' Execution.completed row) s.store row refl
          found,
      emit_completed now'' (orm_to_domain (final_row now' Execution.completed row)) s.emitters,
    )

    pub fail_accepted :
        (reason : String)
        → fail_execution (postgres local) now now' now'' id w reason s ≡ (
          ok tt,
          record {
            store = Table.replace row_id (final_row now' Execution.failed row) s.store;
            emitters =
                take_all
                  (execution_failed now''
                    (orm_to_domain (final_row now' Execution.failed row))
                    reason)
                  s.emitters;
          },
        )
    unfolding fail_execution postgres Postgres.get Postgres.finalize Postgres.orm_to_domain
    fail_accepted reason = ground (
      arith,
      eq_refl w,
      Table.find-replace_found row_id id (final_row now' Execution.failed row) s.store row refl
          found,
      emit_failed now'' (orm_to_domain (final_row now' Execution.failed row)) s.emitters reason,
    )

    pub renew_accepted :
        (n : ℕ)
        → renew_execution_lease (postgres local) now now' id w n s
          ≡ (ok tt, record s { store = Table.replace row_id (renewed_row now' n row) s.store })
    unfolding renew_execution_lease postgres Postgres.get Postgres.renew_lease
        Postgres.orm_to_domain
    renew_accepted n = ground (arith, eq_refl w)
