-- ===== src/Service/Reasons.antt =====
-- What becomes of the reason of a failure, which `fail_execution` of the service is given.
use application_as_service.Prelude.{
  ℕ, ◌≡◌, refl, ◌∙◌, ap, false, Option, none, some, String, List, [], ◌∷◌, ◌++◌, arith,
  Option-cases, inl, inr,
}
use application_as_service.Prelude.Table
use application_as_service.Outcome.{ok}
use application_as_service.Execution.{Uuid, Execution}
use application_as_service.Execution
use application_as_service.Execution.Retry.{is_transient_error}
use application_as_service.Postgres
use application_as_service.Postgres.{
  ExecutionOrm, Rows, row_id, postgres, orm_to_domain, domain_to_orm, claimed_row, started_row,
  final_row, renewed_row, updated_row,
}
use application_as_service.Retries.{is_due}
use application_as_service.Service.{
  register_execution, queue_execution, claim_execution, start_execution, complete_execution,
  fail_execution, renew_execution_lease,
}
use application_as_service.Service.Accepted.{queued_execution}
use application_as_service.Service.Calls.{
  Call, register, queue, claim, start, complete, fail, renew, PostgresWorld, serve,
}

-- The message of the row of `id`, where there is one.
abbrev message_of : Option ExecutionOrm → Option (Option String)
message_of none = none
message_of (some row) = some row.error_message

message : Uuid → Rows → Option (Option String)
message id rows = message_of (Table.find row_id id rows)

module _ (j : Uuid) where
  message-replace :
      (id : Uuid) (b : ExecutionOrm) (rows : Rows) (a : ExecutionOrm)
      → row_id b ≡ row_id a
      → b.error_message ≡ a.error_message
      → Table.find row_id id rows ≡ some a
      → message j (Table.replace row_id b rows) ≡ message j rows
  unfolding message
  message-replace id b rows a key same found =
      let here =
        ap (λ k. Table.find row_id k rows) (key ∙ Table.key-find row_id id rows a found) ∙ found in
      ground (arith, here, Table.find-replace_if row_id b rows a here j)

  message-append :
      (b : ExecutionOrm) (rows : Rows) (m : Option String)
      → Table.find row_id (row_id b) rows ≡ none
      → message j rows ≡ some m
      → message j (rows ++ b ∷ []) ≡ some m
  unfolding message
  message-append b rows m missing known =
      ground (arith, Table.find-append_if row_id b rows missing j)

  module _ (local : ℕ → ℕ) (s : PostgresWorld) where
    start_keeps :
        (now now' now'' : ℕ) (id : Uuid) (w : String)
        → message j (start_execution (postgres local) now now' now'' id w s).1.store
          ≡ message j s.store
    unfolding start_execution postgres Postgres.get Postgres.orm_to_domain Postgres.start
    start_keeps now now' now'' id w = elim (Option-cases (Table.find row_id id s.store)) [
      | inl missing ↦ ground arith
      | inr (row, found) ↦
          ground (arith, message-replace id (started_row now' row) s.store row refl refl found)
    ]

    complete_keeps :
        (now now' now'' : ℕ) (id : Uuid) (w : String)
        → message j (complete_execution (postgres local) now now' now'' id w s).1.store
          ≡ message j s.store
    unfolding complete_execution postgres Postgres.get Postgres.orm_to_domain Postgres.finalize
    complete_keeps now now' now'' id w = elim (Option-cases (Table.find row_id id s.store)) [
      | inl missing ↦ ground arith
      | inr (row, found) ↦ ground (
        arith,
        message-replace id (final_row now' Execution.completed row) s.store row refl refl found,
      )
    ]

    fail_keeps :
        (now now' now'' : ℕ) (id : Uuid) (w reason : String)
        → message j (fail_execution (postgres local) now now' now'' id w reason s).1.store
          ≡ message j s.store
    unfolding fail_execution postgres Postgres.get Postgres.orm_to_domain Postgres.finalize
    fail_keeps now now' now'' id w reason = elim (Option-cases (Table.find row_id id s.store)) [
      | inl missing ↦ ground arith
      | inr (row, found) ↦ ground (
        arith,
        message-replace id (final_row now' Execution.failed row) s.store row refl refl found,
      )
    ]

    claim_keeps :
        (now now' : ℕ) (id : Uuid) (w : String) (n : ℕ)
        → message j (claim_execution (postgres local) now now' id w n s).1.store ≡ message j s.store
    unfolding claim_execution postgres Postgres.get Postgres.orm_to_domain Postgres.try_claim
    claim_keeps now now' id w n = elim (Option-cases (Table.find row_id id s.store)) [
      | inl missing ↦ ground arith
      | inr (row, found) ↦
          ground (arith, message-replace id (claimed_row now w n row) s.store row refl refl found)
    ]

    renew_keeps :
        (now now' : ℕ) (id : Uuid) (w : String) (n : ℕ)
        → message j (renew_execution_lease (postgres local) now now' id w n s).1.store
          ≡ message j s.store
    unfolding renew_execution_lease postgres Postgres.get Postgres.orm_to_domain
        Postgres.renew_lease
    renew_keeps now now' id w n = elim (Option-cases (Table.find row_id id s.store)) [
      | inl missing ↦ ground arith
      | inr (row, found) ↦
          ground (arith, message-replace id (renewed_row now' n row) s.store row refl refl found)
    ]

    queue_keeps :
        (now now' : ℕ) (id : Uuid)
        → message j (queue_execution (postgres local) now now' id s).1.store ≡ message j s.store
    unfolding queue_execution postgres Postgres.get Postgres.update Postgres.orm_to_domain
        Execution.queue
    queue_keeps now now' id = elim (Option-cases (Table.find row_id id s.store)) [
      | inl missing ↦ ground arith
      | inr (row, found) ↦
          let same = Table.key-find row_id id s.store row found in
          ground (
            arith,
            same,
            message-replace id
                (updated_row local (queued_execution local now (orm_to_domain row)) row) s.store row
                refl refl found,
          )
    ]

    register_keeps :
        (now : ℕ) (e : Execution) (m : Option String)
        → message j s.store ≡ some m
        → message j (register_execution (postgres local) now e s).1.store ≡ some m
    unfolding register_execution postgres Postgres.create
    register_keeps now e m known = elim (Option-cases (Table.find row_id e.execution_id s.store)) [
      | inl missing ↦ ground (
        arith,
        message-append (domain_to_orm local e) s.store m (unfold domain_to_orm in missing) known,
      )
      | inr (row, found) ↦ ground arith
    ]

    serve_keeps :
        (c : Call) (m : Option String)
        → message j s.store ≡ some m
        → message j (serve local c s).1.store ≡ some m
    unfolding serve
    serve_keeps (register now e) m known = register_keeps now e m known
    serve_keeps (queue now now' id) m known = queue_keeps now now' id ∙ known
    serve_keeps (claim now now' id w n) m known = ground (arith, claim_keeps now now' id w n)
    serve_keeps (start now now' now'' id w) m known = start_keeps now now' now'' id w ∙ known
    serve_keeps (complete now now' now'' id w) m known = complete_keeps now now' now'' id w ∙ known
    serve_keeps (fail now now' now'' id w r) m known = fail_keeps now now' now'' id w r ∙ known
    serve_keeps (renew now now' id w n) m known = renew_keeps now now' id w n ∙ known

-- The calls in turn; one that raises does not stop those of the other workers.
pub serve_all : (ℕ → ℕ) → List Call → PostgresWorld → PostgresWorld
serve_all local [] s = s
serve_all local (c ∷ cs) s = serve_all local cs (serve local c s).1

serve_all_keeps :
    (local : ℕ → ℕ) (j : Uuid) (cs : List Call) (s : PostgresWorld) (m : Option String)
    → message j s.store ≡ some m
    → message j (serve_all local cs s).store ≡ some m
unfolding serve_all
serve_all_keeps local j [] s m known = known
serve_all_keeps local j (c ∷ cs) s m known =
    serve_all_keeps local j cs (serve local c s).1 m (serve_keeps j local s c m known)

message-get :
    (id : Uuid) (rows : Rows) (e : Execution)
    → Postgres.get id rows ≡ some e
    → message id rows ≡ some e.error_message
unfolding message Postgres.get orm_to_domain
message-get id rows e h = ground arith

get-message :
    (id : Uuid) (rows : Rows) (m : Option String)
    → message id rows ≡ some m
    → (e : Execution) × (Postgres.get id rows ≡ some e) × (e.error_message ≡ m)
unfolding message Postgres.get orm_to_domain
get-message id rows m h = elim (Option-cases (Table.find row_id id rows)) [
  | inl missing ↦ absurd (ground arith)
  | inr (row, found) ↦ (orm_to_domain row, rw found, ground arith)
]

is_due-no_message : (now : ℕ) (e : Execution) → e.error_message ≡ none → is_due now e ≡ ok false
unfolding is_due is_transient_error
is_due-no_message now e h = ground arith

-- From an execution without a message, any calls of the service over PostgreSQL, raising or not,
-- with failures for any reasons, lead to an execution without a message, which is not due for a
-- retry at any time.
pub reason_is_lost :
    (local : ℕ → ℕ) (cs : List Call) (s : PostgresWorld) (id : Uuid) (e : Execution)
    → Postgres.get id s.store ≡ some e
    → e.error_message ≡ none
    → (e' : Execution) × (Postgres.get id (serve_all local cs s).store ≡ some e')
      × (e'.error_message ≡ none)
      × ((now : ℕ) → is_due now e' ≡ ok false)
reason_is_lost local cs s id e known silent =
    let kept = serve_all_keeps local id cs s e.error_message (message-get id s.store e known) in
    let (e', got, same) = get-message id (serve_all local cs s).store e.error_message kept in
    (e', got, same ∙ silent, λ now. is_due-no_message now e' (same ∙ silent))
