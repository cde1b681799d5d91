-- ===== src/Postgres.antt =====
-- execution_engine/infrastructure/postgres/repository.py and the table `executions` of models.py.
-- The table is the list of its rows. Each method is one transaction: the row is locked before it is
-- tested (`with_for_update`), so the method is one step. The parameter `local` is the conversion
-- that the database makes when an aware time is stored in a column without time zone (it depends on
-- the time zone of the session). The database is taken to accept each statement: a refusal for
-- another reason than a duplicate key (a lost connection, a text longer than its column) is not
-- modelled.
mod Orm
pub mod Lease
pub mod Listing
pub mod Mapping
pub mod Queries
unfoldable pub use Orm.*
use application_as_service.Prelude.{
  ℕ, ◌+◌, ◌*◌, String, Bool, true, false, not, ◌&&◌, Option, none, some, List, [], ◌∷◌, ◌++◌, ltb,
  leb, ◌==◌, take, select, if◌then◌else◌,
}
use mathlib.Core.List.{map}
use application_as_service.Prelude.Table
use application_as_service.Outcome.{
  ok, err, Action, already_exists, concurrency_error, lease_error, value_error,
}
use application_as_service.Time.{DateTime, naive, aware}
use application_as_service.Value.{Value}
use application_as_service.Integers.{below}
use application_as_service.Execution.{
  Uuid, ExecutionState, queued, claimed, started, completed, failed, same_state, Execution,
  owned_by,
}
use application_as_service.Repository.{Repository}

unfoldable pub get : Uuid → Rows → Option Execution
unfolding orm_to_domain
get id rows = read_row (Table.find row_id id rows)

unfoldable pub try_claim : ℕ → Uuid → String → ℕ → Action Rows Bool
try_claim now id worker_id lease_seconds rows = elim (Table.find row_id id rows) [
  | none ↦ (ok false, rows)
  | some row ↦
      if not (same_state row.state queued)
      then (ok false, rows)
      else if still_runs row.lease_expires_at now
      then (ok false, rows)
      else (ok true, Table.replace row_id (claimed_row now worker_id lease_seconds row) rows)
]

unfoldable pub start : ℕ → Uuid → String → Action Rows (Unit {0})
start now id worker_id rows = elim (Table.find row_id id rows) [
  | none ↦ (err lease_error, rows)
  | some row ↦
      if not (same_state row.state claimed)
      then (err lease_error, rows)
      else if not (owned_by row.lease_owner worker_id)
      then (err lease_error, rows)
      else if has_lapsed row.lease_expires_at now
      then (err lease_error, rows)
      else (ok tt, Table.replace row_id (started_row now row) rows)
]

unfoldable pub renew_lease : ℕ → Uuid → String → ℕ → Action Rows (Unit {0})
renew_lease now id worker_id lease_seconds rows = elim (Table.find row_id id rows) [
  | none ↦ (err lease_error, rows)
  | some row ↦
      if not (owned_by row.lease_owner worker_id)
      then (err lease_error, rows)
      else if has_lapsed row.lease_expires_at now
      then (err lease_error, rows)
      else (ok tt, Table.replace row_id (renewed_row now lease_seconds row) rows)
]

-- `final_state in (COMPLETED, FAILED)`
abbrev pub is_outcome : ExecutionState → Bool
is_outcome completed = true
is_outcome failed = true
is_outcome _ = false

unfoldable pub finalize : ℕ → Uuid → String → ExecutionState → Action Rows (Unit {0})
finalize now id worker_id final_state rows =
    if not (is_outcome final_state)
    then (err value_error, rows)
    else elim (Table.find row_id id rows) [
      | none ↦ (err lease_error, rows)
      | some row ↦
          if not (owned_by row.lease_owner worker_id)
          then (err lease_error, rows)
          else if has_lapsed row.lease_expires_at now
          then (err lease_error, rows)
          else (ok tt, Table.replace row_id (final_row now final_state row) rows)
    ]

-- `ORDER BY priority DESC, created_at ASC`: `a` may stand before `b`. The order of rows that agree
-- in both is the database's; here it is that of the table.
abbrev pub comes_first : ExecutionOrm → ExecutionOrm → Bool
comes_first a b =
    if below b.priority a.priority
    then true
    else if below a.priority b.priority
    then false
    else leb a.created_at b.created_at

unfoldable pub insert_row : ExecutionOrm → Rows → Rows
insert_row a [] = a ∷ []
insert_row a (b ∷ rows) = if comes_first a b then a ∷ b ∷ rows else b ∷ insert_row a rows

unfoldable pub order_rows : Rows → Rows
unfolding insert_row
order_rows [] = []
order_rows (a ∷ rows) = insert_row a (order_rows rows)

-- `if tenant_id: query = query.filter(tenant_id == ...)`
abbrev pub of_tenant : Option Uuid → Rows → Rows
of_tenant none rows = rows
of_tenant (some tenant) rows = select (λ row. row.tenant_id == tenant) rows

unfoldable pub rows_by_state : ExecutionState → ℕ → Option Uuid → Rows → Rows
unfolding order_rows
rows_by_state state limit tenant_id rows =
    let found = select (λ row. same_state row.state state) rows in
    take limit (order_rows (of_tenant tenant_id found))

unfoldable pub list_by_state : ExecutionState → ℕ → Option Uuid → Rows → List Execution
unfolding rows_by_state orm_to_domain
list_by_state state limit tenant_id rows =
    map orm_to_domain (rows_by_state state limit tenant_id rows)

-- `lease_expires_at <= now` in SQL: a null is not at or before any time.
abbrev pub is_recoverable : ℕ → ExecutionOrm → Bool
is_recoverable now row = elim row.lease_expires_at [
  | none ↦ false
  | some expiry ↦ same_state row.state started && leb expiry now
]

unfoldable pub list_recoverable : ℕ → ℕ → Rows → List Execution
unfolding orm_to_domain
list_recoverable now limit rows = map orm_to_domain (take limit (select (is_recoverable now) rows))

module _ (local : ℕ → ℕ) where
  unfoldable pub create : Execution → Action Rows (Unit {0})
  unfolding domain_to_orm
  create e rows = elim (Table.find row_id e.execution_id rows) [
    | some old ↦ (err already_exists, rows)
    | none ↦ (ok tt, rows ++ domain_to_orm local e ∷ [])
  ]

  -- The row is found by its id and by `version == execution.version - 1`.
  unfoldable pub update : Execution → Action Rows (Unit {0})
  update e rows = elim (Table.find row_id e.execution_id rows) [
    | none ↦ (err concurrency_error, rows)
    | some current ↦
        if not (current.version + 1 == e.version)
        then (err concurrency_error, rows)
        else (ok tt, Table.replace row_id (updated_row local e current) rows)
  ]

  unfoldable pub postgres : Repository Rows
  postgres = record {
    create = create;
    get = get;
    update = update;
    list_by_state = λ state limit. list_by_state state limit none;
    try_claim = try_claim;
    renew_lease = renew_lease;
    start = start;
    finalize = finalize;
  }
