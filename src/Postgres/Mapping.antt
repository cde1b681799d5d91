-- ===== src/Postgres/Mapping.antt =====
-- What the table `executions` gives back of what was written to it.
use application_as_service.Prelude.{
  ℕ, ◌+◌, ◌≡◌, ◌≢◌, refl, ap, ◌∙◌, Option, none, some, arith, ◌==◌, if◌then◌else◌, Option-cases,
  inl, inr,
}
use application_as_service.Prelude.Table
use application_as_service.Outcome.{ok, err, concurrency_error, already_exists}
use application_as_service.Time.{DateTime, naive}
use application_as_service.Execution.{Uuid, Execution}
use application_as_service.Postgres.{
  ExecutionOrm, Rows, row_id, get, orm_to_domain, domain_to_orm, column, create, update,
  updated_row,
}

-- A row that is read as an execution and written again is the same row.
pub domain_to_orm-orm_to_domain :
    (local : ℕ → ℕ) (row : ExecutionOrm) → domain_to_orm local (orm_to_domain row) ≡ row
unfolding domain_to_orm orm_to_domain
domain_to_orm-orm_to_domain local row = ground arith

module _ (local : ℕ → ℕ) where
  -- A time that has been through a column without time zone.
  abbrev pub stored_time : Option DateTime → Option DateTime
  stored_time none = none
  stored_time (some t) = some (naive (column local t))

  -- An execution that has been through the table: its times are naive, the rest is the same.
  abbrev pub stored : Execution → Execution
  stored e = record e {
    created_at = naive (column local e.created_at);
    queued_at = stored_time e.queued_at;
    claimed_at = stored_time e.claimed_at;
    started_at = stored_time e.started_at;
    finished_at = stored_time e.finished_at;
    lease_expires_at = stored_time e.lease_expires_at;
  }

  orm_to_domain-domain_to_orm : (e : Execution) → orm_to_domain (domain_to_orm local e) ≡ stored e
  unfolding domain_to_orm orm_to_domain
  orm_to_domain-domain_to_orm e = ground arith

  row_id-domain_to_orm : (e : Execution) → row_id (domain_to_orm local e) ≡ e.execution_id
  unfolding domain_to_orm
  row_id-domain_to_orm e = refl

  find-none : (id : Uuid) (rows : Rows) → get id rows ≡ none → Table.find row_id id rows ≡ none
  unfolding get
  find-none id rows h = ground arith

  missing_row :
      (e : Execution) (rows : Rows)
      → Table.find row_id e.execution_id rows ≡ none
      → Table.find row_id (row_id (domain_to_orm local e)) rows ≡ none
  unfolding domain_to_orm
  missing_row e rows h = h

  -- If no row has its id, create returns; get then gives the execution back with naive times, and
  -- gives the other executions unchanged.
  pub get-create :
      (e : Execution) (rows : Rows)
      → get e.execution_id rows ≡ none
      → (create local e rows).0 ≡ ok tt
        × ((j : Uuid)
            → get j (create local e rows).1
              ≡ (if e.execution_id == j then some (stored e) else get j rows))
  unfolding create get
  get-create e rows h =
      let missing = find-none e.execution_id rows h in
      (
        ground arith,
        λ j. ground (
          arith,
          missing,
          Table.find-append_if row_id (domain_to_orm local e) rows (missing_row e rows missing) j,
          orm_to_domain-domain_to_orm e,
          row_id-domain_to_orm e,
        ),
      )

  -- If a row has its id, `create` raises ExecutionAlreadyExists and writes nothing.
  pub create_duplicate :
      (e : Execution) (rows : Rows)
      → get e.execution_id rows ≢ none
      → create local e rows ≡ (err already_exists, rows)
  unfolding create get
  create_duplicate e rows h = ground arith

  -- What `update` changes of the row: not the identity, the specification, `created_at`,
  -- `claimed_at`, `max_retries` or `priority`.
  abbrev pub updated : Execution → Execution → Execution
  updated old e = record old {
    state = e.state;
    lease_owner = e.lease_owner;
    lease_expires_at = stored_time e.lease_expires_at;
    queued_at = stored_time e.queued_at;
    started_at = stored_time e.started_at;
    finished_at = stored_time e.finished_at;
    deployment_result = e.deployment_result;
    error_message = e.error_message;
    retry_count = e.retry_count;
    version = e.version;
  }

  update_accepted :
      (e : Execution) (row : ExecutionOrm) (rows : Rows)
      → Table.find row_id e.execution_id rows ≡ some row
      → e.version ≡ row.version + 1
      → update local e rows ≡ (ok tt, Table.replace row_id (updated_row local e row) rows)
  unfolding update
  update_accepted e row rows found v = ground arith

  update_refused :
      (e : Execution) (rows : Rows)
      → ((row : ExecutionOrm)
          → Table.find row_id e.execution_id rows ≡ some row
          → e.version ≢ row.version + 1)
      → update local e rows ≡ (err concurrency_error, rows)
  unfolding update
  update_refused e rows h = elim (Option-cases (Table.find row_id e.execution_id rows)) [
    | inl missing ↦ ground arith
    | inr (row, found) ↦ ground (arith, h row found)
  ]

  orm_to_domain-updated_row :
      (e : Execution) (row : ExecutionOrm)
      → orm_to_domain (updated_row local e row) ≡ updated (orm_to_domain row) e
  unfolding orm_to_domain
  orm_to_domain-updated_row e row = ground arith

  -- An update of a stored execution whose version is one more than the stored one returns; get
  -- then gives the updated fields, with naive times, beside the stored others, and gives the
  -- other executions unchanged.
  pub get-update :
      (e old : Execution) (rows : Rows)
      → get e.execution_id rows ≡ some old
      → e.version ≡ old.version + 1
      → (update local e rows).0 ≡ ok tt
        × ((j : Uuid)
            → get j (update local e rows).1
              ≡ (if e.execution_id == j then some (updated old e) else get j rows))
  unfolding get
  get-update e old rows h v = elim (Option-cases (Table.find row_id e.execution_id rows)) [
    | inl missing ↦ ground arith
    | inr (row, found) ↦
        let accepted = update_accepted e row rows found (ground arith) in
        let key = Table.key-find row_id e.execution_id rows row found in
        (
          ground (arith, accepted),
          λ j. ground (
            arith,
            accepted,
            key,
            orm_to_domain-updated_row e row,
            Table.find-replace_if row_id (updated_row local e row) rows row
                (ap (λ k. Table.find row_id k rows) key ∙ found) j,
          ),
        )
  ]

  -- An update with a version that is not one more than the stored one, or of an execution without
  -- a row, raises ExecutionConcurrencyError and writes nothing.
  pub update_conflict :
      (e : Execution) (rows : Rows)
      → ((old : Execution) → get e.execution_id rows ≡ some old → e.version ≢ old.version + 1)
      → update local e rows ≡ (err concurrency_error, rows)
  unfolding get
  update_conflict e rows h =
      update_refused e rows (λ row found. h (orm_to_domain row) (ground arith))

  -- Of two updates of one execution that have the same version, if the first returns, the second
  -- raises ExecutionConcurrencyError and writes nothing, whatever else the two change.
  pub optimistic_locking :
      (e f : Execution) (rows : Rows)
      → f.execution_id ≡ e.execution_id
      → f.version ≡ e.version
      → (update local e rows).0 ≡ ok tt
      → update local f (update local e rows).1 ≡ (err concurrency_error, (update local e rows).1)
  unfolding update
  optimistic_locking e f rows same version first =
      elim (Option-cases (Table.find row_id e.execution_id rows)) [
        | inl missing ↦ absurd (ground arith)
        | inr (row, found) ↦ ground (
          arith,
          Table.key-find row_id e.execution_id rows row found,
          Table.find-replace_found row_id e.execution_id (updated_row local e row) rows row refl
              found,
        )
      ]
