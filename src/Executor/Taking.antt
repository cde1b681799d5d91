-- ===== src/Executor/Taking.antt =====
-- What an executor takes, and what it leaves.
use application_as_service.Prelude.{
  ℕ, ◌+◌, ◌*◌, ◌<◌, ◌≡◌, refl, Bool, true, false, none, some, String, List, [], ◌∷◌, arith, length,
  select, All, Option-cases, Bool-cases, inl, inr,
}
use application_as_service.Prelude.Table
use application_as_service.Outcome.{ok}
use application_as_service.Execution
use application_as_service.Execution.{Uuid, Execution, same_state}
use application_as_service.Postgres
use application_as_service.Postgres.{
  ExecutionOrm, Rows, row_id, postgres, orm_to_domain, claimed_row, started_row, rows_by_state,
  list_by_state,
}
use application_as_service.Postgres.Listing.{rows_by_state_complete}
use application_as_service.Service.{claim_execution, start_execution}
use application_as_service.Service.Accepted.{claim_accepted, start_accepted}
use application_as_service.Service.Calls.{PostgresWorld}
use application_as_service.Slots.{Slot, slot_key, Slots, acquire_free_slot, bind, release}
use application_as_service.Slots.Counting.{HasDistinctIds, acquire_free_slot-free, found-free-key}
use application_as_service.Executor.{
  Machine, remember, launch, take_queued, take_recoverable, take_work, claim_and_execute,
}

none_selected :
    (test : ExecutionOrm → Bool) (rows : Rows)
    → length (select test rows) ≡ 0
    → All (λ row. test row ≡ false) rows
none_selected test [] h = tt
none_selected test (row ∷ rows) h = elim (Bool-cases (test row)) [
  | inl passes ↦ absurd (ground arith)
  | inr fails ↦ (fails, none_selected test rows (ground arith))
]

abbrev NotQueued : ExecutionOrm → Type 0
NotQueued row = same_state row.state Execution.queued ≡ false

nothing_queued :
    (rows : Rows) → list_by_state Execution.queued 1 none rows ≡ [] → All NotQueued rows
unfolding list_by_state
nothing_queued rows h =
    let (rest, perm, ordered, count) = rows_by_state_complete Execution.queued 1 none rows in
    none_selected (λ row. same_state row.state Execution.queued) rows (ground (arith, count))

-- A free slot that was found is what `release` makes of it.
release_free :
    (slots : Slots) (slot : Slot)
    → HasDistinctIds slots
    → acquire_free_slot slots ≡ some slot
    → release slot slots ≡ slots
unfolding acquire_free_slot release Table.replace
release_free [] slot d h = ground arith
release_free (t ∷ slots) slot d h =
    ground (arith, release_free slots slot d.1, found-free-key slots t.slot_id d.0 slot)

module _ (local : ℕ → ℕ) where
  claim-NotQueued :
      (now now' : ℕ) (id : Uuid) (w : String) (n : ℕ) (s : PostgresWorld)
      → All NotQueued s.store
      → claim_execution (postgres local) now now' id w n s ≡ (ok false, s)
  unfolding claim_execution postgres Postgres.try_claim
  claim-NotQueued now now' id w n s h = elim (Option-cases (Table.find row_id id s.store)) [
    | inl missing ↦ ground arith
    | inr (row, found) ↦ ground (arith, Table.All-find row_id NotQueued id s.store row h found)
  ]

  module _ (executor_id : String) (lease_seconds : ℕ) (clock : ℕ → ℕ) where
    take_recoverable_none :
        (i : ℕ) (slot : Slot) (es : List Execution) (m : Machine)
        → All NotQueued m.world.store
        → take_recoverable local executor_id lease_seconds clock i slot es m ≡ (ok false, m)
    unfolding take_recoverable
    take_recoverable_none i slot [] m h = refl
    take_recoverable_none i slot (e ∷ es) m h =
        rw
          (claim-NotQueued (clock i) (clock (i + 1)) e.execution_id executor_id lease_seconds
            m.world h)
          (take_recoverable_none (i + 2) slot es m h)

    claiming :
        (i : ℕ) (id : Uuid) (s : PostgresWorld) (row : ExecutionOrm)
        → Table.find row_id id s.store ≡ some row
        → row.state ≡ Execution.queued
        → row.lease_expires_at ≡ none
        → (s' : PostgresWorld) × (claim_execution
              (postgres local)
              (clock i)
              (clock (i + 1))
              id
              executor_id
              lease_seconds
              s
            ≡ (ok true, s'))
          × (Table.find row_id id s'.store
              ≡ some (claimed_row (clock i) executor_id lease_seconds row))
    claiming i id s row found ready free = (
      _,
      claim_accepted local (clock i) (clock (i + 1)) id executor_id lease_seconds s row found ready
          free,
      Table.find-replace_found row_id id _ s.store row refl found,
    )

    starting :
        (i : ℕ) (id : Uuid) (s : PostgresWorld) (row : ExecutionOrm)
        → Table.find row_id id s.store ≡ some (claimed_row (clock i) executor_id lease_seconds row)
        → clock (i + 2) < clock i + lease_seconds * 1000000
        → clock (i + 3) < clock i + lease_seconds * 1000000
        → (s' : PostgresWorld) × (start_execution
              (postgres local)
              (clock (i + 2))
              (clock (i + 3))
              (clock (i + 4))
              id
              executor_id
              s
            ≡ (ok tt, s'))
          × (Table.find row_id id s'.store
              ≡ some (
                  started_row
                    (clock (i + 3))
                    (claimed_row (clock i) executor_id lease_seconds row)))
    starting i id s row found before before' =
        let row₁ = claimed_row (clock i) executor_id lease_seconds row in
        (
          _,
          start_accepted local (clock (i + 2)) (clock (i + 3)) (clock (i + 4)) id executor_id s row₁
              _ found refl refl before before' refl,
          Table.find-replace_found row_id id _ s.store row₁ refl found,
        )

    -- If no execution is QUEUED and the slots have different ids, a step of the executor changes
    -- nothing, whatever executions are STARTED with a lapsed lease.
    pub claim_and_execute_idle :
        (i : ℕ) (m : Machine)
        → HasDistinctIds m.slots
        → list_by_state Execution.queued 1 none m.world.store ≡ []
        → claim_and_execute local executor_id lease_seconds clock i m ≡ (ok tt, m)
    unfolding claim_and_execute take_work take_queued
    claim_and_execute_idle i m d nothing = elim (Option-cases (acquire_free_slot m.slots)) [
      | inl full ↦ rw (full, claim_and_execute) refl
      | inr (slot, found) ↦
          let others = Postgres.list_recoverable (clock (i + 5)) 1 m.world.store in
          rw (found, claim_and_execute)
            (rw (nothing, take_work)
              (rw
                (take_recoverable_none (i + 6) slot others m (nothing_queued m.world.store nothing))
                (rw (release_free m.slots slot d found) refl)))
    ]

    -- With a free slot and a QUEUED execution without a lease at the head of the queue, one step
    -- of the executor claims and starts it, if the clock does not pass the new lease in between:
    -- its row is STARTED with the lease of the executor, it has the slot, and it is among the
    -- running ones.
    pub claim_and_execute_starts :
        (i : ℕ) (m : Machine) (slot : Slot) (e : Execution) (row : ExecutionOrm)
        → acquire_free_slot m.slots ≡ some slot
        → list_by_state Execution.queued 1 none m.world.store ≡ e ∷ []
        → Table.find row_id e.execution_id m.world.store ≡ some row
        → row.state ≡ Execution.queued
        → row.lease_expires_at ≡ none
        → clock (i + 2) < clock i + lease_seconds * 1000000
        → clock (i + 3) < clock i + lease_seconds * 1000000
        → (m' : Machine) × (claim_and_execute local executor_id lease_seconds clock i m
            ≡ (ok tt, m'))
          × (Table.find row_id e.execution_id m'.world.store
              ≡ some (
                  started_row
                    (clock (i + 3))
                    (claimed_row (clock i) executor_id lease_seconds row)))
          × (m'.slots
              ≡ Table.replace slot_key (record slot { execution_id = some e.execution_id }) m.slots)
          × (m'.running ≡ remember e.execution_id m.running)
    unfolding claim_and_execute take_work take_queued launch bind
    claim_and_execute_starts i m slot e row free listed found ready unleased before before' =
        let id = e.execution_id in
        let (w₁, claimed, found₁) = claiming i id m.world row found ready unleased in
        let (w₂, begun, found₂) = starting i id w₁ row found₁ before before' in
        let open_slot = (acquire_free_slot-free m.slots slot free).0 in
        (
          record {
            world = w₂;
            slots = Table.replace slot_key (record slot { execution_id = some id }) m.slots;
            running = remember id m.running;
          },
          rw (free, claim_and_execute)
              (rw (listed, take_work)
                (rw (claimed, take_queued) (rw (begun, launch) (rw open_slot refl)))),
          found₂,
          refl,
          refl,
        )
