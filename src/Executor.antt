-- ===== src/Executor.antt =====
-- execution_engine/executor/executor.py: the main loop of an executor over PostgreSQL: it renews the
-- leases of the executions that run, and takes a new one when a slot is free. `clock i` is the i-th
-- reading of the clock. What runs in the thread of an execution is not part of this file: a slot that
-- such a thread releases is free before or after a step of the loop.
pub mod Taking
pub mod Thread
pub mod Finishing
use application_as_service.Prelude.{
  ℕ, suc, ◌+◌, ◌≡◌, String, Bool, true, false, not, Option, none, some, List, [], ◌∷◌, ◌++◌, ◌==◌,
  select, if◌then◌else◌,
}
use application_as_service.Outcome.{
  Result, ok, err, Error, lease_error, Action, proceed, and_then, pure,
}
use application_as_service.Execution.{Uuid, Execution, queued}
use application_as_service.Postgres
use application_as_service.Postgres.{Rows, postgres, list_recoverable}
use application_as_service.Service.{World, claim_execution, start_execution, renew_execution_lease}
use application_as_service.Service.Calls.{PostgresWorld}
use application_as_service.Slots.{Slot, Slots, acquire_free_slot, bind, release, give_back}

-- The database and the emitters, the slots, and the keys of `_running` in the order of insertion.
pub record Machine : Type 0 where
  pub world : PostgresWorld
  pub slots : Slots
  pub running : List Uuid

abbrev pub put_world : {A : Type 0} → Machine → Result A × PostgresWorld → Result A × Machine
put_world m (r, w) = (r, record m { world = w })

abbrev pub put_slots : {A : Type 0} → Machine → Result A × Slots → Result A × Machine
put_slots m (r, slots) = (r, record m { slots = slots })

-- `self._running.pop(execution_id, None)`
abbrev pub forget : Uuid → List Uuid → List Uuid
forget id ids = select (λ j. not (j == id)) ids

-- `self._running[execution_id] = thread`: a key that is there keeps its place.
unfoldable pub remember : Uuid → List Uuid → List Uuid
remember id [] = id ∷ []
remember id (j ∷ ids) = let rest = remember id ids in if j == id then j ∷ ids else j ∷ rest

-- `_handle_lost_execution`
unfoldable pub handle_lost_execution : Uuid → Machine → Machine
handle_lost_execution id m = record m {
  slots = give_back id m.slots;
  running = forget id m.running;
}

module _ (local : ℕ → ℕ) (executor_id : String) (lease_seconds : ℕ) (clock : ℕ → ℕ) where
  -- What follows the renewal of one lease: ExecutionLeaseError is the loss of the execution, any
  -- other exception is logged.
  abbrev pub after_renewal : Uuid → Result (Unit {0}) → Machine → Machine
  after_renewal id (err lease_error) m = handle_lost_execution id m
  after_renewal id _ m = m

  -- The loop of `_renew_running_leases` over a copy of the keys.
  unfoldable pub renew_all : ℕ → List Uuid → Machine → Machine
  unfolding handle_lost_execution
  renew_all i [] m = m
  renew_all i (id ∷ ids) m =
      let (r, w) =
        renew_execution_lease (postgres local) (clock i) (clock (i + 1)) id executor_id
          lease_seconds m.world in
      renew_all (i + 2) ids (after_renewal id r (record m { world = w }))

  unfoldable pub renew_running_leases : ℕ → Machine → Machine
  unfolding renew_all
  renew_running_leases i m = renew_all i m.running m

  -- The slot is bound and the thread is started.
  unfoldable pub launch : Slot → Uuid → Action Machine (Unit {0})
  unfolding remember
  launch slot id m =
      proceed (put_slots m (bind slot id m.slots))
        λ done m. (ok tt, record m { running = remember id m.running })

  -- What follows `start_execution`: every exception releases the slot and ends the method.
  abbrev pub after_start : Slot → Uuid → Result (Unit {0}) → Action Machine (Unit {0})
  after_start slot id (err x) m = (ok tt, record m { slots = release slot m.slots })
  after_start slot id (ok done) m = launch slot id m

  abbrev pub started_in :
      Slot → Uuid → Machine → Result (Unit {0}) × PostgresWorld → Result (Unit {0}) × Machine
  started_in slot id m (r, w) = after_start slot id r (record m { world = w })

  -- The loop over the queued executions; it returns whether the method has ended.
  unfoldable pub take_queued : ℕ → Slot → List Execution → Action Machine Bool
  unfolding launch
  take_queued i slot [] m = (ok false, m)
  take_queued i slot (e ∷ es) m =
      proceed
        (put_world m (
          claim_execution (postgres local) (clock i) (clock (i + 1)) e.execution_id executor_id
            lease_seconds m.world))
        λ claimed m. elim claimed [
          | false ↦ take_queued (i + 5) slot es m
          | true ↦
              proceed
                (started_in slot e.execution_id m (
                  start_execution (postgres local) (clock (i + 2)) (clock (i + 3)) (clock (i + 4))
                    e.execution_id executor_id m.world))
                (λ done. pure true)
        ]

  -- The loop over the recoverable executions.
  unfoldable pub take_recoverable : ℕ → Slot → List Execution → Action Machine Bool
  unfolding launch
  take_recoverable i slot [] m = (ok false, m)
  take_recoverable i slot (e ∷ es) m =
      proceed
        (put_world m (
          claim_execution (postgres local) (clock i) (clock (i + 1)) e.execution_id executor_id
            lease_seconds m.world))
        λ claimed m. elim claimed [
          | false ↦ take_recoverable (i + 2) slot es m
          | true ↦ proceed (launch slot e.execution_id m) (λ done. pure true)
        ]

  -- The rest of `_claim_and_execute` where a slot is free. The two loops see at most one execution
  -- each, and so the readings from `i + 5` on are those of the second.
  unfoldable pub take_work : ℕ → Slot → Action Machine (Unit {0})
  unfolding take_queued take_recoverable
  take_work i slot m =
      proceed (take_queued i slot (Postgres.list_by_state queued 1 none m.world.store) m) λ ended m.
        elim ended [
          | true ↦ (ok tt, m)
          | false ↦
              proceed
                (take_recoverable (i + 6) slot (list_recoverable (clock (i + 5)) 1 m.world.store) m)
                λ ended m. elim ended [
                  | true ↦ (ok tt, m)
                  | false ↦ (ok tt, record m { slots = release slot m.slots })
                ]
        ]

  abbrev pub work_in : ℕ → Option Slot → Action Machine (Unit {0})
  work_in i none m = (ok tt, m)
  work_in i (some slot) m = take_work i slot m

  -- `_claim_and_execute`
  unfoldable pub claim_and_execute : ℕ → Action Machine (Unit {0})
  unfolding take_work
  claim_and_execute i m = work_in i (acquire_free_slot m.slots) m

  -- One turn of `_run_loop`; an exception is logged. `readings` is where the clock of the second part
  -- begins.
  unfoldable pub run_turn : ℕ → Machine → Machine
  unfolding renew_running_leases claim_and_execute
  run_turn readings m = (claim_and_execute readings (renew_running_leases 0 m)).1
