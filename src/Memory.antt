-- ===== src/Memory.antt =====
-- execution_engine/infrastructure/memory/repository.py: the repository that keeps executions in a
-- dict, in the order of insertion. Each method runs under the lock, so it is one step here. The
-- dict holds the caller's objects; the services change an object only on the way to `update`, and
-- so a method that takes and gives back values has the same effect.
pub mod Listing
pub mod Leases
use application_as_service.Prelude.{
  ℕ, ◌+◌, String, Bool, true, false, not, Option, none, some, List, [], ◌∷◌, ◌++◌, leb, length,
  if◌then◌else◌,
}
use application_as_service.Prelude.Table
use application_as_service.Outcome.{
  Result, ok, err, Action, proceed, and_then, pure, concurrency_error, invalid_state_error,
  lease_error, assertion_error,
}
use application_as_service.Time.{DateTime, naive, add_seconds, at_or_before, has_lapsed, still_runs}
use application_as_service.Execution.{
  Uuid, ExecutionState, queued, started, same_state, is_final, Execution, owned_by,
}
use application_as_service.Repository.{Repository}

abbrev pub Store : Type 0
Store = List Execution

abbrev pub id_of : Execution → Uuid
id_of e = e.execution_id

unfoldable pub create : Execution → Action Store (Unit {0})
create e s = elim (Table.find id_of e.execution_id s) [
  | some old ↦ (err concurrency_error, s)
  | none ↦ (ok tt, s ++ e ∷ [])
]

unfoldable pub get : Uuid → Store → Option Execution
get id s = Table.find id_of id s

-- The loop stops once `limit` executions are found, which it tests after each one that it reads.
unfoldable pub collect : (Execution → Bool) → ℕ → List Execution → Store → List Execution
collect test limit results [] = results
collect test limit results (e ∷ s) =
    let found = if test e then results ++ e ∷ [] else results in
    let rest = collect test limit found s in if leb limit (length found) then found else rest

unfoldable pub list_by_state : ExecutionState → ℕ → Store → List Execution
unfolding collect
list_by_state state limit s = collect (λ e. same_state e.state state) limit [] s

unfoldable pub try_claim : ℕ → Uuid → String → ℕ → Action Store Bool
try_claim now id worker_id lease_seconds s = elim (Table.find id_of id s) [
  | none ↦ (ok false, s)
  | some e ↦
      if not (same_state e.state queued)
      then (ok false, s)
      else proceed (still_runs e.lease_expires_at (naive now), s)
          λ leased s. if leased then (ok false, s) else (
            ok true,
            Table.replace id_of
                (record e {
                  lease_owner = some worker_id;
                  lease_expires_at = some (add_seconds (naive now) lease_seconds);
                  version = e.version + 1;
                })
                s,
          )
]

unfoldable pub renew_lease : ℕ → Uuid → String → ℕ → Action Store Bool
renew_lease now id worker_id lease_seconds s = elim (Table.find id_of id s) [
  | none ↦ (ok false, s)
  | some e ↦
      if is_final e.state
      then (ok false, s)
      else if not (owned_by e.lease_owner worker_id)
      then (ok false, s)
      else proceed (has_lapsed e.lease_expires_at (naive now), s)
          λ lapsed s. if lapsed then (ok false, s) else (
            ok true,
            Table.replace id_of
                (record e {
                  lease_expires_at = some (add_seconds (naive now) lease_seconds);
                  version = e.version + 1;
                })
                s,
          )
]

unfoldable pub start : ℕ → Uuid → String → Action Store (Unit {0})
start now id worker_id s = elim (Table.find id_of id s) [
  | none ↦ (err concurrency_error, s)
  | some e ↦
      if not (same_state e.state queued)
      then (err invalid_state_error, s)
      else if not (owned_by e.lease_owner worker_id)
      then (err lease_error, s)
      else proceed (has_lapsed e.lease_expires_at (naive now), s)
          λ lapsed s. if lapsed then (err lease_error, s) else (
            ok tt,
            Table.replace id_of
                (record e {
                  state = started;
                  started_at = some (naive now);
                  version = e.version + 1;
                })
                s,
          )
]

unfoldable pub finalize : ℕ → Uuid → String → ExecutionState → Action Store (Unit {0})
finalize now id worker_id final_state s =
    if not (is_final final_state) then (err assertion_error, s) else elim (Table.find id_of id s) [
      | none ↦ (err concurrency_error, s)
      | some e ↦
          if is_final e.state
          then (err concurrency_error, s)
          else if not (owned_by e.lease_owner worker_id)
          then (err lease_error, s)
          else proceed (has_lapsed e.lease_expires_at (naive now), s)
              λ lapsed s. if lapsed then (err lease_error, s) else (
                ok tt,
                Table.replace id_of
                    (record e {
                      state = final_state;
                      finished_at = some (naive now);
                      lease_owner = none;
                      lease_expires_at = none;
                      version = e.version + 1;
                    })
                    s,
              )
    ]

unfoldable pub try_recover : ℕ → Uuid → String → ℕ → Action Store Bool
try_recover now id worker_id lease_seconds s = elim (Table.find id_of id s) [
  | none ↦ (ok false, s)
  | some e ↦
      if not (same_state e.state started)
      then (ok false, s)
      else proceed (still_runs e.lease_expires_at (naive now), s)
          λ leased s. if leased then (ok false, s) else (
            ok true,
            Table.replace id_of
                (record e {
                  lease_owner = some worker_id;
                  lease_expires_at = some (add_seconds (naive now) lease_seconds);
                  version = e.version + 1;
                })
                s,
          )
]

unfoldable pub update : Execution → Action Store (Unit {0})
update e s = elim (Table.find id_of e.execution_id s) [
  | none ↦ (err concurrency_error, s)
  | some stored ↦ (ok tt, Table.replace id_of e s)
]

-- `e.lease_expires_at and e.lease_expires_at <= now`
abbrev pub has_expired : Option DateTime → DateTime → Result Bool
has_expired none now = ok false
has_expired (some expiry) now = at_or_before expiry now

-- An execution that is not STARTED is passed over by `continue`, before the limit is tested.
unfoldable pub collect_recoverable : ℕ → ℕ → List Execution → Store → Result (List Execution)
collect_recoverable now limit results [] = ok results
collect_recoverable now limit results (e ∷ s) =
    if not (same_state e.state started)
    then collect_recoverable now limit results s
    else elim (has_expired e.lease_expires_at (naive now)) [
      | err x ↦ err x
      | ok expired ↦
          let found = if expired then results ++ e ∷ [] else results in
          let rest = collect_recoverable now limit found s in
          if leb limit (length found) then ok found else rest
    ]

unfoldable pub list_recoverable : ℕ → ℕ → Store → Result (List Execution)
unfolding collect_recoverable
list_recoverable now limit s = collect_recoverable now limit [] s

-- The service calls `renew_lease` and does not look at its result.
renew_ignored : ℕ → Uuid → String → ℕ → Action Store (Unit {0})
renew_ignored now id worker_id lease_seconds =
    and_then (renew_lease now id worker_id lease_seconds) (λ renewed. pure tt)

unfoldable pub memory : Repository Store
unfolding renew_ignored
memory = record {
  create = create;
  get = get;
  update = update;
  list_by_state = list_by_state;
  try_claim = try_claim;
  renew_lease = renew_ignored;
  start = start;
  finalize = finalize;
}
