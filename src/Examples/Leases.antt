-- ===== src/Examples/Leases.antt =====
-- The theorems on leases and on the table, at sample rows.
use application_as_service.Prelude.{
  ◌+◌, ◌≡◌, ◌≢◌, refl, inl, inr, none, some, List, [], ◌∷◌, arith, ◌≤◌, true, if◌then◌else◌, ◌==◌,
  ◌++◌, length, All,
}
use Prim.Native.Nat.{min}
use mathlib.Core.List.{Perm, map}
use text.Mathlib.TextEquality.{eq_iff}
use application_as_service.Prelude.Table
use application_as_service.Outcome.{ok, err, concurrency_error}
use application_as_service.Execution
use application_as_service.Execution.{Uuid, Execution}
use application_as_service.Postgres
use application_as_service.Postgres.{
  Rows, row_id, try_claim, list_by_state, orm_to_domain, domain_to_orm, create, update, updated_row,
  get,
}
use application_as_service.Postgres.Lease.{
  Transaction, claim_it, finalize_it, run, IsLeased, FromOthers, Claim, wins, lease_exclusive,
  wins-le,
}
use application_as_service.Postgres.Queries.{IsWanted, IsSorted, list_by_state_complete}
use application_as_service.Postgres.Mapping.{updated, get-update, optimistic_locking}
use application_as_service.Examples.{session, fresh, queued_row, running_row, other_row}

abbrev table : Rows
table = other_row ∷ running_row ∷ []

-- Another worker claims and finalizes the running execution after its lease, and its owner claims
-- the execution beside it.
abbrev intruders : List Transaction
intruders =
    record { now = 90000000; target = 7; worker = "w2"; request = claim_it 60 }
    ∷ record { now = 90000001; target = 8; worker = "w1"; request = claim_it 60 }
    ∷ record { now = 90000002; target = 7; worker = "w2"; request = finalize_it Execution.failed }
    ∷ []

found_running : Table.find row_id 7 table ≡ some running_row
unfolding Table.find
found_running = refl

running-IsLeased : IsLeased "w1" running_row
running-IsLeased = record { owner = refl; state = inr refl }

strangers : FromOthers 7 "w1" intruders
strangers = (
  inr (λ e. ground (arith, eq_iff "w2" "w1")),
  (inl (λ e. ground arith), (inr (λ e. ground (arith, eq_iff "w2" "w1")), tt)),
)

lease_exclusive_example : Table.find row_id 7 (run intruders table) ≡ some running_row
lease_exclusive_example =
    lease_exclusive 7 "w1" running_row intruders table found_running running-IsLeased strangers

abbrev claims : List Claim
claims =
    record { now = 5000; worker = "w1"; seconds = 60 }
    ∷ record { now = 5000; worker = "w2"; seconds = 60 }
    ∷ []

wins-le_example : wins 8 claims table ≤ 1
wins-le_example = wins-le 8 claims table

lapsed : Postgres.is_recoverable 90000000 running_row ≡ true
lapsed = refl

fresh_missing : get fresh.execution_id (other_row ∷ []) ≡ none
unfolding get Table.find
fresh_missing = refl

abbrev renamed : Execution
renamed = record (orm_to_domain queued_row) { error_message = some "late"; version = 2 }

known_queued :
    get renamed.execution_id (queued_row ∷ other_row ∷ []) ≡ some (orm_to_domain queued_row)
unfolding get Table.find orm_to_domain
known_queued = refl

next_version : renamed.version ≡ (orm_to_domain queued_row).version + 1
unfolding orm_to_domain
next_version = refl

get-update_example :
    (update session renamed (queued_row ∷ other_row ∷ [])).0 ≡ ok tt
    × ((j : Uuid)
        → get j (update session renamed (queued_row ∷ other_row ∷ [])).1 ≡ (
            if 7 == j
            then some (updated session (orm_to_domain queued_row) renamed)
            else get j (queued_row ∷ other_row ∷ [])))
unfolding orm_to_domain
get-update_example =
    get-update session renamed (orm_to_domain queued_row) (queued_row ∷ other_row ∷ []) known_queued
      next_version

stale : (old : Execution) → get 7 (running_row ∷ []) ≡ some old → renamed.version ≢ old.version + 1
unfolding get Table.find orm_to_domain
stale old h = ground arith

first_update : (update session renamed (queued_row ∷ [])).0 ≡ ok tt
unfolding update Table.find orm_to_domain
first_update = refl

optimistic_locking_example :
    update session
      (record renamed { error_message = none })
      (update session renamed (queued_row ∷ [])).1
    ≡ (err concurrency_error, (update session renamed (queued_row ∷ [])).1)
optimistic_locking_example =
    optimistic_locking session renamed (record renamed { error_message = none }) (queued_row ∷ [])
      refl refl first_update

abbrev three_rows : Rows
three_rows = queued_row ∷ other_row ∷ running_row ∷ []

list_by_state_complete_example :
    (found : Rows) × (rest : Rows) × (others : Rows) × (list_by_state Execution.queued 1 none
        three_rows
      ≡ map orm_to_domain found)
    × Perm ((found ++ rest) ++ others) three_rows
    × All (IsWanted Execution.queued none) (found ++ rest)
    × All (λ row. ¬ IsWanted Execution.queued none row) others
    × IsSorted (found ++ rest)
    × (length found ≡ min 1 (length (found ++ rest)))
list_by_state_complete_example = list_by_state_complete Execution.queued 1 none three_rows
