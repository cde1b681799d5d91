-- ===== src/Postgres/Lease.antt =====
-- Leases over the table `executions`, for any number of workers whose transactions follow one
-- another in any order, at any times.
use native.Mathlib.Decide.{ℕ_discrete}
use text.Mathlib.TextEquality.{eq_iff}
use application_as_service.Prelude.{
  ℕ, suc, ◌≤◌, ◌≡◌, ◌≢◌, refl, ◌⊎◌, inl, inr, Bool, true, false, some, String, List, [], ◌∷◌, arith,
  ◌∙◌, Option-cases, Bool-cases, not, ◌&&◌,
}
use application_as_service.Prelude.Table
use application_as_service.Outcome.{Result, ok}
use application_as_service.Execution.{Uuid, ExecutionState, queued, claimed, started, same_state}
use application_as_service.Postgres.{
  ExecutionOrm, Rows, row_id, try_claim, start, renew_lease, finalize, still_runs, claimed_row,
  is_recoverable,
}

-- What a worker may ask of the repository for one execution.
pub data Request : Type 0 where
  claim_it : ℕ → Request
  start_it : Request
  renew_it : ℕ → Request
  finalize_it : ExecutionState → Request

-- One transaction: who asks what of which execution, and when.
pub record Transaction : Type 0 where
  pub now : ℕ
  pub target : Uuid
  pub worker : String
  pub request : Request

perform : ℕ → Uuid → String → Request → Rows → Rows
perform now id w (claim_it n) rows = (try_claim now id w n rows).1
perform now id w start_it rows = (start now id w rows).1
perform now id w (renew_it n) rows = (renew_lease now id w n rows).1
perform now id w (finalize_it final) rows = (finalize now id w final rows).1

pub run : List Transaction → Rows → Rows
unfolding perform
run [] rows = rows
run (t ∷ ts) rows = run ts (perform t.now t.target t.worker t.request rows)

-- Worker `w` has the lease on the row, running or not.
pub record IsLeased (w : String) (row : ExecutionOrm) : Type 0 where
  pub owner : row.lease_owner ≡ some w
  pub state : (row.state ≡ claimed) ⊎ (row.state ≡ started)

-- A transaction on another execution does not touch the row.
perform_ne :
    (id : Uuid) (now : ℕ) (j : Uuid) (w : String) (q : Request) (rows : Rows)
    → j ≢ id
    → Table.find row_id id (perform now j w q rows) ≡ Table.find row_id id rows
unfolding perform try_claim start renew_lease finalize
perform_ne id now j w (claim_it n) rows h =
    grind (arith, Table.find-replace_ne row_id id, Table.key-find row_id j rows)
perform_ne id now j w q rows h =
    grind (arith, Table.find-replace_ne row_id id, Table.key-find row_id j rows)

-- A transaction of another worker does not touch a leased row.
perform_other :
    (id : Uuid) (row : ExecutionOrm) (w : String) (now : ℕ) (v : String) (q : Request) (rows : Rows)
    → Table.find row_id id rows ≡ some row
    → IsLeased w row
    → v ≢ w
    → perform now id v q rows ≡ rows
unfolding perform try_claim start renew_lease finalize
perform_other id row w now v (claim_it n) rows found leased other = ground (arith, eq_iff w v)
perform_other id row w now v q rows found leased other = ground (arith, eq_iff w v)

-- The transactions of others: those on the execution `id` are not of the worker `w`.
abbrev pub FromOthers : Uuid → String → List Transaction → Type 0
FromOthers id w [] = Unit
FromOthers id w (t ∷ ts) = ((t.target ≢ id) ⊎ (t.worker ≢ w)) × FromOthers id w ts

-- While a worker has the lease on a CLAIMED or STARTED execution, no transactions (claim, start,
-- renew, finalize) of other workers on it, nor any on other executions, in whatever order and at
-- whatever times, even after the lease has run out, change its row.
pub lease_exclusive :
    (id : Uuid) (w : String) (row : ExecutionOrm) (ts : List Transaction) (rows : Rows)
    → Table.find row_id id rows ≡ some row
    → IsLeased w row
    → FromOthers id w ts
    → Table.find row_id id (run ts rows) ≡ some row
unfolding run
lease_exclusive id w row [] rows found leased others = found
lease_exclusive id w row (t ∷ ts) rows found leased others = elim others.0 [
  | inl elsewhere ↦
      lease_exclusive id w row ts (perform t.now t.target t.worker t.request rows)
        (perform_ne id t.now t.target t.worker t.request rows elsewhere ∙ found) leased others.1
  | inr other ↦
      lease_exclusive id w row ts (perform t.now t.target t.worker t.request rows) (stays other)
        leased others.1
]
  where
    stays :
        t.worker ≢ w
        → Table.find row_id id (perform t.now t.target t.worker t.request rows) ≡ some row
    stays other = elim (ℕ_discrete t.target id) [
      | yes same ↦
          rw
            (perform_other t.target row w t.now t.worker t.request rows (rw same found) leased
              other)
            found
      | no differs ↦ perform_ne id t.now t.target t.worker t.request rows differs ∙ found
    ]

-- A claim: the worker, the time and the length of the lease.
pub record Claim : Type 0 where
  pub now : ℕ
  pub worker : String
  pub seconds : ℕ

abbrev count_win : Result Bool → ℕ → ℕ
count_win (ok true) n = suc n
count_win _ n = n

-- How many of the claims on the execution `id`, made one after another, return True.
pub wins : Uuid → List Claim → Rows → ℕ
wins id [] rows = 0
wins id (c ∷ cs) rows =
    let (won, rows') = try_claim c.now id c.worker c.seconds rows in
    count_win won (wins id cs rows')

IsTaken : Uuid → Rows → Type 0
IsTaken id rows =
    (row : ExecutionOrm) × (Table.find row_id id rows ≡ some row) × (row.state ≢ queued)

claim_taken :
    (id : Uuid) (c : Claim) (rows : Rows)
    → IsTaken id rows
    → try_claim c.now id c.worker c.seconds rows ≡ (ok false, rows)
unfolding try_claim IsTaken
claim_taken id c rows (row, found, taken) = ground arith

wins_taken : (id : Uuid) (cs : List Claim) (rows : Rows) → IsTaken id rows → wins id cs rows ≡ 0
unfolding wins
wins_taken id [] rows t = refl
wins_taken id (c ∷ cs) rows t = rw (claim_taken id c rows t) (wins_taken id cs rows t)

claim_outcome :
    (id : Uuid) (c : Claim) (rows : Rows)
    → (try_claim c.now id c.worker c.seconds rows ≡ (ok false, rows))
      ⊎ ((rows' : Rows) × (try_claim c.now id c.worker c.seconds rows ≡ (ok true, rows'))
          × IsTaken id rows')
unfolding try_claim IsTaken
claim_outcome id c rows = elim (Option-cases (Table.find row_id id rows)) [
  | inl missing ↦ inl (ground arith)
  | inr (row, found) ↦
      elim (Bool-cases
        (same_state row.state queued && not (still_runs row.lease_expires_at c.now))) [
          | inl free ↦ inr (
            Table.replace row_id (claimed_row c.now c.worker c.seconds row) rows,
            ground arith,
            (
              claimed_row c.now c.worker c.seconds row,
              Table.find-replace_found row_id id (claimed_row c.now c.worker c.seconds row) rows row
                  refl found,
              ground arith,
            ),
          )
          | inr busy ↦ inl (ground arith)
        ]
]

-- Of any number of claims on one execution, made one after another by any workers at any times,
-- at most one returns True.
pub wins-le : (id : Uuid) (cs : List Claim) (rows : Rows) → wins id cs rows ≤ 1
unfolding wins
wins-le id [] rows = omega arith
wins-le id (c ∷ cs) rows = elim (claim_outcome id c rows) [
  | inl lost ↦ rw lost (wins-le id cs rows)
  | inr (rows', won, taken) ↦ rw (won, wins_taken id cs rows' taken) (omega arith)
]

-- A claim of an execution that list_recoverable lists (STARTED with a lapsed lease) returns False
-- and changes nothing, for every worker at every time.
pub recoverable_not_claimed :
    (id : Uuid) (row : ExecutionOrm) (now now' n : ℕ) (w : String) (rows : Rows)
    → Table.find row_id id rows ≡ some row
    → is_recoverable now row ≡ true
    → try_claim now' id w n rows ≡ (ok false, rows)
unfolding try_claim
recoverable_not_claimed id row now now' n w rows found h = ground arith
