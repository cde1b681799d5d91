-- ===== src/Memory/Leases.antt =====
-- Leases over the repository in memory, and the service over it.
use application_as_service.Prelude.{
  ℕ, ◌+◌, ◌≡◌, ◌≢◌, refl, true, some, arith, String, Option-cases, inl, inr, ◌≤◌,
}
use application_as_service.Prelude.Table
use application_as_service.Outcome.{ok}
use application_as_service.Time.{naive, add_seconds}
use application_as_service.Execution.{Uuid, Execution, started}
use application_as_service.Memory.{Store, id_of, start, try_recover, get, memory}
use application_as_service.Service.{World, start_execution}

-- An execution whose recovery is allowed: STARTED, with a naive lease that has run out.
pub record IsRecoverable (now : ℕ) (e : Execution) : Type 0 where
  pub state : e.state ≡ started
  pub lapsed : (t : ℕ) × (e.lease_expires_at ≡ some (naive t)) × (t ≤ now)

-- In memory, try_recover of a STARTED execution whose lease is naive and has run out returns True
-- and gives it the new owner and a new lease, and keeps its state.
pub try_recover_lapsed :
    (now : ℕ) (id : Uuid) (w : String) (n : ℕ) (s : Store) (e : Execution)
    → get id s ≡ some e
    → IsRecoverable now e
    → (try_recover now id w n s).0 ≡ ok true
      × (get id (try_recover now id w n s).1
          ≡ some (record e {
            lease_owner = some w;
            lease_expires_at = some (add_seconds (naive now) n);
            version = e.version + 1;
          }))
unfolding try_recover get
try_recover_lapsed now id w n s e found r =
    let e' = record e {
      lease_owner = some w;
      lease_expires_at = some (add_seconds (naive now) n);
      version = e.version + 1;
    } in
    grind (arith, Table.find-replace_found id_of id e' s e refl found)

-- Over the repository in memory start_execution of the service never returns.
pub start_execution_never :
    (now now' now'' : ℕ) (id : Uuid) (w : String) (world : World Store)
    → (start_execution memory now now' now'' id w world).0 ≢ ok tt
unfolding start_execution memory start get
start_execution_never now now' now'' id w world h =
    elim (Option-cases (Table.find id_of id world.store)) [
      | inl missing ↦ ground arith
      | inr (e, found) ↦ ground arith
    ]
