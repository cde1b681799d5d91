-- ===== src/Service/Calls.antt =====
-- The calls of the service over the table `executions`, as data.
use application_as_service.Prelude.{ℕ, String, List, [], ◌∷◌}
use application_as_service.Outcome.{Result, ok, err, Action, proceed}
use application_as_service.Execution.{Uuid, Execution}
use application_as_service.Postgres.{Rows, postgres}
use application_as_service.Service.{
  World, register_execution, queue_execution, claim_execution, start_execution, complete_execution,
  fail_execution, renew_execution_lease,
}

-- A call of the service, with the readings of the clock.
pub data Call : Type 0 where
  register : ℕ → Execution → Call
  queue : ℕ → ℕ → Uuid → Call
  claim : ℕ → ℕ → Uuid → String → ℕ → Call
  start complete : ℕ → ℕ → ℕ → Uuid → String → Call
  fail : ℕ → ℕ → ℕ → Uuid → String → String → Call
  renew : ℕ → ℕ → Uuid → String → ℕ → Call

abbrev pub PostgresWorld : Type 0
PostgresWorld = World Rows

module _ (local : ℕ → ℕ) where
  abbrev pub forget : {A : Type 0} → Result A × PostgresWorld → Result (Unit {0}) × PostgresWorld
  forget (ok a, s) = (ok tt, s)
  forget (err x, s) = (err x, s)

  unfoldable pub serve : Call → Action PostgresWorld (Unit {0})
  serve (register now e) s = register_execution (postgres local) now e s
  serve (queue now now' id) s = queue_execution (postgres local) now now' id s
  serve (claim now now' id w n) s = forget (claim_execution (postgres local) now now' id w n s)
  serve (start now now' now'' id w) s = start_execution (postgres local) now now' now'' id w s
  serve (complete now now' now'' id w) s = complete_execution (postgres local) now now' now'' id w s
  serve (fail now now' now'' id w r) s = fail_execution (postgres local) now now' now'' id w r s
  serve (renew now now' id w n) s = renew_execution_lease (postgres local) now now' id w n s

  -- The calls in turn, up to the first that raises.
  unfoldable pub run_calls : List Call → Action PostgresWorld (Unit {0})
  run_calls [] s = (ok tt, s)
  run_calls (c ∷ cs) s = proceed (serve c s) (λ done. run_calls cs)
