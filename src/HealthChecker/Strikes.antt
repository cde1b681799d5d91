-- ===== src/HealthChecker/Strikes.antt =====
-- Checks that fail one after another.
use application_as_service.Prelude.{
  ℕ, ◌+◌, ◌<◌, ◌≡◌, refl, false, Option, none, some, List, [], ◌∷◌, ◌++◌, leb, ltb, ◌&&◌, length,
  ◌==◌, arith, String, if◌then◌else◌, ◌∙◌, ap,
}
use application_as_service.Prelude.Table
use application_as_service.Outcome.{ok}
use application_as_service.Execution.{Uuid}
use application_as_service.Domain.{healthy, unhealthy, starting}
use application_as_service.Domain.Resources.{DeployedResourceOrm, row_id}
use application_as_service.HealthChecker.{
  container_of, Checked, after_check, update_health_status, handle_unhealthy_container,
  restart_container, checked_row, restarted_row,
}

module _ (local : ℕ → ℕ) (failure_threshold : ℕ) (url : String) where
  -- A check of a resource that fails, at `now`: the container is read, and the outcome is handled.
  unfoldable pub strike : ℕ → Option ℕ → Uuid → Checked → Checked
  strike now reply id s = elim (Table.find row_id id s.resources) [
    | none ↦ s
    | some row ↦ after_check local failure_threshold now reply (container_of row url) (ok false) s
  ]

  -- Checks that fail, one for each reading of the clock; no restart gets an answer.
  unfoldable pub strikes : List ℕ → Uuid → Checked → Checked
  unfolding strike
  strikes [] id s = s
  strikes (now ∷ times) id s = strikes times id (strike now none id s)

  strike_found :
      (now : ℕ) (id : Uuid) (s : Checked) (row : DeployedResourceOrm)
      → Table.find row_id id s.resources ≡ some row
      → (Table.find row_id id (strike now none id s).resources
          ≡ some
              (checked_row local failure_threshold now false row.consecutive_health_failures row))
        × ((strike now none id s).restarts ≡ (
            if row.consecutive_health_failures + 1 == failure_threshold
            then s.restarts ++ row.external_id ∷ []
            else s.restarts))
  unfolding strike after_check update_health_status handle_unhealthy_container restart_container
  strike_found now id s row found =
      let key = Table.key-find row_id id s.resources row found in
      let found' = ap (λ k. Table.find row_id k s.resources) key ∙ found in
      ground (
        arith,
        found',
        Table.find-replace_found row_id id
            (checked_row local failure_threshold now false row.consecutive_health_failures row)
            s.resources row refl found,
      )

  strikes_from :
      (times : List ℕ) (id : Uuid) (s : Checked) (row : DeployedResourceOrm)
      → Table.find row_id id s.resources ≡ some row
      → row.health_status
        ≡ (if leb failure_threshold row.consecutive_health_failures then unhealthy else healthy)
      → (row' : DeployedResourceOrm) × (Table.find row_id id (strikes times id s).resources
          ≡ some row')
        × (row'.consecutive_health_failures ≡ row.consecutive_health_failures + length times)
        × (row'.health_status ≡ (
            if leb failure_threshold (row.consecutive_health_failures + length times)
            then unhealthy
            else healthy))
        × ((strikes times id s).restarts ≡ (
            if ltb row.consecutive_health_failures failure_threshold
              && leb failure_threshold (row.consecutive_health_failures + length times)
            then s.restarts ++ row.external_id ∷ []
            else s.restarts))
  unfolding strikes
  strikes_from [] id s row found h = (row, found, omega arith, ground arith, ground arith)
  strikes_from (now ∷ times) id s row found h =
      let (found', restarts) = strike_found now id s row found in
      let (row', last, count, status, sent) =
        strikes_from times id (strike now none id s)
          (checked_row local failure_threshold now false row.consecutive_health_failures row) found'
          (ground arith) in
      (row', last, omega (arith, count), ground (arith, status), ground (arith, sent, restarts))

  -- A HEALTHY resource without failures whose checks fail one after another has as many failures
  -- as checks, is UNHEALTHY from the threshold (at least one) on and HEALTHY before, and exactly
  -- one restart is requested, at the threshold, though no agent answers.
  pub strikes_restart_once :
      (times : List ℕ) (id : Uuid) (s : Checked) (row : DeployedResourceOrm)
      → 0 < failure_threshold
      → Table.find row_id id s.resources ≡ some row
      → row.health_status ≡ healthy
      → row.consecutive_health_failures ≡ 0
      → (row' : DeployedResourceOrm) × (Table.find row_id id (strikes times id s).resources
          ≡ some row')
        × (row'.consecutive_health_failures ≡ length times)
        × (row'.health_status
            ≡ (if leb failure_threshold (length times) then unhealthy else healthy))
        × ((strikes times id s).restarts ≡ (
            if leb failure_threshold (length times)
            then s.restarts ++ row.external_id ∷ []
            else s.restarts))
  strikes_restart_once times id s row positive found h zero_failures =
      let (row', last, count, status, sent) = strikes_from times id s row found (ground arith) in
      (row', last, omega (arith, count), ground (arith, status), ground (arith, sent))

  -- A failed check that reaches the threshold and whose restart the agent answers with 200 leaves
  -- the resource STARTING, without failures, with the time of the check, and one restart was
  -- requested.
  pub strike_restarted :
      (now : ℕ) (id : Uuid) (s : Checked) (row : DeployedResourceOrm)
      → Table.find row_id id s.resources ≡ some row
      → row.consecutive_health_failures + 1 ≡ failure_threshold
      → (Table.find row_id id (strike now (some 200) id s).resources
          ≡ some (record row {
            health_status = starting;
            consecutive_health_failures = 0;
            last_health_check_at = some (local now);
          }))
        × ((strike now (some 200) id s).restarts ≡ s.restarts ++ row.external_id ∷ [])
  unfolding strike after_check update_health_status handle_unhealthy_container restart_container
  strike_restarted now id s row found at_threshold =
      let key = Table.key-find row_id id s.resources row found in
      let found' = ap (λ k. Table.find row_id k s.resources) key ∙ found in
      let struck =
        checked_row local failure_threshold now false row.consecutive_health_failures row in
      let after = Table.find-replace_found row_id id struck s.resources row refl found in
      let after' =
        ap (λ k. Table.find row_id k (Table.replace row_id struck s.resources)) key ∙ after in
      ground (
        arith,
        found',
        after,
        after',
        Table.find-replace_found row_id id (restarted_row local failure_threshold struck)
            (Table.replace row_id struck s.resources) struck refl after,
      )
