-- ===== src/Service/Emitting.antt =====
-- The events of the service reach every emitter: no call of the service raises for its event.
use application_as_service.Prelude.{ℕ, ◌≡◌, refl, List, [], ◌∷◌, String}
use application_as_service.Outcome.{ok}
use application_as_service.Execution.{Execution}
use application_as_service.Events.{
  Emitter, multi_emit, take_all, multi_emit_allowed, is_allowed, execution_registered,
  execution_queued, execution_claimed, execution_started, execution_completed, execution_failed,
}

module _ (now : ℕ) (e : Execution) (es : List Emitter) where
  pub emit_registered :
      multi_emit (execution_registered now e ∷ []) es
      ≡ (ok tt, take_all (execution_registered now e) es)
  unfolding execution_registered is_allowed
  emit_registered = multi_emit_allowed (execution_registered now e) es refl

  pub emit_queued :
      multi_emit (execution_queued now e ∷ []) es ≡ (ok tt, take_all (execution_queued now e) es)
  unfolding execution_queued is_allowed
  emit_queued = multi_emit_allowed (execution_queued now e) es refl

  pub emit_claimed :
      multi_emit (execution_claimed now e ∷ []) es ≡ (ok tt, take_all (execution_claimed now e) es)
  unfolding execution_claimed is_allowed
  emit_claimed = multi_emit_allowed (execution_claimed now e) es refl

  pub emit_started :
      multi_emit (execution_started now e ∷ []) es ≡ (ok tt, take_all (execution_started now e) es)
  unfolding execution_started is_allowed
  emit_started = multi_emit_allowed (execution_started now e) es refl

  pub emit_completed :
      multi_emit (execution_completed now e ∷ []) es
      ≡ (ok tt, take_all (execution_completed now e) es)
  unfolding execution_completed is_allowed
  emit_completed = multi_emit_allowed (execution_completed now e) es refl

  pub emit_failed :
      (reason : String)
      → multi_emit (execution_failed now e reason ∷ []) es
        ≡ (ok tt, take_all (execution_failed now e reason) es)
  unfolding execution_failed is_allowed
  emit_failed reason = multi_emit_allowed (execution_failed now e reason) es refl
