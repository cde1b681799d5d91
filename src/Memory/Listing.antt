-- ===== src/Memory/Listing.antt =====
-- What the repository in memory lists: its loops against the plain description.
use application_as_service.Prelude.{
  ℕ, zero, suc, ◌+◌, ◌<◌, ◌≡◌, refl, Bool, List, [], ◌∷◌, ◌++◌, arith, length, length-append, take,
  select, Bool-cases, inl, inr, ap, sym,
}
use mathlib.Core.List.{append_assoc}
use application_as_service.Execution.{ExecutionState, Execution, same_state}
use application_as_service.Memory.{Store, collect, list_by_state}

append-nil : (xs : List Execution) → xs ++ [] ≡ xs
append-nil [] = refl
append-nil (x ∷ xs) = ap (λ ys. x ∷ ys) (append-nil xs)

-- The loop with `results` collected, where `suc n` more are wanted.
collect_more :
    (test : Execution → Bool) (limit n : ℕ) (results : List Execution) (s : Store)
    → limit ≡ length results + suc n
    → collect test limit results s ≡ results ++ take (suc n) (select test s)
unfolding collect
collect_more test limit n results [] h = sym (append-nil results)
collect_more test limit zero results (e ∷ s) h =
    let more = length-append results (e ∷ []) in
    elim (Bool-cases (test e)) [
      | inr fails ↦ ground (arith, collect_more test limit zero results s h)
      | inl passes ↦ ground (arith, more)
    ]
collect_more test limit (suc n) results (e ∷ s) h =
    let more = length-append results (e ∷ []) in
    elim (Bool-cases (test e)) [
      | inr fails ↦ ground (arith, collect_more test limit (suc n) results s h)
      | inl passes ↦ ground (
        arith,
        more,
        append_assoc results (e ∷ []) (take (suc n) (select test s)),
        collect_more test limit n (results ++ e ∷ []) s (omega (arith, more, h)),
      )
    ]

-- For a limit of at least one, list_by_state of the repository in memory returns the first
-- executions of the state, up to the limit, in the order of their creation.
pub list_by_state-take :
    (state : ExecutionState) (limit : ℕ) (s : Store)
    → 0 < limit
    → list_by_state state limit s ≡ take limit (select (λ e. same_state e.state state) s)
unfolding list_by_state
list_by_state-take state zero s positive = absurd (omega (arith, positive))
list_by_state-take state (suc n) s positive =
    collect_more (λ e. same_state e.state state) (suc n) n [] s (omega arith)
