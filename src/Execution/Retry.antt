-- ===== src/Execution/Retry.antt =====
-- execution_engine/core/models.py: which failures are retried, and after how long.
use Prim.Native.Nat.{min, ◌^◌}
use application_as_service.Prelude.{
  ℕ, zero, suc, ◌*◌, ◌≡◌, refl, Bool, true, false, none, some, String, List, [], ◌∷◌, arith, leb,
  str_eq, if◌then◌else◌, length,
}
use application_as_service.Prelude.Text.{codes, lower, contains, contains_trans}
use application_as_service.Execution.{Execution}

abbrev pub transient_patterns : List String
transient_patterns =
    "connection" ∷ "timeout" ∷ "unavailable" ∷ "temporary" ∷ "network" ∷ "refused" ∷ "unreachable"
    ∷ "no route" ∷ "connection reset" ∷ "broken pipe" ∷ "node not found" ∷ "node offline" ∷ []

abbrev pub permanent_patterns : List String
permanent_patterns =
    "validation" ∷ "invalid" ∷ "not found" ∷ "unauthorized" ∷ "forbidden" ∷ "bad request"
    ∷ "malformed" ∷ "missing required" ∷ []

-- `for pattern in patterns: if pattern in error_lower: return True`
unfoldable pub occurs_any : List String → List ℕ → Bool
occurs_any [] error_lower = false
occurs_any (pattern' ∷ patterns) error_lower =
    if contains (codes pattern') error_lower then true else occurs_any patterns error_lower

unfoldable pub is_transient_error : Execution → Bool
is_transient_error e = elim e.error_message [
  | none ↦ false
  | some message ↦
      if str_eq message ""
      then false
      else if occurs_any permanent_patterns (lower message)
      then false
      else occurs_any transient_patterns (lower message)
]

abbrev delays : List ℕ
delays = 10 ∷ 30 ∷ 90 ∷ []

-- `delays[i]`, read only where `i < len(delays)`
abbrev delay_at : List ℕ → ℕ → ℕ
delay_at [] i = 0
delay_at (d ∷ ds) zero = d
delay_at (d ∷ ds) (suc i) = delay_at ds i

unfoldable pub calculate_retry_delay : Execution → ℕ
calculate_retry_delay e =
    if leb (length delays) e.retry_count then delay_at delays 2 else delay_at delays e.retry_count

min_two : (n : ℕ) → min (suc (suc (suc n))) 2 ≡ 2
min_two n = omega arith

min-three : (n : ℕ) → 10 * 3 ^ min (suc (suc (suc n))) 2 ≡ 90
min-three n = rw (min_two n)

-- The delay before a retry is 10 seconds times three to the power of the number of retries, or of
-- two if that is less.
pub calculate_retry_delay_backoff :
    (e : Execution) → calculate_retry_delay e ≡ 10 * 3 ^ min e.retry_count 2
unfolding calculate_retry_delay
calculate_retry_delay_backoff e = go e.retry_count
  where
    go : (n : ℕ) → (if leb 3 n then 90 else delay_at delays n) ≡ 10 * 3 ^ min n 2
    go zero = refl
    go (suc zero) = refl
    go (suc (suc zero)) = refl
    go (suc (suc (suc n))) = ground (arith, min-three n)

not_found_occurs :
    (s : List ℕ)
    → contains (codes "node not found") s ≡ true
    → contains (codes "not found") s ≡ true
not_found_occurs s h =
    contains_trans (codes "not found") (codes "node not found") s (unfold contains in refl) h

occurs_any_permanent :
    (s : List ℕ)
    → contains (codes "node not found") s ≡ true
    → occurs_any permanent_patterns s ≡ true
unfolding occurs_any
occurs_any_permanent s h = ground (arith, not_found_occurs s h)

-- An execution whose message holds "node not found", in any case, is not taken for a transient
-- failure.
pub node_not_found_is_permanent :
    (e : Execution) (message : String)
    → e.error_message ≡ some message
    → contains (codes "node not found") (lower message) ≡ true
    → is_transient_error e ≡ false
unfolding is_transient_error
node_not_found_is_permanent e message m h = ground (arith, occurs_any_permanent (lower message))
