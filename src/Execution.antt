-- ===== src/Execution.antt =====
-- execution_engine/core/models.py: the execution record and its state machine. A method that
-- changes the object returns the new record, or the exception it raises before any change. Each
-- reading of the clock is an argument, in the order in which the method takes them.
pub mod Retry
pub mod Transitions
use application_as_service.Prelude.{
  ℕ, ◌+◌, String, Bool, true, false, not, ◌&&◌, Option, none, some, ltb, str_eq, ◌||◌,
  if◌then◌else◌,
}
use application_as_service.Outcome.{Result, ok, err, ◌>>=◌, value_error}
use application_as_service.Time.{DateTime, aware, add_seconds, before, has_lapsed}
use application_as_service.Value.{Value}
use application_as_service.Integers.{ℤ}

pub data ExecutionState : Type 0 where
  created queued claimed started completed failed cancelled : ExecutionState

-- `a == b`
abbrev pub same_state : ExecutionState → ExecutionState → Bool
same_state created created = true
same_state queued queued = true
same_state claimed claimed = true
same_state started started = true
same_state completed completed = true
same_state failed failed = true
same_state cancelled cancelled = true
same_state _ _ = false

-- A UUID is compared and is never false in a test; nothing else of it is used.
abbrev pub Uuid : Type 0
Uuid = ℕ

pub record Execution : Type 0 where
  pub execution_id : Uuid
  pub tenant_id : Uuid
  pub application_id : Uuid
  pub deployment_id : Option Uuid
  pub step_execution_id : Option Uuid
  pub execution_type : String
  pub target_resource_id : Option Uuid
  pub runtime_type : String
  pub spec : Value
  pub state : ExecutionState
  pub created_at : DateTime
  pub queued_at : Option DateTime
  pub claimed_at : Option DateTime
  pub started_at : Option DateTime
  pub finished_at : Option DateTime
  pub lease_owner : Option String
  pub lease_expires_at : Option DateTime
  pub deployment_result : Option Value
  pub error_message : Option String
  pub retry_count : ℕ
  pub max_retries : ℕ
  pub priority : ℤ
  pub version : ℕ

-- `execution.lease_owner == worker_id`
abbrev pub owned_by : Option String → String → Bool
owned_by none worker_id = false
owned_by (some owner) worker_id = str_eq owner worker_id

unfoldable pub queue : ℕ → Execution → Result Execution
queue now e =
    if not (same_state e.state created)
    then err value_error
    else ok (record e { state = queued; queued_at = some (aware now); version = e.version + 1 })

unfoldable pub claim : ℕ → ℕ → String → ℕ → Execution → Result Execution
claim now now' worker_id lease_seconds e =
    if not (same_state e.state queued)
    then err value_error
    else ok (record e {
      state = claimed;
      lease_owner = some worker_id;
      lease_expires_at = some (add_seconds (aware now) lease_seconds);
      claimed_at = some (aware now');
      version = e.version + 1;
    })

unfoldable pub start : ℕ → Execution → Result Execution
start now e =
    if not (same_state e.state claimed)
    then err value_error
    else ok (record e { state = started; started_at = some (aware now); version = e.version + 1 })

unfoldable pub complete : ℕ → Option Value → Execution → Result Execution
complete now result e =
    if not (same_state e.state started)
    then err value_error
    else ok (record e {
      state = completed;
      finished_at = some (aware now);
      deployment_result = result;
      lease_owner = none;
      lease_expires_at = none;
      version = e.version + 1;
    })

-- `self.state not in (QUEUED, CLAIMED, STARTED)`, the guard of `fail`
abbrev pub can_fail : ExecutionState → Bool
can_fail s = same_state s queued || same_state s claimed || same_state s started

unfoldable pub fail : ℕ → String → Execution → Result Execution
fail now message e =
    if not (can_fail e.state)
    then err value_error
    else ok (record e {
      state = failed;
      finished_at = some (aware now);
      error_message = some message;
      lease_owner = none;
      lease_expires_at = none;
      version = e.version + 1;
    })

-- COMPLETED, FAILED and CANCELLED
abbrev pub is_final : ExecutionState → Bool
is_final s = same_state s completed || same_state s failed || same_state s cancelled

unfoldable pub cancel : ℕ → Execution → Result Execution
cancel now e =
    if is_final e.state
    then err value_error
    else ok (record e {
      state = cancelled;
      finished_at = some (aware now);
      lease_owner = none;
      lease_expires_at = none;
      version = e.version + 1;
    })

unfoldable pub renew_lease : ℕ → ℕ → String → ℕ → Execution → Result Execution
renew_lease now now' worker_id lease_seconds e =
    if not (owned_by e.lease_owner worker_id)
    then err value_error
    else has_lapsed e.lease_expires_at (aware now) >>= λ lapsed.
        if lapsed
        then err value_error
        else ok (record e {
          lease_expires_at = some (add_seconds (aware now') lease_seconds);
          version = e.version + 1;
        })

unfoldable pub is_lease_valid : ℕ → String → Execution → Result Bool
is_lease_valid now worker_id e =
    if not (owned_by e.lease_owner worker_id)
    then ok false
    else elim e.lease_expires_at [ none ↦ ok false | some expiry ↦ before (aware now) expiry ]

unfoldable pub can_retry : Execution → Bool
can_retry e = same_state e.state failed && ltb e.retry_count e.max_retries
