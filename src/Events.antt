-- ===== src/Events.antt =====
-- execution_engine/core/events_model.py and events.py: the events of an execution and the emitters.
-- The first number of each constructor function is the reading of `datetime.utcnow()`.
use application_as_service.Prelude.{
  ℕ, String, Bool, true, false, not, Option, List, [], ◌∷◌, ◌++◌, ◌≡◌, refl, str_eq, arith,
  if◌then◌else◌,
}
use application_as_service.Outcome.{Result, ok, err, Action, value_error}
use application_as_service.Time.{DateTime, naive}
use application_as_service.Value.{Value}
use application_as_service.Execution.{Uuid, Execution, ExecutionState}

-- The metadata dictionaries, one constructor for each set of keys. The identifiers and times that
-- the program formats as texts are kept as they are.
pub data Metadata : Type 0 where
  registration : Uuid → Uuid → String → Metadata
  state_now : ExecutionState → Metadata
  lease : Option String → Option DateTime → Metadata
  running : Option String → Option DateTime → Metadata
  completion : Option DateTime → Option Value → Metadata
  failure : String → Option DateTime → Metadata
  cancellation : Option DateTime → Metadata

pub record ExecutionEvent : Type 0 where
  pub event_type : String
  pub execution_id : Uuid
  pub timestamp : DateTime
  pub metadata : Metadata

unfoldable pub execution_registered : ℕ → Execution → ExecutionEvent
execution_registered now e = record {
  event_type = "execution.registered";
  execution_id = e.execution_id;
  timestamp = naive now;
  metadata = registration e.tenant_id e.application_id e.runtime_type;
}

unfoldable pub execution_queued : ℕ → Execution → ExecutionEvent
execution_queued now e = record {
  event_type = "execution.queued";
  execution_id = e.execution_id;
  timestamp = naive now;
  metadata = state_now e.state;
}

unfoldable pub execution_claimed : ℕ → Execution → ExecutionEvent
execution_claimed now e = record {
  event_type = "execution.claimed";
  execution_id = e.execution_id;
  timestamp = naive now;
  metadata = lease e.lease_owner e.lease_expires_at;
}

unfoldable pub execution_started : ℕ → Execution → ExecutionEvent
execution_started now e = record {
  event_type = "execution.started";
  execution_id = e.execution_id;
  timestamp = naive now;
  metadata = running e.lease_owner e.started_at;
}

unfoldable pub execution_completed : ℕ → Execution → ExecutionEvent
execution_completed now e = record {
  event_type = "execution.completed";
  execution_id = e.execution_id;
  timestamp = naive now;
  metadata = completion e.finished_at e.deployment_result;
}

unfoldable pub execution_failed : ℕ → Execution → String → ExecutionEvent
execution_failed now e reason = record {
  event_type = "execution.failed";
  execution_id = e.execution_id;
  timestamp = naive now;
  metadata = failure reason e.finished_at;
}

unfoldable pub execution_cancelled : ℕ → Execution → ExecutionEvent
execution_cancelled now e = record {
  event_type = "execution.cancelled";
  execution_id = e.execution_id;
  timestamp = naive now;
  metadata = cancellation e.finished_at;
}

abbrev pub allowed_events : List String
allowed_events =
    "execution.registered" ∷ "execution.queued" ∷ "execution.claimed" ∷ "execution.started"
    ∷ "execution.completed" ∷ "execution.failed" ∷ "execution.cancelled" ∷ []

unfoldable pub is_allowed : List String → String → Bool
is_allowed [] name = false
is_allowed (a ∷ allowed) name = if str_eq a name then true else is_allowed allowed name

-- `PrintEventEmitter.emit` over the list `self.events`. A UUID is never false, so the test for a
-- missing execution id never fails.
unfoldable pub print_emit : List ExecutionEvent → Action (List ExecutionEvent) (Unit {0})
unfolding is_allowed
print_emit [] kept = (ok tt, kept)
print_emit (event ∷ events) kept =
    let rest = print_emit events (kept ++ event ∷ []) in
    if not (is_allowed allowed_events event.event_type) then (err value_error, kept) else rest

-- `PrintEventEmitter` with its list, and `NullEventEmitter`.
pub data Emitter : Type 0 where
  printing : List ExecutionEvent → Emitter
  silent : Emitter

abbrev pub put_back : Result (Unit {0}) × List ExecutionEvent → Result (Unit {0}) × Emitter
put_back (r, kept) = (r, printing kept)

unfoldable pub emit : List ExecutionEvent → Action Emitter (Unit {0})
unfolding print_emit
emit events (printing kept) = put_back (print_emit events kept)
emit events silent = (ok tt, silent)

abbrev pub keep_first :
    Emitter → Result (Unit {0}) × List Emitter → Result (Unit {0}) × List Emitter
keep_first e (r, es) = (r, e ∷ es)

-- `MultiEventEmitter.emit`: the emitters in turn, up to the first that raises.
unfoldable pub multi_emit : List ExecutionEvent → Action (List Emitter) (Unit {0})
unfolding emit
multi_emit events [] = (ok tt, [])
multi_emit events (e ∷ es) =
    let (r, e') = emit events e in
    let rest = keep_first e' (multi_emit events es) in
    elim r [ ok done ↦ rest | err x ↦ (err x, e' ∷ es) ]

-- The emitters after they have all taken one event.
abbrev pub take_event : ExecutionEvent → Emitter → Emitter
take_event event (printing kept) = printing (kept ++ event ∷ [])
take_event event silent = silent

abbrev pub take_all : ExecutionEvent → List Emitter → List Emitter
take_all event [] = []
take_all event (e ∷ es) = take_event event e ∷ take_all event es

-- An event of an allowed type is taken by every emitter, printing or silent, and none raises.
pub multi_emit_allowed :
    (event : ExecutionEvent) (es : List Emitter)
    → is_allowed allowed_events event.event_type ≡ true
    → multi_emit (event ∷ []) es ≡ (ok tt, take_all event es)
unfolding multi_emit
multi_emit_allowed event [] h = refl
multi_emit_allowed event (printing kept ∷ es) h = ground (arith, multi_emit_allowed event es h)
multi_emit_allowed event (silent ∷ es) h = ground (arith, multi_emit_allowed event es h)
