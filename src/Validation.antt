-- ===== src/Validation.antt =====
-- execution_engine/core/validation.py, and the factory of execution_engine/core/factory.py. The
-- validator tests attributes that a caller may have left at None, so it reads a record in which the
-- identifiers and the runtime type are optional.
use application_as_service.Prelude.{
  ℕ, ◌≡◌, ◌≢◌, ◌↔◌, ◌⊎◌, inl, inr, refl, String, Bool, true, false, not, ◌||◌, Option, none, some,
  str_eq, ◌==◌, arith, subst, sym, if◌then◌else◌,
}
use text.Mathlib.TextEquality.{eq_iff}
use application_as_service.Outcome.{Result, ok, err, ◌>>=◌, validation_error}
use application_as_service.Time.{DateTime, naive}
use application_as_service.Value.{Value, Fields}
use application_as_service.Integers.{pos}
use application_as_service.Execution.{Uuid, Execution, ExecutionState, created, same_state}

-- `bool(x)` of an optional time, and of an optional text
abbrev pub is_set : Option DateTime → Bool
is_set none = false
is_set (some t) = true

abbrev pub is_given : Option String → Bool
is_given none = false
is_given (some s) = not (str_eq s "")

-- `isinstance(spec, dict) and bool(spec)`, after the test for None
abbrev pub is_filled : Value → Bool
is_filled (Value.object Fields.no_fields) = false
is_filled (Value.object (Fields.field k v fs)) = true
is_filled _ = false

-- What the validator reads of an execution.
pub record Candidate : Type 0 where
  pub execution_id : Option Uuid
  pub tenant_id : Option Uuid
  pub application_id : Option Uuid
  pub runtime_type : Option String
  pub spec : Value
  pub state : ExecutionState
  pub claimed_at : Option DateTime
  pub started_at : Option DateTime
  pub finished_at : Option DateTime
  pub lease_owner : Option String
  pub lease_expires_at : Option DateTime
  pub version : ℕ

abbrev pub candidate_of : Execution → Candidate
candidate_of e = record {
  execution_id = some e.execution_id;
  tenant_id = some e.tenant_id;
  application_id = some e.application_id;
  runtime_type = some e.runtime_type;
  spec = e.spec;
  state = e.state;
  claimed_at = e.claimed_at;
  started_at = e.started_at;
  finished_at = e.finished_at;
  lease_owner = e.lease_owner;
  lease_expires_at = e.lease_expires_at;
  version = e.version;
}

-- `bool(x)` of an optional UUID: a UUID is true
abbrev pub is_identified : Option Uuid → Bool
is_identified none = false
is_identified (some id) = true

unfoldable pub validate_new_execution : Candidate → Result (Unit {0})
validate_new_execution e =
    if not (is_identified e.execution_id)
    then err validation_error
    else if not (is_identified e.tenant_id)
    then err validation_error
    else if not (is_identified e.application_id)
    then err validation_error
    else if not (is_given e.runtime_type)
    then err validation_error
    else if not (is_filled e.spec)
    then err validation_error
    else if not (same_state e.state created)
    then err validation_error
    else if is_set e.claimed_at || is_set e.started_at || is_set e.finished_at
    then err validation_error
    else if is_given e.lease_owner || is_set e.lease_expires_at
    then err validation_error
    else if not (e.version == 0)
    then err validation_error
    else ok tt

-- The execution that the factory makes, with the defaults of the record.
abbrev pub new_execution : ℕ → Uuid → Uuid → Uuid → String → Value → Execution
new_execution now id tenant_id application_id runtime_type spec = record {
  execution_id = id;
  tenant_id = tenant_id;
  application_id = application_id;
  deployment_id = none;
  step_execution_id = none;
  execution_type = "deploy";
  target_resource_id = none;
  runtime_type = runtime_type;
  spec = spec;
  state = created;
  created_at = naive now;
  queued_at = none;
  claimed_at = none;
  started_at = none;
  finished_at = none;
  lease_owner = none;
  lease_expires_at = none;
  deployment_result = none;
  error_message = none;
  retry_count = 0;
  max_retries = 3;
  priority = pos 0;
  version = 0;
}

abbrev returned : Execution → Result (Unit {0}) → Result Execution
returned e r = r >>= λ valid. ok e

-- `ExecutionFactory.create`, with the reading of the clock and the UUID that it makes
unfoldable pub factory_create : ℕ → Uuid → Uuid → Uuid → String → Value → Result Execution
unfolding validate_new_execution
factory_create now id tenant_id application_id runtime_type spec =
    let e = new_execution now id tenant_id application_id runtime_type spec in
    returned e (validate_new_execution (candidate_of e))

-- What a new execution is.
pub record IsNew (e : Candidate) : Type 0 where
  pub identity : (id : Uuid) × (e.execution_id ≡ some id)
  pub tenant : (id : Uuid) × (e.tenant_id ≡ some id)
  pub application : (id : Uuid) × (e.application_id ≡ some id)
  pub runtime : (r : String) × (e.runtime_type ≡ some r) × (r ≢ "")
  pub filled :
      (k : String) × (v : Value) × (fs : Fields) × (e.spec ≡ Value.object (Fields.field k v fs))
  pub state : e.state ≡ created
  pub claimed : e.claimed_at ≡ none
  pub started : e.started_at ≡ none
  pub finished : e.finished_at ≡ none
  pub unowned : (e.lease_owner ≡ none) ⊎ (e.lease_owner ≡ some "")
  pub unleased : e.lease_expires_at ≡ none
  pub version : e.version ≡ 0

identified : (o : Option Uuid) → is_identified o ≡ true → (id : Uuid) × (o ≡ some id)
identified none h = absurd (ground arith)
identified (some id) h = (id, refl)

given_text : (o : Option String) → is_given o ≡ true → (r : String) × (o ≡ some r) × (r ≢ "")
given_text none h = absurd (ground arith)
given_text (some r) h = (r, refl, λ empty. ground (arith, eq_iff r ""))

filled_fields :
    (v : Value)
    → is_filled v ≡ true
    → (k : String) × (w : Value) × (fs : Fields) × (v ≡ Value.object (Fields.field k w fs))
filled_fields (Value.object (Fields.field k w fs)) h = (k, w, fs, refl)
filled_fields v h = absurd (ground arith)

no_owner : (o : Option String) → is_given o ≡ false → (o ≡ none) ⊎ (o ≡ some "")
no_owner none h = inl refl
no_owner (some s) h = inr (ground (arith, eq_iff s ""))

accepted-IsNew : (e : Candidate) → validate_new_execution e ≡ ok tt → IsNew e
unfolding validate_new_execution
accepted-IsNew e h = record {
  identity = identified e.execution_id (ground arith);
  tenant = identified e.tenant_id (ground arith);
  application = identified e.application_id (ground arith);
  runtime = given_text e.runtime_type (ground arith);
  filled = filled_fields e.spec (ground arith);
  state = ground arith;
  claimed = ground arith;
  started = ground arith;
  finished = ground arith;
  unowned = no_owner e.lease_owner (ground arith);
  unleased = ground arith;
  version = ground arith;
}

IsNew-accepted : (e : Candidate) → IsNew e → validate_new_execution e ≡ ok tt
unfolding validate_new_execution
IsNew-accepted e n =
    let (id, identity) = n.identity in
    let (tenant_id, tenant) = n.tenant in
    let (application_id, application) = n.application in
    let (r, runtime, named) = n.runtime in
    let (k, v, fs, spec) = n.filled in
    let filled : is_filled e.spec ≡ true = rw spec refl in
    ground (arith, filled, n.unowned, identity, tenant, application, runtime, named, eq_iff r "")

-- The validation of a new execution accepts it if and only if it has an id, a tenant, an
-- application and a runtime type that is not empty, its specification is a dictionary that is not
-- empty, it is CREATED, was never claimed, started or finished, has no lease and no owner but
-- possibly an empty text, and its version is 0.
pub validate_new_execution_iff : (e : Candidate) → (validate_new_execution e ≡ ok tt) ↔ IsNew e
validate_new_execution_iff e = (accepted-IsNew e, IsNew-accepted e)

-- What the factory returns is a new execution, with the arguments and the defaults of the record.
pub factory_create-IsNew :
    (now : ℕ) (id tenant_id application_id : Uuid) (runtime_type : String) (spec : Value)
    (e : Execution)
    → factory_create now id tenant_id application_id runtime_type spec ≡ ok e
    → IsNew (candidate_of e) × (e ≡ new_execution now id tenant_id application_id runtime_type spec)
unfolding factory_create
factory_create-IsNew now id tenant_id application_id runtime_type spec e h =
    let made = new_execution now id tenant_id application_id runtime_type spec in
    let same : made ≡ e = ground arith in
    let valid : validate_new_execution (candidate_of made) ≡ ok tt = ground arith in
    (subst (λ x. IsNew (candidate_of x)) same (accepted-IsNew (candidate_of made) valid), sym same)
