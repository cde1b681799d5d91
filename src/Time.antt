-- ===== src/Time.antt =====
-- Python's `datetime`, as the engine uses it: a count of microseconds since the epoch, in UTC,
-- either naive (`datetime.utcnow()`, and what a column without time zone gives back) or aware
-- (`datetime.now(timezone.utc)`). To order a naive and an aware value raises TypeError.
use application_as_service.Prelude.{ℕ, ◌+◌, ◌*◌, Bool, Option, none, some, ltb, leb, true, false}
use application_as_service.Outcome.{Result, ok, err, type_error}

pub data DateTime : Type 0 where
  naive aware : ℕ → DateTime

-- `moment + timedelta(seconds=n)`
abbrev pub add_seconds : DateTime → ℕ → DateTime
add_seconds (naive t) n = naive (t + n * 1000000)
add_seconds (aware t) n = aware (t + n * 1000000)

-- `a < b`
abbrev pub before : DateTime → DateTime → Result Bool
before (naive a) (naive b) = ok (ltb a b)
before (aware a) (aware b) = ok (ltb a b)
before _ _ = err type_error

-- `a <= b`
abbrev pub at_or_before : DateTime → DateTime → Result Bool
at_or_before (naive a) (naive b) = ok (leb a b)
at_or_before (aware a) (aware b) = ok (leb a b)
at_or_before _ _ = err type_error

-- `not expiry or expiry <= now`
abbrev pub has_lapsed : Option DateTime → DateTime → Result Bool
has_lapsed none now = ok true
has_lapsed (some expiry) now = at_or_before expiry now

-- `expiry and expiry > now`
abbrev pub still_runs : Option DateTime → DateTime → Result Bool
still_runs none now = ok false
still_runs (some expiry) now = before now expiry
