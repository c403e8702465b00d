-- ===== src/Gateway/CircuitBreaker.antt =====
-- src/gateway/circuit_breaker.rs: the circuit breaker of each service. A method holds the lock of
-- its map shard throughout, so it is one step. An `Instant` is a number of nanoseconds, and the
-- call's time is an argument.
pub mod Invariant
pub mod Recovery
pub mod Manager
pub mod Probes
mod Tests
use xira_net.Common.{
  ℕ, ◌-◌, ◌*◌, max, Option, none, some, [], Dict, get, insert, Result, saturating_inc32, ltb, leb,
  if◌then◌else◌, ok, err, nat_eq,
}

-- `Open` of the source is `opened`: `open` is a reserved word.
pub data CircuitState : Type 0 where
  closed opened half_open : CircuitState

pub record CircuitBreakerEntry : Type 0 where
  pub state : CircuitState
  pub failure_count : ℕ  -- u32
  pub success_count_half_open : ℕ  -- u32
  pub in_flight_probes : ℕ  -- u32
  pub last_failure_time : Option ℕ
  pub last_state_change : ℕ

pub record ConfigState : Type 0 where
  pub failure_threshold : ℕ  -- u32
  pub reset_timeout_secs : ℕ  -- u64
  pub half_open_max_requests : ℕ  -- u32

pub record CircuitBreakerManager : Type 0 where
  pub breakers : Dict ℕ CircuitBreakerEntry
  pub config : ConfigState

abbrev pub clamped_config : ℕ → ℕ → ℕ → ConfigState
clamped_config threshold reset_secs probes = record {
  failure_threshold = max threshold 1;
  reset_timeout_secs = reset_secs;
  half_open_max_requests = max probes 1;
}

unfoldable pub new : ℕ → ℕ → ℕ → CircuitBreakerManager
new threshold reset_secs probes = record {
  breakers = [];
  config = clamped_config threshold reset_secs probes;
}

unfoldable pub update_config : CircuitBreakerManager → ℕ → ℕ → ℕ → CircuitBreakerManager
update_config m threshold reset_secs probes = record m {
  config = clamped_config threshold reset_secs probes;
}

-- `Duration::from_secs`, in nanoseconds.
abbrev pub from_secs : ℕ → ℕ
from_secs s = s * 1000000000

-- The entry that `or_insert` puts in.
abbrev pub fresh_entry : ℕ → CircuitBreakerEntry
fresh_entry now = record {
  state = closed;
  failure_count = 0;
  success_count_half_open = 0;
  in_flight_probes = 0;
  last_failure_time = none;
  last_state_change = now;
}

abbrev pub Admission : Type 0
Admission = Result (Unit {0}) CircuitState

-- The `Open` arm of `allow_request`.
allow_opened : ConfigState → ℕ → CircuitBreakerEntry → Option ℕ → CircuitBreakerEntry × Admission
allow_opened c now e none = (e, err opened)
allow_opened c now e (some last_failure) =
    if leb (from_secs c.reset_timeout_secs) (now - last_failure)
    then (
      record e {
        state = half_open;
        success_count_half_open = 0;
        in_flight_probes = 1;
        last_state_change = now;
      },
      ok tt,
    )
    else (e, err opened)

allow_in : CircuitState → ConfigState → ℕ → CircuitBreakerEntry → CircuitBreakerEntry × Admission
unfolding allow_opened
allow_in closed c now e = (e, ok tt)
allow_in opened c now e = allow_opened c now e e.last_failure_time
allow_in half_open c now e =
    if ltb e.in_flight_probes (max c.half_open_max_requests 1)
    then (record e { in_flight_probes = saturating_inc32 e.in_flight_probes }, ok tt)
    else (e, err half_open)

-- The body of `allow_request`, on the entry.
unfoldable pub allow : ConfigState → ℕ → CircuitBreakerEntry → CircuitBreakerEntry × Admission
unfolding allow_in
allow c now e = allow_in e.state c now e

success_in : CircuitState → ConfigState → ℕ → CircuitBreakerEntry → CircuitBreakerEntry
success_in half_open c now e =
    let e' = record e {
      success_count_half_open = saturating_inc32 e.success_count_half_open;
      in_flight_probes = e.in_flight_probes - 1;
    } in
    if leb (max c.half_open_max_requests 1) e'.success_count_half_open
    then record e' {
      state = closed;
      failure_count = 0;
      in_flight_probes = 0;
      last_state_change = now;
    }
    else e'
success_in closed c now e = e
success_in opened c now e = e

-- The body of `record_success`, on the entry.
unfoldable pub succeed : ConfigState → ℕ → CircuitBreakerEntry → CircuitBreakerEntry
unfolding success_in
succeed c now e = success_in e.state c now e

failure_in : CircuitState → ConfigState → ℕ → CircuitBreakerEntry → CircuitBreakerEntry
failure_in closed c now e =
    if leb (max c.failure_threshold 1) e.failure_count
    then record e { state = opened; last_state_change = now }
    else e
failure_in half_open c now e = record e {
  state = opened;
  in_flight_probes = 0;
  success_count_half_open = 0;
  last_state_change = now;
}
failure_in opened c now e = e

-- The body of `record_failure`, on the entry.
unfoldable pub fail : ConfigState → ℕ → CircuitBreakerEntry → CircuitBreakerEntry
unfolding failure_in
fail c now e =
    failure_in e.state c now
      (record e { failure_count = saturating_inc32 e.failure_count; last_failure_time = some now })

-- `entry(id).or_insert(…)`.
unfoldable pub entry_or_insert : ℕ → ℕ → CircuitBreakerManager → CircuitBreakerEntry
entry_or_insert now id m = elim (get id m.breakers) [ none ↦ fresh_entry now | some e ↦ e ]

unfoldable pub allow_request : CircuitBreakerManager → ℕ → ℕ → CircuitBreakerManager × Admission
unfolding entry_or_insert allow
allow_request m now id =
    let (e, answer) = allow m.config now (entry_or_insert now id m) in
    (record m { breakers = insert id e m.breakers }, answer)

unfoldable pub record_success : CircuitBreakerManager → ℕ → ℕ → CircuitBreakerManager
unfolding succeed
record_success m now id = elim (get id m.breakers) [
  | none ↦ m
  | some e ↦ record m { breakers = insert id (succeed m.config now e) m.breakers }
]

unfoldable pub record_failure : CircuitBreakerManager → ℕ → ℕ → CircuitBreakerManager
unfolding entry_or_insert fail
record_failure m now id = record m {
  breakers = insert id (fail m.config now (entry_or_insert now id m)) m.breakers;
}

unfoldable pub get_state : CircuitBreakerManager → ℕ → CircuitState
get_state m id = elim (get id m.breakers) [ none ↦ closed | some e ↦ e.state ]
