-- ===== src/Gateway/CircuitBreaker/Invariant.antt =====
-- What holds of one breaker between two calls, under a fixed configuration.
use xira_net.Common.{ℕ, ◌≤◌, ◌<◌, ◌≡◌, ◌≢◌, none, arith, u32_max}
use xira_net.Gateway.CircuitBreaker.{
  closed, half_open, CircuitBreakerEntry, ConfigState, fresh_entry, allow, succeed, fail,
}

pub record Inv (c : ConfigState) (e : CircuitBreakerEntry) : Type 0 where
  pub probes_capped : e.in_flight_probes ≤ c.half_open_max_requests
  pub probes_only_half_open : e.state ≢ half_open → e.in_flight_probes ≡ 0
  pub recovering : e.state ≡ half_open → e.success_count_half_open < c.half_open_max_requests
  pub below_threshold : e.state ≡ closed → e.failure_count < c.failure_threshold
  pub has_failed : e.state ≢ closed → e.last_failure_time ≢ none

-- What the constructor and `update_config` make of any arguments.
pub record IsClamped (c : ConfigState) : Type 0 where
  pub threshold_pos : 1 ≤ c.failure_threshold
  pub threshold_u32 : c.failure_threshold ≤ u32_max
  pub half_open_pos : 1 ≤ c.half_open_max_requests
  pub half_open_u32 : c.half_open_max_requests ≤ u32_max

pub fresh-Inv : (c : ConfigState) (now : ℕ) → IsClamped c → Inv c (fresh_entry now)
fresh-Inv c now h = ground arith

pub allow-Inv :
    (c : ConfigState) (now : ℕ) (e : CircuitBreakerEntry)
    → IsClamped c
    → Inv c e
    → Inv c (allow c now e).0
unfolding allow
allow-Inv c now e h v = ground arith

pub succeed-Inv :
    (c : ConfigState) (now : ℕ) (e : CircuitBreakerEntry)
    → IsClamped c
    → Inv c e
    → Inv c (succeed c now e)
unfolding succeed
succeed-Inv c now e h v = ground arith

pub fail-Inv :
    (c : ConfigState) (now : ℕ) (e : CircuitBreakerEntry)
    → IsClamped c
    → Inv c e
    → Inv c (fail c now e)
unfolding fail
fail-Inv c now e h v = ground arith
