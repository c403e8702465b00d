-- ===== src/Gateway/CircuitBreaker/Tests.antt =====
-- Runs of the breaker, and the theorems about it at concrete breakers.
use xira_net.Common.{◌≤◌, ◌<◌, ◌≡◌, refl, some, List, [], ◌∷◌, arith, get, insert, nat_eq}
use xira_net.Gateway.CircuitBreaker.{
  CircuitBreakerEntry, ConfigState, closed, opened, half_open, allow, fail, new, get_state,
  allow_request, fresh_entry, from_secs, record_success, record_failure,
}
use xira_net.Gateway.CircuitBreaker.Invariant.{IsClamped}
use xira_net.Gateway.CircuitBreaker.Recovery.{succeeds, fails, admitted, admitted-le, run, recovers}
use xira_net.Gateway.CircuitBreaker.Manager.{
  Call, calls, own_history, calls-own_history, EntryInv, new-calls-EntryInv,
}

abbrev two_strikes : ConfigState
two_strikes = record { failure_threshold = 2; reset_timeout_secs = 30; half_open_max_requests = 2 }

two_strikes-IsClamped : IsClamped two_strikes
two_strikes-IsClamped = omega arith

abbrev tripped : CircuitBreakerEntry
tripped = record (fresh_entry 0) { state = opened; failure_count = 2; last_failure_time = some 5 }

abbrev probing : CircuitBreakerEntry
probing = record tripped { state = half_open; in_flight_probes = 2 }

-- Two failures trip the breaker of service 7 and leave that of service 8 alone.
trips_test :
    let m = record_failure (record_failure (new 2 30 2) 1 7) 2 7 in
    (get_state m 7 ≡ opened) × (get_state m 8 ≡ closed)
unfolding new get_state record_failure fail allow get insert
trips_test = (refl, refl)

recovery_test :
    let m = record_failure (new 1 0 1) 1 7 in
    get_state (record_success (allow_request m 2 7).0 3 7) 7 ≡ closed
unfolding new get_state record_failure record_success allow_request fail allow get insert
recovery_test = refl

admitted-le_example :
    admitted two_strikes tripped (1 ∷ from_secs 60 ∷ from_secs 61 ∷ from_secs 62 ∷ []) ≤ 2
admitted-le_example =
    admitted-le two_strikes tripped (1 ∷ from_secs 60 ∷ from_secs 61 ∷ from_secs 62 ∷ [])
      two_strikes-IsClamped refl

recovers_example :
    let e = run two_strikes probing ((6, succeeds) ∷ (7, succeeds) ∷ []) in
    (2 ≤ 2 → (e.state ≡ closed) × (e.failure_count ≡ 0) × (e.in_flight_probes ≡ 0))
    × (2 < 2 → e.state ≡ half_open)
recovers_example =
    recovers two_strikes probing (6 ∷ 7 ∷ []) two_strikes-IsClamped refl (omega arith)

abbrev mixed : List Call
mixed =
    record { now = 1; id = 7; event = fails }
    ∷ record { now = 2; id = 8; event = fails }
    ∷ record { now = 3; id = 7; event = fails }
    ∷ []

calls-own_history_example :
    get 7 (calls (new 2 30 2) mixed).breakers
    ≡ own_history (new 2 30 2).config 7 (get 7 (new 2 30 2).breakers) mixed
calls-own_history_example = calls-own_history (new 2 30 2) mixed 7

new-calls-EntryInv_example :
    EntryInv (new 2 30 2).config (get 7 (calls (new 2 30 2) mixed).breakers)
new-calls-EntryInv_example = new-calls-EntryInv 2 30 2 mixed 7 (omega arith) (omega arith)
