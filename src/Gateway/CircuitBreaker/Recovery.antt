-- ===== src/Gateway/CircuitBreaker/Recovery.antt =====
-- Histories of one breaker: when it trips, how many probes a recovery lets through, how it
-- closes again, and when it cannot.
use xira_net.Common.{
  ℕ, suc, ◌+◌, ◌-◌, ◌≤◌, ◌<◌, ◌≡◌, refl, some, List, [], ◌∷◌, map, arith, length, All, ok, err,
}
use xira_net.Gateway.CircuitBreaker.{
  closed, opened, half_open, CircuitBreakerEntry, ConfigState, Admission, from_secs, allow, succeed,
  fail,
}
use xira_net.Gateway.CircuitBreaker.Invariant.{Inv, IsClamped, allow-Inv, succeed-Inv, fail-Inv}

pub data Event : Type 0 where
  allows succeeds fails : Event

pub step : ConfigState → CircuitBreakerEntry → ℕ × Event → CircuitBreakerEntry
step c e (now, allows) = (allow c now e).0
step c e (now, succeeds) = succeed c now e
step c e (now, fails) = fail c now e

pub run : ConfigState → CircuitBreakerEntry → List (ℕ × Event) → CircuitBreakerEntry
run c e [] = e
run c e (ev ∷ evs) = run c (step c e ev) evs

-- How many of the requests made at these times are let through, with no outcome between them.
abbrev admitted_one : Admission → ℕ
admitted_one (ok _) = 1
admitted_one (err _) = 0

pub admitted : ConfigState → CircuitBreakerEntry → List ℕ → ℕ
admitted c e [] = 0
admitted c e (now ∷ times) =
    let (e', answer) = allow c now e in admitted_one answer + admitted c e' times

-- Under a clamped configuration a breaker that has the invariant keeps it whatever calls
-- arrive, at whatever times.
pub run-Inv :
    (c : ConfigState) (e : CircuitBreakerEntry) (evs : List (ℕ × Event))
    → IsClamped c
    → Inv c e
    → Inv c (run c e evs)
unfolding run step
run-Inv c e [] h v = v
run-Inv c e ((now, allows) ∷ evs) h v = run-Inv c (allow c now e).0 evs h (allow-Inv c now e h v)
run-Inv c e ((now, succeeds) ∷ evs) h v =
    run-Inv c (succeed c now e) evs h (succeed-Inv c now e h v)
run-Inv c e ((now, fails) ∷ evs) h v = run-Inv c (fail c now e) evs h (fail-Inv c now e h v)

admitted_half_open :
    (c : ConfigState) (e : CircuitBreakerEntry) (times : List ℕ)
    → IsClamped c
    → e.state ≡ half_open
    → e.in_flight_probes ≤ c.half_open_max_requests
    → admitted c e times + e.in_flight_probes ≤ c.half_open_max_requests
unfolding admitted allow
admitted_half_open c e [] h s p = omega arith
admitted_half_open c e (now ∷ times) h s p =
    ground (arith, admitted_half_open c e times, admitted_half_open c (allow c now e).0 times)

-- From an open breaker with a clamped configuration, requests that arrive before any outcome is
-- recorded are let through at most half_open_max_requests times in all, at whatever times they
-- arrive.
pub admitted-le :
    (c : ConfigState) (e : CircuitBreakerEntry) (times : List ℕ)
    → IsClamped c
    → e.state ≡ opened
    → admitted c e times ≤ c.half_open_max_requests
unfolding admitted allow
admitted-le c e [] h s = omega arith
admitted-le c e (now ∷ times) h s =
    ground (arith, admitted-le c e times h s, admitted_half_open c (allow c now e).0 times)

-- Under a clamped configuration a half-open breaker whose probes are all in flight admits no
-- request and is left unchanged by any requests, however long it waits.
pub saturated_stuck :
    (c : ConfigState) (e : CircuitBreakerEntry) (times : List ℕ)
    → IsClamped c
    → e.state ≡ half_open
    → c.half_open_max_requests ≤ e.in_flight_probes
    → (admitted c e times ≡ 0) × (run c e (map (λ now. (now, allows)) times) ≡ e)
unfolding admitted run step allow
saturated_stuck c e [] h s p = (refl, refl)
saturated_stuck c e (now ∷ times) h s p = ground (arith, saturated_stuck c e times h s p)

-- The failures in a history, whatever stands between them.
abbrev pub failures : List (ℕ × Event) → ℕ
failures [] = 0
failures ((now, fails) ∷ evs) = suc (failures evs)
failures ((now, allows) ∷ evs) = failures evs
failures ((now, succeeds) ∷ evs) = failures evs

-- Under a clamped configuration a closed breaker stays closed while its count and the failures
-- that follow stay below the threshold, whatever stands between them, and the failure that
-- reaches the threshold opens it.
pub run_trips :
    (c : ConfigState) (e : CircuitBreakerEntry) (evs : List (ℕ × Event)) (now : ℕ)
    → IsClamped c
    → e.state ≡ closed
    → e.failure_count + failures evs < c.failure_threshold
    → ((run c e evs).state ≡ closed)
      × ((run c e evs).failure_count ≡ e.failure_count + failures evs)
      × (e.failure_count + failures evs + 1 ≡ c.failure_threshold
          → (fail c now (run c e evs)).state ≡ opened)
unfolding run step allow succeed fail
run_trips c e [] now h s p = (s, omega arith, λ q. ground arith)
run_trips c e ((t, allows) ∷ evs) now h s p = ground (arith, run_trips c (allow c t e).0 evs now)
run_trips c e ((t, succeeds) ∷ evs) now h s p = ground (arith, run_trips c (succeed c t e) evs now)
run_trips c e ((t, fails) ∷ evs) now h s p = ground (arith, run_trips c (fail c t e) evs now)

-- Until the reset timeout has passed since the last failure, an open breaker refuses every
-- request, and neither requests nor late successes change it.
pub opened_waits :
    (c : ConfigState) (e : CircuitBreakerEntry) (last : ℕ) (times : List ℕ)
    → e.state ≡ opened
    → e.last_failure_time ≡ some last
    → All (λ now. now - last < from_secs c.reset_timeout_secs) times
    → (admitted c e times ≡ 0)
      × (run c e (map (λ now. (now, allows)) times) ≡ e)
      × (run c e (map (λ now. (now, succeeds)) times) ≡ e)
unfolding admitted run step allow succeed
opened_waits c e last [] s l h = (refl, refl, refl)
opened_waits c e last (now ∷ times) s l (h, hs) = ground (arith, opened_waits c e last times s l hs)

closed_ignores_successes :
    (c : ConfigState) (e : CircuitBreakerEntry) (times : List ℕ)
    → e.state ≡ closed
    → run c e (map (λ now. (now, succeeds)) times) ≡ e
unfolding run step succeed
closed_ignores_successes c e [] s = refl
closed_ignores_successes c e (now ∷ times) s = ground (arith, closed_ignores_successes c e times)

-- In a half-open breaker with a clamped configuration and fewer successes than the configured
-- number, successes close the circuit exactly when they make up that number, and closing
-- forgets the failures.
pub recovers :
    (c : ConfigState) (e : CircuitBreakerEntry) (times : List ℕ)
    → IsClamped c
    → e.state ≡ half_open
    → e.success_count_half_open < c.half_open_max_requests
    → let e' = run c e (map (λ now. (now, succeeds)) times) in
      (c.half_open_max_requests ≤ e.success_count_half_open + length times
        → (e'.state ≡ closed) × (e'.failure_count ≡ 0) × (e'.in_flight_probes ≡ 0))
      × (e.success_count_half_open + length times < c.half_open_max_requests → e'.state ≡ half_open)
unfolding run step succeed
recovers c e [] h s p = (λ q. absurd (omega arith), λ q. s)
recovers c e (now ∷ times) h s p =
    ground (
      arith,
      recovers c (succeed c now e) times,
      closed_ignores_successes c (succeed c now e) times,
    )
