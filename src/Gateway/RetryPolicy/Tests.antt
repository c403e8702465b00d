-- ===== src/Gateway/RetryPolicy/Tests.antt =====
-- Runs of the retry policy, and the theorem at a concrete upstream.
use xira_net.Common.{ℕ, zero, suc, ◌*◌, ◌/◌, ◌≡◌, refl, true, false, [], ◌∷◌, nat_eq, text_eq}
use xira_net.Gateway.RetryPolicy.{
  RetryPolicy, Answer, response, failure, put, post, execute, is_request_retryable, Headers,
  attempts_from, method_is_retryable, is_transient,
}
use xira_net.Gateway.RetryPolicy.Attempts.{IsLast, pauses_from, execute_lem}

abbrev doubling : RetryPolicy
doubling = record { max_retries = 3; initial_delay = 100; backoff = λ d. d * 2 }

abbrev with_key : Headers
with_key = record { idempotency_key = true; x_idempotency_key = false }

-- A timeout, then an overloaded upstream, then success.
abbrev flaky : ℕ → Answer
flaky zero = failure false true
flaky (suc zero) = response 503
flaky (suc (suc n)) = response 200

abbrev half : ℕ → ℕ → ℕ
half attempt delay = delay / 2

put_test :
    execute doubling flaky half put with_key
    ≡ record { answer = response 200; sent = 3; pauses = 50 ∷ 100 ∷ [] }
unfolding execute attempts_from is_request_retryable method_is_retryable is_transient
put_test = refl

post_test :
    execute doubling flaky half post with_key
    ≡ record { answer = failure false true; sent = 1; pauses = [] }
unfolding execute attempts_from is_request_retryable method_is_retryable is_transient
post_test = refl

execute_lem_example :
    let r = execute doubling flaky half put with_key in
    (n : ℕ) × IsLast flaky (is_request_retryable put with_key) 3 0 n
    × (r.answer ≡ flaky n)
    × (r.sent ≡ suc n)
    × (r.pauses ≡ pauses_from (λ d. d * 2) half 0 100 n)
execute_lem_example = execute_lem doubling flaky half put with_key
