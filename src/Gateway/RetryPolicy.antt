-- ===== src/Gateway/RetryPolicy.antt =====
-- src/gateway/retry.rs: sending a request again after a failure, with jitter. What the upstream
-- answers to each attempt (`reqwest`) is a function of the attempt; so are the random numbers of the
-- jitter, and the multiplication of a delay by the factor, which is in floating point. Delays are in
-- milliseconds.
pub mod Attempts
mod Tests
use xira_net.Common.{
  ℕ, zero, suc, Bool, true, false, ◌&&◌, ◌||◌, List, [], ◌∷◌, ltb, leb, if◌then◌else◌, nat_eq,
  text_eq,
}

pub record RetryPolicy : Type 0 where
  pub max_retries : ℕ  -- u32
  pub initial_delay : ℕ
  pub backoff : ℕ → ℕ

pub data Method : Type 0 where
  get head options put delete post patch other : Method

-- Whether a request has the headers `idempotency-key` and `x-idempotency-key`.
pub record Headers : Type 0 where
  pub idempotency_key : Bool
  pub x_idempotency_key : Bool

-- What `send` gives: a status, or an error of which the kind is asked.
pub data Answer : Type 0 where
  response : (status : ℕ) → Answer
  failure : (is_connect is_timeout : Bool) → Answer

unfoldable pub method_is_retryable : Method → Bool
method_is_retryable get = true
method_is_retryable head = true
method_is_retryable options = true
method_is_retryable _ = false

abbrev pub is_put_or_delete : Method → Bool
is_put_or_delete put = true
is_put_or_delete delete = true
is_put_or_delete _ = false

unfoldable pub is_request_retryable : Method → Headers → Bool
is_request_retryable method headers =
    if method_is_retryable method
    then true
    else is_put_or_delete method && (headers.idempotency_key || headers.x_idempotency_key)

-- The answers after which a request is sent again, if attempts are left.
unfoldable pub is_transient : Answer → Bool
is_transient (response status) = leb 500 status && leb status 599
is_transient (failure is_connect is_timeout) = is_connect || is_timeout

-- How a request went: the last answer, the number of sendings, and the pauses between them.
pub record Outcome : Type 0 where
  pub answer : Answer
  pub sent : ℕ
  pub pauses : List ℕ

-- A random pause of up to the delay, if there is a delay.
abbrev pub jittered : (ℕ → ℕ → ℕ) → ℕ → ℕ → ℕ
jittered jitter attempt delay = if ltb 0 delay then jitter attempt delay else 0

-- The loop of `execute`, with the attempts that are left after this one.
module _ (backoff : ℕ → ℕ) (send : ℕ → Answer) (jitter : ℕ → ℕ → ℕ) where
  unfoldable pub attempts_from : Bool → ℕ → ℕ → ℕ → Outcome
  attempts_from retryable zero attempt delay = record {
    answer = send attempt;
    sent = 1;
    pauses = [];
  }
  attempts_from retryable (suc left) attempt delay =
      let rest = attempts_from retryable left (suc attempt) (backoff delay) in
      let again : Outcome = record {
        answer = rest.answer;
        sent = suc rest.sent;
        pauses = jittered jitter (suc attempt) delay ∷ rest.pauses;
      } in
      if retryable && is_transient (send attempt)
      then again
      else record { answer = send attempt; sent = 1; pauses = [] }

unfoldable pub execute : RetryPolicy → (ℕ → Answer) → (ℕ → ℕ → ℕ) → Method → Headers → Outcome
execute p send jitter method headers =
    attempts_from p.backoff send jitter (is_request_retryable method headers) p.max_retries 0
      p.initial_delay
