-- ===== src/Gateway/RetryPolicy/Attempts.antt =====
-- How often a request is sent, and which answer it gets.
use xira_net.Common.{
  ℕ, zero, suc, ◌+◌, ◌≤◌, ◌<◌, ◌≡◌, refl, ap, ◌∙◌, ◌⊎◌, inl, inr, Bool, true, false, ◌&&◌, List, [],
  ◌∷◌, arith, Bool-cases, nat_eq, text_eq,
}
use xira_net.Gateway.RetryPolicy.{
  RetryPolicy, Method, Headers, Answer, is_request_retryable, is_transient, jittered, attempts_from,
  execute,
}

-- Attempt `n` is the last of those from `first` on: it is the first whose answer is not transient, or
-- no attempt is left, or the request may not be sent again.
pub record IsLast (send : ℕ → Answer) (retryable : Bool) (left first n : ℕ) : Type 0 where
  pub at_most : n ≤ left
  pub before : (i : ℕ) → i < n → (retryable ≡ true) × (is_transient (send (first + i)) ≡ true)
  pub stops : (n ≡ left) ⊎ (retryable ≡ false) ⊎ (is_transient (send (first + n)) ≡ false)

-- The pauses are the jitter of the delays, which back off.
pub pauses_from : (ℕ → ℕ) → (ℕ → ℕ → ℕ) → ℕ → ℕ → ℕ → List ℕ
pauses_from backoff jitter attempt delay zero = []
pauses_from backoff jitter attempt delay (suc n) =
    jittered jitter (suc attempt) delay ∷ pauses_from backoff jitter (suc attempt) (backoff delay) n

both : (a b : Bool) → (a && b) ≡ true → (a ≡ true) × (b ≡ true)
both true b e = (refl, e)
both false b e = absurd (ground arith)

first_before :
    (send : ℕ → Answer) (retryable : Bool) (left first n : ℕ)
    → (retryable && is_transient (send first)) ≡ true
    → IsLast send retryable left (suc first) n
    → (i : ℕ) → i < suc n
    → (retryable ≡ true) × (is_transient (send (first + i)) ≡ true)
first_before send retryable left first n y l zero h =
    let at : first + 0 ≡ first = omega arith in rw at (both _ _ y)
first_before send retryable left first n y l (suc i) h =
    let at : first + suc i ≡ suc first + i = omega arith in rw at (l.before i (omega (arith, h)))

stops_later :
    (send : ℕ → Answer) (retryable : Bool) (left first n : ℕ)
    → (n ≡ left) ⊎ (retryable ≡ false) ⊎ (is_transient (send (suc first + n)) ≡ false)
    → (suc n ≡ suc left) ⊎ (retryable ≡ false) ⊎ (is_transient (send (first + suc n)) ≡ false)
stops_later send retryable left first n (inl e) = inl (ap suc e)
stops_later send retryable left first n (inr (inl e)) = inr (inl e)
stops_later send retryable left first n (inr (inr e)) =
    let at : first + suc n ≡ suc first + n = omega arith in inr (inr (rw at e))

stops_here :
    (send : ℕ → Answer) (retryable : Bool) (left first : ℕ)
    → (retryable && is_transient (send first)) ≡ false
    → (0 ≡ left) ⊎ (retryable ≡ false) ⊎ (is_transient (send (first + 0)) ≡ false)
stops_here send false left first e = inr (inl refl)
stops_here send true left first e = let at : first + 0 ≡ first = omega arith in inr (inr (rw at e))

next-IsLast :
    (send : ℕ → Answer) (retryable : Bool) (left first n : ℕ)
    → (retryable && is_transient (send first)) ≡ true
    → IsLast send retryable left (suc first) n
    → IsLast send retryable (suc left) first (suc n)
next-IsLast send retryable left first n y l = record {
  at_most = omega (arith, l.at_most);
  before = first_before send retryable left first n y l;
  stops = stops_later send retryable left first n l.stops;
}

attempts_from_lem :
    (backoff : ℕ → ℕ) (send : ℕ → Answer) (jitter : ℕ → ℕ → ℕ) (retryable : Bool)
    (left first delay : ℕ)
    → let r = attempts_from backoff send jitter retryable left first delay in
      (n : ℕ) × IsLast send retryable left first n
      × (r.answer ≡ send (first + n))
      × (r.sent ≡ suc n)
      × (r.pauses ≡ pauses_from backoff jitter first delay n)
unfolding attempts_from pauses_from
attempts_from_lem backoff send jitter retryable zero first delay = (
  0,
  record { at_most = omega arith; before = λ i h. absurd (omega arith); stops = inl refl },
  ap send (omega arith),
  refl,
  refl,
)
attempts_from_lem backoff send jitter retryable (suc left) first delay =
    elim (Bool-cases (retryable && is_transient (send first))) [
      | inl y ↦
          let (n, l, a, k, ps) =
            attempts_from_lem backoff send jitter retryable left (suc first) (backoff delay) in
          rw y (
            suc n,
            next-IsLast send retryable left first n y l,
            a ∙ ap send (omega arith),
            ap suc k,
            ap (λ (xs : List ℕ). jittered jitter (suc first) delay ∷ xs) ps,
          )
      | inr stays ↦ rw stays (
        0,
        record {
          at_most = omega arith;
          before = λ i h. absurd (omega arith);
          stops = stops_here send retryable _ first stays;
        },
        ap send (omega arith),
        refl,
        refl,
      )
    ]

-- execute sends a request at most once more than max_retries, stops at the first answer that is
-- not transient, gives the answer of the last sending, and pauses by the jitter of each delay
-- between two; a request that may not be sent again is sent once.
pub execute_lem :
    (p : RetryPolicy) (send : ℕ → Answer) (jitter : ℕ → ℕ → ℕ) (method : Method) (headers : Headers)
    → let r = execute p send jitter method headers in
      (n : ℕ) × IsLast send (is_request_retryable method headers) p.max_retries 0 n
      × (r.answer ≡ send n)
      × (r.sent ≡ suc n)
      × (r.pauses ≡ pauses_from p.backoff jitter 0 p.initial_delay n)
unfolding execute
execute_lem p send jitter method headers =
    let (n, l, a, k, ps) =
      attempts_from_lem p.backoff send jitter (is_request_retryable method headers) p.max_retries 0
        p.initial_delay in
    (n, l, a ∙ ap send (omega arith), k, ps)
