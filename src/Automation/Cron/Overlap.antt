-- ===== src/Automation/Cron/Overlap.antt =====
-- A job does not run twice at a time.
use xira_net.Common.{
  ℕ, ◌≡◌, sym, ap, ◌∙◌, subst, ◌≢◌, inl, inr, Bool, true, false, ◌||◌, List, [], ◌∷◌, arith, Text,
  ◌==◌, ==_iff, any, In, Bool-cases, nat_eq, text_eq,
}
use xira_net.Automation.Cron.{CronJob, CronScheduler, starts, start_due, begin_tick}

-- The job with this id runs.
abbrev pub runs : List Text → Text → Bool
runs in_flight id = any (λ t. t == id) in_flight

abbrev pub ids : List (Text × Text × Text) → List Text
ids [] = []
ids ((id, url, method) ∷ due) = id ∷ ids due

or-true : (a : Bool) → (a || true) ≡ true
or-true a = ground arith

or_right : (a : Bool) {b : Bool} → (a || b) ≡ false → b ≡ false
or_right a e = ground arith

true-false : true ≢ false
true-false e = ground arith

running_kept :
    (now : ℕ) (jobs : List CronJob) (in_flight : List Text) (id : Text)
    → runs in_flight id ≡ true
    → runs (start_due now in_flight jobs).in_flight id ≡ true
unfolding start_due
running_kept now [] in_flight id r = r
running_kept now (job ∷ jobs) in_flight id r = elim (Bool-cases (starts now in_flight job)) [
  | inl y ↦ rw y (running_kept now jobs (job.id ∷ in_flight) id (rw r (or-true (job.id == id))))
  | inr n ↦ rw n (running_kept now jobs in_flight id r)
]

due_running :
    (now : ℕ) (jobs : List CronJob) (in_flight : List Text) (id : Text)
    → In id (ids (start_due now in_flight jobs).due)
    → runs (start_due now in_flight jobs).in_flight id ≡ true
unfolding start_due
due_running now [] in_flight id i = elim i [ ]
due_running now (job ∷ jobs) in_flight id i = elim (Bool-cases (starts now in_flight job)) [
  | inl y ↦ rw y (elim (rw y at i) [
    | inl same ↦
        running_kept now jobs (job.id ∷ in_flight) id
          (ap (λ b. b || runs in_flight id) ((==_iff job.id id).1 same))
    | inr j ↦ due_running now jobs (job.id ∷ in_flight) id j
  ])
  | inr n ↦ rw n (due_running now jobs in_flight id (rw n at i))
]

starts-idle :
    (now : ℕ) (in_flight : List Text) (job : CronJob)
    → starts now in_flight job ≡ true
    → runs in_flight job.id ≡ false
unfolding starts
starts-idle now in_flight job e = ground arith

due_idle :
    (now : ℕ) (jobs : List CronJob) (in_flight : List Text) (id : Text)
    → In id (ids (start_due now in_flight jobs).due)
    → runs in_flight id ≡ false
unfolding start_due
due_idle now [] in_flight id i = elim i [ ]
due_idle now (job ∷ jobs) in_flight id i = elim (Bool-cases (starts now in_flight job)) [
  | inl y ↦ elim (rw y at i) [
    | inl same ↦
        subst (λ (t : Text). runs in_flight t ≡ false) same (starts-idle now in_flight job y)
    | inr j ↦ or_right (job.id == id) (due_idle now jobs (job.id ∷ in_flight) id j)
  ]
  | inr n ↦ due_idle now jobs in_flight id (rw n at i)
]

-- A tick starts no job that runs already, and what it started is not started by a second tick,
-- at any time, while no run has ended between the two.
pub begin_tick-idle :
    (c : CronScheduler) (now later : ℕ) (id : Text)
    → let (c1, due) = begin_tick c now in
      let (c2, due_later) = begin_tick c1 later in
      (In id (ids due) → runs c.in_flight id ≡ false)
      × (In id (ids due) → In id (ids due_later) → ⊥)
unfolding begin_tick
begin_tick-idle c now later id = (
  due_idle now c.jobs c.in_flight id,
  λ i j. true-false (
      sym (due_running now c.jobs c.in_flight id i)
      ∙ due_idle later (start_due now c.in_flight c.jobs).jobs
          (start_due now c.in_flight c.jobs).in_flight id j),
)
