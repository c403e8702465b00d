-- ===== src/Automation/Cron.antt =====
-- src/automation/cron.rs: schedules, and a tick of the scheduler in the two steps that it takes under
-- the lock of the jobs: starting those that are due, and noting an outcome. The HTTP call between
-- them is left out. Times are in seconds.
pub mod Schedule
pub mod Overlap
mod Tests
use xira_net.Common.{
  ℕ, ◌+◌, ◌-◌, ◌*◌, ◌%◌, min, max, Bool, true, not, ◌&&◌, ◌||◌, Option, none, some, List, [], ◌∷◌,
  ◌++◌, Text, ◌==◌, length, any, retain, u64_max, saturating_inc64, add64, ltb, if◌then◌else◌,
  nat_eq, text_eq,
}

pub data CronSchedule : Type 0 where
  every_seconds : ℕ → CronSchedule
  every_minutes : ℕ → CronSchedule
  every_hours : ℕ → CronSchedule
  daily : (hour minute : ℕ) → CronSchedule
  custom : Text → CronSchedule

pub record CronJob : Type 0 where
  pub id : Text
  pub name : Text
  pub schedule : CronSchedule
  pub url : Text
  pub method : Text
  pub headers : List (Text × Text)
  pub body : Option Text
  pub enabled : Bool
  pub last_run : ℕ
  pub next_run : ℕ
  pub run_count : ℕ
  pub last_status : Option ℕ
  pub failure_count : ℕ

-- `persisted` logs the rows written to storage, newest first.
pub record CronScheduler : Type 0 where
  pub jobs : List CronJob
  pub in_flight : List Text
  pub persisted : Option (List CronJob)

-- A release build multiplies on `u64` with wrap-around.
unfoldable pub interval_secs : CronSchedule → ℕ
interval_secs (every_seconds s) = max s 1
interval_secs (every_minutes m) = max m 1 * 60 % 18446744073709551616
interval_secs (every_hours h) = max h 1 * 3600 % 18446744073709551616
interval_secs (daily hour minute) = 86400
interval_secs (custom _) = 3600

unfoldable pub next_after : CronSchedule → ℕ → ℕ
next_after (daily hour minute) now =
    let day_start = now - now % 86400 in
    let target_today = add64 (add64 day_start (hour * 3600)) (minute * 60) in
    if ltb now target_today then target_today else add64 target_today 86400
next_after other now = min (now + interval_secs other) u64_max

unfoldable pub persist_job : CronJob → Option (List CronJob) → Option (List CronJob)
persist_job job none = none
persist_job job (some rows) = some (job ∷ rows)

unfoldable pub add_job :
    CronScheduler → Text → ℕ → Text → CronSchedule → Text → Text → CronScheduler
add_job c id now name schedule url method =
    let job : CronJob = record {
      id = id;
      name = name;
      schedule = schedule;
      url = url;
      method = method;
      headers = [];
      body = none;
      enabled = true;
      last_run = 0;
      next_run = next_after schedule now;
      run_count = 0;
      last_status = none;
      failure_count = 0;
    } in
    record c { jobs = c.jobs ++ job ∷ []; persisted = persist_job job c.persisted }

-- The job is run at this tick: it is enabled, due, and not running.
unfoldable pub starts : ℕ → List Text → CronJob → Bool
starts now in_flight job =
    not (not job.enabled || ltb now job.next_run) && not (any (λ t. t == job.id) in_flight)

pub record Started : Type 0 where
  pub jobs : List CronJob
  pub in_flight : List Text
  pub due : List (Text × Text × Text)

-- The loop over the jobs, under the lock.
unfoldable pub start_due : ℕ → List Text → List CronJob → Started
start_due now in_flight [] = record { jobs = []; in_flight = in_flight; due = [] }
start_due now in_flight (job ∷ jobs) =
    let with_job = start_due now (job.id ∷ in_flight) jobs in
    let without = start_due now in_flight jobs in
    if starts now in_flight job
    then record {
      jobs = record job { next_run = next_after job.schedule now } ∷ with_job.jobs;
      in_flight = with_job.in_flight;
      due = (job.id, job.url, job.method) ∷ with_job.due;
    }
    else record without { jobs = job ∷ without.jobs }

unfoldable pub begin_tick : CronScheduler → ℕ → CronScheduler × List (Text × Text × Text)
begin_tick c now =
    let r = start_due now c.in_flight c.jobs in
    (record c { jobs = r.jobs; in_flight = r.in_flight }, r.due)

-- A run ended, in any way.
unfoldable pub end_run : CronScheduler → Text → CronScheduler
end_run c id = record c { in_flight = retain (λ t. not (t == id)) c.in_flight }

pub data RunOutcome : Type 0 where
  answered : (status : ℕ) (success : Bool) → RunOutcome
  failed : RunOutcome

unfoldable pub note_outcome : ℕ → RunOutcome → CronJob → CronJob
note_outcome now (answered status success) job = record job {
  last_run = now;
  run_count = saturating_inc64 job.run_count;
  last_status = some status;
  failure_count = if success then job.failure_count else saturating_inc64 job.failure_count;
}
note_outcome now failed job = record job {
  last_run = now;
  run_count = saturating_inc64 job.run_count;
  failure_count = saturating_inc64 job.failure_count;
}

-- The first job with the id, and its row; a job that was removed meanwhile is passed over.
unfoldable pub apply_outcome :
    ℕ
    → Text
    → RunOutcome
    → List CronJob
    → Option (List CronJob)
    → List CronJob × Option (List CronJob)
apply_outcome now id outcome [] rows = ([], rows)
apply_outcome now id outcome (job ∷ jobs) rows =
    let rest = apply_outcome now id outcome jobs rows in
    let noted = note_outcome now outcome job in
    if job.id == id then (noted ∷ jobs, persist_job noted rows) else (job ∷ rest.0, rest.1)

unfoldable pub end_tick : CronScheduler → ℕ → Text → RunOutcome → CronScheduler
end_tick c now id outcome =
    let (jobs, rows) = apply_outcome now id outcome c.jobs c.persisted in
    record c { jobs = jobs; persisted = rows }

-- The row that is deleted from storage is not among the rows logged.
unfoldable pub remove_job : CronScheduler → Text → Bool × CronScheduler
remove_job c id =
    let jobs = retain (λ job. not (job.id == id)) c.jobs in
    (
      ltb (length jobs) (length c.jobs),
      record c { jobs = jobs; in_flight = retain (λ t. not (t == id)) c.in_flight },
    )
