-- ===== src/Automation/Cron/Tests.antt =====
-- The theorems about the scheduler at concrete jobs.
use xira_net.Common.{◌≡◌, refl, false, none, [], ◌∷◌, codes, In, nat_eq, text_eq}
use xira_net.Automation.Cron.{
  CronScheduler, add_job, begin_tick, every_seconds, next_after, starts, start_due, interval_secs,
}
use xira_net.Automation.Cron.Overlap.{ids, runs, begin_tick-idle}

abbrev two_jobs : CronScheduler
two_jobs =
    add_job
      (add_job (record { jobs = []; in_flight = codes "b" ∷ []; persisted = none }) (codes "a") 100
        (codes "ping") (every_seconds 5) (codes "http://a") (codes "GET"))
      (codes "b") 100 (codes "sync") (every_seconds 5) (codes "http://b") (codes "POST")

-- The second job still runs.
begin_tick_test : ids (begin_tick two_jobs 200).1 ≡ codes "a" ∷ []
unfolding begin_tick start_due starts add_job next_after interval_secs
begin_tick_test = refl

begin_tick-idle_example :
    (In (codes "a") (ids (begin_tick two_jobs 200).1) → runs two_jobs.in_flight (codes "a") ≡ false)
    × (In (codes "a") (ids (begin_tick two_jobs 200).1)
        → In (codes "a") (ids (begin_tick (begin_tick two_jobs 200).0 300).1)
        → ⊥)
begin_tick-idle_example = begin_tick-idle two_jobs 200 300 (codes "a")
