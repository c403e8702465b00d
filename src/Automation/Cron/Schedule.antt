-- ===== src/Automation/Cron/Schedule.antt =====
-- When a schedule runs next.
use xira_net.Common.{ℕ, ◌+◌, ◌*◌, ◌%◌, ◌≤◌, ◌<◌, ◌≡◌, arith, nat_eq, text_eq}
use xira_net.Automation.Cron.{daily, next_after}

-- A daily job with a valid hour and minute runs next at that hour and minute, after now and at
-- most a day later, as long as times stay below 2^63.
pub next_after-daily :
    (hour minute now : ℕ)
    → hour < 24
    → minute < 60
    → now < 9223372036854775808
    → let next = next_after (daily hour minute) now in
      (now < next) × (next ≤ now + 86400) × (next % 86400 ≡ hour * 3600 + minute * 60)
unfolding next_after
next_after-daily hour minute now h m l = ground arith
