-- ===== src/Gateway/RequestQueue.antt =====
-- src/gateway/request_queue.rs: the counters of the queue. Waits are in floating point: their type and
-- their mean are parameters. The semaphore of tokio decides who gets a permit; a request that asks for
-- one with a free semaphore, or waits for one, is the same to the counters.
pub mod Depth
use xira_net.Common.{
  ℕ, ◌+◌, ◌*◌, ◌-◌, ◌%◌, Bool, true, false, List, [], ◌∷◌, ◌++◌, length, drop, add64, u64_max, max,
  ltb, if◌then◌else◌,
}

pub record QueueStats (Ms : Type 0) : Type 0 where
  pub queued : ℕ
  pub processed : ℕ
  pub rejected : ℕ
  pub max_queue_depth : ℕ
  pub current_depth : ℕ
  pub avg_wait_ms : Ms
  pub wait_times : List Ms

-- `x -= 1` on 64 bits.
abbrev pub decrement : ℕ → ℕ
decrement x = add64 x u64_max

module _ {Ms : Type 0} (zero_ms : Ms) (mean : List Ms → Ms) where
  -- `QueueStats::default()`.
  abbrev pub no_stats : QueueStats Ms
  no_stats = record {
    queued = 0;
    processed = 0;
    rejected = 0;
    max_queue_depth = 0;
    current_depth = 0;
    avg_wait_ms = zero_ms;
    wait_times = [];
  }

  abbrev pub counted : QueueStats Ms → QueueStats Ms
  counted s = record s {
    queued = add64 s.queued 1;
    current_depth = add64 s.current_depth 1;
    max_queue_depth =
        if ltb s.max_queue_depth (add64 s.current_depth 1)
        then add64 s.current_depth 1
        else s.max_queue_depth;
  }

  abbrev pub turned_away : QueueStats Ms → QueueStats Ms
  turned_away s = record s {
    rejected = add64 s.rejected 1;
    current_depth = decrement s.current_depth;
  }

  -- The first lock of `acquire` when the queue is on: whether the request may wait.
  unfoldable pub enqueue : ℕ → QueueStats Ms → Bool × QueueStats Ms
  enqueue max_concurrent s =
      if ltb ((max_concurrent * 2) % 18446744073709551616) (counted s).current_depth
      then (false, turned_away (counted s))
      else (true, counted s)

  -- The second lock of `acquire`, after 30 seconds without a permit.
  unfoldable pub time_out : QueueStats Ms → QueueStats Ms
  time_out s = turned_away s

  abbrev pub last_hundred : List Ms → List Ms
  last_hundred times = if ltb 100 (length times) then drop 1 times else times

  -- The task that dropping a permit leaves behind.
  unfoldable pub settle : Ms → QueueStats Ms → QueueStats Ms
  settle wait_ms s =
      let times = last_hundred (s.wait_times ++ wait_ms ∷ []) in
      record s {
        processed = add64 s.processed 1;
        current_depth = s.current_depth - 1;
        wait_times = times;
        avg_wait_ms = mean times;
      }
