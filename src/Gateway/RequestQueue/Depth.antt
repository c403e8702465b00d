-- ===== src/Gateway/RequestQueue/Depth.antt =====
-- The depth of the queue and the waits that it remembers.
use xira_net.Common.{
  ℕ, ◌-◌, ◌*◌, ◌%◌, ◌≤◌, ◌<◌, ◌≡◌, refl, inl, inr, List, [], ◌∷◌, ◌++◌, arith, length, drop,
  length-append, u64_max, add64, ltb, Bool-cases, nat_eq, text_eq,
}
use xira_net.Gateway.RequestQueue.{QueueStats, no_stats, enqueue, time_out, last_hundred, settle}

module _ {Ms : Type 0} (zero_ms : Ms) (mean : List Ms → Ms) (max_concurrent : ℕ) where
  -- The states of a queue that is on, a lock of the counters at a time. Only a request that was
  -- counted times out.
  pub data Reaches : QueueStats Ms → Type 0 where
    starts : Reaches (no_stats zero_ms mean)
    arrives : (s : QueueStats Ms) → Reaches s → Reaches (enqueue zero_ms mean max_concurrent s).1
    times_out :
        (s : QueueStats Ms) → 0 < s.current_depth → Reaches s → Reaches (time_out zero_ms mean s)
    settles :
        (s : QueueStats Ms) (wait_ms : Ms) → Reaches s → Reaches (settle zero_ms mean wait_ms s)

  abbrev IsBounded : QueueStats Ms → Type 0
  IsBounded s = (s.current_depth ≤ max_concurrent * 2) × (length s.wait_times ≤ 100)

  length-drop : (times : List Ms) → length (drop 1 times) ≡ length times - 1
  length-drop [] = refl
  length-drop (t ∷ ts) = omega arith

  length-last_hundred :
      (times : List Ms) → length times ≤ 101 → length (last_hundred zero_ms mean times) ≤ 100
  length-last_hundred times h = elim (Bool-cases (ltb 100 (length times))) [
    | inl long ↦ rw long (omega (arith, h, length-drop times))
    | inr short ↦ rw short (ground (arith, short))
  ]

  enqueue-IsBounded :
      (s : QueueStats Ms)
      → max_concurrent * 2 < u64_max
      → IsBounded s
      → IsBounded (enqueue zero_ms mean max_concurrent s).1
  unfolding enqueue
  enqueue-IsBounded s room b =
      elim (Bool-cases
        (ltb ((max_concurrent * 2) % 18446744073709551616) (add64 s.current_depth 1))) [
          | inl full ↦ rw full (omega (arith, room, b.0), b.1)
          | inr free ↦ rw free (ground (arith, free, room), b.1)
        ]

  -- In every state that a queue which is on reaches, at most twice as many requests as may run are counted, and at most a hundred waits are kept, if twice the number that may run is below the greatest number of 64 bits.
  Reaches-IsBounded :
      (s : QueueStats Ms)
      → max_concurrent * 2 < u64_max
      → Reaches s
      → (s.current_depth ≤ max_concurrent * 2) × (length s.wait_times ≤ 100)
  unfolding time_out settle
  Reaches-IsBounded _ room starts = (omega arith, omega arith)
  Reaches-IsBounded _ room (arrives s r) = enqueue-IsBounded s room (Reaches-IsBounded s room r)
  Reaches-IsBounded _ room (times_out s pos r) =
      let b = Reaches-IsBounded s room r in (omega (arith, pos, room, b.0), b.1)
  Reaches-IsBounded _ room (settles s ms r) =
      let b = Reaches-IsBounded s room r in
      (
        omega (arith, b.0),
        length-last_hundred (s.wait_times ++ ms ∷ [])
            (omega (arith, b.1, length-append s.wait_times (ms ∷ []))),
      )
