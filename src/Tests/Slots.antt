-- ===== src/Tests/Slots.antt =====
-- Two goroutines and a semaphore of one slot.
use xyncra_server.Common.{◌≡◌, refl, none, some, pos, arith}
use xyncra_server.Agent.Semaphore.{
  Semaphore, SemaphoreStats, new_semaphore, send, receive, acquire, release, stats,
}
use xyncra_server.Agent.Semaphore.Runs.{
  System, sent, counts, adds, received, start, Reach, here, next, IsCounted, Reach-IsCounted,
  release-acquire,
}

abbrev empty_slot : Semaphore
empty_slot = record { capacity = 1; ch = 0; active = 0; peak = 0; total_acq = 0 }

abbrev taken : Semaphore
taken = record { capacity = 1; ch = 1; active = 1; peak = 1; total_acq = 1 }

acquires : acquire empty_slot ≡ some taken
unfolding acquire send
acquires = refl

-- A second Acquire blocks.
blocks : acquire taken ≡ none
unfolding acquire send
blocks = refl

release-acquire_example :
    (t : Semaphore) × (release taken ≡ some t)
    × (t.ch ≡ empty_slot.ch)
    × (t.active ≡ empty_slot.active)
release-acquire_example = release-acquire empty_slot taken acquires

abbrev held : System
held = record { sem = taken; counting = 0; adding = 0; holding = 1; leaving = 0 }

-- The first has given its token back and is not counted off yet, the second is counted already.
abbrev both_counted : System
both_counted = record {
  sem = record { capacity = 1; ch = 1; active = 2; peak = 2; total_acq = 1 };
  counting = 0;
  adding = 1;
  holding = 0;
  leaving = 1;
}

reaches_held : Reach (start (pos 1)) held
unfolding new_semaphore send
reaches_held =
    next (next (next here (sent (record empty_slot { ch = 1 }) refl)) (counts (omega arith)))
      (adds (omega arith))

-- `active` and `peak` are 2 where the capacity is 1.
reaches_both_counted : Reach (start (pos 1)) both_counted
unfolding send receive
reaches_both_counted =
    next
      (next (next reaches_held (received (record taken { ch = 0 }) (omega arith) refl))
        (sent taken refl))
      (counts (omega arith))

Reach-IsCounted_example : IsCounted both_counted
Reach-IsCounted_example = Reach-IsCounted (pos 1) both_counted reaches_both_counted

abbrev two_at_peak : SemaphoreStats
two_at_peak = record { capacity = 1; active = 2; peak = 2; total_acquired = 1 }

stats_both_counted : stats (some both_counted.sem) ≡ two_at_peak
stats_both_counted = refl
