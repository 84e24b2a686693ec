-- ===== src/Agent/Semaphore.antt =====
-- internal/agent/semaphore.go: the limit on concurrent executions. The channel is the number of its
-- tokens, which never passes its capacity; each section under the mutex is one step. `active` and
-- `peak` count goroutines and do not reach the end of Go's int; `active` is not 0 where it is decreased.
pub mod Runs
use xyncra_server.Common.{
  ℕ, suc, ◌+◌, ◌-◌, ◌%◌, ◌^◌, Option, none, some, ltb, ◌==◌, if◌then◌else◌, ℤ, is_nonpositive, to_ℕ,
}

pub record Semaphore : Type 0 where
  pub capacity : ℕ
  pub ch : ℕ
  pub active : ℕ
  pub peak : ℕ
  pub total_acq : ℕ

unfoldable pub new_semaphore : ℤ → Semaphore
new_semaphore capacity =
    if is_nonpositive capacity
    then record { capacity = 0; ch = 0; active = 0; peak = 0; total_acq = 0 }
    else record { capacity = to_ℕ capacity; ch = 0; active = 0; peak = 0; total_acq = 0 }

-- `s.ch <- struct{}{}`: none where it blocks. A nil channel, of capacity 0, always does.
unfoldable pub send : Semaphore → Option Semaphore
send s = if ltb s.ch s.capacity then some (record s { ch = s.ch + 1 }) else none

-- The section of Acquire under the mutex.
abbrev pub counted : Semaphore → Semaphore
counted s = record s {
  active = s.active + 1;
  peak = if ltb s.peak (s.active + 1) then s.active + 1 else s.peak;
}

-- `atomic.AddInt64(&s.totalAcq, 1)`.
abbrev pub added : Semaphore → Semaphore
added s = record s { total_acq = (s.total_acq + 1) % 2 ^ 64 }

-- `<-s.ch`: none where it blocks.
unfoldable pub receive : Semaphore → Option Semaphore
receive s = if s.ch == 0 then none else some (record s { ch = s.ch - 1 })

-- The section of Release under the mutex.
abbrev pub uncounted : Semaphore → Semaphore
uncounted s = record s { active = s.active - 1 }

abbrev finished : (Semaphore → Semaphore) → Option Semaphore → Option Semaphore
finished f none = none
finished f (some s) = some (f s)

-- Acquire and Release where no other goroutine runs: none where they block. An Acquire that blocks
-- returns the context's error once that is done, and leaves the semaphore.
unfoldable pub acquire : Semaphore → Option Semaphore
unfolding send
acquire s = if s.capacity == 0 then some s else finished (λ t. added (counted t)) (send s)

unfoldable pub release : Semaphore → Option Semaphore
unfolding receive
release s = if s.capacity == 0 then some s else finished uncounted (receive s)

pub record SemaphoreStats : Type 0 where
  pub capacity : ℕ
  pub active : ℕ
  pub peak : ℕ
  pub total_acquired : ℕ

-- A nil receiver has no counts.
abbrev pub stats : Option Semaphore → SemaphoreStats
stats none = record { capacity = 0; active = 0; peak = 0; total_acquired = 0 }
stats (some s) = record {
  capacity = s.capacity;
  active = s.active;
  peak = s.peak;
  total_acquired = s.total_acq;
}
