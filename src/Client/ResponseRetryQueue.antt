-- ===== src/Client/ResponseRetryQueue.antt =====
-- pkg/client/response_retry_queue.go. A time is a number of nanoseconds. Taking `entries[1:]` of an
-- empty slice panics: there the result is none.
pub mod Drained
use xyncra_server.Common.{
  ℕ, ◌+◌, ◌-◌, ◌*◌, ◌%◌, ◌^◌, Option, none, some, List, [], ◌∷◌, ◌++◌, length, leb, ltb,
  if◌then◌else◌,
}

-- An entry of the queue; `Response` is the type of the responses that are sent again.
pub record ResponseRetryEntry (Response : Type 0) : Type 0 where
  pub resp : Response
  pub attempts : ℕ
  pub max_retry : ℕ
  pub next_retry : ℕ

pub record ResponseRetryQueue (Response : Type 0) : Type 0 where
  pub entries : List (ResponseRetryEntry Response)
  pub max_size : ℕ
  pub max_retry : ℕ

-- One second, doubled with each attempt, and 16 seconds at most, after `now`. The delay is an int64:
-- past 33 attempts it wraps round, and may be negative. A time before 1970 counts as 0.
unfoldable pub next_after : ℕ → ℕ → ℕ
next_after now attempts =
    let delay : ℕ = (1_000_000_000 * 2 ^ attempts) % 2 ^ 64 in
    if leb (2 ^ 63) delay
    then now - (2 ^ 64 - delay)
    else if ltb 16_000_000_000 delay
    then now + 16_000_000_000
    else now + delay

module _ {Response : Type 0} where
  -- The oldest entry goes where the queue is full.
  unfoldable pub appended :
      ResponseRetryQueue Response
      → ResponseRetryEntry Response
      → List (ResponseRetryEntry Response)
      → Option (ResponseRetryQueue Response)
  appended q e [] = if leb q.max_size 0 then none else some (record q { entries = e ∷ [] })
  appended q e (x ∷ xs) =
      if leb q.max_size (length (x ∷ xs))
      then some (record q { entries = xs ++ e ∷ [] })
      else some (record q { entries = x ∷ xs ++ e ∷ [] })

  unfoldable pub enqueue :
      ℕ → Response → ResponseRetryQueue Response → Option (ResponseRetryQueue Response)
  unfolding appended
  enqueue now resp q =
      appended q (record { resp = resp; attempts = 0; max_retry = q.max_retry; next_retry = now })
        q.entries

  unfoldable pub enqueue_with_backoff :
      ℕ
      → ResponseRetryEntry Response
      → ResponseRetryQueue Response
      → Option (ResponseRetryQueue Response)
  unfolding appended next_after
  enqueue_with_backoff now e q =
      appended q (record e { next_retry = next_after now e.attempts }) q.entries

  -- The loop of `Drain`: what remains, and what is drained.
  unfoldable pub drain_loop :
      ℕ
      → List (ResponseRetryEntry Response)
      → List (ResponseRetryEntry Response) × List (ResponseRetryEntry Response)
  drain_loop now [] = ([], [])
  drain_loop now (e ∷ es) =
      let (remaining, drained) = drain_loop now es in
      if ltb now e.next_retry
      then (e ∷ remaining, drained)
      else if leb e.max_retry e.attempts
      then (remaining, drained)
      else (remaining, e ∷ drained)

  unfoldable pub drain :
      ℕ
      → ResponseRetryQueue Response
      → ResponseRetryQueue Response × List (ResponseRetryEntry Response)
  unfolding drain_loop
  drain now q =
      let (remaining, drained) = drain_loop now q.entries in
      (record q { entries = remaining }, drained)
