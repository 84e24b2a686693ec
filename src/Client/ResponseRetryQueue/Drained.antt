-- ===== src/Client/ResponseRetryQueue/Drained.antt =====
-- pkg/client/response_retry_queue.go: what `Drain` takes and leaves, and the bound of the queue.
use xyncra_server.Common.{
  ℕ, ◌≤◌, ◌<◌, ◌≡◌, refl, ap, Bool, not, ◌&&◌, some, List, [], ◌∷◌, ◌++◌, inl, inr, arith, length,
  length-append, keep, leb, ltb, Bool-cases,
}
use xyncra_server.Client.ResponseRetryQueue.{
  ResponseRetryEntry, ResponseRetryQueue, appended, enqueue, drain_loop, drain,
}

module _ {Response : Type 0} where
  -- Whether an entry's time is yet to come, and whether it is due with attempts left.
  abbrev pub is_waiting : ℕ → ResponseRetryEntry Response → Bool
  is_waiting now e = ltb now e.next_retry

  abbrev pub is_due : ℕ → ResponseRetryEntry Response → Bool
  is_due now e = not (ltb now e.next_retry) && ltb e.attempts e.max_retry

  drain_loop-keep :
      (now : ℕ) (es : List (ResponseRetryEntry Response))
      → drain_loop now es ≡ (keep (is_waiting now) es, keep (is_due now) es)
  unfolding drain_loop
  drain_loop-keep now [] = refl
  drain_loop-keep now (e ∷ es) = ground (arith, drain_loop-keep now es)

  -- `Drain` returns, in the order of the queue, the entries whose time has come and that have attempts
  -- left, and leaves those whose time is yet to come, so that the spent ones among the due are dropped.
  pub drain-keep :
      (now : ℕ) (q : ResponseRetryQueue Response)
      → drain now q
        ≡ (record q { entries = keep (is_waiting now) q.entries }, keep (is_due now) q.entries)
  unfolding drain
  drain-keep now q =
      ap
        (λ (p : List (ResponseRetryEntry Response) × List (ResponseRetryEntry Response)).
          (record q { entries = p.0 }, p.1))
        (drain_loop-keep now q.entries)

  -- `Enqueue` into a queue of positive size that is within it succeeds, and leaves the queue within it.
  pub enqueue-le :
      (now : ℕ) (resp : Response) (q : ResponseRetryQueue Response)
      → 0 < q.max_size
      → length q.entries ≤ q.max_size
      → (q' : ResponseRetryQueue Response) × (enqueue now resp q ≡ some q')
        × (q'.max_size ≡ q.max_size)
        × (length q'.entries ≤ q.max_size)
  unfolding enqueue appended
  enqueue-le now resp q size within = go q.entries within
    where
      e : ResponseRetryEntry Response
      e = record { resp = resp; attempts = 0; max_retry = q.max_retry; next_retry = now }

      go :
          (es : List (ResponseRetryEntry Response))
          → length es ≤ q.max_size
          → (q' : ResponseRetryQueue Response) × (appended q e es ≡ some q')
            × (q'.max_size ≡ q.max_size)
            × (length q'.entries ≤ q.max_size)
      go [] h = (record q { entries = e ∷ [] }, ground arith, refl, omega arith)
      go (x ∷ xs) h = elim (Bool-cases (leb q.max_size (length (x ∷ xs)))) [
        | inl full ↦ rw full (
          record q { entries = xs ++ e ∷ [] },
          refl,
          refl,
          omega (arith, length-append xs (e ∷ [])),
        )
        | inr space ↦ rw space (
          record q { entries = x ∷ xs ++ e ∷ [] },
          refl,
          refl,
          ground (arith, length-append xs (e ∷ [])),
        )
      ]
