-- ===== src/Tests/Retries.antt =====
-- The retry queue with one entry due, one spent and one waiting.
use xyncra_server.Common.{ℕ, ◌≤◌, ◌≡◌, some, [], ◌∷◌, arith, length}
use xyncra_server.Client.ResponseRetryQueue.{ResponseRetryEntry, ResponseRetryQueue, drain, enqueue}
use xyncra_server.Client.ResponseRetryQueue.Drained.{drain-keep, enqueue-le}

abbrev entry : ℕ → ℕ → ResponseRetryEntry ℕ
entry attempts next_retry = record {
  resp = 7;
  attempts = attempts;
  max_retry = 3;
  next_retry = next_retry;
}

abbrev queue : ResponseRetryQueue ℕ
queue = record { entries = entry 1 5 ∷ entry 3 6 ∷ entry 0 20 ∷ []; max_size = 3; max_retry = 3 }

drain-keep_example : drain 10 queue ≡ (record queue { entries = entry 0 20 ∷ [] }, entry 1 5 ∷ [])
drain-keep_example = drain-keep 10 queue

enqueue-le_example :
    (q' : ResponseRetryQueue ℕ) × (enqueue 10 8 queue ≡ some q')
    × (q'.max_size ≡ 3)
    × (length q'.entries ≤ 3)
enqueue-le_example = enqueue-le 10 8 queue (omega arith) (omega arith)
