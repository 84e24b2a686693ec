-- ===== src/Agent/Semaphore/Runs.antt =====
-- internal/agent/semaphore.go: goroutines that acquire and release at the same time.
use xyncra_server.Common.{
  ℕ, ◌≡◌, refl, ◌+◌, ◌-◌, ◌≤◌, ◌<◌, false, some, ltb, ◌==◌, ℤ, Bool-cases, inl, inr, arith,
  is_nonpositive,
}
use xyncra_server.Agent.Semaphore.{
  Semaphore, new_semaphore, send, counted, added, receive, uncounted, acquire, release,
}

-- The goroutines by what they do next: count the slot, add to the total, run and then release, count
-- the slot off.
pub record System : Type 0 where
  pub sem : Semaphore
  pub counting : ℕ
  pub adding : ℕ
  pub holding : ℕ
  pub leaving : ℕ

pub data Step (s : System) : System → Type 0 where
  sent :
      (sem : Semaphore)
      → send s.sem ≡ some sem
      → Step s (record s { sem = sem; counting = s.counting + 1 })
  counts :
      0 < s.counting
      → Step s (record s { sem = counted s.sem; counting = s.counting - 1; adding = s.adding + 1 })
  adds :
      0 < s.adding
      → Step s (record s { sem = added s.sem; adding = s.adding - 1; holding = s.holding + 1 })
  received :
      (sem : Semaphore)
      → 0 < s.holding
      → receive s.sem ≡ some sem
      → Step s (record s { sem = sem; holding = s.holding - 1; leaving = s.leaving + 1 })
  leaves : 0 < s.leaving → Step s (record s { sem = uncounted s.sem; leaving = s.leaving - 1 })

abbrev pub start : ℤ → System
start capacity = record {
  sem = new_semaphore capacity;
  counting = 0;
  adding = 0;
  holding = 0;
  leaving = 0;
}

pub data Reach (s : System) : System → Type 0 where
  here : Reach s s
  next : {s' s'' : System} → Reach s s' → Step s' s'' → Reach s s''

-- The tokens are the goroutines with a slot and do not pass the capacity; `active` counts those that
-- are counted and not yet counted off, and the peak is no less.
pub record IsCounted (s : System) : Type 0 where
  pub within : s.sem.ch ≤ s.sem.capacity
  pub tokens : s.sem.ch ≡ s.counting + s.adding + s.holding
  pub active : s.sem.active ≡ s.adding + s.holding + s.leaving
  pub peak : s.sem.active ≤ s.sem.peak

start-IsCounted : (capacity : ℤ) → IsCounted (start capacity)
unfolding new_semaphore
start-IsCounted capacity = elim (Bool-cases (is_nonpositive capacity)) [
  | inl none_at_once ↦
      rw none_at_once
        (record { within = omega arith; tokens = refl; active = refl; peak = omega arith })
  | inr some_at_once ↦
      rw some_at_once
        (record { within = omega arith; tokens = refl; active = refl; peak = omega arith })
]

send-some :
    (s t : Semaphore) → send s ≡ some t → (s.ch < s.capacity) × (t ≡ record s { ch = s.ch + 1 })
unfolding send
send-some s t e = elim (Bool-cases (ltb s.ch s.capacity)) [
  | inl b ↦ (ground arith, cc (rw b at e))
  | inr b ↦ cc (rw b at e)
]

receive-some :
    (s t : Semaphore) → receive s ≡ some t → (0 < s.ch) × (t ≡ record s { ch = s.ch - 1 })
unfolding receive
receive-some s t e = elim (Bool-cases (s.ch == 0)) [
  | inl b ↦ cc (rw b at e)
  | inr b ↦ (ground arith, cc (rw b at e))
]

Step-IsCounted : (s s' : System) → Step s s' → IsCounted s → IsCounted s'
Step-IsCounted s s' (sent sem e) i =
    let (room, same) = send-some s.sem sem e in
    let within = i.within in
    let tokens = i.tokens in
    let active = i.active in
    let peak = i.peak in
    rw same (record { within = omega arith; tokens = omega arith; active = active; peak = peak })
Step-IsCounted s s' (counts some_counting) i =
    let within = i.within in
    let tokens = i.tokens in
    let active = i.active in
    let peak = i.peak in
    record { within = within; tokens = omega arith; active = omega arith; peak = ground arith }
Step-IsCounted s s' (adds some_adding) i =
    let within = i.within in
    let tokens = i.tokens in
    let active = i.active in
    let peak = i.peak in
    record { within = within; tokens = omega arith; active = omega arith; peak = peak }
Step-IsCounted s s' (received sem some_holding e) i =
    let (room, same) = receive-some s.sem sem e in
    let within = i.within in
    let tokens = i.tokens in
    let active = i.active in
    let peak = i.peak in
    rw same
      (record { within = omega arith; tokens = omega arith; active = omega arith; peak = peak })
Step-IsCounted s s' (leaves some_leaving) i =
    let within = i.within in
    let tokens = i.tokens in
    let active = i.active in
    let peak = i.peak in
    record { within = within; tokens = tokens; active = omega arith; peak = omega arith }

-- In every run of goroutines that release only what they acquired, in any order of their steps, the
-- tokens are the goroutines with a slot and never pass the capacity, `active` counts those that are
-- counted and not yet counted off, and the peak is no less.
pub Reach-IsCounted : (capacity : ℤ) (s : System) → Reach (start capacity) s → IsCounted s
Reach-IsCounted capacity s here = start-IsCounted capacity
Reach-IsCounted capacity s (next {s'} r step) =
    Step-IsCounted s' s step (Reach-IsCounted capacity s' r)

plus_one : (n : ℕ) → (n + 1 == 0) ≡ false
plus_one n = ground arith

-- A Release after an Acquire by a goroutine alone does not block, and gives the slot back.
pub release-acquire :
    (s s' : Semaphore)
    → acquire s ≡ some s'
    → (t : Semaphore) × (release s' ≡ some t) × (t.ch ≡ s.ch) × (t.active ≡ s.active)
unfolding acquire release send receive
release-acquire s s' e = elim (Bool-cases (s.capacity == 0)) [
  | inl unlimited ↦
      let same : s' ≡ s = cc (rw unlimited at e) in rw same (s, rw unlimited refl, refl, refl)
  | inr limited ↦ elim (Bool-cases (ltb s.ch s.capacity)) [
    | inl room ↦
        let same : s' ≡ added (counted (record s { ch = s.ch + 1 })) =
          cc (rw (limited, room) at e) in
        rw same (
          record (added (counted s)) { ch = s.ch + 1 - 1; active = s.active + 1 - 1 },
          rw (limited, plus_one s.ch) refl,
          omega arith,
          omega arith,
        )
    | inr full ↦ cc (rw (limited, full) at e)
  ]
]
