-- ===== src/Pipeline/Rounds/Race.antt =====
-- The order of `TryEnqueue` (internal/pipeline/enqueue.go): the task is sent first and tracked
-- after, while the workers (worker.go) take tasks up and finish them.
use bidshard_lead_miner.Common.{◌==◌, ℕ, zero, suc, ◌+◌, ◌≤◌, ◌<◌, ◌≡◌, refl, arith}

-- The channel, the senders between the send and `TrackTask`, the workers between the receipt and
-- `FinishTask`, and the counter of the wait group.
pub record Traffic : Type 0 where
  pub queued : ℕ
  pub untracked : ℕ
  pub working : ℕ
  pub tracked : ℕ

abbrev pub idle : Traffic
idle = record { queued = 0; untracked = 0; working = 0; tracked = 0 }

pub data Step (capacity : ℕ) (s t : Traffic) : Type 0 where
  send :
      s.queued < capacity
      → t ≡ record s { queued = suc s.queued; untracked = suc s.untracked }
      → Step capacity s t
  track :
      (n : ℕ)
      → s.untracked ≡ suc n
      → t ≡ record s { untracked = n; tracked = suc s.tracked }
      → Step capacity s t
  receive :
      (n : ℕ)
      → s.queued ≡ suc n
      → t ≡ record s { queued = n; working = suc s.working }
      → Step capacity s t
  finish :
      (n m : ℕ)
      → s.working ≡ suc n
      → s.tracked ≡ suc m
      → t ≡ record s { working = n; tracked = m }
      → Step capacity s t

pub data Reach (capacity : ℕ) : Traffic → Type 0 where
  start : Reach capacity idle
  more : {s t : Traffic} → Reach capacity s → Step capacity s t → Reach capacity t

-- A worker would take the counter of the wait group below zero, which panics.
pub record Panics (s : Traffic) : Type 0 where
  pub busy : 0 < s.working
  pub empty : s.tracked ≡ 0

-- In every state that is reached, the wait group and the senders that have not yet tracked their
-- task count together the tasks that wait and those in work.
pub tracked_or_untracked :
    {capacity : ℕ} {s : Traffic} → Reach capacity s → s.tracked + s.untracked ≡ s.queued + s.working
tracked_or_untracked start = refl
tracked_or_untracked (more r (send _ e)) = ground (arith, e, tracked_or_untracked r)
tracked_or_untracked (more r (track n h e)) = ground (arith, h, e, tracked_or_untracked r)
tracked_or_untracked (more r (receive n h e)) = ground (arith, h, e, tracked_or_untracked r)
tracked_or_untracked (more r (finish n m h k e)) = ground (arith, h, k, e, tracked_or_untracked r)

Reach-queued :
    (capacity n : ℕ)
    → n ≤ capacity
    → Reach capacity (record { queued = n; untracked = n; working = 0; tracked = 0 })
Reach-queued capacity zero h = start
Reach-queued capacity (suc n) h =
    more (Reach-queued capacity n (omega arith)) (send (omega arith) refl)

-- Once no sender is between its send and its tracking, as after the coordinator has waited for the
-- sources, `Wait` returns exactly when no task waits and none is in work, and no worker panics.
pub wait_complete :
    {capacity : ℕ} {s : Traffic}
    → Reach capacity s
    → s.untracked ≡ 0
    → ((s.tracked == 0) ≡ (s.queued + s.working == 0)) × ¬ Panics s
wait_complete r h =
    let total = tracked_or_untracked r in
    (ground (arith, total, h), λ p. omega (arith, total, h, p.busy, p.empty))

-- The defect: however many tasks wait, a sender that is between its send and its tracking may find
-- that a worker has taken up its task and is about to finish it while the wait group counts none,
-- which panics.
pub finish-Panics :
    (capacity n : ℕ) → n < capacity → (s : Traffic) × Reach capacity s × (s.queued ≡ n) × Panics s
finish-Panics capacity n h =
    let full = Reach-queued capacity (suc n) (omega arith) in
    (_, more full (receive n refl refl), refl, record { busy = omega arith; empty = refl })
