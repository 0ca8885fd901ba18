-- ===== src/ThreadPool/Signals/Progress.antt =====
-- No signal of sync_queue.c is lost while there is a task, and every task is taken.
use oserver.Prelude.{
  ℕ, ◌+◌, ◌≡◌, ◌≢◌, refl, sym, ap, subst, ◌∙◌, Bool, List, [], ◌∷◌, ◌++◌, Bool-cases, inl, inr,
}
use oserver.Chain.{Ptr, null, NotIn}
use oserver.SyncQueue.{sync_queue_push_back, sync_queue_signal_destroy}
use oserver.SyncQueue.Fifo.{Holds}
use oserver.ThreadPool.{
  Task, Worker, calls, sleeps, exits, holds, thread_pool_add_task, worker_step, signal_destroy,
}
use oserver.ThreadPool.Steps.{System, held, added, turned, count, tasks, IsFair}
use oserver.ThreadPool.Fair.{Took, call-Took, hold-IsFair, worker-IsFair, signal-IsFair, add-IsFair}
use oserver.ThreadPool.Tasks.{both}
use oserver.ThreadPool.Signals.{broadcast, add_task_signal}
use oserver.ThreadPool.Signals.Wake.{
  OneAwake, SameWork, signal_one-SameWork, broadcast-SameWork, HasThread, signal_one-HasThread,
  signal_one-OneAwake, broadcast-HasThread, broadcast-OneAwake, OneAwake-calls, OneAwake-holds,
  HasThread-mid,
}

-- The account holds, there is a thread, and where the queue has a task a thread is awake.
abbrev pub IsAlert : System → List Ptr → Type 0
IsAlert s xs =
    IsFair s xs
    × HasThread s.pool.threads
    × (s.pool.task_queue.head ≢ null → OneAwake s.pool.threads)

-- Threads with the same work.
threads-IsFair :
    (s : System) (xs : List Ptr) (ws : List Worker)
    → IsFair s xs
    → SameWork s.pool.threads ws
    → IsFair (record s { pool = record s.pool { threads = ws } }) xs
threads-IsFair s xs ws fair (same, left) = record {
  queue = fair.queue;
  order = fair.order;
  once = λ test.
      fair.once test
      ∙ ap (λ (ps : List Ptr). count test s.ran + count test (tasks s.pool.task ps)) (sym same);
  left = λ h. fair.left (left h);
}

module _ (s : System) (xs : List Ptr) (alert : IsAlert s xs) where
  -- A call by the thread in the middle.
  pub call-IsAlert :
      (before after : List Worker)
      → s.pool.threads ≡ before ++ calls ∷ after
      → (zs : List Ptr) × IsAlert (turned s before calls after) zs
  call-IsAlert before after at =
      let (zs, fair, took) = call-Took s xs alert.0 before after at in
      (
        zs,
        (
          fair,
          HasThread-mid before (worker_step s.pool calls).0 after,
          λ some. awake xs zs (worker_step s.pool calls).0 took fair.queue some,
        ),
      )
    where
      awake :
          (xs zs : List Ptr) (w : Worker)
          → Took xs w zs
          → Holds (turned s before calls after).pool.task_queue zs
          → (turned s before calls after).pool.task_queue.head ≢ null
          → OneAwake (before ++ w ∷ after)
      awake [] [] w took h some = absurd (some h.chain)
      awake [] (z ∷ zs) w took h some = absurd (cc)
      awake (y ∷ ys) zs w took h some =
          subst (λ (w : Worker). OneAwake (before ++ w ∷ after)) (sym took.0)
            (OneAwake-holds y before after)

  pub hold-IsAlert :
      (before : List Worker) (p : Ptr) (after : List Worker)
      → s.pool.threads ≡ before ++ holds p ∷ after
      → IsAlert (turned s before (holds p) after) xs
  unfolding worker_step
  hold-IsAlert before p after at = (
    hold-IsFair s xs alert.0 before p after at,
    HasThread-mid before calls after,
    λ some. OneAwake-calls before after,
  )

  pub goes-IsAlert :
      (before : List Worker) (w : Worker) (after : List Worker)
      → s.pool.threads ≡ before ++ w ∷ after
      → w ≢ sleeps
      → (zs : List Ptr) × IsAlert (turned s before w after) zs
  unfolding worker_step
  goes-IsAlert before calls after at ne = call-IsAlert before after at
  goes-IsAlert before sleeps after at ne = absurd (ne refl)
  goes-IsAlert before (holds p) after at ne = (xs, hold-IsAlert before p after at)
  goes-IsAlert before exits after at ne =
      let (zs, fair) = worker-IsFair s xs alert.0 before exits after at in
      (zs, (fair, HasThread-mid before exits after, λ some. subst OneAwake at (alert.2 some)))

  pub destroy-IsAlert :
      (missed : ℕ → Bool)
      → IsAlert
          (record s {
            pool = record (signal_destroy s.pool) { threads = broadcast missed s.pool.threads };
          })
          xs
  unfolding sync_queue_signal_destroy
  destroy-IsAlert missed = (
    threads-IsFair (record s { pool = signal_destroy s.pool }) xs (broadcast missed s.pool.threads)
        (signal-IsFair s xs alert.0) (broadcast-SameWork missed s.pool.threads),
    broadcast-HasThread missed s.pool.threads alert.1,
    λ some. broadcast-OneAwake missed s.pool.threads (alert.2 some),
  )

  pub push-IsAlert :
      (p : Ptr) (t : Task) (choice : ℕ)
      → p ≢ null
      → NotIn p xs
      → NotIn p (held s.pool.threads)
      → (zs : List Ptr) × IsAlert
          (record (added s p t) { pool = add_task_signal s.pool p t choice })
          zs
  unfolding thread_pool_add_task add_task_signal sync_queue_push_back
  push-IsAlert p t choice ne new unheld =
      let ws = s.pool.threads in
      let (zs, fair) = add-IsFair s xs alert.0 p t ne new unheld in
      let next = record (added s p t) { pool = add_task_signal s.pool p t choice } in
      let fair' : SameWork ws next.pool.threads → IsFair next zs =
        threads-IsFair (added s p t) zs next.pool.threads fair in
      elim (Bool-cases s.pool.task_queue.destorying) [
        | inl e ↦ (zs, (fair' (rw (e) (refl, λ h. h)), rw (e) alert.1, rw (e) alert.2))
        | inr e ↦ (
          zs,
          (
            fair' (rw (e) (signal_one-SameWork choice ws)),
            rw (e) (signal_one-HasThread choice ws alert.1),
            λ some. rw (e) (
                signal_one-OneAwake choice ws alert.1
                  (λ h. both s.pool.task_queue.destorying (alert.0.left h).0 e)),
          ),
        )
      ]
