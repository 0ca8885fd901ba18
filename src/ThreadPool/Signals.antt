-- ===== src/ThreadPool/Signals.antt =====
-- thread_pool.c with the signals of sync_queue.c, where a thread that waits for the condition wakes
-- only when a signal or the broadcast reaches it.
pub mod Wake
pub mod Progress
pub mod Delivery
use oserver.Prelude.{ℕ, zero, suc, ◌≡◌, ◌≢◌, Bool, true, false, List, [], ◌∷◌, ◌++◌, if◌then◌else◌}
use oserver.Chain.{Ptr, null, NotIn}
use oserver.SyncQueue.Fifo.{Holds}
use oserver.ThreadPool.{
  Task, Worker, calls, sleeps, exits, holds, ThreadPool, thread_pool_add_task, signal_destroy,
}
use oserver.ThreadPool.Steps.{System, held, added, turned}

abbrev pub is_asleep : List Worker → Bool
is_asleep [] = false
is_asleep (sleeps ∷ ws) = true
is_asleep (calls ∷ ws) = is_asleep ws
is_asleep (exits ∷ ws) = is_asleep ws
is_asleep (holds p ∷ ws) = is_asleep ws

-- `pthread_cond_signal`: of the threads that wait, the one with the number `choice` goes on, or the last
-- one if there are not so many; where none waits the signal is lost.
unfoldable pub signal_one : ℕ → List Worker → List Worker
signal_one choice [] = []
signal_one zero (sleeps ∷ ws) = calls ∷ ws
signal_one (suc choice) (sleeps ∷ ws) =
    let rest = signal_one choice ws in if is_asleep ws then sleeps ∷ rest else calls ∷ ws
signal_one choice (calls ∷ ws) = calls ∷ signal_one choice ws
signal_one choice (exits ∷ ws) = exits ∷ signal_one choice ws
signal_one choice (holds p ∷ ws) = holds p ∷ signal_one choice ws

-- What the broadcast does to a thread.
abbrev pub roused : Bool → Worker → Worker
roused true w = w
roused false sleeps = calls
roused false calls = calls
roused false exits = exits
roused false (holds p) = holds p

-- `pthread_cond_broadcast` of `sync_queue_signal_destroy`, which does not hold the lock: of the threads
-- that count as waiting, those in `missed` have made the test and do not wait yet, and miss it.
unfoldable pub broadcast : (ℕ → Bool) → List Worker → List Worker
broadcast missed [] = []
broadcast missed (w ∷ ws) = roused (missed 0) w ∷ broadcast (λ i. missed (suc i)) ws

-- `thread_pool_add_task` with the signal of `sync_queue_push_back`, which is sent while the queue is not
-- being destroyed.
unfoldable pub add_task_signal : ThreadPool → Ptr → Task → ℕ → ThreadPool
unfolding signal_one
add_task_signal pool p t choice = record (thread_pool_add_task pool p t) {
  threads = (if pool.task_queue.destorying then pool.threads else signal_one choice pool.threads);
}

-- One step: a task is added at an address that is not in use, a thread that does not wait goes on, or the
-- destruction begins.
pub data SignalStep : System → System → Type 0 where
  pushes :
      {s : System} (p : Ptr) (t : Task) (choice : ℕ)
      → p ≢ null
      → ((xs : List Ptr) → Holds s.pool.task_queue xs → NotIn p xs)
      → NotIn p (held s.pool.threads)
      → SignalStep s (record (added s p t) { pool = add_task_signal s.pool p t choice })
  goes :
      {s : System} (before : List Worker) (w : Worker) (after : List Worker)
      → s.pool.threads ≡ before ++ w ∷ after
      → w ≢ sleeps
      → SignalStep s (turned s before w after)
  destroys :
      {s : System} (missed : ℕ → Bool)
      → SignalStep s (record s {
        pool = record (signal_destroy s.pool) { threads = broadcast missed s.pool.threads };
      })

-- Any number of steps.
pub data SignalSteps : System → System → Type 0 where
  nothing : {s : System} → SignalSteps s s
  then_step : {s s' s'' : System} → SignalSteps s s' → SignalStep s' s'' → SignalSteps s s''

-- Any number of steps of threads that do not wait: nothing is added, and no signal and no broadcast is
-- sent.
pub data ThreadSteps : System → System → Type 0 where
  no_step : {s : System} → ThreadSteps s s
  and_then :
      {s s' : System} (before : List Worker) (w : Worker) (after : List Worker)
      → ThreadSteps s s'
      → s'.pool.threads ≡ before ++ w ∷ after
      → w ≢ sleeps
      → ThreadSteps s (turned s' before w after)
