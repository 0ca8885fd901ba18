-- ===== src/ThreadPool.antt =====
-- thread_pool.c and thread_pool.h: workers that take tasks from the queue of sync_queue.c.
pub mod Steps
pub mod Tasks
pub mod Fair
pub mod Joined
pub mod Signals
use oserver.Prelude.{
  ℕ, zero, suc, Bool, true, false, Option, none, some, List, [], ◌∷◌, ◌++◌, ◌==◌, if◌then◌else◌,
  replicate,
}
use oserver.Chain.{Ptr, null}
use oserver.SyncQueue.{
  SyncQueue, sync_queue_init, sync_queue_push_back, Pop, waits, returns, sync_queue_pop_front,
  sync_queue_signal_destroy,
}

-- `thread_task_t` without its `next`, which the queue keeps.
pub record Task : Type 0 where
  pub run : ℕ
  pub arg : ℕ

-- Where a thread stands in `thread_pool_task_entry`: it calls `sync_queue_pop_front`, it waits for the
-- condition there, it holds the task that the call has returned, or it has left the loop.
pub data Worker : Type 0 where
  calls sleeps exits : Worker
  holds : Ptr → Worker

-- `thread_pool_t` with its threads, and what stands at the addresses of tasks.
pub record ThreadPool : Type 0 where
  pub max_count : ℕ
  pub active_count : ℕ
  pub running_count : ℕ
  pub task_queue : SyncQueue
  pub threads : List Worker
  pub task : Ptr → Task

-- `next` and `task` are what stands in the memory.
unfoldable pub thread_pool_init : (Ptr → Ptr) → (Ptr → Task) → ℕ → ℕ → ThreadPool
thread_pool_init next task max_thread_count initial_thread_count = record {
  max_count = max_thread_count;
  active_count = initial_thread_count;
  running_count = 0;
  task_queue = sync_queue_init next;
  threads = replicate initial_thread_count calls;
  task = task;
}

abbrev pub set_task : (Ptr → Task) → Ptr → Task → Ptr → Task
set_task task p t x = if x == p then t else task x

-- `new_task` is what `malloc` returns.
unfoldable pub thread_pool_add_task : ThreadPool → Ptr → Task → ThreadPool
thread_pool_add_task pool new_task t = record pool {
  task_queue = sync_queue_push_back pool.task_queue new_task;
  task = set_task pool.task new_task t;
}

-- What a call of `sync_queue_pop_front` leaves: the thread, and the queue.
abbrev pub after_pop : SyncQueue → Pop → Worker × SyncQueue
after_pop q waits = (sleeps, q)
after_pop q (returns task q') = (if task == null then exits else holds task, q')

-- The next step of a thread: the thread, the queue, and the task that is run. A waiting thread may
-- wake and call again at any step: `pthread_cond_wait` may return without a signal, and each signal
-- only picks some of these steps.
unfoldable pub worker_step : ThreadPool → Worker → Worker × SyncQueue × Option Task
worker_step pool calls =
    let (w, q) = after_pop pool.task_queue (sync_queue_pop_front pool.task_queue) in (w, q, none)
worker_step pool sleeps = (calls, pool.task_queue, none)
worker_step pool (holds p) = (calls, pool.task_queue, some (pool.task p))
worker_step pool exits = (exits, pool.task_queue, none)

-- `sync_queue_signal_destroy`, with which `thread_pool_destroy` begins.
abbrev pub signal_destroy : ThreadPool → ThreadPool
signal_destroy pool = record pool { task_queue = sync_queue_signal_destroy pool.task_queue }

-- `while((t = sync_queue_pop_front(…))) free(t);` with fuel for its rounds: the tasks that are freed.
-- `none` is a call that waits, or no fuel.
abbrev pub freed_from : (SyncQueue → Option (List Ptr)) → Pop → Option (List Ptr)
freed_from rest waits = none
freed_from rest (returns t q) =
    let more = rest q in
    if t == null then some [] else elim more [ none ↦ none | some ts ↦ some (t ∷ ts) ]

unfoldable pub free_tasks : ℕ → SyncQueue → Option (List Ptr)
free_tasks zero q = none
free_tasks (suc fuel) q = freed_from (free_tasks fuel) (sync_queue_pop_front q)
