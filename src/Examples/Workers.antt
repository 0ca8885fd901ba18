-- ===== src/Examples/Workers.antt =====
-- A run of thread_pool.c with one thread and one task, and its theorems at it.
use oserver.Prelude.{◌≡◌, ◌≢◌, refl, sym, Bool, some, List, [], ◌∷◌, arith}
use oserver.Chain.{Ptr, null, NotIn}
use oserver.SyncQueue.{
  sync_queue_init, sync_queue_push_back, sync_queue_pop_front, take_head, sync_queue_signal_destroy,
}
use oserver.SyncQueue.Fifo.{Holds}
use oserver.ThreadPool.{
  Task, calls, holds, thread_pool_init, thread_pool_add_task, worker_step, signal_destroy,
  free_tasks,
}
use oserver.ThreadPool.Steps.{
  System, added, turned, adds, turns, signals, Steps, done, more, start, count, IsFair,
}
use oserver.ThreadPool.Fair.{Steps-IsFair}
use oserver.ThreadPool.Signals.{
  signal_one, add_task_signal, pushes, goes, SignalSteps, ThreadSteps, nothing, then_step,
}
use oserver.ThreadPool.Signals.Delivery.{SignalSteps-TakesAll}
use oserver.ThreadPool.Joined.{AllExit, joined-ran}

abbrev no_links : Ptr → Ptr
no_links p = null

abbrev blank : Ptr → Task
blank p = record { run = 0; arg = 0 }

abbrev task : Task
task = record { run = 1; arg = 7 }

abbrev fresh_pool : System
fresh_pool = start no_links blank 4 1

abbrev one_task : System
one_task = added fresh_pool 5 task

abbrev one_held : System
one_held = turned one_task [] calls []

abbrev one_run : System
one_run = turned one_held [] (holds 5) []

abbrev signalled : System
signalled = record one_run { pool = signal_destroy one_run.pool }

abbrev ended : System
ended = turned signalled [] calls []

unused : (xs : List Ptr) → Holds fresh_pool.pool.task_queue xs → NotIn 5 xs
unfolding thread_pool_init sync_queue_init
unused [] h = tt
unused (x ∷ xs) h = absurd (h.chain.1 (sym h.chain.0))

first-Steps : Steps fresh_pool one_task
unfolding thread_pool_init
first-Steps = more done (adds 5 task (omega arith) unused tt)

all-Steps : Steps fresh_pool ended
unfolding thread_pool_init thread_pool_add_task worker_step sync_queue_init sync_queue_push_back
    sync_queue_pop_front take_head sync_queue_signal_destroy
all-Steps =
    more
      (more (more (more first-Steps (turns [] calls [] refl)) (turns [] (holds 5) [] refl)) signals)
      (turns [] calls [] refl)

ran_once : ended.ran ≡ task ∷ []
unfolding thread_pool_init thread_pool_add_task worker_step sync_queue_init sync_queue_push_back
    sync_queue_pop_front take_head sync_queue_signal_destroy
ran_once = refl

all_exited : AllExit ended.pool.threads
unfolding thread_pool_init thread_pool_add_task worker_step sync_queue_init sync_queue_push_back
    sync_queue_pop_front take_head sync_queue_signal_destroy
all_exited = tt

one_thread : ended.pool.threads ≢ []
one_thread e = cc

Steps-IsFair_example : (xs : List Ptr) × IsFair ended xs
Steps-IsFair_example = Steps-IsFair no_links blank 4 1 ended all-Steps

joined-ran_example :
    ((test : Task → Bool) → count test ended.ran ≡ count test ended.accepted)
    × (ended.taken ≡ ended.accepted)
    × (free_tasks 1 ended.pool.task_queue ≡ some [])
joined-ran_example = joined-ran no_links blank 4 1 ended all-Steps all_exited one_thread

-- The thread waits, and the task that is added then wakes it.
abbrev slept : System
slept = turned fresh_pool [] calls []

abbrev woken : System
woken = record (added slept 5 task) { pool = add_task_signal slept.pool 5 task 0 }

unused_then : (xs : List Ptr) → Holds slept.pool.task_queue xs → NotIn 5 xs
unfolding thread_pool_init worker_step sync_queue_init sync_queue_pop_front take_head
unused_then [] h = tt
unused_then (x ∷ xs) h = absurd (h.chain.1 (sym h.chain.0))

woken-SignalSteps : SignalSteps fresh_pool woken
unfolding thread_pool_init worker_step sync_queue_init sync_queue_pop_front take_head
woken-SignalSteps =
    then_step (then_step nothing (goes [] calls [] refl (λ e. cc)))
      (pushes 5 task 0 (omega arith) unused_then tt)

woken_run : woken.pool.threads ≡ calls ∷ []
unfolding thread_pool_init thread_pool_add_task worker_step sync_queue_init sync_queue_push_back
    sync_queue_pop_front take_head add_task_signal signal_one
woken_run = refl

SignalSteps-TakesAll_example : (s' : System) × ThreadSteps woken s' × (s'.taken ≡ woken.accepted)
SignalSteps-TakesAll_example =
    SignalSteps-TakesAll no_links blank 4 1 woken (omega arith) woken-SignalSteps
