-- ===== src/ThreadPool/Steps.antt =====
-- The runs of thread_pool.c: a pool, and the tasks that have been accepted, taken and run.
use oserver.Prelude.{
  ℕ, ◌+◌, ◌≡◌, ◌≢◌, Bool, true, Option, none, some, List, [], ◌∷◌, ◌++◌, if◌then◌else◌,
}
use oserver.Chain.{Ptr, null, NotIn}
use oserver.SyncQueue.Fifo.{Holds}
use oserver.ThreadPool.{
  Task, Worker, calls, sleeps, exits, holds, ThreadPool, thread_pool_init, thread_pool_add_task,
  worker_step, signal_destroy,
}

-- A pool with the tasks so far: those that were put in while the queue was not being destroyed, those
-- that a thread has taken, and those that have been run, each in the order of these events.
pub record System : Type 0 where
  pub pool : ThreadPool
  pub accepted : List Task
  pub taken : List Task
  pub ran : List Task

-- The tasks that the threads hold.
abbrev pub held : List Worker → List Ptr
held [] = []
held (holds p ∷ ws) = p ∷ held ws
held (calls ∷ ws) = held ws
held (sleeps ∷ ws) = held ws
held (exits ∷ ws) = held ws

abbrev pub added : System → Ptr → Task → System
added s p t = record s {
  pool = thread_pool_add_task s.pool p t;
  accepted = (if s.pool.task_queue.destorying then s.accepted else s.accepted ++ t ∷ []);
}

-- The task that a thread has just taken.
abbrev pub taken_by : (Ptr → Task) → Worker → Worker → List Task
taken_by task calls (holds p) = task p ∷ []
taken_by task _ _ = []

abbrev pub run_now : Option Task → List Task
run_now none = []
run_now (some t) = t ∷ []

-- The step of the thread between `before` and `after`.
abbrev pub turned : System → List Worker → Worker → List Worker → System
turned s before w after =
    let (w', q, run) = worker_step s.pool w in
    record s {
      pool = record s.pool { threads = before ++ w' ∷ after; task_queue = q };
      taken = s.taken ++ taken_by s.pool.task w w';
      ran = s.ran ++ run_now run;
    }

-- One step: a task is added at an address that is not in use, a thread goes on, or the destruction
-- begins.
pub data Step : System → System → Type 0 where
  adds :
      {s : System} (p : Ptr) (t : Task)
      → p ≢ null
      → ((xs : List Ptr) → Holds s.pool.task_queue xs → NotIn p xs)
      → NotIn p (held s.pool.threads)
      → Step s (added s p t)
  turns :
      {s : System} (before : List Worker) (w : Worker) (after : List Worker)
      → s.pool.threads ≡ before ++ w ∷ after
      → Step s (turned s before w after)
  signals : {s : System} → Step s (record s { pool = signal_destroy s.pool })

-- Any number of steps.
pub data Steps : System → System → Type 0 where
  done : {s : System} → Steps s s
  more : {s s' s'' : System} → Steps s s' → Step s' s'' → Steps s s''

-- A new pool.
abbrev pub start : (Ptr → Ptr) → (Ptr → Task) → ℕ → ℕ → System
start next task max initial = record {
  pool = thread_pool_init next task max initial;
  accepted = [];
  taken = [];
  ran = [];
}

-- How many of the tasks pass a test.
abbrev pub count : (Task → Bool) → List Task → ℕ
count test [] = 0
count test (t ∷ ts) = (if test t then 1 else 0) + count test ts

abbrev pub tasks : (Ptr → Task) → List Ptr → List Task
tasks task [] = []
tasks task (p ∷ ps) = task p ∷ tasks task ps

-- A thread has left the loop.
abbrev pub OneExits : List Worker → Type 0
OneExits [] = ⊥
OneExits (exits ∷ ws) = Unit
OneExits (calls ∷ ws) = OneExits ws
OneExits (sleeps ∷ ws) = OneExits ws
OneExits (holds p ∷ ws) = OneExits ws

-- The queue has the entries `xs`; the tasks were taken in the order in which they were accepted, and
-- those in the queue are the rest; what was taken has been run or is held; and a thread leaves only
-- when the queue is being destroyed and is empty.
pub record IsFair (s : System) (xs : List Ptr) : Type 0 where
  pub queue : Holds s.pool.task_queue xs
  pub order : s.taken ++ tasks s.pool.task xs ≡ s.accepted
  pub once :
      (test : Task → Bool)
      → count test s.taken ≡ count test s.ran + count test (tasks s.pool.task (held s.pool.threads))
  pub left : OneExits s.pool.threads → (s.pool.task_queue.destorying ≡ true) × (xs ≡ [])
