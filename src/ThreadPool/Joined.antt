-- ===== src/ThreadPool/Joined.antt =====
-- thread_pool_destroy of thread_pool.c, once every thread has been joined.
use oserver.Prelude.{
  ℕ, ◌≡◌, ◌≢◌, refl, sym, ap, subst, ◌∙◌, Bool, true, false, Option, some, List, [], ◌∷◌, ◌++◌,
  append-nil, arith,
}
use oserver.Chain.{Ptr}
use oserver.SyncQueue.{SyncQueue, Pop, waits, returns, sync_queue_pop_front}
use oserver.SyncQueue.Fifo.{Holds, Popped, pop_front-Popped}
use oserver.ThreadPool.{Task, Worker, calls, sleeps, exits, holds, freed_from, free_tasks}
use oserver.ThreadPool.Steps.{System, held, Steps, start, count, tasks, OneExits}
use oserver.ThreadPool.Fair.{Steps-IsFair}

-- Every thread has left the loop: `pthread_join` returns for each.
abbrev pub AllExit : List Worker → Type 0
AllExit [] = Unit
AllExit (exits ∷ ws) = AllExit ws
AllExit (calls ∷ ws) = ⊥
AllExit (sleeps ∷ ws) = ⊥
AllExit (holds p ∷ ws) = ⊥

AllExit-held : (ws : List Worker) → AllExit ws → held ws ≡ []
AllExit-held [] h = refl
AllExit-held (exits ∷ ws) h = AllExit-held ws h
AllExit-held (calls ∷ ws) h = absurd h
AllExit-held (sleeps ∷ ws) h = absurd h
AllExit-held (holds p ∷ ws) h = absurd h

AllExit-OneExits : (ws : List Worker) → AllExit ws → ws ≢ [] → OneExits ws
AllExit-OneExits [] h ne = absurd (ne refl)
AllExit-OneExits (exits ∷ ws) h ne = tt
AllExit-OneExits (calls ∷ ws) h ne = absurd h
AllExit-OneExits (sleeps ∷ ws) h ne = absurd h
AllExit-OneExits (holds p ∷ ws) h ne = absurd h

-- The loop of the destruction frees nothing on an empty queue.
freed_from-none :
    (rest : SyncQueue → Option (List Ptr)) (q : SyncQueue) (o : Pop)
    → q.destorying ≡ true
    → Popped q [] o
    → freed_from rest o ≡ some []
freed_from-none rest q waits d p = absurd (both q.destorying d p)
  where
    both : (b : Bool) → b ≡ true → b ≡ false → ⊥
    both b e e' = cc
freed_from-none rest q (returns t q') d (_, is_null, _) = ground (arith, is_null)

-- After any steps of a new pool, once all its threads, of which there is one at least, have left:
-- every task that was accepted has been run as often as it was accepted, the tasks were taken in the
-- order in which they were accepted, and the loop of the destruction finds the queue empty at once.
pub joined-ran :
    (next : Ptr → Ptr) (task : Ptr → Task) (max initial : ℕ) (s : System)
    → Steps (start next task max initial) s
    → AllExit s.pool.threads
    → s.pool.threads ≢ []
    → ((test : Task → Bool) → count test s.ran ≡ count test s.accepted)
      × (s.taken ≡ s.accepted)
      × (free_tasks 1 s.pool.task_queue ≡ some [])
unfolding free_tasks
joined-ran next task max initial s steps exited ne =
    let (xs, fair) = Steps-IsFair next task max initial s steps in
    let (destroyed, empty) = fair.left (AllExit-OneExits s.pool.threads exited ne) in
    let all_taken : s.taken ≡ s.accepted =
      sym (append-nil s.taken)
      ∙ ap (λ (ys : List Ptr). s.taken ++ tasks s.pool.task ys) (sym empty)
      ∙ fair.order in
    let none_held = AllExit-held s.pool.threads exited in
    (
      λ test. omega (
        arith,
        fair.once test,
        ap (count test) all_taken,
        ap (λ (ps : List Ptr). count test (tasks s.pool.task ps)) none_held,
      ),
      all_taken,
      freed_from-none (free_tasks 0) s.pool.task_queue (sync_queue_pop_front s.pool.task_queue)
          destroyed
          (pop_front-Popped s.pool.task_queue []
            (subst (Holds s.pool.task_queue) empty fair.queue)),
    )
