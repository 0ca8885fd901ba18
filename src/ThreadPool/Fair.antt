-- ===== src/ThreadPool/Fair.antt =====
-- Every step of thread_pool.c keeps the account of the tasks.
use oserver.Prelude.{
  ℕ, zero, suc, ◌+◌, ◌≡◌, ◌≢◌, ◌⊎◌, refl, sym, ap, subst, ◌∙◌, Bool, true, List, [], ◌∷◌, ◌++◌,
  ◌==◌, ==-false, if◌then◌else◌, append_assoc, arith, Bool-cases, inl, inr, replicate,
}
use oserver.Chain.{Ptr, null, NotIn}
use oserver.SyncQueue.{
  SyncQueue, sync_queue_push_back, Pop, waits, returns, sync_queue_pop_front,
  sync_queue_signal_destroy,
}
use oserver.SyncQueue.Fifo.{Holds, init-Holds, Popped, pop_front-Popped, push_back-Pushed}
use oserver.ThreadPool.{
  Task, Worker, calls, sleeps, exits, holds, thread_pool_init, thread_pool_add_task, set_task,
  after_pop, worker_step, signal_destroy,
}
use oserver.ThreadPool.Steps.{
  System, held, added, taken_by, turned, Step, adds, turns, signals, Steps, done, more, start,
  count, tasks, OneExits, IsFair,
}
use oserver.ThreadPool.Tasks.{
  count-append, count-held, OneExits-swap, OneExits-mid, both, tasks-set_task, tasks-append,
  task_here,
}

-- A call on these entries leaves the thread so, and these entries.
abbrev pub Took : List Ptr → Worker → List Ptr → Type 0
Took [] w zs = zs ≡ []
Took (y ∷ ys) w zs = (w ≡ holds y) × (zs ≡ ys)

module _ (s : System) (xs : List Ptr) (fair : IsFair s xs) where
  -- A turn of a thread takes `tk` from the queue, runs `run`, and leaves the entries `ys`.
  turn-IsFair :
      (before : List Worker) (w w' : Worker) (after : List Worker) (q : SyncQueue) (ys : List Ptr)
      (tk run : List Task)
      → s.pool.threads ≡ before ++ w ∷ after
      → Holds q ys
      → tk ++ tasks s.pool.task ys ≡ tasks s.pool.task xs
      → ((test : Task → Bool)
          → count test tk + count test (tasks s.pool.task (held (w ∷ [])))
            ≡ count test run + count test (tasks s.pool.task (held (w' ∷ []))))
      → q.destorying ≡ s.pool.task_queue.destorying
      → (xs ≡ [] → ys ≡ [])
      → (OneExits (w' ∷ []) → OneExits (before ++ w ∷ after) ⊎ ((q.destorying ≡ true) × (ys ≡ [])))
      → IsFair
          (record s {
            pool = record s.pool { threads = before ++ w' ∷ after; task_queue = q };
            taken = s.taken ++ tk;
            ran = s.ran ++ run;
          })
          ys
  turn-IsFair before w w' after q ys tk run at holds_q same moved d empties leaves = record {
    queue = holds_q;
    order =
        append_assoc s.taken tk (tasks s.pool.task ys)
        ∙ ap (λ (ts : List Task). s.taken ++ ts) same
        ∙ fair.order;
    once = λ test. omega (
      arith,
      count-append test s.taken tk,
      count-append test s.ran run,
      fair.once test,
      moved test,
      count-held test s.pool.task before w after,
      count-held test s.pool.task before w' after,
      ap (λ (ws : List Worker). count test (tasks s.pool.task (held ws))) at,
    );
    left = λ h. elim (OneExits-swap before w w' after h) [
      | inl old ↦ kept old
      | inr new ↦ elim (leaves new) [ inl old ↦ kept old | inr now ↦ now ]
    ];
  }
    where
      kept : OneExits (before ++ w ∷ after) → (q.destorying ≡ true) × (ys ≡ [])
      kept old =
          let (destroyed, none_left) = fair.left (subst OneExits (sym at) old) in
          (d ∙ destroyed, empties none_left)

  -- The account after a call of `sync_queue_pop_front` by the thread in the middle.
  abbrev WentFair : List Worker → List Worker → Worker × SyncQueue → List Ptr → Type 0
  WentFair before after (w', q) zs =
      IsFair
        (record s {
          pool = record s.pool { threads = before ++ w' ∷ after; task_queue = q };
          taken = s.taken ++ taken_by s.pool.task calls w';
          ran = s.ran ++ [];
        })
        zs

  pop-WentFair :
      (before after : List Worker) (ys : List Ptr) (o : Pop)
      → s.pool.threads ≡ before ++ calls ∷ after
      → ys ≡ xs
      → Popped s.pool.task_queue ys o
      → Holds s.pool.task_queue ys
      → let p = after_pop s.pool.task_queue o in
        (zs : List Ptr) × WentFair before after p zs × Took ys p.0 zs
  pop-WentFair before after [] waits at e p h = (
    [],
    turn-IsFair before calls sleeps after s.pool.task_queue [] [] [] at h (ap (tasks s.pool.task) e)
        (λ test. refl) refl (λ e. refl) (λ x. absurd x),
    refl,
  )
  pop-WentFair before after (y ∷ ys) waits at e p h = absurd p
  pop-WentFair before after [] (returns t q) at e (d, is_null, same) h = (
    [],
    subst (λ (p : Worker × SyncQueue). WentFair before after p [])
        (λ i. (sym (exit_lem t is_null) i, sym same i))
        (turn-IsFair before calls exits after s.pool.task_queue [] [] [] at h
          (ap (tasks s.pool.task) e) (λ test. refl) refl (λ e. refl) (λ x. inr (d, refl))),
    refl,
  )
    where
      exit_lem :
          (t : Ptr) → t ≡ null → ◌≡◌ {A = Worker} (if t == null then exits else holds t) exits
      exit_lem t e = ground (arith, e)
  pop-WentFair before after (y ∷ ys) (returns t q) at e (first, rest, d) h = (
    ys,
    subst (λ (w : Worker). WentFair before after (w, q) ys) (sym (hold_lem t first h.chain.1))
        (turn-IsFair before calls (holds y) after q ys (s.pool.task y ∷ []) [] at rest
          (ap (tasks s.pool.task) e) (λ test. omega arith) d (λ n. absurd (cons_ne (e ∙ n)))
          (λ x. absurd x)),
    (hold_lem t first h.chain.1, refl),
  )
    where
      hold_lem :
          (t : Ptr)
          → t ≡ y
          → y ≢ null
          → ◌≡◌ {A = Worker} (if t == null then exits else holds t) (holds y)
      hold_lem t e ne = rw (e, ==-false y null ne) refl

      cons_ne : ◌≡◌ {A = List Ptr} (y ∷ ys) [] → ⊥
      cons_ne e = cc

  pub call-Took :
      (before after : List Worker)
      → s.pool.threads ≡ before ++ calls ∷ after
      → (zs : List Ptr) × IsFair (turned s before calls after) zs
        × Took xs (worker_step s.pool calls).0 zs
  unfolding worker_step
  call-Took before after at =
      pop-WentFair before after xs (sync_queue_pop_front s.pool.task_queue) at refl
        (pop_front-Popped s.pool.task_queue xs fair.queue) fair.queue

  pub hold-IsFair :
      (before : List Worker) (p : Ptr) (after : List Worker)
      → s.pool.threads ≡ before ++ holds p ∷ after
      → IsFair (turned s before (holds p) after) xs
  unfolding worker_step
  hold-IsFair before p after at =
      turn-IsFair before (holds p) calls after s.pool.task_queue xs [] (s.pool.task p ∷ []) at
        fair.queue refl (λ test. omega arith) refl (λ e. e) (λ x. absurd x)

  pub sleep-IsFair :
      (before after : List Worker)
      → s.pool.threads ≡ before ++ sleeps ∷ after
      → IsFair (turned s before sleeps after) xs
  unfolding worker_step
  sleep-IsFair before after at =
      turn-IsFair before sleeps calls after s.pool.task_queue xs [] [] at fair.queue refl
        (λ test. refl) refl (λ e. e) (λ x. absurd x)

  pub worker-IsFair :
      (before : List Worker) (w : Worker) (after : List Worker)
      → s.pool.threads ≡ before ++ w ∷ after
      → (zs : List Ptr) × IsFair (turned s before w after) zs
  unfolding worker_step
  worker-IsFair before calls after at =
      let (zs, fair', took) = call-Took before after at in (zs, fair')
  worker-IsFair before sleeps after at = (xs, sleep-IsFair before after at)
  worker-IsFair before exits after at = (
    xs,
    turn-IsFair before exits exits after s.pool.task_queue xs [] [] at fair.queue refl
        (λ test. refl) refl (λ e. e) (λ x. inl (OneExits-mid before after)),
  )
  worker-IsFair before (holds p) after at = (xs, hold-IsFair before p after at)

  pub signal-IsFair : IsFair (record s { pool = signal_destroy s.pool }) xs
  unfolding sync_queue_signal_destroy
  signal-IsFair = record {
    queue = record {
      chain = fair.queue.chain;
      distinct = fair.queue.distinct;
      at_end = fair.queue.at_end;
    };
    order = fair.order;
    once = fair.once;
    left = λ h. (refl, (fair.left h).1);
  }

  pub add-IsFair :
      (p : Ptr) (t : Task)
      → p ≢ null
      → NotIn p xs
      → NotIn p (held s.pool.threads)
      → (zs : List Ptr) × IsFair (added s p t) zs
  unfolding thread_pool_add_task
  add-IsFair p t ne new unheld =
      let (queue, d) = push_back-Pushed s.pool.task_queue p xs fair.queue ne new in
      let task' = set_task s.pool.task p t in
      let same = tasks-set_task s.pool.task p t xs new in
      let held_same = tasks-set_task s.pool.task p t (held s.pool.threads) unheld in
      let kept = λ (test : Task → Bool).
        fair.once test
        ∙ ap (λ (ts : List Task). count test s.ran + count test ts) (sym held_same) in
      elim (Bool-cases s.pool.task_queue.destorying) [
        | inl e ↦ (
          xs,
          record {
            queue =
                subst
                  (λ (b : Bool).
                    Holds (sync_queue_push_back s.pool.task_queue p)
                      (if b then xs else xs ++ p ∷ []))
                  e queue;
            order =
                ap (λ (ts : List Task). s.taken ++ ts) same
                ∙ fair.order
                ∙ sym (ap (λ (b : Bool). if b then s.accepted else s.accepted ++ t ∷ []) e);
            once = λ test. kept test;
            left = λ h. (d ∙ e, (fair.left h).1);
          },
        )
        | inr e ↦ (
          xs ++ p ∷ [],
          record {
            queue =
                subst
                  (λ (b : Bool).
                    Holds (sync_queue_push_back s.pool.task_queue p)
                      (if b then xs else xs ++ p ∷ []))
                  e queue;
            order =
                ap (λ (ts : List Task). s.taken ++ ts)
                  (tasks-append task' xs (p ∷ []) ∙ (λ i. same i ++ task_here s.pool.task p t i))
                ∙ sym (append_assoc s.taken (tasks s.pool.task xs) (t ∷ []))
                ∙ ap (λ (ts : List Task). ts ++ t ∷ []) fair.order
                ∙ sym (ap (λ (b : Bool). if b then s.accepted else s.accepted ++ t ∷ []) e);
            once = λ test. kept test;
            left = λ h. absurd (both s.pool.task_queue.destorying (fair.left h).0 e);
          },
        )
      ]

step-IsFair :
    (s s' : System) (xs : List Ptr) → IsFair s xs → Step s s' → (zs : List Ptr) × IsFair s' zs
step-IsFair s s' xs fair (adds p t ne new unheld) =
    add-IsFair s xs fair p t ne (new xs fair.queue) unheld
step-IsFair s s' xs fair (turns before w after at) = worker-IsFair s xs fair before w after at
step-IsFair s s' xs fair signals = (xs, signal-IsFair s xs fair)

none_held : (n : ℕ) → held (replicate n calls) ≡ []
none_held zero = refl
none_held (suc n) = none_held n

none_exits : (n : ℕ) → OneExits (replicate n calls) → ⊥
none_exits zero h = h
none_exits (suc n) h = none_exits n h

pub start-IsFair :
    (next : Ptr → Ptr) (task : Ptr → Task) (max initial : ℕ)
    → IsFair (start next task max initial) []
unfolding thread_pool_init
start-IsFair next task max initial = record {
  queue = init-Holds next;
  order = refl;
  once =
      λ test. omega (arith, ap (λ (ps : List Ptr). count test (tasks task ps)) (none_held initial));
  left = λ h. absurd (none_exits initial h);
}

-- After any steps of a new pool: the tasks are taken in the order in which they were accepted, and
-- those in the queue are the rest; of what was taken, each task has been run, or a thread holds it,
-- and none of both; and a thread has left only where the queue is being destroyed and is empty.
pub Steps-IsFair :
    (next : Ptr → Ptr) (task : Ptr → Task) (max initial : ℕ) (s : System)
    → Steps (start next task max initial) s
    → (xs : List Ptr) × IsFair s xs
Steps-IsFair next task max initial s steps =
    reached (start next task max initial) s steps [] (start-IsFair next task max initial)
  where
    reached :
        (s s' : System)
        → Steps s s'
        → (xs : List Ptr) → IsFair s xs
        → (zs : List Ptr) × IsFair s' zs
    reached s s' done xs fair = (xs, fair)
    reached s s' (more {s' = mid} before last) xs fair =
        let (ys, fair') = reached s mid before xs fair in step-IsFair mid s' ys fair' last
