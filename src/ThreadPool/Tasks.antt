-- ===== src/ThreadPool/Tasks.antt =====
-- The tasks in the hands of the threads of thread_pool.c, and in its queue, counted.
use oserver.Prelude.{
  ◌+◌, ◌≡◌, ◌⊎◌, refl, sym, ap, Bool, true, false, List, [], ◌∷◌, ◌++◌, ◌==◌, ==-false, arith, inl,
  inr,
}
use oserver.Chain.{Ptr, NotIn}
use oserver.ThreadPool.{Task, Worker, calls, sleeps, exits, holds, set_task}
use oserver.ThreadPool.Steps.{held, count, tasks, OneExits}

pub count-append :
    (test : Task → Bool) (ts us : List Task) → count test (ts ++ us) ≡ count test ts + count test us
count-append test [] us = omega arith
count-append test (t ∷ ts) us = omega (arith, count-append test ts us)

pub count-held :
    (test : Task → Bool) (task : Ptr → Task) (before : List Worker) (w : Worker)
    (after : List Worker)
    → count test (tasks task (held (before ++ w ∷ after)))
      ≡ count test (tasks task (held (before ++ after))) + count test (tasks task (held (w ∷ [])))
count-held test task [] calls after = omega arith
count-held test task [] sleeps after = omega arith
count-held test task [] exits after = omega arith
count-held test task [] (holds p) after = omega arith
count-held test task (calls ∷ before) w after = count-held test task before w after
count-held test task (sleeps ∷ before) w after = count-held test task before w after
count-held test task (exits ∷ before) w after = count-held test task before w after
count-held test task (holds p ∷ before) w after = omega (arith, count-held test task before w after)

pub OneExits-swap :
    (before : List Worker) (w w' : Worker) (after : List Worker)
    → OneExits (before ++ w' ∷ after)
    → OneExits (before ++ w ∷ after) ⊎ OneExits (w' ∷ [])
OneExits-swap [] w exits after h = inr tt
OneExits-swap [] calls calls after h = inl h
OneExits-swap [] sleeps calls after h = inl h
OneExits-swap [] exits calls after h = inl tt
OneExits-swap [] (holds p) calls after h = inl h
OneExits-swap [] calls sleeps after h = inl h
OneExits-swap [] sleeps sleeps after h = inl h
OneExits-swap [] exits sleeps after h = inl tt
OneExits-swap [] (holds p) sleeps after h = inl h
OneExits-swap [] calls (holds q) after h = inl h
OneExits-swap [] sleeps (holds q) after h = inl h
OneExits-swap [] exits (holds q) after h = inl tt
OneExits-swap [] (holds p) (holds q) after h = inl h
OneExits-swap (exits ∷ before) w w' after h = inl tt
OneExits-swap (calls ∷ before) w w' after h = OneExits-swap before w w' after h
OneExits-swap (sleeps ∷ before) w w' after h = OneExits-swap before w w' after h
OneExits-swap (holds p ∷ before) w w' after h = OneExits-swap before w w' after h

pub OneExits-mid : (before after : List Worker) → OneExits (before ++ exits ∷ after)
OneExits-mid [] after = tt
OneExits-mid (exits ∷ before) after = tt
OneExits-mid (calls ∷ before) after = OneExits-mid before after
OneExits-mid (sleeps ∷ before) after = OneExits-mid before after
OneExits-mid (holds p ∷ before) after = OneExits-mid before after

pub both : (b : Bool) → b ≡ true → b ≡ false → ⊥
both b e e' = cc

-- A write to the memory of a new task leaves the others.
pub tasks-set_task :
    (task : Ptr → Task) (p : Ptr) (t : Task) (xs : List Ptr)
    → NotIn p xs
    → tasks (set_task task p t) xs ≡ tasks task xs
tasks-set_task task p t [] h = refl
tasks-set_task task p t (x ∷ xs) h =
    rw (==-false x p (λ e. h.0 (sym e)), tasks-set_task task p t xs h.1) refl

pub tasks-append :
    (task : Ptr → Task) (xs ys : List Ptr) → tasks task (xs ++ ys) ≡ tasks task xs ++ tasks task ys
tasks-append task [] ys = refl
tasks-append task (x ∷ xs) ys = ap (λ (ts : List Task). task x ∷ ts) (tasks-append task xs ys)

-- The task at its own address.
pub task_here :
    (task : Ptr → Task) (p : Ptr) (t : Task) → tasks (set_task task p t) (p ∷ []) ≡ t ∷ []
task_here task p t = let here : (p == p) ≡ true = ground arith in rw (here) refl
