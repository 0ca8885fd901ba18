-- ===== src/ThreadPool/Signals/Delivery.antt =====
-- With the signals of sync_queue.c alone, no task is left behind by threads that all wait.
use oserver.Prelude.{
  ℕ, zero, suc, ◌<◌, ◌≡◌, ◌≢◌, refl, sym, ap, subst, ◌∙◌, List, [], ◌∷◌, ◌++◌, append-nil, arith,
}
use oserver.Chain.{Ptr}
use oserver.ThreadPool.{Task, Worker, calls, sleeps, exits, holds, thread_pool_init, worker_step}
use oserver.ThreadPool.Steps.{System, turned, start, IsFair}
use oserver.ThreadPool.Fair.{call-Took, hold-IsFair, start-IsFair}
use oserver.ThreadPool.Signals.{
  SignalStep, pushes, goes, destroys, SignalSteps, nothing, then_step, ThreadSteps, no_step,
  and_then,
}
use oserver.ThreadPool.Signals.Wake.{OneAwake}
use oserver.ThreadPool.Signals.Progress.{IsAlert, goes-IsAlert, destroy-IsAlert, push-IsAlert}

step-IsAlert :
    (s s' : System) (xs : List Ptr)
    → IsAlert s xs
    → SignalStep s s'
    → (zs : List Ptr) × IsAlert s' zs
step-IsAlert s s' xs alert (pushes p t choice ne new unheld) =
    push-IsAlert s xs alert p t choice ne (new xs alert.0.queue) unheld
step-IsAlert s s' xs alert (goes before w after at ne) =
    goes-IsAlert s xs alert before w after at ne
step-IsAlert s s' xs alert (destroys missed) = (xs, destroy-IsAlert s xs alert missed)

steps-IsAlert :
    (s s' : System)
    → SignalSteps s s'
    → (xs : List Ptr) → IsAlert s xs
    → (zs : List Ptr) × IsAlert s' zs
steps-IsAlert s s' nothing xs alert = (xs, alert)
steps-IsAlert s s' (then_step {s' = mid} before last) xs alert =
    let (ys, alert') = steps-IsAlert s mid before xs alert in step-IsAlert mid s' ys alert' last

start-IsAlert :
    (next : Ptr → Ptr) (task : Ptr → Task) (max initial : ℕ)
    → 0 < initial
    → IsAlert (start next task max initial) []
unfolding thread_pool_init
start-IsAlert next task max zero some = absurd (omega (arith, some))
start-IsAlert next task max (suc n) some = (start-IsFair next task max (suc n), tt, λ h. tt)

-- Where the thread that is awake stands, and what it is.
AwakeAt : List Worker → Type 0
AwakeAt ws =
    (before : List Worker) × (w : Worker) × (after : List Worker) × (ws ≡ before ++ w ∷ after)
    × OneAwake (w ∷ [])

awake_at : (ws : List Worker) → OneAwake ws → AwakeAt ws
unfolding AwakeAt
awake_at [] h = absurd h
awake_at (calls ∷ ws) h = ([], calls, ws, refl, tt)
awake_at (holds p ∷ ws) h = ([], holds p, ws, refl, tt)
awake_at (sleeps ∷ ws) h =
    let (before, w, after, e, a) = awake_at ws h in
    (sleeps ∷ before, w, after, ap (λ (ws : List Worker). sleeps ∷ ws) e, a)
awake_at (exits ∷ ws) h =
    let (before, w, after, e, a) = awake_at ws h in
    (exits ∷ before, w, after, ap (λ (ws : List Worker). exits ∷ ws) e, a)

-- Threads that do not wait can go on to a state in which every task that `s` has accepted is taken.
abbrev TakesAll : System → Type 0
TakesAll s = (s' : System) × ThreadSteps s s' × (s'.taken ≡ s.accepted)

ThreadSteps-trans :
    {s s' : System} (s'' : System) → ThreadSteps s s' → ThreadSteps s' s'' → ThreadSteps s s''
ThreadSteps-trans s'' first no_step = first
ThreadSteps-trans s'' first (and_then {s' = mid} before w after steps at ne) =
    and_then before w after (ThreadSteps-trans mid first steps) at ne

after_turn :
    (s : System) (before : List Worker) (w : Worker) (after : List Worker)
    → s.pool.threads ≡ before ++ w ∷ after
    → w ≢ sleeps
    → TakesAll (turned s before w after)
    → TakesAll s
after_turn s before w after at ne (s', steps, taken) =
    (s', ThreadSteps-trans s' (and_then before w after no_step at ne) steps, taken)

calls-TakesAll :
    (xs : List Ptr) (s : System) (before after : List Worker)
    → IsFair s xs
    → s.pool.threads ≡ before ++ calls ∷ after
    → TakesAll s
unfolding worker_step
calls-TakesAll [] s before after fair at = (s, no_step, sym (append-nil s.taken) ∙ fair.order)
calls-TakesAll (y ∷ ys) s before after fair at =
    let (zs, fair', (held, left)) = call-Took s (y ∷ ys) fair before after at in
    let s' = turned s before calls after in
    let at' : s'.pool.threads ≡ before ++ holds y ∷ after =
      ap (λ (w : Worker). before ++ w ∷ after) held in
    let fair_ys : IsFair s' ys = subst (IsFair s') left fair' in
    after_turn s before calls after at (λ e. cc)
      (after_turn s' before (holds y) after at' (λ e. cc)
        (calls-TakesAll ys (turned s' before (holds y) after) before after
          (hold-IsFair s' ys fair_ys before y after at') refl))

awake-TakesAll :
    (w : Worker) (xs : List Ptr) (s : System) (before after : List Worker)
    → IsFair s xs
    → s.pool.threads ≡ before ++ w ∷ after
    → OneAwake (w ∷ [])
    → TakesAll s
unfolding worker_step
awake-TakesAll calls xs s before after fair at a = calls-TakesAll xs s before after fair at
awake-TakesAll sleeps xs s before after fair at a = absurd a
awake-TakesAll exits xs s before after fair at a = absurd a
awake-TakesAll (holds p) xs s before after fair at a =
    after_turn s before (holds p) after at (λ e. cc)
      (calls-TakesAll xs (turned s before (holds p) after) before after
        (hold-IsFair s xs fair before p after at) refl)

alert-TakesAll : (s : System) (xs : List Ptr) → IsAlert s xs → TakesAll s
unfolding AwakeAt
alert-TakesAll s [] alert = (s, no_step, sym (append-nil s.taken) ∙ alert.0.order)
alert-TakesAll s (y ∷ ys) alert =
    let chain = alert.0.queue.chain in
    let (before, w, after, at, a) =
      awake_at s.pool.threads (alert.2 (λ e. chain.1 (sym chain.0 ∙ e))) in
    awake-TakesAll w (y ∷ ys) s before after alert.0 at a

-- In every state that a pool with a thread comes to, where a thread that waits wakes only by a signal
-- or the broadcast, of which a signal goes to any thread and the broadcast may miss any, the threads
-- that do not wait can go on, with nothing added and no further signal or broadcast, until every task
-- that has been accepted is taken, in the order of acceptance.
pub SignalSteps-TakesAll :
    (next : Ptr → Ptr) (task : Ptr → Task) (max initial : ℕ) (s : System)
    → 0 < initial
    → SignalSteps (start next task max initial) s
    → (s' : System) × ThreadSteps s s' × (s'.taken ≡ s.accepted)
SignalSteps-TakesAll next task max initial s some steps =
    let (xs, alert) =
      steps-IsAlert (start next task max initial) s steps []
        (start-IsAlert next task max initial some) in
    alert-TakesAll s xs alert
