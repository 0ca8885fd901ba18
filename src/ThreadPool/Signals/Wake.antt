-- ===== src/ThreadPool/Signals/Wake.antt =====
-- What the signals of sync_queue.c do to the threads.
use oserver.Prelude.{
  ℕ, zero, suc, ◌≡◌, refl, ap, Bool, true, false, List, [], ◌∷◌, ◌++◌, Bool-cases, inl, inr,
}
use oserver.Chain.{Ptr}
use oserver.ThreadPool.{Worker, calls, sleeps, exits, holds}
use oserver.ThreadPool.Steps.{held, OneExits}
use oserver.ThreadPool.Signals.{is_asleep, signal_one, roused, broadcast}

-- A thread calls `sync_queue_pop_front` or holds a task.
abbrev pub OneAwake : List Worker → Type 0
OneAwake [] = ⊥
OneAwake (calls ∷ ws) = Unit
OneAwake (holds p ∷ ws) = Unit
OneAwake (sleeps ∷ ws) = OneAwake ws
OneAwake (exits ∷ ws) = OneAwake ws

-- Waking changes neither the tasks that are held nor the threads that have left.
abbrev pub SameWork : List Worker → List Worker → Type 0
SameWork ws ws' = (held ws' ≡ held ws) × (OneExits ws' → OneExits ws)

pub signal_one-SameWork : (choice : ℕ) (ws : List Worker) → SameWork ws (signal_one choice ws)
unfolding signal_one
signal_one-SameWork choice [] = (refl, λ h. h)
signal_one-SameWork choice (calls ∷ ws) = signal_one-SameWork choice ws
signal_one-SameWork choice (exits ∷ ws) = ((signal_one-SameWork choice ws).0, λ h. tt)
signal_one-SameWork choice (holds p ∷ ws) =
    let (same, left) = signal_one-SameWork choice ws in (ap (λ (ps : List Ptr). p ∷ ps) same, left)
signal_one-SameWork zero (sleeps ∷ ws) = (refl, λ h. h)
signal_one-SameWork (suc choice) (sleeps ∷ ws) = elim (Bool-cases (is_asleep ws)) [
  | inl e ↦ rw (e) (signal_one-SameWork choice ws)
  | inr e ↦ rw (e) (refl, λ h. h)
]

pub broadcast-SameWork : (missed : ℕ → Bool) (ws : List Worker) → SameWork ws (broadcast missed ws)
unfolding broadcast
broadcast-SameWork missed [] = (refl, λ h. h)
broadcast-SameWork missed (w ∷ ws) =
    one w (missed 0) (broadcast (λ i. missed (suc i)) ws)
      (broadcast-SameWork (λ i. missed (suc i)) ws)
  where
    one :
        (w : Worker) (b : Bool) (ws' : List Worker)
        → SameWork ws ws'
        → SameWork (w ∷ ws) (roused b w ∷ ws')
    one calls true ws' s = s
    one calls false ws' s = s
    one sleeps true ws' s = s
    one sleeps false ws' s = s
    one exits true ws' s = (s.0, λ h. tt)
    one exits false ws' s = (s.0, λ h. tt)
    one (holds p) true ws' s = (ap (λ (ps : List Ptr). p ∷ ps) s.0, s.1)
    one (holds p) false ws' s = (ap (λ (ps : List Ptr). p ∷ ps) s.0, s.1)

-- Where there are threads and none has left, one is awake behind the signal.
abbrev pub HasThread : List Worker → Type 0
HasThread [] = ⊥
HasThread (w ∷ ws) = Unit

pub signal_one-HasThread :
    (choice : ℕ) (ws : List Worker) → HasThread ws → HasThread (signal_one choice ws)
unfolding signal_one
signal_one-HasThread choice [] h = h
signal_one-HasThread choice (calls ∷ ws) h = tt
signal_one-HasThread choice (exits ∷ ws) h = tt
signal_one-HasThread choice (holds p ∷ ws) h = tt
signal_one-HasThread zero (sleeps ∷ ws) h = tt
signal_one-HasThread (suc choice) (sleeps ∷ ws) h = elim (Bool-cases (is_asleep ws)) [
  | inl e ↦ rw (e) tt
  | inr e ↦ rw (e) tt
]

asleep-HasThread : (ws : List Worker) → is_asleep ws ≡ true → HasThread ws
asleep-HasThread [] e = absurd (cc)
asleep-HasThread (w ∷ ws) e = tt

pub signal_one-OneAwake :
    (choice : ℕ) (ws : List Worker)
    → HasThread ws
    → (OneExits ws → ⊥)
    → OneAwake (signal_one choice ws)
unfolding signal_one
signal_one-OneAwake choice [] some n = some
signal_one-OneAwake choice (calls ∷ ws) some n = tt
signal_one-OneAwake choice (exits ∷ ws) some n = absurd (n tt)
signal_one-OneAwake choice (holds p ∷ ws) some n = tt
signal_one-OneAwake zero (sleeps ∷ ws) some n = tt
signal_one-OneAwake (suc choice) (sleeps ∷ ws) some n = elim (Bool-cases (is_asleep ws)) [
  | inl e ↦ rw (e) (signal_one-OneAwake choice ws (asleep-HasThread ws e) n)
  | inr e ↦ rw (e) tt
]

pub broadcast-HasThread :
    (missed : ℕ → Bool) (ws : List Worker) → HasThread ws → HasThread (broadcast missed ws)
unfolding broadcast
broadcast-HasThread missed [] h = h
broadcast-HasThread missed (w ∷ ws) h = tt

pub broadcast-OneAwake :
    (missed : ℕ → Bool) (ws : List Worker) → OneAwake ws → OneAwake (broadcast missed ws)
unfolding broadcast
broadcast-OneAwake missed [] h = h
broadcast-OneAwake missed (w ∷ ws) h =
    one w (missed 0) (broadcast (λ i. missed (suc i)) ws)
      (broadcast-OneAwake (λ i. missed (suc i)) ws) h
  where
    one :
        (w : Worker) (b : Bool) (ws' : List Worker)
        → (OneAwake ws → OneAwake ws')
        → OneAwake (w ∷ ws)
        → OneAwake (roused b w ∷ ws')
    one calls true ws' f h = tt
    one calls false ws' f h = tt
    one sleeps true ws' f h = f h
    one sleeps false ws' f h = tt
    one exits true ws' f h = f h
    one exits false ws' f h = f h
    one (holds p) true ws' f h = tt
    one (holds p) false ws' f h = tt

pub OneAwake-calls : (before after : List Worker) → OneAwake (before ++ calls ∷ after)
OneAwake-calls [] after = tt
OneAwake-calls (calls ∷ before) after = tt
OneAwake-calls (holds p ∷ before) after = tt
OneAwake-calls (sleeps ∷ before) after = OneAwake-calls before after
OneAwake-calls (exits ∷ before) after = OneAwake-calls before after

pub OneAwake-holds : (p : Ptr) (before after : List Worker) → OneAwake (before ++ holds p ∷ after)
OneAwake-holds p [] after = tt
OneAwake-holds p (calls ∷ before) after = tt
OneAwake-holds p (holds q ∷ before) after = tt
OneAwake-holds p (sleeps ∷ before) after = OneAwake-holds p before after
OneAwake-holds p (exits ∷ before) after = OneAwake-holds p before after

pub HasThread-mid :
    (before : List Worker) (w : Worker) (after : List Worker) → HasThread (before ++ w ∷ after)
HasThread-mid [] w after = tt
HasThread-mid (v ∷ before) w after = tt
