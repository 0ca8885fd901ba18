-- ===== src/SyncQueue/Fifo.antt =====
-- The queue of sync_queue.c holds a sequence: entries leave in the order in which they came.
use oserver.Prelude.{
  ◌≡◌, refl, ◌≢◌, true, false, List, [], ◌∷◌, ◌++◌, arith, ◌==◌, if◌then◌else◌, Bool-cases, inl,
  inr,
}
use oserver.Chain.{Ptr, null, set_next, NotIn, Distinct, IsChain, IsChain-set_next, Distinct-snoc}
use oserver.SyncQueue.{
  SyncQueue, sync_queue_init, sync_queue_push_back, Pop, waits, returns, sync_queue_pop_front,
}

abbrev pub last : List Ptr → Ptr
last [] = null
last (x ∷ []) = x
last (x ∷ y ∷ xs) = last (y ∷ xs)

-- The entries in the queue, first to last.
pub record Holds (q : SyncQueue) (xs : List Ptr) : Type 0 where
  pub chain : IsChain q.next q.head xs
  pub distinct : Distinct xs
  pub at_end : q.tail ≡ last xs

pub init-Holds : (next : Ptr → Ptr) → Holds (sync_queue_init next) []
unfolding sync_queue_init
init-Holds next = ground arith

last-ne :
    (x : Ptr) (xs : List Ptr) (next : Ptr → Ptr) (p : Ptr)
    → IsChain next p (x ∷ xs)
    → last (x ∷ xs) ≢ null
last-ne x [] next p c = c.1
last-ne x (y ∷ xs) next p c = last-ne y xs next (next x) c.2

last-snoc : (n : Ptr) (xs : List Ptr) → last (xs ++ n ∷ []) ≡ n
last-snoc n [] = refl
last-snoc n (x ∷ []) = refl
last-snoc n (x ∷ y ∷ xs) = last-snoc n (y ∷ xs)

NotIn-last : (a x : Ptr) (xs : List Ptr) → NotIn a (x ∷ xs) → a ≢ last (x ∷ xs)
NotIn-last a x [] h = h.0
NotIn-last a x (y ∷ xs) h = NotIn-last a y xs h.1

-- The links after the last entry has been made to point to the new one.
link_snoc :
    (next : Ptr → Ptr) (n p x : Ptr) (xs : List Ptr)
    → n ≢ null
    → NotIn n (x ∷ xs)
    → Distinct (x ∷ xs)
    → IsChain next p (x ∷ xs)
    → IsChain (set_next (set_next next n null) (last (x ∷ xs)) n) p ((x ∷ xs) ++ n ∷ [])
link_snoc next n p x [] ne new d c = ground arith
link_snoc next n p x (y ∷ xs) ne new d c =
    ground (arith, NotIn-last x y xs d.0, link_snoc next n (next x) y xs ne new.1 d.1 c.2)

-- The entries after a push.
abbrev pub Pushed : SyncQueue → Ptr → List Ptr → Type 0
Pushed q n xs =
    Holds (sync_queue_push_back q n) (if q.destorying then xs else xs ++ n ∷ [])
    × ((sync_queue_push_back q n).destorying ≡ q.destorying)

-- A task that is not in the queue becomes its last one while the queue is not being destroyed, and is
-- dropped after that; the queue stays well linked.
pub push_back-Pushed :
    (q : SyncQueue) (n : Ptr) (xs : List Ptr) → Holds q xs → n ≢ null → NotIn n xs → Pushed q n xs
unfolding sync_queue_push_back
push_back-Pushed q n [] h ne new = ground arith
push_back-Pushed q n (x ∷ xs) h ne new = ground (
  arith,
  last-ne x xs q.next q.head h.chain,
  last-snoc n (x ∷ xs),
  link_snoc q.next n q.head x xs ne new h.distinct h.chain,
  IsChain-set_next q.next n null q.head (x ∷ xs) new h.chain,
  Distinct-snoc n (x ∷ xs) h.distinct new,
)

-- The result of a call, and the entries after it.
abbrev pub Popped : SyncQueue → List Ptr → Pop → Type 0
Popped q [] waits = q.destorying ≡ false
Popped q (x ∷ xs) waits = ⊥
Popped q [] (returns p q') = (q.destorying ≡ true) × (p ≡ null) × (q' ≡ q)
Popped q (x ∷ xs) (returns p q') = (p ≡ x) × Holds q' xs × (q'.destorying ≡ q.destorying)

-- A call on an empty queue waits, or answers `NULL` if the queue is being destroyed; any other answers
-- the first entry, also during the destruction, and leaves the rest in order.
pub pop_front-Popped :
    (q : SyncQueue) (xs : List Ptr) → Holds q xs → Popped q xs (sync_queue_pop_front q)
unfolding sync_queue_pop_front
pop_front-Popped q [] h =
    let none_left : (q.head == null) ≡ true = ground arith in
    elim (Bool-cases q.destorying) [
      | inl d ↦ rw (none_left, d) (refl, refl, refl)
      | inr d ↦ rw (none_left, d) refl
    ]
pop_front-Popped q (x ∷ []) h = ground arith
pop_front-Popped q (x ∷ y ∷ xs) h = ground (arith, NotIn-last x y xs h.distinct.0)
