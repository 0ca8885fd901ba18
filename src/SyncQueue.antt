-- ===== src/SyncQueue.antt =====
-- sync_queue.c and sync_queue.h: the queue of tasks. Each function below is what runs between
-- `pthread_mutex_lock` and `pthread_mutex_unlock`, which is one atomic step.
pub mod Fifo
use oserver.Prelude.{ℕ, Bool, true, false, not, ◌&&◌, List, [], ◌∷◌, ◌==◌, if◌then◌else◌}
use oserver.Chain.{Ptr, null, set_next}

-- `sync_queue_t` with the field `next` of every entry.
pub record SyncQueue : Type 0 where
  pub head : Ptr
  pub tail : Ptr
  pub destorying : Bool
  pub next : Ptr → Ptr

unfoldable pub sync_queue_init : (Ptr → Ptr) → SyncQueue
sync_queue_init next = record { head = null; tail = null; destorying = false; next = next }

-- `ele->next` is written before the lock is taken.
unfoldable pub sync_queue_push_back : SyncQueue → Ptr → SyncQueue
sync_queue_push_back q ele =
    let next' = set_next q.next ele null in
    if not q.destorying
    then (if q.tail == null
        then record q { tail = ele; head = ele; next = next' }
        else record q { tail = ele; next = set_next next' q.tail ele })
    else record q { next = next' }

-- What `sync_queue_pop_front` comes to when it holds the lock: it waits for the condition, which
-- gives the lock away, or it returns a pointer.
pub data Pop : Type 0 where
  waits : Pop
  returns : Ptr → SyncQueue → Pop

-- `if(queue->head) { … }`
unfoldable pub take_head : SyncQueue → Pop
take_head q =
    if q.head == null
    then returns null q
    else let ret = q.head in
      let head' = q.next ret in
      returns ret (record q { head = head'; tail = (if q.tail == ret then head' else q.tail) })

unfoldable pub sync_queue_pop_front : SyncQueue → Pop
unfolding take_head
sync_queue_pop_front q = if not q.destorying && (q.head == null) then waits else take_head q

-- Written without the lock; the broadcast wakes every waiting call.
unfoldable pub sync_queue_signal_destroy : SyncQueue → SyncQueue
sync_queue_signal_destroy q = record q { destorying = true }
