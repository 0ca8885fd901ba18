-- ===== src/Examples/Pools.antt =====
-- Runs of the task queue and the object pool, and their theorems at concrete states.
use oserver.Prelude.{◌+◌, [], ◌∷◌, ◌++◌, arith}
use oserver.Chain.{Ptr, null}
use oserver.SyncQueue.{SyncQueue, sync_queue_init, sync_queue_push_back, sync_queue_pop_front}
use oserver.SyncQueue.Fifo.{Holds, Popped, pop_front-Popped}
use oserver.ObjectPool.{
  ObjectPool, object_pool_create, object_pool_expand, sizeof_memory, sizeof_object,
}
use oserver.ObjectPool.Free.{Free, strided, create-Free, expand-Free}
use oserver.ObjectPool.Blocks.{create-Owns, Destroyed, destroy-Destroyed}

abbrev no_links : Ptr → Ptr
no_links x = 0

abbrev empty_queue : SyncQueue
empty_queue = sync_queue_init no_links

abbrev two_tasks : SyncQueue
two_tasks = sync_queue_push_back (sync_queue_push_back empty_queue 8) 16

two_tasks-Holds : Holds two_tasks (8 ∷ 16 ∷ [])
unfolding sync_queue_init sync_queue_push_back
two_tasks-Holds = ground arith

pop_front-Popped_example : Popped two_tasks (8 ∷ 16 ∷ []) (sync_queue_pop_front two_tasks)
pop_front-Popped_example = pop_front-Popped two_tasks (8 ∷ 16 ∷ []) two_tasks-Holds

abbrev no_pool : ObjectPool
no_pool = record {
  available_objects = null;
  object_size = 0;
  memptr = null;
  next = no_links;
  next_block = no_links;
}

-- Three objects of 24 bytes.
abbrev pool : ObjectPool
pool = object_pool_create 4096 24 3 no_pool

pool-Free : Free pool (4104 ∷ 4128 ∷ 4152 ∷ [])
pool-Free = create-Free 4096 24 3 no_pool (omega arith) (omega arith)

expand-Free_example :
    Free
      (object_pool_expand 8192 2 pool)
      (strided 2 sizeof_object (8192 + sizeof_memory) ++ strided 3 24 (4096 + sizeof_memory))
expand-Free_example =
    expand-Free 8192 2 pool (strided 3 24 (4096 + sizeof_memory)) (omega arith)
      (
        ((λ e. omega arith), ((λ e. omega arith), ((λ e. omega arith), tt))),
        (((λ e. omega arith), ((λ e. omega arith), ((λ e. omega arith), tt))), tt),
      )
      pool-Free

destroy-Destroyed_example : Destroyed 2 pool (4096 ∷ [])
destroy-Destroyed_example =
    destroy-Destroyed 2 pool (4096 ∷ []) (omega arith)
      (create-Owns 4096 24 3 no_pool (λ e. omega arith))
