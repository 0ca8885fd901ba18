-- ===== src/ObjectPool.antt =====
-- object_pool.c and object_pool.h: a free list through the objects of one block of memory.
pub mod Free
pub mod Blocks
use oserver.Prelude.{
  ℕ, zero, suc, ◌+◌, ◌-◌, ◌*◌, Option, none, some, List, [], ◌∷◌, ◌==◌, if◌then◌else◌,
}
use oserver.Chain.{Ptr, null, set_next}

-- `object_pool_t` with the field `next` of every object and the field `next` of every block.
pub record ObjectPool : Type 0 where
  pub available_objects : Ptr
  pub object_size : ℕ
  pub memptr : Ptr
  pub next : Ptr → Ptr
  pub next_block : Ptr → Ptr

-- `sizeof(memory_t)` and `sizeof(object_t)`: one pointer.
abbrev pub sizeof_memory : ℕ
sizeof_memory = 8

abbrev pub sizeof_object : ℕ
sizeof_object = 8

-- `for(; mem < end; mem += size) ((object_t*)mem)->next = (object_t*)(mem + size);`, with the rounds
-- that are left; the loop ends with `mem` at the last object.
unfoldable pub carve : ℕ → ℕ → Ptr → (Ptr → Ptr) → Ptr × (Ptr → Ptr)
carve zero size mem next = (mem, next)
carve (suc rounds) size mem next = carve rounds size (mem + size) (set_next next mem (mem + size))

-- `block` is what `malloc` returns. The loop runs from the first object to `end = mem + len - size`,
-- which are `num - 1` rounds where `num` is not 0.
unfoldable pub object_pool_create : Ptr → ℕ → ℕ → ObjectPool → ObjectPool
unfolding carve
object_pool_create block size num op =
    let mem = block + sizeof_memory in
    let (at_last, next') = carve (num - 1) size mem op.next in
    record {
      available_objects = mem;
      object_size = size;
      memptr = block;
      next = set_next next' at_last null;
      next_block = set_next op.next_block block null;
    }

unfoldable pub object_pool_acquire : ObjectPool → Option Ptr × ObjectPool
object_pool_acquire op =
    if op.available_objects == null
    then (none, op)
    else (some op.available_objects, record op { available_objects = op.next op.available_objects })

-- Both branches write what is the free list into the object.
unfoldable pub object_pool_return : ObjectPool → Ptr → ObjectPool
object_pool_return op ob =
    if op.available_objects == null
    then record op { next = set_next op.next ob null; available_objects = ob }
    else record op { next = set_next op.next ob op.available_objects; available_objects = ob }

-- The blocks that are freed, with fuel for the chain of blocks.
unfoldable pub free_blocks : ℕ → (Ptr → Ptr) → Ptr → Option (List Ptr)
free_blocks zero next_block ptr = none
free_blocks (suc fuel) next_block ptr =
    let rest = free_blocks fuel next_block (next_block ptr) in
    if ptr == null then some [] else elim rest [ none ↦ none | some freed ↦ some (ptr ∷ freed) ]

unfoldable pub object_pool_destroy : ℕ → ObjectPool → Option (List Ptr × ObjectPool)
unfolding free_blocks
object_pool_destroy fuel op = elim (free_blocks fuel op.next_block op.memptr) [
  | none ↦ none
  | some freed ↦ some (freed, record op { memptr = null; available_objects = null })
]

-- `for(i = 0; i < num - 1; ++i) optr[i].next = &optr[i + 1];` steps by `sizeof(object_t)`.
unfoldable pub object_pool_expand : Ptr → ℕ → ObjectPool → ObjectPool
unfolding carve
object_pool_expand block num op =
    let optr = block + sizeof_memory in
    let (at_last, next') = carve (num - 1) sizeof_object optr op.next in
    record op {
      available_objects = optr;
      memptr = block;
      next = set_next next' at_last op.available_objects;
      next_block = set_next op.next_block block op.memptr;
    }
