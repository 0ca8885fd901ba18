-- ===== src/ObjectPool/Blocks.antt =====
-- The blocks of memory of object_pool.c, which the pool gives back when it is destroyed.
use oserver.Prelude.{ℕ, zero, suc, ◌<◌, ◌≡◌, ◌≢◌, some, List, [], ◌∷◌, arith, length}
use oserver.Chain.{Ptr, null, NotIn, Distinct, IsChain, IsChain-set_next}
use oserver.ObjectPool.{
  ObjectPool, object_pool_create, object_pool_acquire, object_pool_return, object_pool_expand,
  object_pool_destroy, free_blocks,
}

-- The blocks that the pool owns, the latest first.
pub record Owns (op : ObjectPool) (blocks : List Ptr) : Type 0 where
  pub chain : IsChain op.next_block op.memptr blocks
  pub distinct : Distinct blocks

pub create-Owns :
    (block : Ptr) (size num : ℕ) (op : ObjectPool)
    → block ≢ null
    → Owns (object_pool_create block size num op) (block ∷ [])
unfolding object_pool_create
create-Owns block size num op h = ground arith

pub expand-Owns :
    (block : Ptr) (num : ℕ) (op : ObjectPool) (blocks : List Ptr)
    → block ≢ null
    → NotIn block blocks
    → Owns op blocks
    → Owns (object_pool_expand block num op) (block ∷ blocks)
unfolding object_pool_expand
expand-Owns block num op blocks h new o =
    ground (arith, IsChain-set_next op.next_block block op.memptr op.memptr blocks new o.chain)

free_blocks-chain :
    (fuel : ℕ) (next_block : Ptr → Ptr) (p : Ptr) (blocks : List Ptr)
    → length blocks < fuel
    → IsChain next_block p blocks
    → free_blocks fuel next_block p ≡ some blocks
unfolding free_blocks
free_blocks-chain zero next_block p blocks h c = absurd (omega arith)
free_blocks-chain (suc fuel) next_block p [] h c = ground arith
free_blocks-chain (suc fuel) next_block p (x ∷ blocks) h c =
    ground (arith, free_blocks-chain fuel next_block (next_block x) blocks (omega arith) c.2)

-- What is freed, and that the pool kept its blocks until then.
abbrev pub Destroyed : ℕ → ObjectPool → List Ptr → Type 0
Destroyed fuel op blocks =
    (object_pool_destroy fuel op
      ≡ some (blocks, record op { memptr = null; available_objects = null }))
    × Owns (object_pool_acquire op).1 blocks
    × ((ob : Ptr) → Owns (object_pool_return op ob) blocks)

-- Handing objects out and taking them back leaves the pool its blocks, and with fuel for more rounds
-- than there are blocks the destruction ends, frees each of them once and leaves an empty pool.
pub destroy-Destroyed :
    (fuel : ℕ) (op : ObjectPool) (blocks : List Ptr)
    → length blocks < fuel
    → Owns op blocks
    → Destroyed fuel op blocks
unfolding object_pool_destroy object_pool_acquire object_pool_return
destroy-Destroyed fuel op blocks h o =
    ground (arith, free_blocks-chain fuel op.next_block op.memptr blocks h o.chain)
