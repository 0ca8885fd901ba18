-- ===== src/Btree.antt =====
-- btree.c and btree.h: the AVL tree that holds a message's headers. A tree of nodes owned by their
-- parents is a value; a node's payload (`http_header_t` without its `bt_node_entry_t`) is `V`.
pub mod Entries
pub mod Avl
pub mod Contents
pub mod Traversal
pub mod Insert
pub mod Thread
use Prim.Native.Nat.{compare, Ordering}
use oserver.Prelude.{
  ℕ, ◌+◌, ◌-◌, ◌%◌, Bool, true, false, ◌&&◌, Option, none, some, ltb, leb, ◌==◌, if◌then◌else◌,
}

-- `bt_node_entry_t *`. A `bt_key_t` is only compared, so a key is the number that stands for it in
-- order. A `balance_factor` is the bit pattern of its `int8_t`. `thread t` in place of a right
-- child is `rflag == 1` with `rlink` at the node of key `t`; `leaf` is `NULL`.
pub data Tree {ℓ} (V : Type ℓ) : Type ℓ where
  leaf : Tree V
  thread : ℕ → Tree V
  node : Tree V → ℕ → V → ℕ → Tree V → Tree V

-- `e_insert_result_t`
pub data InsertResult : Type 0 where
  insert_exist insert_ok insert_left insert_right insert_balanced : InsertResult

-- `int8_t` arithmetic on bit patterns
abbrev pub int8_add : ℕ → ℕ → ℕ
int8_add a b = (a + b) % 256

abbrev pub int8_sub : ℕ → ℕ → ℕ
int8_sub a b = (a + 512 - b) % 256

abbrev pub is_negative : ℕ → Bool
is_negative b = leb 128 b

abbrev pub is_positive : ℕ → Bool
is_positive b = ltb 0 b && ltb b 128

-- `1 - b` where `b` is negative, so that the difference is a positive `int`
abbrev pub one_minus : ℕ → ℕ
one_minus b = 1 + (256 - b)

-- `e_insert_exist` is the one result that is not positive.
abbrev pub is_inserted : InsertResult → Bool
is_inserted insert_exist = false
is_inserted _ = true

infixl 5 ◌>>=◌
abbrev pub ◌>>=◌ {ℓ κ} : {A : Type ℓ} {B : Type κ} → Option A → (A → Option B) → Option B
none >>= f = none
some a >>= f = f a

module _ {ℓ} {V : Type ℓ} where
  abbrev pub balance_of : Tree V → ℕ
  balance_of leaf = 0
  balance_of (thread t) = 0
  balance_of (node l k v b r) = b

  -- `rflag ? NULL : rlink`
  abbrev pub unthread : Tree V → Tree V
  unthread leaf = leaf
  unthread (thread t) = leaf
  unthread (node l k v b r) = node l k v b r

  unfoldable pub btree_init : Tree V
  btree_init = leaf

  -- `none` is a fault: a missing child is dereferenced, or a thread taken for one.
  unfoldable pub btree_left_rotate : Tree V → Option (Tree V)
  btree_left_rotate (node a k v b (node c k' v' n r)) =
      let b' = int8_add b (if is_negative n then one_minus n else 1) in
      let n' = int8_add n (if is_positive b' then 1 + b' else 1) in
      some (node (node a k v b' c) k' v' n' r)
  btree_left_rotate _ = none

  unfoldable pub btree_right_rotate : Tree V → Option (Tree V)
  btree_right_rotate (node (node a k' v' n c) k v b r) =
      let b' = int8_sub b (if is_positive n then 1 + n else 1) in
      let n' = int8_sub n (if is_negative b' then one_minus b' else 1) in
      some (node a k' v' n' (node (unthread c) k v b' r))
  btree_right_rotate _ = none

  -- `assert((*root)->balance_factor == 0)`
  unfoldable pub assert_balanced : Tree V → Option (Tree V)
  assert_balanced t = if balance_of t == 0 then some t else none

  -- The body of `if(--(*root)->balance_factor == -2)`
  unfoldable pub right_rebalance : Tree V → ℕ → V → ℕ → InsertResult → Tree V → Option (Tree V)
  right_rebalance l k v b ret r = do
    r' ← elim ret [ insert_left ↦ btree_right_rotate r | _ ↦ some r ]
    t ← btree_left_rotate (node l k v b r')
    assert_balanced t

  -- What follows the recursive call on the right link, which has returned `ret`.
  unfoldable pub right_inserted :
      Tree V → ℕ → V → ℕ → InsertResult → Tree V → Option (InsertResult × Tree V)
  unfolding right_rebalance
  right_inserted l k v b insert_exist r = some (insert_exist, node l k v b r)
  right_inserted l k v b insert_balanced r = some (insert_balanced, node l k v b r)
  right_inserted l k v b ret r = do
    let b' = int8_sub b 1
    t ← if b' == 254 then right_rebalance l k v b' ret r else some (node l k v b' r)
    some (if balance_of t == 0 then insert_balanced else insert_right, t)

  -- The body of `if(++(*root)->balance_factor == 2)`
  unfoldable pub left_rebalance : Tree V → ℕ → V → ℕ → InsertResult → Tree V → Option (Tree V)
  left_rebalance r k v b ret l = do
    l' ← elim ret [ insert_right ↦ btree_left_rotate l | _ ↦ some l ]
    t ← btree_right_rotate (node l' k v b r)
    assert_balanced t

  unfoldable pub left_inserted :
      Tree V → ℕ → V → ℕ → InsertResult → Tree V → Option (InsertResult × Tree V)
  unfolding left_rebalance
  left_inserted r k v b insert_exist l = some (insert_exist, node l k v b r)
  left_inserted r k v b insert_balanced l = some (insert_balanced, node l k v b r)
  left_inserted r k v b ret l = do
    let b' = int8_add b 1
    t ← if b' == 2 then left_rebalance r k v b' ret l else some (node l k v b' r)
    some (if balance_of t == 0 then insert_balanced else insert_left, t)

  -- The new node has the key `q` and the payload `w`; `btree_insert` has cleared its other fields.
  -- On the way to the right a thread is cleared first, so that the call sees `NULL`.
  unfoldable pub btree_internal_insert : Tree V → ℕ → V → Option (InsertResult × Tree V)
  btree_internal_insert leaf q w = some (insert_ok, node leaf q w 0 leaf)
  btree_internal_insert (thread t) q w = some (insert_ok, node leaf q w 0 leaf)
  btree_internal_insert (node l k v b r) q w = elim (compare q k) [
    | Ordering.eq ↦ some (insert_exist, node l k v b r)
    | Ordering.gt ↦ btree_internal_insert r q w >>= λ (ret, r'). right_inserted l k v b ret r'
    | Ordering.lt ↦ btree_internal_insert l q w >>= λ (ret, l'). left_inserted r k v b ret l'
  ]

  -- The result is the flag 1 or 0 and the new root.
  unfoldable pub btree_insert : Tree V → ℕ → V → Option (Bool × Tree V)
  unfolding btree_internal_insert
  btree_insert t q w = btree_internal_insert t q w >>= λ (ret, t'). some (is_inserted ret, t')

  -- The traversals hand their visitor the node and a state, which is what `data` points at.
  module _ {κ} {S : Type κ} (visit : ℕ → V → S → S) where
    unfoldable pub btree_pre_order_traverse : Tree V → S → S
    btree_pre_order_traverse leaf s = s
    btree_pre_order_traverse (thread t) s = s
    btree_pre_order_traverse (node l k v b r) s =
        btree_pre_order_traverse r (btree_pre_order_traverse l (visit k v s))

    unfoldable pub btree_in_order_traverse : Tree V → S → S
    btree_in_order_traverse leaf s = s
    btree_in_order_traverse (thread t) s = s
    btree_in_order_traverse (node l k v b r) s =
        btree_in_order_traverse r (visit k v (btree_in_order_traverse l s))

    unfoldable pub btree_post_order_traverse : Tree V → S → S
    btree_post_order_traverse leaf s = s
    btree_post_order_traverse (thread t) s = s
    btree_post_order_traverse (node l k v b r) s =
        visit k v (btree_post_order_traverse r (btree_post_order_traverse l s))

    unfoldable pub btree_visit : Tree V → ℕ → S → S
    btree_visit leaf q s = s
    btree_visit (thread t) q s = s
    btree_visit (node l k v b r) q s = elim (compare q k) [
      | Ordering.eq ↦ visit k v s
      | Ordering.gt ↦ btree_visit r q s
      | Ordering.lt ↦ btree_visit l q s
    ]
