-- ===== src/Btree/Thread.antt =====
-- The threads of btree.c: `btree_node_threading`, `btree_build_in_order_threading` and
-- `btree_thread_traverse`. A pointer to a node is its key, where the node's links are changed, and
-- the tree below the node, where they are followed.
pub mod Links
pub mod Build
pub mod Located
pub mod Follow
pub mod Kept
use oserver.Prelude.{ℕ, zero, suc, Bool, true, false, Option, none, some, ◌==◌, if◌then◌else◌}
use oserver.Btree.{Tree, leaf, thread, node, btree_in_order_traverse}

module _ {ℓ} {V : Type ℓ} where
  -- `f` on the right link of every node, from the node's key.
  abbrev pub on_right : (ℕ → Tree V → Tree V) → Tree V → Tree V
  on_right f leaf = leaf
  on_right f (thread t) = thread t
  on_right f (node l k v b r) = node (on_right f l) k v b (f k (on_right f r))

  -- `f` on the right link of the node `q`.
  abbrev pub at_node : ℕ → (Tree V → Tree V) → ℕ → Tree V → Tree V
  at_node q f k r = if k == q then f r else r

  -- `if(node->rflag) { node->rflag = 0; node->rlink = NULL; }`
  abbrev pub clear : Tree V → Tree V
  clear (thread t) = leaf
  clear r = r

  -- `if(!(*pre)->rlink || (*pre)->rflag) { (*pre)->rlink = node; (*pre)->rflag = 1; }`
  abbrev pub point_to : ℕ → Tree V → Tree V
  point_to q leaf = thread q
  point_to q (thread t) = thread q
  point_to q (node l k v b r) = node l k v b r

  -- The state is `*pre` and the tree.
  unfoldable pub btree_node_threading : ℕ → V → Option ℕ × Tree V → Option ℕ × Tree V
  btree_node_threading q w (pre, heap) =
      let heap' = on_right (at_node q clear) heap in
      (some q, elim pre [ none ↦ heap' | some p ↦ on_right (at_node p (point_to q)) heap' ])

  -- The traversal reads a node's right link after the visit, which changes no link that leads to a
  -- child: it goes over the tree as it was.
  unfoldable pub btree_build_in_order_threading : Tree V → Tree V
  unfolding btree_node_threading
  btree_build_in_order_threading tree =
      (btree_in_order_traverse btree_node_threading tree (none, tree)).1

  -- `while(node->llink) node = node->llink;`
  abbrev pub leftmost : Tree V → Tree V
  leftmost (node (node l' k' v' b' r') k v b r) = leftmost (node l' k' v' b' r')
  leftmost t = t

  abbrev pub or_else : Tree V → Tree V → Tree V
  or_else (node l k v b r) t = node l k v b r
  or_else _ t = t

  -- The node of a key; `leaf` where there is none.
  unfoldable pub find_node : ℕ → Tree V → Tree V
  find_node q leaf = leaf
  find_node q (thread t) = leaf
  find_node q (node l k v b r) =
      if k == q then node l k v b r else or_else (find_node q l) (find_node q r)

  -- The visitor is handed a node, or `none` for `NULL` at the end; it answers whether to stop.
  module _ {κ} {S : Type κ} (visit : Option (ℕ × V) → S → Bool × S) where
    -- The two loops from the visit of a node on, with fuel for the nodes. `none` is a fault, where a
    -- thread leads to no node, or the fuel ran out.
    unfoldable pub visit_from : ℕ → Tree V → Tree V → S → Option S
    unfolding find_node
    visit_from zero root n s = none
    visit_from (suc fuel) root leaf s = none
    visit_from (suc fuel) root (thread t) s = none
    visit_from (suc fuel) root (node l k v b leaf) s =
        let (stop, s') = visit (some (k, v)) s in if stop then some s' else some (visit none s').1
    visit_from (suc fuel) root (node l k v b (thread t)) s =
        let (stop, s') = visit (some (k, v)) s in
        let rest = visit_from fuel root (find_node t root) s' in if stop then some s' else rest
    visit_from (suc fuel) root (node l k v b (node l' k' v' b' r')) s =
        let (stop, s') = visit (some (k, v)) s in
        let rest = visit_from fuel root (leftmost (node l' k' v' b' r')) s' in
        if stop then some s' else rest

    -- From `start`, which is a node of the tree `root`, or `NULL`; it is no thread.
    unfoldable pub btree_thread_traverse : ℕ → Tree V → Tree V → S → Option S
    unfolding visit_from
    btree_thread_traverse fuel root leaf s = some (visit none s).1
    btree_thread_traverse fuel root (thread t) s = some (visit none s).1
    btree_thread_traverse fuel root (node l k v b r) s =
        visit_from fuel root (leftmost (node l k v b r)) s
