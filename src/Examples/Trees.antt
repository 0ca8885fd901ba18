-- ===== src/Examples/Trees.antt =====
-- Runs of btree.c, and its theorems at concrete trees.
use oserver.Prelude.{ℕ, ◌+◌, ◌≡◌, refl, true, some, arith}
use oserver.Btree.{
  Tree, leaf, thread, node, insert_balanced, btree_internal_insert, btree_insert, btree_visit,
  right_inserted, left_inserted, btree_right_rotate, btree_left_rotate, assert_balanced,
}
use oserver.Btree.Avl.{Inserted, internal_insert-Inserted}
use oserver.Btree.Entries.{lookup, kept_or}
use oserver.Btree.Contents.{entries}
use oserver.Btree.Traversal.{visited, visit-lookup}
use oserver.Btree.Insert.{IsTree, InsertedInto, insert-InsertedInto, visit-insert}

-- Three nodes with a thread from the first to the second.
abbrev three : Tree ℕ
three = node (node leaf 10 100 0 (thread 20)) 20 200 0 (node leaf 30 300 0 leaf)

three-IsTree : IsTree three
three-IsTree = record { avl = omega arith; sorted = omega arith }

-- The insertion below 10 clears the thread.
insert_fifteen :
    btree_insert three 15 150
    ≡ some (
      true,
      node (node leaf 10 100 255 (node leaf 15 150 0 leaf)) 20 200 1 (node leaf 30 300 0 leaf),
    )
unfolding btree_insert right_inserted left_inserted
insert_fifteen = refl

-- A double rotation.
insert_rotates :
    btree_internal_insert {V = ℕ} (node leaf 10 100 255 (node leaf 30 300 0 leaf)) 20 200
    ≡ some (insert_balanced, node (node leaf 10 100 0 leaf) 20 200 0 (node leaf 30 300 0 leaf))
unfolding btree_internal_insert right_inserted left_inserted btree_right_rotate btree_left_rotate
    assert_balanced
insert_rotates = refl

internal_insert-Inserted_example : Inserted three (btree_internal_insert three 15 150)
internal_insert-Inserted_example = internal_insert-Inserted three 15 150 three-IsTree.avl

insert-InsertedInto_example : (t' : Tree ℕ) × InsertedInto three 15 150 t'
insert-InsertedInto_example = insert-InsertedInto three 15 150 three-IsTree

abbrev sum_values : ℕ → ℕ → ℕ → ℕ
sum_values k v s = s + v

visit-lookup_example :
    btree_visit sum_values three 30 1 ≡ visited sum_values 30 1 (lookup 30 (entries three))
visit-lookup_example = visit-lookup sum_values three 30 1 three-IsTree.sorted

visit-insert_example :
    btree_visit sum_values
      (node (node leaf 10 100 255 (node leaf 15 150 0 leaf)) 20 200 1 (node leaf 30 300 0 leaf))
      15
      1
    ≡ visited sum_values 15 1 (kept_or 150 (lookup 15 (entries three)))
visit-insert_example =
    visit-insert sum_values three
      (node (node leaf 10 100 255 (node leaf 15 150 0 leaf)) 20 200 1 (node leaf 30 300 0 leaf)) 15
      15 150 true 1 three-IsTree insert_fifteen
