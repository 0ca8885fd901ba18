-- ===== src/Btree/Insert.antt =====
-- `btree_insert` of btree.c as an insertion into a dictionary
use Prim.Native.Nat.{compare, Ordering}
use oserver.Prelude.{ℕ, ◌+◌, ◌≤◌, ◌≡◌, refl, ◌∙◌, Bool, Option, none, some, arith}
use oserver.Btree.{
  Tree, InsertResult, insert_exist, insert_ok, insert_left, insert_right, insert_balanced,
  btree_internal_insert, btree_insert, btree_visit, btree_init,
}
use oserver.Btree.Avl.{height, IsAvl, Inserted, growth, internal_insert-Inserted}
use oserver.Btree.Entries.{
  IsSorted, lookup, insert_entry, kept_or, Sorted-insert_entry, lookup-insert_entry,
}
use oserver.Btree.Contents.{entries, is_none, Holds, internal_insert-Holds}
use oserver.Btree.Traversal.{visited, visit-lookup}

growth-le : (ret : InsertResult) → growth ret ≤ 1
growth-le insert_exist = omega arith
growth-le insert_ok = omega arith
growth-le insert_left = omega arith
growth-le insert_right = omega arith
growth-le insert_balanced = omega arith

module _ {ℓ} {V : Type ℓ} where
  -- A balanced search tree.
  pub record IsTree (t : Tree V) : Type 0 where
    pub avl : IsAvl t
    pub sorted : IsSorted (entries t)

  pub init-IsTree : IsTree btree_init
  unfolding btree_init
  init-IsTree = record { avl = tt; sorted = tt }

  -- The answer of `btree_insert t q w`, with the new tree.
  abbrev pub InsertedInto : Tree V → ℕ → V → Tree V → Type ℓ
  InsertedInto t q w t' =
      (btree_insert t q w ≡ some (is_none (lookup q (entries t)), t'))
      × IsTree t'
      × (entries t' ≡ insert_entry q w (entries t))
      × (height t' ≤ height t + 1)

  -- `btree_insert` on a balanced search tree meets no missing child and fails no assertion. The new
  -- tree is a balanced search tree, at most one level higher; its entries are the old ones with the
  -- new one in its place, or the old ones alone where the key was there; the flag tells which.
  pub insert-InsertedInto :
      (t : Tree V) (q : ℕ) (w : V) → IsTree t → (t' : Tree V) × InsertedInto t q w t'
  insert-InsertedInto t q w h =
      go (btree_internal_insert t q w) refl (internal_insert-Inserted t q w h.avl)
        (internal_insert-Holds t q w h.sorted)
    where
      go :
          (o : Option (InsertResult × Tree V))
          → btree_internal_insert t q w ≡ o
          → Inserted t o
          → Holds (insert_entry q w (entries t)) (is_none (lookup q (entries t))) o
          → (t' : Tree V) × InsertedInto t q w t'
      go none e i c = absurd i
      go (some (ret, t')) e i c = (
        t',
        (
          unfold btree_insert in rw (e, c.1),
          record { avl = i.0; sorted = rw c.0 (Sorted-insert_entry q w (entries t) h.sorted) },
          c.0,
          omega (arith, growth-le ret),
        ),
      )

  -- After an insertion the visit of the key reaches the node that was there first, or else the new
  -- one; the visit of any other key is what it was.
  pub visit-insert :
      {S : Type 0} (visit : ℕ → V → S → S) (t t' : Tree V) (q p : ℕ) (w : V) (new : Bool) (s : S)
      → IsTree t
      → btree_insert t q w ≡ some (new, t')
      → btree_visit visit t' p s
        ≡ visited visit p s (elim (compare p q) [
          | Ordering.eq ↦ kept_or w (lookup p (entries t))
          | _ ↦ lookup p (entries t)
        ])
  visit-insert visit t t' q p w new s h e =
      let (u, (answer, tree, contents, _)) = insert-InsertedInto t q w h in
      let same : u ≡ t' = cc in
      rw (← same) (
        visit-lookup visit u p s tree.sorted
        ∙ rw (contents, lookup-insert_entry q p w (entries t) h.sorted))
