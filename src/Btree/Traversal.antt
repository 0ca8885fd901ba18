-- ===== src/Btree/Traversal.antt =====
-- The lookup and the traversals of btree.c, against the list of entries
use oserver.Prelude.{ℕ, ◌≡◌, refl, Option, none, some, List, [], ◌∷◌, ◌++◌, arith}
use oserver.Btree.{Tree, leaf, thread, node, btree_visit, btree_in_order_traverse}
use oserver.Btree.Entries.{
  IsSorted, lookup, Sorted-left, Sorted-right, lookup_lt, lookup_gt, lookup_eq,
}
use oserver.Btree.Contents.{entries}

module _ {ℓ} {V : Type ℓ} where
  abbrev pub visited {κ} : {S : Type κ} → (ℕ → V → S → S) → ℕ → S → Option V → S
  visited visit q s none = s
  visited visit q s (some v) = visit q v s

  -- On a search tree the visit reaches the node of the key, if there is one, and no other.
  pub visit-lookup :
      {S : Type 0} (visit : ℕ → V → S → S) (t : Tree V) (q : ℕ) (s : S)
      → IsSorted (entries t)
      → btree_visit visit t q s ≡ visited visit q s (lookup q (entries t))
  unfolding btree_visit
  visit-lookup visit leaf q s h = unfold lookup in refl
  visit-lookup visit (thread t) q s h = unfold lookup in refl
  visit-lookup visit (node l k v b r) q s h =
      let left = Sorted-left (entries l) k v (entries r) h in
      let right = Sorted-right (entries l) k v (entries r) h in
      ground (
        arith,
        visit-lookup visit l q s left.1,
        visit-lookup visit r q s right.1,
        lookup_eq q k v v (entries r) (entries l),
        lookup_lt q k v v (entries r) (entries l),
        lookup_gt q k v v (entries r) (entries l),
      )

  -- The traversal in order visits the entries one after another.
  abbrev pub for_each {κ} : {S : Type κ} → (ℕ → V → S → S) → List (ℕ × V) → S → S
  for_each visit [] s = s
  for_each visit ((k, v) ∷ es) s = for_each visit es (visit k v s)

  for_each-append {κ} :
      {S : Type κ} (visit : ℕ → V → S → S) (es es' : List (ℕ × V)) (s : S)
      → for_each visit (es ++ es') s ≡ for_each visit es' (for_each visit es s)
  for_each-append visit [] es' s = refl
  for_each-append visit ((k, v) ∷ es) es' s = for_each-append visit es es' (visit k v s)

  pub in_order_traverse-for_each {κ} :
      {S : Type κ} (visit : ℕ → V → S → S) (t : Tree V) (s : S)
      → btree_in_order_traverse visit t s ≡ for_each visit (entries t) s
  unfolding btree_in_order_traverse
  in_order_traverse-for_each visit leaf s = refl
  in_order_traverse-for_each visit (thread t) s = refl
  in_order_traverse-for_each visit (node l k v b r) s =
      rw
        (
          for_each-append visit (entries l) ((k, v) ∷ entries r) s,
          ← in_order_traverse-for_each visit l s,
        )
        (in_order_traverse-for_each visit r _)
