-- ===== src/Btree/Thread/Build.antt =====
-- What btree_build_in_order_threading of btree.c makes of a tree.
use oserver.Prelude.{ℕ, ◌<◌, ◌≡◌, refl, ap, ◌∙◌, Option, none, some, List, [], ◌∷◌, ◌++◌, arith}
use oserver.Btree.{Tree, leaf, thread, node}
use oserver.Btree.Entries.{Above, IsSorted}
use oserver.Btree.Contents.{entries}
use oserver.Btree.Traversal.{in_order_traverse-for_each}
use oserver.Btree.Thread.{
  on_right, clear, point_to, btree_node_threading, btree_build_in_order_threading,
}
use oserver.Btree.Thread.Links.{linked, steps, for_each-steps}

abbrev IsBelow : Option ℕ → ℕ → Type 0
IsBelow none q = Unit
IsBelow (some p) q = p < q

module _ {ℓ} {V : Type ℓ} where
  -- A right link that leads to no child, as a thread to the node `next`.
  abbrev pub rethread : Option ℕ → Tree V → Tree V
  rethread next (node l k v b r) = node l k v b r
  rethread none r = leaf
  rethread (some q) r = thread q

  -- Each node without a right child has a thread to the node that follows it, the last one to `next`.
  abbrev pub threaded : Option ℕ → Tree V → Tree V
  threaded next leaf = leaf
  threaded next (thread t) = thread t
  threaded next (node l k v b r) =
      node (threaded (some k) l) k v b (rethread next (threaded next r))

  abbrev head_or : Option ℕ → List (ℕ × V) → Option ℕ
  head_or next [] = next
  head_or next ((k, v) ∷ es) = some k

  -- Along the entries the change points each link to the next.
  abbrev Follows : (ℕ → Tree V → Tree V) → Option ℕ → List (ℕ × V) → Type ℓ
  Follows f next [] = Unit
  Follows f next ((k, v) ∷ es) =
      ((r : Tree V) → f k r ≡ rethread (head_or next es) r) × Follows f next es

  Follows-split :
      (f : ℕ → Tree V → Tree V) (next : Option ℕ) (xs : List (ℕ × V)) (k : ℕ) (v : V)
      (ys : List (ℕ × V))
      → Follows f next (xs ++ (k, v) ∷ ys)
      → Follows f (some k) xs × Follows f next ((k, v) ∷ ys)
  Follows-split f next [] k v ys h = (tt, h)
  Follows-split f next ((j, u) ∷ []) k v ys h = ((h.0, tt), h.1)
  Follows-split f next ((j, u) ∷ x ∷ xs) k v ys h =
      let (left, right) = Follows-split f next (x ∷ xs) k v ys h.1 in ((h.0, left), right)

  rethread-threaded :
      (next : Option ℕ) (r : Tree V)
      → rethread (head_or next (entries r)) (threaded next r) ≡ rethread next (threaded next r)
  rethread-threaded next leaf = refl
  rethread-threaded next (thread t) = refl
  rethread-threaded next (node l k v b r) = refl

  on_right-threaded :
      (f : ℕ → Tree V → Tree V) (next : Option ℕ) (t : Tree V)
      → Follows f next (entries t)
      → on_right f t ≡ threaded next t
  on_right-threaded f next leaf h = refl
  on_right-threaded f next (thread t) h = refl
  on_right-threaded f next (node l k v b r) h =
      let (left, here) = Follows-split f next (entries l) k v (entries r) h in
      rw
        (
          on_right-threaded f (some k) l left,
          on_right-threaded f next r here.1,
          here.0 (threaded next r),
          rethread-threaded next r,
        )
        refl

  -- Later visits leave the link of an earlier node.
  steps-before :
      (p k : ℕ) (es : List (ℕ × V)) (r : Tree V) → k < p → Above k es → steps (some p) es k r ≡ r
  steps-before p k [] r h a = refl
  steps-before p k ((q, w) ∷ es) r h a = ground (arith, steps-before q k es r a.0 a.1)

  abbrev AreAbove : Option ℕ → List (ℕ × V) → Type 0
  AreAbove none es = Unit
  AreAbove (some p) es = Above p es

  -- The first visit leaves the links of the nodes behind it.
  linked-after :
      (pre : Option ℕ) (q k : ℕ) (r : Tree V) → q < k → IsBelow pre q → linked pre q k r ≡ r
  linked-after none q k r h b = ground arith
  linked-after (some p) q k r h b = ground arith

  Follows-after :
      (pre : Option ℕ) (q : ℕ) (w : V) (es xs : List (ℕ × V)) (next : Option ℕ)
      → Above q xs
      → IsBelow pre q
      → Follows (steps (some q) es) next xs
      → Follows (steps pre ((q, w) ∷ es)) next xs
  Follows-after pre q w es [] next a b f = tt
  Follows-after pre q w es ((k, v) ∷ xs) next a b f = (
    λ r. ap (steps (some q) es k) (linked-after pre q k r a.0 b) ∙ f.0 r,
    Follows-after pre q w es xs next a.1 b f.1,
  )

  clear-rethread : (r : Tree V) → clear r ≡ rethread none r
  clear-rethread leaf = refl
  clear-rethread (thread t) = refl
  clear-rethread (node l k v b r) = refl

  point_to-rethread : (q : ℕ) (r : Tree V) → point_to q (clear r) ≡ rethread (some q) r
  point_to-rethread q leaf = refl
  point_to-rethread q (thread t) = refl
  point_to-rethread q (node l k v b r) = refl

  linked-here : (pre : Option ℕ) (q : ℕ) (r : Tree V) → IsBelow pre q → linked pre q q r ≡ clear r
  linked-here none q r b = ground arith
  linked-here (some p) q r b = ground arith

  steps-here :
      (q : ℕ) (es : List (ℕ × V)) (r : Tree V)
      → Above q es
      → IsSorted es
      → steps (some q) es q (clear r) ≡ rethread (head_or none es) r
  steps-here q [] r a s = clear-rethread r
  steps-here q ((q', w) ∷ es) r a s =
      let once : linked (some q) q' q (clear r) ≡ point_to q' (clear r) = ground (arith, a.0) in
      ap (steps (some q') es q) once
      ∙ steps-before q' q es (point_to q' (clear r)) a.0 a.1
      ∙ point_to-rethread q' r

  Follows-steps :
      (pre : Option ℕ) (es : List (ℕ × V))
      → IsSorted es
      → AreAbove pre es
      → Follows (steps pre es) none es
  Follows-steps pre [] s b = tt
  Follows-steps pre ((q, w) ∷ es) s b = (
    λ r. ap (steps (some q) es q) (linked-here pre q r (first pre b)) ∙ steps-here q es r s.0 s.1,
    Follows-after pre q w es es none s.0 (first pre b) (Follows-steps (some q) es s.1 s.0),
  )
    where
      first : (pre : Option ℕ) → AreAbove pre ((q, w) ∷ es) → IsBelow pre q
      first none b = tt
      first (some p) b = b.0

  -- On a search tree the threading leads from each node without a right child to the node with the
  -- next key, and from the last one nowhere; no other link changes.
  pub build-threaded :
      (t : Tree V) → IsSorted (entries t) → btree_build_in_order_threading t ≡ threaded none t
  unfolding btree_build_in_order_threading
  build-threaded t s =
      ap (λ p. p.1) (in_order_traverse-for_each btree_node_threading t (none, t))
      ∙ for_each-steps (entries t) none t
      ∙ on_right-threaded (steps none (entries t)) none t (Follows-steps none (entries t) s tt)
