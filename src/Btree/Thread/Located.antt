-- ===== src/Btree/Thread/Located.antt =====
-- The nodes that the threads of btree.c lead to.
use oserver.Prelude.{ℕ, ◌<◌, ◌≡◌, refl, Option, none, some, List, [], ◌∷◌, ◌++◌, ==-false, arith}
use oserver.Btree.{Tree, leaf, thread, node}
use oserver.Btree.Entries.{Above, Below, IsSorted, Sorted-left, Sorted-right}
use oserver.Btree.Contents.{entries}
use oserver.Btree.Thread.{find_node}
use oserver.Btree.Thread.Build.{rethread, threaded}

module _ {ℓ} {V : Type ℓ} where
  -- Every node of the tree is the one that is found for its key.
  abbrev pub IsLocated : Tree V → Tree V → Type ℓ
  IsLocated root leaf = Unit
  IsLocated root (thread t) = Unit
  IsLocated root (node l k v b r) =
      (find_node k root ≡ node l k v b r) × IsLocated root l × IsLocated root r

  Below-split :
      (q : ℕ) (xs : List (ℕ × V)) (k : ℕ) (v : V) (ys : List (ℕ × V))
      → Below q (xs ++ (k, v) ∷ ys)
      → Below q xs × (k < q) × Below q ys
  Below-split q [] k v ys h = (tt, h.0, h.1)
  Below-split q ((j, u) ∷ xs) k v ys h =
      let (left, here, right) = Below-split q xs k v ys h.1 in ((h.0, left), here, right)

  Above-split :
      (q : ℕ) (xs : List (ℕ × V)) (k : ℕ) (v : V) (ys : List (ℕ × V))
      → Above q (xs ++ (k, v) ∷ ys)
      → Above q xs × (q < k) × Above q ys
  Above-split q [] k v ys h = (tt, h.0, h.1)
  Above-split q ((j, u) ∷ xs) k v ys h =
      let (left, here, right) = Above-split q xs k v ys h.1 in ((h.0, left), here, right)

  Below-trans : (q j : ℕ) (xs : List (ℕ × V)) → q < j → Below q xs → Below j xs
  Below-trans q j [] lt h = tt
  Below-trans q j ((i, u) ∷ xs) lt h = (omega arith, Below-trans q j xs lt h.1)

  entries-rethread : (next : Option ℕ) (t : Tree V) → entries (rethread next t) ≡ entries t
  entries-rethread none leaf = refl
  entries-rethread none (thread t) = refl
  entries-rethread (some q) leaf = refl
  entries-rethread (some q) (thread t) = refl
  entries-rethread none (node l k v b r) = refl
  entries-rethread (some q) (node l k v b r) = refl

  find_node-above : (q : ℕ) (t : Tree V) → Below q (entries t) → find_node q t ≡ leaf
  unfolding find_node
  find_node-above q leaf h = refl
  find_node-above q (thread t) h = refl
  find_node-above q (node l k v b r) h =
      let (left, lt, right) = Below-split q (entries l) k v (entries r) h in
      rw
        (
          ==-false k q (λ e. omega (arith, e, lt)),
          find_node-above q l left,
          find_node-above q r right,
        )
        refl

  -- What is located in a subtree is located in the tree.
  lift_left :
      (l : Tree V) (k : ℕ) (v : V) (b : ℕ) (r u : Tree V)
      → Below k (entries u)
      → IsLocated l u
      → IsLocated (node l k v b r) u
  unfolding find_node
  lift_left l k v b r leaf a h = tt
  lift_left l k v b r (thread t) a h = tt
  lift_left l k v b r (node l' j w c r') a h =
      let (left, lt, right) = Below-split k (entries l') j w (entries r') a in
      (
        rw (==-false k j (λ e. omega (arith, e, lt)), h.0) refl,
        lift_left l k v b r l' left h.1,
        lift_left l k v b r r' right h.2,
      )

  lift_right :
      (l : Tree V) (k : ℕ) (v : V) (b : ℕ) (r u : Tree V)
      → Below k (entries l)
      → Above k (entries u)
      → IsLocated r u
      → IsLocated (node l k v b r) u
  unfolding find_node
  lift_right l k v b r leaf e a h = tt
  lift_right l k v b r (thread t) e a h = tt
  lift_right l k v b r (node l' j w c r') e a h =
      let (left, lt, right) = Above-split k (entries l') j w (entries r') a in
      (
        rw
            (
              ==-false k j (λ e. omega (arith, e, lt)),
              find_node-above j l (Below-trans k j (entries l) lt e),
              h.0,
            )
            refl,
        lift_right l k v b r l' e left h.1,
        lift_right l k v b r r' e right h.2,
      )

  pub Sorted-IsLocated : (t : Tree V) → IsSorted (entries t) → IsLocated t t
  Sorted-IsLocated leaf s = tt
  Sorted-IsLocated (thread t) s = tt
  Sorted-IsLocated (node l k v b r) s =
      let (below, left) = Sorted-left (entries l) k v (entries r) s in
      let (above, right) = Sorted-right (entries l) k v (entries r) s in
      (
        unfold find_node in ground arith,
        lift_left l k v b r l below (Sorted-IsLocated l left),
        lift_right l k v b r r below above (Sorted-IsLocated r right),
      )

  pub entries-threaded : (next : Option ℕ) (t : Tree V) → entries (threaded next t) ≡ entries t
  entries-threaded next leaf = refl
  entries-threaded next (thread t) = refl
  entries-threaded next (node l k v b r) =
      rw
        (
          entries-threaded (some k) l,
          entries-rethread next (threaded next r),
          entries-threaded next r,
        )
        refl
