-- ===== src/Btree/Thread/Kept.antt =====
-- What btree_build_in_order_threading of btree.c leaves as it was.
use oserver.Prelude.{ℕ, ◌≡◌, refl, Option, none, some}
use oserver.Btree.{Tree, leaf, thread, node}
use oserver.Btree.Avl.{height, IsAvl}
use oserver.Btree.Insert.{IsTree}
use oserver.Btree.Thread.Build.{rethread, threaded}
use oserver.Btree.Thread.Located.{entries-threaded}

module _ {ℓ} {V : Type ℓ} where
  height-rethread : (next : Option ℕ) (t : Tree V) → height (rethread next t) ≡ height t
  height-rethread none leaf = refl
  height-rethread none (thread t) = refl
  height-rethread (some q) leaf = refl
  height-rethread (some q) (thread t) = refl
  height-rethread none (node l k v b r) = refl
  height-rethread (some q) (node l k v b r) = refl

  rethread-IsAvl : (next : Option ℕ) (t : Tree V) → IsAvl t → IsAvl (rethread next t)
  rethread-IsAvl none leaf h = tt
  rethread-IsAvl none (thread t) h = tt
  rethread-IsAvl (some q) leaf h = tt
  rethread-IsAvl (some q) (thread t) h = tt
  rethread-IsAvl none (node l k v b r) h = h
  rethread-IsAvl (some q) (node l k v b r) h = h

  height-threaded : (next : Option ℕ) (t : Tree V) → height (threaded next t) ≡ height t
  height-threaded next leaf = refl
  height-threaded next (thread t) = refl
  height-threaded next (node l k v b r) =
      rw
        (height-threaded (some k) l, height-rethread next (threaded next r), height-threaded next r)
        refl

  threaded-IsAvl : (next : Option ℕ) (t : Tree V) → IsAvl t → IsAvl (threaded next t)
  threaded-IsAvl next leaf h = tt
  threaded-IsAvl next (thread t) h = tt
  threaded-IsAvl next (node l k v b r) h =
      rw
        (height-threaded (some k) l, height-rethread next (threaded next r), height-threaded next r)
        (
          h.0,
          h.1,
          h.2,
          threaded-IsAvl (some k) l h.3,
          rethread-IsAvl next (threaded next r) (threaded-IsAvl next r h.4),
        )

  -- A balanced search tree stays one.
  pub threaded-IsTree : (next : Option ℕ) (t : Tree V) → IsTree t → IsTree (threaded next t)
  threaded-IsTree next t h = record {
    avl = threaded-IsAvl next t h.avl;
    sorted = rw (entries-threaded next t) h.sorted;
  }
