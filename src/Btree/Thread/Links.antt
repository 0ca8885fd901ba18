-- ===== src/Btree/Thread/Links.antt =====
-- Changes of the right links of a tree, one after another, as one change.
use oserver.Prelude.{ℕ, ◌≡◌, refl, sym, ap, ◌∙◌, Option, none, some, List, [], ◌∷◌, arith}
use oserver.Btree.{Tree, leaf, thread, node}
use oserver.Btree.Traversal.{for_each}
use oserver.Btree.Thread.{on_right, at_node, clear, point_to, btree_node_threading}

module _ {ℓ} {V : Type ℓ} where
  -- The change looks at a link and not at what is below it.
  abbrev pub IsLocal : (ℕ → Tree V → Tree V) → Type ℓ
  IsLocal h =
      (g : ℕ → Tree V → Tree V) (k : ℕ) (r : Tree V) → on_right g (h k r) ≡ h k (on_right g r)

  pub clear-IsLocal : (q : ℕ) → IsLocal (at_node q clear)
  clear-IsLocal q g k leaf = ground arith
  clear-IsLocal q g k (thread t) = ground arith
  clear-IsLocal q g k (node l j v b r) = ground arith

  pub point_to-IsLocal : (p q : ℕ) → IsLocal (at_node p (point_to q))
  point_to-IsLocal p q g k leaf = ground arith
  point_to-IsLocal p q g k (thread t) = ground arith
  point_to-IsLocal p q g k (node l j v b r) = ground arith

  pub on_right_twice :
      (g h : ℕ → Tree V → Tree V) (t : Tree V)
      → IsLocal h
      → on_right g (on_right h t) ≡ on_right (λ k r. g k (h k r)) t
  on_right_twice g h leaf e = refl
  on_right_twice g h (thread t) e = refl
  on_right_twice g h (node l k v b r) e =
      rw (on_right_twice g h l e, e g k (on_right h r), on_right_twice g h r e) refl

  pub on_right_same : (t : Tree V) → on_right (λ k r. r) t ≡ t
  on_right_same leaf = refl
  on_right_same (thread t) = refl
  on_right_same (node l k v b r) = rw (on_right_same l, on_right_same r) refl

  -- One visit, on the right link of node `k`.
  abbrev pub linked : Option ℕ → ℕ → ℕ → Tree V → Tree V
  linked none q k r = at_node q clear k r
  linked (some p) q k r = at_node p (point_to q) k (at_node q clear k r)

  linked-IsLocal : (pre : Option ℕ) (q : ℕ) → IsLocal (linked pre q)
  linked-IsLocal none q g k r = clear-IsLocal q g k r
  linked-IsLocal (some p) q g k r =
      point_to-IsLocal p q g k (at_node q clear k r) ∙ rw (clear-IsLocal q g k r) refl

  threading-linked :
      (q : ℕ) (w : V) (pre : Option ℕ) (heap : Tree V)
      → btree_node_threading q w (pre, heap) ≡ (some q, on_right (linked pre q) heap)
  unfolding btree_node_threading
  threading-linked q w none heap = refl
  threading-linked q w (some p) heap =
      rw (on_right_twice (at_node p (point_to q)) (at_node q clear) heap (clear-IsLocal q)) refl

  -- The visits of several nodes.
  abbrev pub steps : Option ℕ → List (ℕ × V) → ℕ → Tree V → Tree V
  steps pre [] k r = r
  steps pre ((q, w) ∷ es) k r = steps (some q) es k (linked pre q k r)

  pub for_each-steps :
      (es : List (ℕ × V)) (pre : Option ℕ) (heap : Tree V)
      → (for_each btree_node_threading es (pre, heap)).1 ≡ on_right (steps pre es) heap
  for_each-steps [] pre heap = sym (on_right_same heap)
  for_each-steps ((q, w) ∷ es) pre heap =
      ap (λ s. (for_each btree_node_threading es s).1) (threading-linked q w pre heap)
      ∙ for_each-steps es (some q) (on_right (linked pre q) heap)
      ∙ on_right_twice (steps (some q) es) (linked pre q) heap (linked-IsLocal pre q)
