-- ===== src/Btree/Thread/Follow.antt =====
-- What btree_thread_traverse of btree.c visits.
use oserver.Prelude.{
  ℕ, suc, ◌+◌, ◌≡◌, refl, sym, ap, ◌∙◌, Bool, Option, none, some, List, [], ◌∷◌, ◌++◌, length,
  length-append, if◌then◌else◌, arith, Bool-cases, inl, inr,
}
use oserver.Btree.{Tree, leaf, thread, node}
use oserver.Btree.Entries.{IsSorted}
use oserver.Btree.Contents.{entries}
use oserver.Btree.Thread.{
  leftmost, find_node, visit_from, btree_thread_traverse, btree_build_in_order_threading,
}
use oserver.Btree.Thread.Build.{rethread, threaded, build-threaded}
use oserver.Btree.Thread.Located.{IsLocated, Sorted-IsLocated, entries-threaded}

module _ {ℓ} {V : Type ℓ} where
  -- Visits in order until one of them stops, and the end.
  module _ {κ} {S : Type κ} (visit : Option (ℕ × V) → S → Bool × S) where
    abbrev pub visit_all : List (ℕ × V) → S → S
    visit_all [] s = (visit none s).1
    visit_all ((k, v) ∷ es) s =
        let (stop, s') = visit (some (k, v)) s in
        let rest = visit_all es s' in if stop then s' else rest

    -- The traversal goes on at the node `next`.
    abbrev go_on : ℕ → Tree V → Option ℕ → S → Option S
    go_on fuel root none s = some (visit none s).1
    go_on fuel root (some q) s = visit_from visit fuel root (find_node q root) s

    -- Visits of the entries, and then what `rest` says.
    abbrev visit_then : List (ℕ × V) → (S → Option S) → S → Option S
    visit_then [] rest s = rest s
    visit_then ((k, v) ∷ es) rest s =
        let (stop, s') = visit (some (k, v)) s in
        let more = visit_then es rest s' in if stop then some s' else more

    visit_then-append :
        (xs ys : List (ℕ × V)) (rest : S → Option S) (s : S)
        → visit_then (xs ++ ys) rest s ≡ visit_then xs (visit_then ys rest) s
    visit_then-append [] ys rest s = refl
    visit_then-append ((k, v) ∷ xs) ys rest s =
        rw (visit_then-append xs ys rest (visit (some (k, v)) s).1) refl

    visit_then-end :
        (es : List (ℕ × V)) (s : S)
        → visit_then es (λ s. some (visit none s).1) s ≡ some (visit_all es s)
    visit_then-end [] s = refl
    visit_then-end ((k, v) ∷ es) s = elim (Bool-cases (visit (some (k, v)) s).0) [
      | inl stop ↦ rw (stop) refl
      | inr more ↦ rw (more) (visit_then-end es (visit (some (k, v)) s).1)
    ]

    visit_then-cong :
        (es : List (ℕ × V)) (rest rest' : S → Option S) (s : S)
        → ((s : S) → rest s ≡ rest' s)
        → visit_then es rest s ≡ visit_then es rest' s
    visit_then-cong [] rest rest' s h = h s
    visit_then-cong ((k, v) ∷ es) rest rest' s h =
        rw (visit_then-cong es rest rest' (visit (some (k, v)) s).1 h) refl

    module _ (root : Tree V) where
      -- From its leftmost node on a subtree that is not empty is visited, and then the node `next`.
      abbrev IsVisited : Option ℕ → Tree V → ℕ → Type κ
      IsVisited next leaf f = Unit
      IsVisited next (thread t) f = Unit
      IsVisited next (node l k v b r) f =
          (s : S)
          → visit_from visit (length (entries (node l k v b r)) + f) root
              (leftmost (threaded next (node l k v b r))) s
            ≡ visit_then (entries (node l k v b r)) (go_on f root next) s

      -- From the node at the top on, where the right subtree is already known.
      from_node :
          (l : Tree V) (k : ℕ) (v : V) (b : ℕ) (r : Tree V) (next : Option ℕ) (f : ℕ)
          → IsVisited next r f
          → (s : S)
          → visit_from visit
              (suc (length (entries r) + f))
              root
              (node l k v b (rethread next (threaded next r)))
              s
            ≡ visit_then ((k, v) ∷ entries r) (go_on f root next) s
      unfolding visit_from
      from_node l k v b leaf none f ih s = refl
      from_node l k v b leaf (some q) f ih s = let e : 0 + f ≡ f = omega arith in rw (e) refl
      from_node l k v b (thread t) none f ih s = refl
      from_node l k v b (thread t) (some q) f ih s = let e : 0 + f ≡ f = omega arith in rw (e) refl
      from_node l k v b (node l' k' v' b' r') next f ih s = rw (← ih (visit (some (k, v)) s).1) refl

      IsLocated-right :
          (next : Option ℕ) (r : Tree V)
          → IsLocated root (rethread next (threaded next r))
          → IsLocated root (threaded next r)
      IsLocated-right next leaf h = tt
      IsLocated-right next (thread t) h = tt
      IsLocated-right next (node l k v b r) h = h

      visit_tree :
          (t : Tree V) (next : Option ℕ) (f : ℕ)
          → IsLocated root (threaded next t)
          → IsVisited next t f
      visit_tree leaf next f h = tt
      visit_tree (thread t) next f h = tt
      visit_tree (node leaf k v b r) next f h = λ s.
          let e : suc (length (entries r)) + f ≡ suc (length (entries r) + f) = omega arith in
          rw (e)
            (from_node leaf k v b r next f (visit_tree r next f (IsLocated-right next r h.2)) s)
      visit_tree (node (thread t) k v b r) next f h = λ s.
          let e : suc (length (entries r)) + f ≡ suc (length (entries r) + f) = omega arith in
          rw (e) (
            from_node (thread t) k v b r next f (visit_tree r next f (IsLocated-right next r h.2))
              s)
      visit_tree (node (node l' k' v' b' r') k v b r) next f h =
          let l = node l' k' v' b' r' in
          let f' = suc (length (entries r) + f) in
          let fuel : length (entries l ++ (k, v) ∷ entries r) + f ≡ length (entries l) + f' =
            omega (arith, length-append (entries l) ((k, v) ∷ entries r)) in
          λ s.
            ap (λ n. visit_from visit n root (leftmost (threaded (some k) l)) s) fuel
            ∙ visit_tree (node l' k' v' b' r') (some k) f' h.1 s
            ∙ visit_then-cong (entries l) (go_on f' root (some k))
                (visit_then ((k, v) ∷ entries r) (go_on f root next)) s
                (λ s'.
                  ap (λ n. visit_from visit f' root n s') h.0
                  ∙ from_node (threaded (some k) l) k v b r next f
                      (visit_tree r next f (IsLocated-right next r h.2)) s')
            ∙ sym (visit_then-append (entries l) ((k, v) ∷ entries r) (go_on f root next) s)

  -- After the threading, the traversal from the root visits the entries in order until a visit stops
  -- it, and the end if none does; fuel for as many rounds as there are entries is enough.
  pub thread_traverse-visit_all {κ} :
      {S : Type κ} (visit : Option (ℕ × V) → S → Bool × S) (t : Tree V) (f : ℕ) (s : S)
      → IsSorted (entries t)
      → let root = btree_build_in_order_threading t in
        btree_thread_traverse visit (length (entries t) + f) root root s
        ≡ some (visit_all visit (entries t) s)
  unfolding btree_thread_traverse
  thread_traverse-visit_all visit leaf f s h = rw (build-threaded leaf h) refl
  thread_traverse-visit_all visit (thread t) f s h = rw (build-threaded (thread t) h) refl
  thread_traverse-visit_all visit (node l k v b r) f s h =
      let t = node l k v b r in
      let located = Sorted-IsLocated (threaded none t) (rw (entries-threaded none t) h) in
      rw (build-threaded t h)
        (visit_tree visit (threaded none t) t none f located s ∙ visit_then-end visit (entries t) s)
