-- ===== src/Btree/Contents.antt =====
-- What the operations of btree.c do to the entries of the tree
use Prim.Native.Nat.{compare, Ordering}
use oserver.Prelude.{
  ℕ, ◌<◌, ◌≡◌, refl, sym, Bool, true, false, Option, none, some, List, [], ◌∷◌, ◌++◌, append_assoc,
  if◌then◌else◌, ◌==◌, Bool-cases, inl, inr, arith,
}
use oserver.Btree.{
  Tree, leaf, thread, node, InsertResult, insert_exist, insert_left, insert_right, insert_balanced,
  balance_of, unthread, btree_left_rotate, btree_right_rotate, assert_balanced, right_inserted,
  left_inserted, right_rebalance, left_rebalance, btree_internal_insert, ◌>>=◌, is_inserted,
}
use oserver.Btree.Entries.{
  Below, Above, IsSorted, lookup, insert_entry, Sorted-left, Sorted-right, insert_entry_lt,
  insert_entry_gt, insert_entry_eq, lookup_lt, lookup_gt, lookup_eq,
}

module _ {ℓ} {V : Type ℓ} where
  -- The nodes in the order of a traversal in order.
  abbrev pub entries : Tree V → List (ℕ × V)
  entries leaf = []
  entries (thread t) = []
  entries (node l k v b r) = entries l ++ (k, v) ∷ entries r

  abbrev pub is_none : Option V → Bool
  is_none none = true
  is_none (some v) = false

  entries-unthread : (t : Tree V) → entries (unthread t) ≡ entries t
  entries-unthread leaf = refl
  entries-unthread (thread t) = refl
  entries-unthread (node l k v b r) = refl

  -- Of an answer that is no fault: the entries, and whether the node was taken.
  abbrev pub Holds : List (ℕ × V) → Bool → Option (InsertResult × Tree V) → Type ℓ
  Holds es new none = Unit
  Holds es new (some (ret, t)) = (entries t ≡ es) × (is_inserted ret ≡ new)

  abbrev HoldsTree : List (ℕ × V) → Option (Tree V) → Type ℓ
  HoldsTree es none = Unit
  HoldsTree es (some t) = entries t ≡ es

  left_rotate-entries : (t : Tree V) → HoldsTree (entries t) (btree_left_rotate t)
  unfolding btree_left_rotate
  left_rotate-entries leaf = tt
  left_rotate-entries (thread t) = tt
  left_rotate-entries (node l k v b leaf) = tt
  left_rotate-entries (node l k v b (thread t)) = tt
  left_rotate-entries (node l k v b (node c k' v' n d)) =
      append_assoc (entries l) ((k, v) ∷ entries c) ((k', v') ∷ entries d)

  right_rotate-entries : (t : Tree V) → HoldsTree (entries t) (btree_right_rotate t)
  unfolding btree_right_rotate
  right_rotate-entries leaf = tt
  right_rotate-entries (thread t) = tt
  right_rotate-entries (node leaf k v b r) = tt
  right_rotate-entries (node (thread t) k v b r) = tt
  right_rotate-entries (node (node c k' v' n d) k v b r) =
      rw (entries-unthread d)
        (sym (append_assoc (entries c) ((k', v') ∷ entries d) ((k, v) ∷ entries r)))

  HoldsTree-bind :
      (o : Option (Tree V)) (es es' : List (ℕ × V)) (f : Tree V → Option (Tree V))
      → HoldsTree es o
      → ((t : Tree V) → entries t ≡ es → HoldsTree es' (f t))
      → HoldsTree es' (o >>= f)
  HoldsTree-bind none es es' f h g = tt
  HoldsTree-bind (some t) es es' f h g = g t h

  assert_balanced-entries :
      (es : List (ℕ × V)) (t : Tree V) → entries t ≡ es → HoldsTree es (assert_balanced t)
  unfolding assert_balanced
  assert_balanced-entries es t h = elim (Bool-cases (balance_of t == 0)) [
    | inl e ↦ rw e h
    | inr e ↦ rw e tt
  ]

  right_rotate_or_keep :
      (ret : InsertResult) (r : Tree V)
      → HoldsTree (entries r) (elim ret [ insert_left ↦ btree_right_rotate r | _ ↦ some r ])
  right_rotate_or_keep insert_left r = right_rotate-entries r
  right_rotate_or_keep _ r = refl

  left_rotate_or_keep :
      (ret : InsertResult) (l : Tree V)
      → HoldsTree (entries l) (elim ret [ insert_right ↦ btree_left_rotate l | _ ↦ some l ])
  left_rotate_or_keep insert_right l = left_rotate-entries l
  left_rotate_or_keep _ l = refl

  right_rebalance-entries :
      (l : Tree V) (k : ℕ) (v : V) (b : ℕ) (ret : InsertResult) (r : Tree V)
      → HoldsTree (entries (node l k v b r)) (right_rebalance l k v b ret r)
  unfolding right_rebalance
  right_rebalance-entries l k v b ret r =
      let es = entries (node l k v b r) in
      HoldsTree-bind (elim ret [ insert_left ↦ btree_right_rotate r | _ ↦ some r ]) (entries r) es _
        (right_rotate_or_keep ret r)
        λ r' e.
          HoldsTree-bind (btree_left_rotate (node l k v b r')) es es assert_balanced
            (rw e at (left_rotate-entries (node l k v b r'))) (assert_balanced-entries es)

  left_rebalance-entries :
      (r : Tree V) (k : ℕ) (v : V) (b : ℕ) (ret : InsertResult) (l : Tree V)
      → HoldsTree (entries (node l k v b r)) (left_rebalance r k v b ret l)
  unfolding left_rebalance
  left_rebalance-entries r k v b ret l =
      let es = entries (node l k v b r) in
      HoldsTree-bind (elim ret [ insert_right ↦ btree_left_rotate l | _ ↦ some l ]) (entries l) es _
        (left_rotate_or_keep ret l)
        λ l' e.
          HoldsTree-bind (btree_right_rotate (node l' k v b r)) es es assert_balanced
            (rw e at (right_rotate-entries (node l' k v b r))) (assert_balanced-entries es)

  -- The code that is returned after the root has been set.
  returned :
      (o : Option (Tree V)) (es : List (ℕ × V)) (leaning : InsertResult)
      → is_inserted leaning ≡ true
      → HoldsTree es o
      → Holds es true (o >>= λ t. some (if balance_of t == 0 then insert_balanced else leaning, t))
  returned none es leaning e h = tt
  returned (some t) es leaning e h = elim (Bool-cases (balance_of t == 0)) [
    | inl z ↦ rw z (h, refl)
    | inr z ↦ rw z (h, e)
  ]

  chosen :
      (c : Bool) (es : List (ℕ × V)) (o : Option (Tree V)) (t : Tree V)
      → HoldsTree es o
      → entries t ≡ es
      → HoldsTree es (if c then o else some t)
  chosen true es o t h g = h
  chosen false es o t h g = g

  right_inserted-Holds :
      (l : Tree V) (k : ℕ) (v : V) (b : ℕ) (ret : InsertResult) (r : Tree V)
      → Holds (entries (node l k v b r)) (is_inserted ret) (right_inserted l k v b ret r)
  unfolding right_inserted
  right_inserted-Holds l k v b insert_exist r = (refl, refl)
  right_inserted-Holds l k v b insert_balanced r = (refl, refl)
  right_inserted-Holds l k v b ret r =
      returned _ _ insert_right refl
        (chosen _ _ _ (node l k v _ r) (right_rebalance-entries l k v _ ret r) refl)

  left_inserted-Holds :
      (r : Tree V) (k : ℕ) (v : V) (b : ℕ) (ret : InsertResult) (l : Tree V)
      → Holds (entries (node l k v b r)) (is_inserted ret) (left_inserted r k v b ret l)
  unfolding left_inserted
  left_inserted-Holds r k v b insert_exist l = (refl, refl)
  left_inserted-Holds r k v b insert_balanced l = (refl, refl)
  left_inserted-Holds r k v b ret l =
      returned _ _ insert_left refl
        (chosen _ _ _ (node l k v _ r) (left_rebalance-entries r k v _ ret l) refl)

  into_right :
      (l : Tree V) (k : ℕ) (v : V) (b : ℕ) (o : Option (InsertResult × Tree V)) (es : List (ℕ × V))
      (new : Bool)
      → Holds es new o
      → Holds (entries l ++ (k, v) ∷ es) new (o >>= λ (ret, r'). right_inserted l k v b ret r')
  into_right l k v b none es new h = tt
  into_right l k v b (some (ret, r')) es new h =
      rw (← h.0, ← h.1) (right_inserted-Holds l k v b ret r')

  into_left :
      (r : Tree V) (k : ℕ) (v : V) (b : ℕ) (o : Option (InsertResult × Tree V)) (es : List (ℕ × V))
      (new : Bool)
      → Holds es new o
      → Holds (es ++ (k, v) ∷ entries r) new (o >>= λ (ret, l'). left_inserted r k v b ret l')
  into_left r k v b none es new h = tt
  into_left r k v b (some (ret, l')) es new h =
      rw (← h.0, ← h.1) (left_inserted-Holds r k v b ret l')

  pub internal_insert-Holds :
      (t : Tree V) (q : ℕ) (w : V)
      → IsSorted (entries t)
      → Holds
          (insert_entry q w (entries t))
          (is_none (lookup q (entries t)))
          (btree_internal_insert t q w)
  unfolding btree_internal_insert
  internal_insert-Holds leaf q w h = unfold insert_entry lookup in (refl, refl)
  internal_insert-Holds (thread t) q w h = unfold insert_entry lookup in (refl, refl)
  internal_insert-Holds (node l k v b r) q w h =
      go (compare q k) refl (internal_insert-Holds l q w left.1)
        (internal_insert-Holds r q w right.1)
    where
      left : Below k (entries l) × IsSorted (entries l)
      left = Sorted-left (entries l) k v (entries r) h

      right : Above k (entries r) × IsSorted (entries r)
      right = Sorted-right (entries l) k v (entries r) h

      go :
          (c : Ordering)
          → compare q k ≡ c
          → Holds
              (insert_entry q w (entries l))
              (is_none (lookup q (entries l)))
              (btree_internal_insert l q w)
          → Holds
              (insert_entry q w (entries r))
              (is_none (lookup q (entries r)))
              (btree_internal_insert r q w)
          → Holds
              (insert_entry q w (entries l ++ (k, v) ∷ entries r))
              (is_none (lookup q (entries l ++ (k, v) ∷ entries r)))
              (elim c [
                | Ordering.eq ↦ some (insert_exist, node l k v b r)
                | Ordering.gt ↦
                    btree_internal_insert r q w >>= λ (ret, r'). right_inserted l k v b ret r'
                | Ordering.lt ↦
                    btree_internal_insert l q w >>= λ (ret, l'). left_inserted r k v b ret l'
              ])
      go Ordering.eq e hl hr =
          let same : q ≡ k = ground arith in
          rw
            (
              insert_entry_eq q k w v (entries r) (entries l) same left.0,
              lookup_eq q k w v (entries r) (entries l) same left.0,
            )
            (refl, refl)
      go Ordering.gt e hl hr =
          let gt : k < q = ground arith in
          rw
            (
              insert_entry_gt q k w v (entries r) (entries l) gt left.0,
              lookup_gt q k w v (entries r) (entries l) gt left.0,
            )
            (into_right l k v b (btree_internal_insert r q w) _ _ hr)
      go Ordering.lt e hl hr =
          let lt : q < k = ground arith in
          rw
            (
              insert_entry_lt q k w v (entries r) (entries l) lt,
              lookup_lt q k w v (entries r) (entries l) lt right.0,
            )
            (into_left r k v b (btree_internal_insert l q w) _ _ hl)
