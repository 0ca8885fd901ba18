-- ===== src/Btree/Avl.antt =====
-- The balance invariant of btree.c
use Prim.Native.Nat.{compare, Ordering}
use oserver.Prelude.{
  ℕ, suc, ◌+◌, ◌-◌, ◌%◌, ◌≤◌, max, ◌≡◌, refl, ◌⊎◌, inl, inr, Option, none, some, arith,
}
use oserver.Btree.{
  Tree, leaf, thread, node, InsertResult, insert_exist, insert_ok, insert_left, insert_right,
  insert_balanced, balance_of, unthread, btree_left_rotate, btree_right_rotate, assert_balanced,
  right_inserted, left_inserted, btree_internal_insert, ◌>>=◌,
}

abbrev pub growth : InsertResult → ℕ
growth insert_exist = 0
growth insert_balanced = 0
growth _ = 1

factor_cases :
    (b x y : ℕ)
    → b ≡ (x + 256 - y) % 256
    → x ≤ y + 1
    → y ≤ x + 1
    → ((b ≡ 0) × (x ≡ y)) ⊎ (((b ≡ 1) × (x ≡ y + 1)) ⊎ ((b ≡ 255) × (y ≡ x + 1)))
factor_cases b x y e p q = omega arith

module _ {ℓ} {V : Type ℓ} where
  abbrev pub height : Tree V → ℕ
  height leaf = 0
  height (thread t) = 0
  height (node l k v b r) = suc (max (height l) (height r))

  -- Each stored factor is the height of the left subtree less that of the right, which is -1, 0 or 1.
  abbrev pub IsAvl : Tree V → Type 0
  IsAvl leaf = Unit
  IsAvl (thread t) = Unit
  IsAvl (node l k v b r) =
      (b ≡ (height l + 256 - height r) % 256)
      × (height l ≤ height r + 1)
      × (height r ≤ height l + 1)
      × IsAvl l
      × IsAvl r

  abbrev pub Leans : InsertResult → Tree V → Type 0
  Leans insert_ok t = (balance_of t ≡ 0) × (height t ≡ 1)
  Leans insert_left t = balance_of t ≡ 1
  Leans insert_right t = balance_of t ≡ 255
  Leans insert_exist t = Unit
  Leans insert_balanced t = Unit

  -- What a call on `t` may answer.
  abbrev pub Inserted : Tree V → Option (InsertResult × Tree V) → Type 0
  Inserted t none = ⊥
  Inserted t (some (ret, t')) = IsAvl t' × (height t' ≡ height t + growth ret) × Leans ret t'

  height-unthread : (t : Tree V) → height (unthread t) ≡ height t
  height-unthread leaf = refl
  height-unthread (thread t) = refl
  height-unthread (node l k v b r) = refl

  unthread-IsAvl : (t : Tree V) → IsAvl t → IsAvl (unthread t)
  unthread-IsAvl leaf h = h
  unthread-IsAvl (thread t) h = h
  unthread-IsAvl (node l k v b r) h = h

  -- A factor is one of three numerals, so `%` computes in each of the rotated cases.
  module _ (l : Tree V) (k : ℕ) (v : V) (b : ℕ) (r : Tree V) (h : IsAvl (node l k v b r)) where
    right_inserted_ok :
        (r' : Tree V)
        → Inserted r (some (insert_ok, r'))
        → Inserted (node l k v b r) (right_inserted l k v b insert_ok r')
    unfolding right_inserted btree_left_rotate assert_balanced
    right_inserted_ok r' i = elim (factor_cases b (height l) (height r) h.0 h.1 h.2) [
      | inl (e, p) ↦ rw e (ground arith)
      | inr (inl (e, p)) ↦ rw e (ground arith)
      | inr (inr (e, p)) ↦ absurd (omega arith)
    ]

    right_inserted_right :
        (r' : Tree V)
        → Inserted r (some (insert_right, r'))
        → Inserted (node l k v b r) (right_inserted l k v b insert_right r')
    unfolding right_inserted btree_left_rotate assert_balanced
    right_inserted_right leaf i = absurd (omega arith)
    right_inserted_right (thread t) i = absurd (omega arith)
    right_inserted_right (node c k' v' n d) i =
        elim (factor_cases b (height l) (height r) h.0 h.1 h.2) [
          | inl (e, p) ↦ rw (e, i.2) (ground arith)
          | inr (inl (e, p)) ↦ rw (e, i.2) (ground arith)
          | inr (inr (e, p)) ↦ rw (e, i.2) (ground arith)
        ]

    right_inserted_left :
        (r' : Tree V)
        → Inserted r (some (insert_left, r'))
        → Inserted (node l k v b r) (right_inserted l k v b insert_left r')
    unfolding right_inserted btree_left_rotate btree_right_rotate assert_balanced
    right_inserted_left leaf i = absurd (omega arith)
    right_inserted_left (thread t) i = absurd (omega arith)
    right_inserted_left (node leaf k' v' n d) i = absurd (omega arith)
    right_inserted_left (node (thread t) k' v' n d) i = absurd (omega arith)
    right_inserted_left (node (node a x u m c) k' v' n d) i =
        elim (factor_cases b (height l) (height r) h.0 h.1 h.2) [
          | inl (e, p) ↦ rw (e, i.2) (ground arith)
          | inr (inl (e, p)) ↦ rw (e, i.2) (ground arith)
          | inr (inr (e, p)) ↦ elim (factor_cases m (height a) (height c) i.0.3.0 i.0.3.1 i.0.3.2) [
            | inl (f, q) ↦ rw (e, i.2, f) (ground (arith, height-unthread c, unthread-IsAvl c))
            | inr (inl (f, q)) ↦
                rw (e, i.2, f) (ground (arith, height-unthread c, unthread-IsAvl c))
            | inr (inr (f, q)) ↦
                rw (e, i.2, f) (ground (arith, height-unthread c, unthread-IsAvl c))
          ]
        ]

  module _ (l : Tree V) (k : ℕ) (v : V) (b : ℕ) (r : Tree V) (h : IsAvl (node l k v b r)) where
    left_inserted_ok :
        (l' : Tree V)
        → Inserted l (some (insert_ok, l'))
        → Inserted (node l k v b r) (left_inserted r k v b insert_ok l')
    unfolding left_inserted btree_right_rotate assert_balanced
    left_inserted_ok l' i = elim (factor_cases b (height l) (height r) h.0 h.1 h.2) [
      | inl (e, p) ↦ rw e (ground arith)
      | inr (inl (e, p)) ↦ absurd (omega arith)
      | inr (inr (e, p)) ↦ rw e (ground arith)
    ]

    left_inserted_left :
        (l' : Tree V)
        → Inserted l (some (insert_left, l'))
        → Inserted (node l k v b r) (left_inserted r k v b insert_left l')
    unfolding left_inserted btree_right_rotate assert_balanced
    left_inserted_left leaf i = absurd (omega arith)
    left_inserted_left (thread t) i = absurd (omega arith)
    left_inserted_left (node c k' v' n d) i =
        elim (factor_cases b (height l) (height r) h.0 h.1 h.2) [
          | inl (e, p) ↦ rw (e, i.2) (ground arith)
          | inr (inl (e, p)) ↦ rw (e, i.2) (ground (arith, height-unthread d, unthread-IsAvl d))
          | inr (inr (e, p)) ↦ rw (e, i.2) (ground arith)
        ]

    left_inserted_right :
        (l' : Tree V)
        → Inserted l (some (insert_right, l'))
        → Inserted (node l k v b r) (left_inserted r k v b insert_right l')
    unfolding left_inserted btree_left_rotate btree_right_rotate assert_balanced
    left_inserted_right leaf i = absurd (omega arith)
    left_inserted_right (thread t) i = absurd (omega arith)
    left_inserted_right (node d k' v' n leaf) i = absurd (omega arith)
    left_inserted_right (node d k' v' n (thread t)) i = absurd (omega arith)
    left_inserted_right (node d k' v' n (node a x u m c)) i =
        elim (factor_cases b (height l) (height r) h.0 h.1 h.2) [
          | inl (e, p) ↦ rw (e, i.2) (ground arith)
          | inr (inr (e, p)) ↦ rw (e, i.2) (ground arith)
          | inr (inl (e, p)) ↦ elim (factor_cases m (height a) (height c) i.0.4.0 i.0.4.1 i.0.4.2) [
            | inl (f, q) ↦ rw (e, i.2, f) (ground (arith, height-unthread c, unthread-IsAvl c))
            | inr (inl (f, q)) ↦
                rw (e, i.2, f) (ground (arith, height-unthread c, unthread-IsAvl c))
            | inr (inr (f, q)) ↦
                rw (e, i.2, f) (ground (arith, height-unthread c, unthread-IsAvl c))
          ]
        ]

  right_inserted_lem :
      (l : Tree V) (k : ℕ) (v : V) (b : ℕ) (r : Tree V)
      → IsAvl (node l k v b r)
      → (o : Option (InsertResult × Tree V)) → Inserted r o
      → Inserted (node l k v b r) (o >>= λ (ret, r'). right_inserted l k v b ret r')
  unfolding right_inserted
  right_inserted_lem l k v b r h none i = i
  right_inserted_lem l k v b r h (some (insert_exist, r')) i = ground arith
  right_inserted_lem l k v b r h (some (insert_balanced, r')) i = ground arith
  right_inserted_lem l k v b r h (some (insert_ok, r')) i = right_inserted_ok l k v b r h r' i
  right_inserted_lem l k v b r h (some (insert_left, r')) i = right_inserted_left l k v b r h r' i
  right_inserted_lem l k v b r h (some (insert_right, r')) i = right_inserted_right l k v b r h r' i

  left_inserted_lem :
      (l : Tree V) (k : ℕ) (v : V) (b : ℕ) (r : Tree V)
      → IsAvl (node l k v b r)
      → (o : Option (InsertResult × Tree V)) → Inserted l o
      → Inserted (node l k v b r) (o >>= λ (ret, l'). left_inserted r k v b ret l')
  unfolding left_inserted
  left_inserted_lem l k v b r h none i = i
  left_inserted_lem l k v b r h (some (insert_exist, l')) i = ground arith
  left_inserted_lem l k v b r h (some (insert_balanced, l')) i = ground arith
  left_inserted_lem l k v b r h (some (insert_ok, l')) i = left_inserted_ok l k v b r h l' i
  left_inserted_lem l k v b r h (some (insert_left, l')) i = left_inserted_left l k v b r h l' i
  left_inserted_lem l k v b r h (some (insert_right, l')) i = left_inserted_right l k v b r h l' i

  -- On a balanced tree the insertion neither meets a missing child nor fails its assertions; the
  -- new tree is balanced, and the code that it returns says how the height grew and which way the
  -- new root leans.
  pub internal_insert-Inserted :
      (t : Tree V) (q : ℕ) (w : V) → IsAvl t → Inserted t (btree_internal_insert t q w)
  unfolding btree_internal_insert
  internal_insert-Inserted leaf q w h = omega arith
  internal_insert-Inserted (thread t) q w h = omega arith
  internal_insert-Inserted (node l k v b r) q w h =
      elim (compare q k)
        as (λ c. Inserted (node l k v b r) (elim c [
          | Ordering.eq ↦ some (insert_exist, node l k v b r)
          | Ordering.gt ↦ btree_internal_insert r q w >>= λ (ret, r'). right_inserted l k v b ret r'
          | Ordering.lt ↦ btree_internal_insert l q w >>= λ (ret, l'). left_inserted r k v b ret l'
        ])) [
          | Ordering.eq ↦ ground arith
          | Ordering.gt ↦ right_inserted_lem l k v b r h _ (internal_insert-Inserted r q w h.4)
          | Ordering.lt ↦ left_inserted_lem l k v b r h _ (internal_insert-Inserted l q w h.3)
        ]
