-- ===== src/LinkedList/Traverse.antt =====
-- `list_traverse` of list.c with a visitor that may take the node out of the list that it stands in,
-- as `server_check_conn_in` of server.c does
use oserver.Prelude.{
  ℕ, zero, suc, ◌<◌, ◌≡◌, refl, sym, List, [], ◌∷◌, ◌++◌, append_assoc, Option, some, Bool, true,
  false, arith, ◌==◌, if◌then◌else◌, ==-false, length, Bool-cases, inl, inr,
}
use oserver.LinkedList.{Ptr, Store, list_remove, traverse_from, list_traverse}
use oserver.LinkedList.Links.{Links, Links-right, NotIn-right}
use oserver.LinkedList.Ring.{IsRing, remove-IsRing}

abbrev pub first : List Ptr → Ptr → Ptr
first [] h = h
first (x ∷ xs) h = x

module _ {S : Type 0} (drop : Ptr → S → Bool) (act : Ptr → S → S) where
  -- Goes on in every case, having taken the node out where `drop` says so.
  unfoldable pub pruning : Ptr → Store → S → Bool × Store × S
  pruning n s a = (true, (if drop n a then list_remove s n else s), act n a)

  abbrev pub acted : List Ptr → S → S
  acted [] a = a
  acted (x ∷ xs) a = acted xs (act x a)

  abbrev pub pruned : List Ptr → S → List Ptr
  pruned [] a = []
  pruned (x ∷ xs) a = if drop x a then pruned xs (act x a) else x ∷ pruned xs (act x a)

  abbrev Traversed : Ptr → List Ptr → S → Option (Store × S) → Type 0
  Traversed h xs a r = (s : Store) × (r ≡ some (s, a)) × IsRing s h xs

  next-first :
      (s : Store) (h x : Ptr) (before xs : List Ptr)
      → IsRing s h (before ++ x ∷ xs)
      → s.next x ≡ first xs h
  next-first s h x before [] r = (Links-right s h x h before [] r.links).0
  next-first s h x before (y ∷ xs) r = (Links-right s h x h before (y ∷ xs) r.links).0

  traverse_from-Traversed :
      (fuel : ℕ) (s : Store) (h : Ptr) (before xs : List Ptr) (a : S)
      → IsRing s h (before ++ xs)
      → length xs < fuel
      → Traversed h
          (before ++ pruned xs a)
          (acted xs a)
          (traverse_from h pruning fuel (first xs h) s a)
  unfolding traverse_from pruning
  traverse_from-Traversed zero s h before xs a r lt = absurd (omega arith)
  traverse_from-Traversed (suc fuel) s h before [] a r lt =
      let same : (h == h) ≡ true = ground arith in rw same (s, refl, r)
  traverse_from-Traversed (suc fuel) s h before (x ∷ xs) a r lt =
      let other : (x == h) ≡ false =
        ==-false x h (λ e. (NotIn-right h before (x ∷ xs) r.distinct.0).0 (sym e)) in
      rw (other, next-first s h x before xs r)
        (elim (Bool-cases (drop x a)) [
          | inl e ↦ rw e (
              traverse_from-Traversed fuel (list_remove s x) h before xs (act x a)
                (remove-IsRing s h x before xs r) (omega arith))
          | inr e ↦
              rw (e, ← append_assoc before (x ∷ []) (pruned xs (act x a)))
                (traverse_from-Traversed fuel s h (before ++ x ∷ []) xs (act x a)
                  (rw (append_assoc before (x ∷ []) xs) r) (omega arith))
        ])

  -- With fuel for one round more than there are nodes the traversal returns: it has acted on every
  -- node once and in order, and the nodes that were dropped, and no others, are out of the list.
  pub traverse-pruned :
      (fuel : ℕ) (s : Store) (h : Ptr) (xs : List Ptr) (a : S)
      → IsRing s h xs
      → length xs < fuel
      → (s' : Store) × (list_traverse h pruning fuel s a ≡ some (s', acted xs a))
        × IsRing s' h (pruned xs a)
  unfolding list_traverse
  traverse-pruned fuel s h xs a r lt =
      rw (start xs r.links) (traverse_from-Traversed fuel s h [] xs a r lt)
    where
      start : (ys : List Ptr) → Links s h ys h → s.next h ≡ first ys h
      start [] l = l.0
      start (y ∷ ys) l = l.0
