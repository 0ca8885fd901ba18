-- ===== src/Btree/Entries.antt =====
-- A dictionary as a list of entries in the order of their keys: what the tree of btree.c stands for.
use Prim.Native.Nat.{compare, Ordering}
use oserver.Prelude.{ℕ, ◌<◌, ◌≡◌, refl, Option, none, some, List, [], ◌∷◌, ◌++◌, arith}

module _ {ℓ} {V : Type ℓ} where
  abbrev pub Below : ℕ → List (ℕ × V) → Type 0
  Below q [] = Unit
  Below q ((k, v) ∷ xs) = (k < q) × Below q xs

  abbrev pub Above : ℕ → List (ℕ × V) → Type 0
  Above q [] = Unit
  Above q ((k, v) ∷ xs) = (q < k) × Above q xs

  abbrev pub IsSorted : List (ℕ × V) → Type 0
  IsSorted [] = Unit
  IsSorted ((k, v) ∷ xs) = Above k xs × IsSorted xs

  unfoldable pub lookup : ℕ → List (ℕ × V) → Option V
  lookup q [] = none
  lookup q ((k, v) ∷ xs) = elim (compare q k) [ Ordering.eq ↦ some v | _ ↦ lookup q xs ]

  -- An entry whose key is there already is not replaced.
  unfoldable pub insert_entry : ℕ → V → List (ℕ × V) → List (ℕ × V)
  insert_entry q w [] = (q, w) ∷ []
  insert_entry q w ((k, v) ∷ xs) = elim (compare q k) [
    | Ordering.lt ↦ (q, w) ∷ (k, v) ∷ xs
    | Ordering.eq ↦ (k, v) ∷ xs
    | Ordering.gt ↦ (k, v) ∷ insert_entry q w xs
  ]

  -- The parts of a sorted list round one of its entries.
  pub Sorted-left :
      (xs : List (ℕ × V)) (k : ℕ) (v : V) (ys : List (ℕ × V))
      → IsSorted (xs ++ (k, v) ∷ ys)
      → Below k xs × IsSorted xs
  Sorted-left [] k v ys h = (tt, tt)
  Sorted-left ((j, u) ∷ xs) k v ys h =
      let (below, sorted) = Sorted-left xs k v ys h.1 in
      ((Above-mid xs h.0, below), (Above-init xs h.0, sorted))
    where
      Above-mid : (zs : List (ℕ × V)) → Above j (zs ++ (k, v) ∷ ys) → j < k
      Above-mid [] a = a.0
      Above-mid (z ∷ zs) a = Above-mid zs a.1

      Above-init : (zs : List (ℕ × V)) → Above j (zs ++ (k, v) ∷ ys) → Above j zs
      Above-init [] a = tt
      Above-init (z ∷ zs) a = (a.0, Above-init zs a.1)

  pub Sorted-right :
      (xs : List (ℕ × V)) (k : ℕ) (v : V) (ys : List (ℕ × V))
      → IsSorted (xs ++ (k, v) ∷ ys)
      → Above k ys × IsSorted ys
  Sorted-right [] k v ys h = h
  Sorted-right (x ∷ xs) k v ys h = Sorted-right xs k v ys h.1

  Above-insert_entry :
      (j q : ℕ) (w : V) (xs : List (ℕ × V)) → j < q → Above j xs → Above j (insert_entry q w xs)
  unfolding insert_entry
  Above-insert_entry j q w [] lt a = (lt, tt)
  Above-insert_entry j q w ((k, v) ∷ xs) lt a = ground (arith, Above-insert_entry j q w xs)

  Above-trans : (j k : ℕ) (xs : List (ℕ × V)) → j < k → Above k xs → Above j xs
  Above-trans j k [] lt a = tt
  Above-trans j k ((i, u) ∷ xs) lt a = (omega arith, Above-trans j k xs lt a.1)

  pub Sorted-insert_entry :
      (q : ℕ) (w : V) (xs : List (ℕ × V)) → IsSorted xs → IsSorted (insert_entry q w xs)
  unfolding insert_entry
  Sorted-insert_entry q w [] h = (tt, tt)
  Sorted-insert_entry q w ((k, v) ∷ xs) h =
      ground (arith, Sorted-insert_entry q w xs, Above-insert_entry k q w xs, Above-trans q k xs)

  -- Insertion and lookup, from the side of the entry `(k, v)` on which the key lies.
  module _ (q k : ℕ) (w v : V) (ys : List (ℕ × V)) where
    pub insert_entry_lt :
        (xs : List (ℕ × V))
        → q < k
        → insert_entry q w (xs ++ (k, v) ∷ ys) ≡ insert_entry q w xs ++ (k, v) ∷ ys
    unfolding insert_entry
    insert_entry_lt [] h = ground arith
    insert_entry_lt ((j, u) ∷ xs) h = ground (arith, insert_entry_lt xs h)

    pub insert_entry_gt :
        (xs : List (ℕ × V))
        → k < q
        → Below k xs
        → insert_entry q w (xs ++ (k, v) ∷ ys) ≡ xs ++ (k, v) ∷ insert_entry q w ys
    unfolding insert_entry
    insert_entry_gt [] h b = ground arith
    insert_entry_gt ((j, u) ∷ xs) h b = ground (arith, insert_entry_gt xs h b.1)

    pub insert_entry_eq :
        (xs : List (ℕ × V))
        → q ≡ k
        → Below k xs
        → insert_entry q w (xs ++ (k, v) ∷ ys) ≡ xs ++ (k, v) ∷ ys
    unfolding insert_entry
    insert_entry_eq [] h b = ground arith
    insert_entry_eq ((j, u) ∷ xs) h b = ground (arith, insert_entry_eq xs h b.1)

    lookup-Above : (zs : List (ℕ × V)) → q < k → Above k zs → lookup q zs ≡ none
    unfolding lookup
    lookup-Above [] h a = refl
    lookup-Above ((j, u) ∷ zs) h a = ground (arith, lookup-Above zs h a.1)

    pub lookup_lt :
        (xs : List (ℕ × V)) → q < k → Above k ys → lookup q (xs ++ (k, v) ∷ ys) ≡ lookup q xs
    unfolding lookup
    lookup_lt [] h a = ground (arith, lookup-Above ys h a)
    lookup_lt ((j, u) ∷ xs) h a = ground (arith, lookup_lt xs h a)

    pub lookup_gt :
        (xs : List (ℕ × V)) → k < q → Below k xs → lookup q (xs ++ (k, v) ∷ ys) ≡ lookup q ys
    unfolding lookup
    lookup_gt [] h b = ground arith
    lookup_gt ((j, u) ∷ xs) h b = ground (arith, lookup_gt xs h b.1)

    pub lookup_eq : (xs : List (ℕ × V)) → q ≡ k → Below k xs → lookup q (xs ++ (k, v) ∷ ys) ≡ some v
    unfolding lookup
    lookup_eq [] h b = ground arith
    lookup_eq ((j, u) ∷ xs) h b = ground (arith, lookup_eq xs h b.1)

  abbrev pub kept_or : V → Option V → Option V
  kept_or w none = some w
  kept_or w (some v) = some v

  -- The first payload that is inserted under a key is the one that is found.
  pub lookup-insert_entry :
      (q p : ℕ) (w : V) (xs : List (ℕ × V))
      → IsSorted xs
      → lookup p (insert_entry q w xs)
        ≡ elim (compare p q) [ Ordering.eq ↦ kept_or w (lookup p xs) | _ ↦ lookup p xs ]
  unfolding lookup insert_entry
  lookup-insert_entry q p w [] h = ground arith
  lookup-insert_entry q p w ((k, v) ∷ xs) h =
      ground (arith, lookup-insert_entry q p w xs h.1, lookup-Above p k w v xs xs)
