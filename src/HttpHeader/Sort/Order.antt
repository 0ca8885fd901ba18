-- ===== src/HttpHeader/Sort/Order.antt =====
-- That the bubble sort of http_header.c sorts, and keeps what it sorts.
use Prim.Native.Nat.{bit_xor}
use oserver.Prelude.{
  ℕ, zero, suc, ◌-◌, ◌≤◌, ◌<◌, ◌≡◌, refl, ap, subst, ◌∙◌, Bool, true, ◌&&◌, List, [], ◌∷◌, ◌++◌,
  append_assoc, append-nil, ◌==◌, length, arith, if◌then◌else◌, ◌⊎◌, inl, inr, All, All-left,
  All-right, holds_under, holds_under-at,
}
use oserver.HttpHeader.Sort.{exchange, pass, passes, http_header_fields_bubble_sort}

exchanged : ℕ → ℕ → Bool
exchanged a b = (bit_xor a (bit_xor a b) == b) && (bit_xor b (bit_xor a b) == a)

exchange_table : holds_under (λ a. holds_under (exchanged a) 128) 128 ≡ true
unfolding holds_under exchanged
exchange_table = refl

xor_exchange :
    (a b : ℕ) → a < 128 → b < 128 → (bit_xor a (bit_xor a b) ≡ b) × (bit_xor b (bit_xor a b) ≡ a)
unfolding exchanged
xor_exchange a b ha hb = go (
    holds_under-at (exchanged a) b 128 hb
      (holds_under-at (λ a. holds_under (exchanged a) 128) a 128 ha exchange_table))
  where
    go : exchanged a b ≡ true → (bit_xor a (bit_xor a b) ≡ b) × (bit_xor b (bit_xor a b) ≡ a)
    go e = ground arith

abbrev pub count : ℕ → List ℕ → ℕ
count a [] = 0
count a (x ∷ xs) = if a == x then suc (count a xs) else count a xs

abbrev pub IsSmall : ℕ → Type 0
IsSmall a = a < 128

module _ (key : ℕ → ℕ) where
  abbrev AtMost : ℕ → ℕ → Type 0
  AtMost m x = key x ≤ key m

  -- Every entry is at most the ones behind it.
  abbrev pub IsSorted : List ℕ → Type 0
  IsSorted [] = Unit
  IsSorted (x ∷ xs) = All (λ y. key x ≤ key y) xs × IsSorted xs

  exchange_ordered :
      (a b : ℕ)
      → IsSmall a
      → IsSmall b
      → ((exchange key a b ≡ (a, b)) × (key a ≤ key b))
        ⊎ ((exchange key a b ≡ (b, a)) × (key b ≤ key a))
  unfolding exchange
  exchange_ordered a b ha hb = ground (arith, xor_exchange a b ha hb)

  -- A pass over `xs` and nothing behind it.
  pass-append :
      (i : ℕ) (xs back : List ℕ)
      → length xs ≡ suc i
      → pass key i (xs ++ back) ≡ pass key i xs ++ back
  unfolding pass
  pass-append i [] back h = absurd (omega arith)
  pass-append zero (x ∷ []) back h = refl
  pass-append (suc i) (x ∷ []) back h = absurd (omega arith)
  pass-append zero (x ∷ y ∷ xs) back h = absurd (omega arith)
  pass-append (suc i) (x ∷ y ∷ xs) back h =
      ap (λ l. (exchange key x y).0 ∷ l)
        (pass-append i ((exchange key x y).1 ∷ xs) back (omega arith))

  length-pass : (i : ℕ) (xs : List ℕ) → length (pass key i xs) ≡ length xs
  unfolding pass
  length-pass zero xs = refl
  length-pass (suc i) [] = refl
  length-pass (suc i) (x ∷ []) = refl
  length-pass (suc i) (x ∷ y ∷ xs) = ap suc (length-pass i ((exchange key x y).1 ∷ xs))

  pass-All :
      (P : ℕ → Type 0) (i : ℕ) (xs : List ℕ) → All IsSmall xs → All P xs → All P (pass key i xs)
  unfolding pass
  pass-All P zero xs s p = p
  pass-All P (suc i) [] s p = p
  pass-All P (suc i) (x ∷ []) s p = p
  pass-All P (suc i) (x ∷ y ∷ xs) s p = elim (exchange_ordered x y s.0 s.1.0) [
    | inl (e, _) ↦ rw e (p.0, pass-All P i (y ∷ xs) s.1 p.1)
    | inr (e, _) ↦ rw e (p.1.0, pass-All P i (x ∷ xs) (s.0, s.1.1) (p.0, p.1.1))
  ]

  count-pass : (a i : ℕ) (xs : List ℕ) → All IsSmall xs → count a (pass key i xs) ≡ count a xs
  unfolding pass
  count-pass a zero xs s = refl
  count-pass a (suc i) [] s = refl
  count-pass a (suc i) (x ∷ []) s = refl
  count-pass a (suc i) (x ∷ y ∷ xs) s = elim (exchange_ordered x y s.0 s.1.0) [
    | inl (e, _) ↦ rw e (ground (arith, count-pass a i (y ∷ xs) s.1))
    | inr (e, _) ↦ rw e (ground (arith, count-pass a i (x ∷ xs) (s.0, s.1.1)))
  ]

  -- A full pass takes a greatest entry to the end.
  abbrev Passed : ℕ → List ℕ → List ℕ → Type 0
  Passed i xs ys =
      (front : List ℕ) × (m : ℕ) × (ys ≡ front ++ m ∷ []) × (length front ≡ i) × All (AtMost m) xs

  pass-Passed :
      (i : ℕ) (xs : List ℕ) → length xs ≡ suc i → All IsSmall xs → Passed i xs (pass key i xs)
  unfolding pass
  pass-Passed i [] h s = absurd (omega arith)
  pass-Passed zero (x ∷ []) h s = ([], x, refl, refl, (omega arith, tt))
  pass-Passed zero (x ∷ y ∷ xs) h s = absurd (omega arith)
  pass-Passed (suc i) (x ∷ []) h s = absurd (omega arith)
  pass-Passed (suc i) (x ∷ y ∷ xs) h s = elim (exchange_ordered x y s.0 s.1.0) [
    | inl (e, le) ↦
        let (front, m, split, size, most) = pass-Passed i (y ∷ xs) (omega arith) s.1 in
        rw e (x ∷ front, m, ap (λ l. x ∷ l) split, ap suc size, (omega arith, most))
    | inr (e, le) ↦
        let (front, m, split, size, most) = pass-Passed i (x ∷ xs) (omega arith) (s.0, s.1.1) in
        rw e (y ∷ front, m, ap (λ l. y ∷ l) split, ap suc size, (most.0, (omega arith, most.1)))
  ]

  abbrev Under : List ℕ → ℕ → Type 0
  Under back x = All (λ y. key x ≤ key y) back

  Under-both :
      (m : ℕ) (back xs : List ℕ)
      → All (AtMost m) xs
      → All (Under back) xs
      → All (Under (m ∷ back)) xs
  Under-both m back [] p q = tt
  Under-both m back (x ∷ xs) p q = ((p.0, q.0), Under-both m back xs p.1 q.1)

  passes-IsSorted :
      (i : ℕ) (xs back : List ℕ)
      → length xs ≡ suc i
      → All IsSmall xs
      → All (Under back) xs
      → IsSorted back
      → IsSorted (passes key i (xs ++ back))
  unfolding passes
  passes-IsSorted zero [] back h s u o = absurd (omega arith)
  passes-IsSorted zero (x ∷ []) back h s u o = (u.0, o)
  passes-IsSorted zero (x ∷ y ∷ xs) back h s u o = absurd (omega arith)
  passes-IsSorted (suc i) xs back h s u o =
      let (front, m, split, size, most) = pass-Passed (suc i) xs h s in
      let whole : pass key (suc i) (xs ++ back) ≡ front ++ m ∷ back =
        pass-append (suc i) xs back h
        ∙ ap (λ l. l ++ back) split
        ∙ append_assoc front (m ∷ []) back in
      let small : All IsSmall (front ++ m ∷ []) = rw split at (pass-All IsSmall (suc i) xs s s) in
      let below : All (AtMost m) (front ++ m ∷ []) =
        rw split at (pass-All (AtMost m) (suc i) xs s most) in
      let under : All (Under back) (front ++ m ∷ []) =
        rw split at (pass-All (Under back) (suc i) xs s u) in
      rw whole (
        passes-IsSorted i front (m ∷ back) size (All-left IsSmall front (m ∷ []) small)
          (Under-both m back front (All-left (AtMost m) front (m ∷ []) below)
            (All-left (Under back) front (m ∷ []) under))
          ((All-right (Under back) front (m ∷ []) under).0, o))

  passes_keep :
      (a i : ℕ) (xs : List ℕ)
      → All IsSmall xs
      → (count a (passes key i xs) ≡ count a xs)
        × (length (passes key i xs) ≡ length xs)
        × All IsSmall (passes key i xs)
  unfolding passes
  passes_keep a zero xs s = (refl, refl, s)
  passes_keep a (suc i) xs s =
      let (c, l, k) = passes_keep a i (pass key (suc i) xs) (pass-All IsSmall (suc i) xs s s) in
      (c ∙ count-pass a (suc i) xs s, l ∙ length-pass (suc i) xs, k)

  Under-nil : (xs : List ℕ) → All (Under []) xs
  Under-nil [] = tt
  Under-nil (x ∷ xs) = (tt, Under-nil xs)

  -- The sort puts the index in the order of the keys and keeps its entries, each as often as before.
  pub bubble_sort-IsSorted :
      (index : List ℕ)
      → All (λ a. a < 128) index
      → IsSorted (http_header_fields_bubble_sort key index)
        × ((a : ℕ) → count a (http_header_fields_bubble_sort key index) ≡ count a index)
        × (length (http_header_fields_bubble_sort key index) ≡ length index)
  unfolding http_header_fields_bubble_sort
  bubble_sort-IsSorted [] s = (tt, (λ a. refl), refl)
  bubble_sort-IsSorted (x ∷ xs) s =
      let i = length xs in
      let size : suc (length xs) - 1 ≡ i = omega arith in
      rw size (
        subst (λ l. IsSorted (passes key i l)) (append-nil (x ∷ xs))
            (passes-IsSorted i (x ∷ xs) [] refl s (Under-nil (x ∷ xs)) tt),
        (λ a. (passes_keep a i (x ∷ xs) s).0),
        (passes_keep 0 i (x ∷ xs) s).1,
      )
