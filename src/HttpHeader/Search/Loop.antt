-- ===== src/HttpHeader/Search/Loop.antt =====
-- The search loop of http_header.c on a sorted index
use oserver.Prelude.{
  ℕ, zero, suc, ◌+◌, ◌-◌, ◌/◌, ◌≤◌, ◌<◌, ◌≡◌, Bool, true, Option, none, some, List, [], ◌∷◌, ltb,
  ◌==◌, length, get_or, if◌then◌else◌, arith, tests, All, Bool-cases, inl, inr, lt→ltb,
}
use oserver.HttpHeader.Search.{signed, search_loop}
use oserver.HttpHeader.Sort.Order.{IsSorted, count}

-- A sorted index, by positions.
All-get_or : (P : ℕ → Type 0) (xs : List ℕ) (j : ℕ) → All P xs → j < length xs → P (get_or xs j 0)
All-get_or P [] j a h = absurd (omega arith)
All-get_or P (x ∷ xs) zero a h = a.0
All-get_or P (x ∷ xs) (suc j) a h = All-get_or P xs j a.1 (omega arith)

pub Sorted-get_or :
    (key : ℕ → ℕ) (xs : List ℕ) (i j : ℕ)
    → IsSorted key xs
    → i ≤ j
    → j < length xs
    → key (get_or xs i 0) ≤ key (get_or xs j 0)
Sorted-get_or key [] i j s h lt = absurd (omega arith)
Sorted-get_or key (x ∷ xs) zero zero s h lt = omega arith
Sorted-get_or key (x ∷ xs) zero (suc j) s h lt =
    All-get_or (λ y. key x ≤ key y) xs j s.0 (omega arith)
Sorted-get_or key (x ∷ xs) (suc i) zero s h lt = absurd (omega arith)
Sorted-get_or key (x ∷ xs) (suc i) (suc j) s h lt =
    Sorted-get_or key xs i j s.1 (omega arith) (omega arith)

-- An entry that occurs stands at a position.
pub position :
    (a : ℕ) (xs : List ℕ) → 0 < count a xs → (p : ℕ) × (p < length xs) × (get_or xs p 0 ≡ a)
position a [] h = absurd (omega arith)
position a (x ∷ xs) h = elim (Bool-cases (a == x)) [
  | inl e ↦ (0, omega arith, ground arith)
  | inr e ↦ let (p, lt, at) = position a xs (rw e at h) in (suc p, omega arith, at)
]

pub count_pos : (xs : List ℕ) (m : ℕ) → m < length xs → 0 < count (get_or xs m 0) xs
count_pos [] m h = absurd (omega arith)
count_pos (x ∷ xs) zero h = ground arith
count_pos (x ∷ xs) (suc m) h = ground (arith, count_pos xs m)

module _ (eq : ℕ → Bool) (index : List ℕ) (hash : ℕ → ℕ) (targ : ℕ)
    (sorted : IsSorted (λ i. signed (hash i)) index) (small : (i : ℕ) → hash i < 0x10000) where
  -- What the loop answers at the entry where it ends.
  abbrev pub Ends : Option ℕ → Type 0
  Ends r =
      (m : ℕ) × (m < length index)
      × (hash (get_or index m 0) ≡ targ)
      × (r ≡ (if eq (get_or index m 0) then some (get_or index m 0) else none))

  -- Where an entry of the range has the hash that is looked for, the loop ends at one that has, and
  -- answers by the test of its name.
  pub search_loop-Ends :
      (fuel low high' p : ℕ)
      → high' - low < fuel
      → low ≤ p
      → p < high'
      → high' ≤ length index
      → hash (get_or index p 0) ≡ targ
      → Ends (search_loop eq index hash targ fuel low high')
  unfolding search_loop
  search_loop-Ends zero low high' p f l h b e = absurd (omega arith)
  search_loop-Ends (suc fuel) low high' p f l h b e =
      let key = λ (i : ℕ). signed (hash i) in
      let mid = (low + high' - 1) / 2 in
      let i = get_or index mid 0 in
      let some_left : ltb low high' ≡ true = lt→ltb low high' (omega arith) in
      elim (Bool-cases (targ == hash i)) [
        | inl same ↦ (mid, omega arith, ground arith, rw (some_left, same))
        | inr other ↦ elim (Bool-cases (ltb (signed targ) (signed (hash i)))) [
          | inl below ↦
              let before : p < mid =
                ground (
                  arith,
                  Sorted-get_or key index mid p sorted,
                  small i,
                  small (get_or index p 0),
                ) in
              rw (some_left, other, below)
                (search_loop-Ends fuel low mid p (omega arith) l before (omega arith) e)
          | inr above ↦
              let after : mid < p =
                ground (
                  arith,
                  Sorted-get_or key index p mid sorted,
                  small i,
                  small (get_or index p 0),
                ) in
              rw (some_left, other, above)
                (search_loop-Ends fuel (mid + 1) high' p (omega arith) (omega arith) h b e)
        ]
      ]

  -- Whatever the loop answers has the hash that is looked for and passes the test of the names.
  pub search_loop_sound :
      (fuel low high' i : ℕ)
      → search_loop eq index hash targ fuel low high' ≡ some i
      → (hash i ≡ targ) × (eq i ≡ true)
  unfolding search_loop
  search_loop_sound zero low high' i e = absurd (cc)
  search_loop_sound (suc fuel) low high' i e =
      let mid = (low + high' - 1) / 2 in
      ground (arith, search_loop_sound fuel low mid i, search_loop_sound fuel (mid + 1) high' i)

-- Whatever the loop answers stands in the index between the bounds.
pub search_loop_at :
    (eq : ℕ → Bool) (index : List ℕ) (hash : ℕ → ℕ) (targ fuel low high' i : ℕ)
    → search_loop eq index hash targ fuel low high' ≡ some i
    → (m : ℕ) × (m < high') × (get_or index m 0 ≡ i)
unfolding search_loop
search_loop_at eq index hash targ zero low high' i e = absurd (cc)
search_loop_at eq index hash targ (suc fuel) low high' i e =
    let mid = (low + high' - 1) / 2 in
    let next = get_or index mid 0 in
    elim (Bool-cases (ltb low high')) [
      | inr empty ↦ absurd (ground arith)
      | inl some_left ↦
          let inside : mid < high' = omega (tests, some_left) in
          elim (Bool-cases (targ == hash next)) [
            | inl same ↦ (mid, inside, ground arith)
            | inr other ↦ elim (Bool-cases (ltb (signed targ) (signed (hash next)))) [
              | inl below ↦
                  let (m, h, at) =
                    search_loop_at eq index hash targ fuel low mid i (ground arith) in
                  (m, omega (arith, inside, h), at)
              | inr above ↦ search_loop_at eq index hash targ fuel (mid + 1) high' i (ground arith)
            ]
          ]
    ]
