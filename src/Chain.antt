-- ===== src/Chain.antt =====
-- Singly linked chains that end in `NULL`, for sync_queue.c and object_pool.c.
use oserver.Prelude.{ℕ, ◌≡◌, sym, ◌≢◌, List, [], ◌∷◌, ◌++◌, arith, ◌==◌, if◌then◌else◌}

abbrev pub Ptr : Type 0
Ptr = ℕ

abbrev pub null : Ptr
null = 0

-- `p->next = v`
abbrev pub set_next : (Ptr → Ptr) → Ptr → Ptr → Ptr → Ptr
set_next next p v x = if x == p then v else next x

abbrev pub NotIn : Ptr → List Ptr → Type 0
NotIn a [] = Unit
NotIn a (x ∷ xs) = (a ≢ x) × NotIn a xs

abbrev pub Distinct : List Ptr → Type 0
Distinct [] = Unit
Distinct (x ∷ xs) = NotIn x xs × Distinct xs

-- From `p` the links lead through the nodes `xs` to `NULL`.
abbrev pub IsChain : (Ptr → Ptr) → Ptr → List Ptr → Type 0
IsChain next p [] = p ≡ null
IsChain next p (x ∷ xs) = (p ≡ x) × (x ≢ null) × IsChain next (next x) xs

-- A write to a node that is not in the chain leaves it.
pub IsChain-set_next :
    (next : Ptr → Ptr) (a v p : Ptr) (xs : List Ptr)
    → NotIn a xs
    → IsChain next p xs
    → IsChain (set_next next a v) p xs
IsChain-set_next next a v p [] n c = c
IsChain-set_next next a v p (x ∷ xs) n c =
    ground (arith, IsChain-set_next next a v (next x) xs n.1 c.2)

pub NotIn-snoc : (a n : Ptr) (xs : List Ptr) → NotIn a xs → a ≢ n → NotIn a (xs ++ n ∷ [])
NotIn-snoc a n [] h ne = (ne, tt)
NotIn-snoc a n (x ∷ xs) h ne = (h.0, NotIn-snoc a n xs h.1 ne)

pub Distinct-snoc : (n : Ptr) (xs : List Ptr) → Distinct xs → NotIn n xs → Distinct (xs ++ n ∷ [])
Distinct-snoc n [] d h = (tt, tt)
Distinct-snoc n (x ∷ xs) d h =
    (NotIn-snoc x n xs d.0 (λ e. h.0 (sym e)), Distinct-snoc n xs d.1 h.1)
