-- ===== src/LinkedList/Links.antt =====
-- Chains of links in the store of list.c, and what a write leaves of them
use oserver.Prelude.{◌≡◌, sym, ◌≢◌, List, [], ◌∷◌, ◌++◌, arith}
use oserver.LinkedList.{Ptr, Store, set_next, set_prev}

abbrev pub NotIn : Ptr → List Ptr → Type 0
NotIn a [] = Unit
NotIn a (x ∷ xs) = (a ≢ x) × NotIn a xs

abbrev pub Distinct : List Ptr → Type 0
Distinct [] = Unit
Distinct (x ∷ xs) = NotIn x xs × Distinct xs

-- From `a` the links lead through `xs` to `b`, and back.
abbrev pub Links : Store → Ptr → List Ptr → Ptr → Type 0
Links s a [] b = (s.next a ≡ b) × (s.prev b ≡ a)
Links s a (x ∷ xs) b = (s.next a ≡ x) × (s.prev x ≡ a) × Links s x xs b

pub Links-append :
    (s : Store) (a n b : Ptr) (xs ys : List Ptr)
    → Links s a xs n
    → Links s n ys b
    → Links s a (xs ++ n ∷ ys) b
Links-append s a n b [] ys l m = (l.0, l.1, m)
Links-append s a n b (x ∷ xs) ys l m = (l.0, l.1, Links-append s x n b xs ys l.2 m)

pub Links-left :
    (s : Store) (a n b : Ptr) (xs ys : List Ptr) → Links s a (xs ++ n ∷ ys) b → Links s a xs n
Links-left s a n b [] ys l = (l.0, l.1)
Links-left s a n b (x ∷ xs) ys l = (l.0, l.1, Links-left s x n b xs ys l.2)

pub Links-right :
    (s : Store) (a n b : Ptr) (xs ys : List Ptr) → Links s a (xs ++ n ∷ ys) b → Links s n ys b
Links-right s a n b [] ys l = l.2
Links-right s a n b (x ∷ xs) ys l = Links-right s x n b xs ys l.2

pub Links-set_next :
    (s : Store) (p v a b : Ptr) (xs : List Ptr)
    → NotIn p (a ∷ xs)
    → Links s a xs b
    → Links (set_next s p v) a xs b
Links-set_next s p v a b [] n l = ground arith
Links-set_next s p v a b (x ∷ xs) n l = ground (arith, Links-set_next s p v x b xs n.1 l.2)

pub Links-set_prev :
    (s : Store) (p v a b : Ptr) (xs : List Ptr)
    → NotIn p xs
    → p ≢ b
    → Links s a xs b
    → Links (set_prev s p v) a xs b
Links-set_prev s p v a b [] n ne l = ground arith
Links-set_prev s p v a b (x ∷ xs) n ne l = ground (arith, Links-set_prev s p v x b xs n.1 ne l.2)

-- The node before the end of a chain is one of its own, and so is the node after its start.
pub prev-ne :
    (s : Store) (a b c : Ptr) (xs : List Ptr) → NotIn c (a ∷ xs) → Links s a xs b → s.prev b ≢ c
prev-ne s a b c [] n l = ground arith
prev-ne s a b c (x ∷ xs) n l = prev-ne s x b c xs n.1 l.2

pub next-ne :
    (s : Store) (a b c : Ptr) (xs : List Ptr) → NotIn c xs → c ≢ b → Links s a xs b → s.next a ≢ c
next-ne s a b c [] n ne l = ground arith
next-ne s a b c (x ∷ xs) n ne l = ground arith

pub NotIn-left : (a : Ptr) (xs ys : List Ptr) → NotIn a (xs ++ ys) → NotIn a xs
NotIn-left a [] ys n = tt
NotIn-left a (x ∷ xs) ys n = (n.0, NotIn-left a xs ys n.1)

pub NotIn-right : (a : Ptr) (xs ys : List Ptr) → NotIn a (xs ++ ys) → NotIn a ys
NotIn-right a [] ys n = n
NotIn-right a (x ∷ xs) ys n = NotIn-right a xs ys n.1

pub NotIn-append : (a : Ptr) (xs ys : List Ptr) → NotIn a xs → NotIn a ys → NotIn a (xs ++ ys)
NotIn-append a [] ys n m = m
NotIn-append a (x ∷ xs) ys n m = (n.0, NotIn-append a xs ys n.1 m)

pub NotIn-without : (a n : Ptr) (xs ys : List Ptr) → NotIn a (xs ++ n ∷ ys) → NotIn a (xs ++ ys)
NotIn-without a n [] ys h = h.1
NotIn-without a n (x ∷ xs) ys h = (h.0, NotIn-without a n xs ys h.1)

pub Distinct-without : (n : Ptr) (xs ys : List Ptr) → Distinct (xs ++ n ∷ ys) → Distinct (xs ++ ys)
Distinct-without n [] ys d = d.1
Distinct-without n (x ∷ xs) ys d = (NotIn-without x n xs ys d.0, Distinct-without n xs ys d.1)

pub Distinct-snoc : (n : Ptr) (xs : List Ptr) → Distinct xs → NotIn n xs → Distinct (xs ++ n ∷ [])
Distinct-snoc n [] d m = (tt, tt)
Distinct-snoc n (x ∷ xs) d m =
    (NotIn-append x xs (n ∷ []) d.0 ((λ e. m.0 (sym e)), tt), Distinct-snoc n xs d.1 m.1)

-- Unlinking the node `n`, whose neighbours are `p` and `q`.
pub Links-without :
    (s : Store) (p q a n b : Ptr) (xs ys : List Ptr)
    → p ≡ s.prev n
    → q ≡ s.next n
    → Distinct (a ∷ xs ++ ys)
    → NotIn b (xs ++ ys)
    → Links s a xs n
    → Links s n ys b
    → Links (set_prev (set_next s p q) q p) a (xs ++ ys) b
Links-without s p q a n b [] [] ep eq d nb l m = ground arith
Links-without s p q a n b [] (y ∷ ys) ep eq d nb l m =
    ground (arith, Links-set_prev (set_next s p q) q p y b ys, Links-set_next s p q y b ys, d.1.0)
Links-without s p q a n b (x ∷ xs) ys ep eq d nb l m = ground (
  arith,
  prev-ne s x n a xs,
  next-ne s n b x ys,
  Links-without s p q x n b xs ys,
  NotIn-left a xs ys,
  NotIn-right x xs ys,
)

-- Linking the new node `n` in before the head `b`, whose last node is `p`.
pub Links-snoc :
    (s : Store) (p a n b : Ptr) (xs : List Ptr)
    → p ≡ s.prev b
    → Distinct (a ∷ xs)
    → NotIn b xs
    → NotIn n (a ∷ xs)
    → n ≢ b
    → Links s a xs b
    → Links (set_prev (set_next (set_prev (set_next s n b) n p) p n) b n) a (xs ++ n ∷ []) b
Links-snoc s p a n b [] ep d nb nn ne l = ground arith
Links-snoc s p a n b (x ∷ xs) ep d nb nn ne l =
    ground (arith, prev-ne s x b a xs, Links-snoc s p x n b xs)
