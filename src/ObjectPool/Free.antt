-- ===== src/ObjectPool/Free.antt =====
-- The free list of object_pool.c
use oserver.Prelude.{
  ℕ, zero, suc, ◌+◌, ◌-◌, ◌≤◌, ◌<◌, ◌≡◌, refl, sym, subst, ◌≢◌, none, some, List, [], ◌∷◌, ◌++◌,
  All, append-nil, arith, ◌==◌, if◌then◌else◌,
}
use oserver.Chain.{Ptr, null, set_next, NotIn, Distinct, IsChain, IsChain-set_next}
use oserver.ObjectPool.{
  ObjectPool, carve, object_pool_create, object_pool_acquire, object_pool_return,
  object_pool_expand, sizeof_memory, sizeof_object,
}

-- The objects that are free, first to last.
pub record Free (op : ObjectPool) (xs : List Ptr) : Type 0 where
  pub chain : IsChain op.next op.available_objects xs
  pub distinct : Distinct xs

-- The free object that is given, and what stays free.
abbrev pub Acquired : ObjectPool → List Ptr → Type 0
Acquired op [] = object_pool_acquire op ≡ (none, op)
Acquired op (x ∷ xs) =
    ((object_pool_acquire op).0 ≡ some x) × Free (object_pool_acquire op).1 xs × NotIn x xs

-- An empty pool answers `NULL` and stays as it is; any other gives its first free object, which is
-- not free afterwards, and keeps the rest.
pub acquire-Acquired : (op : ObjectPool) (xs : List Ptr) → Free op xs → Acquired op xs
unfolding object_pool_acquire
acquire-Acquired op [] f = ground arith
acquire-Acquired op (x ∷ xs) f = ground arith

-- A returned object that was not free comes to the front of the free list.
pub return-Free :
    (op : ObjectPool) (ob : Ptr) (xs : List Ptr)
    → Free op xs
    → ob ≢ null
    → NotIn ob xs
    → Free (object_pool_return op ob) (ob ∷ xs)
unfolding object_pool_return
return-Free op ob [] f ne new = ground arith
return-Free op ob (x ∷ xs) f ne new = ground (
  arith,
  IsChain-set_next op.next ob op.available_objects op.available_objects (x ∷ xs) new f.chain,
)

-- `num` objects, `size` apart.
abbrev pub strided : ℕ → ℕ → Ptr → List Ptr
strided zero size mem = []
strided (suc num) size mem = mem ∷ strided num size (mem + size)

NotIn-strided : (num size : ℕ) (a mem : Ptr) → a < mem → NotIn a (strided num size mem)
NotIn-strided zero size a mem h = tt
NotIn-strided (suc num) size a mem h =
    ((λ e. omega arith), NotIn-strided num size a (mem + size) (omega arith))

Distinct-strided : (num size : ℕ) (mem : Ptr) → 0 < size → Distinct (strided num size mem)
Distinct-strided zero size mem h = tt
Distinct-strided (suc num) size mem h = (
  NotIn-strided num size mem (mem + size) (omega arith),
  Distinct-strided num size (mem + size) h,
)

NotIn-nil : (xs : List Ptr) → All (λ a. NotIn a []) xs
NotIn-nil [] = tt
NotIn-nil (x ∷ xs) = (tt, NotIn-nil xs)

NotIn-append : (a : Ptr) (xs ys : List Ptr) → NotIn a xs → NotIn a ys → NotIn a (xs ++ ys)
NotIn-append a [] ys h k = k
NotIn-append a (x ∷ xs) ys h k = (h.0, NotIn-append a xs ys h.1 k)

Distinct-append :
    (xs ys : List Ptr) → Distinct xs → All (λ a. NotIn a ys) xs → Distinct ys → Distinct (xs ++ ys)
Distinct-append [] ys d apart e = e
Distinct-append (x ∷ xs) ys d apart e =
    (NotIn-append x xs ys d.0 apart.0, Distinct-append xs ys d.1 apart.1 e)

-- The loop writes only to the objects from `mem` on.
carve-below :
    (rounds size : ℕ) (mem a : Ptr) (next : Ptr → Ptr)
    → a < mem
    → (mem ≤ (carve rounds size mem next).0) × ((carve rounds size mem next).1 a ≡ next a)
unfolding carve
carve-below zero size mem a next h = (omega arith, refl)
carve-below (suc rounds) size mem a next h =
    ground
      (arith, carve-below rounds size (mem + size) a (set_next next mem (mem + size)) (omega arith))

if_refl : (a u v : ℕ) → (if a == a then u else v) ≡ u
if_refl a u v = ground arith

-- The loop and the write behind it put the objects in front of a chain that lies elsewhere.
carve-IsChain :
    (rounds size : ℕ) (mem v : Ptr) (next : Ptr → Ptr) (xs : List Ptr)
    → 0 < size
    → mem ≢ null
    → All (λ a. NotIn a xs) (strided (suc rounds) size mem)
    → IsChain next v xs
    → IsChain
        (set_next (carve rounds size mem next).1 (carve rounds size mem next).0 v)
        mem
        (strided (suc rounds) size mem ++ xs)
unfolding carve
carve-IsChain zero size mem v next xs hs hm apart c =
    rw (if_refl mem v (next mem)) (refl, hm, IsChain-set_next next mem v v xs apart.0 c)
carve-IsChain (suc rounds) size mem v next xs hs hm apart c =
    let next' = set_next next mem (mem + size) in
    let below = carve-below rounds size (mem + size) mem next' (omega arith) in
    let rest =
      carve-IsChain rounds size (mem + size) v next' xs hs (λ e. omega arith) apart.1
        (IsChain-set_next next mem (mem + size) v xs apart.0 c) in
    let links =
      set_next (carve rounds size (mem + size) next').1 (carve rounds size (mem + size) next').0
        v in
    let link : links mem ≡ mem + size = ground (arith, below.0, below.1) in
    (
      refl,
      hm,
      subst (λ p. IsChain links p (strided (suc rounds) size (mem + size) ++ xs)) (sym link) rest,
    )

-- The same with the number of objects, as the loop's bound stands in the code.
carve-IsChain_num :
    (num size : ℕ) (mem v : Ptr) (next : Ptr → Ptr) (xs : List Ptr)
    → 0 < num
    → 0 < size
    → mem ≢ null
    → All (λ a. NotIn a xs) (strided num size mem)
    → IsChain next v xs
    → IsChain
        (set_next (carve (num - 1) size mem next).1 (carve (num - 1) size mem next).0 v)
        mem
        (strided num size mem ++ xs)
carve-IsChain_num zero size mem v next xs hn hs hm apart c = absurd (omega arith)
carve-IsChain_num (suc rounds) size mem v next xs hn hs hm apart c =
    let counted : rounds ≡ suc rounds - 1 = omega arith in
    subst
      (λ k.
        IsChain (set_next (carve k size mem next).1 (carve k size mem next).0 v) mem
          (strided (suc rounds) size mem ++ xs))
      counted (carve-IsChain rounds size mem v next xs hs hm apart c)

-- A pool with at least one object starts with all its objects free, `size` apart.
pub create-Free :
    (block : Ptr) (size num : ℕ) (op : ObjectPool)
    → 0 < size
    → 0 < num
    → Free (object_pool_create block size num op) (strided num size (block + sizeof_memory))
unfolding object_pool_create
create-Free block size num op hs hn =
    let mem : Ptr = block + sizeof_memory in
    let chain =
      carve-IsChain_num num size mem null op.next [] hn hs (λ e. omega arith)
        (NotIn-nil (strided num size mem)) refl in
    record {
      chain =
          subst (IsChain (object_pool_create block size num op).next mem)
            (append-nil (strided num size mem)) chain;
      distinct = Distinct-strided num size mem hs;
    }

-- The free list grows at its front by `num` objects that are one pointer apart, whatever the size
-- of the pool's objects is.
pub expand-Free :
    (block : Ptr) (num : ℕ) (op : ObjectPool) (xs : List Ptr)
    → 0 < num
    → All (λ a. NotIn a xs) (strided num sizeof_object (block + sizeof_memory))
    → Free op xs
    → Free
        (object_pool_expand block num op)
        (strided num sizeof_object (block + sizeof_memory) ++ xs)
unfolding object_pool_expand
expand-Free block num op xs hn apart f =
    let mem : Ptr = block + sizeof_memory in
    record {
      chain =
          carve-IsChain_num num sizeof_object mem op.available_objects op.next xs hn (omega arith)
            (λ e. omega arith) apart f.chain;
      distinct =
          Distinct-append (strided num sizeof_object mem) xs
            (Distinct-strided num sizeof_object mem (omega arith)) apart f.distinct;
    }
