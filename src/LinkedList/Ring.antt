-- ===== src/LinkedList/Ring.antt =====
-- The operations of list.c on a list in good order, as operations on the sequence of its nodes
use oserver.Prelude.{
  ◌≡◌, refl, List, [], ◌∷◌, ◌++◌, none, some, Bool, true, false, sym, ap, subst, ◌∙◌, append-nil,
  arith, ◌==◌, ==-false, if_same,
}
use mathlib.Core.Path.{subst₂}
use oserver.LinkedList.{
  Ptr, Store, set_next, set_prev, list_init, list_append, list_remove, list_empty,
  list_remove_first, stack_pop, stack_top,
}
use oserver.LinkedList.Links.{
  NotIn, Distinct, Links, Links-left, Links-right, Distinct-snoc, Distinct-without, Links-without,
  Links-snoc,
}

abbrev pub is_nil : List Ptr → Bool
is_nil [] = true
is_nil (x ∷ xs) = false

-- The list with the head `h` holds the nodes `xs`.
pub record IsRing (s : Store) (h : Ptr) (xs : List Ptr) : Type 0 where
  pub links : Links s h xs h
  pub distinct : Distinct (h ∷ xs)

pub init-IsRing : (s : Store) (h : Ptr) → IsRing (list_init s h) h []
unfolding list_init
init-IsRing s h = ground arith

-- A node that is not in the list becomes its last.
pub append-IsRing :
    (s : Store) (h n : Ptr) (xs : List Ptr)
    → IsRing s h xs
    → NotIn n (h ∷ xs)
    → IsRing (list_append s h n) h (xs ++ n ∷ [])
unfolding list_append
append-IsRing s h n xs r new = record {
  links =
      rw (==-false h n (λ e. new.0 (sym e)), list_append)
        (Links-snoc s (s.prev h) h n h xs refl r.distinct r.distinct.0 new new.0 r.links);
  distinct = Distinct-snoc n (h ∷ xs) r.distinct new;
}

unlinked :
    (s : Store) (h n : Ptr) (xs ys : List Ptr)
    → IsRing s h (xs ++ n ∷ ys)
    → IsRing (set_prev (set_next s (s.prev n) (s.next n)) (s.next n) (s.prev n)) h (xs ++ ys)
unlinked s h n xs ys r =
    let d : Distinct (h ∷ xs ++ ys) = Distinct-without n (h ∷ xs) ys r.distinct in
    record {
      links =
          Links-without s (s.prev n) (s.next n) h n h xs ys refl refl d d.0
            (Links-left s h n h xs ys r.links) (Links-right s h n h xs ys r.links);
      distinct = d;
    }

-- A node of the list is taken out, wherever it stands.
pub remove-IsRing :
    (s : Store) (h n : Ptr) (xs ys : List Ptr)
    → IsRing s h (xs ++ n ∷ ys)
    → IsRing (list_remove s n) h (xs ++ ys)
unfolding list_remove
remove-IsRing s h n xs ys r =
    rw (if_same (n == s.prev n) (s.next n), list_remove) (unlinked s h n xs ys r)

-- `list_empty` tells the empty list.
pub empty-IsRing :
    (s : Store) (h : Ptr) (xs : List Ptr) → IsRing s h xs → list_empty s h ≡ is_nil xs
unfolding list_empty
empty-IsRing s h [] r = ground arith
empty-IsRing s h (x ∷ xs) r = ground arith

-- `list_remove_first` answers `NULL` on the empty list, and otherwise takes the first node.
abbrev pub FirstRemoved : Store → Ptr → List Ptr → Type 0
FirstRemoved s h [] = list_remove_first s h ≡ (none, s)
FirstRemoved s h (x ∷ xs) =
    ((list_remove_first s h).0 ≡ some x) × IsRing (list_remove_first s h).1 h xs

pub remove_first-IsRing :
    (s : Store) (h : Ptr) (xs : List Ptr) → IsRing s h xs → FirstRemoved s h xs
unfolding list_remove_first list_remove
remove_first-IsRing s h [] r = rw (empty-IsRing s h [] r)
remove_first-IsRing s h (x ∷ xs) r = rw (empty-IsRing s h (x ∷ xs) r) (
  ap some r.links.0,
  subst (λ y. IsRing (list_remove s y) h xs) (sym r.links.0) (remove-IsRing s h x [] xs r),
)

-- `stack_top` and `stack_pop` see the last node; on the empty stack they answer `NULL`.
last_link : (s : Store) (a b x : Ptr) (xs : List Ptr) → Links s a (xs ++ x ∷ []) b → s.prev b ≡ x
last_link s a b x [] l = l.2.1
last_link s a b x (y ∷ xs) l = last_link s y b x xs l.2

last-next : (s : Store) (a b x : Ptr) (xs : List Ptr) → Links s a (xs ++ x ∷ []) b → s.next x ≡ b
last-next s a b x [] l = l.2.0
last-next s a b x (y ∷ xs) l = last-next s y b x xs l.2

is_nil-snoc : (xs : List Ptr) (x : Ptr) → is_nil (xs ++ x ∷ []) ≡ false
is_nil-snoc [] x = refl
is_nil-snoc (y ∷ xs) x = refl

pub pop-nil : (s : Store) (h : Ptr) → IsRing s h [] → stack_pop s h ≡ (none, s)
unfolding stack_pop
pop-nil s h r = rw (empty-IsRing s h [] r)

pub pop-IsRing :
    (s : Store) (h x : Ptr) (xs : List Ptr)
    → IsRing s h (xs ++ x ∷ [])
    → ((stack_pop s h).0 ≡ some x) × IsRing (stack_pop s h).1 h xs
unfolding stack_pop
pop-IsRing s h x xs r =
    let nonempty : list_empty s h ≡ false = empty-IsRing s h _ r ∙ is_nil-snoc xs x in
    let top : s.prev h ≡ x = last_link s h h x xs r.links in
    let back : s.next x ≡ h = last-next s h h x xs r.links in
    rw (nonempty, stack_pop)
      (
        ap some top,
        subst₂ (λ y z. IsRing (set_prev (set_next s (s.prev y) z) z (s.prev y)) h xs) (sym top) back
            (rw (append-nil xs) at (unlinked s h x xs [] r)),
      )

pub top-IsRing :
    (s : Store) (h x : Ptr) (xs : List Ptr) → IsRing s h (xs ++ x ∷ []) → stack_top s h ≡ some x
unfolding stack_top
top-IsRing s h x xs r =
    rw (empty-IsRing s h _ r ∙ is_nil-snoc xs x) (ap some (last_link s h h x xs r.links))
