-- ===== src/LinkedList.antt =====
-- list.c, list.h, stack.c and stack.h: the circular doubly linked list that its users' structs begin
-- with, on an explicit store of the two links of every node.
pub mod Links
pub mod Ring
pub mod Traverse
use oserver.Prelude.{ℕ, zero, suc, Bool, true, false, Option, none, some, ◌==◌, if◌then◌else◌}

-- A `list_node_t *`.
abbrev pub Ptr : Type 0
Ptr = ℕ

-- The fields `next` and `prev` of each address.
pub record Store : Type 0 where
  pub next : Ptr → Ptr
  pub prev : Ptr → Ptr

abbrev pub update : (Ptr → Ptr) → Ptr → Ptr → Ptr → Ptr
update f p v x = if x == p then v else f x

abbrev pub set_next : Store → Ptr → Ptr → Store
set_next s p v = record s { next = update s.next p v }

abbrev pub set_prev : Store → Ptr → Ptr → Store
set_prev s p v = record s { prev = update s.prev p v }

-- A `list_t *` is the address of its `head`.
unfoldable pub list_init : Store → Ptr → Store
list_init s head = set_prev (set_next s head head) head head

unfoldable pub list_append : Store → Ptr → Ptr → Store
list_append s head node =
    let s₁ = set_next s node head in
    let s₂ = set_prev s₁ node (s₁.prev head) in
    let s₃ = set_next s₂ (s₂.prev head) node in set_prev s₃ head node

unfoldable pub list_remove : Store → Ptr → Store
list_remove s node =
    let s₁ = set_next s (s.prev node) (s.next node) in set_prev s₁ (s₁.next node) (s₁.prev node)

unfoldable pub list_empty : Store → Ptr → Bool
list_empty s head = s.next head == head

unfoldable pub list_remove_first : Store → Ptr → Option Ptr × Store
unfolding list_empty
list_remove_first s head =
    if list_empty s head
    then (none, s)
    else let node = s.next head in
      let s₁ = set_next s (s.prev node) (s.next node) in
      (some node, set_prev s₁ (s₁.next node) (s₁.prev node))

-- The visitor answers whether to go on; it may change the links and a state of its own. `none`: the
-- fuel ran out, as it does on links that never lead back to the head.
module _ {S : Type 0} (head : Ptr) (visit : Ptr → Store → S → Bool × Store × S) where
  unfoldable pub traverse_from : ℕ → Ptr → Store → S → Option (Store × S)
  traverse_from zero node s a = none
  traverse_from (suc fuel) node s a =
      let tmp = s.next node in
      let (more, s', a') = visit node s a in
      let rest = traverse_from fuel tmp s' a' in
      if node == head then some (s, a) else if more then rest else some (s', a')

  unfoldable pub list_traverse : ℕ → Store → S → Option (Store × S)
  unfolding traverse_from
  list_traverse fuel s a = traverse_from fuel (s.next head) s a

unfoldable pub stack_pop : Store → Ptr → Option Ptr × Store
unfolding list_empty
stack_pop s head =
    if list_empty s head
    then (none, s)
    else let node = s.prev head in
      let s₁ = set_next s (s.prev node) head in (some node, set_prev s₁ head (s₁.prev node))

unfoldable pub stack_top : Store → Ptr → Option Ptr
unfolding list_empty
stack_top s head = if list_empty s head then none else some (s.prev head)
