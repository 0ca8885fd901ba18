-- ===== src/Examples/Lists.antt =====
-- Runs of list.c and stack.c, and their theorems at a list of two nodes.
use oserver.Prelude.{ℕ, ◌+◌, ◌%◌, ◌≡◌, Bool, some, [], ◌∷◌, arith, ◌==◌}
use oserver.LinkedList.{Store, list_init, list_append, list_remove, list_traverse}
use oserver.LinkedList.Ring.{IsRing, init-IsRing, append-IsRing, remove-IsRing}
use oserver.LinkedList.Traverse.{pruning, traverse-pruned}

abbrev zeros : Store
zeros = record { next = λ a. 0; prev = λ a. 0 }

abbrev one : Store
one = list_append (list_init zeros 1) 1 2

abbrev two : Store
two = list_append one 1 3

one-IsRing : IsRing one 1 (2 ∷ [])
one-IsRing = append-IsRing (list_init zeros 1) 1 2 [] (init-IsRing zeros 1) (omega arith)

two-IsRing : IsRing two 1 (2 ∷ 3 ∷ [])
two-IsRing = append-IsRing one 1 3 (2 ∷ []) one-IsRing (omega arith)

remove-IsRing_example : IsRing (list_remove two 2) 1 (3 ∷ [])
remove-IsRing_example = remove-IsRing two 1 2 [] (3 ∷ []) two-IsRing

-- A visitor that takes the even nodes out and adds all of them up.
abbrev is_even : ℕ → ℕ → Bool
is_even n a = n % 2 == 0

traverse-pruned_example :
    (s' : Store) × (list_traverse 1 (pruning is_even (λ n a. n + a)) 5 two 0 ≡ some (s', 5))
    × IsRing s' 1 (3 ∷ [])
traverse-pruned_example =
    traverse-pruned is_even (λ n a. n + a) 5 two 1 (2 ∷ 3 ∷ []) 0 two-IsRing (omega arith)
