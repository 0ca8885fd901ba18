-- ===== src/HttpHeader/Sort.antt =====
-- `http_header_fields_bubble_sort` of http_header.c, on the index of the table.
pub mod Order
use Prim.Native.Nat.{bit_xor}
use oserver.Prelude.{ℕ, zero, suc, ◌-◌, List, [], ◌∷◌, ltb, length, if◌then◌else◌}

-- `key i` orders the fields as the signed hash of field `i` does.
module _ (key : ℕ → ℕ) where
  -- The body of the inner loop on `index[j]` and `index[j + 1]`, with the exchange by exclusive or.
  unfoldable pub exchange : ℕ → ℕ → ℕ × ℕ
  exchange a b =
      let x = bit_xor a b in if ltb (key b) (key a) then (bit_xor a x, bit_xor b x) else (a, b)

  -- `for(j = 0; j < i; ++j)`, with what lies before `j` already passed.
  unfoldable pub pass : ℕ → List ℕ → List ℕ
  pass (suc i) (a ∷ b ∷ l) = let (a', b') = exchange a b in a' ∷ pass i (b' ∷ l)
  pass _ l = l

  -- `for(i = n - 1; i > 0; --i)`
  unfoldable pub passes : ℕ → List ℕ → List ℕ
  passes zero l = l
  passes (suc i) l = passes i (pass (suc i) l)

  unfoldable pub http_header_fields_bubble_sort : List ℕ → List ℕ
  unfolding passes pass exchange
  http_header_fields_bubble_sort index = passes (length index - 1) index
