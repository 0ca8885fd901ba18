-- ===== src/Server/Files/Decimal.antt =====
-- The numerals that server.c prints with `sprintf`.
use oserver.Prelude.{
  ℕ, zero, suc, ◌+◌, ◌-◌, ◌*◌, ◌/◌, ◌%◌, ◌^◌, ◌<◌, ◌≡◌, refl, ap, ◌∙◌, true, List, [], ◌∷◌, ◌++◌,
  ltb, arith, Bool-cases, inl, inr,
}
use oserver.Server.Files.{digits, decimal, int32}

-- The number that decimal digits stand for, behind digits that stand for `n`.
abbrev pub value : ℕ → List ℕ → ℕ
value n [] = n
value n (c ∷ s) = value (n * 10 + (c - b'0')) s

value-append : (s t : List ℕ) (n : ℕ) → value n (s ++ t) ≡ value (value n s) t
value-append [] t n = refl
value-append (c ∷ s) t n = value-append s t (n * 10 + (c - b'0'))

-- The power of ten that bounds the numbers of so many digits.
abbrev tens : ℕ → ℕ
tens zero = 1
tens (suc fuel) = tens fuel * 10

value-digits : (fuel n : ℕ) → n < tens fuel → value 0 (digits fuel n) ≡ n
unfolding digits
value-digits zero n h = omega (arith, h)
value-digits (suc fuel) n h = elim (Bool-cases (ltb n 10)) [
  | inl e ↦ rw (e) (omega arith)
  | inr e ↦ rw (e) (
      value-append (digits fuel (n / 10)) ((b'0' + n % 10) ∷ []) 0
      ∙ ap (λ (m : ℕ). m * 10 + (b'0' + n % 10 - b'0'))
          (value-digits fuel (n / 10) (omega (arith, h)))
      ∙ omega arith)
]

-- The numeral for the size of a file of less than 2 GiB reads back as the size.
pub decimal-value : (size : ℕ) → size < 2 ^ 31 → value 0 (decimal (int32 size)) ≡ size
unfolding decimal int32
decimal-value size h =
    let whole : size % 2 ^ 32 ≡ size = omega (arith, h) in
    let small : ltb size (2 ^ 31) ≡ true = ground (arith, h) in
    rw (whole, small) (value-digits 10 size (omega (arith, h)))
