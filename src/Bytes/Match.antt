-- ===== src/Bytes/Match.antt =====
-- The three ways in which the matching loop of http_method.c and http_version.c ends
use oserver.Prelude.{ℕ, zero, suc, ◌+◌, ◌≤◌, ◌≡◌, true, List, [], ◌∷◌, ◌++◌, length, arith}
use oserver.Bytes.{Buffer, match_loop, At}

-- The whole literal is there.
pub match_loop_full :
    (buf : Buffer) (t n : ℕ) (p : List ℕ)
    → At buf t p
    → length p ≤ n
    → match_loop buf t n p ≡ (t + length p, [], true)
unfolding match_loop
match_loop_full buf t n [] a h = ground arith
match_loop_full buf t zero (c ∷ p) a h = absurd (omega arith)
match_loop_full buf t (suc n) (c ∷ p) a h = ground (arith, match_loop_full buf (t + 1) n p a.1)

-- The buffer ends before the literal does.
pub match_loop_short :
    (buf : Buffer) (t n : ℕ) (p : List ℕ) (c : ℕ) (q : List ℕ)
    → At buf t p
    → length p ≡ n
    → match_loop buf t n (p ++ c ∷ q) ≡ (t + n, c ∷ q, true)
unfolding match_loop
match_loop_short buf t zero [] c q a h = ground arith
match_loop_short buf t (suc n) [] c q a h = absurd (omega arith)
match_loop_short buf t zero (d ∷ p) c q a h = absurd (omega arith)
match_loop_short buf t (suc n) (d ∷ p) c q a h =
    ground (arith, match_loop_short buf (t + 1) n p c q a.1)

-- A run that has used the literal up, with `ok` still set, has found it.
pub match_loop_found :
    (buf : Buffer) (t n : ℕ) (p : List ℕ) (t' : ℕ)
    → match_loop buf t n p ≡ (t', [], true)
    → At buf t p × (length p ≤ n) × (t' ≡ t + length p)
unfolding match_loop
match_loop_found buf t n [] t' e = ground arith
match_loop_found buf t zero (c ∷ p) t' e = absurd (cc)
match_loop_found buf t (suc n) (c ∷ p) t' e = ground (arith, match_loop_found buf (t + 1) n p t')

-- With one byte beyond a part of the literal that is there, the whole buffer is used.
pub match_loop_last :
    (buf : Buffer) (t n : ℕ) (p : List ℕ) (c : ℕ) (q : List ℕ)
    → At buf t p
    → n ≡ length p + 1
    → (match_loop buf t n (p ++ c ∷ q)).0 ≡ t + n
unfolding match_loop
match_loop_last buf t zero p c q a h = absurd (omega arith)
match_loop_last buf t (suc zero) [] c [] a h = ground arith
match_loop_last buf t (suc zero) [] c (d ∷ q) a h = ground arith
match_loop_last buf t (suc (suc n)) [] c q a h = absurd (omega arith)
match_loop_last buf t (suc n) (d ∷ p) c q a h =
    ground (arith, match_loop_last buf (t + 1) n p c q a.1)
