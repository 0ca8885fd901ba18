-- ===== src/HttpMethod/Parse.antt =====
-- What `http_method_parse` of http_method.c accepts, awaits and refuses
use oserver.Prelude.{
  ℕ, zero, suc, ◌+◌, ◌-◌, ◌≤◌, ◌<◌, ◌≡◌, refl, ap, Bool, true, false, List, [], ◌∷◌, ◌++◌, length,
  some, arith, pos, ◌⊎◌, inl, inr,
}
use oserver.Bytes.{Buffer, codes, success, failure, match_loop, At}
use oserver.Bytes.Match.{match_loop_full, match_loop_short, match_loop_found}
use oserver.HttpMethod.{
  Method, http_get, http_put, http_delete, http_patch, http_post, http_head, http_options,
  http_method_str, rest_of, http_method_parse, method_switch, method_tail, after_loop,
}

-- The methods that the `switch` leads to.
abbrev pub IsServed : Method → Type 0
IsServed http_get = Unit
IsServed http_put = Unit
IsServed http_post = Unit
IsServed http_head = Unit
IsServed http_options = Unit
IsServed _ = ⊥

-- A buffer that begins with one of the five names and its blank is parsed as that method.
pub method_parse-served :
    (buf : Buffer) (n : ℕ) (m x : Method)
    → IsServed x
    → At buf 0 (http_method_str x)
    → length (http_method_str x) ≤ n
    → http_method_parse (some buf) (pos n) m ≡ (success, length (http_method_str x), x)
unfolding http_method_parse http_method_str
method_parse-served buf zero m http_get s a h = absurd (omega arith)
method_parse-served buf (suc n) m http_get s a h =
    ground (arith, match_loop_full buf 1 n (codes "ET "))
method_parse-served buf zero m http_put s a h = absurd (omega arith)
method_parse-served buf (suc n) m http_put s a h =
    ground (arith, match_loop_full buf 2 (suc n - 2) (codes "T "))
method_parse-served buf zero m http_post s a h = absurd (omega arith)
method_parse-served buf (suc n) m http_post s a h =
    ground (arith, match_loop_full buf 2 (suc n - 2) (codes "ST "))
method_parse-served buf zero m http_head s a h = absurd (omega arith)
method_parse-served buf (suc n) m http_head s a h =
    ground (arith, match_loop_full buf 1 n (codes "EAD "))
method_parse-served buf zero m http_options s a h = absurd (omega arith)
method_parse-served buf (suc n) m http_options s a h =
    ground (arith, match_loop_full buf 1 n (codes "PTIONS "))
method_parse-served buf n m _ s a h = elim s [ ]

after_loop_found :
    (r : ℕ × List ℕ × Bool) (n : ℕ) (m x y : Method) (l : ℕ)
    → after_loop r n m x ≡ (success, l, y)
    → 0 < l
    → (r ≡ (l, [], true)) × (y ≡ x)
after_loop_found (t, [], true) n m x y l e h = ground arith
after_loop_found (t, c ∷ p, true) n m x y l e h = ground arith
after_loop_found (t, p, false) n m x y l e h = ground arith

-- What a call with the two pointers moved on by `k` has found when it reports a length.
abbrev Found : Buffer → ℕ → Method → Method → ℕ → ℕ → Type 0
Found buf n x y k l =
    (y ≡ x)
    × At buf k (rest_of k (http_method_str x))
    × (length (rest_of k (http_method_str x)) ≤ n - k)
    × (l ≡ k + length (rest_of k (http_method_str x)))

method_tail-Found :
    (buf : Buffer) (n : ℕ) (m x y : Method) (k l : ℕ)
    → method_tail buf n m x k ≡ (success, l, y)
    → 0 < l
    → Found buf n x y k l
unfolding method_tail
method_tail-Found buf n m x y k l e h =
    let p = rest_of k (http_method_str x) in
    let (f, g) = after_loop_found (match_loop buf k (n - k) p) n m x y l e h in
    let (at, fits, len) = match_loop_found buf k (n - k) p l f in (g, at, fits, len)

abbrev Sound : Buffer → ℕ → Method → ℕ → Type 0
Sound buf n y l =
    IsServed y × At buf 0 (http_method_str y) × (l ≡ length (http_method_str y)) × (l ≤ n)

module _ (buf : Buffer) (n : ℕ) (m y : Method) (l : ℕ) (pos : 0 < l) where
  from_one :
      (x : Method) (c : ℕ)
      → IsServed x
      → 0 < length (rest_of 1 (http_method_str x))
      → http_method_str x ≡ c ∷ rest_of 1 (http_method_str x)
      → buf 0 ≡ c
      → method_tail buf n m x 1 ≡ (success, l, y)
      → Sound buf n y l
  from_one x c s some_rest e b r =
      let (same, at, fits, len) = method_tail-Found buf n m x y 1 l r pos in
      let size = ap length e in rw same (s, rw e (b, at), omega arith, omega arith)

  from_two :
      (x : Method) (c d : ℕ)
      → IsServed x
      → 0 < length (rest_of 2 (http_method_str x))
      → http_method_str x ≡ c ∷ d ∷ rest_of 2 (http_method_str x)
      → buf 0 ≡ c
      → buf 1 ≡ d
      → method_tail buf n m x 2 ≡ (success, l, y)
      → Sound buf n y l
  from_two x c d s some_rest e b b' r =
      let (same, at, fits, len) = method_tail-Found buf n m x y 2 l r pos in
      let size = ap length e in rw same (s, rw e (b, (b', at)), omega arith, omega arith)

  switch-Sound : method_switch buf n m ≡ (success, l, y) → Sound buf n y l
  unfolding method_switch
  switch-Sound r = ground (
    arith,
    from_one http_get b'G' tt (unfold http_method_str in omega arith)
        (unfold http_method_str in refl),
    from_two http_put b'P' b'U' tt (unfold http_method_str in omega arith)
        (unfold http_method_str in refl),
    from_two http_post b'P' b'O' tt (unfold http_method_str in omega arith)
        (unfold http_method_str in refl),
    from_one http_head b'H' tt (unfold http_method_str in omega arith)
        (unfold http_method_str in refl),
    from_one http_options b'O' tt (unfold http_method_str in omega arith)
        (unfold http_method_str in refl),
  )

-- When the parser reports a length, it is that of the name of the method that it reports, one of
-- the five, and the buffer begins with that name and its blank within its size.
pub method_parse_sound :
    (buf : Buffer) (n : ℕ) (m y : Method) (l : ℕ)
    → http_method_parse (some buf) (pos n) m ≡ (success, l, y)
    → 0 < l
    → IsServed y × At buf 0 (http_method_str y) × (l ≡ length (http_method_str y)) × (l ≤ n)
unfolding http_method_parse
method_parse_sound buf zero m y l e h = ground arith
method_parse_sound buf (suc n) m y l e h = switch-Sound buf (suc n) m y l h e

-- A buffer that ends inside one of the five names, or before its blank, is not refused: the parser
-- waits for more. Of the two names in `P` at least two bytes are there.
pub method_parse-waits :
    (buf : Buffer) (n : ℕ) (m x : Method) (p : List ℕ) (c : ℕ) (q : List ℕ)
    → IsServed x
    → http_method_str x ≡ p ++ c ∷ q
    → At buf 0 p
    → length p ≡ n
    → 0 < n
    → (buf 0 ≡ b'P' → 1 < n)
    → http_method_parse (some buf) (pos n) m ≡ (success, 0, m)
unfolding http_method_parse http_method_str
method_parse-waits buf n m x [] c q s e a l h two = absurd (omega arith)
method_parse-waits buf zero m x (d ∷ p) c q s e a l h two = absurd (omega arith)
method_parse-waits buf (suc n) m http_get (d ∷ p) c q s e a l h two =
    ground (arith, match_loop_short buf 1 n p c q)
method_parse-waits buf (suc n) m http_head (d ∷ p) c q s e a l h two =
    ground (arith, match_loop_short buf 1 n p c q)
method_parse-waits buf (suc n) m http_options (d ∷ p) c q s e a l h two =
    ground (arith, match_loop_short buf 1 n p c q)
method_parse-waits buf (suc n) m http_put (d ∷ []) c q s e a l h two = ground arith
method_parse-waits buf (suc n) m http_put (d ∷ b ∷ p) c q s e a l h two =
    ground (arith, match_loop_short buf 2 (suc n - 2) p c q)
method_parse-waits buf (suc n) m http_post (d ∷ []) c q s e a l h two = ground arith
method_parse-waits buf (suc n) m http_post (d ∷ b ∷ p) c q s e a l h two =
    ground (arith, match_loop_short buf 2 (suc n - 2) p c q)
method_parse-waits buf (suc n) m _ (d ∷ p) c q s e a l h two = elim s [ ]

-- A request of which only the byte `P` has arrived is refused, whatever stands behind it in the
-- buffer; so is every request with one of the other two methods of the table.
pub method_parse-refused :
    (buf : Buffer) (n : ℕ) (m : Method)
    → (n ≡ 1) × (buf 0 ≡ b'P')
      ⊎ (At buf 0 (http_method_str http_delete) ⊎ At buf 0 (http_method_str http_patch))
    → http_method_parse (some buf) (pos n) m ≡ (failure, 0, m)
unfolding http_method_parse http_method_str match_loop
method_parse-refused buf zero m h = ground arith
method_parse-refused buf (suc n) m (inl h) = ground arith
method_parse-refused buf (suc n) m (inr (inl h)) = ground arith
method_parse-refused buf (suc n) m (inr (inr h)) = ground arith
