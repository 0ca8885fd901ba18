-- ===== src/Bytes.antt =====
-- C buffers and string literals, and the loop that http_method.c and http_version.c share.
pub mod Match
use Prim.Native.Char.{code}
use Prim.Native.String.{String}
use oserver.Prelude.{ℕ, zero, suc, ◌+◌, ◌≡◌, Bool, true, false, List, [], ◌∷◌, ◌==◌, if◌then◌else◌}

-- The byte at each offset of a buffer, also past the size that is passed along with it.
abbrev pub Buffer : Type 0
Buffer = ℕ → ℕ

-- What is left of a buffer after `p += n`.
abbrev pub advance : Buffer → ℕ → Buffer
advance buf n i = buf (n + i)

-- The bytes of a string literal, without the final 0.
abbrev pub codes : String → List ℕ
codes String.[] = []
codes (String.◌∷◌ c s) = code c ∷ codes s

-- The `int` that a parser returns: 0 or -1.
pub data Status : Type 0 where
  success failure : Status

-- `while((t < end) && *p && ok) ok &= (*t++ == *p++);` with `n` for `end - t`, and 0 where that is
-- negative. The result is `t`, what is left of `p`, and `ok`.
unfoldable pub match_loop : Buffer → ℕ → ℕ → List ℕ → ℕ × List ℕ × Bool
match_loop buf t n [] = (t, [], true)
match_loop buf t zero (c ∷ p) = (t, c ∷ p, true)
match_loop buf t (suc n) (c ∷ p) =
    if buf t == c then match_loop buf (t + 1) n p else (t + 1, p, false)

-- The bytes of `p` stand in the buffer from `t` on.
abbrev pub At : Buffer → ℕ → List ℕ → Type 0
At buf t [] = Unit
At buf t (c ∷ p) = (buf t ≡ c) × At buf (t + 1) p
