-- ===== src/HttpMethod.antt =====
-- http_method.c and http_method.h: the parser of a request's method.
pub mod Parse
use oserver.Prelude.{
  ℕ, zero, suc, ◌+◌, ◌-◌, Bool, true, false, List, [], ◌∷◌, Option, none, some, ◌==◌, if◌then◌else◌,
  ℤ, pos, negsuc,
}
use oserver.Bytes.{Buffer, codes, Status, success, failure, match_loop}

-- `http_method_t`
pub data Method : Type 0 where
  http_get http_put http_delete http_patch http_post http_head http_options http_none : Method

-- `methods`, with `http_method_str`. There is no entry for `e_http_none`.
unfoldable pub http_method_str : Method → List ℕ
http_method_str http_get = codes "GET "
http_method_str http_put = codes "PUT "
http_method_str http_delete = codes "DELETE "
http_method_str http_patch = codes "PATCH "
http_method_str http_post = codes "POST "
http_method_str http_head = codes "HEAD "
http_method_str http_options = codes "OPTIONS "
http_method_str http_none = []

-- `methods[x] + k`
abbrev pub rest_of : ℕ → List ℕ → List ℕ
rest_of zero p = p
rest_of (suc k) [] = []
rest_of (suc k) (c ∷ p) = rest_of k p

-- The returned code, `*parse_len` and `*m`.
abbrev pub Answer : Type 0
Answer = Status × ℕ × Method

-- The two returns behind the loop, from its `t`, `p` and `ok`. `m` is what stands in `*m`.
abbrev pub after_loop : ℕ × List ℕ × Bool → ℕ → Method → Method → Answer
after_loop (t, [], true) size m x = (success, t, x)
after_loop (t, c ∷ p, true) size m x = if t == size then (success, 0, m) else (failure, 0, m)
after_loop (t, p, false) size m x = (failure, 0, m)

-- The code behind the `switch`, where `t` is `data + k` and `p` is `methods[x] + k`.
unfoldable pub method_tail : Buffer → ℕ → Method → Method → ℕ → Answer
method_tail buf size m x k =
    after_loop (match_loop buf k (size - k) (rest_of k (http_method_str x))) size m x

-- The `switch` on `data[0]`. In the second case `data[1]` is read whatever the size is.
unfoldable pub method_switch : Buffer → ℕ → Method → Answer
method_switch buf size m =
    if buf 0 == b'G'
    then method_tail buf size m http_get 1
    else if buf 0 == b'P'
    then (if buf 1 == b'U'
        then method_tail buf size m http_put 2
        else if buf 1 == b'O'
        then method_tail buf size m http_post 2
        else (failure, 0, m))
    else if buf 0 == b'H'
    then method_tail buf size m http_head 1
    else if buf 0 == b'O'
    then method_tail buf size m http_options 1
    else if buf 0 == 0
    then (success, 0, m)
    else (failure, 0, m)

-- A `NULL` buffer is `none`.
unfoldable pub http_method_parse : Option Buffer → ℤ → Method → Answer
unfolding method_switch method_tail
http_method_parse none size m = (failure, 0, m)
http_method_parse (some buf) (pos zero) m = (failure, 0, m)
http_method_parse (some buf) (negsuc n) m = (failure, 0, m)
http_method_parse (some buf) (pos (suc n)) m = method_switch buf (suc n) m
