-- ===== src/HttpUrl/Path.antt =====
-- `http_url_parse_path` of http_url.c: the segments of a path, with `.` and `..` taken out. The stack
-- of segments is the sequence of its nodes, the top first, which is what stack.c keeps.
pub mod Safe
use oserver.Prelude.{
  ℕ, zero, suc, ◌+◌, ◌-◌, Bool, true, false, not, ◌&&◌, ◌||◌, Option, none, some, List, [], ◌∷◌,
  ltb, ◌==◌, if◌then◌else◌,
}
use oserver.Bytes.{Buffer, Status, success, failure, codes}
use oserver.HttpUrl.{is_path}

-- `http_url_path_seg_t`; `data` is an offset into the path.
pub record Segment : Type 0 where
  pub start : ℕ
  pub data_len : ℕ

-- `strncmp(buf + t, p, n) == 0` of string.h, where `p` is a literal.
unfoldable pub strncmp_eq : Buffer → ℕ → List ℕ → ℕ → Bool
strncmp_eq buf t p zero = true
strncmp_eq buf t [] (suc n) = buf t == 0
strncmp_eq buf t (c ∷ p) (suc n) = (buf t == c) && strncmp_eq buf (t + 1) p n

-- The returned code, `path->data_len`, which is also `*parse_len`, and the stack. With an error
-- the length is the 0 that `*parse_len` was set to.
abbrev pub Answer : Type 0
Answer = Status × ℕ × List Segment

-- The segment from `seg` on, of `seg_len` bytes; `none` is the -1 for a `..` too many.
unfoldable pub end_segment : Buffer → ℕ → ℕ → List Segment → Option (List Segment)
unfolding strncmp_eq
end_segment buf seg seg_len stack =
    if ltb 0 seg_len && strncmp_eq buf seg (codes "../") seg_len
    then elim stack [ [] ↦ none | s ∷ stack' ↦ some stack' ]
    else if not (strncmp_eq buf seg (codes "./") seg_len)
    then some (record { start = seg; data_len = seg_len } ∷ stack)
    else some stack

abbrev pub path_end : Option (List Segment) → ℕ → Answer
path_end none i = (failure, 0, [])
path_end (some stack) i = (success, i, stack)

-- The loop from byte `i` on, with the bytes that are left.
unfoldable pub parse_segments : Buffer → ℕ → ℕ → ℕ → List Segment → Answer
unfolding end_segment
parse_segments buf zero i seg stack = path_end (end_segment buf seg (i - seg) stack) i
parse_segments buf (suc n) i seg stack =
    let rest = λ (seg' : ℕ) (stack' : List Segment). parse_segments buf n (i + 1) seg' stack' in
    if buf i == b'/'
    then elim (end_segment buf seg (i - seg + 1) stack) [
      | none ↦ (failure, 0, [])
      | some stack' ↦ rest (seg + (i - seg + 1)) stack'
    ]
    else if (buf i == b'?') || (buf i == b'#')
    then path_end (end_segment buf seg (i - seg) stack) i
    else if not (is_path (buf i))
    then (failure, 0, stack)
    else rest seg stack

unfoldable pub http_url_parse_path : Buffer → ℕ → List Segment → Answer
unfolding parse_segments
http_url_parse_path buf zero stack = (success, 0, stack)
http_url_parse_path buf (suc n) stack = parse_segments buf (suc n) 0 0 stack
