-- ===== src/HttpUrl/Path/Safe.antt =====
-- What http_url_parse_path of http_url.c leaves on the stack.
use oserver.Prelude.{
  ℕ, zero, suc, ◌+◌, ◌-◌, ◌≤◌, ◌<◌, ◌≡◌, refl, subst, ◌≢◌, ◌⊎◌, inl, inr, true, false, ◌&&◌, ◌||◌,
  Option, none, some, List, [], ◌∷◌, All, ltb, ◌==◌, arith, Bool-cases, Option-cases, ==_iff,
}
use oserver.Bytes.{Buffer, codes}
use oserver.HttpUrl.{is_path}
use oserver.HttpUrl.Path.{
  Segment, strncmp_eq, end_segment, path_end, parse_segments, http_url_parse_path,
}

-- The segment is `.`, `..`, `./` or `../`.
abbrev pub IsDots : Buffer → ℕ → ℕ → Type 0
IsDots buf seg len =
    (buf seg ≡ b'.')
    × ((len ≡ 1)
        ⊎ (len ≡ 2) × ((buf (seg + 1) ≡ b'.') ⊎ (buf (seg + 1) ≡ b'/'))
        ⊎ (len ≡ 3) × (buf (seg + 1) ≡ b'.') × (buf (seg + 1 + 1) ≡ b'/'))

-- The bytes from `seg` up to `i` are bytes of a path; none of them is a `/`.
abbrev pub IsPathBytes : Buffer → ℕ → ℕ → Type 0
IsPathBytes buf seg i = (k : ℕ) → seg ≤ k → k < i → is_path (buf k) ≡ true

abbrev pub IsWithin : Buffer → ℕ → ℕ → Type 0
IsWithin buf seg i = (k : ℕ) → seg ≤ k → k < i → buf k ≢ b'/'

-- With one byte more.
IsPathBytes-more :
    (buf : Buffer) (seg i : ℕ)
    → IsPathBytes buf seg i
    → is_path (buf i) ≡ true
    → IsPathBytes buf seg (i + 1)
IsPathBytes-more buf seg i w e k l u = elim (Bool-cases (k == i)) [
  | inl same ↦ rw ((==_iff k i).0 same) e
  | inr other ↦ w k l (ground (arith, other, u))
]

IsWithin-more :
    (buf : Buffer) (seg i : ℕ) → IsWithin buf seg i → buf i ≢ b'/' → IsWithin buf seg (i + 1)
IsWithin-more buf seg i w ne k l u = elim (Bool-cases (k == i)) [
  | inl same ↦ rw ((==_iff k i).0 same) ne
  | inr other ↦ w k l (ground (arith, other, u))
]

slash-is_path : is_path b'/' ≡ true
unfolding is_path
slash-is_path = refl

-- A segment that stands for a name: not empty, within the path, of bytes a path may have, with no
-- `/` but its last byte, and none of `.`, `..`, `./` and `../`.
pub record IsName (buf : Buffer) (size : ℕ) (s : Segment) : Type 0 where
  pub filled : 0 < s.data_len
  pub inside : s.start + s.data_len ≤ size
  pub path_bytes : IsPathBytes buf s.start (s.start + s.data_len)
  pub within : IsWithin buf s.start (s.start + s.data_len - 1)
  pub no_dots : IsDots buf s.start s.data_len → ⊥

-- What is compared equal to neither of the two literals is no such segment.
compared :
    (buf : Buffer) (seg len : ℕ)
    → (ltb 0 len && strncmp_eq buf seg (codes "../") len) ≡ false
    → strncmp_eq buf seg (codes "./") len ≡ false
    → (0 < len) × (IsDots buf seg len → ⊥)
unfolding strncmp_eq
compared buf seg zero e e' = absurd (cc)
compared buf seg (suc zero) e e' = (omega arith, λ d. ground arith)
compared buf seg (suc (suc zero)) e e' = (omega arith, λ d. ground arith)
compared buf seg (suc (suc (suc zero))) e e' = (omega arith, λ d. ground arith)
compared buf seg (suc (suc (suc (suc n)))) e e' = (omega arith, λ d. ground arith)

-- The segments on the stack.
abbrev pub AllNames : Buffer → ℕ → List Segment → Type 0
AllNames buf size = All (IsName buf size)

-- The stack after the end of a segment.
abbrev pub Ended : Buffer → ℕ → Option (List Segment) → Type 0
Ended buf size none = Unit
Ended buf size (some stack) = AllNames buf size stack

end_segment-Ended :
    (buf : Buffer) (size seg len : ℕ) (stack : List Segment)
    → AllNames buf size stack
    → seg + len ≤ size
    → IsPathBytes buf seg (seg + len)
    → IsWithin buf seg (seg + len - 1)
    → Ended buf size (end_segment buf seg len stack)
unfolding end_segment
end_segment-Ended buf size seg len stack a h p w =
    elim (Bool-cases (ltb 0 len && strncmp_eq buf seg (codes "../") len)) [
      | inl up ↦ rw (up) (popped stack a)
      | inr other ↦ elim (Bool-cases (strncmp_eq buf seg (codes "./") len)) [
        | inl here ↦ rw (other, here) a
        | inr name ↦
            let (filled, no_dots) = compared buf seg len other name in
            rw (other, name)
              (
                record {
                  filled = filled;
                  inside = h;
                  path_bytes = p;
                  within = w;
                  no_dots = no_dots;
                },
                a,
              )
      ]
    ]
  where
    popped :
        (stack : List Segment)
        → AllNames buf size stack
        → Ended buf size (elim stack [ [] ↦ none | s ∷ stack' ↦ some stack' ])
    popped [] a = tt
    popped (s ∷ stack) a = a.1

path_end-All :
    (buf : Buffer) (size i : ℕ) (o : Option (List Segment))
    → Ended buf size o
    → i ≤ size
    → AllNames buf size (path_end o i).2 × ((path_end o i).1 ≤ size)
path_end-All buf size i none e h = (tt, omega arith)
path_end-All buf size i (some stack) e h = (e, h)

parse_segments-All :
    (buf : Buffer) (size n i seg : ℕ) (stack : List Segment)
    → AllNames buf size stack
    → i + n ≡ size
    → seg ≤ i
    → IsPathBytes buf seg i
    → IsWithin buf seg i
    → AllNames buf size (parse_segments buf n i seg stack).2
      × ((parse_segments buf n i seg stack).1 ≤ size)
unfolding parse_segments
parse_segments-All buf size zero i seg stack a h le p w =
    path_end-All buf size i (end_segment buf seg (i - seg) stack)
      (end_segment-Ended buf size seg (i - seg) stack a (omega arith) (λ k l u. p k l (omega arith))
        (λ k l u. w k l (omega arith)))
      (omega arith)
parse_segments-All buf size (suc n) i seg stack a h le p w =
    let end_here =
      end_segment-Ended buf size seg (i - seg) stack a (omega arith) (λ k l u. p k l (omega arith))
        (λ k l u. w k l (omega arith)) in
    elim (Bool-cases (buf i == b'/')) [
      | inl slash ↦
          let slash_path : is_path (buf i) ≡ true =
            rw ((==_iff (buf i) b'/').0 slash) slash-is_path in
          let end_after =
            end_segment-Ended buf size seg (i - seg + 1) stack a (omega arith)
              (λ k l u. IsPathBytes-more buf seg i p slash_path k l (omega arith))
              (λ k l u. w k l (omega arith)) in
          elim (Option-cases (end_segment buf seg (i - seg + 1) stack)) [
            | inl e ↦ rw (slash, e) (tt, omega arith)
            | inr (stack', e) ↦
                rw (slash, e)
                  (parse_segments-All buf size n (i + 1) (seg + (i - seg + 1)) stack'
                    (subst (Ended buf size) e end_after) (omega arith) (omega arith)
                    (λ k l u. absurd (omega arith)) (λ k l u. absurd (omega arith)))
          ]
      | inr other ↦ elim (Bool-cases ((buf i == b'?') || (buf i == b'#'))) [
        | inl ends ↦
            rw (other, ends)
              (path_end-All buf size i (end_segment buf seg (i - seg) stack) end_here (omega arith))
        | inr in_path ↦ elim (Bool-cases (is_path (buf i))) [
          | inr refused ↦ rw (other, in_path, refused) (a, omega arith)
          | inl path ↦
              rw (other, in_path, path)
                (parse_segments-All buf size n (i + 1) seg stack a (omega arith) (omega arith)
                  (IsPathBytes-more buf seg i p path)
                  (IsWithin-more buf seg i w (λ e. ground (arith, other, e))))
        ]
      ]
    ]

-- Whatever the bytes of a path are, every segment that is left stands for a name: none of them leads
-- to where the path does not go by names.
pub parse_path-All :
    (buf : Buffer) (size : ℕ)
    → AllNames buf size (http_url_parse_path buf size []).2
      × ((http_url_parse_path buf size []).1 ≤ size)
unfolding http_url_parse_path
parse_path-All buf zero = (tt, omega arith)
parse_path-All buf (suc n) =
    parse_segments-All buf (suc n) (suc n) 0 0 [] tt (omega arith) (omega arith)
      (λ k l u. absurd (omega arith)) (λ k l u. absurd (omega arith))
