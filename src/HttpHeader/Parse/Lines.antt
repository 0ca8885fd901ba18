-- ===== src/HttpHeader/Parse/Lines.antt =====
-- What the loop of `http_header_parse` keeps from byte to byte.
use oserver.Prelude.{
  ℕ, zero, suc, ◌+◌, ◌-◌, ◌≤◌, ◌<◌, ◌≡◌, refl, sym, ap, subst, ◌∙◌, ◌⊎◌, inl, inr, true, Option,
  none, some, ◌==◌, Bool-cases, Option-cases, ==_iff, pos, arith,
}
use oserver.Bytes.{Buffer, advance, success}
use oserver.Btree.{◌>>=◌}
use oserver.HttpHeader.Collection.{Headers}
use oserver.HttpHeader.Collection.Insert.{IsCollection, add-IsCollection}
use oserver.HttpHeader.Parse.{
  Line, no_line, Answer, Step, returned, goes_on, minus, add_line, line_end, after_blank,
  after_colon, after_other, header_step, after_step, parse_lines, http_header_parse,
}

-- A value has a name, a first byte and a last one, which have been read.
abbrev pub IsValue : ℕ → Option ℕ → Option ℕ → Option ℕ → Type 0
IsValue j none e ne = Unit
IsValue j (some vs) none ne = ⊥
IsValue j (some vs) (some e) none = ⊥
IsValue j (some vs) (some e) (some ne) = (vs ≤ e) × (e < j)

-- A colon ends the name.
abbrev pub HasName : Option ℕ → Option ℕ → Type 0
HasName none ne = Unit
HasName (some c) none = ⊥
HasName (some c) (some ne) = Unit

-- The pointers before byte `j`.
abbrev pub IsLine : ℕ → Line → Type 0
IsLine j l = IsValue j l.vs l.e l.ne × HasName l.c l.ne

-- The byte before byte `j`.
abbrev pub IsBefore : Buffer → ℕ → ℕ → Type 0
IsBefore buf zero pre = pre ≡ 0
IsBefore buf (suc j) pre = pre ≡ buf j

blank-IsLine : (j : ℕ) (l : Line) → IsLine j l → IsLine (j + 1) (after_blank j l)
unfolding after_blank
blank-IsLine j l h = ground arith

colon-IsLine : (j : ℕ) (l : Line) → IsLine j l → IsLine (j + 1) (after_colon j l)
unfolding after_colon
colon-IsLine j l h = ground arith

other-IsLine : (j : ℕ) (l : Line) → IsLine j l → IsLine (j + 1) (after_other j l)
unfolding after_other
other-IsLine j l h = ground arith

IsBefore-next : (buf : Buffer) (j pre : ℕ) → pre ≡ buf j → IsBefore buf (j + 1) pre
IsBefore-next buf j pre e =
    let next : suc j ≡ j + 1 = omega arith in subst (λ i. IsBefore buf i pre) next e

-- What is used up are lines, each with its end.
abbrev pub IsUsed : Buffer → ℕ → ℕ → Type 0
IsUsed buf j rdlen =
    (rdlen ≤ j) × ((rdlen ≡ 0) ⊎ (2 ≤ rdlen) × (buf (rdlen - 2) ≡ 13) × (buf (rdlen - 1) ≡ 10))

-- The result of the step at byte `j`.
abbrev pub Stepped : Buffer → ℕ → Option Step → Type 0
Stepped buf j none = ⊥
Stepped buf j (some (returned code rdlen is_end headers)) =
    IsCollection headers × IsUsed buf (j + 1) rdlen × (is_end ≡ true → code ≡ success)
Stepped buf j (some (goes_on l rdlen headers)) =
    IsCollection headers × IsUsed buf (j + 1) rdlen × IsLine (j + 1) l × (l.pre ≡ buf j)

IsUsed-on : (buf : Buffer) (j rdlen : ℕ) → IsUsed buf j rdlen → IsUsed buf (j + 1) rdlen
IsUsed-on buf j rdlen u = (omega arith, u.1)

-- Behind a line's end everything so far is used up.
IsUsed-here :
    (buf : Buffer) (j pre : ℕ)
    → IsBefore buf j pre
    → pre ≡ 13
    → buf j ≡ 10
    → IsUsed buf (j + 1) (j + 1)
IsUsed-here buf zero pre b e n = absurd (omega arith)
IsUsed-here buf (suc j) pre b e n =
    (omega arith, inr (omega arith, ap buf (omega arith) ∙ sym b ∙ e, ap buf (omega arith) ∙ n))

add_line-Stepped :
    (buf : Buffer) (j s vs e : ℕ) (ne : Option ℕ) (headers : Headers)
    → IsCollection headers
    → j < 32767
    → IsValue j (some vs) (some e) ne
    → IsUsed buf (j + 1) (j + 1)
    → Stepped buf j (
        add_line buf headers s ne vs (e + 1) >>= λ (code, headers').
        some (goes_on (no_line (buf j)) (j + 1) headers'))
add_line-Stepped buf j s vs e none headers c h v u = absurd v
add_line-Stepped buf j s vs e (some ne) headers c h v u =
    let (code, headers', same, c') =
      add-IsCollection headers (some (advance buf s)) (some (advance buf vs)) (minus ne s)
        (e + 1 - vs) c (omega arith) in
    rw (same) (c', u, (tt, tt), refl)

line_end-Stepped :
    (buf : Buffer) (j : ℕ) (l : Line) (rdlen : ℕ) (headers : Headers)
    → IsCollection headers
    → j < 32767
    → buf j ≡ 10
    → IsBefore buf j l.pre
    → IsLine j l
    → IsUsed buf j rdlen
    → Stepped buf j (line_end buf j l rdlen headers)
unfolding line_end
line_end-Stepped buf j l rdlen headers c h n b v u = elim (Bool-cases (l.pre == 13)) [
  | inr other ↦ rw (other) (c, IsUsed-on buf j rdlen u, λ e. absurd (cc))
  | inl cr ↦
      let here = IsUsed-here buf j l.pre b ((==_iff l.pre 13).0 cr) n in
      elim (Option-cases l.s) [
        | inl no_name ↦ rw (cr, no_name) (c, here, λ e. refl)
        | inr (s, es) ↦ elim (Option-cases l.vs) [
          | inl no_value ↦ rw (cr, es, no_value) (c, IsUsed-on buf j rdlen u, λ e. absurd (cc))
          | inr (vs, evs) ↦ elim (Option-cases l.e) [
            | inl no_last ↦ rw (cr, es, evs, no_last) (c, IsUsed-on buf j rdlen u, λ e. absurd (cc))
            | inr (e, ee) ↦
                let value : IsValue j (some vs) (some e) l.ne = rw (← evs, ← ee) v.0 in
                rw (cr, es, evs, ee) (add_line-Stepped buf j s vs e l.ne headers c h value here)
          ]
        ]
      ]
]

header_step-Stepped :
    (buf : Buffer) (j : ℕ) (l : Line) (rdlen : ℕ) (headers : Headers)
    → IsCollection headers
    → j < 32767
    → IsBefore buf j l.pre
    → IsLine j l
    → IsUsed buf j rdlen
    → Stepped buf j (header_step buf j l rdlen headers)
unfolding header_step
header_step-Stepped buf j l rdlen headers c h b v u = ground (
  arith,
  line_end-Stepped buf j l rdlen headers c h,
  blank-IsLine j l v,
  colon-IsLine j l v,
  other-IsLine j l v,
)

-- What the parser answers.
abbrev pub Parsed : Buffer → ℕ → Answer → Type 0
Parsed buf size none = ⊥
Parsed buf size (some (code, rdlen, is_end, headers)) =
    IsCollection headers × IsUsed buf size rdlen × (is_end ≡ true → code ≡ success)

Parsed-le : (buf : Buffer) (j size : ℕ) (a : Answer) → j ≤ size → Parsed buf j a → Parsed buf size a
Parsed-le buf j size none h p = absurd p
Parsed-le buf j size (some (code, rdlen, is_end, headers)) h p = (p.0, (omega arith, p.1.1), p.2)

parse_lines-Parsed :
    (buf : Buffer) (n j : ℕ) (l : Line) (rdlen : ℕ) (headers : Headers)
    → IsCollection headers
    → j + n ≤ 32767
    → IsBefore buf j l.pre
    → IsLine j l
    → IsUsed buf j rdlen
    → Parsed buf (j + n) (parse_lines buf n j l rdlen headers)
unfolding parse_lines
parse_lines-Parsed buf zero j l rdlen headers c h b v u = (c, (omega arith, u.1), λ e. absurd (cc))
parse_lines-Parsed buf (suc n) j l rdlen headers c h b v u =
    go (header_step buf j l rdlen headers)
      (header_step-Stepped buf j l rdlen headers c (omega arith) b v u)
      (λ l' rdlen' headers' c' b' v' u'.
        parse_lines-Parsed buf n (j + 1) l' rdlen' headers' c' (omega arith) b' v' u')
  where
    go :
        (o : Option Step)
        → Stepped buf j o
        → ((l' : Line) (rdlen' : ℕ) (headers' : Headers)
            → IsCollection headers'
            → IsBefore buf (j + 1) l'.pre
            → IsLine (j + 1) l'
            → IsUsed buf (j + 1) rdlen'
            → Parsed buf (j + 1 + n) (parse_lines buf n (j + 1) l' rdlen' headers'))
        → Parsed buf
            (j + suc n)
            (o >>= after_step (λ l' rdlen' headers'. parse_lines buf n (j + 1) l' rdlen' headers'))
    go none s rest = absurd s
    go (some (returned code rdlen' is_end headers')) s rest = (s.0, (omega arith, s.1.1), s.2)
    go (some (goes_on l' rdlen' headers')) s rest =
        Parsed-le buf (j + 1 + n) (j + suc n) _ (omega arith)
          (rest l' rdlen' headers' s.0 (IsBefore-next buf j l'.pre s.3) s.2 s.1)

-- On a buffer of up to 32767 bytes the parser faults nowhere and leaves a collection of headers. It
-- uses up whole lines within the buffer, and it reports the end of the header only without an error.
pub parse-Parsed :
    (headers : Headers) (buf : Buffer) (size : ℕ)
    → IsCollection headers
    → size ≤ 32767
    → Parsed buf size (http_header_parse headers (some buf) (pos size))
unfolding http_header_parse
parse-Parsed headers buf size c h =
    let counted : 0 + size ≡ size = omega arith in
    subst (λ n. Parsed buf n (parse_lines buf size 0 (no_line 0) 0 headers)) counted
      (parse_lines-Parsed buf size 0 (no_line 0) 0 headers c (omega arith) refl (tt, tt)
        (omega arith, inl refl))
