-- ===== src/HttpHeader/Parse.antt =====
-- `http_header_parse` of http_header.c: the lines of a message's header, as far as they are there.
pub mod Lines
use oserver.Prelude.{
  ℕ, zero, suc, ◌+◌, ◌-◌, Bool, true, false, not, Option, none, some, ◌==◌, leb, if◌then◌else◌, ℤ,
  pos, negsuc,
}
use oserver.Bytes.{Buffer, advance, Status, success, failure}
use oserver.Btree.{◌>>=◌}
use oserver.HttpHeader.Collection.{Headers, http_header_add}

-- The pointers into the buffer as offsets, `none` for `NULL`, and the byte before.
pub record Line : Type 0 where
  pub s : Option ℕ
  pub e : Option ℕ
  pub ne : Option ℕ
  pub c : Option ℕ
  pub vs : Option ℕ
  pub pre : ℕ

abbrev pub no_line : ℕ → Line
no_line pre = record { s = none; e = none; ne = none; c = none; vs = none; pre = pre }

-- The returned code, `*rdlen`, `*is_end` and the collection; `none` is a fault.
abbrev pub Answer : Type 0
Answer = Option (Status × ℕ × Bool × Headers)

-- Where a byte leads: the function returns, or the loop goes on with `*rdlen`.
pub data Step : Type 0 where
  returned : Status → ℕ → Bool → Headers → Step
  goes_on : Line → ℕ → Headers → Step

abbrev pub is_null : Option ℕ → Bool
is_null none = true
is_null (some i) = false

-- The difference of two pointers.
abbrev pub minus : ℕ → ℕ → ℤ
minus a b = if leb b a then pos (a - b) else negsuc (b - a - 1)

-- `http_header_add(headers, s, ne - s, vs, e - vs)` where `e` is past the value's last byte. A null
-- pointer that is subtracted is a fault.
abbrev pub add_line : Buffer → Headers → ℕ → Option ℕ → ℕ → ℕ → Option (Status × Headers)
add_line buf headers s none vs e = none
add_line buf headers s (some ne) vs e =
    http_header_add headers (some (advance buf s)) (minus ne s) (some (advance buf vs)) (e - vs)

-- `case '\n'`
unfoldable pub line_end : Buffer → ℕ → Line → ℕ → Headers → Option Step
line_end buf j l rdlen headers =
    if not (l.pre == 13) then some (returned failure rdlen false headers) else elim l.s [
      | none ↦ some (returned success (j + 1) true headers)
      | some s ↦ elim l.vs [
        | none ↦ some (returned failure rdlen false headers)
        | some vs ↦ elim l.e [
          | none ↦ some (returned failure rdlen false headers)
          | some e ↦ add_line buf headers s l.ne vs (e + 1) >>= λ (code, headers').
              some (goes_on (no_line (buf j)) (j + 1) headers')
        ]
      ]
    ]

-- `case ' '`
unfoldable pub after_blank : ℕ → Line → Line
after_blank j l =
    if not (is_null l.s)
    then (if is_null l.c then (if is_null l.ne then record l { ne = some j } else l) else l)
    else l

-- `case ':'`
unfoldable pub after_colon : ℕ → Line → Line
after_colon j l =
    if is_null l.c
    then (if is_null l.ne then record l { c = some j; ne = some j } else record l { c = some j })
    else l

-- `default`, behind its first test
unfoldable pub after_other : ℕ → Line → Line
after_other j l =
    if is_null l.s
    then record l { s = some j }
    else if not (is_null l.c)
    then (if is_null l.vs then record l { vs = some j; e = some j } else record l { e = some j })
    else (if not (is_null l.vs) then record l { e = some j } else l)

-- The body of the loop.
unfoldable pub header_step : Buffer → ℕ → Line → ℕ → Headers → Option Step
unfolding line_end after_blank after_colon after_other
header_step buf j l rdlen headers =
    if buf j == 10
    then line_end buf j l rdlen headers
    else if buf j == 13
    then some (goes_on (record l { pre = buf j }) rdlen headers)
    else if buf j == b' '
    then some (goes_on (record (after_blank j l) { pre = buf j }) rdlen headers)
    else if buf j == b':'
    then some (goes_on (record (after_colon j l) { pre = buf j }) rdlen headers)
    else if not (is_null l.ne)
    then (if is_null l.c
        then some (returned failure rdlen false headers)
        else some (goes_on (record (after_other j l) { pre = buf j }) rdlen headers))
    else some (goes_on (record (after_other j l) { pre = buf j }) rdlen headers)

abbrev pub after_step : (Line → ℕ → Headers → Answer) → Step → Answer
after_step rest (returned code rdlen is_end headers) = some (code, rdlen, is_end, headers)
after_step rest (goes_on l rdlen headers) = rest l rdlen headers

-- The loop from `j` on, with the bytes that are left.
unfoldable pub parse_lines : Buffer → ℕ → ℕ → Line → ℕ → Headers → Answer
unfolding header_step
parse_lines buf zero j l rdlen headers = some (success, rdlen, false, headers)
parse_lines buf (suc n) j l rdlen headers =
    header_step buf j l rdlen headers
    >>= after_step (λ l' rdlen' headers'. parse_lines buf n (j + 1) l' rdlen' headers')

unfoldable pub http_header_parse : Headers → Option Buffer → ℤ → Answer
unfolding parse_lines
http_header_parse headers none len = some (success, 0, false, headers)
http_header_parse headers (some buf) (negsuc n) = some (success, 0, false, headers)
http_header_parse headers (some buf) (pos len) = parse_lines buf len 0 (no_line 0) 0 headers
