-- ===== src/HttpUrl.antt =====
-- The classes of characters of http_url.c, and `http_hex_char_to_num`, `http_url_unescape` and
-- `http_url_escape`. A `char` is its bit pattern; it is signed.
pub mod Escape
pub mod Path
pub mod Query
pub mod Parse
use oserver.Prelude.{
  ℕ, zero, suc, ◌+◌, ◌-◌, ◌*◌, ◌/◌, ◌%◌, Bool, true, false, not, ◌||◌, Option, none, some, List, [],
  ◌∷◌, ◌++◌, ltb, leb, ◌==◌, if◌then◌else◌, get_or, replicate,
}
use oserver.Bytes.{codes}

abbrev pub printable_bit : ℕ
printable_bit = 1

abbrev pub al_bit : ℕ
al_bit = 2

abbrev pub digit_bit : ℕ
digit_bit = 4

abbrev pub hex_bit : ℕ
hex_bit = 8

abbrev pub upper_case_bit : ℕ
upper_case_bit = 16

abbrev pub lower_case_bit : ℕ
lower_case_bit = 32

abbrev pub path_bit : ℕ
path_bit = 64

-- The rows of the table.
abbrev symbol_row : ℕ
symbol_row = printable_bit

abbrev path_symbol_row : ℕ
path_symbol_row = printable_bit + path_bit

abbrev digit_row : ℕ
digit_row = printable_bit + digit_bit + hex_bit + path_bit

abbrev upper_row : ℕ
upper_row = printable_bit + upper_case_bit + al_bit + path_bit

abbrev lower_row : ℕ
lower_row = printable_bit + lower_case_bit + al_bit + path_bit

unfoldable pub http_ascii : List ℕ
http_ascii =
    replicate 32 0
    ++ replicate 13 symbol_row
    ++ replicate 3 path_symbol_row
    ++ replicate 10 digit_row
    ++ replicate 7 symbol_row
    ++ replicate 6 (upper_row + hex_bit)
    ++ replicate 20 upper_row
    ++ replicate 4 symbol_row
    ++ path_symbol_row ∷ symbol_row ∷ replicate 6 (lower_row + hex_bit)
    ++ replicate 20 lower_row
    ++ replicate 4 symbol_row
    ++ replicate 129 0

-- `http_ascii[(unsigned char)x] & bit`
unfoldable pub has_bit : ℕ → ℕ → Bool
unfolding http_ascii
has_bit x bit = ((get_or http_ascii x 0 / bit) % 2) == 1

-- `IS_ALNUM` and `IS_PATH`
unfoldable pub is_alnum : ℕ → Bool
unfolding has_bit
is_alnum x = has_bit x digit_bit || has_bit x al_bit

unfoldable pub is_path : ℕ → Bool
unfolding has_bit
is_path x = has_bit x path_bit

abbrev pub http_hex : List ℕ
http_hex = codes "0123456789ABCDEF"

unfoldable pub http_hex_char_to_num : ℕ → ℕ
unfolding has_bit
http_hex_char_to_num x =
    if has_bit x digit_bit
    then x - b'0'
    else if has_bit x hex_bit
    then (if has_bit x lower_case_bit then x - (b'a' - 10) else x - (b'A' - 10))
    else 255

abbrev pub is_negative : ℕ → Bool
is_negative c = leb 128 c

-- The string without its final 0, where the writing never gets ahead of the reading; `none` is -1.
-- Behind a `%` the final 0 is read as a digit that is none.
unfoldable pub http_url_unescape : List ℕ → Option (List ℕ)
unfolding http_hex_char_to_num
http_url_unescape [] = some []
http_url_unescape (c ∷ []) = if c == b'%' then none else some (c ∷ [])
http_url_unescape (c ∷ d ∷ []) =
    let rest = http_url_unescape (d ∷ []) in
    if c == b'%' then none else elim rest [ none ↦ none | some t ↦ some (c ∷ t) ]
http_url_unescape (c ∷ d ∷ d' ∷ s) =
    let rest = http_url_unescape (d ∷ d' ∷ s) in
    let decoded = http_url_unescape s in
    let x = http_hex_char_to_num d in
    let y = http_hex_char_to_num d' in
    if c == b'%'
    then (if is_negative x
        then none
        else if is_negative y
        then none
        else elim decoded [ none ↦ none | some t ↦ some ((x * 16 + y) % 256 ∷ t) ])
    else elim rest [ none ↦ none | some t ↦ some (c ∷ t) ]

-- The length that is allocated, with the final 0.
unfoldable pub escaped_len : List ℕ → ℕ
unfolding is_alnum
escaped_len [] = 1
escaped_len (c ∷ s) = if not (is_alnum c) then escaped_len s + 3 else escaped_len s + 1

-- The string that is written; `none` is a read in front of `http_hex`, which a negative `char` leads
-- to. The allocation succeeds.
unfoldable pub http_url_escape : List ℕ → Option (List ℕ)
unfolding is_alnum
http_url_escape [] = some []
http_url_escape (c ∷ s) =
    let rest = http_url_escape s in
    if not (is_alnum c)
    then (if is_negative c then none else elim rest [
      | none ↦ none
      | some t ↦ some (b'%' ∷ get_or http_hex (c / 16) 0 ∷ get_or http_hex (c % 16) 0 ∷ t)
    ])
    else elim rest [ none ↦ none | some t ↦ some (c ∷ t) ]
