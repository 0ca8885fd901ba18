-- ===== src/HttpHeader/Search.antt =====
-- `http_header_hash_all_fields`, `http_header_binary_search` and `http_header_binary_n_search` of
-- http_header.c
pub mod Loop
pub mod Unique
pub mod Complete
use oserver.Prelude.{
  ℕ, zero, suc, ◌+◌, ◌-◌, ◌/◌, ◌%◌, Bool, true, false, ◌&&◌, ◌||◌, Option, none, some, List, [],
  ◌∷◌, map, ltb, ◌==◌, length, get_or, if◌then◌else◌,
}
use oserver.Bytes.{Buffer}
use oserver.HttpHeader.Fields.{Field, http_header_fields}
use oserver.HttpHeader.Hash.{tolower, http_header_hash, http_header_n_hash, bytes}
use oserver.HttpHeader.Sort.{http_header_fields_bubble_sort}

-- The number that orders the pattern of an `int16_t` as a signed number.
abbrev pub signed : ℕ → ℕ
signed h = (h + 0x8000) % 0x10000

abbrev pub range_from : ℕ → ℕ → List ℕ
range_from zero i = []
range_from (suc n) i = i ∷ range_from n (suc i)

-- `http_header_fields[i].str`
unfoldable pub field_str : ℕ → List ℕ
unfolding http_header_fields
field_str i = get_or (map (λ f. f.str) http_header_fields) i []

-- `http_header_fields[i].hash`, as `http_header_hash_all_fields` leaves it
unfoldable pub field_hash : ℕ → ℕ
unfolding field_str http_header_hash
field_hash i = http_header_hash (field_str i)

abbrev pub num_fields : ℕ
num_fields = 87

-- `http_header_fields_index`, as `http_header_hash_all_fields` leaves it: `index[i] = i`, sorted
unfoldable pub http_header_fields_index : List ℕ
http_header_fields_index =
    http_header_fields_bubble_sort (λ i. signed (field_hash i)) (range_from num_fields 0)

-- `strcasecmp(s, t) == 0` and `strncasecmp(s, t, len) == 0`, of strings.h in the C locale; `len` is
-- the number of bytes of `s`.
abbrev pub strcasecmp_eq : List ℕ → List ℕ → Bool
strcasecmp_eq [] [] = true
strcasecmp_eq [] (d ∷ t) = false
strcasecmp_eq (c ∷ s) [] = false
strcasecmp_eq (c ∷ s) (d ∷ t) = (tolower c == tolower d) && strcasecmp_eq s t

abbrev pub strncasecmp_eq : List ℕ → List ℕ → Bool
strncasecmp_eq [] t = true
strncasecmp_eq (c ∷ s) [] = c == 0
strncasecmp_eq (c ∷ s) (d ∷ t) = (tolower c == tolower d) && ((c == 0) || strncasecmp_eq s t)

-- The loop with `high + 1` for `high`, which may be -1, and fuel for its rounds. `eq` is the test of
-- the names, `index` and `hash` are what the loop reads. `none` is -1.
unfoldable pub search_loop : (ℕ → Bool) → List ℕ → (ℕ → ℕ) → ℕ → ℕ → ℕ → ℕ → Option ℕ
search_loop eq index hash targ_hash zero low high' = none
search_loop eq index hash targ_hash (suc fuel) low high' =
    let mid = (low + high' - 1) / 2 in
    let i = get_or index mid 0 in
    let left = search_loop eq index hash targ_hash fuel low mid in
    let right = search_loop eq index hash targ_hash fuel (mid + 1) high' in
    if ltb low high'
    then (if targ_hash == hash i
        then (if eq i then some i else none)
        else if ltb (signed targ_hash) (signed (hash i))
        then left
        else right)
    else none

unfoldable pub http_header_binary_search : List ℕ → Option ℕ
unfolding search_loop
http_header_binary_search target =
    search_loop (λ i. strcasecmp_eq target (field_str i)) http_header_fields_index field_hash
      (http_header_hash target) (num_fields + 1) 0 num_fields

unfoldable pub http_header_binary_n_search : Buffer → ℕ → Option ℕ
unfolding search_loop
http_header_binary_n_search target len =
    search_loop (λ i. strncasecmp_eq (bytes target len) (field_str i)) http_header_fields_index
      field_hash (http_header_n_hash target len) (num_fields + 1) 0 num_fields
