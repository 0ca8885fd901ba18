-- ===== src/HttpHeader/Search/Complete.antt =====
-- Lookup of a field by its name in http_header.c, after `http_header_hash_all_fields`
use oserver.Prelude.{
  ℕ, zero, suc, ◌+◌, ◌≤◌, ◌<◌, ◌≡◌, refl, sym, ap, subst, ◌∙◌, Bool, true, some, List, [], ◌∷◌, map,
  length, get_or, arith, All, ==_iff,
}
use oserver.Bytes.{Buffer}
use oserver.HttpHeader.Hash.{
  tolower, http_header_hash, http_header_n_hash, bytes, n_hash-bytes, hash-tolower,
}
use oserver.HttpHeader.Sort.Order.{IsSorted, count, bubble_sort-IsSorted}
use oserver.HttpHeader.Search.{
  signed, range_from, field_str, field_hash, num_fields, http_header_fields_index, strncasecmp_eq,
  strcasecmp_eq, search_loop, http_header_binary_search, http_header_binary_n_search,
}
use oserver.HttpHeader.Search.Unique.{field_hash-lt, field_hash-injective}
use oserver.HttpHeader.Search.Loop.{
  position, count_pos, search_loop-Ends, search_loop_sound, search_loop_at,
}

range-All : (n s : ℕ) → s + n ≤ 128 → All (λ a. a < 128) (range_from n s)
range-All zero s h = tt
range-All (suc n) s h = (omega arith, range-All n (suc s) (omega arith))

count-range : (n s i : ℕ) → s ≤ i → i < s + n → 0 < count i (range_from n s)
count-range zero s i l h = absurd (omega arith)
count-range (suc n) s i l h = ground (arith, count-range n (suc s) i)

count-range_out : (n s i : ℕ) → s + n ≤ i → count i (range_from n s) ≡ 0
count-range_out zero s i h = refl
count-range_out (suc n) s i h = ground (arith, count-range_out n (suc s) i)

length-range : (n s : ℕ) → length (range_from n s) ≡ n
length-range zero s = refl
length-range (suc n) s = ap suc (length-range n (suc s))

-- The index as it is after the start: sorted by the hashes, each field in it once.
index-IsSorted :
    IsSorted (λ i. signed (field_hash i)) http_header_fields_index
    × ((a : ℕ) → count a http_header_fields_index ≡ count a (range_from num_fields 0))
    × (length http_header_fields_index ≡ length (range_from num_fields 0))
unfolding http_header_fields_index
index-IsSorted =
    bubble_sort-IsSorted (λ i. signed (field_hash i)) (range_from num_fields 0)
      (range-All num_fields 0 (omega arith))

length-index : length http_header_fields_index ≡ num_fields
length-index = index-IsSorted.2 ∙ length-range num_fields 0

index-lt : (m : ℕ) → m < num_fields → get_or http_header_fields_index m 0 < num_fields
index-lt m h =
    let i = get_or http_header_fields_index m 0 in
    let there = count_pos http_header_fields_index m (omega (arith, length-index)) in
    ground (arith, there, index-IsSorted.1 i, count-range_out num_fields 0 i)

-- What a search answers is a field of the table.
pub answer-lt :
    (eq : ℕ → Bool) (targ i : ℕ)
    → search_loop eq http_header_fields_index field_hash targ (num_fields + 1) 0 num_fields ≡ some i
    → i < num_fields
answer-lt eq targ i e =
    let (m, lt, at) =
      search_loop_at eq http_header_fields_index field_hash targ (num_fields + 1) 0 num_fields i
        e in
    subst (λ j. j < num_fields) at (index-lt m lt)

-- A search for the hash of field `i` answers by the test of that field's name.
finds :
    (eq : ℕ → Bool) (targ i : ℕ)
    → i < num_fields
    → field_hash i ≡ targ
    → eq i ≡ true
    → search_loop eq http_header_fields_index field_hash targ (num_fields + 1) 0 num_fields ≡ some i
finds eq targ i h e t =
    let index = http_header_fields_index in
    let (p, lt, at) =
      position i index (rw (index-IsSorted.1 i) (count-range num_fields 0 i (omega arith) h)) in
    let (m, lt', same, answer) =
      search_loop-Ends eq index field_hash targ index-IsSorted.0 field_hash-lt (num_fields + 1) 0
        num_fields p (omega arith) (omega arith) (omega (arith, length-index))
        (omega (arith, length-index)) (ap field_hash at ∙ e) in
    let one : get_or index m 0 ≡ i =
      field_hash-injective (get_or index m 0) i (index-lt m (omega (arith, length-index))) h
        (same ∙ sym e) in
    answer ∙ rw (one, t)

strcasecmp_eq-tolower : (s t : List ℕ) → map tolower s ≡ map tolower t → strcasecmp_eq s t ≡ true
strcasecmp_eq-tolower [] [] e = refl
strcasecmp_eq-tolower [] (d ∷ t) e = cc
strcasecmp_eq-tolower (c ∷ s) [] e = cc
strcasecmp_eq-tolower (c ∷ s) (d ∷ t) e =
    rw ((==_iff (tolower c) (tolower d)).1 (cc)) (strcasecmp_eq-tolower s t (cc))

strncasecmp_eq-tolower : (s t : List ℕ) → map tolower s ≡ map tolower t → strncasecmp_eq s t ≡ true
strncasecmp_eq-tolower [] [] e = refl
strncasecmp_eq-tolower [] (d ∷ t) e = cc
strncasecmp_eq-tolower (c ∷ s) [] e = cc
strncasecmp_eq-tolower (c ∷ s) (d ∷ t) e =
    rw ((==_iff (tolower c) (tolower d)).1 (cc), strncasecmp_eq-tolower s t (cc)) (ground arith)

-- The hash of a spelling of a field's name is the field's.
spelled :
    (i : ℕ) (s : List ℕ)
    → map tolower s ≡ map tolower (field_str i)
    → field_hash i ≡ http_header_hash s
unfolding field_hash
spelled i s e = sym (hash-tolower (field_str i)) ∙ ap http_header_hash (sym e) ∙ hash-tolower s

-- `http_header_binary_search` finds every name of the table, in any mix of cases, at its place.
pub search-finds :
    (i : ℕ) (target : List ℕ)
    → i < num_fields
    → map tolower target ≡ map tolower (field_str i)
    → http_header_binary_search target ≡ some i
unfolding http_header_binary_search
search-finds i target h e =
    finds (λ i. strcasecmp_eq target (field_str i)) (http_header_hash target) i h
      (spelled i target e) (strcasecmp_eq-tolower target (field_str i) e)

-- `http_header_binary_n_search` finds every name of the table, in any mix of cases, at its place.
pub n_search-finds :
    (i : ℕ) (target : Buffer) (len : ℕ)
    → i < num_fields
    → map tolower (bytes target len) ≡ map tolower (field_str i)
    → http_header_binary_n_search target len ≡ some i
unfolding http_header_binary_n_search
n_search-finds i target len h e =
    finds (λ i. strncasecmp_eq (bytes target len) (field_str i)) (http_header_n_hash target len) i h
      (spelled i (bytes target len) e ∙ sym (n_hash-bytes target len))
      (strncasecmp_eq-tolower (bytes target len) (field_str i) e)

-- What the search answers has the hash of the bytes that were looked for, and a name that agrees
-- with them, but for case, over their length.
pub n_search_sound :
    (i : ℕ) (target : Buffer) (len : ℕ)
    → http_header_binary_n_search target len ≡ some i
    → (field_hash i ≡ http_header_n_hash target len)
      × (strncasecmp_eq (bytes target len) (field_str i) ≡ true)
unfolding http_header_binary_n_search
n_search_sound i target len e =
    search_loop_sound (λ i. strncasecmp_eq (bytes target len) (field_str i))
      http_header_fields_index field_hash (http_header_n_hash target len) index-IsSorted.0
      field_hash-lt (num_fields + 1) 0 num_fields i e
