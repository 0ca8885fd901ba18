-- ===== src/Examples/Headers.antt =====
-- Runs of the table of header fields, and its theorems at concrete names.
use oserver.Prelude.{ℕ, ◌≡◌, refl, [], ◌∷◌, length, get_or, get_elem?, some, arith, map}
use oserver.Bytes.{Buffer, codes}
use mathlib.Core.Option
use oserver.HttpHeader.Fields.{http_header_fields}
use oserver.HttpHeader.Fields.Ids.{header_te, number, identifier, spelling, fields-number}
use oserver.HttpHeader.Hash.{bytes, tolower}
use oserver.HttpHeader.Sort.{http_header_fields_bubble_sort}
use oserver.HttpHeader.Sort.Order.{IsSorted, count, bubble_sort-IsSorted}
use oserver.HttpHeader.Search.{field_str, http_header_binary_n_search}
use oserver.HttpHeader.Search.Complete.{n_search-finds}

abbrev key : ℕ → ℕ
key i = get_or (30 ∷ 10 ∷ 20 ∷ []) i 0

sorted_run : http_header_fields_bubble_sort key (0 ∷ 1 ∷ 2 ∷ []) ≡ 1 ∷ 2 ∷ 0 ∷ []
unfolding http_header_fields_bubble_sort
sorted_run = refl

bubble_sort-IsSorted_example :
    IsSorted key (http_header_fields_bubble_sort key (0 ∷ 1 ∷ 2 ∷ []))
    × ((a : ℕ)
        → count a (http_header_fields_bubble_sort key (0 ∷ 1 ∷ 2 ∷ [])) ≡ count a (0 ∷ 1 ∷ 2 ∷ []))
    × (length (http_header_fields_bubble_sort key (0 ∷ 1 ∷ 2 ∷ [])) ≡ 3)
bubble_sort-IsSorted_example = bubble_sort-IsSorted key (0 ∷ 1 ∷ 2 ∷ []) (omega arith)

host_names : map tolower (codes "hOST") ≡ map tolower (field_str 41)
unfolding field_str
host_names = refl

abbrev line : Buffer
line i = get_or (codes "hOST: a") i 0

n_host_names : map tolower (bytes line 4) ≡ map tolower (field_str 41)
unfolding field_str bytes
n_host_names = refl

n_search-finds_example : http_header_binary_n_search line 4 ≡ some 41
n_search-finds_example = n_search-finds 41 line 4 (omega arith) n_host_names

fields-number_example :
    Option.map (λ f. identifier f.str) (get_elem? http_header_fields (number header_te))
    ≡ some (codes (spelling header_te))
fields-number_example = fields-number header_te
