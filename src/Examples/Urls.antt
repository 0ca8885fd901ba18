-- ===== src/Examples/Urls.antt =====
-- Runs of the conversions and the paths of URLs and of the responses, and their theorems at concrete
-- ones.
use oserver.Prelude.{ℕ, ◌≤◌, ◌≡◌, refl, List, [], ◌∷◌, get_or, some, none, arith, pos}
use oserver.Bytes.{Buffer, codes, success}
use oserver.HttpUrl.{http_url_escape, http_url_unescape, is_path}
use oserver.HttpUrl.Escape.{EscapedAs, escape-EscapedAs}
use oserver.HttpUrl.Parse.{http_url_init, http_url_parse}
use oserver.HttpUrl.Parse.Whole.{Received, parse_url-Received}
use oserver.HttpUrl.Query.{http_url_parse_query}
use oserver.HttpUrl.Query.Items.{Items, parse_query-Items}
use oserver.HttpUrl.Path.{http_url_parse_path}
use oserver.HttpUrl.Path.Safe.{AllNames, parse_path-All}
use oserver.HttpResponse.{
  http_404_not_found, http_200_ok, HttpResponse, http_response_init, http_response_reset,
}
use oserver.HttpResponse.Codes.{IsResponse, open_content, reset-init}

escape-EscapedAs_example : (t : List ℕ) × EscapedAs (codes "a b") t
escape-EscapedAs_example =
    escape-EscapedAs (codes "a b") (omega arith, (omega arith, (omega arith, tt)))

escaped_run : http_url_escape (codes "a/") ≡ some (codes "a%2F")
unfolding http_url_escape
escaped_run = refl

decoded_run : http_url_unescape (codes "a%2Fb") ≡ some (codes "a/b")
unfolding http_url_unescape
decoded_run = refl

refused_run : http_url_unescape (codes "a%2") ≡ none
unfolding http_url_unescape
refused_run = refl

abbrev path : Buffer
path i = get_or (codes "a/../b") i 0

parse_path-All_example :
    AllNames path 6 (http_url_parse_path path 6 []).2 × ((http_url_parse_path path 6 []).1 ≤ 6)
parse_path-All_example = parse_path-All path 6

path_run : http_url_parse_path path 6 [] ≡ (success, 6, record { start = 5; data_len = 1 } ∷ [])
unfolding http_url_parse_path is_path
path_run = refl

abbrev sent : HttpResponse
sent = record (http_response_init http_200_ok) { content = pos 5 }

sent-IsResponse : IsResponse sent
unfolding http_response_init
sent-IsResponse = (tt, λ e. refl)

reset-init_example :
    ((http_response_reset sent http_404_not_found).0 ≡ open_content sent)
    × ((http_response_reset sent http_404_not_found).2 ≡ http_response_init http_404_not_found)
reset-init_example = reset-init sent http_404_not_found sent-IsResponse

abbrev query : Buffer
query i = get_or (codes "a=xyz") i 0

parse_query-Items_example : Items 5 (http_url_parse_query query 5 [])
parse_query-Items_example = parse_query-Items query 5

-- The value of the item is the last byte alone.
query_run :
    http_url_parse_query query 5 []
    ≡ some (5, record { name = 0; name_len = 1; value = 4; value_len = 1 } ∷ [])
unfolding http_url_parse_query
query_run = refl

abbrev two_signs : Buffer
two_signs i = get_or (codes "a=b=") i 0

-- A second `=` moves the end of the name, so that it reaches into the value.
two_signs_run :
    http_url_parse_query two_signs 4 []
    ≡ some (4, record { name = 0; name_len = 3; value = 2; value_len = 2 } ∷ [])
unfolding http_url_parse_query
two_signs_run = refl

abbrev line : Buffer
line i = get_or (codes "http://h/a/../b?x=1 ") i 0

parse_url-Received_example : Received line 20 (http_url_parse line 20 http_url_init)
parse_url-Received_example = parse_url-Received line 20
