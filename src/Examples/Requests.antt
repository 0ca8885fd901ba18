-- ===== src/Examples/Requests.antt =====
-- Runs of the parser of requests, and its theorem at a concrete request.
use oserver.Prelude.{ℕ, ◌≡◌, refl, [], ◌∷◌, ◌++◌, get_or, some, arith, pos, ◌-ℤ◌}
use oserver.Bytes.{Buffer, codes, Status, success, match_loop}
use oserver.HttpMethod.{http_method_str, http_method_parse}
use oserver.HttpUrl.{is_path}
use oserver.HttpUrl.Path.{http_url_parse_path}
use oserver.HttpUrl.Parse.{http_url_parse}
use oserver.HttpVersion.{http_version_parse}
use oserver.HttpHeader.Hash.{bytes}
use oserver.HttpHeader.Parse.{http_header_parse}
use oserver.HttpRequest.{http_request_init, http_request_parse, rank}
use oserver.HttpRequest.Phases.{init-IsRequest, Requested, parse-Requested}
use mathlib.Core.Option

abbrev request : Buffer
request i = get_or (codes "GET /a HTTP/1.1" ++ 13 ∷ 10 ∷ 13 ∷ 10 ∷ []) i 0

parse-Requested_example :
    Requested http_request_init (http_request_parse http_request_init request (pos 19) 0)
parse-Requested_example =
    parse-Requested http_request_init request (pos 19) 0 init-IsRequest (omega arith)

-- The request line breaks off behind the URL: seven bytes have arrived, and ten are used up.
broken_off :
    Option.map {B = Status × ℕ × ℕ}
      (λ (code, rdlen, is_end, req). (code, rdlen, rank req.parse_status))
      (http_request_parse http_request_init request (pos 7) 0)
    ≡ some (success, 10, 3)
unfolding http_request_parse http_request_init http_method_parse match_loop http_method_str
    http_url_parse ◌-ℤ◌ bytes http_url_parse_path is_path http_version_parse http_header_parse
broken_off = refl
