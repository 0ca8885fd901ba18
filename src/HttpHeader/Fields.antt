-- ===== src/HttpHeader/Fields.antt =====
-- The table of header fields of http_header.c, and the enumeration of http_header.h.
pub mod Ids
use oserver.Prelude.{ℕ, List, [], ◌∷◌}
use oserver.Bytes.{codes}
use Prim.Native.String.{String}

-- `http_header_field_t` without the `hash`, which `http_header_hash_all_fields` computes from `str`.
pub record Field : Type 0 where
  pub str : List ℕ
  pub len : ℕ

abbrev field : String → ℕ → Field
field s n = record { str = codes s; len = n }

unfoldable pub http_header_fields : List Field
http_header_fields =
    field "Accept" 6
    ∷ field "Accept-Charset" 14
    ∷ field "Accept-Encoding" 15
    ∷ field "Accept-Language" 15
    ∷ field "Accept-Ranges" 13
    ∷ field "Access-Control-Allow-Credentials" 32
    ∷ field "Access-Control-Allow-Headers" 28
    ∷ field "Access-Control-Allow-Methods" 28
    ∷ field "Access-Control-Allow-Origin" 27
    ∷ field "Access-Control-Expose-Headers" 29
    ∷ field "Access-Control-Max-Age" 22
    ∷ field "Access-Control-Request-Headers" 30
    ∷ field "Access-Control-Request-Method" 29
    ∷ field "Age" 3
    ∷ field "Allow" 5
    ∷ field "Alt-Svc" 7
    ∷ field "Authorization" 13
    ∷ field "Cache-Control" 13
    ∷ field "Clear-Site-Data" 15
    ∷ field "Connection" 10
    ∷ field "Content-Disposition" 19
    ∷ field "Content-Encoding" 16
    ∷ field "Content-Language" 16
    ∷ field "Content-Length" 14
    ∷ field "Content-Location" 16
    ∷ field "Content-Range" 13
    ∷ field "Content-Security-Policy" 23
    ∷ field "Content-Security-Policy-Report-Only" 35
    ∷ field "Content-Type" 12
    ∷ field "Cookie" 6
    ∷ field "Cookie2" 7
    ∷ field "DNT" 3
    ∷ field "Date" 4
    ∷ field "ETag" 4
    ∷ field "Early-Data" 10
    ∷ field "Expect" 6
    ∷ field "Expect-CT" 9
    ∷ field "Expires" 7
    ∷ field "Feature-Policy" 14
    ∷ field "Forwarded" 9
    ∷ field "From" 4
    ∷ field "Host" 4
    ∷ field "If-Match" 8
    ∷ field "If-Modified-Since" 17
    ∷ field "If-None-Match" 13
    ∷ field "If-Range" 8
    ∷ field "If-Unmodified-Since" 19
    ∷ field "Index" 5
    ∷ field "Keep-Alive" 10
    ∷ field "Large-Allocation" 16
    ∷ field "Last-Modified" 13
    ∷ field "Location" 8
    ∷ field "Origin" 6
    ∷ field "Pragma" 6
    ∷ field "Proxy-Authenticate" 18
    ∷ field "Proxy-Authorization" 19
    ∷ field "Public-Key-Pins" 15
    ∷ field "Public-Key-Pins-Report-Only" 27
    ∷ field "Range" 5
    ∷ field "Referer" 7
    ∷ field "Referrer-Policy" 15
    ∷ field "Retry-After" 11
    ∷ field "Sec-WebSocket-Accept" 20
    ∷ field "Server" 6
    ∷ field "Server-Timing" 13
    ∷ field "Set-Cookie" 10
    ∷ field "Set-Cookie2" 11
    ∷ field "SourceMap" 9
    ∷ field "Strict-Transport-Security" 25
    ∷ field "TE" 2
    ∷ field "Timing-Allow-Origin" 19
    ∷ field "Tk" 2
    ∷ field "Trailer" 7
    ∷ field "Transfer-Encoding" 17
    ∷ field "Upgrade-Insecure-Requests" 25
    ∷ field "User-Agent" 10
    ∷ field "Vary" 4
    ∷ field "Via" 3
    ∷ field "WWW-Authenticate" 16
    ∷ field "Warning" 7
    ∷ field "X-Content-Type-Options" 22
    ∷ field "X-DNS-Prefetch-Control" 22
    ∷ field "X-Forwarded-For" 15
    ∷ field "X-Forwarded-Host" 16
    ∷ field "X-Forwarded-Proto" 17
    ∷ field "X-Frame-Options" 15
    ∷ field "X-XSS-Protection" 16
    ∷ []
