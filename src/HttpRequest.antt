-- ===== src/HttpRequest.antt =====
-- http_request.c and http_request.h: the parser of requests, over those of the four parts.
pub mod Phases
pub mod Log
use oserver.Prelude.{
  ℕ, zero, suc, ◌+◌, Bool, true, false, Option, none, some, List, ℤ, pos, negsuc, ◌-ℤ◌, ◌==◌,
  if◌then◌else◌,
}
use oserver.Bytes.{Buffer, advance, Status, success, failure}
use oserver.HttpMethod.{Method, http_none, http_method_parse}
use oserver.HttpVersion.{Version, version_none, http_version_parse}
use oserver.HttpUrl.Path.{Segment}
use oserver.HttpUrl.Query.{QueryItem}
use oserver.HttpUrl.Parse.{HttpUrl, http_url_init, http_url_destory, http_url_parse}
use oserver.HttpHeader.Collection.{Headers, http_header_init, http_header_destroy}
use oserver.HttpHeader.Parse.{http_header_parse}

-- `http_request_parse_status_t`; `begin` is another name of the first.
pub data ParseStatus : Type 0 where
  parse_status_method parse_status_url parse_status_version parse_status_header parse_status_error :
      ParseStatus

abbrev pub parse_status_begin : ParseStatus
parse_status_begin = parse_status_method

-- `http_request_t`
pub record HttpRequest : Type 0 where
  pub method : Method
  pub url : HttpUrl
  pub version : Version
  pub headers : Headers
  pub parse_status : ParseStatus

unfoldable pub http_request_init : HttpRequest
http_request_init = record {
  method = http_none;
  url = http_url_init;
  version = version_none;
  headers = http_header_init;
  parse_status = parse_status_begin;
}

-- What is freed, and the request afterwards.
unfoldable pub http_request_reset :
    HttpRequest → (List Segment × List QueryItem × List ℕ) × HttpRequest
http_request_reset req =
    let (segments, items, url') = http_url_destory req.url in
    let (freed, headers') = http_header_destroy req.headers in
    (
      (segments, items, freed),
      record {
        method = http_none;
        url = url';
        version = version_none;
        headers = headers';
        parse_status = parse_status_begin;
      },
    )

-- The size that a parser of URLs sees; a negative one is as 0.
abbrev pub size_of : ℤ → ℕ
size_of (pos n) = n
size_of (negsuc n) = 0

-- The status after a parser's answer.
abbrev pub next_status : Status → ℕ → ParseStatus → ParseStatus → ParseStatus
next_status failure parsed_len next now = parse_status_error
next_status success zero next now = now
next_status success (suc n) next now = next

-- What the body of the loop leaves: `parsed_len`, `*is_end` and the request.
abbrev pub Step : Type 0
Step = Option (ℕ × Bool × HttpRequest)

-- The `switch`. `parsed_len` is what stands in the variable: it keeps its value from round to round,
-- and the parser of versions may leave it. `none` is a fault.
unfoldable pub request_step : Buffer → ℤ → ℕ → Bool → HttpRequest → ParseStatus → Step
request_step p len parsed_len is_end req parse_status_method =
    let (code, parsed_len', m) = http_method_parse (some p) len req.method in
    some (
      parsed_len',
      is_end,
      record req {
        method = m;
        parse_status = next_status code parsed_len' parse_status_url parse_status_method;
      },
    )
request_step p len parsed_len is_end req parse_status_url =
    elim (http_url_parse p (size_of len) req.url) [
      | none ↦ none
      | some (code, parsed_len', url') ↦ some (
        parsed_len',
        is_end,
        record req {
          url = url';
          parse_status = next_status code parsed_len' parse_status_version parse_status_url;
        },
      )
    ]
request_step p len parsed_len is_end req parse_status_version =
    let (code, parsed_len', v) = http_version_parse (some p) len parsed_len req.version in
    some (
      parsed_len',
      is_end,
      record req {
        version = v;
        parse_status = next_status code parsed_len' parse_status_header parse_status_version;
      },
    )
request_step p len parsed_len is_end req parse_status_header =
    elim (http_header_parse req.headers (some p) len) [
      | none ↦ none
      | some (code, parsed_len', is_end', headers') ↦ some (
        parsed_len',
        is_end',
        record req {
          headers = headers';
          parse_status = elim code [ failure ↦ parse_status_error | success ↦ parse_status_header ];
        },
      )
    ]
request_step p len parsed_len is_end req parse_status_error = some (parsed_len, is_end, req)

abbrev pub rank : ParseStatus → ℕ
rank parse_status_method = 0
rank parse_status_url = 1
rank parse_status_version = 2
rank parse_status_header = 3
rank parse_status_error = 4

-- The returned code, `*rdlen`, `*is_end` and the request. `none` is a fault, or the fuel ran out.
abbrev pub Answer : Type 0
Answer = Option (Status × ℕ × Bool × HttpRequest)

-- The loop with fuel for its rounds. `at` is `p - data`; the round ends the loop with an error, or
-- when the status is what it was.
unfoldable pub request_loop : ℕ → Buffer → ℕ → ℤ → ℕ → Bool → HttpRequest → Answer
unfolding request_step
request_loop zero buf at len parsed_len is_end req = none
request_loop (suc fuel) buf at len parsed_len is_end req =
    let rest = λ (parsed_len' : ℕ) (is_end' : Bool) (req' : HttpRequest).
      request_loop fuel buf (at + parsed_len') (len -ℤ pos parsed_len') parsed_len' is_end' req' in
    elim (request_step (advance buf at) len parsed_len is_end req req.parse_status) [
      | none ↦ none
      | some (parsed_len', is_end', req') ↦
          if rank req'.parse_status == 4
          then some (failure, 0, true, req')
          else if rank req'.parse_status == rank req.parse_status
          then some (success, at + parsed_len', is_end', req')
          else rest parsed_len' is_end' req'
    ]

-- A round that does not end the loop goes on to a later status, so five rounds are enough.
abbrev pub rounds : ℕ
rounds = 5

-- `parsed_len` is the value that the variable happens to have.
unfoldable pub http_request_parse : HttpRequest → Buffer → ℤ → ℕ → Answer
unfolding request_loop
http_request_parse req buf size parsed_len = request_loop rounds buf 0 size parsed_len false req
