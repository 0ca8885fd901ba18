-- ===== src/HttpResponse.antt =====
-- http_response.c and http_response.h: the status codes and their texts, and the start of a response.
pub mod Codes
pub mod Gen
pub mod Log
use oserver.Prelude.{ℕ, List, ℤ, pos, negsuc, Bool, true, false, if◌then◌else◌, Option, none, some}
use oserver.Bytes.{codes}
use oserver.HttpVersion.{Version, version_1_1}
use oserver.HttpHeader.Collection.{Headers, http_header_init, http_header_destroy}

-- `http_status_t`
pub data HttpStatus : Type 0 where
  http_100_continue http_101_switching_protocols http_200_ok http_201_created http_202_accepted
        http_203_non_authoritative_information http_204_no_content http_205_reset_content
        http_206_partial_content http_300_multiple_choices http_301_moved_permanently http_302_found
        http_303_see_other http_304_not_modified http_305_use_proxy http_307_temporary_redirect
        http_400_bad_request http_401_unauthorized http_402_payment_required http_403_forbidden
        http_404_not_found http_405_method_not_allowed http_406_not_acceptable
        http_407_proxy_authentication_required http_408_request_timeout http_409_conflict
        http_410_gone http_411_length_required http_412_precondition_failed
        http_413_request_entity_too_large http_414_request_uri_too_long
        http_415_unsupported_media_type http_416_requested_range_not_satisfiable
        http_417_expectation_failed http_500_internal_server_error http_501_not_implemented
        http_502_bad_gateway http_503_service_unavailable http_504_gateway_timeout
        http_505_http_version_not_supported :
      HttpStatus

-- `http_response_code`
unfoldable pub http_response_code : HttpStatus → List ℕ
http_response_code http_100_continue = codes "100 Continue"
http_response_code http_101_switching_protocols = codes "101 Switching Protocols"
http_response_code http_200_ok = codes "200 OK"
http_response_code http_201_created = codes "201 Created"
http_response_code http_202_accepted = codes "202 Accepted"
http_response_code http_203_non_authoritative_information =
    codes "203 Non-authoritative Information"
http_response_code http_204_no_content = codes "204 No Content"
http_response_code http_205_reset_content = codes "205 Reset Content"
http_response_code http_206_partial_content = codes "206 Partial Content"
http_response_code http_300_multiple_choices = codes "300 Multiple Choices"
http_response_code http_301_moved_permanently = codes "301 Moved Permanently"
http_response_code http_302_found = codes "302 Found"
http_response_code http_303_see_other = codes "303 See Other"
http_response_code http_304_not_modified = codes "304 Not Modified"
http_response_code http_305_use_proxy = codes "305 Use Proxy"
http_response_code http_307_temporary_redirect = codes "307 Temporary Redirect"
http_response_code http_400_bad_request = codes "400 Bad Request"
http_response_code http_401_unauthorized = codes "401 Unauthorized"
http_response_code http_402_payment_required = codes "402 Payment Required"
http_response_code http_403_forbidden = codes "403 Forbidden"
http_response_code http_404_not_found = codes "404 Not Found"
http_response_code http_405_method_not_allowed = codes "405 Method Not Allowed"
http_response_code http_406_not_acceptable = codes "406 Not Acceptable"
http_response_code http_407_proxy_authentication_required =
    codes "407 Proxy Authentication Required"
http_response_code http_408_request_timeout = codes "408 Request Timeout"
http_response_code http_409_conflict = codes "409 Conflict"
http_response_code http_410_gone = codes "410 Gone"
http_response_code http_411_length_required = codes "411 Length Required"
http_response_code http_412_precondition_failed = codes "412 Precondition Failed"
http_response_code http_413_request_entity_too_large = codes "413 Request Entity Too Large"
http_response_code http_414_request_uri_too_long = codes "414 Request-uri Too Long"
http_response_code http_415_unsupported_media_type = codes "415 Unsupported Media Type"
http_response_code http_416_requested_range_not_satisfiable =
    codes "416 Requested Range Not Satisfiable"
http_response_code http_417_expectation_failed = codes "417 Expectation Failed"
http_response_code http_500_internal_server_error = codes "500 Internal Server Error"
http_response_code http_501_not_implemented = codes "501 Not Implemented"
http_response_code http_502_bad_gateway = codes "502 Bad Gateway"
http_response_code http_503_service_unavailable = codes "503 Service Unavailable"
http_response_code http_504_gateway_timeout = codes "504 Gateway Timeout"
http_response_code http_505_http_version_not_supported = codes "505 Http Version Not Supported"

-- `http_response_gen_status_t`
pub data GenStatus : Type 0 where
  gen_status_version gen_status_code gen_status_headers gen_status_content gen_status_error :
      GenStatus

-- `http_response_t`; `content` is a file descriptor, or negative for none.
pub record HttpResponse : Type 0 where
  pub version : Version
  pub status : HttpStatus
  pub headers : Headers
  pub gen_status : GenStatus
  pub content : ℤ

unfoldable pub http_response_init : HttpStatus → HttpResponse
http_response_init code = record {
  version = version_1_1;
  status = code;
  headers = http_header_init;
  gen_status = gen_status_version;
  content = negsuc 0;
}

-- The descriptor that is closed, the headers that are freed, and the response afterwards.
unfoldable pub http_response_reset : HttpResponse → HttpStatus → Option ℕ × List ℕ × HttpResponse
http_response_reset res code =
    let (freed, headers') = http_header_destroy res.headers in
    (
      elim res.content [ pos fd ↦ some fd | negsuc n ↦ none ],
      freed,
      record {
        version = version_1_1;
        status = code;
        headers = headers';
        gen_status = gen_status_version;
        content = elim res.content [ pos fd ↦ negsuc 0 | negsuc n ↦ negsuc n ];
      },
    )
