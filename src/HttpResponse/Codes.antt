-- ===== src/HttpResponse/Codes.antt =====
-- The texts of http_response.c against the numbers in the names of http_response.h, and the response
-- after a reset.
use oserver.Prelude.{
  ℕ, ◌+◌, ◌/◌, ◌%◌, ◌≡◌, refl, ap, List, [], ◌∷◌, take, Bool, true, ◌&&◌, not, ◌==◌, Option, none,
  some, negsuc, pos, ℤ,
}
use oserver.Btree.{Tree, leaf, thread, node}
use oserver.HttpHeader.Collection.{Header, Headers, http_header_init, http_header_destroy, root_key}
use oserver.HttpResponse.{
  HttpStatus, http_response_code, HttpResponse, http_response_init, http_response_reset,
}
use oserver.HttpResponse.{
  http_100_continue, http_101_switching_protocols, http_200_ok, http_201_created, http_202_accepted,
  http_203_non_authoritative_information, http_204_no_content, http_205_reset_content,
  http_206_partial_content, http_300_multiple_choices, http_301_moved_permanently, http_302_found,
  http_303_see_other, http_304_not_modified, http_305_use_proxy, http_307_temporary_redirect,
  http_400_bad_request, http_401_unauthorized, http_402_payment_required, http_403_forbidden,
  http_404_not_found, http_405_method_not_allowed, http_406_not_acceptable,
  http_407_proxy_authentication_required, http_408_request_timeout, http_409_conflict,
  http_410_gone, http_411_length_required, http_412_precondition_failed,
  http_413_request_entity_too_large, http_414_request_uri_too_long, http_415_unsupported_media_type,
  http_416_requested_range_not_satisfiable, http_417_expectation_failed,
  http_500_internal_server_error, http_501_not_implemented, http_502_bad_gateway,
  http_503_service_unavailable, http_504_gateway_timeout, http_505_http_version_not_supported,
}

-- The number in the constant's name.
abbrev pub status_number : HttpStatus → ℕ
status_number http_100_continue = 100
status_number http_101_switching_protocols = 101
status_number http_200_ok = 200
status_number http_201_created = 201
status_number http_202_accepted = 202
status_number http_203_non_authoritative_information = 203
status_number http_204_no_content = 204
status_number http_205_reset_content = 205
status_number http_206_partial_content = 206
status_number http_300_multiple_choices = 300
status_number http_301_moved_permanently = 301
status_number http_302_found = 302
status_number http_303_see_other = 303
status_number http_304_not_modified = 304
status_number http_305_use_proxy = 305
status_number http_307_temporary_redirect = 307
status_number http_400_bad_request = 400
status_number http_401_unauthorized = 401
status_number http_402_payment_required = 402
status_number http_403_forbidden = 403
status_number http_404_not_found = 404
status_number http_405_method_not_allowed = 405
status_number http_406_not_acceptable = 406
status_number http_407_proxy_authentication_required = 407
status_number http_408_request_timeout = 408
status_number http_409_conflict = 409
status_number http_410_gone = 410
status_number http_411_length_required = 411
status_number http_412_precondition_failed = 412
status_number http_413_request_entity_too_large = 413
status_number http_414_request_uri_too_long = 414
status_number http_415_unsupported_media_type = 415
status_number http_416_requested_range_not_satisfiable = 416
status_number http_417_expectation_failed = 417
status_number http_500_internal_server_error = 500
status_number http_501_not_implemented = 501
status_number http_502_bad_gateway = 502
status_number http_503_service_unavailable = 503
status_number http_504_gateway_timeout = 504
status_number http_505_http_version_not_supported = 505

-- Three decimal digits.
abbrev pub three_digits : ℕ → List ℕ
three_digits n = (b'0' + n / 100) ∷ (b'0' + (n / 10) % 10) ∷ (b'0' + n % 10) ∷ []

-- No byte of a text ends the line.
abbrev pub one_line : List ℕ → Bool
one_line [] = true
one_line (c ∷ s) = not (c == 13) && not (c == 10) && one_line s

-- The text of a status begins with the three digits of its number and a blank, and is one line.
pub response_code-number :
    (s : HttpStatus)
    → (take 3 (http_response_code s) ≡ three_digits (status_number s))
      × (one_line (http_response_code s) ≡ true)
unfolding http_response_code
response_code-number http_100_continue = (refl, refl)
response_code-number http_101_switching_protocols = (refl, refl)
response_code-number http_200_ok = (refl, refl)
response_code-number http_201_created = (refl, refl)
response_code-number http_202_accepted = (refl, refl)
response_code-number http_203_non_authoritative_information = (refl, refl)
response_code-number http_204_no_content = (refl, refl)
response_code-number http_205_reset_content = (refl, refl)
response_code-number http_206_partial_content = (refl, refl)
response_code-number http_300_multiple_choices = (refl, refl)
response_code-number http_301_moved_permanently = (refl, refl)
response_code-number http_302_found = (refl, refl)
response_code-number http_303_see_other = (refl, refl)
response_code-number http_304_not_modified = (refl, refl)
response_code-number http_305_use_proxy = (refl, refl)
response_code-number http_307_temporary_redirect = (refl, refl)
response_code-number http_400_bad_request = (refl, refl)
response_code-number http_401_unauthorized = (refl, refl)
response_code-number http_402_payment_required = (refl, refl)
response_code-number http_403_forbidden = (refl, refl)
response_code-number http_404_not_found = (refl, refl)
response_code-number http_405_method_not_allowed = (refl, refl)
response_code-number http_406_not_acceptable = (refl, refl)
response_code-number http_407_proxy_authentication_required = (refl, refl)
response_code-number http_408_request_timeout = (refl, refl)
response_code-number http_409_conflict = (refl, refl)
response_code-number http_410_gone = (refl, refl)
response_code-number http_411_length_required = (refl, refl)
response_code-number http_412_precondition_failed = (refl, refl)
response_code-number http_413_request_entity_too_large = (refl, refl)
response_code-number http_414_request_uri_too_long = (refl, refl)
response_code-number http_415_unsupported_media_type = (refl, refl)
response_code-number http_416_requested_range_not_satisfiable = (refl, refl)
response_code-number http_417_expectation_failed = (refl, refl)
response_code-number http_500_internal_server_error = (refl, refl)
response_code-number http_501_not_implemented = (refl, refl)
response_code-number http_502_bad_gateway = (refl, refl)
response_code-number http_503_service_unavailable = (refl, refl)
response_code-number http_504_gateway_timeout = (refl, refl)
response_code-number http_505_http_version_not_supported = (refl, refl)

-- A descriptor, or -1.
abbrev pub IsContent : ℤ → Type 0
IsContent (pos fd) = Unit
IsContent (negsuc n) = n ≡ 0

-- A descriptor of a response's content, or -1, and the response of which the tree of headers is empty only
-- with no header to go on from: what every operation keeps.
abbrev pub IsResponse : HttpResponse → Type 0
IsResponse res =
    IsContent res.content
    × (root_key res.headers.header_tree ≡ none → res.headers ≡ http_header_init)

abbrev pub open_content : HttpResponse → Option ℕ
open_content res = elim res.content [ pos fd ↦ some fd | negsuc n ↦ none ]

emptied :
    (headers : Headers) (t : Tree Header)
    → (root_key t ≡ none → headers ≡ http_header_init)
    → ◌≡◌ {A = Headers}
        (elim t [ node l k v b r ↦ http_header_init | _ ↦ headers ])
        http_header_init
emptied headers leaf h = h refl
emptied headers (thread t) h = h refl
emptied headers (node l k v b r) h = refl

closed :
    (content : ℤ)
    → IsContent content
    → ◌≡◌ {A = ℤ} (elim content [ pos fd ↦ negsuc 0 | negsuc n ↦ negsuc n ]) (negsuc 0)
closed (pos fd) h = refl
closed (negsuc n) h = ap negsuc h

-- A reset closes the descriptor of the content if there is one, and leaves the response as a new one
-- of that status.
pub reset-init :
    (res : HttpResponse) (code : HttpStatus)
    → IsResponse res
    → ((http_response_reset res code).0 ≡ open_content res)
      × ((http_response_reset res code).2 ≡ http_response_init code)
unfolding http_response_reset http_response_init http_header_destroy
reset-init res code h =
    (refl, rw (emptied res.headers res.headers.header_tree h.1, closed res.content h.0) refl)
