-- ===== src/HttpHeader/Fields/Ids.antt =====
-- `http_header_field_id_t` of http_header.h, and that it numbers the table of http_header.c.
use oserver.Prelude.{ℕ, ◌+◌, ◌≡◌, refl, List, map, some, ltb, ◌==◌, ◌&&◌, get_elem?, if◌then◌else◌}
use oserver.Bytes.{codes}
use oserver.HttpHeader.Fields.{http_header_fields}
use mathlib.Core.Option
use Prim.Native.String.{String}

pub data FieldId : Type 0 where
  header_accept header_accept_charset header_accept_encoding header_accept_language
        header_accept_ranges header_access_control_allow_credentials
        header_access_control_allow_headers header_access_control_allow_methods
        header_access_control_allow_origin header_access_control_expose_headers
        header_access_control_max_age header_access_control_request_headers
        header_access_control_request_method header_age header_allow header_alt_svc
        header_authorization header_cache_control header_clear_site_data header_connection
        header_content_disposition header_content_encoding header_content_language
        header_content_length header_content_location header_content_range
        header_content_security_policy header_content_security_policy_report_only
        header_content_type header_cookie header_cookie2 header_dnt header_date header_etag
        header_early_data header_expect header_expect_ct header_expires header_feature_policy
        header_forwarded header_from header_host header_if_match header_if_modified_since
        header_if_none_match header_if_range header_if_unmodified_since header_index
        header_keep_alive header_large_allocation header_last_modified header_location header_origin
        header_pragma header_proxy_authenticate header_proxy_authorization header_public_key_pins
        header_public_key_pins_report_only header_range header_referer header_referrer_policy
        header_retry_after header_sec_websocket_accept header_server header_server_timing
        header_set_cookie header_set_cookie2 header_sourcemap header_strict_transport_security
        header_te header_timing_allow_origin header_tk header_trailer header_transfer_encoding
        header_upgrade_insecure_requests header_user_agent header_vary header_via
        header_www_authenticate header_warning header_x_content_type_options
        header_x_dns_prefetch_control header_x_forwarded_for header_x_forwarded_host
        header_x_forwarded_proto header_x_frame_options header_x_xss_protection :
      FieldId

-- The number that C gives to the constant.
unfoldable pub number : FieldId → ℕ
number header_accept = 0
number header_accept_charset = 1
number header_accept_encoding = 2
number header_accept_language = 3
number header_accept_ranges = 4
number header_access_control_allow_credentials = 5
number header_access_control_allow_headers = 6
number header_access_control_allow_methods = 7
number header_access_control_allow_origin = 8
number header_access_control_expose_headers = 9
number header_access_control_max_age = 10
number header_access_control_request_headers = 11
number header_access_control_request_method = 12
number header_age = 13
number header_allow = 14
number header_alt_svc = 15
number header_authorization = 16
number header_cache_control = 17
number header_clear_site_data = 18
number header_connection = 19
number header_content_disposition = 20
number header_content_encoding = 21
number header_content_language = 22
number header_content_length = 23
number header_content_location = 24
number header_content_range = 25
number header_content_security_policy = 26
number header_content_security_policy_report_only = 27
number header_content_type = 28
number header_cookie = 29
number header_cookie2 = 30
number header_dnt = 31
number header_date = 32
number header_etag = 33
number header_early_data = 34
number header_expect = 35
number header_expect_ct = 36
number header_expires = 37
number header_feature_policy = 38
number header_forwarded = 39
number header_from = 40
number header_host = 41
number header_if_match = 42
number header_if_modified_since = 43
number header_if_none_match = 44
number header_if_range = 45
number header_if_unmodified_since = 46
number header_index = 47
number header_keep_alive = 48
number header_large_allocation = 49
number header_last_modified = 50
number header_location = 51
number header_origin = 52
number header_pragma = 53
number header_proxy_authenticate = 54
number header_proxy_authorization = 55
number header_public_key_pins = 56
number header_public_key_pins_report_only = 57
number header_range = 58
number header_referer = 59
number header_referrer_policy = 60
number header_retry_after = 61
number header_sec_websocket_accept = 62
number header_server = 63
number header_server_timing = 64
number header_set_cookie = 65
number header_set_cookie2 = 66
number header_sourcemap = 67
number header_strict_transport_security = 68
number header_te = 69
number header_timing_allow_origin = 70
number header_tk = 71
number header_trailer = 72
number header_transfer_encoding = 73
number header_upgrade_insecure_requests = 74
number header_user_agent = 75
number header_vary = 76
number header_via = 77
number header_www_authenticate = 78
number header_warning = 79
number header_x_content_type_options = 80
number header_x_dns_prefetch_control = 81
number header_x_forwarded_for = 82
number header_x_forwarded_host = 83
number header_x_forwarded_proto = 84
number header_x_frame_options = 85
number header_x_xss_protection = 86

-- The constant without its prefix.
abbrev pub spelling : FieldId → String
spelling header_accept = "accept"
spelling header_accept_charset = "accept_charset"
spelling header_accept_encoding = "accept_encoding"
spelling header_accept_language = "accept_language"
spelling header_accept_ranges = "accept_ranges"
spelling header_access_control_allow_credentials = "access_control_allow_credentials"
spelling header_access_control_allow_headers = "access_control_allow_headers"
spelling header_access_control_allow_methods = "access_control_allow_methods"
spelling header_access_control_allow_origin = "access_control_allow_origin"
spelling header_access_control_expose_headers = "access_control_expose_headers"
spelling header_access_control_max_age = "access_control_max_age"
spelling header_access_control_request_headers = "access_control_request_headers"
spelling header_access_control_request_method = "access_control_request_method"
spelling header_age = "age"
spelling header_allow = "allow"
spelling header_alt_svc = "alt_svc"
spelling header_authorization = "authorization"
spelling header_cache_control = "cache_control"
spelling header_clear_site_data = "clear_site_data"
spelling header_connection = "connection"
spelling header_content_disposition = "content_disposition"
spelling header_content_encoding = "content_encoding"
spelling header_content_language = "content_language"
spelling header_content_length = "content_length"
spelling header_content_location = "content_location"
spelling header_content_range = "content_range"
spelling header_content_security_policy = "content_security_policy"
spelling header_content_security_policy_report_only = "content_security_policy_report_only"
spelling header_content_type = "content_type"
spelling header_cookie = "cookie"
spelling header_cookie2 = "cookie2"
spelling header_dnt = "dnt"
spelling header_date = "date"
spelling header_etag = "etag"
spelling header_early_data = "early_data"
spelling header_expect = "expect"
spelling header_expect_ct = "expect_ct"
spelling header_expires = "expires"
spelling header_feature_policy = "feature_policy"
spelling header_forwarded = "forwarded"
spelling header_from = "from"
spelling header_host = "host"
spelling header_if_match = "if_match"
spelling header_if_modified_since = "if_modified_since"
spelling header_if_none_match = "if_none_match"
spelling header_if_range = "if_range"
spelling header_if_unmodified_since = "if_unmodified_since"
spelling header_index = "index"
spelling header_keep_alive = "keep_alive"
spelling header_large_allocation = "large_allocation"
spelling header_last_modified = "last_modified"
spelling header_location = "location"
spelling header_origin = "origin"
spelling header_pragma = "pragma"
spelling header_proxy_authenticate = "proxy_authenticate"
spelling header_proxy_authorization = "proxy_authorization"
spelling header_public_key_pins = "public_key_pins"
spelling header_public_key_pins_report_only = "public_key_pins_report_only"
spelling header_range = "range"
spelling header_referer = "referer"
spelling header_referrer_policy = "referrer_policy"
spelling header_retry_after = "retry_after"
spelling header_sec_websocket_accept = "sec_websocket_accept"
spelling header_server = "server"
spelling header_server_timing = "server_timing"
spelling header_set_cookie = "set_cookie"
spelling header_set_cookie2 = "set_cookie2"
spelling header_sourcemap = "sourcemap"
spelling header_strict_transport_security = "strict_transport_security"
spelling header_te = "te"
spelling header_timing_allow_origin = "timing_allow_origin"
spelling header_tk = "tk"
spelling header_trailer = "trailer"
spelling header_transfer_encoding = "transfer_encoding"
spelling header_upgrade_insecure_requests = "upgrade_insecure_requests"
spelling header_user_agent = "user_agent"
spelling header_vary = "vary"
spelling header_via = "via"
spelling header_www_authenticate = "www_authenticate"
spelling header_warning = "warning"
spelling header_x_content_type_options = "x_content_type_options"
spelling header_x_dns_prefetch_control = "x_dns_prefetch_control"
spelling header_x_forwarded_for = "x_forwarded_for"
spelling header_x_forwarded_host = "x_forwarded_host"
spelling header_x_forwarded_proto = "x_forwarded_proto"
spelling header_x_frame_options = "x_frame_options"
spelling header_x_xss_protection = "x_xss_protection"

-- A letter in lower case, and `_` for `-`: how a field's name is written in C.
abbrev pub identifier : List ℕ → List ℕ
identifier = map λ c. if ltb 64 c && ltb c 91 then c + 32 else if c == b'-' then b'_' else c

-- The entry of the table at the number of a constant is the field that the constant names: its name
-- is spelled as the constant is, but for case and dashes.
pub fields-number :
    (id : FieldId)
    → Option.map (λ f. identifier f.str) (get_elem? http_header_fields (number id))
      ≡ some (codes (spelling id))
unfolding http_header_fields number
fields-number header_accept = refl
fields-number header_accept_charset = refl
fields-number header_accept_encoding = refl
fields-number header_accept_language = refl
fields-number header_accept_ranges = refl
fields-number header_access_control_allow_credentials = refl
fields-number header_access_control_allow_headers = refl
fields-number header_access_control_allow_methods = refl
fields-number header_access_control_allow_origin = refl
fields-number header_access_control_expose_headers = refl
fields-number header_access_control_max_age = refl
fields-number header_access_control_request_headers = refl
fields-number header_access_control_request_method = refl
fields-number header_age = refl
fields-number header_allow = refl
fields-number header_alt_svc = refl
fields-number header_authorization = refl
fields-number header_cache_control = refl
fields-number header_clear_site_data = refl
fields-number header_connection = refl
fields-number header_content_disposition = refl
fields-number header_content_encoding = refl
fields-number header_content_language = refl
fields-number header_content_length = refl
fields-number header_content_location = refl
fields-number header_content_range = refl
fields-number header_content_security_policy = refl
fields-number header_content_security_policy_report_only = refl
fields-number header_content_type = refl
fields-number header_cookie = refl
fields-number header_cookie2 = refl
fields-number header_dnt = refl
fields-number header_date = refl
fields-number header_etag = refl
fields-number header_early_data = refl
fields-number header_expect = refl
fields-number header_expect_ct = refl
fields-number header_expires = refl
fields-number header_feature_policy = refl
fields-number header_forwarded = refl
fields-number header_from = refl
fields-number header_host = refl
fields-number header_if_match = refl
fields-number header_if_modified_since = refl
fields-number header_if_none_match = refl
fields-number header_if_range = refl
fields-number header_if_unmodified_since = refl
fields-number header_index = refl
fields-number header_keep_alive = refl
fields-number header_large_allocation = refl
fields-number header_last_modified = refl
fields-number header_location = refl
fields-number header_origin = refl
fields-number header_pragma = refl
fields-number header_proxy_authenticate = refl
fields-number header_proxy_authorization = refl
fields-number header_public_key_pins = refl
fields-number header_public_key_pins_report_only = refl
fields-number header_range = refl
fields-number header_referer = refl
fields-number header_referrer_policy = refl
fields-number header_retry_after = refl
fields-number header_sec_websocket_accept = refl
fields-number header_server = refl
fields-number header_server_timing = refl
fields-number header_set_cookie = refl
fields-number header_set_cookie2 = refl
fields-number header_sourcemap = refl
fields-number header_strict_transport_security = refl
fields-number header_te = refl
fields-number header_timing_allow_origin = refl
fields-number header_tk = refl
fields-number header_trailer = refl
fields-number header_transfer_encoding = refl
fields-number header_upgrade_insecure_requests = refl
fields-number header_user_agent = refl
fields-number header_vary = refl
fields-number header_via = refl
fields-number header_www_authenticate = refl
fields-number header_warning = refl
fields-number header_x_content_type_options = refl
fields-number header_x_dns_prefetch_control = refl
fields-number header_x_forwarded_for = refl
fields-number header_x_forwarded_host = refl
fields-number header_x_forwarded_proto = refl
fields-number header_x_frame_options = refl
fields-number header_x_xss_protection = refl
