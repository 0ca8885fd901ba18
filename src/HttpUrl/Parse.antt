-- ===== src/HttpUrl/Parse.antt =====
-- `http_url_init`, `http_url_destory` and `http_url_parse` of http_url.c.
pub mod Whole
use oserver.Prelude.{
  ℕ, zero, suc, ◌+◌, ◌-◌, Bool, true, false, ◌&&◌, Option, none, some, List, [], ◌∷◌, ltb, leb,
  ◌==◌, if◌then◌else◌,
}
use oserver.Bytes.{Buffer, advance, codes, Status, success, failure}
use oserver.HttpHeader.Hash.{bytes}
use oserver.HttpHeader.Search.{strncasecmp_eq}
use oserver.HttpUrl.Path.{Segment, http_url_parse_path}
use oserver.HttpUrl.Query.{QueryItem, http_url_parse_query}

-- `http_url_t`. A pointer is an offset into the array `url`, `none` is `NULL`; `path` and `query` are
-- their `data`, `data_len` and elements.
pub record HttpUrl : Type 0 where
  pub host : Option ℕ
  pub host_len : ℕ
  pub port : Option ℕ
  pub port_len : ℕ
  pub path : Option ℕ
  pub path_len : ℕ
  pub path_stack : List Segment
  pub query : Option ℕ
  pub query_len : ℕ
  pub query_list : List QueryItem
  pub url : Buffer

unfoldable pub http_url_init : HttpUrl
http_url_init = record {
  host = none;
  host_len = 0;
  port = none;
  port_len = 0;
  path = none;
  path_len = 0;
  path_stack = [];
  query = none;
  query_len = 0;
  query_list = [];
  url = λ i. 0;
}

-- What is freed, and the URL afterwards.
unfoldable pub http_url_destory : HttpUrl → List Segment × List QueryItem × HttpUrl
http_url_destory url = (url.path_stack, url.query_list, http_url_init)

-- `sizeof(url->url)`
abbrev pub url_size : ℕ
url_size = 1024

-- How the first loop ends: at a 0, at the first blank, or without one.
pub data Scan : Type 0 where
  at_nul : Scan
  at_blank : ℕ → Scan
  at_end : Scan

unfoldable pub scan : Buffer → ℕ → ℕ → Scan
scan buf zero i = at_end
scan buf (suc n) i =
    let rest = scan buf n (i + 1) in
    if buf i == 0 then at_nul else if buf i == b' ' then at_blank i else rest

-- `memcpy(url->url, data, url_len)` and the final 0.
abbrev pub copied : Buffer → ℕ → Buffer → Buffer
copied buf len old i = if ltb i len then buf i else if i == len then 0 else old i

-- `strstr(u + t, "//")` and `strchr(u + t, '/')` of string.h, with the bytes that are left of the
-- array. Its last byte is 0, since nothing but a 0 is written there.
unfoldable pub find_slashes : Buffer → ℕ → ℕ → Option ℕ
find_slashes u zero t = none
find_slashes u (suc n) t =
    let rest = find_slashes u n (t + 1) in
    if u t == 0 then none else if (u t == b'/') && (u (t + 1) == b'/') then some t else rest

unfoldable pub find_slash : Buffer → ℕ → ℕ → Option ℕ
find_slash u zero t = none
find_slash u (suc n) t =
    let rest = find_slash u n (t + 1) in
    if u t == 0 then none else if u t == b'/' then some t else rest

-- Where the path begins, with the host that has been found, or what is returned before the path.
pub data Start : Type 0 where
  starts : ℕ → HttpUrl → Start
  returns : Status → HttpUrl → Start

unfoldable pub find_path_from : ℕ → ℕ → HttpUrl → Start
unfolding find_slashes find_slash
find_path_from len urlp url = elim (find_slashes url.url (url_size - urlp) urlp) [
  | some p ↦ elim (find_slash url.url (url_size - (p + 2)) (p + 2)) [
    | some q ↦ starts (q + 1) (record url { host = some (p + 2); host_len = q - (p + 2) })
    | none ↦ returns success (record url { host = some (p + 2); host_len = len - (p + 2) })
  ]
  | none ↦
      if url.url urlp == b'/'
      then starts (urlp + 1) url
      else if url.url urlp == 0
      then returns success url
      else returns failure url
]

-- `sizeof(HTTP_SCHEME)` counts the final 0, so the scheme is skipped, with the 0 behind it, where it
-- is the whole URL.
unfoldable pub find_path : ℕ → HttpUrl → Start
unfolding find_path_from
find_path len url =
    find_path_from len (if strncasecmp_eq (bytes url.url 6) (codes "http:") then 6 else 0) url

-- The returned code, `*parse_len` and the URL. `none` is a fault: a negative size for the path, or
-- one of the query.
abbrev pub Answer : Type 0
Answer = Option (Status × ℕ × HttpUrl)

-- The query, if there is one at `urlp`.
unfoldable pub url_query : ℕ → ℕ → HttpUrl → Answer
url_query len urlp url =
    if url.url urlp == b'?'
    then elim (http_url_parse_query (advance url.url (urlp + 1)) (len - urlp - 1) url.query_list) [
      | none ↦ none
      | some (query_len, items) ↦ some (
        success,
        len + 1,
        record url { query = some (urlp + 1); query_len = query_len; query_list = items },
      )
    ]
    else some (success, len + 1, url)

-- `path->data_len`, which an error and an empty path leave as it is.
abbrev pub path_len_after : Status → ℕ → ℕ → ℕ → ℕ
path_len_after failure size read_len before = before
path_len_after success zero read_len before = before
path_len_after success (suc n) read_len before = read_len

-- The path and what follows it.
unfoldable pub url_path : ℕ → Start → Answer
unfolding url_query
url_path len (returns code url) = some (code, len + 1, url)
url_path len (starts urlp url) =
    let (code, read_len, stack) =
      http_url_parse_path (advance url.url urlp) (len - urlp) url.path_stack in
    let url' = record url {
      path = some urlp;
      path_len = path_len_after code (len - urlp) read_len url.path_len;
      path_stack = stack;
    } in
    if leb urlp len
    then elim code [
      | failure ↦ some (failure, len + 1, url')
      | success ↦ url_query len (urlp + read_len) url'
    ]
    else none

-- What follows the first loop.
unfoldable pub url_scanned : Buffer → HttpUrl → Scan → Answer
unfolding find_path url_path
url_scanned buf url at_nul = some (failure, 0, url)
url_scanned buf url at_end = some (success, 0, url)
url_scanned buf url (at_blank len) =
    if len == 0
    then some (success, 0, url)
    else if leb url_size len
    then some (failure, 0, url)
    else url_path len (find_path len (record url { url = copied buf len url.url }))

-- A negative size is as 0.
unfoldable pub http_url_parse : Buffer → ℕ → HttpUrl → Answer
unfolding scan url_scanned
http_url_parse buf size url = url_scanned buf url (scan buf size 0)
