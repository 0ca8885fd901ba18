-- ===== src/HttpVersion.antt =====
-- http_version.c and http_version.h: the parser and the printer of a message's version.
pub mod Parse
pub mod Print
use oserver.Prelude.{
  ℕ, zero, suc, ◌+◌, ◌-◌, Bool, true, false, ◌||◌, List, [], ◌∷◌, Option, none, some, ltb, ◌==◌,
  if◌then◌else◌, ℤ, pos, negsuc, take,
}
use oserver.Bytes.{Buffer, codes, Status, success, failure, match_loop}

-- `http_version_t`
pub data Version : Type 0 where
  version_1_0 version_1_1 version_none : Version

-- `http_version_str` and `http_line_delimiter`
abbrev pub http_version_str : List ℕ
http_version_str = codes "HTTP/1."

abbrev pub http_line_delimiter : List ℕ
http_line_delimiter = 13 ∷ 10 ∷ []

-- The returned code, `*parse_len` and `*v`.
abbrev pub Answer : Type 0
Answer = Status × ℕ × Version

-- `(http_version_t)(e_http_version_1_0 + (c - '0'))` for the two digits that pass the test.
abbrev pub version_of : ℕ → Version
version_of c = if c == b'0' then version_1_0 else version_1_1

-- After the second loop.
abbrev pub after_delimiter : ℕ × List ℕ × Bool → Buffer → Version → Answer
after_delimiter (t, [], true) buf v = (success, t, version_of (buf (t - 3)))
after_delimiter (t, c ∷ p, true) buf v = (success, 0, v)
after_delimiter (t, p, false) buf v = (failure, 0, v)

-- After the first loop: `t == end` is tested before `ok`.
unfoldable pub after_name : ℕ × List ℕ × Bool → Buffer → ℕ → Version → Answer
after_name (t, [], true) buf size v =
    if t == size
    then (success, 0, v)
    else if buf t == b'0' || buf t == b'1'
    then after_delimiter (match_loop buf (t + 1) (size - (t + 1)) http_line_delimiter) buf v
    else (failure, 0, v)
after_name (t, c ∷ p, true) buf size v = (success, 0, v)
after_name (t, p, false) buf size v = if t == size then (success, 0, v) else (failure, 0, v)

-- `parse_len` is what stands in `*parse_len`: with no buffer or no byte it is left as it is.
unfoldable pub http_version_parse : Option Buffer → ℤ → ℕ → Version → Answer
unfolding after_name
http_version_parse none size parse_len v = (success, parse_len, v)
http_version_parse (some buf) (pos zero) parse_len v = (success, parse_len, v)
http_version_parse (some buf) (negsuc n) parse_len v = (success, parse_len, v)
http_version_parse (some buf) (pos (suc n)) parse_len v =
    after_name (match_loop buf 0 (suc n) http_version_str) buf (suc n) v

unfoldable pub http_version_len : Version → ℕ
http_version_len ver = 9

abbrev pub version_text : Version → List ℕ
version_text version_1_0 = codes "HTTP/1.0 "
version_text version_1_1 = codes "HTTP/1.1 "
version_text version_none = codes "HTTP/1.1 "

-- The bytes that `strncpy` writes of the text when it is not shorter than `size`, and the result;
-- a longer buffer is filled up with 0, which no caller reads.
unfoldable pub http_version_to_str : Version → ℕ → List ℕ × ℕ
http_version_to_str ver size = (take size (version_text ver), (if ltb size 9 then size else 9))
