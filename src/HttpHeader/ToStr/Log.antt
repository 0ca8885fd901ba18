-- ===== src/HttpHeader/ToStr/Log.antt =====
-- The texts that `http_request_log` of http_request.c and `http_response_log` of http_response.c write
-- into a buffer of their own; both fill it in the same way.
use oserver.Prelude.{
  ℕ, ◌+◌, ◌-◌, ◌<◌, ◌≡◌, refl, ap, ◌∙◌, false, Option, none, some, List, [], ◌∷◌, length,
  length-append, arith, pos_part, ℤ, pos, ◌+ℤ◌, ◌-ℤ◌, +ℤ-pos, -ℤ-pos,
}
use oserver.Btree.Contents.{entries}
use oserver.HttpVersion.{Version, version_text, http_version_len, http_version_to_str}
use oserver.HttpHeader.Collection.{Headers, http_header_len, root_key}
use oserver.HttpHeader.Collection.Insert.{IsCollection}
use oserver.HttpHeader.Collection.Length.{text_len, len-text_len}
use oserver.HttpHeader.ToStr.{Written, http_header_to_str}
use oserver.HttpVersion.Print.{length-version_text, version_to_str-text}
use oserver.HttpHeader.ToStr.Text.{header_text, header_text-le}
use oserver.HttpHeader.ToStr.Whole.{whole_text, to_str-whole_text}

-- The size of the buffer, the text that stands in front of `buf[len] = 0`, the offset of `hptr`, and
-- what is written there in front of `hptr[len] = 0`.
pub record Logged : Type 0 where
  pub size : ℤ
  pub buf : List ℕ
  pub hptr : ℕ
  pub headers : Written

-- The text of the version, its length, and what `http_header_to_str` gives behind it.
abbrev placed : ℤ → List ℕ × ℕ → Option Written → Option Logged
placed size (buf, len) none = none
placed size (buf, len) (some w) =
    some (record { size = size; buf = buf; hptr = len + 1; headers = w })

-- From `malloc(size)` on.
abbrev fill : Version → Headers → ℤ → Option Logged
fill version headers size =
    let (buf, len) = http_version_to_str version (pos_part size) in
    placed size (buf, len) (http_header_to_str headers (size -ℤ pos (len + 1)) false)

-- From `http_header_len` on; `none` is a fault.
abbrev log_with : Version → Headers → Option ℤ → Option Logged
log_with version headers none = none
log_with version headers (some header_len) =
    fill version headers (header_len +ℤ pos (http_version_len version) +ℤ pos 2)

-- Of a message with this version and these headers.
unfoldable pub message_log : Version → Headers → Option Logged
message_log version headers = log_with version headers (http_header_len headers)

-- What `log_with` makes where there is nothing wrong with the headers.
abbrev pub whole_log : Version → Headers → Logged
whole_log version headers = record {
  size = pos (13 + text_len (entries headers.header_tree));
  buf = version_text version;
  hptr = 10;
  headers = whole_text headers;
}

-- Both texts with the 0 behind them lie in the buffer, the second behind the first: the second 0 is
-- put at `hptr[len]`, where `len` is what `http_header_to_str` has returned, right behind what it has
-- written.
abbrev pub IsInBuffer : Logged → Type 0
IsInBuffer l =
    (size len : ℕ) × (l.size ≡ pos size)
    × (length l.buf < l.hptr)
    × (l.headers.len ≡ pos len)
    × (length l.headers.written ≡ len)
    × (l.hptr + len < size)

pub log-whole_log :
    (version : Version) (headers : Headers)
    → IsCollection headers
    → headers.traverse_ptr ≡ root_key headers.header_tree
    → message_log version headers ≡ some (whole_log version headers)
unfolding message_log http_version_len
log-whole_log version headers c at =
    let len = text_len (entries headers.header_tree) in
    let sum : 2 + len + 9 + 2 ≡ 13 + len = omega arith in
    let size : pos (2 + len) +ℤ pos 9 +ℤ pos 2 ≡ pos (13 + len) =
      rw (+ℤ-pos (2 + len) 9, +ℤ-pos (2 + len + 9) 2, sum) refl in
    let z = pos (13 + len) in
    ap (log_with version headers) (len-text_len headers c)
    ∙ ap (fill version headers) size
    ∙ ap (λ (p : List ℕ × ℕ). placed z p (http_header_to_str headers (z -ℤ pos (p.1 + 1)) false))
        (version_to_str-text version (13 + len) (omega arith))
    ∙ ap (λ (room : ℤ). placed z (version_text version, 9) (http_header_to_str headers room false))
        (-ℤ-pos (13 + len) 10 (omega arith))
    ∙ ap (placed z (version_text version, 9))
        (to_str-whole_text headers (13 + len - 10) false c at (omega arith))

-- A log of a message whose headers are a collection, with the walk of them at the root, meets no
-- fault. Both texts lie in the buffer that it allocates, with the 0 behind each: the
-- second one is put where the returned length says, which is the length of the text.
pub log-IsInBuffer :
    (version : Version) (headers : Headers)
    → IsCollection headers
    → headers.traverse_ptr ≡ root_key headers.header_tree
    → (l : Logged) × (message_log version headers ≡ some l) × IsInBuffer l
log-IsInBuffer version headers c at =
    let es = entries headers.header_tree in
    let text = length-append (header_text es) (13 ∷ 10 ∷ []) in
    (
      whole_log version headers,
      log-whole_log version headers c at,
      (
        13 + text_len es,
        2 + length (header_text es),
        refl,
        omega (arith, length-version_text version),
        refl,
        omega (arith, text),
        omega (arith, header_text-le es),
      ),
    )
