-- ===== src/HttpVersion/Parse.antt =====
-- What `http_version_parse` of http_version.c accepts, awaits and refuses
use oserver.Prelude.{
  ℕ, zero, suc, ◌+◌, ◌-◌, ◌≤◌, ◌<◌, ◌≡◌, refl, ap, ◌∙◌, sym, subst, ◌≢◌, Bool, true, false, List,
  [], ◌∷◌, ◌++◌, length, some, arith, ◌==◌, pos, ◌⊎◌, inl, inr, Bool-cases, ◌||◌,
}
use oserver.Bytes.{Buffer, success, match_loop, At}
use oserver.Bytes.Match.{match_loop_full, match_loop_last, match_loop_found}
use oserver.HttpVersion.{
  Version, version_1_0, version_1_1, version_of, http_version_str, http_line_delimiter,
  http_version_parse, after_name, after_delimiter, Answer,
}

-- A line `HTTP/1.0` or `HTTP/1.1` with its line end is parsed, and 10 bytes are used.
pub version_parse-line :
    (buf : Buffer) (n l d : ℕ) (v : Version)
    → At buf 0 http_version_str
    → (d ≡ b'0') ⊎ (d ≡ b'1')
    → buf 7 ≡ d
    → buf 8 ≡ 13
    → buf 9 ≡ 10
    → 10 ≤ n
    → http_version_parse (some buf) (pos n) l v ≡ (success, 10, version_of d)
unfolding http_version_parse
version_parse-line buf zero l d v a k e r f h = absurd (omega arith)
version_parse-line buf (suc n) l d v a k e r f h = ground (
  arith,
  match_loop_full buf 0 (suc n) http_version_str,
  match_loop_full buf 8 (suc n - 8) http_line_delimiter,
)

after_delimiter_found :
    (r : ℕ × List ℕ × Bool) (buf : Buffer) (v w : Version) (k : ℕ)
    → after_delimiter r buf v ≡ (success, k, w)
    → 0 < k
    → (r ≡ (k, [], true)) × (w ≡ version_of (buf (k - 3)))
after_delimiter_found (t, [], true) buf v w k e h = ground arith
after_delimiter_found (t, c ∷ p, true) buf v w k e h = ground arith
after_delimiter_found (t, p, false) buf v w k e h = ground arith

-- What the second part of the parser is called on, when it reports a length.
abbrev Digit : ℕ × List ℕ × Bool → Buffer → ℕ → Version → Version → ℕ → ℕ → Type 0
Digit r buf n v w k t =
    (r ≡ (t, [], true))
    × (t ≢ n)
    × ((buf t ≡ b'0') ⊎ (buf t ≡ b'1'))
    × (after_delimiter (match_loop buf (t + 1) (n - (t + 1)) http_line_delimiter) buf v
        ≡ (success, k, w))

after_name_found :
    (r : ℕ × List ℕ × Bool) (buf : Buffer) (n : ℕ) (v w : Version) (k : ℕ)
    → after_name r buf n v ≡ (success, k, w)
    → 0 < k
    → Digit r buf n v w k r.0
unfolding after_name
after_name_found (t, [], true) buf n v w k e h =
    let o = after_delimiter (match_loop buf (t + 1) (n - (t + 1)) http_line_delimiter) buf v in
    elim (Bool-cases (t == n)) [
      | inl same ↦ absurd (omega (arith, ap (λ (x : Answer). x.1) (rw same at e)))
      | inr other ↦ elim (Bool-cases (buf t == b'0' || buf t == b'1')) [
        | inl digit ↦ (refl, ground arith, ground arith, (rw (other, digit) at e))
        | inr bad ↦ absurd (omega (arith, ap (λ (x : Answer). x.1) (rw (other, bad) at e)))
      ]
    ]
after_name_found (t, c ∷ p, true) buf n v w k e h = ground arith
after_name_found (t, [], false) buf n v w k e h = ground arith
after_name_found (t, c ∷ p, false) buf n v w k e h = ground arith

-- Where there is at least one byte to parse, a length that is not 0 is reported for a full line
-- `HTTP/1.0` or `HTTP/1.1` with its line end alone: it is 10, the buffer has as many bytes, and the
-- version is that of the line. Where there is none, success comes with the length and the version that
-- stood there before.
pub version_parse_sound :
    (buf : Buffer) (n l k : ℕ) (v w : Version)
    → 0 < n
    → http_version_parse (some buf) (pos n) l v ≡ (success, k, w)
    → 0 < k
    → (k ≡ 10)
      × (10 ≤ n)
      × At buf 0 http_version_str
      × ((buf 7 ≡ b'0') × (w ≡ version_1_0) ⊎ (buf 7 ≡ b'1') × (w ≡ version_1_1))
      × (buf 8 ≡ 13)
      × (buf 9 ≡ 10)
unfolding http_version_parse
version_parse_sound buf zero l k v w some_byte e h = absurd (omega arith)
version_parse_sound buf (suc n) l k v w some_byte e h =
    let r = match_loop buf 0 (suc n) http_version_str in
    let (found, more, digit, next) = after_name_found r buf (suc n) v w k e h in
    let (name, fits, seven) = match_loop_found buf 0 (suc n) http_version_str r.0 found in
    let e7 : r.0 ≡ 7 = omega arith in
    let (found', version) =
      after_delimiter_found (match_loop buf 8 (suc n - 8) http_line_delimiter) buf v w k
        (rw e7 at next) h in
    let (line, fits', ten) = match_loop_found buf 8 (suc n - 8) http_line_delimiter k found' in
    let digit7 : (buf 7 ≡ b'0') ⊎ (buf 7 ≡ b'1') = rw e7 at digit in
    let version7 : w ≡ version_of (buf 7) = rw ten at version in
    (
      ten,
      omega arith,
      name,
      elim digit7 [ inl d ↦ inl (d, (version7 ∙ rw d)) | inr d ↦ inr (d, (version7 ∙ rw d)) ],
      line.0,
      line.1.0,
    )

after_name_end :
    (r : ℕ × List ℕ × Bool) (buf : Buffer) (n : ℕ) (v : Version)
    → r.0 ≡ n
    → after_name r buf n v ≡ (success, 0, v)
unfolding after_name
after_name_end (t, [], true) buf n v e = ground arith
after_name_end (t, c ∷ p, true) buf n v e = refl
after_name_end (t, [], false) buf n v e = ground arith
after_name_end (t, c ∷ p, false) buf n v e = ground arith

-- A buffer that ends inside the name, or right behind it, is not refused; nor is one whose first
-- wrong byte is its last, since the end is tested before the comparison is.
pub version_parse-waits :
    (buf : Buffer) (n l : ℕ) (v : Version) (p : List ℕ) (c : ℕ) (q : List ℕ)
    → http_version_str ≡ p ++ c ∷ q
    → At buf 0 p
    → n ≡ length p + 1
    → http_version_parse (some buf) (pos n) l v ≡ (success, 0, v)
unfolding http_version_parse
version_parse-waits buf zero l v p c q e a h = absurd (omega arith)
version_parse-waits buf (suc n) l v p c q e a h =
    let used : (match_loop buf 0 (suc n) (p ++ c ∷ q)).0 ≡ suc n =
      omega (arith, match_loop_last buf 0 (suc n) p c q a h) in
    after_name_end (match_loop buf 0 (suc n) http_version_str) buf (suc n) v
      (subst (λ s. (match_loop buf 0 (suc n) s).0 ≡ suc n) (sym e) used)
