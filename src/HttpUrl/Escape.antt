-- ===== src/HttpUrl/Escape.antt =====
-- The two conversions of http_url.c undo each other.
use oserver.Prelude.{
  ℕ, ◌+◌, ◌*◌, ◌/◌, ◌%◌, ◌<◌, ◌≡◌, refl, ap, ◌∙◌, Bool, true, false, not, ◌&&◌, some, List, [], ◌∷◌,
  All, ◌==◌, if◌then◌else◌, get_or, length, arith, ==_iff, Bool-cases, inl, inr, holds_under,
  holds_under-at,
}
use oserver.HttpUrl.{
  is_alnum, http_hex, http_hex_char_to_num, http_url_unescape, http_url_escape, escaped_len,
  is_negative,
}

-- A byte that needs no escape is no `%`; the two digits of any other stand for it.
decodes : ℕ → Bool
decodes c =
    let x = http_hex_char_to_num (get_or http_hex (c / 16) 0) in
    let y = http_hex_char_to_num (get_or http_hex (c % 16) 0) in
    if is_alnum c
    then not (c == b'%')
    else not (is_negative x) && not (is_negative y) && ((x * 16 + y) % 256 == c)

decodes_table : holds_under decodes 128 ≡ true
unfolding decodes is_alnum http_hex_char_to_num holds_under
decodes_table = refl

coded_tests :
    (alnum neg neg' same plain : Bool)
    → alnum ≡ false
    → (if alnum then plain else (not neg && not neg' && same)) ≡ true
    → (neg ≡ false) × (neg' ≡ false) × (same ≡ true)
coded_tests alnum neg neg' same plain e h = ground arith

decodes_coded :
    (c : ℕ)
    → is_alnum c ≡ false
    → decodes c ≡ true
    → (is_negative (http_hex_char_to_num (get_or http_hex (c / 16) 0)) ≡ false)
      × (is_negative (http_hex_char_to_num (get_or http_hex (c % 16) 0)) ≡ false)
      × (((http_hex_char_to_num (get_or http_hex (c / 16) 0) * 16
                + http_hex_char_to_num (get_or http_hex (c % 16) 0))
              % 256
            == c)
          ≡ true)
unfolding decodes
decodes_coded c e h = coded_tests (is_alnum c) _ _ _ (not (c == b'%')) e h

unescape_plain :
    (c : ℕ) (t u : List ℕ)
    → (c == b'%') ≡ false
    → http_url_unescape t ≡ some u
    → http_url_unescape (c ∷ t) ≡ some (c ∷ u)
unfolding http_url_unescape
unescape_plain c [] u h e = ground (arith)
unescape_plain c (d ∷ []) u h e = rw (h, e) refl
unescape_plain c (d ∷ d' ∷ t) u h e = rw (h, e) refl

unescape_coded :
    (d d' : ℕ) (t u : List ℕ)
    → is_negative (http_hex_char_to_num d) ≡ false
    → is_negative (http_hex_char_to_num d') ≡ false
    → http_url_unescape t ≡ some u
    → http_url_unescape (b'%' ∷ d ∷ d' ∷ t)
      ≡ some ((http_hex_char_to_num d * 16 + http_hex_char_to_num d') % 256 ∷ u)
unfolding http_url_unescape
unescape_coded d d' t u h h' e = rw (h, h', e) refl

-- What is escaped, how it is decoded, and the room that is allocated for it.
abbrev pub EscapedAs : List ℕ → List ℕ → Type 0
EscapedAs s t =
    (http_url_escape s ≡ some t) × (http_url_unescape t ≡ some s) × (escaped_len s ≡ length t + 1)

-- Every string of ASCII bytes is escaped, what is allocated has room for exactly that and the final
-- 0, and the decoding gives the string back.
pub escape-EscapedAs : (s : List ℕ) → All (λ c. c < 128) s → (t : List ℕ) × EscapedAs s t
unfolding http_url_escape escaped_len
escape-EscapedAs [] a = ([], (refl, unfold http_url_unescape in refl, refl))
escape-EscapedAs (c ∷ s) a =
    let (t, (escaped, back, room)) = escape-EscapedAs s a.1 in
    let x = get_or http_hex (c / 16) 0 in
    let y = get_or http_hex (c % 16) 0 in
    let ok = holds_under-at decodes c 128 a.0 decodes_table in
    elim (Bool-cases (is_alnum c)) [
      | inl plain ↦ (
        c ∷ t,
        (
          rw (plain, escaped) refl,
          unescape_plain c t s (unfold decodes in ground (arith, plain, ok)) back,
          rw (plain) (omega (arith, room)),
        ),
      )
      | inr coded ↦
          let (is_digit, is_digit', e) = decodes_coded c coded ok in
          let same =
            (==_iff ((http_hex_char_to_num x * 16 + http_hex_char_to_num y) % 256) c).0 e in
          let ascii : is_negative c ≡ false = ground (arith, a.0) in
          (
            b'%' ∷ x ∷ y ∷ t,
            (
              rw (coded, ascii, escaped) refl,
              unescape_coded x y t s is_digit is_digit' back ∙ ap (λ n. some (n ∷ s)) same,
              rw (coded) (omega (arith, room)),
            ),
          )
    ]
