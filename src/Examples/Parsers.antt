-- ===== src/Examples/Parsers.antt =====
-- Runs of the parsers of a request's first line, and their theorems at concrete buffers.
use oserver.Prelude.{
  ℕ, ◌≤◌, ◌≡◌, refl, List, [], ◌∷◌, length, get_or, some, arith, pos, inl, inr, ◌⊎◌,
}
use oserver.Bytes.{Buffer, codes, success, failure, At, match_loop}
use oserver.HttpMethod.{http_get, http_none, http_method_str, http_method_parse}
use oserver.HttpMethod.Parse.{
  IsServed, method_parse-served, method_parse_sound, method_parse-refused,
}
use oserver.HttpVersion.{
  version_1_0, version_1_1, version_none, http_version_str, http_version_parse,
}
use oserver.HttpVersion.Parse.{version_parse-line, version_parse_sound}

abbrev buffer : List ℕ → Buffer
buffer bs i = get_or bs i 255

abbrev get_line : Buffer
get_line = buffer (codes "GET /")

method_parse-served_example :
    http_method_parse (some get_line) (pos 5) http_none ≡ (success, 4, http_get)
unfolding http_method_str
method_parse-served_example =
    method_parse-served get_line 5 http_none http_get tt (refl, (refl, (refl, (refl, tt))))
      (omega arith)

get_run : http_method_parse (some get_line) (pos 5) http_none ≡ (success, 4, http_get)
unfolding http_method_parse http_method_str match_loop
get_run = refl

method_parse_sound_example :
    IsServed http_get
    × At get_line 0 (http_method_str http_get)
    × (◌≡◌ {A = ℕ} 4 (length (http_method_str http_get)))
    × (4 ≤ 5)
method_parse_sound_example =
    method_parse_sound get_line 5 http_none http_get 4 get_run (omega arith)

method_parse-refused_example :
    http_method_parse (some (buffer (codes "POST"))) (pos 1) http_none ≡ (failure, 0, http_none)
method_parse-refused_example =
    method_parse-refused (buffer (codes "POST")) 1 http_none (inl (refl, refl))

abbrev version_line : Buffer
version_line = buffer (b'H' ∷ b'T' ∷ b'T' ∷ b'P' ∷ b'/' ∷ b'1' ∷ b'.' ∷ b'1' ∷ 13 ∷ 10 ∷ [])

version_line-At : At version_line 0 http_version_str
version_line-At = (refl, (refl, (refl, (refl, (refl, (refl, (refl, tt)))))))

version_parse-line_example :
    http_version_parse (some version_line) (pos 10) 0 version_none ≡ (success, 10, version_1_1)
version_parse-line_example =
    version_parse-line version_line 10 0 b'1' version_none version_line-At (inr refl) refl refl refl
      (omega arith)

version_parse_sound_example :
    (◌≡◌ {A = ℕ} 10 10)
    × (10 ≤ 10)
    × At version_line 0 http_version_str
    × ((version_line 7 ≡ b'0') × (version_1_1 ≡ version_1_0)
        ⊎ (version_line 7 ≡ b'1') × (version_1_1 ≡ version_1_1))
    × (version_line 8 ≡ 13)
    × (version_line 9 ≡ 10)
version_parse_sound_example =
    version_parse_sound version_line 10 0 10 version_none version_1_1 (omega arith)
      version_parse-line_example (omega arith)
