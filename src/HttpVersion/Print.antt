-- ===== src/HttpVersion/Print.antt =====
-- The printer of versions of http_version.c.
use oserver.Prelude.{ℕ, ◌≤◌, ◌≡◌, refl, take_whole, length, arith}
use oserver.HttpVersion.{
  Version, version_1_0, version_1_1, version_none, version_text, http_version_to_str,
}

pub length-version_text : (v : Version) → length (version_text v) ≡ 9
length-version_text version_1_0 = refl
length-version_text version_1_1 = refl
length-version_text version_none = refl

-- With room for the text the whole text is written.
pub version_to_str-text :
    (v : Version) (n : ℕ) → 9 ≤ n → http_version_to_str v n ≡ (version_text v, 9)
unfolding http_version_to_str
version_to_str-text v n h =
    rw (take_whole n (version_text v) (omega (arith, h, length-version_text v))) (ground (arith, h))
