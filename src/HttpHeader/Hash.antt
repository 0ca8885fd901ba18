-- ===== src/HttpHeader/Hash.antt =====
-- The 16-bit hash of a field's name, `http_header_hash` and `http_header_n_hash` of http_header.c.
use Prim.Native.Nat.{bit_xor}
use oserver.Prelude.{
  ℕ, zero, suc, ◌+◌, ◌-◌, ◌*◌, ◌%◌, ◌≡◌, refl, List, [], ◌∷◌, map, ltb, leb, ◌&&◌, if◌then◌else◌,
  arith,
}
use oserver.Bytes.{Buffer, advance}

-- `tolower` of ctype.h in the C locale.
abbrev pub tolower : ℕ → ℕ
tolower c = if leb b'A' c && leb c b'Z' then c + 32 else c

-- The 16-bit pattern of a `char`, which is signed.
abbrev pub extend : ℕ → ℕ
extend c = if ltb c 128 then c else c + 0xff00

-- `hash ^= c - 0x30; hash += c << 8;` on the bit pattern of an `int16_t`.
unfoldable pub hash_step : ℕ → ℕ → ℕ
hash_step hash p =
    let c = extend (tolower p) in
    (bit_xor hash ((c + 0x10000 - 0x30) % 0x10000) + c * 256) % 0x10000

unfoldable pub hash_from : ℕ → List ℕ → ℕ
hash_from hash [] = hash
hash_from hash (p ∷ str) = hash_from (hash_step hash p) str

-- `str` is a C string without its final 0.
unfoldable pub http_header_hash : List ℕ → ℕ
unfolding hash_from hash_step
http_header_hash str = hash_from 0 str

-- The `len` bytes at `bin`, with `hash` for the bytes before.
unfoldable pub n_hash_from : ℕ → Buffer → ℕ → ℕ
n_hash_from hash bin zero = hash
n_hash_from hash bin (suc len) = n_hash_from (hash_step hash (bin 0)) (advance bin 1) len

unfoldable pub http_header_n_hash : Buffer → ℕ → ℕ
unfolding n_hash_from hash_step
http_header_n_hash bin len = n_hash_from 0 bin len

-- The bytes of a range of a buffer.
unfoldable pub bytes : Buffer → ℕ → List ℕ
bytes bin zero = []
bytes bin (suc len) = bin 0 ∷ bytes (advance bin 1) len

n_hash_from-bytes :
    (hash : ℕ) (bin : Buffer) (len : ℕ) → n_hash_from hash bin len ≡ hash_from hash (bytes bin len)
unfolding n_hash_from hash_from bytes
n_hash_from-bytes hash bin zero = refl
n_hash_from-bytes hash bin (suc len) =
    n_hash_from-bytes (hash_step hash (bin 0)) (advance bin 1) len

-- The two functions agree on the same bytes.
pub n_hash-bytes :
    (bin : Buffer) (len : ℕ) → http_header_n_hash bin len ≡ http_header_hash (bytes bin len)
unfolding http_header_n_hash http_header_hash
n_hash-bytes bin len = n_hash_from-bytes 0 bin len

tolower_twice : (c : ℕ) → tolower (tolower c) ≡ tolower c
tolower_twice c = ground arith

hash_step-tolower : (hash c : ℕ) → hash_step hash (tolower c) ≡ hash_step hash c
unfolding hash_step
hash_step-tolower hash c = rw (tolower_twice c)

hash_from-tolower :
    (hash : ℕ) (str : List ℕ) → hash_from hash (map tolower str) ≡ hash_from hash str
unfolding hash_from
hash_from-tolower hash [] = refl
hash_from-tolower hash (c ∷ str) =
    rw (hash_step-tolower hash c, hash_from) (hash_from-tolower (hash_step hash c) str)

-- The hash does not see the case of a letter.
pub hash-tolower : (str : List ℕ) → http_header_hash (map tolower str) ≡ http_header_hash str
unfolding http_header_hash
hash-tolower str = hash_from-tolower 0 str
