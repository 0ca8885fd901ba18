-- ===== src/Server/Process/Values.antt =====
-- The values of the headers that server.c adds.
use oserver.Prelude.{
  ℕ, zero, suc, ◌+◌, ◌/◌, ◌%◌, ◌<◌, ◌≤◌, ◌≡◌, ◌≢◌, refl, true, lt→ltb, ap, Option, none, some, List,
  [], ◌∷◌, ◌++◌, ◌==◌, length, length-append, All, arith, ltb, Bool-cases, inl, inr, ℤ, pos, negsuc,
}
use oserver.Bytes.{codes}
use oserver.HttpHeader.ToStr.{cstring}
use oserver.HttpHeader.ToStr.Text.{cstring-le}
use oserver.HttpUrl.Parse.{HttpUrl}
use oserver.Server.Files.{
  path_size, fits, digits, decimal, written_path, file_path, file_type, is_image, last_dot,
  content_type,
}
use oserver.Server.Process.Headers.{IsValue}

abbrev NoNul : List ℕ → Type 0
NoNul s = All (λ c. c ≢ 0) s

IsValue-of : (s : List ℕ) → NoNul s → s ≢ [] → length s < 32768 → IsValue s
IsValue-of [] h ne small = absurd (ne refl)
IsValue-of (c ∷ s) h ne small = (h, small)

NoNul-append : (s t : List ℕ) → NoNul s → NoNul t → NoNul (s ++ t)
NoNul-append [] t h k = k
NoNul-append (c ∷ s) t h k = (h.0, NoNul-append s t h.1 k)

digits-NoNul : (fuel n : ℕ) → NoNul (digits fuel n)
unfolding digits
digits-NoNul zero n = tt
digits-NoNul (suc fuel) n = elim (Bool-cases (ltb n 10)) [
  | inl e ↦ rw (e) ((λ z. omega (arith, z)), tt)
  | inr e ↦ rw (e) (
      NoNul-append (digits fuel (n / 10)) ((b'0' + n % 10) ∷ []) (digits-NoNul fuel (n / 10))
        ((λ z. omega (arith, z)), tt))
]

length-digits : (fuel n : ℕ) → length (digits fuel n) ≤ fuel
unfolding digits
length-digits zero n = omega arith
length-digits (suc fuel) n = elim (Bool-cases (ltb n 10)) [
  | inl e ↦ rw (e) (omega arith)
  | inr e ↦ rw (e) (
      omega (
        arith,
        length-append (digits fuel (n / 10)) ((b'0' + n % 10) ∷ []),
        length-digits fuel (n / 10),
      ))
]

digits-some : (fuel n : ℕ) → 0 < length (digits (suc fuel) n)
unfolding digits
digits-some fuel n = elim (Bool-cases (ltb n 10)) [
  | inl e ↦ rw (e) (omega arith)
  | inr e ↦ rw (e) (omega (arith, length-append (digits fuel (n / 10)) ((b'0' + n % 10) ∷ [])))
]

pub decimal-IsValue : (z : ℤ) → IsValue (decimal z)
unfolding decimal
decimal-IsValue (pos n) =
    IsValue-of (digits 10 n) (digits-NoNul 10 n) (λ e. omega (arith, digits-some 9 n, ap length e))
      (omega (arith, length-digits 10 n))
decimal-IsValue (negsuc n) =
    (((λ z. omega (arith, z)), digits-NoNul 10 (suc n)), omega (arith, length-digits 10 (suc n)))

-- What stands behind the last dot of a text is no longer than the text.
Within : List ℕ → Option (List ℕ) → Type 0
Within s none = Unit
Within s (some t) = NoNul t × (length t ≤ length s)

last_dot-Within :
    (c : ℕ) (s : List ℕ) (o : Option (List ℕ))
    → NoNul s
    → Within s o
    → Within (c ∷ s) (last_dot c s o)
unfolding Within
last_dot-Within c s (some t) h w = (w.0, omega (arith, w.1))
last_dot-Within c s none h w = elim (Bool-cases (c == b'.')) [
  | inl e ↦ rw (e) (h, omega arith)
  | inr e ↦ rw (e) tt
]

file_type-Within : (s : List ℕ) → NoNul s → Within s (file_type s)
unfolding file_type Within
file_type-Within [] h = tt
file_type-Within (c ∷ s) h = last_dot-Within c s (file_type s) h.1 (file_type-Within s h.1)

cstring-NoNul : (s : List ℕ) → NoNul (cstring s)
cstring-NoNul [] = tt
cstring-NoNul (c ∷ s) = elim (Bool-cases (c == 0)) [
  | inl e ↦ rw (e) tt
  | inr e ↦ rw (e) ((ground (arith, e)), cstring-NoNul s)
]

-- A text that begins with "image/" or "text/".
content_type-IsValue : (t : List ℕ) → NoNul t → length t ≤ 4096 → IsValue (content_type t)
unfolding content_type
content_type-IsValue t h small = elim (Bool-cases (is_image t)) [
  | inl e ↦ rw (e) (NoNul-append (codes "image/") t (omega arith) h, omega (arith, small))
  | inr e ↦ rw (e) (NoNul-append (codes "text/") t (omega arith) h, omega (arith, small))
]

content_type-fits : (t : List ℕ) → length t ≤ 4090 → fits (content_type t) ≡ true
unfolding content_type
content_type-fits t small = elim (Bool-cases (is_image t)) [
  | inl e ↦ rw (e) (lt→ltb (length (codes "image/" ++ t)) path_size (omega (arith, small)))
  | inr e ↦ rw (e) (lt→ltb (length (codes "text/" ++ t)) path_size (omega (arith, small)))
]

-- The value of `Content-Type` is one that fits `tmp`, where there is a type.
abbrev pub IsValueOrNone : Option (List ℕ) → Type 0
IsValueOrNone none = Unit
IsValueOrNone (some t) = IsValue (content_type t) × (fits (content_type t) ≡ true)

typed : (path : List ℕ) (o : Option (List ℕ)) → length path ≤ 4090 → Within path o → IsValueOrNone o
unfolding Within
typed path none small w = tt
typed path (some t) small w = (
  content_type-IsValue t w.0 (omega (arith, small, w.1)),
  content_type-fits t (omega (arith, small, w.1)),
)

-- There is room in both arrays.
abbrev pub HasRoom : List ℕ → HttpUrl → Type 0
HasRoom root url = length (written_path root url) ≤ 4090

pub written_path-fits :
    (root : List ℕ) (url : HttpUrl) → HasRoom root url → fits (written_path root url) ≡ true
written_path-fits root url small =
    lt→ltb (length (written_path root url)) path_size (omega (arith, small))

pub file_type-IsValue :
    (root : List ℕ) (url : HttpUrl)
    → HasRoom root url
    → IsValueOrNone (file_type (file_path root url))
unfolding file_path
file_type-IsValue root url small =
    typed (file_path root url) (file_type (file_path root url))
      (omega (arith, small, cstring-le (written_path root url)))
      (file_type-Within (file_path root url) (cstring-NoNul (written_path root url)))
