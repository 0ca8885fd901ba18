-- ===== src/HttpUrl/Parse/Whole.antt =====
-- What http_url_parse of http_url.c finds in a URL that arrives.
use oserver.Prelude.{
  ℕ, zero, suc, ◌+◌, ◌-◌, ◌≤◌, ◌<◌, ◌≡◌, refl, sym, ap, ◌∙◌, ◌≢◌, ==_iff, tests, ◌⊎◌, inl, inr,
  true, ◌&&◌, Option, none, some, List, [], All, ltb, leb, ◌==◌, if◌then◌else◌, arith, Bool-cases,
  Option-cases, subst,
}
use oserver.Bytes.{Buffer, advance, codes, Status, success, failure}
use oserver.HttpHeader.Hash.{bytes}
use oserver.HttpHeader.Search.{strncasecmp_eq}
use oserver.HttpUrl.Path.{Segment, http_url_parse_path}
use oserver.HttpUrl.Path.Safe.{AllNames, parse_path-All}
use oserver.HttpUrl.Query.{QueryItem}
use oserver.HttpUrl.Query.Items.{IsItem, Items, parse_query-Items}
use oserver.HttpUrl.Parse.{
  HttpUrl, path_len_after, http_url_init, url_size, Scan, at_nul, at_blank, at_end, scan, copied,
  find_slashes, find_slash, Start, starts, returns, find_path_from, find_path, Answer, url_query,
  url_path, url_scanned, http_url_parse,
}

-- The host, the path and the query lie in the URL with all their bytes; the segments of the path stand
-- for names, and the items of the query have a name and a value.
abbrev pub HostIn : ℕ → Option ℕ → ℕ → Type 0
HostIn len none host_len = Unit
HostIn len (some h) host_len = h + host_len ≤ len

abbrev pub PathIn : Buffer → ℕ → Option ℕ → ℕ → List Segment → Type 0
PathIn u len none path_len stack = stack ≡ []
PathIn u len (some d) path_len stack = (d + path_len ≤ len) × AllNames (advance u d) (len - d) stack

abbrev pub QueryIn : ℕ → Option ℕ → ℕ → List QueryItem → Type 0
QueryIn len none query_len items = items ≡ []
QueryIn len (some d) query_len items = (d + query_len ≤ len) × All (IsItem (len - d)) items

abbrev pub IsUrl : ℕ → HttpUrl → Type 0
IsUrl len url =
    HostIn len url.host url.host_len
    × PathIn url.url len url.path url.path_len url.path_stack
    × QueryIn len url.query url.query_len url.query_list

-- Before the path is read.
abbrev IsFresh : ℕ → HttpUrl → Type 0
IsFresh len url =
    HostIn len url.host url.host_len
    × (url.path ≡ none)
    × (url.path_len ≡ 0)
    × (url.path_stack ≡ [])
    × (url.query ≡ none)
    × (url.query_list ≡ [])

below : (u : Buffer) (len t : ℕ) → t ≤ len → u len ≡ 0 → u t ≢ 0 → t < len
below u len t h z ne = elim (Bool-cases (t == len)) [
  | inl e ↦ absurd (ne (ap u ((==_iff t len).0 e) ∙ z))
  | inr e ↦ ground (arith, e)
]

find_slashes-le :
    (u : Buffer) (len n t p : ℕ) → t ≤ len → u len ≡ 0 → find_slashes u n t ≡ some p → p + 2 ≤ len
unfolding find_slashes
find_slashes-le u len zero t p h z e = absurd (cc)
find_slashes-le u len (suc n) t p h z e = elim (Bool-cases (u t == 0)) [
  | inl nul ↦ absurd (ground (arith, e, nul))
  | inr other ↦
      let lt = below u len t h z (λ k. ground (arith, other, k)) in
      elim (Bool-cases ((u t == b'/') && (u (t + 1) == b'/'))) [
        | inl both ↦
            let next : t + 1 < len =
              below u len (t + 1) (omega arith) z (λ k. ground (arith, both, k)) in
            let same : t ≡ p = ground (arith, e, other, both) in omega (arith, same, next)
        | inr neither ↦
            find_slashes-le u len n (t + 1) p (omega arith) z (ground (arith, e, other, neither))
      ]
]

find_slash-le :
    (u : Buffer) (len n t q : ℕ)
    → t ≤ len
    → u len ≡ 0
    → find_slash u n t ≡ some q
    → (t ≤ q) × (q + 1 ≤ len)
unfolding find_slash
find_slash-le u len zero t q h z e = absurd (cc)
find_slash-le u len (suc n) t q h z e = elim (Bool-cases (u t == 0)) [
  | inl nul ↦ absurd (ground (arith, e, nul))
  | inr other ↦
      let lt = below u len t h z (λ k. ground (arith, other, k)) in
      elim (Bool-cases (u t == b'/')) [
        | inl slash ↦
            let same : t ≡ q = ground (arith, e, other, slash) in
            (omega (arith, same), omega (arith, same, lt))
        | inr neither ↦
            let rest =
              find_slash-le u len n (t + 1) q (omega arith) z (ground (arith, e, other, neither)) in
            (omega (arith, rest.0), rest.1)
      ]
]

find_slashes-none : (u : Buffer) (n t : ℕ) → u t ≡ 0 → find_slashes u n t ≡ none
unfolding find_slashes
find_slashes-none u zero t z = refl
find_slashes-none u (suc n) t z = ground (arith, z)

-- From byte `len` on the array is 0.
abbrev IsCleared : ℕ → HttpUrl → Type 0
IsCleared len url = (i : ℕ) → len ≤ i → url.url i ≡ 0

abbrev Started : ℕ → Start → Type 0
Started len (starts d url) = (d ≤ len) × IsFresh len url × IsCleared len url
Started len (returns code url) = IsFresh len url

find_path_from-Started :
    (len urlp : ℕ) (url : HttpUrl)
    → IsCleared len url
    → IsFresh len url
    → Started len (find_path_from len urlp url)
unfolding find_path_from
find_path_from-Started len urlp url z f = elim (Bool-cases (url.url urlp == 0)) [
  | inl nul ↦
      let at_nul = (==_iff (url.url urlp) 0).0 nul in
      rw (find_path_from, find_slashes-none url.url (url_size - urlp) urlp at_nul, at_nul) f
  | inr other ↦
      let lt : urlp < len = elim (Bool-cases (ltb urlp len)) [
        | inl e ↦ omega (tests, e)
        | inr e ↦ absurd (ground (arith, z urlp (ground (arith, e)), other))
      ] in
      elim (Option-cases (find_slashes url.url (url_size - urlp) urlp)) [
        | inl e ↦ elim (Bool-cases (url.url urlp == b'/')) [
          | inl slash ↦ rw (find_path_from, e, slash) (omega (arith, lt), f, z)
          | inr no_slash ↦ rw (find_path_from, e, no_slash, other) f
        ]
        | inr (p, e) ↦
            let p_in =
              find_slashes-le url.url len (url_size - urlp) urlp p (omega arith)
                (z len (omega arith)) e in
            elim (Option-cases (find_slash url.url (url_size - (p + 2)) (p + 2))) [
              | inl e' ↦ rw (find_path_from, e, e') (omega arith, f.1, f.2, f.3, f.4, f.5)
              | inr (q, e') ↦
                  let q_in =
                    find_slash-le url.url len (url_size - (p + 2)) (p + 2) q p_in
                      (z len (omega arith)) e' in
                  rw (find_path_from, e, e')
                    (q_in.1, (omega (arith, q_in.0, q_in.1), f.1, f.2, f.3, f.4, f.5), z)
            ]
      ]
]

-- The URL behind the query, if there is one.
abbrev Whole : ℕ → Answer → Type 0
Whole len none = ⊥
Whole len (some (code, parse_len, url)) = (parse_len ≡ len + 1) × IsUrl len url

queried :
    (len urlp : ℕ) (url : HttpUrl) (a : Option (ℕ × List QueryItem))
    → IsUrl len url
    → urlp < len
    → Items (len - urlp - 1) a
    → Whole len (elim a [
      | none ↦ none
      | some (query_len, items) ↦ some (
        success,
        len + 1,
        record url { query = some (urlp + 1); query_len = query_len; query_list = items },
      )
    ])
queried len urlp url none f lt i = absurd i
queried len urlp url (some (query_len, items)) f lt i =
    let size : len - urlp - 1 ≡ len - (urlp + 1) = omega arith in
    (refl, (f.0, f.1, (omega (arith, lt, i.0), subst (λ n. All (IsItem n) items) size i.1)))

url_query-Whole :
    (len urlp : ℕ) (url : HttpUrl)
    → IsUrl len url
    → url.query_list ≡ []
    → IsCleared len url
    → Whole len (url_query len urlp url)
unfolding url_query
url_query-Whole len urlp url f none_yet z = elim (Bool-cases (url.url urlp == b'?')) [
  | inr other ↦ rw (other) (refl, f)
  | inl mark ↦
      let lt : urlp < len = elim (Bool-cases (ltb urlp len)) [
        | inl e ↦ omega (tests, e)
        | inr e ↦ absurd (ground (arith, z urlp (ground (arith, e)), mark))
      ] in
      rw (mark, none_yet)
        (queried len urlp url _ f lt
          (parse_query-Items (advance url.url (urlp + 1)) (len - urlp - 1)))
]

pathed :
    (len urlp : ℕ) (code : Status) (url : HttpUrl)
    → IsUrl len url
    → url.query_list ≡ []
    → IsCleared len url
    → Whole len
        (elim code [ failure ↦ some (failure, len + 1, url) | success ↦ url_query len urlp url ])
pathed len urlp failure url f e z = (refl, f)
pathed len urlp success url f e z = url_query-Whole len urlp url f e z

fresh-IsUrl : (len : ℕ) (url : HttpUrl) → IsFresh len url → IsUrl len url
fresh-IsUrl len url f = (f.0, rw (f.1) f.3, rw (f.4) f.5)

-- The length of the path is what has been read, unless it is left as it is.
path_len_in :
    (code : Status) (size read_len before : ℕ)
    → read_len ≤ size
    → before ≡ 0
    → path_len_after code size read_len before ≤ size
path_len_in failure size read_len before h e = omega (arith, e)
path_len_in success zero read_len before h e = omega (arith, e)
path_len_in success (suc n) read_len before h e = h

url_path-Whole : (len : ℕ) (s : Start) → Started len s → Whole len (url_path len s)
unfolding url_path
url_path-Whole len (returns code url) f = (refl, fresh-IsUrl len url f)
url_path-Whole len (starts d url) f =
    let names = parse_path-All (advance url.url d) (len - d) in
    let names' =
      subst
        (λ st.
          AllNames (advance url.url d) (len - d)
            (http_url_parse_path (advance url.url d) (len - d) st).2)
        (sym f.1.3) names.0 in
    let parsed = http_url_parse_path (advance url.url d) (len - d) url.path_stack in
    let read : parsed.1 ≤ len - d =
      subst (λ st. (http_url_parse_path (advance url.url d) (len - d) st).1 ≤ len - d) (sym f.1.3)
        names.1 in
    let path_len = path_len_in parsed.0 (len - d) parsed.1 url.path_len read f.1.2 in
    let inside : leb d len ≡ true = ground (arith, f.0) in
    rw (inside)
      (pathed len _ _ _ (f.1.0, (omega (arith, f.0, path_len), names'), rw (f.1.4) f.1.5) f.1.5 f.2)

-- What is returned for a buffer.
abbrev pub Received : Buffer → ℕ → Answer → Type 0
Received buf size none = ⊥
Received buf size (some (code, parse_len, url)) =
    (parse_len ≡ 0) × (url ≡ http_url_init)
    ⊎ (0 < parse_len)
      × (parse_len ≤ size)
      × (buf (parse_len - 1) ≡ b' ')
      × IsUrl (parse_len - 1) url

scanned :
    (buf : Buffer) (n i len : ℕ)
    → scan buf n i ≡ at_blank len
    → (i ≤ len) × (len < i + n) × (buf len ≡ b' ')
unfolding scan
scanned buf zero i len e = absurd (ground (arith, e))
scanned buf (suc n) i len e = elim (Bool-cases (buf i == 0)) [
  | inl nul ↦ absurd (ground (arith, e, nul))
  | inr other ↦ elim (Bool-cases (buf i == b' ')) [
    | inl blank ↦
        let same : i ≡ len = ground (arith, e, other, blank) in
        (
          omega (arith, same),
          omega (arith, same),
          ap buf (sym same) ∙ (==_iff (buf i) b' ').0 blank,
        )
    | inr neither ↦
        let rest = scanned buf n (i + 1) len (ground (arith, e, other, neither)) in
        (omega (arith, rest.0), omega (arith, rest.1), rest.2)
  ]
]

Whole-Received :
    (buf : Buffer) (size len : ℕ) (a : Answer)
    → len < size
    → buf len ≡ b' '
    → Whole len a
    → Received buf size a
Whole-Received buf size len none lt b w = absurd w
Whole-Received buf size len (some (code, parse_len, url)) lt b w =
    let before : parse_len - 1 ≡ len = omega (arith, w.0) in
    inr (
      omega (arith, w.0),
      omega (arith, w.0),
      ap buf before ∙ b,
      subst (λ n. IsUrl n url) (sym before) w.1,
    )

copied-IsCleared :
    (buf : Buffer) (len : ℕ)
    → IsCleared len (record http_url_init { url = copied buf len (λ i. 0) })
copied-IsCleared buf len i h = ground (arith, h)

url_scanned-Received :
    (buf : Buffer) (size : ℕ) (s : Scan)
    → ((len : ℕ) → s ≡ at_blank len → (0 ≤ len) × (len < 0 + size) × (buf len ≡ b' '))
    → Received buf size (url_scanned buf http_url_init s)
unfolding url_scanned http_url_init
url_scanned-Received buf size at_nul h = inl (refl, refl)
url_scanned-Received buf size at_end h = inl (refl, refl)
url_scanned-Received buf size (at_blank len) h =
    let (_, lt, b) = h len refl in
    elim (Bool-cases (len == 0)) [
      | inl empty ↦ rw (empty) (inl (refl, refl))
      | inr some_bytes ↦ elim (Bool-cases (leb url_size len)) [
        | inl long ↦ rw (some_bytes, long) (inl (refl, refl))
        | inr fits ↦
            let url = record http_url_init { url = copied buf len (λ i. 0) } in
            rw (some_bytes, fits)
              (Whole-Received buf size len (url_path len (find_path len url)) (omega (arith, lt)) b
                (url_path-Whole len (find_path len url) (
                  unfold find_path in
                  find_path_from-Started len
                    (if strncasecmp_eq (bytes url.url 6) (codes "http:") then 6 else 0) url
                    (copied-IsCleared buf len) (tt, refl, refl, refl, refl, refl))))
      ]
    ]

-- A URL that is parsed from the cleared state, whatever the bytes are, makes no fault. Either nothing
-- is used up and nothing is found, or what is used up lies in the buffer and ends with a blank, and the
-- host, the path and the query lie before the blank with as many bytes as their lengths say; the
-- segments of the path stand for names, and the items of the query have a name and a value.
pub parse_url-Received :
    (buf : Buffer) (size : ℕ) → Received buf size (http_url_parse buf size http_url_init)
unfolding http_url_parse
parse_url-Received buf size = url_scanned-Received buf size (scan buf size 0) (scanned buf size 0)
