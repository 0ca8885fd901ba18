-- ===== src/HttpRequest/Phases.antt =====
-- The phases through which http_request_parse of http_request.c goes.
use oserver.Prelude.{
  ℕ, zero, suc, ◌+◌, ◌≤◌, ◌<◌, ◌≡◌, refl, sym, subst, inl, inr, Bool, true, false, Option, none,
  some, ℤ, pos, negsuc, ◌-ℤ◌, pos_part, pos_part-le, arith, ◌==◌, if◌then◌else◌, Bool-cases,
}
use oserver.Bytes.{Buffer, advance, Status, success, failure}
use oserver.HttpVersion.{http_version_parse}
use oserver.HttpUrl.Parse.{HttpUrl, http_url_init, http_url_parse}
use oserver.HttpUrl.Parse.Whole.{Received, parse_url-Received}
use oserver.HttpHeader.Collection.{Headers}
use oserver.HttpHeader.Collection.Insert.{IsCollection, init-IsCollection}
use oserver.HttpHeader.Parse.{http_header_parse}
use oserver.HttpHeader.Parse.Lines.{Parsed, parse-Parsed}
use oserver.HttpRequest.{
  ParseStatus, parse_status_method, parse_status_url, parse_status_version, parse_status_header,
  parse_status_error, HttpRequest, http_request_init, size_of, next_status, Step, request_step,
  rank, Answer, request_loop, rounds, http_request_parse,
}

-- The headers are a collection, and no URL is there before it has been read.
pub record IsRequest (req : HttpRequest) : Type 0 where
  pub collection : IsCollection req.headers
  pub no_url : rank req.parse_status ≤ 1 → req.url ≡ http_url_init

pub init-IsRequest : IsRequest http_request_init
unfolding http_request_init
init-IsRequest = record { collection = init-IsCollection; no_url = λ h. refl }

-- After a round: the status is not an earlier one.
abbrev Stepped : ℕ → Step → Type 0
Stepped now none = ⊥
Stepped now (some (parsed_len, is_end, req')) = IsRequest req' × (now ≤ rank req'.parse_status)

next-le :
    (code : Status) (n : ℕ) (next now : ParseStatus)
    → rank now ≤ rank next
    → rank now ≤ 4
    → rank now ≤ rank (next_status code n next now)
next-le failure n next now h k = k
next-le success zero next now h k = omega arith
next-le success (suc n) next now h k = h

-- A URL that is not complete leaves the one of the request.
url_answer :
    (buf : Buffer) (size : ℕ) (a : Option (Status × ℕ × HttpUrl)) (is_end : Bool)
    (req : HttpRequest)
    → IsRequest req
    → Received buf size a
    → Stepped 1 (elim a [
      | none ↦ none
      | some (code, parsed_len', url') ↦ some (
        parsed_len',
        is_end,
        record req {
          url = url';
          parse_status = next_status code parsed_len' parse_status_version parse_status_url;
        },
      )
    ])
url_answer buf size none is_end req h r = absurd r
url_answer buf size (some (failure, n, url')) is_end req h r =
    (record { collection = h.collection; no_url = λ k. absurd (omega arith) }, omega arith)
url_answer buf size (some (success, zero, url')) is_end req h (inl e) =
    (record { collection = h.collection; no_url = λ k. e.1 }, omega arith)
url_answer buf size (some (success, zero, url')) is_end req h (inr e) = absurd (omega arith)
url_answer buf size (some (success, suc n, url')) is_end req h r =
    (record { collection = h.collection; no_url = λ k. absurd (omega arith) }, omega arith)

header_answer :
    (buf : Buffer) (size : ℕ) (a : Option (Status × ℕ × Bool × Headers)) (req : HttpRequest)
    → IsRequest req
    → Parsed buf size a
    → Stepped 3 (elim a [
      | none ↦ none
      | some (code, parsed_len', is_end', headers') ↦ some (
        parsed_len',
        is_end',
        record req {
          headers = headers';
          parse_status = elim code [ failure ↦ parse_status_error | success ↦ parse_status_header ];
        },
      )
    ])
header_answer buf size none req h r = absurd r
header_answer buf size (some (failure, n, is_end, headers)) req h r =
    (record { collection = r.0; no_url = λ k. absurd (omega arith) }, omega arith)
header_answer buf size (some (success, n, is_end, headers)) req h r =
    (record { collection = r.0; no_url = λ k. absurd (omega arith) }, omega arith)

header_parse-Parsed :
    (headers : Headers) (buf : Buffer) (len : ℤ)
    → IsCollection headers
    → pos_part len ≤ 32767
    → Parsed buf (size_of len) (http_header_parse headers (some buf) len)
header_parse-Parsed headers buf (pos n) c h = parse-Parsed headers buf n c h
header_parse-Parsed headers buf (negsuc n) c h =
    unfold http_header_parse in (c, (omega arith, inl refl), λ e. absurd (cc))

request_step-Stepped :
    (p : Buffer) (len : ℤ) (parsed_len : ℕ) (is_end : Bool) (req : HttpRequest) (now : ParseStatus)
    → IsRequest req
    → pos_part len ≤ 32767
    → req.parse_status ≡ now
    → Stepped (rank now) (request_step p len parsed_len is_end req now)
unfolding request_step
request_step-Stepped p len parsed_len is_end req parse_status_method h le e = (
  record { collection = h.collection; no_url = λ k. h.no_url (rw (e) (omega arith)) },
  omega arith,
)
request_step-Stepped p len parsed_len is_end req parse_status_url h le e =
    let fresh : http_url_init ≡ req.url = sym (h.no_url (rw (e) (omega arith))) in
    url_answer p (size_of len) (http_url_parse p (size_of len) req.url) is_end req h (
      subst (λ u. Received p (size_of len) (http_url_parse p (size_of len) u)) fresh
        (parse_url-Received p (size_of len)))
request_step-Stepped p len parsed_len is_end req parse_status_version h le e =
    let (code, n, v) = http_version_parse (some p) len parsed_len req.version in
    let later =
      next-le code n parse_status_header parse_status_version (omega arith) (omega arith) in
    (record { collection = h.collection; no_url = λ k. absurd (omega (arith, later, k)) }, later)
request_step-Stepped p len parsed_len is_end req parse_status_header h le e =
    header_answer p (size_of len) (http_header_parse req.headers (some p) len) req h
      (header_parse-Parsed req.headers p len h.collection le)
request_step-Stepped p len parsed_len is_end req parse_status_error h le e =
    (h, rw (e) (omega arith))

rank-le : (s : ParseStatus) → rank s ≤ 4
rank-le parse_status_method = omega arith
rank-le parse_status_url = omega arith
rank-le parse_status_version = omega arith
rank-le parse_status_header = omega arith
rank-le parse_status_error = omega arith

-- The result of a call: a request again, whose status is not an earlier one.
abbrev pub Requested : HttpRequest → Answer → Type 0
Requested req none = ⊥
Requested req (some (code, rdlen, is_end, req')) =
    IsRequest req' × (rank req.parse_status ≤ rank req'.parse_status)

Requested-trans :
    (req req' : HttpRequest) (a : Answer)
    → rank req.parse_status ≤ rank req'.parse_status
    → Requested req' a
    → Requested req a
Requested-trans req req' none h r = absurd r
Requested-trans req req' (some (code, rdlen, is_end, req'')) h r = (r.0, omega (arith, h, r.1))

request_loop-Requested :
    (fuel : ℕ) (buf : Buffer) (at : ℕ) (len : ℤ) (parsed_len : ℕ) (is_end : Bool)
    (req : HttpRequest)
    → IsRequest req
    → pos_part len ≤ 32767
    → 4 < fuel + rank req.parse_status
    → Requested req (request_loop fuel buf at len parsed_len is_end req)
unfolding request_loop
request_loop-Requested zero buf at len parsed_len is_end req h le f =
    absurd (omega (arith, rank-le req.parse_status))
request_loop-Requested (suc fuel) buf at len parsed_len is_end req h le f =
    go (request_step (advance buf at) len parsed_len is_end req req.parse_status)
      (request_step-Stepped (advance buf at) len parsed_len is_end req req.parse_status h le refl)
      (λ n e req' h' f'.
        request_loop-Requested fuel buf (at + n) (len -ℤ pos n) n e req' h'
          (omega (arith, le, pos_part-le len n)) f')
  where
    go :
        (o : Step)
        → Stepped (rank req.parse_status) o
        → ((n : ℕ) (e : Bool) (req' : HttpRequest)
            → IsRequest req'
            → 4 < fuel + rank req'.parse_status
            → Requested req' (request_loop fuel buf (at + n) (len -ℤ pos n) n e req'))
        → Requested req (elim o [
          | none ↦ none
          | some (parsed_len', is_end', req') ↦
              if rank req'.parse_status == 4
              then some (failure, 0, true, req')
              else if rank req'.parse_status == rank req.parse_status
              then some (success, at + parsed_len', is_end', req')
              else request_loop fuel buf
                  (at + parsed_len')
                  (len -ℤ pos parsed_len')
                  parsed_len'
                  is_end'
                  req'
        ])
    go none s rest = absurd s
    go (some (n, e, req')) s rest = elim (Bool-cases (rank req'.parse_status == 4)) [
      | inl error ↦ rw (error) s
      | inr other ↦ elim (Bool-cases (rank req'.parse_status == rank req.parse_status)) [
        | inl same ↦ rw (other, same) s
        | inr later ↦
            let more : rank req.parse_status < rank req'.parse_status =
              ground (arith, later, s.1) in
            rw (other, later)
              (Requested-trans req req' (request_loop fuel buf (at + n) (len -ℤ pos n) n e req') s.1
                (rest n e req' s.0 (omega (arith, more))))
      ]
    ]

-- On a buffer of up to 32767 bytes http_request_parse ends within five rounds and makes no fault,
-- whatever the bytes are, wherever the last call stopped, and whatever the unset variable holds: the
-- headers are a collection again, and the status is not an earlier one.
pub parse-Requested :
    (req : HttpRequest) (buf : Buffer) (size : ℤ) (parsed_len : ℕ)
    → IsRequest req
    → pos_part size ≤ 32767
    → Requested req (http_request_parse req buf size parsed_len)
unfolding http_request_parse
parse-Requested req buf size parsed_len h le =
    request_loop-Requested rounds buf 0 size parsed_len false req h le (omega arith)
