-- ===== src/Server/Process/Replies.antt =====
-- The replies of server.c, and the response that carries each.
use oserver.Prelude.{
  ℕ, ◌<◌, ◌≡◌, refl, subst, Bool, true, false, Option, none, some, List, [], ◌∷◌, ◌++◌,
  if◌then◌else◌, length, arith, ℤ, pos, negsuc,
}
use oserver.Bytes.{codes}
use oserver.Btree.{◌>>=◌}
use oserver.Btree.Entries.{insert_entry}
use oserver.HttpVersion.{version_1_1}
use oserver.HttpHeader.Fields.Ids.{
  number, header_allow, header_connection, header_content_length, header_content_type,
  header_server,
}
use oserver.HttpHeader.Search.{num_fields}
use oserver.HttpHeader.Collection.{Header, Headers}
use oserver.HttpResponse.{
  HttpStatus, HttpResponse, http_response_init, gen_status_version, http_200_ok, http_404_not_found,
  http_500_internal_server_error,
}
use oserver.Server.Files.{file_type, content_type, decimal, int32}
use oserver.Server.Process.{Served, add_type, describe, list_methods, refused, finished}
use oserver.Server.Process.Headers.{
  HasHeaders, init-HasHeaders, header_text_of, IsValue, add_header-lem,
}
use oserver.Server.Process.Values.{decimal-IsValue, IsValueOrNone}

-- What there is at a path, with the files afterwards: no file, an empty one, one that does not open,
-- or one that is open for reading.
pub data Lookup (F : Type 0) : Type 0 where
  missing empty denied : F → Lookup F
  found : ℕ → ℕ → F → Lookup F

-- A reply: the status, the descriptor of the content, the numeral in `Content-Length`, the type
-- behind the last dot of the path, the methods in `Allow`, whether the connection is kept, and the files.
pub record Reply (F : Type 0) : Type 0 where
  pub status : HttpStatus
  pub content : ℤ
  pub length_text : List ℕ
  pub type : Option (List ℕ)
  pub allow : Option (List ℕ)
  pub keep_alive : Bool
  pub files : F

abbrev pub allow_entry : Option (List ℕ) → List (ℕ × Header)
allow_entry none = []
allow_entry (some methods) = (number header_allow, header_text_of methods) ∷ []

abbrev pub type_entry : Option (List ℕ) → List (ℕ × Header)
type_entry none = []
type_entry (some type) = (number header_content_type, header_text_of (content_type type)) ∷ []

abbrev pub connection_text : Bool → List ℕ
connection_text keep_alive = if keep_alive then codes "keep-alive" else codes "close"

known :
    (number header_allow < num_fields)
    × (number header_connection < num_fields)
    × (number header_content_length < num_fields)
    × (number header_content_type < num_fields)
    × (number header_server < num_fields)
unfolding number
known = omega arith

add_type-lem :
    (res : HttpResponse) (es : List (ℕ × Header)) (type : Option (List ℕ))
    → HasHeaders res.headers es
    → IsValueOrNone type
    → (headers : Headers) × (add_type res type ≡ some (record res { headers = headers }))
      × HasHeaders headers (elim type [
        | none ↦ es
        | some t ↦ insert_entry (number header_content_type) (header_text_of (content_type t)) es
      ])
add_type-lem res es none has v = (res.headers, refl, has)
add_type-lem res es (some t) has v =
    let (headers, added, has') =
      add_header-lem res es (number header_content_type) (content_type t) has known.3 v.0 in
    (headers, rw (v.1) added, has')

type_added :
    (h : Header) (type : Option (List ℕ))
    → ◌≡◌ {A = List (ℕ × Header)}
        (elim type [
          | none ↦ (number header_content_length, h) ∷ []
          | some t ↦
              insert_entry
                (number header_content_type)
                (header_text_of (content_type t))
                ((number header_content_length, h) ∷ [])
        ])
        ((number header_content_length, h) ∷ type_entry type)
unfolding insert_entry number
type_added h none = refl
type_added h (some t) = refl

connection_length :
    (keep_alive : Bool)
    → ◌≡◌ {A = ℕ} (if keep_alive then 10 else 5) (length (connection_text keep_alive))
connection_length true = refl
connection_length false = refl

connection-IsValue : (keep_alive : Bool) → IsValue (connection_text keep_alive)
connection-IsValue true = omega arith
connection-IsValue false = omega arith

module _ {F : Type 0} where
  -- The headers of the reply, in the order of the ids.
  abbrev pub reply_headers : Reply F → List (ℕ × Header)
  reply_headers r =
      allow_entry r.allow
      ++ (number header_connection, header_text_of (connection_text r.keep_alive))
        ∷ (number header_content_length, header_text_of r.length_text)
        ∷ (type_entry r.type ++ (number header_server, header_text_of (codes "O's Server")) ∷ [])

  -- Before the last two headers are added.
  abbrev pub described_headers : Reply F → List (ℕ × Header)
  described_headers r =
      allow_entry r.allow
      ++ (number header_content_length, header_text_of r.length_text) ∷ type_entry r.type

  -- A reply with no content and no type.
  abbrev pub plain : HttpStatus → Bool → F → Reply F
  plain status keep_alive files = record {
    status = status;
    content = negsuc 0;
    length_text = codes "0";
    type = none;
    allow = none;
    keep_alive = keep_alive;
    files = files;
  }

  abbrev pub about_file : List ℕ → HttpStatus → ℤ → ℤ → Bool → F → Reply F
  about_file path status content len keep_alive files = record {
    status = status;
    content = content;
    length_text = decimal len;
    type = file_type path;
    allow = none;
    keep_alive = keep_alive;
    files = files;
  }

  abbrev pub get_reply : List ℕ → Bool → Lookup F → Reply F
  get_reply path keep_alive (missing files) =
      about_file path http_404_not_found (negsuc 0) (pos 0) keep_alive files
  get_reply path keep_alive (empty files) =
      about_file path http_200_ok (negsuc 0) (pos 0) keep_alive files
  get_reply path keep_alive (denied files) =
      about_file path http_500_internal_server_error (negsuc 0) (pos 0) keep_alive files
  get_reply path keep_alive (found fd size files) =
      about_file path http_200_ok (pos fd) (int32 size) true files

  -- The response that carries the reply.
  abbrev pub response_to : Reply F → Headers → Served F
  response_to r headers = record {
    res = record {
      version = version_1_1;
      status = r.status;
      headers = headers;
      gen_status = gen_status_version;
      content = r.content;
    };
    keep_alive = r.keep_alive;
    files = r.files;
  }

  -- The call returns that response, with these headers.
  abbrev pub Carries : Option (Served F) → Reply F → List (ℕ × Header) → Type 0
  Carries o r es = (headers : Headers) × (o ≡ some (response_to r headers)) × HasHeaders headers es

  pub refused-Carries :
      (code : HttpStatus) (keep_alive : Bool) (files : F)
      → Carries
          (refused keep_alive (http_response_init code, files))
          (plain code keep_alive files)
          (described_headers (plain code keep_alive files))
  unfolding http_response_init number insert_entry
  refused-Carries code keep_alive files =
      let (headers, added, has) =
        add_header-lem (http_response_init code) [] (number header_content_length) (codes "0")
          init-HasHeaders known.2 (omega arith) in
      (headers, rw (added) refl, has)

  abbrev pub options_reply : Bool → F → Reply F
  options_reply keep_alive files = record (plain http_200_ok keep_alive files) {
    allow = some (codes "OPTIONS, GET, PUT, HEAD");
  }

  pub list_methods-Carries :
      (keep_alive : Bool) (files : F)
      → Carries
          (list_methods keep_alive (http_response_init http_200_ok, files))
          (options_reply keep_alive files)
          (described_headers (options_reply keep_alive files))
  unfolding http_response_init number insert_entry
  list_methods-Carries keep_alive files =
      let res = http_response_init http_200_ok in
      let (headers, added, has) =
        add_header-lem res [] (number header_allow) (codes "OPTIONS, GET, PUT, HEAD")
          init-HasHeaders known.0 (omega arith) in
      let (headers', added', has') =
        add_header-lem (record res { headers = headers })
          ((number header_allow, header_text_of (codes "OPTIONS, GET, PUT, HEAD")) ∷ [])
          (number header_content_length) (codes "0") has known.2 (omega arith) in
      (headers', rw (added, added') refl, has')

  -- What follows the look at the path carries the reply, but for the last two headers.
  pub describe-Carries :
      (path : List ℕ) (status : HttpStatus) (content len : ℤ) (keep_alive : Bool) (files : F)
      → IsValueOrNone (file_type path)
      → let r = about_file path status content len keep_alive files in
        Carries
          (describe path (
            record (http_response_init http_200_ok) { status = status; content = content },
            len,
            keep_alive,
            files,
          ))
          r
          (described_headers r)
  unfolding http_response_init number insert_entry
  describe-Carries path status content len keep_alive files v =
      let res = record (http_response_init http_200_ok) { status = status; content = content } in
      let (headers, added, has) =
        add_header-lem res [] (number header_content_length) (decimal len) init-HasHeaders known.2
          (decimal-IsValue len) in
      let (headers', added', has') =
        add_type-lem (record res { headers = headers })
          ((number header_content_length, header_text_of (decimal len)) ∷ []) (file_type path) has
          v in
      (
        headers',
        rw (added, added') refl,
        subst (HasHeaders headers') (type_added (header_text_of (decimal len)) (file_type path))
            has',
      )

  last_added :
      (r : Reply F) (allow type : Option (List ℕ))
      → let r' = record r { allow = allow; type = type } in
        insert_entry (number header_server) (header_text_of (codes "O's Server")) (
          insert_entry
            (number header_connection)
            (header_text_of (connection_text r.keep_alive))
            (described_headers r'))
        ≡ reply_headers r'
  unfolding insert_entry number
  last_added r none none = refl
  last_added r none (some t) = refl
  last_added r (some methods) none = refl
  last_added r (some methods) (some t) = refl

  pub finished-Carries :
      (o : Option (Served F)) (r : Reply F)
      → Carries o r (described_headers r)
      → Carries (o >>= finished) r (reply_headers r)
  finished-Carries o r (headers, answer, has) =
      let res = (response_to r headers).res in
      let text = connection_text r.keep_alive in
      let (headers', added, has') =
        add_header-lem res (described_headers r) (number header_connection) text has known.1
          (connection-IsValue r.keep_alive) in
      let (headers'', added', has'') =
        add_header-lem (record res { headers = headers' })
          (insert_entry (number header_connection) (header_text_of text) (described_headers r))
          (number header_server) (codes "O's Server") has' known.4 (omega arith) in
      (
        headers'',
        rw (answer, connection_length r.keep_alive, added, added') refl,
        subst (HasHeaders headers'') (last_added r r.allow r.type) has'',
      )
