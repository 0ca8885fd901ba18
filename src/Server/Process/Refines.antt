-- ===== src/Server/Process/Refines.antt =====
-- What server_process_request of server.c answers, against a table of the replies.
use oserver.Prelude.{
  ℕ, ◌≡◌, refl, sym, ap, subst, ◌∙◌, Bool, true, false, Option, none, some, List, ◌==◌,
  if◌then◌else◌, Bool-cases, inl, inr, ℤ, pos, negsuc,
}
use oserver.Btree.{◌>>=◌}
use oserver.HttpMethod.{
  Method, http_get, http_put, http_delete, http_patch, http_post, http_head, http_options,
  http_none,
}
use oserver.HttpHeader.Collection.{Headers}
use oserver.HttpRequest.{
  HttpRequest, ParseStatus, parse_status_method, parse_status_url, parse_status_version,
  parse_status_header, parse_status_error,
}
use oserver.HttpResponse.{
  HttpStatus, HttpResponse, http_response_init, http_response_reset, http_200_ok,
  http_400_bad_request, http_404_not_found, http_405_method_not_allowed,
  http_500_internal_server_error,
}
use oserver.HttpResponse.Codes.{IsResponse, open_content, reset-init}
use oserver.Server.Files.{Stat, Os, file_path, file_type, int32}
use oserver.Server.Process.{
  Served, closing, reset_response, opened, looked_up, describe, get_path, close_content,
  list_methods, refused, server_process_get, server_process_head, server_process_options,
  process_method, process_parsed, server_process_request,
}
use oserver.Server.Process.Values.{IsValueOrNone, HasRoom, written_path-fits, file_type-IsValue}
use oserver.Server.Process.Replies.{
  Lookup, missing, empty, denied, found, Reply, reply_headers, described_headers, plain, get_reply,
  options_reply, response_to, Carries, refused-Carries, list_methods-Carries, describe-Carries,
  finished-Carries,
}

module _ {F : Type 0} (os : Os F) where
  abbrev lookup_open : ℕ → Option ℕ × F → Lookup F
  lookup_open size (none, files) = denied files
  lookup_open size (some fd, files) = found fd size files

  abbrev lookup_stat : List ℕ → F → Option Stat → Lookup F
  lookup_stat path files none = missing files
  lookup_stat path files (some info) =
      if info.is_reg
      then (if info.st_size == 0
          then empty files
          else lookup_open info.st_size (os.open_path files path))
      else missing files

  -- What there is at a path.
  abbrev pub lookup_path : List ℕ → F → Lookup F
  lookup_path path files = lookup_stat path files (os.stat_path files path)

  -- The reply with its content closed.
  abbrev pub without_content : Reply F → Reply F
  without_content r = record r {
    content = elim r.content [ pos fd ↦ negsuc 0 | negsuc n ↦ negsuc n ];
    files = elim r.content [ pos fd ↦ os.close_fd r.files fd | negsuc n ↦ r.files ];
  }

  -- The reply to a request of this method; the files are those after the reset.
  abbrev pub method_reply : Method → List ℕ → Bool → F → Reply F
  method_reply http_get path keep_alive files = get_reply path keep_alive (lookup_path path files)
  method_reply http_head path keep_alive files =
      without_content (get_reply path keep_alive (lookup_path path files))
  method_reply http_options path keep_alive files = options_reply keep_alive files
  method_reply _ path keep_alive files = plain http_405_method_not_allowed keep_alive files

  abbrev pub reply : ParseStatus → Method → List ℕ → Bool → F → Reply F
  reply parse_status_error method path keep_alive files = plain http_400_bad_request false files
  reply _ method path keep_alive files = method_reply method path keep_alive files

  -- The call carries the reply, but for the headers that come last.
  abbrev Describes : Option (Served F) → Reply F → Type 0
  Describes o r = Carries o r (described_headers r)

  open-Describes :
      (path : List ℕ) (keep_alive : Bool) (size : ℕ) (o : Option ℕ × F)
      → IsValueOrNone (file_type path)
      → Describes
          (describe path (opened (http_response_init http_200_ok) size keep_alive o))
          (get_reply path keep_alive (lookup_open size o))
  unfolding http_response_init
  open-Describes path keep_alive size (none, files) v =
      describe-Carries path http_500_internal_server_error (negsuc 0) (pos 0) keep_alive files v
  open-Describes path keep_alive size (some fd, files) v =
      describe-Carries path http_200_ok (pos fd) (int32 size) true files v

  stat-Describes :
      (path : List ℕ) (keep_alive : Bool) (files : F) (o : Option Stat)
      → IsValueOrNone (file_type path)
      → Describes
          (describe path (looked_up os (http_response_init http_200_ok) path keep_alive files o))
          (get_reply path keep_alive (lookup_stat path files o))
  unfolding http_response_init
  stat-Describes path keep_alive files none v =
      describe-Carries path http_404_not_found (negsuc 0) (pos 0) keep_alive files v
  stat-Describes path keep_alive files (some info) v = elim (Bool-cases info.is_reg) [
    | inr other ↦
        rw (other) (describe-Carries path http_404_not_found (negsuc 0) (pos 0) keep_alive files v)
    | inl regular ↦ elim (Bool-cases (info.st_size == 0)) [
      | inl zero_size ↦
          rw (regular, zero_size)
            (describe-Carries path http_200_ok (negsuc 0) (pos 0) keep_alive files v)
      | inr more ↦
          rw (regular, more)
            (open-Describes path keep_alive info.st_size (os.open_path files path) v)
    ]
  ]

  close-Describes :
      (o : Option (Served F)) (r : Reply F)
      → Describes o r
      → Describes (o >>= λ s. some (close_content os s s.res.content)) (without_content r)
  close-Describes o r (headers, answer, has) =
      (headers, rw (answer) (closed r r.content headers), has)
    where
      closed :
          (r : Reply F) (content : ℤ) (headers : Headers)
          → ◌≡◌ {A = Option (Served F)}
              (some
                (close_content os (response_to (record r { content = content }) headers) content))
              (some (response_to (without_content (record r { content = content })) headers))
      closed r (pos fd) headers = refl
      closed r (negsuc n) headers = refl

  -- The reset before the reply.
  reset_lem :
      (res : HttpResponse) (code : HttpStatus) (files : F)
      → IsResponse res
      → reset_response os res code files
        ≡ (http_response_init code, closing os (open_content res) files)
  unfolding reset_response
  reset_lem res code files h =
      let (content, fresh) = reset-init res code h in
      ap (λ (r : HttpResponse). (r, closing os (http_response_reset res code).0 files)) fresh
      ∙ ap (λ (o : Option ℕ). (http_response_init code, closing os o files)) content

  get-Describes :
      (root : List ℕ) (files : F) (req : HttpRequest) (res : HttpResponse) (keep_alive : Bool)
      → IsResponse res
      → HasRoom root req.url
      → Describes (server_process_get os root files req res keep_alive) (
          method_reply http_get
            (file_path root req.url)
            keep_alive
            (closing os (open_content res) files))
  unfolding server_process_get
  get-Describes root files req res keep_alive h small =
      let path = file_path root req.url in
      let files' = closing os (open_content res) files in
      rw (written_path-fits root req.url small) (
        subst
          (λ (p : HttpResponse × F).
            Describes (get_path os path keep_alive p)
              (method_reply http_get path keep_alive files'))
          (sym (reset_lem res http_200_ok files h))
          (stat-Describes path keep_alive files' (os.stat_path files' path)
            (file_type-IsValue root req.url small)))

  refused-Describes :
      (res : HttpResponse) (code : HttpStatus) (keep_alive : Bool) (files : F)
      → IsResponse res
      → Describes
          (refused keep_alive (reset_response os res code files))
          (plain code keep_alive (closing os (open_content res) files))
  refused-Describes res code keep_alive files h =
      let files' = closing os (open_content res) files in
      subst
        (λ (p : HttpResponse × F). Describes (refused keep_alive p) (plain code keep_alive files'))
        (sym (reset_lem res code files h)) (refused-Carries code keep_alive files')

  method-Describes :
      (method : Method) (root : List ℕ) (files : F) (req : HttpRequest) (res : HttpResponse)
      (keep_alive : Bool)
      → IsResponse res
      → HasRoom root req.url
      → Describes (process_method os method root files req res keep_alive) (
          method_reply method
            (file_path root req.url)
            keep_alive
            (closing os (open_content res) files))
  unfolding process_method
  method-Describes http_get root files req res keep_alive h small =
      get-Describes root files req res keep_alive h small
  method-Describes http_head root files req res keep_alive h small =
      unfold server_process_head in
      close-Describes (server_process_get os root files req res keep_alive)
        (method_reply http_get (file_path root req.url) keep_alive
          (closing os (open_content res) files))
        (get-Describes root files req res keep_alive h small)
  method-Describes http_options root files req res keep_alive h small =
      let files' = closing os (open_content res) files in
      unfold server_process_options in
      subst
        (λ (p : HttpResponse × F).
          Describes (list_methods keep_alive p) (options_reply keep_alive files'))
        (sym (reset_lem res http_200_ok files h)) (list_methods-Carries keep_alive files')
  method-Describes http_put root files req res keep_alive h small =
      refused-Describes res http_405_method_not_allowed keep_alive files h
  method-Describes http_delete root files req res keep_alive h small =
      refused-Describes res http_405_method_not_allowed keep_alive files h
  method-Describes http_patch root files req res keep_alive h small =
      refused-Describes res http_405_method_not_allowed keep_alive files h
  method-Describes http_post root files req res keep_alive h small =
      refused-Describes res http_405_method_not_allowed keep_alive files h
  method-Describes http_none root files req res keep_alive h small =
      refused-Describes res http_405_method_not_allowed keep_alive files h

  parsed-Describes :
      (status : ParseStatus) (root : List ℕ) (files : F) (req : HttpRequest) (res : HttpResponse)
      (keep_alive : Bool)
      → IsResponse res
      → HasRoom root req.url
      → Describes (process_parsed os status root files req res keep_alive) (
          reply status req.method
            (file_path root req.url)
            keep_alive
            (closing os (open_content res) files))
  unfolding process_parsed
  parsed-Describes parse_status_error root files req res keep_alive h small =
      refused-Describes res http_400_bad_request false files h
  parsed-Describes parse_status_method root files req res keep_alive h small =
      method-Describes req.method root files req res keep_alive h small
  parsed-Describes parse_status_url root files req res keep_alive h small =
      method-Describes req.method root files req res keep_alive h small
  parsed-Describes parse_status_version root files req res keep_alive h small =
      method-Describes req.method root files req res keep_alive h small
  parsed-Describes parse_status_header root files req res keep_alive h small =
      method-Describes req.method root files req res keep_alive h small

  -- Where the content of the response is a descriptor or -1 and its collection of headers is the cleared
  -- one if it is empty, and where the root, the path of the URL and the name of the index take no more
  -- than 4090 bytes of the array `path`, a request is answered with no fault in the tree of headers and
  -- no write behind the end of `path` or `tmp`, by the response of the reply
  -- that the table gives to its state, its method, its path and the files; the headers of the response
  -- are those of the reply.
  pub process_request-Carries :
      (root : List ℕ) (files : F) (req : HttpRequest) (res : HttpResponse) (keep_alive : Bool)
      → IsResponse res
      → HasRoom root req.url
      → let r =
          reply req.parse_status req.method
            (file_path root req.url)
            keep_alive
            (closing os (open_content res) files) in
        Carries (server_process_request os root files req res keep_alive) r (reply_headers r)
  unfolding server_process_request
  process_request-Carries root files req res keep_alive h small =
      finished-Carries (process_parsed os req.parse_status root files req res keep_alive)
        (reply req.parse_status req.method (file_path root req.url) keep_alive
          (closing os (open_content res) files))
        (parsed-Describes req.parse_status root files req res keep_alive h small)
