-- ===== src/Server/Process.antt =====
-- `server_process_request` of server.c, with `server_process_get`, `server_process_head` and
-- `server_process_options`: the response to a request, apart from the bytes of its content.
pub mod Headers
pub mod Values
pub mod Replies
pub mod Refines
pub mod ContentLength
use oserver.Prelude.{
  ℕ, Bool, true, false, Option, none, some, List, [], ◌∷◌, ◌==◌, if◌then◌else◌, ℤ, pos, negsuc,
  length, get_or,
}
use oserver.Bytes.{Buffer, codes}
use oserver.Btree.{◌>>=◌}
use oserver.HttpMethod.{
  Method, http_get, http_put, http_delete, http_patch, http_post, http_head, http_options,
  http_none,
}
use oserver.HttpHeader.Fields.Ids.{
  number, header_allow, header_connection, header_content_length, header_content_type,
  header_server,
}
use oserver.HttpHeader.Collection.{http_header_add_by_id}
use oserver.HttpRequest.{
  HttpRequest, ParseStatus, parse_status_method, parse_status_url, parse_status_version,
  parse_status_header, parse_status_error,
}
use oserver.HttpResponse.{
  HttpStatus, HttpResponse, http_response_reset, http_200_ok, http_400_bad_request,
  http_404_not_found, http_405_method_not_allowed, http_500_internal_server_error,
}
use oserver.Server.Files.{
  Stat, Os, fits, written_path, file_path, file_type, content_type, decimal, int32,
}

-- A text with the final 0.
abbrev pub buffer_of : List ℕ → Buffer
buffer_of s i = get_or s i 0

-- `http_header_add_by_id(&res->headers, id, text, len)`, with no look at its answer.
unfoldable pub add_header : HttpResponse → ℕ → List ℕ → ℕ → Option HttpResponse
add_header res id text len =
    http_header_add_by_id res.headers id (some (buffer_of text)) len >>= λ (code, headers).
    some (record res { headers = headers })

-- The response, `*keep_alive`, and the files.
pub record Served (F : Type 0) : Type 0 where
  pub res : HttpResponse
  pub keep_alive : Bool
  pub files : F

-- The response, `clen`, `*keep_alive` and the files once the path has been looked up.
abbrev pub Looked : Type 0 → Type 0
Looked F = HttpResponse × ℤ × Bool × F

-- `if(NULL != type)`; `none` is a fault, also where the text goes past the end of `tmp`.
abbrev pub add_type : HttpResponse → Option (List ℕ) → Option HttpResponse
add_type res none = some res
add_type res (some type) =
    let text = content_type type in
    if fits text then add_header res (number header_content_type) text (length text) else none

module _ {F : Type 0} where
  -- From `open` on; `none` is its error.
  abbrev pub opened : HttpResponse → ℕ → Bool → Option ℕ × F → Looked F
  opened res st_size keep_alive (none, files) =
      (record res { status = http_500_internal_server_error }, pos 0, keep_alive, files)
  opened res st_size keep_alive (some fd, files) =
      (record res { content = pos fd }, int32 st_size, true, files)

  -- The headers of what has been looked up.
  abbrev pub describe : List ℕ → Looked F → Option (Served F)
  describe path (res, clen, keep_alive, files) =
      let tmp = decimal clen in
      add_header res (number header_content_length) tmp (length tmp) >>= λ res₁.
      add_type res₁ (file_type path) >>= λ res₂.
      some (record { res = res₂; keep_alive = keep_alive; files = files })

  abbrev pub list_methods : Bool → HttpResponse × F → Option (Served F)
  list_methods keep_alive (res, files) =
      add_header res (number header_allow) (codes "OPTIONS, GET, PUT, HEAD") 23 >>= λ res₁.
      add_header res₁ (number header_content_length) (codes "0") 1 >>= λ res₂.
      some (record { res = res₂; keep_alive = keep_alive; files = files })

  -- An answer without content, after the reset.
  abbrev pub refused : Bool → HttpResponse × F → Option (Served F)
  refused keep_alive (res, files) =
      add_header res (number header_content_length) (codes "0") 1 >>= λ res₁.
      some (record { res = res₁; keep_alive = keep_alive; files = files })

  -- The headers that every response ends with.
  abbrev pub finished : Served F → Option (Served F)
  finished s =
      add_header s.res (number header_connection)
        (if s.keep_alive then codes "keep-alive" else codes "close")
        (if s.keep_alive then 10 else 5)
      >>= λ res₁. add_header res₁ (number header_server) (codes "O's Server") 10 >>= λ res₂.
          some (record s { res = res₂ })

module _ {F : Type 0} (os : Os F) where
  abbrev pub closing : Option ℕ → F → F
  closing none files = files
  closing (some fd) files = os.close_fd files fd

  -- `http_response_reset`, which closes the content.
  unfoldable pub reset_response : HttpResponse → HttpStatus → F → HttpResponse × F
  reset_response res code files =
      let (closed, freed, res') = http_response_reset res code in (res', closing closed files)

  -- From `stat` on.
  abbrev pub looked_up : HttpResponse → List ℕ → Bool → F → Option Stat → Looked F
  looked_up res path keep_alive files none =
      (record res { status = http_404_not_found }, pos 0, keep_alive, files)
  looked_up res path keep_alive files (some info) =
      if info.is_reg
      then (if info.st_size == 0
          then (record res { status = http_200_ok }, pos 0, keep_alive, files)
          else opened res info.st_size keep_alive (os.open_path files path))
      else (record res { status = http_404_not_found }, pos 0, keep_alive, files)

  abbrev pub get_path : List ℕ → Bool → HttpResponse × F → Option (Served F)
  get_path path keep_alive (res, files) =
      describe path (looked_up res path keep_alive files (os.stat_path files path))

  -- `none` is a fault, also where the path goes past the end of its array.
  unfoldable pub server_process_get :
      List ℕ → F → HttpRequest → HttpResponse → Bool → Option (Served F)
  unfolding reset_response add_header
  server_process_get root files req res keep_alive =
      let reset = reset_response res http_200_ok files in
      if fits (written_path root req.url)
      then get_path (file_path root req.url) keep_alive reset
      else none

  -- `if(res->content >= 0)`
  abbrev pub close_content : Served F → ℤ → Served F
  close_content s (negsuc n) = s
  close_content s (pos fd) = record s {
    res = record s.res { content = negsuc 0 };
    files = os.close_fd s.files fd;
  }

  unfoldable pub server_process_head :
      List ℕ → F → HttpRequest → HttpResponse → Bool → Option (Served F)
  unfolding server_process_get
  server_process_head root files req res keep_alive =
      server_process_get root files req res keep_alive >>= λ s. some (close_content s s.res.content)

  unfoldable pub server_process_options : F → HttpResponse → Bool → Option (Served F)
  unfolding reset_response add_header
  server_process_options files res keep_alive =
      list_methods keep_alive (reset_response res http_200_ok files)

  -- The `switch`.
  unfoldable pub process_method :
      Method → List ℕ → F → HttpRequest → HttpResponse → Bool → Option (Served F)
  unfolding reset_response add_header server_process_get server_process_head server_process_options
  process_method http_get root files req res keep_alive =
      server_process_get root files req res keep_alive
  process_method http_head root files req res keep_alive =
      server_process_head root files req res keep_alive
  process_method http_options root files req res keep_alive =
      server_process_options files res keep_alive
  process_method _ root files req res keep_alive =
      refused keep_alive (reset_response res http_405_method_not_allowed files)

  -- `if(req->parse_status == e_http_request_parse_status_error) … else …`
  unfoldable pub process_parsed :
      ParseStatus → List ℕ → F → HttpRequest → HttpResponse → Bool → Option (Served F)
  unfolding reset_response add_header process_method
  process_parsed parse_status_error root files req res keep_alive =
      refused false (reset_response res http_400_bad_request files)
  process_parsed _ root files req res keep_alive =
      process_method req.method root files req res keep_alive

  -- `none` is a fault of the tree of headers, or a write behind the end of `path` or `tmp`.
  unfoldable pub server_process_request :
      List ℕ → F → HttpRequest → HttpResponse → Bool → Option (Served F)
  unfolding add_header process_parsed
  server_process_request root files req res keep_alive =
      process_parsed req.parse_status root files req res keep_alive >>= finished
