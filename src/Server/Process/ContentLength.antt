-- ===== src/Server/Process/ContentLength.antt =====
-- The Content-Length of server_process_get of server.c.
use oserver.Prelude.{ℕ, ◌<◌, ◌^◌, ◌≡◌, refl, ap, ◌∙◌, ◌≢◌, Bool, Option, some, List, pos}
use oserver.Btree.Contents.{entries}
use oserver.Btree.Entries.{lookup}
use oserver.HttpMethod.{Method, http_get}
use oserver.HttpHeader.Fields.Ids.{number, header_content_length}
use oserver.HttpHeader.Collection.{Header}
use oserver.HttpRequest.{
  HttpRequest, ParseStatus, parse_status_method, parse_status_url, parse_status_version,
  parse_status_header, parse_status_error,
}
use oserver.HttpResponse.{HttpResponse}
use oserver.HttpResponse.Codes.{IsResponse, open_content}
use oserver.Server.Files.{Os, file_path, decimal, int32}
use oserver.Server.Files.Decimal.{value, decimal-value}
use oserver.Server.Process.{Served, closing, server_process_request}
use oserver.Server.Process.Headers.{header_text_of}
use oserver.Server.Process.Values.{HasRoom}
use oserver.Server.Process.Replies.{found, Reply, reply_headers, get_reply, response_to, Carries}
use oserver.Server.Process.Refines.{lookup_path, method_reply, reply, process_request-Carries}

-- The header with the length in a reply about a file.
lookup-reply_headers :
    {F : Type 0} (path : List ℕ) (keep_alive : Bool) (fd size : ℕ) (files : F)
    → lookup
        (number header_content_length)
        (reply_headers (get_reply path keep_alive (found fd size files)))
      ≡ some (header_text_of (decimal (int32 size)))
unfolding lookup number
lookup-reply_headers path keep_alive fd size files = refl

module _ {F : Type 0} (os : Os F) where
  reply-method :
      (status : ParseStatus) (method : Method) (path : List ℕ) (keep_alive : Bool) (files : F)
      → status ≢ parse_status_error
      → reply os status method path keep_alive files ≡ method_reply os method path keep_alive files
  reply-method parse_status_error method path keep_alive files ne = absurd (ne refl)
  reply-method parse_status_method method path keep_alive files ne = refl
  reply-method parse_status_url method path keep_alive files ne = refl
  reply-method parse_status_version method path keep_alive files ne = refl
  reply-method parse_status_header method path keep_alive files ne = refl

  -- The response has the file for its content, and a Content-Length that reads back as `size`.
  abbrev pub HasLength : ℕ → ℕ → Served F → Type 0
  HasLength fd size s =
      (s.res.content ≡ pos fd)
      × ((h : Header) × (lookup (number header_content_length) (entries s.res.headers.header_tree)
            ≡ some h)
          × (value 0 h.value ≡ size))

  Carries-HasLength :
      (o : Option (Served F)) (r : Reply F) (path : List ℕ) (keep_alive : Bool) (fd size : ℕ)
      (files : F)
      → size < 2 ^ 31
      → r ≡ get_reply path keep_alive (found fd size files)
      → Carries o r (reply_headers r)
      → (s : Served F) × (o ≡ some s) × HasLength fd size s
  Carries-HasLength o r path keep_alive fd size files small e (headers, answer, has) = (
    response_to r headers,
    answer,
    (
      ap (λ (r : Reply F). r.content) e,
      (
        header_text_of (decimal (int32 size)),
        ap (lookup (number header_content_length)) (has.contents ∙ ap reply_headers e)
            ∙ lookup-reply_headers path keep_alive fd size files,
        decimal-value size small,
      ),
    ),
  )

  -- A GET request without an error, for a path with room in its array at which a regular file of at
  -- least one byte and less than 2 GiB opens, is answered without a fault. The content of the response
  -- is the descriptor of that file, and its headers have a Content-Length whose digits read back as
  -- the size of the file.
  pub process_request-HasLength :
      (root : List ℕ) (files files' : F) (req : HttpRequest) (res : HttpResponse)
      (keep_alive : Bool) (fd size : ℕ)
      → IsResponse res
      → HasRoom root req.url
      → req.parse_status ≢ parse_status_error
      → req.method ≡ http_get
      → lookup_path os (file_path root req.url) (closing os (open_content res) files)
        ≡ found fd size files'
      → size < 2 ^ 31
      → (s : Served F) × (server_process_request os root files req res keep_alive ≡ some s)
        × HasLength fd size s
  process_request-HasLength root files files' req res keep_alive fd size h room ok get there small =
      let path = file_path root req.url in
      let now = closing os (open_content res) files in
      Carries-HasLength (server_process_request os root files req res keep_alive)
        (reply os req.parse_status req.method path keep_alive now) path keep_alive fd size files'
        small
        (reply-method req.parse_status req.method path keep_alive now ok
          ∙ ap (λ (m : Method). method_reply os m path keep_alive now) get
          ∙ ap (get_reply path keep_alive) there)
        (process_request-Carries os root files req res keep_alive h room)
