-- ===== src/HttpResponse/Log.antt =====
-- `http_response_log` of http_response.c.
use oserver.Prelude.{ℕ, ◌≡◌, ap, Option, none, some, List, [], ◌∷◌, ◌++◌}
use oserver.Btree.Contents.{entries}
use oserver.HttpVersion.{version_text}
use oserver.HttpHeader.Collection.{root_key}
use oserver.HttpHeader.Collection.Insert.{IsCollection}
use oserver.HttpHeader.ToStr.Text.{header_text}
use oserver.HttpHeader.ToStr.Whole.{whole_text}
use oserver.HttpHeader.ToStr.Log.{Logged, message_log, log-whole_log}
use oserver.HttpResponse.{HttpResponse, http_response_code}

-- `"\n%s%s\n%s"` of `buf`, the code and `hptr`, and the response afterwards.
abbrev pub logged_text : HttpResponse → Option Logged → Option (List ℕ × HttpResponse)
logged_text res none = none
logged_text res (some l) = some (
  10 ∷ (l.buf ++ (http_response_code res.status ++ 10 ∷ l.headers.written)),
  record res { headers = l.headers.headers },
)

-- The text that goes to the log; `none` is a fault.
unfoldable pub http_response_log : HttpResponse → Option (List ℕ × HttpResponse)
http_response_log res = logged_text res (message_log res.version res.headers)

-- The log shows the version, the status and all headers, and it changes nothing of the response but
-- the threads of the tree.
pub response_log-text :
    (res : HttpResponse)
    → IsCollection res.headers
    → res.headers.traverse_ptr ≡ root_key res.headers.header_tree
    → http_response_log res
      ≡ some (
        10
            ∷ (version_text res.version
                ++ (http_response_code res.status
                    ++ 10 ∷ (header_text (entries res.headers.header_tree) ++ 13 ∷ 10 ∷ []))),
        record res { headers = (whole_text res.headers).headers },
      )
unfolding http_response_log
response_log-text res c at = ap (logged_text res) (log-whole_log res.version res.headers c at)
