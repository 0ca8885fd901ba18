-- ===== src/HttpRequest/Log.antt =====
-- `http_request_log` of http_request.c.
use oserver.Prelude.{Option, some, ◌≡◌, ap}
use oserver.Btree.{◌>>=◌}
use oserver.HttpHeader.Collection.{root_key}
use oserver.HttpHeader.Collection.Insert.{IsCollection}
use oserver.HttpHeader.ToStr.Whole.{whole_text}
use oserver.HttpHeader.ToStr.Log.{Logged, message_log, log-whole_log}
use oserver.HttpRequest.{HttpRequest}

-- The request afterwards; the text that goes to the log is left out. `none` is a fault.
unfoldable pub http_request_log : HttpRequest → Option HttpRequest
http_request_log req =
    message_log req.version req.headers >>= λ l. some (record req { headers = l.headers.headers })

-- The log changes nothing of a request but the threads of the tree.
pub request_log-whole_text :
    (req : HttpRequest)
    → IsCollection req.headers
    → req.headers.traverse_ptr ≡ root_key req.headers.header_tree
    → http_request_log req ≡ some (record req { headers = (whole_text req.headers).headers })
unfolding http_request_log
request_log-whole_text req c at =
    ap (λ (o : Option Logged). o >>= λ l. some (record req { headers = l.headers.headers }))
      (log-whole_log req.version req.headers c at)
