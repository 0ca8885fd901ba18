-- ===== src/Server/Client.antt =====
-- `server_serv_client` of server.c: a thread reads requests from a connection and answers them, until
-- there is nothing more to read or the connection ends.
pub mod Unread
use oserver.Prelude.{
  ℕ, zero, suc, ◌+◌, ◌-◌, Bool, true, false, Option, none, some, List, [], ◌∷◌, if◌then◌else◌,
  length, get_or, ltb, min, ℤ, pos, negsuc, ◌+ℤ◌, ◌-ℤ◌,
}
use oserver.Bytes.{Buffer, Status, success, failure}
use oserver.Btree.{◌>>=◌}
use oserver.HttpRequest.{HttpRequest, http_request_parse, http_request_reset}
use oserver.HttpRequest.Log.{http_request_log}
use oserver.HttpResponse.{HttpResponse, http_200_ok}
use oserver.HttpResponse.Log.{http_response_log}
use oserver.Server.Files.{Os}
use oserver.Server.Process.{reset_response, server_process_request}
use oserver.Server.Send.{Sending, send_response}

-- What `recv` comes to: an error that is `EWOULDBLOCK` or `EAGAIN`, another error, or bytes, of which
-- there are none when the peer has closed the connection.
pub data Received : Type 0 where
  blocks fails : Received
  receives : List ℕ → Received

-- `connection_info_t`, without its links and the peer's address.
pub record Connection : Type 0 where
  pub socket : ℤ
  pub request : HttpRequest
  pub response : HttpResponse
  pub data_len : ℕ
  pub data_buffer : Buffer

-- The variables of the loop: `rbuf`, `remain`, `keep_alive`, with the connection and the files.
pub record Client (F : Type 0) : Type 0 where
  pub conn : Connection
  pub files : F
  pub rbuf : Buffer
  pub remain : ℤ
  pub keep_alive : Bool

abbrev pub rbuf_size : ℕ
rbuf_size = 2048

-- `sizeof(conn->data_buffer)`
abbrev pub data_size : ℕ
data_size = 1024

-- The bytes of a text from `at` on.
abbrev pub put_bytes : Buffer → ℕ → List ℕ → Buffer
put_bytes buf at text i = if ltb i at then buf i else get_or text (i - at) (buf i)

-- `rbuf[wp] = rbuf[wp + rdlen]` for each `wp` below `remain`, upwards.
abbrev pub moved : Buffer → ℕ → ℕ → Buffer
moved buf rdlen remain i = if ltb i remain then buf (i + rdlen) else buf i

module _ {F : Type 0} where
  -- `if(remain)` of the branch in which nothing can be read now. A negative `remain` is the size of
  -- the copy, which is a fault.
  abbrev pub save : Client F → ℤ → Option (Client F)
  save c (negsuc n) = none
  save c (pos zero) = some c
  save c (pos (suc n)) =
      let len = min (suc n) data_size in
      some (record c {
        conn = record c.conn {
          data_len = len;
          data_buffer = λ i. if ltb i len then c.rbuf i else c.conn.data_buffer i;
        };
      })

  -- `if(rdlen && remain)`, with the fault where `remain` is negative.
  abbrev pub move_up : Client F → ℕ → ℤ → Option (Client F)
  move_up c zero remain = some (record c { remain = remain })
  move_up c (suc rdlen) (negsuc n) = none
  move_up c (suc rdlen) (pos zero) = some (record c { remain = pos zero })
  move_up c (suc rdlen) (pos (suc n)) =
      some (record c { rbuf = moved c.rbuf (suc rdlen) (suc n); remain = pos (suc n) })

  abbrev pub with_request : Client F → HttpRequest → Client F
  with_request c req = record c { conn = record c.conn { request = req } }

  -- After `http_request_parse`: the client, and `parse_end`.
  abbrev pub parsed :
      Client F → ℕ → Option (Status × ℕ × Bool × HttpRequest) → Option (Client F × Bool)
  parsed c ret none = none
  parsed c ret (some (failure, rdlen, parse_end, req)) = some (with_request c req, parse_end)
  parsed c ret (some (success, rdlen, parse_end, req)) =
      move_up (with_request c req) rdlen (c.remain +ℤ pos ret -ℤ pos rdlen) >>= λ c.
      some (c, parse_end)

  module _ (os : Os F) (recv : F → ℤ → ℤ → Received × F) (root : List ℕ)
      (fuel_send garbage : ℕ) where
    -- The resets after the response has been sent.
    abbrev pub reset_both : Client F → Sending F → Client F
    reset_both c s =
        let (freed, req) = http_request_reset c.conn.request in
        let (res, files) = reset_response os s.res http_200_ok s.files in
        record c {
          conn = record c.conn { request = req; response = res };
          files = files;
          keep_alive = s.keep_alive;
        }

    abbrev pub send_logged :
        Client F → Bool → F → Option (List ℕ × HttpResponse) → Option (Client F)
    send_logged c keep_alive files none = none
    send_logged c keep_alive files (some (text, res)) =
        send_response os c.conn.socket fuel_send res files keep_alive >>= λ s. some (reset_both c s)

    -- `if(parse_end)`
    abbrev pub answer : Client F → Option (Client F)
    answer c = http_request_log c.conn.request >>= λ req.
        server_process_request os root c.files req c.conn.response c.keep_alive >>= λ served.
        send_logged (with_request c req) served.keep_alive served.files
          (http_response_log served.res)

    abbrev pub answer_if : Client F × Bool → Option (Client F)
    answer_if (c, true) = answer c
    answer_if (c, false) = some c

    -- A round after `recv`: the client, and whether the loop is left.
    abbrev pub received : Client F → Received × F → Option (Client F × Bool)
    received c (blocks, files) = save (record c { files = files }) c.remain >>= λ c. some (c, true)
    received c (fails, files) = some (record c { files = files; keep_alive = false }, true)
    received c (receives [], files) = some (record c { files = files; keep_alive = false }, true)
    received c (receives (b ∷ text), files) =
        let rbuf = put_bytes c.rbuf (elim c.remain [ pos n ↦ n | negsuc n ↦ 0 ]) (b ∷ text) in
        let ret = length (b ∷ text) in
        parsed (record c { files = files; rbuf = rbuf }) ret
          (http_request_parse c.conn.request rbuf (c.remain +ℤ pos ret) garbage)
        >>= λ p. answer_if p >>= λ c. some (c, false)

    -- `while(keep_alive)`
    abbrev pub next : (Client F → Option (Client F)) → Option (Client F × Bool) → Option (Client F)
    next rest none = none
    next rest (some (c, true)) = some c
    next rest (some (c, false)) = let more = rest c in if c.keep_alive then more else some c

    -- The loop with fuel for its rounds; `none` is a fault, or no fuel.
    unfoldable pub serve_loop : ℕ → Client F → Option (Client F)
    serve_loop zero c = none
    serve_loop (suc fuel) c =
        next (serve_loop fuel) (received c (recv c.files c.conn.socket (pos rbuf_size -ℤ c.remain)))

    -- The connection, whether its descriptor is watched again, and the files.
    abbrev pub ending : Client F → Bool → Connection × Bool × F
    ending c true = (c.conn, true, c.files)
    ending c false = (
      record c.conn { socket = negsuc 0 },
      false,
      elim c.conn.socket [ pos fd ↦ os.close_fd c.files fd | negsuc n ↦ c.files ],
    )

    -- `if(!keep_alive) … else …`
    abbrev pub ended : Option (Client F) → Option (Connection × Bool × F)
    ended none = none
    ended (some c) = some (ending c c.keep_alive)

    -- `rbuf` is what stands in the array.
    unfoldable pub server_serv_client : ℕ → Connection → F → Buffer → Option (Connection × Bool × F)
    unfolding serve_loop
    server_serv_client fuel conn files rbuf = ended (
        serve_loop fuel (record {
          conn = conn;
          files = files;
          rbuf = λ i. if ltb i conn.data_len then conn.data_buffer i else rbuf i;
          remain = pos conn.data_len;
          keep_alive = true;
        }))
