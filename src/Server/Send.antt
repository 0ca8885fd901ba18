-- ===== src/Server/Send.antt =====
-- The loop of server_serv_client of server.c that sends a response.
pub mod Whole
use oserver.Prelude.{
  ℕ, zero, suc, ◌+◌, Bool, true, false, Option, none, some, List, [], ◌∷◌, ◌++◌, if◌then◌else◌,
  length, ℤ, pos,
}
use oserver.HttpResponse.{HttpResponse}
use oserver.HttpResponse.Gen.{Gen, Generated, out_of_fuel, fault, generated, http_response_gen}
use oserver.Server.Files.{Os}

-- `sizeof(wbuf)`
abbrev pub wbuf_size : ℕ
wbuf_size = 4096

-- The response, the files, `keep_alive`, `wp`, and the bytes that have been handed to `write`.
pub record Sending (F : Type 0) : Type 0 where
  pub res : HttpResponse
  pub files : F
  pub keep_alive : Bool
  pub wp : ℕ
  pub sent : List ℕ

module _ {F : Type 0} (os : Os F) (socket : ℤ) where
  -- What a write of the buffer leaves, and whether the loop is left: it takes no notice of bytes that
  -- are not written.
  abbrev pub wrote : Sending F → List ℕ → Option ℕ × F → Bool × Sending F
  wrote s text (none, files) =
      (true, record s { files = files; keep_alive = false; sent = s.sent ++ text })
  wrote s text (some ret, files) =
      (false, record s { files = files; wp = s.wp + ret; sent = s.sent ++ text })

  -- `if(ret <= 0) … else …`
  abbrev pub send_buffer : Sending F → List ℕ → Bool × Sending F
  send_buffer s [] = (false, s)
  send_buffer s (c ∷ text) = wrote s (c ∷ text) (os.write_fd s.files socket (c ∷ text))

  -- The rest of a round, where `rest` is the next one; `none` is a fault.
  abbrev pub send_round :
      (Sending F → Option (Sending F)) → Sending F → Generated F → Option (Sending F)
  send_round rest s out_of_fuel = none
  send_round rest s fault = none
  send_round rest s (generated res g) =
      let (leaves, s') = send_buffer (record s { res = res; files = g.files }) g.written in
      if leaves then some s' else if g.is_end then some s' else rest s'

  -- The loop, with fuel for its rounds.
  unfoldable pub send_loop : ℕ → Sending F → Option (Sending F)
  send_loop zero s = none
  send_loop (suc fuel) s =
      send_round (send_loop fuel) s (http_response_gen os.read_fd s.res (pos wbuf_size) s.files)

  -- `wp = 0; send_end = 0; do … while(!send_end);`
  unfoldable pub send_response : ℕ → HttpResponse → F → Bool → Option (Sending F)
  unfolding send_loop
  send_response fuel res files keep_alive =
      send_loop fuel
        (record { res = res; files = files; keep_alive = keep_alive; wp = 0; sent = [] })
