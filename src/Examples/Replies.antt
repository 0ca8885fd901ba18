-- ===== src/Examples/Replies.antt =====
-- Runs of http_header_to_str, http_response_gen and server.c, and their theorems at a concrete message.
use oserver.Prelude.{
  ℕ, ◌+◌, ◌<◌, ◌≤◌, ◌≡◌, ◌≢◌, refl, ap, true, false, ◌-◌, ◌-ℤ◌, ltb, ℤ, if◌then◌else◌, Option, none,
  some, Bool, List, [], ◌∷◌, ◌++◌, length, take, drop, arith, pos, pos_part,
}
use oserver.Bytes.{codes}
use oserver.Btree.{Tree, leaf, node, btree_in_order_traverse}
use oserver.Btree.Contents.{entries}
use oserver.Btree.Thread.{btree_build_in_order_threading, btree_thread_traverse}
use oserver.Btree.Thread.Build.{threaded, build-threaded}
use oserver.Btree.Thread.Follow.{visit_all, thread_traverse-visit_all}
use oserver.HttpVersion.{version_1_1}
use oserver.HttpMethod.{http_get}
use oserver.HttpHeader.Fields.{http_header_fields}
use oserver.HttpHeader.Search.{field_str}
use oserver.HttpHeader.Collection.Length.{text_len}
use oserver.HttpHeader.Collection.{Header, Headers}
use oserver.HttpHeader.Collection.Insert.{IsCollection}
use oserver.HttpHeader.ToStr.{http_header_to_str}
use oserver.HttpHeader.ToStr.Whole.{whole_text, to_str-whole_text}
use oserver.HttpHeader.ToStr.Log.{Logged, message_log, IsInBuffer, log-IsInBuffer}
use oserver.HttpUrl.Parse.{http_url_init}
use oserver.HttpRequest.{HttpRequest, parse_status_error, http_request_init}
use oserver.HttpResponse.{
  HttpResponse, http_response_init, http_200_ok, http_response_code, gen_status_version,
}
use oserver.HttpResponse.Codes.{IsResponse, open_content}
use oserver.HttpResponse.Gen.{Gen, out_of_fuel, generated, http_response_gen}
use oserver.HttpResponse.Gen.Rounds.{response_gen-Ends}
use oserver.HttpResponse.Gen.Whole.{head, past_head, Adds, response_gen-head}
use oserver.Server.Files.{Os, file_path, written_path, gen_paths}
use oserver.Server.Process.{Served, closing, server_process_request}
use oserver.Server.Process.Replies.{found, Carries, reply_headers}
use oserver.Server.Process.Values.{HasRoom}
use oserver.Server.Process.Refines.{lookup_path, reply, process_request-Carries}
use oserver.Server.Process.ContentLength.{HasLength, process_request-HasLength}
use oserver.Server.Send.{send_response, wbuf_size}
use oserver.Server.Client.{Received, blocks, receives, Connection, serve_loop, server_serv_client}
use oserver.Server.Client.Unread.{Leaves, serv_client-Leaves}
use oserver.Server.Send.Whole.{IsRegular, Ends, send_response-whole}

-- `Host: a` and `Server: b`
abbrev headers_tree : Tree Header
headers_tree =
    node leaf 41 (record { value = codes "a"; len = 1 }) 255
      (node leaf 63 (record { value = codes "b"; len = 1 }) 0 leaf)

abbrev headers : Headers
headers = record { header_tree = headers_tree; traverse_ptr = some 41 }

headers-IsCollection : IsCollection headers
headers-IsCollection = record {
  tree = record { avl = omega arith; sorted = omega arith };
  stored = omega arith;
}

threads_run : btree_build_in_order_threading headers_tree ≡ threaded none headers_tree
unfolding btree_build_in_order_threading btree_in_order_traverse
threads_run = refl

build-threaded_example : btree_build_in_order_threading headers_tree ≡ threaded none headers_tree
build-threaded_example = build-threaded headers_tree (omega arith)

-- A visit that goes on and keeps the keys.
abbrev keys : Option (ℕ × Header) → List ℕ → Bool × List ℕ
keys none s = (true, s)
keys (some (k, h)) s = (false, s ++ k ∷ [])

thread_traverse-visit_all_example :
    btree_thread_traverse keys
      (2 + 0)
      (btree_build_in_order_threading headers_tree)
      (btree_build_in_order_threading headers_tree)
      []
    ≡ some (visit_all keys (entries headers_tree) [])
thread_traverse-visit_all_example = thread_traverse-visit_all keys headers_tree 0 [] (omega arith)

headers_fit : 2 + text_len (entries headers_tree) ≤ 100
unfolding field_str http_header_fields
headers_fit = omega arith

to_str-whole_text_example : http_header_to_str headers (pos 100) false ≡ some (whole_text headers)
to_str-whole_text_example =
    to_str-whole_text headers 100 false headers-IsCollection refl headers_fit

log-IsInBuffer_example : (l : Logged) × (message_log version_1_1 headers ≡ some l) × IsInBuffer l
log-IsInBuffer_example = log-IsInBuffer version_1_1 headers headers-IsCollection refl

-- A system with one file of two bytes; the state is what is left to read of it.
abbrev os : Os (List ℕ)
os = record {
  stat_path = λ files path. some (record { is_reg = true; st_size = 2 });
  open_path = λ files path. (some 3, files);
  close_fd = λ files fd. files;
  read_fd = λ files fd size. (some (take (pos_part size) files), drop (pos_part size) files);
  write_fd = λ files socket text. (some (length text), files);
}

abbrev res : HttpResponse
res = record {
  version = version_1_1;
  status = http_200_ok;
  headers = headers;
  gen_status = gen_status_version;
  content = pos 3;
}

response_gen-Ends_example : http_response_gen os.read_fd res (pos 10) (1 ∷ 2 ∷ []) ≢ out_of_fuel
response_gen-Ends_example = response_gen-Ends os.read_fd res (pos 10) (1 ∷ 2 ∷ [])

head_fits : length (head res) ≤ 100
unfolding field_str http_header_fields http_response_code
head_fits = omega arith

response_gen-head_example :
    (g : Gen (List ℕ)) × (http_response_gen os.read_fd res (pos 100) (1 ∷ 2 ∷ [])
      ≡ generated (past_head res) g)
    × Adds os.read_fd (pos 3) (100 - length (head res)) (1 ∷ 2 ∷ []) (head res) g
response_gen-head_example =
    response_gen-head os.read_fd res 100 (1 ∷ 2 ∷ []) refl headers-IsCollection (omega arith) refl
      head_fits

-- `GET /`
abbrev req : HttpRequest
req = record http_request_init { method = http_get }

res-IsResponse : IsResponse (http_response_init http_200_ok)
unfolding http_response_init
res-IsResponse = (refl, λ e. refl)

path_fits : HasRoom (codes "/www") req.url
unfolding written_path gen_paths http_request_init http_url_init
path_fits = omega arith

req_is_right : (req.parse_status ≢ parse_status_error) × (req.method ≡ http_get)
unfolding http_request_init
req_is_right = (λ e. cc, refl)

file_there :
    lookup_path os
      (file_path (codes "/www") req.url)
      (closing os (open_content (http_response_init http_200_ok)) (1 ∷ 2 ∷ []))
    ≡ found 3 2 (1 ∷ 2 ∷ [])
unfolding http_response_init
file_there = refl

process_request-Carries_example :
    let r =
      reply os req.parse_status req.method
        (file_path (codes "/www") req.url)
        true
        (closing os (open_content (http_response_init http_200_ok)) (1 ∷ 2 ∷ [])) in
    Carries
      (server_process_request os
        (codes "/www")
        (1 ∷ 2 ∷ [])
        req
        (http_response_init http_200_ok)
        true)
      r
      (reply_headers r)
process_request-Carries_example =
    process_request-Carries os (codes "/www") (1 ∷ 2 ∷ []) req (http_response_init http_200_ok) true
      res-IsResponse path_fits

process_request-HasLength_example :
    (s : Served (List ℕ)) × (server_process_request os
        (codes "/www")
        (1 ∷ 2 ∷ [])
        req
        (http_response_init http_200_ok)
        false
      ≡ some s)
    × HasLength os 3 2 s
process_request-HasLength_example =
    process_request-HasLength os (codes "/www") (1 ∷ 2 ∷ []) (1 ∷ 2 ∷ []) req
      (http_response_init http_200_ok) false 3 2 res-IsResponse path_fits req_is_right.0
      req_is_right.1 file_there (omega arith)

-- The state of the file is what is left to read of it.
abbrev IsLeft : List ℕ → List ℕ → Type 0
IsLeft files bytes = files ≡ bytes

os-IsRegular : IsRegular os (pos 5) 3 IsLeft
os-IsRegular = record {
  reads = λ files bytes size at.
      (ap (λ (s : List ℕ). some (take size s)) at, ap (λ (s : List ℕ). drop size s) at);
  writes = λ files bytes text at. at;
}

head_is_short : length (head res) < wbuf_size
unfolding field_str http_header_fields http_response_code
head_is_short = omega arith

send_response-whole_example :
    Ends os
      (pos 5)
      2
      IsLeft
      os-IsRegular
      (past_head res)
      true
      (head res ++ 1 ∷ 2 ∷ [])
      (send_response os (pos 5) 4 res (1 ∷ 2 ∷ []) true)
send_response-whole_example =
    send_response-whole os (pos 5) 2 IsLeft os-IsRegular 4 res (1 ∷ 2 ∷ []) true (1 ∷ 2 ∷ []) refl
      refl headers-IsCollection (omega arith) refl refl head_is_short (omega arith)

-- Three bytes kept, and nothing more to read.
abbrev waiting : Connection
waiting = record {
  socket = pos 5;
  request = http_request_init;
  response = http_response_init http_200_ok;
  data_len = 3;
  data_buffer = λ i. b'G';
}

abbrev nothing : List ℕ → ℤ → ℤ → Received × List ℕ
nothing files socket size = (blocks, files)

abbrev as_before : Connection
as_before = record waiting {
  data_buffer = λ i. if ltb i 3 then (if ltb i 3 then b'G' else 0) else b'G';
}

waiting_run :
    server_serv_client os nothing (codes "/www") 4 0 1 waiting [] (λ i. 0)
    ≡ some (as_before, true, [])
unfolding server_serv_client serve_loop ◌-ℤ◌
waiting_run = refl

-- A system that counts what is closed, and a peer that has gone.
abbrev counting : Os (List ℕ)
counting = record os { close_fd = λ files fd. fd ∷ files }

abbrev gone : List ℕ → ℤ → ℤ → Received × List ℕ
gone files socket size = (receives [], files)

serv_client-Leaves_example :
    (r : Connection × Bool × List ℕ) × (server_serv_client counting gone
        (codes "/www")
        4
        0
        1
        waiting
        []
        (λ i. 0)
      ≡ some r)
    × Leaves counting gone (codes "/www") 4 0 5 waiting (receives [], []) r
serv_client-Leaves_example =
    serv_client-Leaves counting gone (codes "/www") 4 0 0 5 waiting [] (λ i. 0) refl tt
