-- ===== src/Server/Send/Whole.antt =====
-- What the sending loop of server.c hands to `write`: the head of the response and the whole file.
use oserver.Prelude.{
  ℕ, zero, suc, ◌+◌, ◌-◌, ◌<◌, ◌≡◌, refl, sym, ap, subst, ◌∙◌, Bool, true, false, Option, none,
  some, List, [], ◌∷◌, ◌++◌, append_assoc, append-nil, take, drop, take-append-drop, length,
  length-append, All, arith, if◌then◌else◌, ℤ, pos, ◌⊎◌, inl, inr,
}
use oserver.Btree.Contents.{entries}
use oserver.HttpHeader.Collection.{root_key}
use oserver.HttpHeader.Collection.Insert.{IsCollection}
use oserver.HttpHeader.ToStr.Text.{IsText}
use oserver.HttpVersion.{Version, version_1_0, version_1_1, version_none}
use oserver.HttpResponse.{HttpResponse, gen_status_version, gen_status_content}
use oserver.HttpResponse.Gen.{
  Gen, Generated, generated, gen_start, put, gen_read, gen_content, http_response_gen,
}
use oserver.HttpResponse.Gen.Whole.{head, past_head, response_gen-gen_content, response_gen-content}
use oserver.Server.Files.{Os}
use oserver.Server.Send.{
  Sending, wrote, send_buffer, send_round, send_loop, send_response, wbuf_size,
}

-- The descriptor `fd` is a regular file's: in a state where `bytes` are left to read, a call of `read`
-- gives as many of them as there is room for, and takes them away. A `write` to the socket, whatever it
-- answers, leaves the file where it is.
pub record IsRegular {F : Type 0} (os : Os F) (socket : ℤ) (fd : ℕ) (IsAt : F → List ℕ → Type 0)
    : Type 0 where
  pub reads :
      (files : F) (bytes : List ℕ) (size : ℕ)
      → IsAt files bytes
      → ((os.read_fd files fd (pos size)).0 ≡ some (take size bytes))
        × IsAt (os.read_fd files fd (pos size)).1 (drop size bytes)
  pub writes :
      (files : F) (bytes text : List ℕ)
      → IsAt files bytes
      → IsAt (os.write_fd files socket text).1 bytes

append_left : (s a b d : List ℕ) → a ++ b ≡ d → s ++ a ++ b ≡ s ++ d
append_left s a b d e = append_assoc s a b ∙ ap (λ (t : List ℕ). s ++ t) e

-- Every head begins with an `H`.
behind_h : HttpResponse → List ℕ
behind_h res = drop 1 (head res)

head-h : (res : HttpResponse) → head res ≡ 72 ∷ behind_h res
unfolding behind_h
head-h res = starts res res.version refl
  where
    starts :
        (res : HttpResponse) (v : Version) → res.version ≡ v → head res ≡ 72 ∷ drop 1 (head res)
    starts res version_1_0 e = rw (e) refl
    starts res version_1_1 e = rw (e) refl
    starts res version_none e = rw (e) refl

module _ {F : Type 0} (os : Os F) (socket : ℤ) (fd : ℕ) (IsAt : F → List ℕ → Type 0)
    (regular : IsRegular os socket (suc fd) IsAt) where
  -- The last bytes that have been handed over were those of a write that failed, after which nothing
  -- more was done.
  abbrev WriteFailed : Sending F → Type 0
  WriteFailed s =
      (files : F) × (before : List ℕ) × (text : List ℕ) × (os.write_fd files socket text
        ≡ (none, s.files))
      × (s.sent ≡ before ++ text)

  -- How the loop ends, where all of `all` is to be sent: all of it has been handed to `write`, the
  -- connection is kept as before, and the file is read to its end; or the last write has failed, the
  -- connection is not kept, and what has been handed over is how `all` begins.
  abbrev pub Ends : HttpResponse → Bool → List ℕ → Option (Sending F) → Type 0
  Ends res keep_alive all none = ⊥
  Ends res keep_alive all (some s) =
      (s.res ≡ res)
      × ((s.sent ≡ all) × (s.keep_alive ≡ keep_alive) × IsAt s.files []
          ⊎ (s.keep_alive ≡ false) × WriteFailed s × ((rest : List ℕ) × (s.sent ++ rest ≡ all)))

  -- What follows a write.
  abbrev after_write :
      (Sending F → Option (Sending F)) → Bool → Bool × Sending F → Option (Sending F)
  after_write rest is_end p = if p.0 then some p.1 else if is_end then some p.1 else rest p.1

  wrote-Ends :
      (rest : Sending F → Option (Sending F)) (s : Sending F) (text left all : List ℕ)
      (is_end : Bool) (o : Option ℕ × F)
      → (from : F) → os.write_fd from socket text ≡ o
      → IsAt o.1 left
      → (s.sent ++ text) ++ left ≡ all
      → (is_end ≡ true → left ≡ [])
      → ((files : F) (ret : ℕ)
          → IsAt files left
          → is_end ≡ false
          → Ends s.res s.keep_alive all
              (rest (record s { files = files; wp = s.wp + ret; sent = s.sent ++ text })))
      → Ends s.res s.keep_alive all (after_write rest is_end (wrote os socket s text o))
  wrote-Ends rest s text left all is_end (none, files) from fails at whole last go =
      (refl, inr (refl, (from, s.sent, text, fails, refl), (left, whole)))
  wrote-Ends rest s text left all true (some ret, files) from fails at whole last go = (
    refl,
    inl (
      sym (append-nil (s.sent ++ text))
          ∙ ap (λ (l : List ℕ). (s.sent ++ text) ++ l) (sym (last refl))
          ∙ whole,
      refl,
      subst (IsAt files) (last refl) at,
    ),
  )
  wrote-Ends rest s text left all false (some ret, files) from fails at whole last go =
      go files ret at refl

  -- A round that has written `c ∷ text`.
  round-Ends :
      (rest : Sending F → Option (Sending F)) (s : Sending F) (res : HttpResponse) (g : Gen F)
      (c : ℕ) (text left all : List ℕ)
      → g.written ≡ c ∷ text
      → IsAt g.files left
      → (s.sent ++ c ∷ text) ++ left ≡ all
      → (g.is_end ≡ true → left ≡ [])
      → ((files : F) (ret : ℕ)
          → IsAt files left
          → g.is_end ≡ false
          → Ends res s.keep_alive all (
              rest (record s {
                res = res;
                files = files;
                wp = s.wp + ret;
                sent = s.sent ++ c ∷ text;
              })))
      → Ends res s.keep_alive all (send_round os socket rest s (generated res g))
  round-Ends rest s res g c text left all w at whole last go =
      let s' : Sending F = record s { res = res; files = g.files } in
      subst
        (λ (t : List ℕ).
          Ends res s.keep_alive all (after_write rest g.is_end (send_buffer os socket s' t)))
        (sym w)
        (wrote-Ends rest s' (c ∷ text) left all g.is_end (os.write_fd g.files socket (c ∷ text))
          g.files refl (regular.writes g.files left (c ∷ text) at) whole last go)

  -- What a read of the file comes to.
  read_whole :
      (files : F) (bytes : List ℕ) (size : ℕ)
      → IsAt files bytes
      → os.read_fd files (suc fd) (pos size)
        ≡ (some (take size bytes), (os.read_fd files (suc fd) (pos size)).1)
  read_whole files bytes size at =
      ap (λ (o : Option (List ℕ)). (o, (os.read_fd files (suc fd) (pos size)).1))
        (regular.reads files bytes size at).0

  turn :
      (res : HttpResponse) (files : F) (bytes : List ℕ)
      → res.gen_status ≡ gen_status_content
      → res.content ≡ pos (suc fd)
      → IsAt files bytes
      → http_response_gen os.read_fd res (pos wbuf_size) files
        ≡ generated res (
            gen_read os.read_fd
              (some (take wbuf_size bytes), (os.read_fd files (suc fd) (pos wbuf_size)).1)
              (gen_start (pos wbuf_size) files))
  turn res files bytes e c at =
      let start = gen_start (pos wbuf_size) files in
      response_gen-content os.read_fd res (pos wbuf_size) files e
      ∙ ap (λ (z : ℤ). generated res (gen_content os.read_fd z start)) c
      ∙ ap (λ (p : Option (List ℕ) × F). generated res (gen_read os.read_fd p start))
          (read_whole files bytes wbuf_size at)

  -- The loop reads and writes what is left of the file.
  content_loop :
      (fuel : ℕ) (s : Sending F) (bytes all : List ℕ)
      → s.res.gen_status ≡ gen_status_content
      → s.res.content ≡ pos (suc fd)
      → IsAt s.files bytes
      → s.sent ++ bytes ≡ all
      → length bytes < fuel
      → Ends s.res s.keep_alive all (send_loop os socket fuel s)
  unfolding send_loop
  content_loop zero s bytes all e c at whole enough = absurd (omega (arith, enough))
  content_loop (suc fuel) s [] all e c at whole enough =
      subst
        (λ (g : Generated F).
          Ends s.res s.keep_alive all (send_round os socket (send_loop os socket fuel) s g))
        (sym (turn s.res s.files [] e c at))
        (
          refl,
          inl (sym (append-nil s.sent) ∙ whole, refl, (regular.reads s.files [] wbuf_size at).1),
        )
  content_loop (suc fuel) s (b ∷ bytes) all e c at whole enough =
      let left = drop wbuf_size (b ∷ bytes) in
      let text = take 4095 bytes in
      let next = (os.read_fd s.files (suc fd) (pos wbuf_size)).1 in
      let joined : (b ∷ text) ++ left ≡ b ∷ bytes = take-append-drop wbuf_size (b ∷ bytes) in
      let parts : length (b ∷ text) + length left ≡ length (b ∷ bytes) =
        sym (length-append (b ∷ text) left) ∙ ap length joined in
      let all_left : (s.sent ++ b ∷ text) ++ left ≡ all =
        append_left s.sent (b ∷ text) left (b ∷ bytes) joined ∙ whole in
      subst
        (λ (g : Generated F).
          Ends s.res s.keep_alive all (send_round os socket (send_loop os socket fuel) s g))
        (sym (turn s.res s.files (b ∷ bytes) e c at))
        (round-Ends (send_loop os socket fuel) s s.res
          (gen_read os.read_fd (some (b ∷ text), next) (gen_start (pos wbuf_size) s.files)) b text
          left all refl (regular.reads s.files (b ∷ bytes) wbuf_size at).1 all_left
          (λ is_end. absurd (cc))
          (λ files ret at' goes.
            content_loop fuel
              (record s { files = files; wp = s.wp + ret; sent = s.sent ++ b ∷ text }) left all e c
              at' all_left (omega (arith, enough, parts))))

  -- The round that writes the head, and the rounds behind it.
  head_round :
      (fuel n : ℕ) (s : Sending F) (res : HttpResponse) (files : F) (bytes w text : List ℕ)
      (size : ℤ) (c : ℕ)
      → res.gen_status ≡ gen_status_content
      → res.content ≡ pos (suc fd)
      → w ≡ c ∷ text
      → s.sent ≡ []
      → IsAt files (drop n bytes)
      → 0 < n
      → length bytes < fuel
      → let g : Gen F = record {
        written = w;
        size = size;
        is_header_end = true;
        is_end = false;
        files = s.files;
      } in
        Ends res s.keep_alive (w ++ bytes) (
          send_round os socket
            (send_loop os socket fuel)
            s
            (generated res (gen_read os.read_fd (some (take n bytes), files) g)))
  head_round fuel zero s res files bytes w text size c e con we none_yet at n_pos enough =
      absurd (omega (arith, n_pos))
  head_round fuel (suc n) s res files [] w text size c e con we none_yet at n_pos enough =
      round-Ends (send_loop os socket fuel) s res
        (record { written = w; size = size; is_header_end = true; is_end = true; files = files }) c
        text [] (w ++ []) we at
        (ap (λ (t : List ℕ). (t ++ c ∷ text) ++ []) none_yet
          ∙ ap (λ (t : List ℕ). t ++ []) (sym we))
        (λ is_end. refl) (λ files' ret at' goes. absurd (cc))
  head_round fuel (suc n) s res files (b ∷ bytes) w text size c e con we none_yet at n_pos enough =
      let left = drop n bytes in
      let read = b ∷ take n bytes in
      let joined : read ++ left ≡ b ∷ bytes = take-append-drop (suc n) (b ∷ bytes) in
      let parts = sym (length-append read left) ∙ ap length joined in
      let all_left : (s.sent ++ (c ∷ (text ++ read))) ++ left ≡ w ++ b ∷ bytes =
        ap (λ (t : List ℕ). (t ++ (c ∷ (text ++ read))) ++ left) none_yet
        ∙ append_left (c ∷ text) read left (b ∷ bytes) joined
        ∙ ap (λ (t : List ℕ). t ++ b ∷ bytes) (sym we) in
      round-Ends (send_loop os socket fuel) s res
        (put read (record {
          written = w;
          size = size;
          is_header_end = true;
          is_end = false;
          files = files;
        }))
        c (text ++ read) left (w ++ b ∷ bytes) (ap (λ (t : List ℕ). t ++ read) we) at all_left
        (λ is_end. absurd (cc))
        (λ files' ret at' goes.
          content_loop fuel
            (record s {
              res = res;
              files = files';
              wp = s.wp + ret;
              sent = s.sent ++ (c ∷ (text ++ read));
            })
            left (w ++ b ∷ bytes) e con at' all_left (omega (arith, enough, parts)))

  -- Where nothing of the response has been written, its headers are a collection with no 0 byte in a
  -- value and the walk of them at the root, its content is a regular file that is open at a
  -- descriptor above 0, and its head leaves room for a byte in the buffer, the loop ends, with fuel
  -- for two rounds more than the file has bytes. The head and all bytes of the file have then been
  -- handed to `write` in order, however many of them it has taken, the file is read to its end and the
  -- connection is kept as before; or the last write has failed, the connection is not kept, and the
  -- bytes that have been handed to `write` are the first ones of these.
  pub send_response-whole :
      (fuel : ℕ) (res : HttpResponse) (files : F) (keep_alive : Bool) (bytes : List ℕ)
      → res.gen_status ≡ gen_status_version
      → res.content ≡ pos (suc fd)
      → IsCollection res.headers
      → All IsText (entries res.headers.header_tree)
      → res.headers.traverse_ptr ≡ root_key res.headers.header_tree
      → IsAt files bytes
      → length (head res) < wbuf_size
      → length bytes + 1 < fuel
      → Ends
          (past_head res)
          keep_alive
          (head res ++ bytes)
          (send_response os socket fuel res files keep_alive)
  unfolding send_response send_loop
  send_response-whole zero res files keep_alive bytes e c col texts root at room enough =
      absurd (omega (arith, enough))
  send_response-whole (suc fuel) res files keep_alive bytes e c col texts root at room enough =
      let n = wbuf_size - length (head res) in
      let s : Sending F = record {
        res = res;
        files = files;
        keep_alive = keep_alive;
        wp = 0;
        sent = [];
      } in
      let g : Gen F = record {
        written = head res;
        size = pos n;
        is_header_end = true;
        is_end = false;
        files = files;
      } in
      let answer =
        response_gen-gen_content os.read_fd res wbuf_size files e col texts root
          (omega (arith, room))
        ∙ ap (λ (z : ℤ). generated (past_head res) (gen_content os.read_fd z g)) c
        ∙ ap (λ (p : Option (List ℕ) × F). generated (past_head res) (gen_read os.read_fd p g))
            (read_whole files bytes n at) in
      subst
        (λ (g : Generated F).
          Ends (past_head res) keep_alive (head res ++ bytes)
            (send_round os socket (send_loop os socket fuel) s g))
        (sym answer)
        (head_round fuel n s (past_head res) (os.read_fd files (suc fd) (pos n)).1 bytes (head res)
          (behind_h res) (pos n) 72 refl c (head-h res) refl (regular.reads files bytes n at).1
          (omega (arith, room)) (omega (arith, enough)))
