-- ===== src/HttpResponse/Gen/Whole.antt =====
-- The bytes that http_response_gen of http_response.c makes in a buffer that is large enough.
use oserver.Prelude.{
  ℕ, zero, suc, ◌+◌, ◌-◌, ◌≤◌, ◌≡◌, refl, ap, ◌∙◌, Bool, true, false, Option, none, some, List, [],
  ◌∷◌, ◌++◌, length, length-append, All, ◌==◌, pos_part, if◌then◌else◌, arith, ℤ, pos, negsuc, ◌-ℤ◌,
  -ℤ-pos,
}
use oserver.Btree.Contents.{entries}
use oserver.HttpVersion.{version_text, http_version_len, http_version_to_str}
use oserver.HttpVersion.Print.{length-version_text, version_to_str-text}
use oserver.HttpHeader.Collection.{Headers, root_key}
use oserver.HttpHeader.Collection.Insert.{IsCollection}
use oserver.HttpHeader.Collection.Length.{text_len}
use oserver.HttpHeader.ToStr.{Written, leb_ℤ, http_header_to_str}
use oserver.HttpHeader.ToStr.Text.{header_text, IsText, length-header_text}
use oserver.HttpHeader.ToStr.Whole.{whole_text, to_str-whole_text}
use oserver.HttpResponse.{
  HttpResponse, GenStatus, http_response_code, gen_status_version, gen_status_code,
  gen_status_headers, gen_status_content,
}
use oserver.HttpResponse.Gen.{
  Gen, generated, put, gen_rank, gen_headers, next_round, gen_start, gen_read, gen_content,
  gen_step, gen_loop, http_response_gen,
}
use oserver.HttpResponse.Gen.Rounds.{round}

-- The status line and the headers.
abbrev pub head : HttpResponse → List ℕ
head res =
    version_text res.version
    ++ (http_response_code res.status ++ 13 ∷ 10 ∷ [])
    ++ (header_text (entries res.headers.header_tree) ++ 13 ∷ 10 ∷ [])

-- The response with its head written.
abbrev pub past_head : HttpResponse → HttpResponse
past_head res = record res {
  headers = (whole_text res.headers).headers;
  gen_status = gen_status_content;
}

-- The room that is left after `text`.
size_put :
    {F : Type 0} (text : List ℕ) (g : Gen F) (n : ℕ)
    → g.size ≡ pos n
    → length text ≤ n
    → (put text g).size ≡ pos (n - length text)
size_put text g n e room = ap (λ (z : ℤ). z -ℤ pos (length text)) e ∙ -ℤ-pos n (length text) room

module _ {F : Type 0} (read : F → ℕ → ℤ → Option (List ℕ) × F) where
  version_round :
      (fuel n : ℕ) (res : HttpResponse) (g : Gen F)
      → res.gen_status ≡ gen_status_version
      → g.size ≡ pos n
      → 9 ≤ n
      → gen_loop read (suc fuel) res g
        ≡ gen_loop read fuel
            (record res { gen_status = gen_status_code })
            (put (version_text res.version) g)
  unfolding gen_step http_version_len
  version_round fuel n res g e size room =
      let fits : leb_ℤ (pos (http_version_len res.version)) g.size ≡ true =
        ap (leb_ℤ (pos 9)) size ∙ ground (arith, room) in
      let text : (http_version_to_str res.version (pos_part g.size)).0 ≡ version_text res.version =
        ap (λ (z : ℤ). (http_version_to_str res.version (pos_part z)).0) size
        ∙ ap (λ (p : List ℕ × ℕ). p.0) (version_to_str-text res.version n room) in
      round read fuel res g gen_status_version e
      ∙ ap
          (λ (b : Bool). next_round (gen_loop read fuel) 0 (
            some (
              if b
              then (
                record res { gen_status = gen_status_code },
                put (http_version_to_str res.version (pos_part g.size)).0 g,
              )
              else (res, g))))
          fits
      ∙ ap
          (λ (t : List ℕ).
            gen_loop read fuel (record res { gen_status = gen_status_code }) (put t g))
          text

  code_round :
      (fuel n : ℕ) (res : HttpResponse) (g : Gen F)
      → res.gen_status ≡ gen_status_code
      → g.size ≡ pos n
      → length (http_response_code res.status) + 2 ≤ n
      → gen_loop read (suc fuel) res g
        ≡ gen_loop read fuel
            (record res { gen_status = gen_status_headers })
            (put (http_response_code res.status ++ 13 ∷ 10 ∷ []) g)
  unfolding gen_step
  code_round fuel n res g e size room =
      let len = length (http_response_code res.status) + 2 in
      let fits : leb_ℤ (pos len) g.size ≡ true = ap (leb_ℤ (pos len)) size ∙ ground (arith, room) in
      round read fuel res g gen_status_code e
      ∙ ap
          (λ (b : Bool). next_round (gen_loop read fuel) 1 (
            some (
              if b
              then (
                record res { gen_status = gen_status_headers },
                put (http_response_code res.status ++ 13 ∷ 10 ∷ []) g,
              )
              else (res, g))))
          fits

  abbrev header_block : Headers → List ℕ
  header_block headers = header_text (entries headers.header_tree) ++ 13 ∷ 10 ∷ []

  headers_round :
      (fuel n : ℕ) (res : HttpResponse) (g : Gen F)
      → res.gen_status ≡ gen_status_headers
      → g.size ≡ pos n
      → IsCollection res.headers
      → res.headers.traverse_ptr ≡ root_key res.headers.header_tree
      → 2 + text_len (entries res.headers.header_tree) ≤ n
      → gen_loop read (suc fuel) res g
        ≡ gen_loop read fuel
            (past_head res)
            (record (put (header_block res.headers) g) { is_header_end = true })
  unfolding gen_step
  headers_round fuel n res g e size c at room =
      let headers = res.headers in
      let answer =
        ap (λ (z : ℤ). http_header_to_str headers z g.is_header_end) size
        ∙ to_str-whole_text headers n g.is_header_end c at room in
      let len : 2 + length (header_text (entries headers.header_tree))
          ≡ length (header_block headers) =
        omega (arith, length-append (header_text (entries headers.header_tree)) (13 ∷ 10 ∷ [])) in
      round read fuel res g gen_status_headers e
      ∙ ap (λ (o : Option Written). next_round (gen_loop read fuel) 2 (gen_headers res g o)) answer
      ∙ ap
          (λ (l : ℕ). gen_loop read fuel (past_head res) (record g {
            written = g.written ++ header_block headers;
            size = g.size -ℤ pos l;
            is_header_end = true;
          }))
          len

  content_round :
      (fuel : ℕ) (res : HttpResponse) (g : Gen F)
      → res.gen_status ≡ gen_status_content
      → gen_loop read (suc fuel) res g ≡ generated res (gen_content read res.content g)
  unfolding gen_step
  content_round fuel res g e =
      round read fuel res g gen_status_content e
      ∙ ap
          (λ (s : GenStatus).
            if gen_rank s == 4
            then generated res (gen_content read res.content g)
            else if gen_rank s == 3
            then generated res (gen_content read res.content g)
            else gen_loop read fuel res (gen_content read res.content g))
          e

  -- The head, and then the look at the content.
  pub response_gen-gen_content :
      (res : HttpResponse) (n : ℕ) (files : F)
      → res.gen_status ≡ gen_status_version
      → IsCollection res.headers
      → All IsText (entries res.headers.header_tree)
      → res.headers.traverse_ptr ≡ root_key res.headers.header_tree
      → length (head res) ≤ n
      → http_response_gen read res (pos n) files
        ≡ generated (past_head res) (
            gen_content read res.content (record {
              written = head res;
              size = pos (n - length (head res));
              is_header_end = true;
              is_end = false;
              files = files;
            }))
  unfolding http_response_gen
  response_gen-gen_content res n files e c texts at room =
      let line = http_response_code res.status ++ 13 ∷ 10 ∷ [] in
      let block = header_block res.headers in
      let g₁ = put (version_text res.version) (gen_start (pos n) files) in
      let g₂ = put line g₁ in
      let g₃ = record (put block g₂) { is_header_end = true } in
      let line_len : length line ≡ length (http_response_code res.status) + 2 =
        length-append (http_response_code res.status) (13 ∷ 10 ∷ []) in
      let block_len : length block ≡ text_len (entries res.headers.header_tree) + 2 = omega (
        arith,
        length-append (header_text (entries res.headers.header_tree)) (13 ∷ 10 ∷ []),
        length-header_text (entries res.headers.header_tree) texts,
      ) in
      let version_len = length-version_text res.version in
      let head_len : length (head res) ≡ 9 + length line + length block = omega (
        arith,
        version_len,
        length-append (version_text res.version ++ line) block,
        length-append (version_text res.version) line,
      ) in
      let size₁ =
        size_put (version_text res.version) (gen_start (pos n) files) n refl
          (omega (arith, room, head_len, version_len)) in
      let size₂ =
        size_put line g₁ (n - length (version_text res.version)) size₁
          (omega (arith, room, head_len, version_len)) in
      let size₃ =
        size_put block g₂ (n - length (version_text res.version) - length line) size₂
          (omega (arith, room, head_len, version_len)) in
      let left : n - length (version_text res.version) - length line - length block
          ≡ n - length (head res) =
        omega (arith, room, head_len, version_len) in
      version_round 3 n res (gen_start (pos n) files) e refl (omega (arith, room, head_len))
      ∙ code_round 2 (n - length (version_text res.version))
          (record res { gen_status = gen_status_code }) g₁ refl size₁
          (omega (arith, room, head_len, version_len, line_len))
      ∙ headers_round 1 (n - length (version_text res.version) - length line)
          (record res { gen_status = gen_status_headers }) g₂ refl size₂ c at
          (omega (arith, room, head_len, version_len, block_len))
      ∙ content_round 0 (past_head res) g₃ refl
      ∙ ap
          (λ (z : ℤ). generated (past_head res) (
            gen_content read res.content (record {
              written = head res;
              size = z;
              is_header_end = true;
              is_end = false;
              files = files;
            })))
          (size₃ ∙ ap pos left)

  -- A later call reads on.
  pub response_gen-content :
      (res : HttpResponse) (size : ℤ) (files : F)
      → res.gen_status ≡ gen_status_content
      → http_response_gen read res size files
        ≡ generated res (gen_content read res.content (gen_start size files))
  unfolding http_response_gen
  response_gen-content res size files e = content_round 3 res (gen_start size files) e

  -- What a read of the open file adds to `text`: nothing, and the end, where there is an error or no
  -- byte left, and otherwise all its bytes.
  abbrev Reads : Option (List ℕ) × F → List ℕ → Gen F → Type 0
  Reads (none, files) text g = (g.written ≡ text) × (g.is_end ≡ true) × (g.files ≡ files)
  Reads (some [], files) text g = (g.written ≡ text) × (g.is_end ≡ true) × (g.files ≡ files)
  Reads (some (c ∷ bytes), files) text g =
      (g.written ≡ text ++ c ∷ bytes) × (g.is_end ≡ false) × (g.files ≡ files)

  -- What stands in the buffer behind `text`, which leaves room for `n` bytes: nothing, and the end,
  -- where there is no descriptor above 0, and otherwise what one read of `n` bytes gives.
  abbrev pub Adds : ℤ → ℕ → F → List ℕ → Gen F → Type 0
  Adds (negsuc m) n files text g = (g.written ≡ text) × (g.is_end ≡ true) × (g.files ≡ files)
  Adds (pos zero) n files text g = (g.written ≡ text) × (g.is_end ≡ true) × (g.files ≡ files)
  Adds (pos (suc fd)) n files text g = Reads (read files (suc fd) (pos n)) text g

  start_at : List ℕ → ℕ → F → Gen F
  start_at text n files = record {
    written = text;
    size = pos n;
    is_header_end = true;
    is_end = false;
    files = files;
  }

  gen_read-Reads :
      (o : Option (List ℕ) × F) (text : List ℕ) (n : ℕ) (files : F)
      → Reads o text (gen_read read o (start_at text n files))
  unfolding start_at
  gen_read-Reads (none, files') text n files = (refl, refl, refl)
  gen_read-Reads (some [], files') text n files = (refl, refl, refl)
  gen_read-Reads (some (c ∷ bytes), files') text n files = (refl, refl, refl)

  gen_content-Adds :
      (content : ℤ) (text : List ℕ) (n : ℕ) (files : F)
      → Adds content n files text (gen_content read content (start_at text n files))
  unfolding start_at
  gen_content-Adds (negsuc m) text n files = (refl, refl, refl)
  gen_content-Adds (pos zero) text n files = (refl, refl, refl)
  gen_content-Adds (pos (suc fd)) text n files =
      gen_read-Reads (read files (suc fd) (pos n)) text n files

  -- Where nothing of the response has been written, its headers are a collection with no 0 byte in a
  -- value, the walk of them stands at the root, and the buffer has room for the status line and the
  -- headers, the call ends without a fault and leaves these in the buffer. Where the content is a
  -- descriptor above 0, one read of as many bytes as there is room left follows: its bytes stand
  -- behind the head, and the end is reported exactly where it fails or gives no byte. Without such a
  -- descriptor the buffer has the head alone, nothing is read, and the end is reported.
  pub response_gen-head :
      (res : HttpResponse) (n : ℕ) (files : F)
      → res.gen_status ≡ gen_status_version
      → IsCollection res.headers
      → All IsText (entries res.headers.header_tree)
      → res.headers.traverse_ptr ≡ root_key res.headers.header_tree
      → length (head res) ≤ n
      → (g : Gen F) × (http_response_gen read res (pos n) files ≡ generated (past_head res) g)
        × Adds res.content (n - length (head res)) files (head res) g
  unfolding start_at
  response_gen-head res n files e c texts at room = (
    gen_content read res.content (start_at (head res) (n - length (head res)) files),
    response_gen-gen_content res n files e c texts at room,
    gen_content-Adds res.content (head res) (n - length (head res)) files,
  )
