-- ===== src/HttpResponse/Gen.antt =====
-- `http_response_gen` of http_response.c: the bytes of a response, as far as the buffer has room.
-- What is read from a file is a parameter.
pub mod Whole
pub mod Rounds
use oserver.Prelude.{
  ℕ, zero, suc, ◌+◌, ◌-◌, ◌≡◌, Bool, true, false, Option, none, some, List, [], ◌∷◌, ◌++◌, ◌==◌,
  if◌then◌else◌, length, ℤ, pos, negsuc, ◌+ℤ◌, ◌-ℤ◌, pos_part,
}
use oserver.HttpVersion.{Version, http_version_len, http_version_to_str}
use oserver.HttpHeader.Collection.{Headers, http_header_len}
use oserver.HttpHeader.ToStr.{Written, leb_ℤ, http_header_to_str}
use oserver.HttpResponse.{
  HttpStatus, http_response_code, HttpResponse, GenStatus, gen_status_version, gen_status_code,
  gen_status_headers, gen_status_content, gen_status_error,
}

-- The local variables `size`, `is_header_end` and `*is_end`, with the bytes from `buf` up to `p` and
-- the state of the files.
pub record Gen (F : Type 0) : Type 0 where
  pub written : List ℕ
  pub size : ℤ
  pub is_header_end : Bool
  pub is_end : Bool
  pub files : F

-- The result of a call; `fault` is a read outside an array or a missing node.
pub data Generated (F : Type 0) : Type 0 where
  out_of_fuel fault : Generated F
  generated : HttpResponse → Gen F → Generated F

abbrev pub gen_rank : GenStatus → ℕ
gen_rank gen_status_version = 0
gen_rank gen_status_code = 1
gen_rank gen_status_headers = 2
gen_rank gen_status_content = 3
gen_rank gen_status_error = 4

module _ {F : Type 0} where
  -- `size -= len; p += len;` for the bytes of `text`.
  abbrev pub put : List ℕ → Gen F → Gen F
  put text g = record g { written = g.written ++ text; size = g.size -ℤ pos (length text) }

  abbrev pub gen_start : ℤ → F → Gen F
  gen_start size files = record {
    written = [];
    size = size;
    is_header_end = false;
    is_end = false;
    files = files;
  }

  abbrev pub gen_version : HttpResponse → Gen F → HttpResponse × Gen F
  gen_version res g =
      if leb_ℤ (pos (http_version_len res.version)) g.size
      then (
        record res { gen_status = gen_status_code },
        put (http_version_to_str res.version (pos_part g.size)).0 g,
      )
      else (res, g)

  abbrev pub gen_code : HttpResponse → Gen F → HttpResponse × Gen F
  gen_code res g =
      let code = http_response_code res.status in
      if leb_ℤ (pos (length code + 2)) g.size
      then (record res { gen_status = gen_status_headers }, put (code ++ 13 ∷ 10 ∷ []) g)
      else (res, g)

  -- What follows `http_header_to_str`, whose fault is a fault.
  abbrev pub gen_headers : HttpResponse → Gen F → Option Written → Option (HttpResponse × Gen F)
  gen_headers res g none = none
  gen_headers res g (some w) = some (
    record res {
      headers = w.headers;
      gen_status = (if w.is_end then gen_status_content else gen_status_headers);
    },
    record g { written = g.written ++ w.written; size = g.size -ℤ w.len; is_header_end = w.is_end },
  )

  -- `while(status != res->gen_status && …)`
  abbrev pub next_round :
      (HttpResponse → Gen F → Generated F) → ℕ → Option (HttpResponse × Gen F) → Generated F
  next_round rest now none = fault
  next_round rest now (some (res, g)) =
      if gen_rank res.gen_status == 4
      then generated res g
      else if gen_rank res.gen_status == now
      then generated res g
      else rest res g

  -- `read(fd, p, size)` on the state of the files: the bytes, or `none` for -1.
  module _ (read : F → ℕ → ℤ → Option (List ℕ) × F) where
    -- What a read of the open file adds.
    abbrev pub gen_read : Option (List ℕ) × F → Gen F → Gen F
    gen_read (none, files) g = record g { is_end = true; files = files }
    gen_read (some [], files) g = record g { is_end = true; files = files }
    gen_read (some (c ∷ bytes), files) g = put (c ∷ bytes) (record g { files = files })

    -- `if(res->content > 0) … else *is_end = 1;`
    abbrev pub gen_content : ℤ → Gen F → Gen F
    gen_content (negsuc n) g = record g { is_end = true }
    gen_content (pos zero) g = record g { is_end = true }
    gen_content (pos (suc fd)) g = gen_read (read g.files (suc fd) g.size) g

    -- The `switch`; `none` is a fault.
    unfoldable pub gen_step : HttpResponse → Gen F → GenStatus → Option (HttpResponse × Gen F)
    gen_step res g gen_status_version = some (gen_version res g)
    gen_step res g gen_status_code = some (gen_code res g)
    gen_step res g gen_status_headers =
        gen_headers res g (http_header_to_str res.headers g.size g.is_header_end)
    gen_step res g gen_status_content = some (res, gen_content res.content g)
    gen_step res g gen_status_error =
        some (record res { gen_status = gen_status_error }, record g { is_end = true })

    -- The loop, which ends with an error, or when the status is what it was.
    unfoldable pub gen_loop : ℕ → HttpResponse → Gen F → Generated F
    unfolding gen_step
    gen_loop zero res g = out_of_fuel
    gen_loop (suc fuel) res g =
        next_round (gen_loop fuel) (gen_rank res.gen_status) (gen_step res g res.gen_status)

    -- A round that does not end the loop goes on to the next status.
    abbrev pub gen_rounds : ℕ
    gen_rounds = 4

    unfoldable pub http_response_gen : HttpResponse → ℤ → F → Generated F
    unfolding gen_loop
    http_response_gen res size files = gen_loop gen_rounds res (gen_start size files)
