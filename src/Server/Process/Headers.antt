-- ===== src/Server/Process/Headers.antt =====
-- The headers that server.c adds to a response.
use oserver.Prelude.{
  ℕ, suc, ◌+◌, ◌%◌, ◌<◌, ◌≡◌, ◌≢◌, refl, ap, ◌∙◌, some, List, [], ◌∷◌, All, length, get_or, arith,
}
use mathlib.Core.Path.{fun_ext}
use oserver.Bytes.{Buffer, advance}
use oserver.Btree.{Tree, btree_insert, ◌>>=◌}
use oserver.Btree.Entries.{insert_entry}
use oserver.Btree.Contents.{entries}
use oserver.HttpHeader.Hash.{bytes}
use oserver.HttpHeader.Search.{num_fields}
use oserver.HttpHeader.Collection.{Header, Headers, root_key, http_header_init}
use oserver.HttpHeader.Collection.Insert.{
  IsCollection, rooted, add_by_id-rooted, header_of, init-IsCollection,
}
use oserver.HttpResponse.{HttpResponse}
use oserver.Server.Process.{buffer_of, add_header}

-- The collection holds these headers, and a walk of it starts at the root.
pub record HasHeaders (headers : Headers) (es : List (ℕ × Header)) : Type 0 where
  pub collection : IsCollection headers
  pub contents : entries headers.header_tree ≡ es
  pub at : headers.traverse_ptr ≡ root_key headers.header_tree

pub init-HasHeaders : HasHeaders http_header_init []
unfolding http_header_init oserver.Btree.btree_init
init-HasHeaders = record { collection = init-IsCollection; contents = refl; at = refl }

-- The header of a text.
abbrev pub header_text_of : List ℕ → Header
header_text_of text = record { value = text; len = length text }

bytes-buffer_of : (s : List ℕ) → bytes (buffer_of s) (length s) ≡ s
unfolding bytes
bytes-buffer_of [] = refl
bytes-buffer_of (c ∷ s) =
    let one : advance (buffer_of (c ∷ s)) 1 ≡ buffer_of s =
      fun_ext (λ i. ap (λ (n : ℕ). get_or (c ∷ s) n 0) (next i)) in
    ap (λ (s : List ℕ). c ∷ s) (ap (λ (b : Buffer). bytes b (length s)) one ∙ bytes-buffer_of s)
  where
    next : (i : ℕ) → 1 + i ≡ suc i
    next i = omega arith

-- A value that can be added: it is not empty, has no 0 in it, and its length is an `int16_t`.
abbrev pub IsValue : List ℕ → Type 0
IsValue [] = ⊥
IsValue (c ∷ s) = All (λ c. c ≢ 0) (c ∷ s) × (length (c ∷ s) < 32768)

-- Such a value is added whole.
pub add_header-lem :
    (res : HttpResponse) (es : List (ℕ × Header)) (id : ℕ) (text : List ℕ)
    → HasHeaders res.headers es
    → id < num_fields
    → IsValue text
    → (headers : Headers) × (add_header res id text (length text)
        ≡ some (record res { headers = headers }))
      × HasHeaders headers (insert_entry id (header_text_of text) es)
unfolding add_header
add_header-lem res es id [] h lt v = absurd v
add_header-lem res es id (c ∷ s) h lt v =
    let text = c ∷ s in
    let (tree, answer, collection, contents) =
      add_by_id-rooted res.headers id (length text) (buffer_of text) h.collection lt v.1 v.0.0 in
    let whole : length text % 65536 ≡ length text = omega (arith, v.1) in
    let same : header_of (buffer_of text) (length text) ≡ header_text_of text =
      rw (bytes-buffer_of text, whole) refl in
    (
      rooted tree,
      rw (answer) refl,
      record {
        collection = collection;
        contents = contents ∙ rw (same, h.contents) refl;
        at = refl;
      },
    )
