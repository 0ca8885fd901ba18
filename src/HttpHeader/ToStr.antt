-- ===== src/HttpHeader/ToStr.antt =====
-- `http_header_to_str` of http_header.c: the text of a message's headers, as far as there is room.
pub mod Text
pub mod Whole
pub mod Log
use oserver.Prelude.{
  ℕ, zero, suc, ◌+◌, Bool, true, false, Option, none, some, List, [], ◌∷◌, ◌++◌, ◌==◌, ltb, leb,
  if◌then◌else◌, get_elem?, length, take, ℤ, pos, negsuc, ◌+ℤ◌, ◌-ℤ◌, pos_part, neg_part,
}
use oserver.Bytes.{codes}
use oserver.Btree.{Tree, leaf, ◌>>=◌}
use oserver.Btree.Contents.{entries}
use oserver.Btree.Thread.{find_node, btree_build_in_order_threading, btree_thread_traverse}
use oserver.HttpHeader.Fields.{Field, http_header_fields}
use oserver.HttpHeader.Collection.{Header, Headers, int16, root_key}

-- `http_header_str_info_t`: what has been written up to `buf`, `size`, and `headers->traverse_ptr`.
pub record StrInfo : Type 0 where
  pub written : List ℕ
  pub size : ℤ
  pub traverse_ptr : Option ℕ

abbrev pub leb_ℤ : ℤ → ℤ → Bool
leb_ℤ a b = leb (pos_part a + neg_part b) (pos_part b + neg_part a)

-- A string up to its first 0.
abbrev pub cstring : List ℕ → List ℕ
cstring [] = []
cstring (c ∷ s) = if c == 0 then [] else c ∷ cstring s

-- What `snprintf` writes of a text in front of `buf + len`, where `len` is the length of the text. In
-- `size` bytes that do not hold the text and a 0, it writes the first `size - 1` bytes and the 0, which
-- takes the place of the last byte of a text that is just as long as `size`, and in none it writes nothing; a
-- negative size becomes a large `size_t`.
abbrev pub printed : List ℕ → ℤ → List ℕ
printed text (pos zero) = []
printed text (pos (suc n)) = if ltb (length text) (suc n) then text else take n text ++ 0 ∷ []
printed text (negsuc n) = text

-- `"%s: %s\r\n"`
abbrev pub line : List ℕ → List ℕ → List ℕ
line name value = name ++ (codes ": " ++ (value ++ 13 ∷ 10 ∷ []))

-- A header whose field is `f`.
abbrev pub print_line : ℕ → Header → Field → StrInfo → Bool × Option StrInfo
print_line k h f info =
    let text = line f.str (cstring h.value) in
    if leb_ℤ (pos f.len +ℤ int16 h.len +ℤ pos 4) info.size
    then (
      false,
      some (record {
        written = info.written ++ printed text info.size;
        size = info.size -ℤ pos (length text);
        traverse_ptr = some k;
      }),
    )
    else (true, some info)

-- The visitor; a state of `none` is a read outside the table.
unfoldable pub http_header_accumelate_str :
    Option (ℕ × Header) → Option StrInfo → Bool × Option StrInfo
http_header_accumelate_str h none = (true, none)
http_header_accumelate_str none (some info) = (true, some (record info { traverse_ptr = none }))
http_header_accumelate_str (some (k, h)) (some info) = elim (get_elem? http_header_fields k) [
  | none ↦ (true, none)
  | some f ↦ print_line k h f info
]

-- What is returned: the number of bytes, the bytes, `*is_end`, and the collection.
pub record Written : Type 0 where
  pub len : ℤ
  pub written : List ℕ
  pub is_end : Bool
  pub headers : Headers

-- The blank line, when the last header has been written and there is room.
abbrev pub blank_line : Headers → ℤ → Bool → StrInfo → Written
blank_line headers size is_end info =
    let ends : Bool = elim info.traverse_ptr [ none ↦ leb_ℤ (pos 2) info.size | some k ↦ false ] in
    if ends
    then record {
      len = size -ℤ (info.size -ℤ pos 2);
      written = info.written ++ 13 ∷ 10 ∷ [];
      is_end = true;
      headers = record headers { traverse_ptr = root_key headers.header_tree };
    }
    else record {
      len = size -ℤ info.size;
      written = info.written;
      is_end = is_end;
      headers = record headers { traverse_ptr = info.traverse_ptr };
    }

-- The node that a key points to.
abbrev pub node_of : Tree Header → Option ℕ → Tree Header
node_of tree none = leaf
node_of tree (some k) = find_node k tree

-- `is_end` is what stands in `*is_end`. `none` is a fault.
unfoldable pub http_header_to_str : Headers → ℤ → Bool → Option Written
unfolding http_header_accumelate_str
http_header_to_str headers size is_end =
    let tree = btree_build_in_order_threading headers.header_tree in
    btree_thread_traverse http_header_accumelate_str (length (entries tree)) tree
      (node_of tree headers.traverse_ptr)
      (some (record { written = []; size = size; traverse_ptr = headers.traverse_ptr }))
    >>= λ o.
        o >>= λ info. some (blank_line (record headers { header_tree = tree }) size is_end info)
