-- ===== src/Examples/Messages.antt =====
-- Runs of the collection of headers and its parser, and their theorems at concrete messages.
use oserver.Prelude.{◌+◌, ◌≡◌, refl, [], ◌∷◌, get_or, some, arith, map, pos, ◌++◌}
use oserver.Bytes.{Buffer, codes, success}
use oserver.Btree.Contents.{entries}
use oserver.Btree.Entries.{insert_entry}
use oserver.HttpHeader.Hash.{bytes, tolower}
use oserver.HttpHeader.Search.{field_str}
use oserver.HttpHeader.Collection.{
  http_header_init, http_header_add, http_header_add_by_id, http_header_len,
}
use oserver.HttpHeader.Collection.Insert.{
  init-IsCollection, Added, header_of, add_by_id-Added, add-known,
}
use oserver.HttpHeader.Collection.Length.{text_len, len-text_len}
use oserver.HttpHeader.Parse.{http_header_parse}
use oserver.HttpHeader.Parse.Lines.{Parsed, parse-Parsed}

abbrev host : Buffer
host i = get_or (codes "hOST") i 0

abbrev value : Buffer
value i = get_or (codes "a.b") i 0

host_names : map tolower (bytes host 4) ≡ map tolower (field_str 41)
unfolding field_str bytes
host_names = refl

add_by_id-Added_example :
    Added
      (http_header_add_by_id http_header_init 41 (some value) 3)
      success
      (insert_entry 41 (header_of value 3) (entries http_header_init.header_tree))
add_by_id-Added_example =
    add_by_id-Added http_header_init 41 3 value init-IsCollection (omega arith) (omega arith)
      (λ e. omega (arith, e))

add-known_example :
    Added
      (http_header_add http_header_init (some host) (pos 4) (some value) 3)
      success
      (insert_entry 41 (header_of value 3) (entries http_header_init.header_tree))
add-known_example =
    add-known http_header_init host value 4 3 41 init-IsCollection (omega arith)
      (λ e. omega (arith, e)) (λ e. omega (arith, e)) (omega arith) host_names

len-text_len_example :
    http_header_len http_header_init
    ≡ some (pos (2 + text_len (entries http_header_init.header_tree)))
len-text_len_example = len-text_len http_header_init init-IsCollection

abbrev message : Buffer
message i = get_or (codes "Host: a" ++ 13 ∷ 10 ∷ 13 ∷ 10 ∷ []) i 0

parse-Parsed_example :
    Parsed message 11 (http_header_parse http_header_init (some message) (pos 11))
parse-Parsed_example = parse-Parsed http_header_init message 11 init-IsCollection (omega arith)
