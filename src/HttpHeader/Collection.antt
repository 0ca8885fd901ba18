-- ===== src/HttpHeader/Collection.antt =====
-- The collection of a message's headers: `http_header_init`, `http_header_add`,
-- `http_header_add_by_id`, `http_header_len` and `http_header_destroy` of http_header.c.
pub mod Insert
pub mod Length
use oserver.Prelude.{
  ℕ, ◌+◌, ◌-◌, ◌%◌, Option, none, some, List, [], ◌∷◌, ◌==◌, if◌then◌else◌, ltb, get_elem?, length,
  ℤ, pos, negsuc, ◌+ℤ◌,
}
use oserver.Bytes.{Buffer, Status, success, failure}
use oserver.Btree.{
  Tree, leaf, thread, node, btree_init, btree_insert, btree_pre_order_traverse,
  btree_post_order_traverse, ◌>>=◌,
}
use oserver.HttpHeader.Fields.{Field, http_header_fields}
use oserver.HttpHeader.Hash.{http_header_n_hash, bytes}
use oserver.HttpHeader.Search.{
  field_str, field_hash, num_fields, http_header_fields_index, http_header_binary_n_search,
  search_loop, strncasecmp_eq,
}

-- `http_header_t` without its `bt_node_entry_t`: the bytes of `value` without the final 0, and the
-- bit pattern of the `int16_t` `len`.
pub record Header : Type 0 where
  pub value : List ℕ
  pub len : ℕ

-- `http_header_collection_t`; `traverse_ptr` is the key of the node it points to.
pub record Headers : Type 0 where
  pub header_tree : Tree Header
  pub traverse_ptr : Option ℕ

abbrev pub root_key : Tree Header → Option ℕ
root_key leaf = none
root_key (thread t) = none
root_key (node l k v b r) = some k

unfoldable pub http_header_init : Headers
http_header_init = record { header_tree = btree_init; traverse_ptr = root_key btree_init }

-- The keys of the nodes that are freed, the last one first, and the collection afterwards.
unfoldable pub http_header_destroy : Headers → List ℕ × Headers
http_header_destroy headers = (
  btree_post_order_traverse (λ k h freed. k ∷ freed) headers.header_tree [],
  elim headers.header_tree [ node l k v b r ↦ http_header_init | _ ↦ headers ],
)

-- `value` has at least `lv` bytes, and `lv` is not negative. The result is the code with the
-- collection, or a fault of the insertion.
unfoldable pub http_header_add_by_id : Headers → ℕ → Option Buffer → ℕ → Option (Status × Headers)
http_header_add_by_id headers id none lv = some (failure, headers)
http_header_add_by_id headers id (some value) lv =
    if value 0 == 0
    then some (failure, headers)
    else (btree_insert headers.header_tree id (record { value = bytes value lv; len = lv % 65536 })
        >>= λ (taken, tree).
            some (success, record { header_tree = tree; traverse_ptr = root_key tree }))

-- `http_header_binary_n_search` with an `int` for the length. A negative one gives the hash of no
-- byte, and as a `size_t` it lets `strncasecmp` compare up to the end of the names.
unfoldable pub n_search_int : Buffer → ℤ → Option ℕ
unfolding search_loop
n_search_int target (pos len) = http_header_binary_n_search target len
n_search_int target (negsuc n) =
    search_loop (λ i. strncasecmp_eq (bytes target (length (field_str i) + 1)) (field_str i))
      http_header_fields_index field_hash (http_header_n_hash target 0) (num_fields + 1) 0
      num_fields

unfoldable pub http_header_add :
    Headers → Option Buffer → ℤ → Option Buffer → ℕ → Option (Status × Headers)
unfolding http_header_add_by_id n_search_int
http_header_add headers none ln value lv = some (failure, headers)
http_header_add headers (some name) ln none lv = some (failure, headers)
http_header_add headers (some name) ln (some value) lv =
    if name 0 == 0
    then some (failure, headers)
    else if value 0 == 0
    then some (failure, headers)
    else elim (n_search_int name ln) [
      | none ↦ some (failure, headers)
      | some id ↦ http_header_add_by_id headers id (some value) lv
    ]

-- The value of an `int16_t`.
abbrev pub int16 : ℕ → ℤ
int16 len = if ltb len 32768 then pos len else negsuc (65535 - len)

-- `http_header_accumulate_len`; `none` is a read outside the table.
unfoldable pub http_header_accumulate_len : ℕ → Header → Option ℤ → Option ℤ
http_header_accumulate_len k h none = none
http_header_accumulate_len k h (some len) = elim (get_elem? http_header_fields k) [
  | none ↦ none
  | some f ↦ some (len +ℤ (pos f.len +ℤ int16 h.len +ℤ pos 4))
]

unfoldable pub http_header_len : Headers → Option ℤ
unfolding http_header_accumulate_len
http_header_len headers =
    btree_pre_order_traverse http_header_accumulate_len headers.header_tree (some (pos 2))
