-- ===== src/HttpHeader/Collection/Insert.antt =====
-- The collection of headers of http_header.c as a dictionary from fields to values.
use oserver.Prelude.{
  ℕ, ◌+◌, ◌%◌, ◌<◌, ◌≡◌, refl, sym, ◌≢◌, inl, inr, Option, none, some, List, [], ◌∷◌, zero, suc, ap,
  subst, ◌==◌, ==-false, Option-cases, Bool-cases, All, length, arith, ℤ, pos, negsuc, map,
}
use oserver.Bytes.{Buffer, advance, Status, success, failure}
use oserver.Btree.{Tree, btree_init}
use oserver.Btree.Entries.{insert_entry}
use oserver.Btree.Contents.{entries}
use oserver.Btree.Insert.{IsTree, init-IsTree, insert-InsertedInto}
use oserver.HttpHeader.Hash.{bytes, tolower, http_header_n_hash}
use oserver.HttpHeader.Search.{field_str, num_fields, http_header_binary_n_search, strncasecmp_eq}
use oserver.HttpHeader.Search.Complete.{answer-lt, n_search-finds}
use oserver.HttpHeader.Collection.{
  Header, Headers, root_key, http_header_init, http_header_add_by_id, http_header_add, n_search_int,
}

-- A header of a field of the table, whose length is that of its value.
abbrev pub IsStored : ℕ × Header → Type 0
IsStored (k, h) = (k < num_fields) × (h.len ≡ length h.value) × (h.len < 32768)

-- The collection is a balanced search tree of such headers.
pub record IsCollection (headers : Headers) : Type 0 where
  pub tree : IsTree headers.header_tree
  pub stored : All IsStored (entries headers.header_tree)

pub init-IsCollection : IsCollection http_header_init
unfolding http_header_init btree_init
init-IsCollection = record { tree = init-IsTree; stored = tt }

-- The header made of `lv` bytes.
abbrev pub header_of : Buffer → ℕ → Header
header_of value lv = record { value = bytes value lv; len = lv % 65536 }

length-bytes : (bin : Buffer) (len : ℕ) → length (bytes bin len) ≡ len
unfolding bytes
length-bytes bin zero = refl
length-bytes bin (suc len) = ap suc (length-bytes (advance bin 1) len)

All-insert_entry :
    (q : ℕ) (w : Header) (es : List (ℕ × Header))
    → IsStored (q, w)
    → All IsStored es
    → All IsStored (insert_entry q w es)
unfolding insert_entry
All-insert_entry q w [] h a = (h, tt)
All-insert_entry q w ((k, v) ∷ es) h a = ground (arith, All-insert_entry q w es h a.1)

header_of-IsStored :
    (id lv : ℕ) (value : Buffer) → id < num_fields → lv < 32768 → IsStored (id, header_of value lv)
header_of-IsStored id lv value h small = (h, rw (length-bytes value lv) (omega arith), omega arith)

-- What the two functions answer: a code and a collection with the entries `es`.
abbrev pub Added : Option (Status × Headers) → Status → List (ℕ × Header) → Type 0
Added none code es = ⊥
Added (some (code', headers)) code es =
    (code' ≡ code) × IsCollection headers × (entries headers.header_tree ≡ es)

-- The collection with the new root.
abbrev pub rooted : Tree Header → Headers
rooted tree = record { header_tree = tree; traverse_ptr = root_key tree }

pub add_by_id-rooted :
    (headers : Headers) (id lv : ℕ) (value : Buffer)
    → IsCollection headers
    → id < num_fields
    → lv < 32768
    → value 0 ≢ 0
    → (tree : Tree Header) × (http_header_add_by_id headers id (some value) lv
        ≡ some (success, rooted tree))
      × IsCollection (rooted tree)
      × (entries tree ≡ insert_entry id (header_of value lv) (entries headers.header_tree))
unfolding http_header_add_by_id
add_by_id-rooted headers id lv value c h small ne =
    let (t', (answer, tree, contents, _)) =
      insert-InsertedInto headers.header_tree id (header_of value lv) c.tree in
    (
      t',
      rw (==-false (value 0) 0 ne, answer) refl,
      record {
        tree = tree;
        stored = rw (contents) (
            All-insert_entry id (header_of value lv) (entries headers.header_tree)
              (header_of-IsStored id lv value h small) c.stored);
      },
      contents,
    )

pub add_by_id-Added :
    (headers : Headers) (id lv : ℕ) (value : Buffer)
    → IsCollection headers
    → id < num_fields
    → lv < 32768
    → value 0 ≢ 0
    → Added
        (http_header_add_by_id headers id (some value) lv)
        success
        (insert_entry id (header_of value lv) (entries headers.header_tree))
add_by_id-Added headers id lv value c h small ne =
    let (t', answer, collection, contents) = add_by_id-rooted headers id lv value c h small ne in
    rw (answer) (refl, collection, contents)

-- What is answered to a name, looked up as `found`.
abbrev AddedTo : Headers → Header → Option ℕ → Option (Status × Headers) → Type 0
AddedTo headers h none o = o ≡ some (failure, headers)
AddedTo headers h (some id) o = Added o success (insert_entry id h (entries headers.header_tree))

search_int-lt : (name : Buffer) (ln : ℤ) (id : ℕ) → n_search_int name ln ≡ some id → id < num_fields
unfolding n_search_int http_header_binary_n_search
search_int-lt name (pos n) id e =
    answer-lt (λ i. strncasecmp_eq (bytes name n) (field_str i)) (http_header_n_hash name n) id e
search_int-lt name (negsuc n) id e =
    answer-lt (λ i. strncasecmp_eq (bytes name (length (field_str i) + 1)) (field_str i))
      (http_header_n_hash name 0) id e

add-AddedTo :
    (headers : Headers) (name value : Buffer) (ln : ℤ) (lv : ℕ)
    → IsCollection headers
    → lv < 32768
    → name 0 ≢ 0
    → value 0 ≢ 0
    → AddedTo headers
        (header_of value lv)
        (n_search_int name ln)
        (http_header_add headers (some name) ln (some value) lv)
unfolding http_header_add
add-AddedTo headers name value ln lv c small nn nv = elim (Option-cases (n_search_int name ln)) [
  | inl e ↦ rw (e, ==-false (name 0) 0 nn, ==-false (value 0) 0 nv) refl
  | inr (id, e) ↦
      let same : http_header_add headers (some name) ln (some value) lv
          ≡ http_header_add_by_id headers id (some value) lv =
        rw (e, ==-false (name 0) 0 nn, ==-false (value 0) 0 nv) refl in
      let added = add_by_id-Added headers id lv value c (search_int-lt name ln id e) small nv in
      subst
        (λ o.
          AddedTo headers (header_of value lv) o
            (http_header_add headers (some name) ln (some value) lv))
        (sym e) (subst (AddedTo headers (header_of value lv) (some id)) (sym same) added)
]

-- A value for a name of the table, in any mix of cases, is put into the dictionary under that field,
-- unless it has a value already.
pub add-known :
    (headers : Headers) (name value : Buffer) (len lv i : ℕ)
    → IsCollection headers
    → lv < 32768
    → name 0 ≢ 0
    → value 0 ≢ 0
    → i < num_fields
    → map tolower (bytes name len) ≡ map tolower (field_str i)
    → Added
        (http_header_add headers (some name) (pos len) (some value) lv)
        success
        (insert_entry i (header_of value lv) (entries headers.header_tree))
add-known headers name value len lv i c small nn nv h e =
    let found : n_search_int name (pos len) ≡ some i =
      unfold n_search_int in n_search-finds i name len h e in
    subst
      (λ o.
        AddedTo headers (header_of value lv) o
          (http_header_add headers (some name) (pos len) (some value) lv))
      found (add-AddedTo headers name value (pos len) lv c small nn nv)

abbrev pub Kept : Option (Status × Headers) → Type 0
Kept o = (code : Status) × (headers : Headers) × (o ≡ some (code, headers)) × IsCollection headers

Added-Kept :
    (o : Option (Status × Headers)) (code : Status) (es : List (ℕ × Header))
    → Added o code es
    → Kept o
Added-Kept none code es a = absurd a
Added-Kept (some (code', headers)) code es a = (code', headers, refl, a.1)

AddedTo-Kept :
    (headers : Headers) (h : Header) (found : Option ℕ) (o : Option (Status × Headers))
    → IsCollection headers
    → AddedTo headers h found o
    → Kept o
AddedTo-Kept headers h none o c a = (failure, headers, a, c)
AddedTo-Kept headers h (some id) o c a =
    Added-Kept o success (insert_entry id h (entries headers.header_tree)) a

-- Whatever name and value are given, of up to 32767 bytes, the addition faults nowhere and leaves a
-- collection.
pub add-IsCollection :
    (headers : Headers) (name value : Option Buffer) (ln : ℤ) (lv : ℕ)
    → IsCollection headers
    → lv < 32768
    → Kept (http_header_add headers name ln value lv)
add-IsCollection headers none value ln lv c small =
    (failure, headers, unfold http_header_add in refl, c)
add-IsCollection headers (some name) none ln lv c small =
    (failure, headers, unfold http_header_add in refl, c)
add-IsCollection headers (some name) (some value) ln lv c small = elim (Bool-cases (name 0 == 0)) [
  | inl e ↦ (failure, headers, unfold http_header_add in rw (e) refl, c)
  | inr nn ↦ elim (Bool-cases (value 0 == 0)) [
    | inl e ↦ (failure, headers, unfold http_header_add in rw (nn, e) refl, c)
    | inr nv ↦
        AddedTo-Kept headers (header_of value lv) (n_search_int name ln)
          (http_header_add headers (some name) ln (some value) lv) c
          (add-AddedTo headers name value ln lv c small (λ e. ground (arith, nn))
            (λ e. ground (arith, nv)))
  ]
]
