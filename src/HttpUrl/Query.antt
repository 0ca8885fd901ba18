-- ===== src/HttpUrl/Query.antt =====
-- `http_url_parse_query` of http_url.c: the items of a query.
pub mod Items
use oserver.Prelude.{
  ℕ, zero, suc, ◌+◌, ◌-◌, Bool, true, false, ◌||◌, Option, none, some, List, [], ◌∷◌, ◌++◌, ◌==◌,
  if◌then◌else◌,
}
use oserver.Bytes.{Buffer}

-- `http_url_query_item_t`; `name` and `value` are offsets into the query.
pub record QueryItem : Type 0 where
  pub name : ℕ
  pub name_len : ℕ
  pub value : ℕ
  pub value_len : ℕ

-- `ns`, `ne` and `vs`; `none` is `NULL`.
pub record Pointers : Type 0 where
  pub ns : Option ℕ
  pub ne : Option ℕ
  pub vs : Option ℕ

abbrev pub no_item : Pointers
no_item = record { ns = none; ne = none; vs = none }

-- The item that ends before byte `i`; `none` where a null pointer is subtracted.
unfoldable pub end_item : Pointers → ℕ → ℕ → Option QueryItem
end_item p vs i = elim p.ns [
  | none ↦ none
  | some ns ↦ elim p.ne [
    | none ↦ none
    | some ne ↦ some (record { name = ns; name_len = ne - ns; value = vs; value_len = i - vs })
  ]
]

-- The pointers behind byte `i` where no item ends.
unfoldable pub next_pointers : Buffer → ℕ → Pointers → Pointers
next_pointers buf i p =
    if buf i == b'='
    then elim p.ns [ none ↦ p | some ns ↦ record p { ne = some i } ]
    else elim p.ns [
      | none ↦ record p { ns = some i }
      | some ns ↦ elim p.ne [ none ↦ p | some ne ↦ record p { vs = some i } ]
    ]

-- `query->data_len` and the list; `none` is a fault.
abbrev pub Answer : Type 0
Answer = Option (ℕ × List QueryItem)

-- The loop from byte `i` on, with the bytes that are left.
unfoldable pub parse_items : Buffer → ℕ → ℕ → Pointers → List QueryItem → Answer
unfolding end_item next_pointers
parse_items buf zero i p items = elim p.vs [
  | none ↦ some (i, items)
  | some vs ↦ elim (end_item p vs i) [ none ↦ none | some q ↦ some (i, items ++ q ∷ []) ]
]
parse_items buf (suc n) i p items =
    let rest = λ (p' : Pointers) (items' : List QueryItem). parse_items buf n (i + 1) p' items' in
    if (buf i == b'#') || (buf i == b'&')
    then elim p.vs [
      | none ↦ some (i, items)
      | some vs ↦ elim (end_item p vs i) [ none ↦ none | some q ↦ rest no_item (items ++ q ∷ []) ]
    ]
    else rest (next_pointers buf i p) items

-- `*parse_len` is set to 0; the caller does not read it.
unfoldable pub http_url_parse_query : Buffer → ℕ → List QueryItem → Answer
unfolding parse_items
http_url_parse_query buf size items = parse_items buf size 0 no_item items
