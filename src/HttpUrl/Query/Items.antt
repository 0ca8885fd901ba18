-- ===== src/HttpUrl/Query/Items.antt =====
-- Where the items of a query lie, after http_url_parse_query of http_url.c.
use oserver.Prelude.{
  ℕ, zero, suc, ◌+◌, ◌≤◌, ◌<◌, ◌≡◌, inl, inr, ◌||◌, Option, none, some, List, [], ◌∷◌, ◌++◌, All,
  All-append, ◌==◌, arith, Bool-cases, Option-cases,
}
use oserver.Bytes.{Buffer}
use oserver.HttpUrl.Query.{
  QueryItem, Pointers, no_item, end_item, next_pointers, Answer, parse_items, http_url_parse_query,
}

-- The pointers before byte `i`: a name that has begun; its end, behind it; a value, behind the name.
abbrev pub IsBegun : ℕ → Option ℕ → Option ℕ → Option ℕ → Type 0
IsBegun i none none none = Unit
IsBegun i (some ns) none none = ns < i
IsBegun i (some ns) (some ne) none = (ns < ne) × (ne < i)
IsBegun i (some ns) (some ne) (some vs) = (ns < ne) × (ne < i) × (ns + 2 ≤ vs) × (vs < i)
IsBegun i _ _ _ = ⊥

abbrev pub IsPointers : ℕ → Pointers → Type 0
IsPointers i p = IsBegun i p.ns p.ne p.vs

-- An item with a name and a value that are not empty, within the query; the value starts two bytes or
-- more behind the start of the name.
pub record IsItem (size : ℕ) (q : QueryItem) : Type 0 where
  pub named : 0 < q.name_len
  pub valued : 0 < q.value_len
  pub behind : q.name + 2 ≤ q.value
  pub name_inside : q.name + q.name_len < size
  pub value_inside : q.value + q.value_len ≤ size

next-IsPointers :
    (buf : Buffer) (i : ℕ) (p : Pointers)
    → IsPointers i p
    → IsPointers (i + 1) (next_pointers buf i p)
unfolding next_pointers
next-IsPointers buf i p h = ground arith

-- The end of an item.
abbrev pub EndsItem : ℕ → Option QueryItem → Type 0
EndsItem size none = ⊥
EndsItem size (some q) = IsItem size q

end_item-EndsItem :
    (size i vs : ℕ) (p : Pointers)
    → IsPointers i p
    → p.vs ≡ some vs
    → i ≤ size
    → EndsItem size (end_item p vs i)
unfolding end_item
end_item-EndsItem size i vs p h e le = ground arith

abbrev pub Items : ℕ → Answer → Type 0
Items size none = ⊥
Items size (some (len, items)) = (len ≤ size) × All (IsItem size) items

module _ (buf : Buffer) (size : ℕ) where
  parse_items-Items :
      (n i : ℕ) (p : Pointers) (items : List QueryItem)
      → i + n ≡ size
      → IsPointers i p
      → All (IsItem size) items
      → Items size (parse_items buf n i p items)
  unfolding parse_items
  parse_items-Items zero i p items h b a = elim (Option-cases p.vs) [
    | inl e ↦ rw (e) (omega arith, a)
    | inr (vs, e) ↦ rw (e) (go (end_item p vs i) (end_item-EndsItem size i vs p b e (omega arith)))
  ]
    where
      go :
          (o : Option QueryItem)
          → EndsItem size o
          → Items size (elim o [ none ↦ none | some q ↦ some (i, items ++ q ∷ []) ])
      go none k = absurd k
      go (some q) k = (omega arith, All-append (IsItem size) items (q ∷ []) a (k, tt))
  parse_items-Items (suc n) i p items h b a =
      elim (Bool-cases ((buf i == b'#') || (buf i == b'&'))) [
        | inr inside ↦ rw (inside) (
            parse_items-Items n (i + 1) (next_pointers buf i p) items (omega arith)
              (next-IsPointers buf i p b) a)
        | inl ends ↦ elim (Option-cases p.vs) [
          | inl e ↦ rw (ends, e) (omega arith, a)
          | inr (vs, e) ↦
              rw (ends, e)
                (go (end_item p vs i) (end_item-EndsItem size i vs p b e (omega arith))
                  (λ items' a'. parse_items-Items n (i + 1) no_item items' (omega arith) tt a'))
        ]
      ]
    where
      go :
          (o : Option QueryItem)
          → EndsItem size o
          → ((items' : List QueryItem)
              → All (IsItem size) items'
              → Items size (parse_items buf n (i + 1) no_item items'))
          → Items size (elim o [
            | none ↦ none
            | some q ↦ parse_items buf n (i + 1) no_item (items ++ q ∷ [])
          ])
      go none k rest = absurd k
      go (some q) k rest =
          rest (items ++ q ∷ []) (All-append (IsItem size) items (q ∷ []) a (k, tt))

-- Whatever the bytes of a query are, no null pointer is subtracted, no more bytes are used up than
-- there are, and every item that is found has a name and a value that are not empty and lie within the
-- query; the value starts two bytes or more behind the start of the name. The name may reach into the
-- value, since a second `=` moves its end.
pub parse_query-Items : (buf : Buffer) (size : ℕ) → Items size (http_url_parse_query buf size [])
unfolding http_url_parse_query
parse_query-Items buf size = parse_items-Items buf size size 0 no_item [] (omega arith) tt tt
