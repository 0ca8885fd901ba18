-- ===== src/HttpHeader/Collection/Length.antt =====
-- `http_header_len` of http_header.c, against the text of the headers.
use oserver.Prelude.{
  ℕ, zero, suc, ◌+◌, ◌<◌, ◌≡◌, refl, ap, Bool, true, some, List, [], ◌∷◌, ◌++◌, ◌&&◌, ◌==◌, All,
  All-left, All-right, length, map, get_elem?, get_or, arith, lt→ltb, pos, ◌+ℤ◌, +ℤ-pos,
}
use oserver.Btree.{Tree, leaf, thread, node, btree_pre_order_traverse}
use oserver.Btree.Contents.{entries}
use oserver.HttpHeader.Fields.{Field, http_header_fields}
use oserver.HttpHeader.Search.{field_str, num_fields}
use oserver.HttpHeader.Collection.{Header, Headers, http_header_accumulate_len, http_header_len}
use oserver.HttpHeader.Collection.Insert.{IsStored, IsCollection}

-- The number of bytes of the lines `name: value\r\n`.
abbrev pub text_len : List (ℕ × Header) → ℕ
text_len [] = 0
text_len ((k, h) ∷ es) = length (field_str k) + length h.value + 4 + text_len es

text_len-append : (es es' : List (ℕ × Header)) → text_len (es ++ es') ≡ text_len es + text_len es'
text_len-append [] es' = omega arith
text_len-append ((k, h) ∷ es) es' = omega (arith, text_len-append es es')

-- The table's `len` is the length of its `str`.
lens_right : List Field → Bool
lens_right [] = true
lens_right (f ∷ fs) = (f.len == length f.str) && lens_right fs

table_lens : lens_right http_header_fields ≡ true
unfolding lens_right http_header_fields
table_lens = refl

field_at :
    (fs : List Field) (k : ℕ)
    → lens_right fs ≡ true
    → k < length fs
    → (f : Field) × (get_elem? fs k ≡ some f) × (f.len ≡ length (get_or (map (λ f. f.str) fs) k []))
unfolding lens_right
field_at [] k e h = absurd (omega arith)
field_at (f ∷ fs) zero e h = (f, refl, ground arith)
field_at (f ∷ fs) (suc k) e h = field_at fs k (ground arith) (omega arith)

str_at :
    (fs : List Field) (k : ℕ) (f : Field)
    → get_elem? fs k ≡ some f
    → f.str ≡ get_or (map (λ f. f.str) fs) k []
str_at [] k f e = absurd (cc)
str_at (g ∷ fs) zero f e = cc
str_at (g ∷ fs) (suc k) f e = str_at fs k f e

-- The entry of a field of the table.
pub field_entry :
    (k : ℕ)
    → k < num_fields
    → (f : Field) × (get_elem? http_header_fields k ≡ some f)
      × (f.len ≡ length (field_str k))
      × (f.str ≡ field_str k)
unfolding field_str
field_entry k h =
    let (f, at, len) = field_at http_header_fields k table_lens (unfold http_header_fields in h) in
    (f, at, len, str_at http_header_fields k f at)

pub sum_pos :
    (n a b name value : ℕ)
    → a ≡ name
    → b ≡ value
    → pos n +ℤ (pos a +ℤ pos b +ℤ pos 4) ≡ pos (n + (name + value + 4))
sum_pos n a b name value e e' =
    rw (e, e', +ℤ-pos name value, +ℤ-pos (name + value) 4, +ℤ-pos n (name + value + 4)) refl

accumulated :
    (k n : ℕ) (h : Header)
    → IsStored (k, h)
    → http_header_accumulate_len k h (some (pos n))
      ≡ some (pos (n + (length (field_str k) + length h.value + 4)))
unfolding http_header_accumulate_len
accumulated k n h s =
    let (f, at, len) =
      field_at http_header_fields k table_lens (unfold http_header_fields in s.0) in
    rw (http_header_accumulate_len, at, lt→ltb h.len 32768 s.2)
      (ap some (
        sum_pos n f.len h.len (length (field_str k)) (length h.value) (unfold field_str in len)
          s.1))

pre_order-text_len :
    (t : Tree Header) (n : ℕ)
    → All IsStored (entries t)
    → btree_pre_order_traverse http_header_accumulate_len t (some (pos n))
      ≡ some (pos (n + text_len (entries t)))
unfolding btree_pre_order_traverse
pre_order-text_len leaf n a = ap (λ i. some (pos i)) (omega arith)
pre_order-text_len (thread x) n a = ap (λ i. some (pos i)) (omega arith)
pre_order-text_len (node l k h b r) n a =
    let here = All-right IsStored (entries l) ((k, h) ∷ entries r) a in
    let n' = n + (length (field_str k) + length h.value + 4) in
    rw
      (
        accumulated k n h here.0,
        pre_order-text_len l n' (All-left IsStored (entries l) ((k, h) ∷ entries r) a),
        pre_order-text_len r (n' + text_len (entries l)) here.1,
        text_len-append (entries l) ((k, h) ∷ entries r),
      )
      (ap (λ i. some (pos i)) (omega arith))

-- For a collection `http_header_len` is the length of its text: the lines of all its headers and the
-- blank line.
pub len-text_len :
    (headers : Headers)
    → IsCollection headers
    → http_header_len headers ≡ some (pos (2 + text_len (entries headers.header_tree)))
unfolding http_header_len
len-text_len headers c = pre_order-text_len headers.header_tree 2 c.stored
