-- ===== src/HttpHeader/ToStr/Text.antt =====
-- The text of the headers, and what the visitor of http_header_to_str writes of it.
use oserver.Prelude.{
  ℕ, zero, suc, inl, inr, ◌==◌, Bool-cases, ◌+◌, ◌-◌, ◌≤◌, ◌<◌, ◌≡◌, refl, ap, ◌∙◌, ◌≢◌, Bool, true,
  false, Option, none, some, List, [], ◌∷◌, ◌++◌, append_assoc, append-nil, length, length-append,
  All, ==-false, leb, lt→ltb, if◌then◌else◌, arith, pos, ◌+ℤ◌, +ℤ-pos, -ℤ-pos,
}
use oserver.Bytes.{codes}
use oserver.Btree.Thread.Follow.{visit_all}
use oserver.HttpHeader.Fields.{Field}
use oserver.HttpHeader.Search.{field_str}
use oserver.HttpHeader.Collection.{Header, int16}
use oserver.HttpHeader.Collection.Insert.{IsStored}
use oserver.HttpHeader.Collection.Length.{text_len, field_entry}
use oserver.HttpHeader.ToStr.{
  StrInfo, cstring, line, printed, print_line, http_header_accumelate_str,
}

-- The lines of the headers, with each value up to its first 0.
abbrev pub header_text : List (ℕ × Header) → List ℕ
header_text [] = []
header_text ((k, h) ∷ es) = line (field_str k) (cstring h.value) ++ header_text es

-- A value has no 0 in it.
abbrev pub IsText : ℕ × Header → Type 0
IsText (k, h) = All (λ c. c ≢ 0) h.value

cstring-same : (s : List ℕ) → All (λ c. c ≢ 0) s → cstring s ≡ s
cstring-same [] h = refl
cstring-same (c ∷ s) h = rw (==-false c 0 h.0, cstring-same s h.1) refl

pub length-line : (name value : List ℕ) → length (line name value) ≡ length name + length value + 4
length-line name value =
    let a = length-append name (codes ": " ++ (value ++ 13 ∷ 10 ∷ [])) in
    let b = length-append value (13 ∷ 10 ∷ []) in omega (arith, a, b)

pub cstring-le : (s : List ℕ) → length (cstring s) ≤ length s
cstring-le [] = omega arith
cstring-le (c ∷ s) = elim (Bool-cases (c == 0)) [
  | inl e ↦ rw (e) (omega arith)
  | inr e ↦ rw (e) (omega (arith, cstring-le s))
]

-- The text is no longer than what `http_header_len` counts,
pub header_text-le : (es : List (ℕ × Header)) → length (header_text es) ≤ text_len es
header_text-le [] = omega arith
header_text-le ((k, h) ∷ es) =
    let text = line (field_str k) (cstring h.value) in
    omega (
      arith,
      length-append text (header_text es),
      length-line (field_str k) (cstring h.value),
      cstring-le h.value,
      header_text-le es,
    )

-- and just as long where no value has a 0 in it.
pub length-header_text :
    (es : List (ℕ × Header)) → All IsText es → length (header_text es) ≡ text_len es
length-header_text [] t = refl
length-header_text ((k, h) ∷ es) t =
    let text = line (field_str k) (cstring h.value) in
    omega (
      arith,
      length-append text (header_text es),
      length-line (field_str k) (cstring h.value),
      ap length (cstring-same h.value t.0),
      length-header_text es t.1,
    )

printed-whole : (text : List ℕ) (n : ℕ) → length text < n → printed text (pos n) ≡ text
printed-whole text zero room = absurd (omega (arith, room))
printed-whole text (suc n) room = rw (lt→ltb (length text) (suc n) room) refl

-- What one visit leaves where there is room for more than the line.
abbrev after_line : ℕ → Header → StrInfo → ℕ → StrInfo
after_line k h info n = record {
  written = info.written ++ line (field_str k) (cstring h.value);
  size = pos (n - length (line (field_str k) (cstring h.value)));
  traverse_ptr = some k;
}

needed :
    (a b : ℕ) (name value : List ℕ)
    → a ≡ length name
    → b ≡ length value
    → b < 32768
    → pos a +ℤ int16 b +ℤ pos 4 ≡ pos (length (line name value))
needed a b name value e e' small =
    rw (lt→ltb b 32768 small, +ℤ-pos a b, +ℤ-pos (a + b) 4)
      (ap pos (omega (arith, e, e', length-line name value)))

printed-line :
    (k n : ℕ) (h : Header) (f : Field) (info : StrInfo)
    → f.len ≡ length (field_str k)
    → f.str ≡ field_str k
    → IsStored (k, h)
    → info.size ≡ pos n
    → length (line (field_str k) h.value) < n
    → print_line k h f info ≡ (false, some (after_line k h info n))
printed-line k n h f info len str s e room =
    let text = line (field_str k) (cstring h.value) in
    let fits : leb (length (line (field_str k) h.value) + 0) (n + 0) ≡ true =
      ground (arith, room) in
    let shorter : length text < n = omega (
      arith,
      room,
      cstring-le h.value,
      length-line (field_str k) h.value,
      length-line (field_str k) (cstring h.value),
    ) in
    rw
      (
        str,
        e,
        needed f.len h.len (field_str k) h.value len s.1 s.2,
        fits,
        printed-whole text n shorter,
        -ℤ-pos n (length text) (omega (arith, shorter)),
      )
      refl

accumelated :
    (k n : ℕ) (h : Header) (info : StrInfo)
    → IsStored (k, h)
    → info.size ≡ pos n
    → length (line (field_str k) h.value) < n
    → http_header_accumelate_str (some (k, h)) (some info) ≡ (false, some (after_line k h info n))
unfolding http_header_accumelate_str
accumelated k n h info s e room =
    let (f, at, len, str) = field_entry k s.0 in
    rw (http_header_accumelate_str, at) (printed-line k n h f info len str s e room)

-- The visits of all headers, with room for their text and the blank line.
pub visit_all-header_text :
    (es : List (ℕ × Header)) (info : StrInfo) (n : ℕ)
    → All IsStored es
    → info.size ≡ pos n
    → text_len es + 2 ≤ n
    → visit_all http_header_accumelate_str es (some info)
      ≡ some (record {
        written = info.written ++ header_text es;
        size = pos (n - length (header_text es));
        traverse_ptr = none;
      })
visit_all-header_text [] info n s e room =
    unfold http_header_accumelate_str in
    (let less : n - 0 ≡ n = omega arith in rw (e, less, append-nil info.written) refl)
visit_all-header_text ((k, h) ∷ es) info n s e room =
    let text = line (field_str k) (cstring h.value) in
    let len = length-line (field_str k) h.value in
    let cut = length-line (field_str k) (cstring h.value) in
    let here = accumelated k n h info s.0 e (omega (arith, len, room)) in
    let less : n - length text - length (header_text es) ≡ n - length (header_text ((k, h) ∷ es)) =
      omega (arith, length-append text (header_text es)) in
    let rest =
      visit_all-header_text es (after_line k h info n) (n - length text) s.1 refl
        (omega (arith, cut, cstring-le h.value, room)) in
    ap
      (λ (p : Bool × Option StrInfo).
        if p.0 then p.1 else visit_all http_header_accumelate_str es p.1)
      here
    ∙ rest
    ∙ ap
        (λ (w : List ℕ). some (record {
          written = w;
          size = pos (n - length text - length (header_text es));
          traverse_ptr = none;
        }))
        (append_assoc info.written text (header_text es))
    ∙ ap
        (λ (m : ℕ). some (record {
          written = info.written ++ (text ++ header_text es);
          size = pos m;
          traverse_ptr = none;
        }))
        less
