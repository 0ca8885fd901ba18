-- ===== src/HttpHeader/ToStr/Whole.antt =====
-- http_header_to_str of http_header.c in a buffer that is large enough.
use oserver.Prelude.{
  ℕ, ◌+◌, ◌-◌, ◌≤◌, ◌≡◌, refl, ap, ◌∙◌, Bool, true, Option, none, some, [], ◌∷◌, ◌++◌, length, leb,
  arith, pos, -ℤ-pos,
}
use oserver.Btree.{Tree, leaf, thread, node, ◌>>=◌}
use oserver.Btree.Contents.{entries}
use oserver.Btree.Entries.{IsSorted}
use oserver.Btree.Thread.{find_node, btree_build_in_order_threading, btree_thread_traverse}
use oserver.Btree.Thread.Build.{rethread, threaded, build-threaded}
use oserver.Btree.Thread.Follow.{visit_all, thread_traverse-visit_all}
use oserver.Btree.Thread.Located.{entries-threaded}
use oserver.Btree.Thread.Kept.{threaded-IsTree}
use oserver.HttpHeader.Collection.{Header, Headers, root_key}
use oserver.HttpHeader.Collection.Insert.{IsCollection}
use oserver.HttpHeader.Collection.Length.{text_len}
use oserver.HttpHeader.ToStr.{
  StrInfo, Written, node_of, blank_line, http_header_accumelate_str, http_header_to_str,
}
use oserver.HttpHeader.ToStr.Text.{header_text, header_text-le, visit_all-header_text}

-- The walk starts at the root.
from_root :
    (t : Tree Header) (s : Option StrInfo) (f : ℕ)
    → IsSorted (entries t)
    → let root = btree_build_in_order_threading t in
      btree_thread_traverse http_header_accumelate_str f root (node_of root (root_key t)) s
      ≡ btree_thread_traverse http_header_accumelate_str f root root s
unfolding btree_thread_traverse
from_root leaf s f h = rw (build-threaded leaf h) refl
from_root (thread t) s f h = rw (build-threaded (thread t) h) refl
from_root (node l k v b r) s f h = rw (build-threaded (node l k v b r) h) (
    ap
      (λ (n : Tree Header).
        btree_thread_traverse http_header_accumelate_str f (threaded none (node l k v b r)) n s)
      (find_node-root k (threaded (some k) l) v b (rethread none (threaded none r))))
  where
    find_node-root :
        (k : ℕ) (l : Tree Header) (v : Header) (b : ℕ) (r : Tree Header)
        → find_node k (node l k v b r) ≡ node l k v b r
    find_node-root k l v b r = unfold find_node in ground arith

-- The walk visits every header, with fuel for as many rounds.
walk :
    (t : Tree Header) (at : Option ℕ) (s : Option StrInfo)
    → IsSorted (entries t)
    → at ≡ root_key t
    → let root = btree_build_in_order_threading t in
      btree_thread_traverse http_header_accumelate_str
        (length (entries root))
        root
        (node_of root at)
        s
      ≡ some (visit_all http_header_accumelate_str (entries t) s)
walk t at s h e =
    let root = btree_build_in_order_threading t in
    let same : length (entries root) ≡ length (entries t) + 0 =
      ap (λ (u : Tree Header). length (entries u)) (build-threaded t h)
      ∙ ap length (entries-threaded none t)
      ∙ omega arith in
    ap
      (λ (o : Option ℕ).
        btree_thread_traverse http_header_accumelate_str (length (entries root)) root
          (node_of root o) s)
      e
    ∙ from_root t s (length (entries root)) h
    ∙ ap (λ (f : ℕ). btree_thread_traverse http_header_accumelate_str f root root s) same
    ∙ thread_traverse-visit_all http_header_accumelate_str t 0 s h

-- What stands in the buffer and the collection afterwards.
abbrev pub whole_text : Headers → Written
whole_text headers = record {
  len = pos (2 + length (header_text (entries headers.header_tree)));
  written = header_text (entries headers.header_tree) ++ 13 ∷ 10 ∷ [];
  is_end = true;
  headers = record {
    header_tree = threaded none headers.header_tree;
    traverse_ptr = root_key (threaded none headers.header_tree);
  };
}

ended :
    (headers : Headers) (n len : ℕ) (is_end : Bool)
    → 2 + len ≤ n
    → let es = entries headers.header_tree in
      let headers' : Headers = record headers { header_tree = threaded none headers.header_tree } in
      some (
        blank_line headers'
          (pos n)
          is_end
          (record { written = header_text es; size = pos (n - len); traverse_ptr = none }))
      ≡ some (record {
        len = pos (2 + len);
        written = header_text es ++ 13 ∷ 10 ∷ [];
        is_end = true;
        headers = record headers' { traverse_ptr = root_key headers'.header_tree };
      })
ended headers n len is_end room =
    let fits : leb 2 (n - len + 0) ≡ true = ground (arith, room) in
    let rest : 2 ≤ n - len = omega (arith, room) in
    let all : n - len - 2 ≤ n = omega arith in
    let sum : n - (n - len - 2) ≡ 2 + len = omega (arith, room) in
    rw (fits, -ℤ-pos (n - len) 2 rest, -ℤ-pos n (n - len - 2) all, sum) refl

-- Where the headers are a collection, the walk of them starts at the root, and the buffer has room for
-- `http_header_len` bytes, the text is the line of every header in the order of the ids, with the value
-- up to its first 0, and a blank line. The length of that text is returned, `*is_end` is set, and the
-- walk stands at the root again.
pub to_str-whole_text :
    (headers : Headers) (n : ℕ) (is_end : Bool)
    → IsCollection headers
    → headers.traverse_ptr ≡ root_key headers.header_tree
    → 2 + text_len (entries headers.header_tree) ≤ n
    → http_header_to_str headers (pos n) is_end ≡ some (whole_text headers)
unfolding http_header_to_str
to_str-whole_text headers n is_end c at room =
    let t = headers.header_tree in
    let es = entries t in
    let tree = btree_build_in_order_threading t in
    let start : StrInfo = record {
      written = [];
      size = pos n;
      traverse_ptr = headers.traverse_ptr;
    } in
    let finish = λ (o : Option StrInfo).
      o >>= λ info. some (blank_line (record headers { header_tree = tree }) (pos n) is_end info) in
    ap (λ (o : Option (Option StrInfo)). o >>= λ o. finish o)
      (walk t headers.traverse_ptr (some start) c.tree.sorted at)
    ∙ ap finish (visit_all-header_text es start n c.stored refl (omega (arith, room)))
    ∙ rw (build-threaded t c.tree.sorted)
        (ended headers n (length (header_text es)) is_end (omega (arith, room, header_text-le es)))

-- The threads leave the headers a collection with the same entries.
pub whole_text-IsCollection :
    (headers : Headers) → IsCollection headers → IsCollection (whole_text headers).headers
whole_text-IsCollection headers c = record {
  tree = threaded-IsTree none headers.header_tree c.tree;
  stored = rw (entries-threaded none headers.header_tree) c.stored;
}

pub entries-whole_text :
    (headers : Headers)
    → entries ((whole_text headers).headers).header_tree ≡ entries headers.header_tree
entries-whole_text headers = entries-threaded none headers.header_tree
