-- ===== src/Server/Files.antt =====
-- The files that server.c serves: the path of a request, its type, and the calls of the system.
pub mod Decimal
use oserver.Prelude.{
  ℕ, zero, suc, ◌+◌, ◌-◌, ◌/◌, ◌%◌, ◌^◌, Bool, true, false, ◌&&◌, ◌||◌, Option, none, some, List,
  [], ◌∷◌, ◌++◌, ◌==◌, ltb, if◌then◌else◌, length, ℤ, pos, negsuc,
}
use oserver.Bytes.{Buffer, advance, codes}
use oserver.HttpHeader.Hash.{bytes}
use oserver.HttpHeader.ToStr.{cstring}
use oserver.HttpUrl.Path.{Segment}
use oserver.HttpUrl.Parse.{HttpUrl}

-- What `stat` tells of a path: `S_ISREG`, and `st_size`.
pub record Stat : Type 0 where
  pub is_reg : Bool
  pub st_size : ℕ

-- The calls of the system on the state `F` of the files: `stat` and `open` with `none` for an error,
-- `close`, and `read` and `write` with `none` for -1.
pub record Os (F : Type 0) : Type 0 where
  pub stat_path : F → List ℕ → Option Stat
  pub open_path : F → List ℕ → Option ℕ × F
  pub close_fd : F → ℕ → F
  pub read_fd : F → ℕ → ℤ → Option (List ℕ) × F
  pub write_fd : F → ℤ → List ℕ → Option ℕ × F

-- Where the path of a URL begins in its text.
abbrev pub path_start : Option ℕ → ℕ
path_start none = 0
path_start (some p) = p

-- `gen_path` on what has been written up to `*path`. It returns nothing, where `list_traverse` takes
-- an answer from it; the traversal is taken to go on.
unfoldable pub gen_path : HttpUrl → Segment → List ℕ → List ℕ
gen_path url node path =
    path ++ bytes (advance url.url (path_start url.path + node.start)) node.data_len

-- `list_traverse` over the stack from the bottom; the list has the top first.
unfoldable pub gen_paths : HttpUrl → List Segment → List ℕ → List ℕ
unfolding gen_path
gen_paths url [] path = path
gen_paths url (node ∷ below) path = gen_path url node (gen_paths url below path)

-- `*(path_p - 1) == '/'`
abbrev pub ends_in_slash : List ℕ → Bool
ends_in_slash [] = false
ends_in_slash (c ∷ []) = c == b'/'
ends_in_slash (c ∷ d ∷ s) = ends_in_slash (d ∷ s)

-- `PATH_MAX + 1`, the size of the arrays `path` and `tmp`.
abbrev pub path_size : ℕ
path_size = 4097

-- A text and its final 0 do not go past the end of such an array.
abbrev pub fits : List ℕ → Bool
fits text = ltb (length text) path_size

-- What is written into `path`, with no look at its size: the text only grows, so all writes stay in the
-- array exactly where the whole text fits it.
unfoldable pub written_path : List ℕ → HttpUrl → List ℕ
unfolding gen_paths
written_path root url =
    let path = gen_paths url url.path_stack (cstring root ++ b'/' ∷ []) in
    if ends_in_slash path then path ++ codes "index.html" else path

-- The path that is looked up: the text up to the first 0.
unfoldable pub file_path : List ℕ → HttpUrl → List ℕ
unfolding written_path
file_path root url = cstring (written_path root url)

-- The last dot is at `c`, unless there is a later one.
abbrev pub last_dot : ℕ → List ℕ → Option (List ℕ) → Option (List ℕ)
last_dot c s (some type) = some type
last_dot c s none = if c == b'.' then some s else none

-- `strrchr(path, '.')` and `++type`: what stands behind the last dot.
unfoldable pub file_type : List ℕ → Option (List ℕ)
file_type [] = none
file_type (c ∷ s) = last_dot c s (file_type s)

-- `strcmp(s, t) == 0` on texts without a 0.
abbrev pub strcmp_eq : List ℕ → List ℕ → Bool
strcmp_eq [] [] = true
strcmp_eq [] (d ∷ t) = false
strcmp_eq (c ∷ s) [] = false
strcmp_eq (c ∷ s) (d ∷ t) = (c == d) && strcmp_eq s t

abbrev pub is_image : List ℕ → Bool
is_image type =
    strcmp_eq type (codes "jpg")
    || strcmp_eq type (codes "jpeg")
    || strcmp_eq type (codes "png")
    || strcmp_eq type (codes "bmp")

-- The value of `Content-Type`.
unfoldable pub content_type : List ℕ → List ℕ
content_type type = if is_image type then codes "image/" ++ type else codes "text/" ++ type

-- The digits of a number, with fuel for them.
unfoldable pub digits : ℕ → ℕ → List ℕ
digits zero n = []
digits (suc fuel) n =
    let before = digits fuel (n / 10) in
    if ltb n 10 then (b'0' + n) ∷ [] else before ++ (b'0' + n % 10) ∷ []

-- `sprintf("%d")` of an `int`, which has ten digits at most.
unfoldable pub decimal : ℤ → List ℕ
unfolding digits
decimal (pos n) = digits 10 n
decimal (negsuc n) = b'-' ∷ digits 10 (suc n)

-- The `int` that an `off_t` becomes.
unfoldable pub int32 : ℕ → ℤ
int32 n = let low = n % 2 ^ 32 in if ltb low (2 ^ 31) then pos low else negsuc (2 ^ 32 - 1 - low)
