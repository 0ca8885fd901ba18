-- ===== src/HttpHeader/Search/Unique.antt =====
-- The hashes of the table of http_header.c: 16 bits wide, and all different
use oserver.Prelude.{
  ℕ, zero, suc, ◌<◌, ◌≡◌, refl, sym, ◌∙◌, Bool, true, ◌&&◌, List, [], ◌∷◌, map, ◌==◌, length,
  get_or, arith, not, ◌≢◌,
}
use oserver.HttpHeader.Fields.{Field, http_header_fields}
use oserver.HttpHeader.Hash.{hash_step, hash_from, http_header_hash}
use oserver.HttpHeader.Search.{field_str, field_hash, num_fields}

hash_from-lt : (hash : ℕ) (str : List ℕ) → hash < 0x10000 → hash_from hash str < 0x10000
unfolding hash_from
hash_from-lt hash [] h = h
hash_from-lt hash (c ∷ str) h =
    hash_from-lt (hash_step hash c) str (unfold hash_step in omega arith)

pub field_hash-lt : (i : ℕ) → field_hash i < 0x10000
unfolding field_hash
field_hash-lt i = hash_from-lt 0 (field_str i) (omega arith)

-- No two fields have the same hash: the table of hashes has no entry twice.
not_in : ℕ → List ℕ → Bool
not_in a [] = true
not_in a (x ∷ xs) = not (a == x) && not_in a xs

all_different : List ℕ → Bool
all_different [] = true
all_different (x ∷ xs) = not_in x xs && all_different xs

hashes_table : all_different (map (λ f. http_header_hash f.str) http_header_fields) ≡ true
unfolding all_different not_in http_header_hash http_header_fields
hashes_table = refl

not_in-get_or :
    (a : ℕ) (xs : List ℕ) (j : ℕ) → not_in a xs ≡ true → j < length xs → a ≢ get_or xs j 0
unfolding not_in
not_in-get_or a [] j h lt = absurd (omega arith)
not_in-get_or a (x ∷ xs) zero h lt = ground arith
not_in-get_or a (x ∷ xs) (suc j) h lt = ground (arith, not_in-get_or a xs j)

all_different-get_or :
    (xs : List ℕ) (i j : ℕ)
    → all_different xs ≡ true
    → i < length xs
    → j < length xs
    → get_or xs i 0 ≡ get_or xs j 0
    → i ≡ j
unfolding all_different
all_different-get_or [] i j h p q e = absurd (omega arith)
all_different-get_or (x ∷ xs) zero zero h p q e = refl
all_different-get_or (x ∷ xs) zero (suc j) h p q e = ground (arith, not_in-get_or x xs j)
all_different-get_or (x ∷ xs) (suc i) zero h p q e = ground (arith, not_in-get_or x xs i)
all_different-get_or (x ∷ xs) (suc i) (suc j) h p q e = ground (arith, all_different-get_or xs i j)

hash-get_or :
    (fs : List Field) (i : ℕ)
    → i < length fs
    → get_or (map (λ f. http_header_hash f.str) fs) i 0
      ≡ http_header_hash (get_or (map (λ f. f.str) fs) i [])
hash-get_or [] i h = absurd (omega arith)
hash-get_or (f ∷ fs) zero h = refl
hash-get_or (f ∷ fs) (suc i) h = hash-get_or fs i (omega arith)

-- Two fields of the table with the same hash are one.
pub field_hash-injective :
    (i j : ℕ) → i < num_fields → j < num_fields → field_hash i ≡ field_hash j → i ≡ j
field_hash-injective i j p q e =
    all_different-get_or (map (λ f. http_header_hash f.str) http_header_fields) i j hashes_table
      (unfold http_header_fields in p) (unfold http_header_fields in q)
      (unfold field_hash in
        (hash-get_or http_header_fields i p ∙ e ∙ sym (hash-get_or http_header_fields j q)))
