-- ===== src/Storage/Slices.antt =====
-- src/storage.rs: the hashes that a plaintext file announces, and the chunks that are read from it.
use vitruvius.Base.{
  ◌%◌, ◌^◌, ◌>>=◌, Bool-cases, inl, inr, false, List, length-take, ℕ, zero, suc, ◌+◌, ◌-◌, ◌*◌, ◌/◌,
  ◌≤◌, ◌<◌, ◌≡◌, ◌≢◌, refl, sym, ap, ◌∙◌, Option, none, some, [], ◌∷◌, Bytes, Text, length, take,
  drop, get_elem?, drop-drop, chunk_past_end, drop-all, drop-nil, take-add, take-all, max,
  if◌then◌else◌, length-drop, Result, ok, err, arith, is_empty, concat, map, range_from, range,
}
use native.Mathlib.Nat.{zero-mul}
use vitruvius.Crypto.{Primitives}
use vitruvius.Storage.{chunk_size, chunks_of_size, hash_loop, metadata_of, read_slice}

-- The bytes at a position of a file that is cut into chunks.
abbrev pub slice : ℕ → Bytes → Bytes
slice i contents = take chunk_size (drop (i * chunk_size) contents)

in_word : (i : ℕ) → i * chunk_size < 2 ^ 64 → (i * chunk_size) % 2 ^ 64 ≡ i * chunk_size
in_word i h = omega arith

-- As long as the offset is below 2^64, a read gives the bytes at the position, if there are any.
read_slice-slice :
    (contents : Bytes) (i : ℕ)
    → i * chunk_size < 2 ^ 64
    → read_slice chunk_size contents i
      ≡ (if is_empty (slice i contents) then err (chunk_past_end i) else ok (slice i contents))
unfolding read_slice
read_slice-slice contents i h =
    ap
      (λ offset.
        let got = take chunk_size (drop offset contents) in
        if is_empty got then err (chunk_past_end i) else ok got)
      (in_word i h)

module _ (P : Primitives) where
  -- The hash of what was read, if anything was.
  abbrev pub hash_of : Result Bytes → Option Bytes
  hash_of (ok bytes) = some (P.hash bytes)
  hash_of (err e) = none

  abbrev pub hash_slice : Bytes → Option Bytes
  hash_slice got = if is_empty got then none else some (P.hash got)

  hash_of-read_slice :
      (i : ℕ) (contents : Bytes)
      → i * chunk_size < 2 ^ 64
      → hash_of (read_slice chunk_size contents i) ≡ hash_slice (slice i contents)
  hash_of-read_slice i contents h =
      ap hash_of (read_slice-slice contents i h) ∙ elim (Bool-cases (is_empty (slice i contents))) [
        | inl nothing ↦ rw nothing refl
        | inr something ↦ rw something refl
      ]

  -- Reads of `suc k` bytes, as many as the file needs.
  hash_loop-hash_slice :
      (k n i : ℕ) (contents : Bytes)
      → length contents ≤ n * suc k
      → get_elem? (hash_loop P (suc k) n contents) i
        ≡ hash_slice (take (suc k) (drop (i * suc k) contents))
  unfolding hash_loop
  hash_loop-hash_slice k zero i contents short = rw (drop-all (i * suc k) contents (omega arith))
  hash_loop-hash_slice k (suc n) i [] short = rw (drop-nil (i * suc k))
  hash_loop-hash_slice k (suc n) zero (c ∷ cs) short = rw (zero-mul (suc k))
  hash_loop-hash_slice k (suc n) (suc i) (c ∷ cs) short =
      let ih =
        hash_loop-hash_slice k n i (drop (suc k) (c ∷ cs))
          (omega (arith, length-drop (suc k) (c ∷ cs))) in
      ih
      ∙ ap (λ rest. hash_slice (take (suc k) rest))
          (sym (drop-drop (suc k) (i * suc k) (suc i * suc k) (c ∷ cs) (omega arith)))

  enough_reads : (len : ℕ) → len ≤ chunks_of_size chunk_size len * chunk_size
  unfolding chunks_of_size
  enough_reads len = omega arith

  pub chunk_hashes-hash_slice :
      (file_name : Text) (contents : Bytes) (i : ℕ)
      → get_elem? (metadata_of P file_name contents).chunk_hashes i ≡ hash_slice (slice i contents)
  unfolding metadata_of
  chunk_hashes-hash_slice file_name contents i =
      hash_loop-hash_slice 524287 (chunks_of_size chunk_size (length contents)) i contents
        (enough_reads (length contents))

  -- For every plaintext file and every position i below 2^45: the metadata announces a hash at
  -- position i exactly when chunk i can be read, and it is then the hash of the bytes read.
  pub metadata_of-read_slice :
      (file_name : Text) (contents : Bytes) (i : ℕ)
      → i < 2 ^ 45
      → get_elem? (metadata_of P file_name contents).chunk_hashes i
        ≡ hash_of (read_slice chunk_size contents i)
  metadata_of-read_slice file_name contents i h =
      chunk_hashes-hash_slice file_name contents i
      ∙ sym (hash_of-read_slice i contents (omega arith))

  length-hash_loop :
      (k n : ℕ) (contents : Bytes)
      → n * suc k < length contents + suc k
      → length (hash_loop P (suc k) n contents) ≡ n
  unfolding hash_loop
  length-hash_loop k zero contents h = refl
  length-hash_loop k (suc n) [] h = absurd (omega arith)
  length-hash_loop k (suc n) (c ∷ cs) h =
      ap suc
        (length-hash_loop k n (drop (suc k) (c ∷ cs)) (omega (arith, length-drop (suc k) (c ∷ cs))))

  -- A file that is not empty announces one hash for each of its chunks.
  pub length-chunk_hashes :
      (file_name : Text) (contents : Bytes)
      → contents ≢ []
      → length (metadata_of P file_name contents).chunk_hashes
        ≡ (metadata_of P file_name contents).total_chunks
  unfolding metadata_of chunks_of_size
  length-chunk_hashes file_name [] nonempty = absurd (nonempty refl)
  length-chunk_hashes file_name (c ∷ cs) nonempty =
      length-hash_loop 524287 (max ((length (c ∷ cs) + chunk_size - 1) / chunk_size) 1) (c ∷ cs)
        (omega arith)

  -- An empty file announces one chunk and no hash, and no chunk of it can be read: the receiver
  -- asks for a chunk that is never served.
  pub empty_file :
      (file_name : Text) (i : ℕ)
      → ((metadata_of P file_name []).total_chunks ≡ 1)
        × ((metadata_of P file_name []).chunk_hashes ≡ [])
        × (read_slice chunk_size [] i ≡ err (chunk_past_end i))
  unfolding metadata_of chunks_of_size hash_loop read_slice
  empty_file file_name i = (refl, refl, rw (drop-nil ((i * chunk_size) % 2 ^ 64)))

concat-slices :
    (size n i : ℕ) (contents : Bytes)
    → concat (map (λ j. take size (drop (j * size) contents)) (range_from n i))
      ≡ take (n * size) (drop (i * size) contents)
concat-slices size zero i contents = rw zero-mul
concat-slices size (suc n) i contents = rw (concat-slices size n (suc i) contents) (
    rw (drop-drop (i * size) size (suc i * size) contents (omega arith))
      (sym (take-add size (n * size) (suc n * size) (drop (i * size) contents) (omega arith))))

pub concat-slice :
    (P : Primitives) (file_name : Text) (contents : Bytes)
    → concat (map (λ i. slice i contents) (range (metadata_of P file_name contents).total_chunks))
      ≡ contents
unfolding metadata_of
concat-slice P file_name contents =
    let total = chunks_of_size chunk_size (length contents) in
    concat-slices chunk_size total 0 contents
    ∙ take-all (total * chunk_size) contents (enough_reads P (length contents))

-- The chunks at some positions, read one after the other; the first error ends the reading.
abbrev pub read_each : Bytes → List ℕ → Result (List Bytes)
read_each contents [] = ok []
read_each contents (i ∷ is) = do
  piece ← read_slice chunk_size contents i
  pieces ← read_each contents is
  ok (piece ∷ pieces)

is_empty-lt : (xs : Bytes) → 0 < length xs → is_empty xs ≡ false
is_empty-lt [] h = absurd (omega arith)
is_empty-lt (x ∷ xs) h = refl

read_slice-lt :
    (contents : Bytes) (i : ℕ)
    → length contents < 2 ^ 64
    → i * chunk_size < length contents
    → read_slice chunk_size contents i ≡ ok (slice i contents)
read_slice-lt contents i small below =
    let inside : 0 < length (slice i contents) = omega (
      arith,
      length-take chunk_size (drop (i * chunk_size) contents),
      length-drop (i * chunk_size) contents,
    ) in
    read_slice-slice contents i (omega arith) ∙ rw (is_empty-lt (slice i contents) inside) refl

read_each-range :
    (contents : Bytes) (n k : ℕ)
    → length contents < 2 ^ 64
    → (k + n) * chunk_size < length contents + chunk_size
    → read_each contents (range_from n k) ≡ ok (map (λ i. slice i contents) (range_from n k))
read_each-range contents zero k small fits = refl
read_each-range contents (suc n) k small fits =
    rw (read_slice-lt contents k small (omega arith))
      (rw (read_each-range contents n (suc k) small (omega arith)) refl)

-- For a plaintext file that is not empty and has less than 2^64 bytes: every chunk that its metadata
-- announces can be read, and the chunks, read one after the other, give the whole file back.
pub concat-read_slice :
    (P : Primitives) (file_name : Text) (contents : Bytes)
    → contents ≢ []
    → length contents < 2 ^ 64
    → (pieces : List Bytes) × (read_each contents
          (range (metadata_of P file_name contents).total_chunks)
        ≡ ok pieces)
      × (concat pieces ≡ contents)
unfolding metadata_of chunks_of_size
concat-read_slice P file_name [] nonempty small = absurd (nonempty refl)
concat-read_slice P file_name (c ∷ cs) nonempty small =
    let total = (metadata_of P file_name (c ∷ cs)).total_chunks in
    (
      map (λ i. slice i (c ∷ cs)) (range total),
      read_each-range (c ∷ cs) total 0 small (omega arith),
      concat-slice P file_name (c ∷ cs),
    )
