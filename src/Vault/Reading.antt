-- ===== src/Vault/Reading.antt =====
-- src/storage.rs: the readers of a `*.vit` file, on the records of a well-formed one.
pub mod Listing
pub mod Chunks
use vitruvius.Base.{
  ℕ, zero, suc, ◌+◌, ◌-◌, ◌<◌, ◌≤◌, ◌^◌, ◌≡◌, refl, sym, ap, ◌∙◌, subst, List, [], ◌∷◌, ◌++◌, Bytes,
  length, map, sum, take, drop, get_elem?, some, u32_bytes, u64_bytes, from_le_bytes,
  from_le_bytes-u32, from_le_bytes-u64, length-le_bytes, length-append, take-append, drop-append,
  append_assoc, arith, ==_refl, nat_eq, list_eq, Result, ok, err, ◌>>=◌, chunk_out_of_range,
  append-nil, true, false, ◌==◌,
}
use vitruvius.Crypto.{Primitives, decrypt_with_aad}
use vitruvius.Vault.{
  VaultHeader, vault_header_len, read_exact, read_vault_header, read_record_head, chunk_hashes_loop,
  read_vault_chunk_hashes, vault_chunk_aad, open_record, read_chunk_loop, read_chunk_of,
  vault_magic,
}
use vitruvius.Vault.Image.{header_bytes, record_bytes, Records, IsVault}

-- A read inside the file returns the bytes that stand there.
pub read_exact-append :
    (pre xs ys : Bytes) (pos n : ℕ)
    → length pre ≡ pos
    → length xs ≡ n
    → read_exact (pre ++ (xs ++ ys)) pos n ≡ ok (xs, pos + n)
unfolding read_exact
read_exact-append pre xs ys pos n hp hn =
    rw (drop-append pos pre (xs ++ ys) hp, take-append n xs ys hn) (ground (arith, hn))

module _ (pre hash block rest : Bytes) (hash_len : length hash ≡ 32) where
  abbrev contents_at : Bytes
  contents_at = pre ++ (record_bytes hash block ++ rest)

  regroup_hash : contents_at ≡ pre ++ (hash ++ (u32_bytes (length block) ++ block ++ rest))
  regroup_hash = simp append_assoc

  regroup_len : contents_at ≡ (pre ++ hash) ++ (u32_bytes (length block) ++ (block ++ rest))
  regroup_len = simp append_assoc

  regroup_block : contents_at ≡ (pre ++ (hash ++ u32_bytes (length block))) ++ (block ++ rest)
  regroup_block = simp append_assoc

  regroup_next : contents_at ≡ (pre ++ record_bytes hash block) ++ rest
  regroup_next = simp append_assoc

  read_record_head-at :
      length block < 2 ^ 32
      → read_record_head contents_at (length pre) ≡ ok (hash, length block, length pre + 32 + 4)
  unfolding read_record_head
  read_record_head-at fits =
      let first : read_exact contents_at (length pre) 32 ≡ ok (hash, length pre + 32) =
        rw regroup_hash (
          read_exact-append pre hash (u32_bytes (length block) ++ block ++ rest) (length pre) 32
            refl hash_len) in
      let second : read_exact contents_at (length pre + 32) 4
          ≡ ok (u32_bytes (length block), length pre + 32 + 4) =
        rw regroup_len (
          read_exact-append (pre ++ hash) (u32_bytes (length block)) (block ++ rest)
            (length pre + 32) 4 (omega (arith, length-append pre hash))
            (length-le_bytes 4 (length block))) in
      rw (first, second, from_le_bytes-u32 (length block) fits)

  read_block-at :
      read_exact contents_at (length pre + 32 + 4) (length block)
      ≡ ok (block, length pre + 32 + 4 + length block)
  read_block-at = rw regroup_block (
      read_exact-append (pre ++ (hash ++ u32_bytes (length block))) block rest (length pre + 32 + 4)
        (length block)
        (omega (
          arith,
          length-append pre (hash ++ u32_bytes (length block)),
          length-append hash (u32_bytes (length block)),
          length-le_bytes 4 (length block),
        ))
        refl)

  next_length : length (pre ++ record_bytes hash block) ≡ length pre + 32 + 4 + length block
  next_length = omega (
    arith,
    length-append pre (record_bytes hash block),
    length-append hash (u32_bytes (length block) ++ block),
    length-append (u32_bytes (length block)) block,
    length-le_bytes 4 (length block),
  )

-- The readers at a record of a well-formed file: `contents` is cut in front of the record, at
-- `pos`.
module _ (P : Primitives) (vault_key file_uuid contents pre : Bytes) (pos i : ℕ) (chunk : Bytes)
    (chunks : List Bytes) (bytes : Bytes) (cut : contents ≡ pre ++ bytes)
    (at_pos : length pre ≡ pos)
    (holds : Records P vault_key file_uuid i (chunk ∷ chunks) bytes) where
  abbrev pub block_of : Bytes
  block_of = holds.0

  abbrev pub next_pos : ℕ
  next_pos = pos + 32 + 4 + length block_of

  abbrev pub next_pre : Bytes
  next_pre = pre ++ record_bytes (P.hash chunk) block_of

  laid_out : contents ≡ contents_at pre (P.hash chunk) block_of holds.1 holds.3
  laid_out = cut ∙ ap (λ b. pre ++ b) holds.2

  pub head-at : read_record_head contents pos ≡ ok (P.hash chunk, length block_of, pos + 32 + 4)
  head-at =
      rw (laid_out, ← at_pos)
        (read_record_head-at pre (P.hash chunk) block_of holds.1 holds.3 holds.4)

  pub block-at : read_exact contents (pos + 32 + 4) (length block_of) ≡ ok (block_of, next_pos)
  block-at = rw (laid_out, ← at_pos) (read_block-at pre (P.hash chunk) block_of holds.1 holds.3)

  pub cut-next : contents ≡ next_pre ++ holds.1
  cut-next = laid_out ∙ regroup_next pre (P.hash chunk) block_of holds.1 holds.3

  pub next-at : length next_pre ≡ next_pos
  next-at = omega (arith, next_length pre (P.hash chunk) block_of holds.1 holds.3, at_pos)

  pub open_record-at : open_record P contents file_uuid vault_key i pos ≡ ok (chunk, next_pos)
  unfolding open_record
  open_record-at = rw (head-at, block-at, holds.5)
