-- ===== src/Vault.antt =====
-- src/storage.rs: the `*.vit` container. A 40-byte header is followed by one record per chunk: the
-- plaintext hash (32 bytes), the length of the AEAD block (u32, little-endian) and the block.
pub mod Write
pub mod Export
pub mod Image
pub mod Reading
pub mod Writing
pub mod RoundTrip
pub mod Exporting
use vitruvius.Base.{
  ℕ, zero, suc, ◌+◌, nat_eq, list_eq, ◌==◌, Bool, true, false, List, [], ◌∷◌, ◌++◌, Bytes, length,
  take, drop, leb, from_le_bytes, u32_bytes, if◌then◌else◌, Result, ok, err, ◌>>=◌, ◌>>◌, guard,
  io_unexpected_eof, bad_magic, chunk_out_of_range, chunk_not_found,
}
use vitruvius.Paths.{FilePath}
use vitruvius.Fs.{Fs, read_file}
use vitruvius.Crypto.{Primitives, decrypt_with_aad}

-- VAULT_MAGIC, b"VITV01\0\0"
abbrev pub vault_magic : Bytes
vault_magic = 86 ∷ 73 ∷ 84 ∷ 86 ∷ 48 ∷ 49 ∷ 0 ∷ 0 ∷ []

-- VAULT_HEADER_LEN, VAULT_PER_CHUNK_HASH_LEN and VAULT_PER_CHUNK_LEN_PREFIX
abbrev pub vault_header_len : ℕ
vault_header_len = 40

abbrev pub vault_per_chunk_hash_len : ℕ
vault_per_chunk_hash_len = 32

abbrev pub vault_per_chunk_len_prefix : ℕ
vault_per_chunk_len_prefix = 4

pub record VaultHeader : Type 0 where
  pub file_uuid : Bytes
  pub total_chunks : ℕ
  pub original_size : ℕ

-- `file.read_exact(&mut buf)` with a buffer of `n` bytes and the cursor at `pos`; the new position
-- comes back beside the bytes. A seek past the end succeeds, and the next read fails.
unfoldable pub read_exact : Bytes → ℕ → ℕ → Result (Bytes × ℕ)
read_exact contents pos n =
    let got = take n (drop pos contents) in
    if length got == n then ok (got, pos + n) else err io_unexpected_eof

unfoldable pub read_vault_header : Bytes → Result VaultHeader
read_vault_header contents = do
  (hdr, _) ← read_exact contents 0 vault_header_len
  guard (take 8 hdr == vault_magic) bad_magic
  ok (record {
    file_uuid = take 16 (drop 8 hdr);
    total_chunks = from_le_bytes (take 4 (drop 24 hdr));
    original_size = from_le_bytes (take 8 (drop 28 hdr));
  })

-- The hash and the length prefix of the record at `pos`, and the position of its block.
unfoldable pub read_record_head : Bytes → ℕ → Result (Bytes × ℕ × ℕ)
read_record_head contents pos = do
  (hash, after_hash) ← read_exact contents pos vault_per_chunk_hash_len
  (len_buf, after_len) ← read_exact contents after_hash vault_per_chunk_len_prefix
  ok (hash, from_le_bytes len_buf, after_len)

unfoldable pub chunk_hashes_loop : Bytes → ℕ → ℕ → Result (List Bytes)
chunk_hashes_loop contents zero pos = ok []
chunk_hashes_loop contents (suc n) pos = do
  (hash, block_len, block_pos) ← read_record_head contents pos
  rest ← chunk_hashes_loop contents n (block_pos + block_len)
  ok (hash ∷ rest)

unfoldable pub read_vault_chunk_hashes : Bytes → ℕ → Result (List Bytes)
read_vault_chunk_hashes contents total_chunks =
    chunk_hashes_loop contents total_chunks vault_header_len

-- b"vitv02-vault\0\0\0\0"
abbrev pub vault_tag : Bytes
vault_tag = 118 ∷ 105 ∷ 116 ∷ 118 ∷ 48 ∷ 50 ∷ 45 ∷ 118 ∷ 97 ∷ 117 ∷ 108 ∷ 116 ∷ 0 ∷ 0 ∷ 0 ∷ 0 ∷ []

unfoldable pub vault_chunk_aad : Bytes → ℕ → Bytes
vault_chunk_aad file_uuid chunk_index = vault_tag ++ (file_uuid ++ u32_bytes chunk_index)

module _ (P : Primitives) where
  -- One round of `vault_export_to_plaintext`: the plaintext of the record at `pos`, and where the
  -- next record starts.
  unfoldable pub open_record : Bytes → Bytes → Bytes → ℕ → ℕ → Result (Bytes × ℕ)
  open_record contents file_uuid vault_key i pos = do
    (hash, block_len, block_pos) ← read_record_head contents pos
    (block, next) ← read_exact contents block_pos block_len
    plaintext ← decrypt_with_aad P vault_key block (vault_chunk_aad file_uuid i)
    ok (plaintext, next)

  -- The loop of `vault_read_chunk`: `n` records are left, and `i` is the number of the next.
  unfoldable pub read_chunk_loop : Bytes → Bytes → Bytes → ℕ → ℕ → ℕ → ℕ → Result Bytes
  read_chunk_loop contents file_uuid vault_key chunk_index zero i pos =
      err (chunk_not_found chunk_index)
  read_chunk_loop contents file_uuid vault_key chunk_index (suc n) i pos = do
    (hash, block_len, block_pos) ← read_record_head contents pos
    elim (i == chunk_index) [
      | true ↦ do
        (block, _) ← read_exact contents block_pos block_len
        decrypt_with_aad P vault_key block (vault_chunk_aad file_uuid chunk_index)
      | false ↦
          read_chunk_loop contents file_uuid vault_key chunk_index n (suc i) (block_pos + block_len)
    ]

  -- `vault_read_chunk` on the contents of the open file.
  unfoldable pub read_chunk_of : Bytes → ℕ → Bytes → Result Bytes
  read_chunk_of contents chunk_index vault_key = do
    hdr ← read_vault_header contents
    elim (leb hdr.total_chunks chunk_index) [
      | true ↦ err (chunk_out_of_range chunk_index hdr.total_chunks)
      | false ↦
          read_chunk_loop contents hdr.file_uuid vault_key chunk_index hdr.total_chunks 0
            vault_header_len
    ]

  unfoldable pub vault_read_chunk : Fs → FilePath → ℕ → Bytes → Result Bytes
  vault_read_chunk fs vault_file_path chunk_index vault_key = do
    contents ← read_file fs vault_file_path
    read_chunk_of contents chunk_index vault_key
