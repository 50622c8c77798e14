-- ===== src/Vault/Reading/Listing.antt =====
-- `read_vault_header` and `read_vault_chunk_hashes` on a well-formed file.
use vitruvius.Base.{
  ℕ, suc, ◌+◌, ◌^◌, ◌<◌, ◌≡◌, refl, List, [], ◌∷◌, ◌++◌, Bytes, length, map, sum, take, drop, ok,
  length-append, length-le_bytes, from_le_bytes-u32, from_le_bytes-u64, take-append, drop-append,
  append_assoc, arith, list_beq, u32_bytes, u64_bytes,
}
use vitruvius.Crypto.{Primitives}
use vitruvius.Vault.{read_exact, read_vault_header, read_vault_chunk_hashes, chunk_hashes_loop}
use vitruvius.Vault.Image.{header_bytes, Records, IsVault}
use vitruvius.Vault.Reading.{read_exact-append, next_pre, head-at, cut-next, next-at}

pub length-header_bytes :
    (file_uuid : Bytes) (total size : ℕ)
    → length file_uuid ≡ 16
    → length (header_bytes file_uuid total size) ≡ 40
length-header_bytes file_uuid total size h = omega (
  arith,
  length-append file_uuid (u32_bytes total ++ (u64_bytes size ++ (0 ∷ 0 ∷ 0 ∷ 0 ∷ []))),
  length-append (u32_bytes total) (u64_bytes size ++ (0 ∷ 0 ∷ 0 ∷ 0 ∷ [])),
  length-append (u64_bytes size) (0 ∷ 0 ∷ 0 ∷ 0 ∷ []),
  length-le_bytes 4 total,
  length-le_bytes 8 size,
)

-- The fields stand where the reader looks for them.
module _ (file_uuid : Bytes) (total size : ℕ) (uuid_len : length file_uuid ≡ 16) where
  abbrev size_part : Bytes
  size_part = u64_bytes size ++ (0 ∷ 0 ∷ 0 ∷ 0 ∷ [])

  uuid_field : take 16 (drop 8 (header_bytes file_uuid total size)) ≡ file_uuid
  uuid_field = take-append 16 file_uuid (u32_bytes total ++ size_part) uuid_len

  total_field : take 4 (drop 24 (header_bytes file_uuid total size)) ≡ u32_bytes total
  total_field =
      rw (drop-append 16 file_uuid (u32_bytes total ++ size_part) uuid_len)
        (take-append 4 (u32_bytes total) size_part (length-le_bytes 4 total))

  size_field : take 8 (drop 28 (header_bytes file_uuid total size)) ≡ u64_bytes size
  size_field = rw (← append_assoc file_uuid (u32_bytes total) size_part) (
      rw
        (drop-append 20 (file_uuid ++ u32_bytes total) size_part (
          omega
            (arith, length-append file_uuid (u32_bytes total), length-le_bytes 4 total, uuid_len)))
        (take-append 8 (u64_bytes size) (0 ∷ 0 ∷ 0 ∷ 0 ∷ []) (length-le_bytes 8 size)))

pub read_vault_header-header_bytes :
    (file_uuid records : Bytes) (total size : ℕ)
    → length file_uuid ≡ 16
    → total < 2 ^ 32
    → size < 2 ^ 64
    → read_vault_header (header_bytes file_uuid total size ++ records)
      ≡ ok (record { file_uuid = file_uuid; total_chunks = total; original_size = size })
unfolding read_vault_header list_beq
read_vault_header-header_bytes file_uuid records total size h t s =
    let whole : read_exact (header_bytes file_uuid total size ++ records) 0 40
        ≡ ok (header_bytes file_uuid total size, 40) =
      read_exact-append [] (header_bytes file_uuid total size) records 0 40 refl
        (length-header_bytes file_uuid total size h) in
    rw (
      whole,
      uuid_field file_uuid total size h,
      total_field file_uuid total size h,
      size_field file_uuid total size h,
      from_le_bytes-u32 total t,
      from_le_bytes-u64 size s,
    )

pub chunk_hashes-Records :
    (P : Primitives) (vault_key file_uuid contents pre : Bytes) (pos i : ℕ) (chunks : List Bytes)
    (bytes : Bytes)
    → contents ≡ pre ++ bytes
    → length pre ≡ pos
    → Records P vault_key file_uuid i chunks bytes
    → chunk_hashes_loop contents (length chunks) pos ≡ ok (map P.hash chunks)
unfolding chunk_hashes_loop
chunk_hashes-Records P vault_key file_uuid contents pre pos i [] bytes cut at_pos holds = refl
chunk_hashes-Records P vault_key file_uuid contents pre pos i (chunk ∷ chunks) bytes cut at_pos
      holds =
    let ih =
      chunk_hashes-Records P vault_key file_uuid contents
        (next_pre P vault_key file_uuid contents pre pos i chunk chunks bytes cut at_pos holds)
        (pos + 32 + 4 + length holds.0) (suc i) chunks holds.1
        (cut-next P vault_key file_uuid contents pre pos i chunk chunks bytes cut at_pos holds)
        (next-at P vault_key file_uuid contents pre pos i chunk chunks bytes cut at_pos holds)
        holds.6 in
    rw (head-at P vault_key file_uuid contents pre pos i chunk chunks bytes cut at_pos holds, ih)

-- A well-formed file lists its header fields and the hashes of its chunks.
module _ (P : Primitives) (vault_key : Bytes) (chunks : List Bytes) (bytes : Bytes)
    (v : IsVault P vault_key chunks bytes) where
  pub read_vault_header-IsVault :
      read_vault_header bytes
      ≡ ok (record {
        file_uuid = v.file_uuid;
        total_chunks = length chunks;
        original_size = sum (map length chunks);
      })
  read_vault_header-IsVault = rw v.layout (
      read_vault_header-header_bytes v.file_uuid v.records (length chunks) (sum (map length chunks))
        v.uuid_len v.few_chunks v.size_fits)

  pub read_vault_chunk_hashes-IsVault :
      read_vault_chunk_hashes bytes (length chunks) ≡ ok (map P.hash chunks)
  unfolding read_vault_chunk_hashes
  read_vault_chunk_hashes-IsVault =
      chunk_hashes-Records P vault_key v.file_uuid bytes
        (header_bytes v.file_uuid (length chunks) (sum (map length chunks))) 40 0 chunks v.records
        v.layout
        (length-header_bytes v.file_uuid (length chunks) (sum (map length chunks)) v.uuid_len)
        v.holds
