-- ===== src/Vault/Writing.antt =====
-- src/storage.rs: what `vault_write_file` leaves on the disk.
use vitruvius.Base.{
  ℕ, suc, ◌+◌, ◌<◌, ◌^◌, ◌≡◌, refl, sym, ap, ◌∙◌, List, [], ◌∷◌, ◌++◌, Bytes, length, append_assoc,
  append-nil, arith, ok, Result, as_u32, u32_bytes, u64_bytes,
}
use vitruvius.Paths.{FilePath}
use vitruvius.Fs.{Fs, file, ◌>>◌, put, write_all}
use vitruvius.Fs.Actions.{continue-eq-ok, >>=-eq-ok}
use vitruvius.Fs.Laws.{IsHandle, write_all-put}
use vitruvius.Crypto.{Primitives, IsAead, Draw, encrypt_with_aad, decrypt_with_aad}
use vitruvius.Crypto.Aead.{Fills, encrypt_with_aad-Sealed, decrypt_with_aad-Sealed}
use vitruvius.Vault.{vault_chunk_aad, vault_magic}
use vitruvius.Vault.Write.{try_block_len, write_chunk, write_chunks, write_header}
use vitruvius.Vault.Image.{record_bytes, header_bytes, Records}

try_block_len-ok : (n m : ℕ) → try_block_len n ≡ ok m → (m ≡ n) × (n < 2 ^ 32)
unfolding try_block_len
try_block_len-ok n m e = ground arith

module _ (P : Primitives) (sound : IsAead P) (vault_key file_uuid : Bytes) (nonces : ℕ → Draw)
    (h : FilePath) (nonroot : IsHandle h) where
  -- Three writes put one record at the end of the file.
  write_record :
      (pre a b c : Bytes) (fs : Fs)
      → (write_all h a >> (write_all h b >> write_all h c)) (put h (file pre) fs)
        ≡ (ok tt, put h (file (pre ++ (a ++ (b ++ c)))) fs)
  write_record pre a b c fs =
      rw
        (
          write_all-put h pre a fs nonroot,
          write_all-put h (pre ++ a) b fs nonroot,
          write_all-put h ((pre ++ a) ++ b) c fs nonroot,
        )
        (simp append_assoc)

  -- A round that succeeds has encrypted the chunk and appended its record.
  write_chunk-ok :
      (i : ℕ) (chunk pre : Bytes) (fs after : Fs)
      → write_chunk P vault_key file_uuid nonces h i chunk (put h (file pre) fs) ≡ (ok tt, after)
      → (block : Bytes) × (encrypt_with_aad P
            (nonces i)
            vault_key
            chunk
            (vault_chunk_aad file_uuid (as_u32 i))
          ≡ ok block)
        × (length block < 2 ^ 32)
        × (after ≡ put h (file (pre ++ record_bytes (P.hash chunk) block)) fs)
  unfolding write_chunk
  write_chunk-ok i chunk pre fs after e =
      let (block, made, then_len) = continue-eq-ok _ _ _ e in
      let (block_len, fits, then_write) = continue-eq-ok _ _ _ then_len in
      let (same, small) = try_block_len-ok (length block) block_len fits in
      let written = write_record pre (P.hash chunk) (u32_bytes (length block)) block fs in
      (
        block,
        made,
        small,
        ap (λ (r : Result (Unit {0}) × Fs). r.1) (sym (rw same at then_write) ∙ written),
      )

  pub write_chunks-ok :
      (i : ℕ) (chunks : List Bytes) (pre : Bytes) (fs after : Fs)
      → ((k : ℕ) → Fills 12 (nonces k))
      → ((b : Bytes) → length (P.hash b) ≡ 32)
      → i + length chunks < 2 ^ 32
      → write_chunks P vault_key file_uuid nonces h i chunks (put h (file pre) fs) ≡ (ok tt, after)
      → (records : Bytes) × Records P vault_key file_uuid i chunks records
        × (after ≡ put h (file (pre ++ records)) fs)
  unfolding write_chunks
  write_chunks-ok i [] pre fs after fills hash_len small e =
      ([], refl, rw append-nil (ap (λ (r : Result (Unit {0}) × Fs). r.1) (sym e)))
  write_chunks-ok i (chunk ∷ chunks) pre fs after fills hash_len small e =
      let first = write_chunk P vault_key file_uuid nonces h i chunk in
      let start = put h (file pre) fs in
      let (u, head_ok, tail_ok) =
        >>=-eq-ok (λ (_ : Unit {0}). write_chunks P vault_key file_uuid nonces h (suc i) chunks)
          first start e in
      let (block, made, fits, mid) =
        write_chunk-ok i chunk pre fs (first start).1
          (ap (λ (r : Result (Unit {0})). (r, (first start).1)) head_ok) in
      let (records, held, final) =
        write_chunks-ok (suc i) chunks (pre ++ record_bytes (P.hash chunk) block) fs after fills
          hash_len (omega arith) (rw mid at tail_ok) in
      let index : as_u32 i ≡ i = omega arith in
      let opens : decrypt_with_aad P vault_key block (vault_chunk_aad file_uuid i) ≡ ok chunk =
        decrypt_with_aad-Sealed P sound vault_key (vault_chunk_aad file_uuid i) chunk block (
          encrypt_with_aad-Sealed P sound vault_key (vault_chunk_aad file_uuid i) chunk block
            (nonces i) (fills i) (rw index at made)) in
      (
        record_bytes (P.hash chunk) block ++ records,
        (block, records, refl, hash_len chunk, fits, opens, held),
        final
            ∙ ap (λ b. put h (file b) fs)
                (append_assoc pre (record_bytes (P.hash chunk) block) records),
      )

  pub write_header-put :
      (total size : ℕ) (fs : Fs)
      → write_header P vault_key file_uuid nonces h total size (put h (file []) fs)
        ≡ (ok tt, put h (file (header_bytes file_uuid total size)) fs)
  unfolding write_header
  write_header-put total size fs =
      rw
        (
          write_all-put h [] vault_magic fs nonroot,
          write_all-put h vault_magic file_uuid fs nonroot,
          write_all-put h (vault_magic ++ file_uuid) (u32_bytes total) fs nonroot,
          write_all-put h ((vault_magic ++ file_uuid) ++ u32_bytes total) (u64_bytes size) fs
              nonroot,
          write_all-put h (((vault_magic ++ file_uuid) ++ u32_bytes total) ++ u64_bytes size)
              (0 ∷ 0 ∷ 0 ∷ 0 ∷ []) fs nonroot,
        )
        (simp append_assoc)
