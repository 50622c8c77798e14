-- ===== src/Vault/Write.antt =====
-- src/storage.rs: `vault_write_file_from_plaintext_chunks`. The draws of the random number
-- generator are arguments: the `file_uuid`, and a nonce for each chunk.
use vitruvius.Base.{
  ℕ, suc, ◌^◌, List, [], ◌∷◌, Bytes, Text, length, map, sum, ltb, u32_bytes, u64_bytes, as_u32,
  Option, none, some, true, false, Result, ok, err, rng_failed, unsafe_path, too_many_chunks,
  chunk_too_big, panicked,
}
use vitruvius.Paths.{FilePath, parent, unsafe_rel_path, rel_to_vault_abs}
use vitruvius.Fs.{Io, pure, lift, ◌>>=◌, ◌>>◌, ignore, create, write_all, create_dir_all}
use vitruvius.Crypto.{Primitives, Draw, encrypt_with_aad}
use vitruvius.Vault.{vault_magic, vault_chunk_aad}

-- `n.try_into()` for a `u32`
unfoldable pub try_u32 : ℕ → Result ℕ
try_u32 n = elim (ltb n (2 ^ 32)) [ true ↦ ok n | false ↦ err too_many_chunks ]

unfoldable pub try_block_len : ℕ → Result ℕ
try_block_len n = elim (ltb n (2 ^ 32)) [ true ↦ ok n | false ↦ err chunk_too_big ]

-- `if let Some(p) = target.parent() { fs::create_dir_all(p).ok(); }`
unfoldable pub create_parent : FilePath → Io (Unit {0})
create_parent target = elim (parent target) [ none ↦ pure tt | some p ↦ ignore (create_dir_all p) ]

module _ (P : Primitives) (vault_key file_uuid : Bytes) (nonces : ℕ → Draw) where
  -- One round of the chunk loop, for the chunk with number `i`.
  unfoldable pub write_chunk : FilePath → ℕ → Bytes → Io (Unit {0})
  write_chunk f i chunk = do
    let plaintext_hash = P.hash chunk
    let aad = vault_chunk_aad file_uuid (as_u32 i)
    block ← lift (encrypt_with_aad P (nonces i) vault_key chunk aad)
    block_len ← lift (try_block_len (length block))
    write_all f plaintext_hash
    write_all f (u32_bytes block_len)
    write_all f block

  unfoldable pub write_chunks : FilePath → ℕ → List Bytes → Io (Unit {0})
  write_chunks f i [] = pure tt
  write_chunks f i (chunk ∷ chunks) = do write_chunk f i chunk; write_chunks f (suc i) chunks

  unfoldable pub write_header : FilePath → ℕ → ℕ → Io (Unit {0})
  write_header f total_chunks original_size = do
    write_all f vault_magic
    write_all f file_uuid
    write_all f (u32_bytes total_chunks)
    write_all f (u64_bytes original_size)
    write_all f (0 ∷ 0 ∷ 0 ∷ 0 ∷ [])

  -- What follows the choice of the target.
  unfoldable pub write_target : FilePath → List Bytes → Io FilePath
  write_target target plaintext_chunks = do
    create_parent target
    total_chunks ← lift (try_u32 (length plaintext_chunks))
    let original_size = sum (map length plaintext_chunks)
    f ← create target
    write_header f total_chunks original_size
    write_chunks f 0 plaintext_chunks
    pure target

abbrev pub write_at :
    Primitives → Bytes → Draw → (ℕ → Draw) → Option FilePath → List Bytes → Io FilePath
write_at P vault_key uuid_draw nonces none chunks = lift (err panicked)
write_at P vault_key none nonces (some target) chunks =
    create_parent target >> lift (err rng_failed)
write_at P vault_key (some file_uuid) nonces (some target) chunks =
    write_target P vault_key file_uuid nonces target chunks

unfoldable pub vault_write_file :
    Primitives → Draw → (ℕ → Draw) → FilePath → Text → List Bytes → Bytes → Io FilePath
vault_write_file P uuid_draw nonces sync_root rel_path plaintext_chunks vault_key =
    elim (unsafe_rel_path rel_path) [
      | true ↦ lift (err unsafe_path)
      | false ↦
          write_at P vault_key uuid_draw nonces (rel_to_vault_abs sync_root rel_path)
            plaintext_chunks
    ]
