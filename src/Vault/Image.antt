-- ===== src/Vault/Image.antt =====
-- What a well-formed `*.vit` file holds, independently of the code that writes and reads it.
use vitruvius.Base.{
  ℕ, suc, ◌<◌, ◌^◌, ◌≡◌, List, [], ◌∷◌, ◌++◌, Bytes, length, map, sum, u32_bytes, u64_bytes, ok,
}
use vitruvius.Crypto.{Primitives, decrypt_with_aad}
use vitruvius.Vault.{vault_magic, vault_chunk_aad}

abbrev pub header_bytes : Bytes → ℕ → ℕ → Bytes
header_bytes file_uuid total_chunks original_size =
    vault_magic
    ++ (file_uuid ++ (u32_bytes total_chunks ++ (u64_bytes original_size ++ (0 ∷ 0 ∷ 0 ∷ 0 ∷ []))))

abbrev pub record_bytes : Bytes → Bytes → Bytes
record_bytes hash block = hash ++ (u32_bytes (length block) ++ block)

module _ (P : Primitives) (vault_key file_uuid : Bytes) where
  -- The records from number `i` on hold the chunks, in order, each under its own position.
  abbrev pub Records : ℕ → List Bytes → Bytes → Type 0
  Records i [] bytes = bytes ≡ []
  Records i (chunk ∷ chunks) bytes =
      (block : Bytes) × (rest : Bytes) × (bytes ≡ record_bytes (P.hash chunk) block ++ rest)
      × (length (P.hash chunk) ≡ 32)
      × (length block < 2 ^ 32)
      × (decrypt_with_aad P vault_key block (vault_chunk_aad file_uuid i) ≡ ok chunk)
      × Records (suc i) chunks rest

-- The file holds the chunks under the key.
pub record IsVault (P : Primitives) (vault_key : Bytes) (chunks : List Bytes) (bytes : Bytes)
    : Type 0 where
  pub file_uuid : Bytes
  pub records : Bytes
  pub layout : bytes ≡ header_bytes file_uuid (length chunks) (sum (map length chunks)) ++ records
  pub uuid_len : length file_uuid ≡ 16
  pub few_chunks : length chunks < 2 ^ 32
  pub size_fits : sum (map length chunks) < 2 ^ 64
  pub holds : Records P vault_key file_uuid 0 chunks records
