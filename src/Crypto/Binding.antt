-- ===== src/Crypto/Binding.antt =====
-- src/crypto.rs and src/storage.rs: the associated data of chunks, `chunk_aad` and
-- `vault_chunk_aad`.
use vitruvius.Base.{
  ℕ, ◌<◌, ◌^◌, ◌≡◌, ◌≢◌, ap, sym, ◌∙◌, Bytes, ◌++◌, length, take, drop, take-append, drop-append,
  u32_bytes, from_le_bytes, from_le_bytes-u32, arith,
}
use vitruvius.Crypto.{chunk_aad}
use vitruvius.Vault.{vault_chunk_aad}

-- Two texts that agree after parts of one length agree in both.
append-injective :
    (n : ℕ) (a b c d : Bytes) → length a ≡ n → length b ≡ n → a ++ c ≡ b ++ d → (a ≡ b) × (c ≡ d)
append-injective n a b c d la lb e = (
  sym (take-append n a c la) ∙ ap (take n) e ∙ take-append n b d lb,
  sym (drop-append n a c la) ∙ ap (drop n) e ∙ drop-append n b d lb,
)

u32_bytes-injective : (i j : ℕ) → i < 2 ^ 32 → j < 2 ^ 32 → u32_bytes i ≡ u32_bytes j → i ≡ j
u32_bytes-injective i j hi hj e =
    sym (from_le_bytes-u32 i hi) ∙ ap from_le_bytes e ∙ from_le_bytes-u32 j hj

module _ (f g : Bytes) (i j : ℕ) (f_len : length f ≡ 16) (g_len : length g ≡ 16)
    (i_fits : i < 2 ^ 32) (j_fits : j < 2 ^ 32) where
  position_of : f ++ u32_bytes i ≡ g ++ u32_bytes j → (f ≡ g) × (i ≡ j)
  position_of e =
      let parts = append-injective 16 f g (u32_bytes i) (u32_bytes j) f_len g_len e in
      (parts.0, u32_bytes-injective i j i_fits j_fits parts.1)

  -- For file ids of 16 bytes and positions below 2^32: two chunks with one associated data on the
  -- wire are the same position of the same file.
  pub chunk_aad-injective : chunk_aad f i ≡ chunk_aad g j → (f ≡ g) × (i ≡ j)
  unfolding chunk_aad
  chunk_aad-injective e = position_of (ap (drop 16) e)

  -- For file ids of 16 bytes and positions below 2^32: two chunks with one associated data at rest
  -- are the same position of the same vault file.
  pub vault_chunk_aad-injective : vault_chunk_aad f i ≡ vault_chunk_aad g j → (f ≡ g) × (i ≡ j)
  unfolding vault_chunk_aad
  vault_chunk_aad-injective e = position_of (ap (drop 16) e)

-- No associated data serves both on the wire and at rest.
pub chunk_aad-ne-vault_chunk_aad : (f g : Bytes) (i j : ℕ) → chunk_aad f i ≢ vault_chunk_aad g j
unfolding chunk_aad vault_chunk_aad
chunk_aad-ne-vault_chunk_aad f g i j e = ground (arith, ap (take 8) e)
