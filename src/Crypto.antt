-- ===== src/Crypto.antt =====
-- src/crypto.rs. The primitives (BLAKE3, ChaCha20-Poly1305, X25519, the operating system's random
-- numbers) are a parameter, the record `Primitives`; `IsAead` states what the code relies on.
pub mod Aead
pub mod Binding
use vitruvius.Base.{
  ℕ, nat_eq, ◌==◌, ◌+◌, ◌<◌, ◌≡◌, Bool, true, false, Option, none, some, List, [], ◌∷◌, ◌++◌, Bytes,
  Text, length, take, drop, ltb, u32_bytes, if◌then◌else◌, Result, ok, err, ◌>>=◌, or_fail,
  data_too_short, rng_failed, encryption_failed, decryption_failed, bad_key_length,
}

-- What the crates `blake3`, `chacha20poly1305` and `x25519_dalek` give.
pub record Primitives : Type 0 where
  -- `blake3::hash`
  pub hash : Bytes → Bytes
  -- `blake3::Hasher::new_derive_key(context)`, updated with the bytes: 32 bytes
  pub derive_key : Text → Bytes → Bytes
  -- `cipher.encrypt(nonce, Payload { msg, aad })`, and `decrypt`
  pub seal : Bytes → Bytes → Bytes → Bytes → Option Bytes
  pub unseal : Bytes → Bytes → Bytes → Bytes → Option Bytes
  -- `PublicKey::from(&secret)` and `secret.diffie_hellman(&public)`
  pub public_key : Bytes → Bytes
  pub diffie_hellman : Bytes → Bytes → Bytes

-- What the documentation of an AEAD promises: decryption undoes encryption under the same key,
-- nonce and associated data, accepts nothing else, and the tag takes 16 bytes.
pub record IsAead (P : Primitives) : Type 0 where
  pub unseal-seal :
      (key nonce aad msg c : Bytes)
      → P.seal key nonce aad msg ≡ some c
      → P.unseal key nonce aad c ≡ some msg
  pub seal-unseal :
      (key nonce aad c msg : Bytes)
      → P.unseal key nonce aad c ≡ some msg
      → P.seal key nonce aad msg ≡ some c
  pub length-seal :
      (key nonce aad msg c : Bytes) → P.seal key nonce aad msg ≡ some c → length c ≡ length msg + 16

-- One draw of the random number generator: `none` is its failure.
abbrev pub Draw : Type 0
Draw = Option Bytes

module _ (P : Primitives) where
  open P use {hash, derive_key, seal, unseal}

  unfoldable pub encrypt_with_aad : Draw → Bytes → Bytes → Bytes → Result Bytes
  encrypt_with_aad rng key plaintext aad = do
    nonce_bytes ← or_fail rng rng_failed
    ciphertext ← or_fail (seal key nonce_bytes aad plaintext) encryption_failed
    ok (nonce_bytes ++ ciphertext)

  unfoldable pub decrypt_with_aad : Bytes → Bytes → Bytes → Result Bytes
  decrypt_with_aad key input aad =
      if ltb (length input) (12 + 16)
      then err (data_too_short (length input))
      else or_fail (unseal key (take 12 input) aad (drop 12 input)) decryption_failed

  unfoldable pub encrypt : Draw → Bytes → Bytes → Result Bytes
  encrypt rng key plaintext = encrypt_with_aad rng key plaintext []

  unfoldable pub decrypt : Bytes → Bytes → Result Bytes
  decrypt key input = decrypt_with_aad key input []

  -- "vitruvius v0.2 file-id"
  unfoldable pub blind_filename : Bytes → Text → Bytes
  blind_filename transport_key rel_path =
      take 16 (derive_key file_id_context (transport_key ++ (0 ∷ rel_path)))
    where
      file_id_context : Text
      file_id_context =
          118 ∷ 105 ∷ 116 ∷ 114 ∷ 117 ∷ 118 ∷ 105 ∷ 117 ∷ 115 ∷ 32 ∷ 118 ∷ 48 ∷ 46 ∷ 50 ∷ 32 ∷ 102
          ∷ 105 ∷ 108 ∷ 101 ∷ 45 ∷ 105 ∷ 100 ∷ []

  -- "vitruvius v0.2 chunk-hash"
  unfoldable pub blind_chunk_hash : Bytes → Bytes → Bytes
  blind_chunk_hash transport_key plaintext_hash =
      derive_key chunk_hash_context (transport_key ++ (0 ∷ plaintext_hash))
    where
      chunk_hash_context : Text
      chunk_hash_context =
          118 ∷ 105 ∷ 116 ∷ 114 ∷ 117 ∷ 118 ∷ 105 ∷ 117 ∷ 115 ∷ 32 ∷ 118 ∷ 48 ∷ 46 ∷ 50 ∷ 32 ∷ 99
          ∷ 104 ∷ 117 ∷ 110 ∷ 107 ∷ 45 ∷ 104 ∷ 97 ∷ 115 ∷ 104 ∷ []

-- b"vitv02-chunk\0\0\0\0"
abbrev pub chunk_tag : Bytes
chunk_tag = 118 ∷ 105 ∷ 116 ∷ 118 ∷ 48 ∷ 50 ∷ 45 ∷ 99 ∷ 104 ∷ 117 ∷ 110 ∷ 107 ∷ 0 ∷ 0 ∷ 0 ∷ 0 ∷ []

unfoldable pub chunk_aad : Bytes → ℕ → Bytes
chunk_aad file_id chunk_index = chunk_tag ++ (file_id ++ u32_bytes chunk_index)

-- `load_key` on the bytes that were read.
unfoldable pub key_of_bytes : Bytes → Result Bytes
key_of_bytes bytes = if length bytes == 32 then ok bytes else err (bad_key_length (length bytes))
