-- ===== src/Storage/Serving.antt =====
-- src/storage.rs: from the sender's disk to the receiver's check, `get_encrypted_chunk`.
use vitruvius.Base.{
  ℕ, ◌≡◌, sym, Bytes, Text, true, Option, Bool, ok, ==_refl, list_eq, nat_eq, >>=-eq-ok, arith,
}
use vitruvius.Paths.{FilePath}
use vitruvius.Fs.{Fs}
use vitruvius.Crypto.{
  Primitives, IsAead, Draw, decrypt_with_aad, encrypt_with_aad, blind_chunk_hash, chunk_aad,
}
use vitruvius.Crypto.Aead.{Fills, encrypt_with_aad-Sealed, decrypt_with_aad-Sealed}
use vitruvius.Network.{encrypted_chunk_response}
use vitruvius.Storage.{read_local_chunk_plain, get_encrypted_chunk, verify_chunk_blinded}

-- Let the cipher be a sound AEAD and the draw fill the nonce. Whatever chunk is served under the
-- encrypted protocol, the receiver opens it with the same
-- transport key, file id and position, gets the bytes that the sender read from disk, and these
-- pass the check against their blinded hash.
pub get_encrypted_chunk-opens :
    (P : Primitives) (fs : Fs) (sync_root : FilePath) (rng : Draw) (rel_path : Text)
    (file_id : Bytes) (chunk_index : ℕ) (transport_key : Bytes) (vault_mode : Bool)
    (vault_key : Option Bytes) (sent blinded : Bytes)
    → IsAead P
    → Fills 12 rng
    → get_encrypted_chunk P fs sync_root rng rel_path file_id chunk_index transport_key vault_mode
        vault_key
      ≡ ok (encrypted_chunk_response file_id chunk_index sent blinded)
    → (plaintext : Bytes) × (read_local_chunk_plain P fs sync_root rel_path chunk_index vault_mode
          vault_key
        ≡ ok plaintext)
      × (decrypt_with_aad P transport_key sent (chunk_aad file_id chunk_index) ≡ ok plaintext)
      × (blinded ≡ blind_chunk_hash P transport_key (P.hash plaintext))
      × (verify_chunk_blinded P plaintext blinded transport_key ≡ true)
unfolding get_encrypted_chunk verify_chunk_blinded
get_encrypted_chunk-opens P fs sync_root rng rel_path file_id chunk_index transport_key vault_mode
      vault_key sent blinded sound fills e =
    let aad = chunk_aad file_id chunk_index in
    let (plaintext, readable, rest) =
      >>=-eq-ok (read_local_chunk_plain P fs sync_root rel_path chunk_index vault_mode vault_key) _
        e in
    let (block, made, replied) =
      >>=-eq-ok (encrypt_with_aad P rng transport_key plaintext aad) _ rest in
    let same_block : block ≡ sent = ground arith in
    let same_hash : blind_chunk_hash P transport_key (P.hash plaintext) ≡ blinded = ground arith in
    let opens =
      decrypt_with_aad-Sealed P sound transport_key aad plaintext block
        (encrypt_with_aad-Sealed P sound transport_key aad plaintext block rng fills made) in
    (plaintext, readable, rw (← same_block) opens, sym same_hash, rw same_hash (==_refl blinded))
