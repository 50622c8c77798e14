-- ===== src/Storage/Manifest.antt =====
-- src/storage.rs: the plaintext and the encrypted manifest. `Codec` stands for `serde_cbor`.
use vitruvius.Base.{
  Bool, false, Option, List, [], ◌∷◌, Bytes, Text, map, Dict, insert, nat_eq, list_eq, as_u32,
  Result, ok, ◌>>=◌, or_fail, manifest_cbor, manifest_parse, is_empty, if◌then◌else◌,
}
use vitruvius.Paths.{FilePath}
use vitruvius.Fs.{Fs}
use vitruvius.Crypto.{
  Primitives, Draw, encrypt_with_aad, decrypt_with_aad, blind_filename, blind_chunk_hash,
}
use vitruvius.Network.{
  FileEntry, EncryptedFileEntry, EncryptedManifestPayload, SyncMessage, manifest,
  encrypted_manifest, empty,
}
use vitruvius.Storage.{FileMetadata}
use vitruvius.Storage.Listing.{list_folder_modal}

-- `serde_cbor::to_vec` and `from_slice` on manifest payloads.
pub record Codec : Type 0 where
  pub to_vec : EncryptedManifestPayload → Option Bytes
  pub from_slice : Bytes → Option EncryptedManifestPayload

-- MANIFEST_AAD, b"vitv02-manifest"
abbrev pub manifest_aad : Bytes
manifest_aad =
    118 ∷ 105 ∷ 116 ∷ 118 ∷ 48 ∷ 50 ∷ 45 ∷ 109 ∷ 97 ∷ 110 ∷ 105 ∷ 102 ∷ 101 ∷ 115 ∷ 116 ∷ []

abbrev pub entry_of : FileMetadata → FileEntry
entry_of m = record {
  file_name = m.file_name;
  file_size = m.file_size;
  total_chunks = m.total_chunks;
  chunk_hashes = m.chunk_hashes;
}

abbrev manifest_of : Text → List FileMetadata → SyncMessage
manifest_of node_name [] = empty
manifest_of node_name (m ∷ ms) = manifest node_name (map entry_of (m ∷ ms))

unfoldable pub get_manifest : Primitives → Fs → FilePath → Text → SyncMessage
get_manifest P fs sync_root node_name =
    manifest_of node_name (list_folder_modal P fs sync_root false)

-- The file ids that a peer was told of, with the paths they stand for.
abbrev pub IdMap : Type 0
IdMap = Dict Bytes Text

module _ (P : Primitives) (transport_key : Bytes) where
  unfoldable pub encrypted_entry : FileMetadata → EncryptedFileEntry
  encrypted_entry m = record {
    file_name = m.file_name;
    file_id = blind_filename P transport_key m.file_name;
    file_size = m.file_size;
    total_chunks = as_u32 m.total_chunks;
    blinded_chunk_hashes = map (blind_chunk_hash P transport_key) m.chunk_hashes;
  }

  -- The loop of `get_encrypted_manifest` that fills `id_map`.
  unfoldable pub add_ids : List FileMetadata → IdMap → IdMap
  add_ids [] id_map = id_map
  add_ids (m ∷ ms) id_map =
      add_ids ms (insert (blind_filename P transport_key m.file_name) m.file_name id_map)

  unfoldable pub payload_of : Text → List FileMetadata → EncryptedManifestPayload
  payload_of node_name files = record { node_name = node_name; files = map encrypted_entry files }

  unfoldable pub seal_manifest :
      Codec → Draw → Text → List FileMetadata → Result (SyncMessage × IdMap)
  seal_manifest codec rng node_name files = do
    cbor ← or_fail (codec.to_vec (payload_of node_name files)) manifest_cbor
    ciphertext ← encrypt_with_aad P rng transport_key cbor manifest_aad
    ok (encrypted_manifest ciphertext, add_ids files [])

  unfoldable pub get_encrypted_manifest :
      Codec → Draw → Fs → FilePath → Text → Bool → Result (SyncMessage × IdMap)
  get_encrypted_manifest codec rng fs sync_root node_name vault_mode =
      let files = list_folder_modal P fs sync_root vault_mode in
      let sent = seal_manifest codec rng node_name files in
      if is_empty files then ok (empty, []) else sent

  unfoldable pub decrypt_manifest : Codec → Bytes → Result EncryptedManifestPayload
  decrypt_manifest codec ciphertext = do
    cbor ← decrypt_with_aad P transport_key ciphertext manifest_aad
    or_fail (codec.from_slice cbor) manifest_parse
