-- ===== src/Storage/Announcing.antt =====
-- src/storage.rs: from the sender's manifest to the receiver's.
use vitruvius.Base.{
  All, subst, sym, ◌≡◌, refl, Bytes, Text, none, some, Option, Bool, List, [], ok, nat_eq, list_eq,
  >>=-eq-ok, arith, is_empty, Bool-cases, inl, inr, or_fail,
}
use vitruvius.Paths.{FilePath}
use vitruvius.Fs.{Fs}
use vitruvius.Crypto.{Primitives, IsAead, Draw, encrypt_with_aad}
use vitruvius.Crypto.Aead.{Fills, encrypt_with_aad-Sealed, decrypt_with_aad-Sealed}
use vitruvius.Network.{encrypted_manifest, EncryptedManifestPayload}
use vitruvius.Storage.{FileMetadata}
use vitruvius.Storage.Listing.{list_folder_modal}
use vitruvius.Storage.Ids.{
  AnnouncesAll, AnnouncesAll-encrypted_entry, Resolves, StandsFor, names_of, add_ids-Resolves,
}
use vitruvius.Storage.Manifest.{
  Codec, IdMap, manifest_aad, payload_of, add_ids, seal_manifest, get_encrypted_manifest,
  decrypt_manifest,
}

-- What `serde_cbor` promises: what was written is read back.
abbrev pub RoundTrips : Codec → Type 0
RoundTrips codec =
    (p : EncryptedManifestPayload) (bytes : Bytes)
    → codec.to_vec p ≡ some bytes
    → codec.from_slice bytes ≡ some p

or_fail-ok {ℓ} : {A : Type ℓ} (o : Option A) (e : _) (a : A) → or_fail o e ≡ ok a → o ≡ some a
or_fail-ok none e a h = cc
or_fail-ok (some b) e a h = cc

module _ (P : Primitives) (sound : IsAead P) (transport_key : Bytes) (codec : Codec)
    (codec_sound : RoundTrips codec) (rng : Draw) (fills : Fills 12 rng) where
  seal_manifest-opens :
      (node_name : Text) (files : List FileMetadata) (ciphertext : Bytes) (ids : IdMap)
      → seal_manifest P transport_key codec rng node_name files
        ≡ ok (encrypted_manifest ciphertext, ids)
      → (decrypt_manifest P transport_key codec ciphertext
          ≡ ok (payload_of P transport_key node_name files))
        × (ids ≡ add_ids P transport_key files [])
  unfolding seal_manifest decrypt_manifest
  seal_manifest-opens node_name files ciphertext ids e =
      let payload = payload_of P transport_key node_name files in
      let (cbor, written, rest) = >>=-eq-ok (or_fail (codec.to_vec payload) _) _ e in
      let (sent, made, replied) =
        >>=-eq-ok (encrypt_with_aad P rng transport_key cbor manifest_aad) _ rest in
      let same : sent ≡ ciphertext = ground arith in
      let opens =
        decrypt_with_aad-Sealed P sound transport_key manifest_aad cbor sent
          (encrypt_with_aad-Sealed P sound transport_key manifest_aad cbor sent rng fills made) in
      let parsed = codec_sound payload cbor (or_fail-ok (codec.to_vec payload) _ cbor written) in
      (rw (← same, opens, parsed) refl, ground arith)

  -- Let the cipher be a sound AEAD, the codec read back what it has written and the draw fill the
  -- nonce. An encrypted manifest that the sender makes of a folder that is not empty opens under
  -- the same transport key to a payload with the sender's name and, in the order of the listing, one
  -- entry for each file: its name, its id, its size, its number of chunks as 32 bits and its blinded
  -- hashes. In the map of file ids that the sender keeps, the id of every listed file stands for a
  -- listed name that has this id, and every pair of the map is of a listed name and its id.
  pub decrypt_manifest-get_encrypted_manifest :
      (fs : Fs) (sync_root : FilePath) (node_name : Text) (vault_mode : Bool) (ciphertext : Bytes)
      (ids : IdMap)
      → get_encrypted_manifest P transport_key codec rng fs sync_root node_name vault_mode
        ≡ ok (encrypted_manifest ciphertext, ids)
      → (payload : EncryptedManifestPayload) × (decrypt_manifest P transport_key codec ciphertext
          ≡ ok payload)
        × (payload.node_name ≡ node_name)
        × AnnouncesAll P transport_key (list_folder_modal P fs sync_root vault_mode) payload.files
        × All
            (Resolves P transport_key (names_of (list_folder_modal P fs sync_root vault_mode)) ids)
            (list_folder_modal P fs sync_root vault_mode)
        × All
            (StandsFor P transport_key (names_of (list_folder_modal P fs sync_root vault_mode)))
            ids
  unfolding get_encrypted_manifest payload_of
  decrypt_manifest-get_encrypted_manifest fs sync_root node_name vault_mode ciphertext ids e =
      let files = list_folder_modal P fs sync_root vault_mode in
      elim (Bool-cases (is_empty files)) [
        | inl none_there ↦ absurd (cc (rw (none_there, get_encrypted_manifest) at e))
        | inr some_there ↦
            let (opens, same) =
              seal_manifest-opens node_name files ciphertext ids
                (rw (some_there, get_encrypted_manifest) at e) in
            let (resolves, stand) = add_ids-Resolves P transport_key files in
            (
              payload_of P transport_key node_name files,
              opens,
              refl,
              AnnouncesAll-encrypted_entry P transport_key files,
              subst (λ d. All (Resolves P transport_key (names_of files) d) files) (sym same)
                  resolves,
              subst (λ d. All (StandsFor P transport_key (names_of files)) d) (sym same) stand,
            )
      ]
