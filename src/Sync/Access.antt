-- ===== src/Sync/Access.antt =====
-- src/sync/handler.rs: what a peer can read of the disk through `on_request`.
use vitruvius.Base.{
  ℕ, ◌≡◌, refl, ◌⊎◌, inl, inr, Bool, false, Option, some, none, [], ◌∷◌, ◌++◌, Bytes, Text, lookup,
  nat_eq, list_eq, ok, Result-cases, Bool-cases,
}
use vitruvius.Paths.{FilePath, unsafe_rel_path}
use vitruvius.Network.{SyncMessage}
use vitruvius.State.{key_for_peer}
use vitruvius.Storage.{read_local_chunk_plain, get_encrypted_chunk}
use vitruvius.Crypto.{Primitives}
use vitruvius.Fs.{Fs}
use vitruvius.Sync.{Env, Node}
use vitruvius.Sync.Upload.{
  is_chunk, drawn, path_of_id, encrypted_chunk_reply, on_encrypted_chunk_request,
}
use vitruvius.Sync.Replies.{log_if-replies}

-- Nothing is read from the disk through a name that leads outside the folder.
pub read_local_chunk_plain-safe :
    (P : Primitives) (fs : Fs) (root : FilePath) (rel : Text) (i : ℕ) (vault_mode : Bool)
    (vault_key : Option Bytes) (plaintext : Bytes)
    → read_local_chunk_plain P fs root rel i vault_mode vault_key ≡ ok plaintext
    → unsafe_rel_path rel ≡ false
unfolding read_local_chunk_plain
read_local_chunk_plain-safe P fs root rel i vault_mode vault_key plaintext e =
    elim (Bool-cases (unsafe_rel_path rel)) [
      | inl bad ↦ absurd (cc (rw (bad, read_local_chunk_plain) at e))
      | inr good ↦ good
    ]

module _ (env : Env) (peer : Text) (file_id : Bytes) (chunk_index : ℕ) where
  -- The peer has a key in use, was told of the file under this id, and gets bytes of a file in the
  -- folder.
  abbrev pub Entitled : Node → Type 0
  Entitled n =
      (path : FilePath) × (key : Bytes) × (rel : Text) × (plaintext : Bytes) × (n.state.sync_path
        ≡ some path)
      × (key_for_peer n.state peer ≡ some key)
      × (path_of_id env peer file_id (lookup peer n.state.outbound_file_ids) ≡ some rel)
      × (unsafe_rel_path rel ≡ false)
      × (read_local_chunk_plain env.primitives n.fs path rel chunk_index n.state.vault_mode
            n.state.vault_key
          ≡ ok plaintext)

  encrypted_chunk_reply-Entitled :
      (path : Option FilePath) (key : Option Bytes) (rel : Option Text) (n : Node)
      → n.state.sync_path ≡ path
      → key_for_peer n.state peer ≡ key
      → path_of_id env peer file_id (lookup peer n.state.outbound_file_ids) ≡ rel
      → (is_chunk (encrypted_chunk_reply env peer path key rel file_id chunk_index n) ≡ false)
        ⊎ Entitled n
  unfolding encrypted_chunk_reply get_encrypted_chunk
  encrypted_chunk_reply-Entitled (some path) (some key) (some rel) n at_path has_key told =
      elim (Result-cases (
        read_local_chunk_plain env.primitives n.fs path rel chunk_index n.state.vault_mode
          n.state.vault_key)) [
            | inl (plaintext, readable) ↦ inr (
              path,
              key,
              rel,
              plaintext,
              at_path,
              has_key,
              told,
              read_local_chunk_plain-safe env.primitives n.fs path rel chunk_index
                  n.state.vault_mode n.state.vault_key plaintext readable,
              readable,
            )
            | inr (e, fails) ↦ inl (rw (fails, encrypted_chunk_reply) refl)
          ]
  encrypted_chunk_reply-Entitled (some path) (some key) none n at_path has_key told = inl refl
  encrypted_chunk_reply-Entitled (some path) none rel n at_path has_key told = inl refl
  encrypted_chunk_reply-Entitled none key rel n at_path has_key told = inl refl

  -- The one reply to a request for an encrypted chunk is no chunk, unless the peer has a key in
  -- use, was told of the file under the id that it asks for, the file's name does not lead outside
  -- the folder, and the chunk can be read.
  pub on_encrypted_chunk_request-Entitled :
      (n : Node)
      → (msg : SyncMessage) × ((on_encrypted_chunk_request env peer file_id chunk_index n).replies
          ≡ n.replies ++ msg ∷ [])
        × ((is_chunk msg ≡ false) ⊎ Entitled n)
  unfolding on_encrypted_chunk_request
  on_encrypted_chunk_request-Entitled n =
      let rel = path_of_id env peer file_id (lookup peer n.state.outbound_file_ids) in
      let key = key_for_peer n.state peer in
      let resp = encrypted_chunk_reply env peer n.state.sync_path key rel file_id chunk_index n in
      (
        resp,
        log_if-replies env peer (is_chunk resp) resp (drawn env peer n),
        encrypted_chunk_reply-Entitled n.state.sync_path key rel n refl refl refl,
      )
