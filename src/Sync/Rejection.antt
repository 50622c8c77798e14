-- ===== src/Sync/Rejection.antt =====
-- src/sync/handler.rs: the checks on a chunk that `on_response` receives.
use vitruvius.Base.{
  ℕ, ◌≡◌, refl, Bool, true, false, Option, some, none, [], ◌∷◌, ◌++◌, Bytes, Text, lookup, nat_eq,
  list_eq, ok, inl, inr, Bool-cases, Option-cases, Result-cases, as_u32, ◌⊎◌,
}
use vitruvius.Paths.{FilePath}
use vitruvius.Crypto.{chunk_aad, decrypt_with_aad}
use vitruvius.Network.{SyncMessage, encrypted_chunk_request}
use vitruvius.State.{key_for_peer}
use vitruvius.Storage.{FileTransferState, verify_chunk_blinded}
use vitruvius.Sync.{Env, Node, PeerDownload}
use vitruvius.Sync.Download.{
  expected_hash, check_chunk, receive_chunk, open_chunk, name_of_id, open_in_folder,
  on_encrypted_chunk_response,
}

-- The disk, the running downloads and the application state are as they were.
abbrev pub Untouched : Node → Node → Type 0
Untouched before after =
    (after.fs ≡ before.fs) × (after.transfers ≡ before.transfers) × (after.state ≡ before.state)

module _ (env : Env) (peer : Text) (verify : Bytes → Bytes → Bool) (request : ℕ → SyncMessage)
    (legacy : Bool) (file_name : Text) (chunk_index : ℕ) (plaintext : Bytes)
    (sync_path : FilePath) where
  -- The chunk passes the test against the hash that the manifest gives for its position.
  abbrev pub Verified : FileTransferState → Type 0
  Verified ts =
      (h : Bytes) × (expected_hash env peer ts.metadata chunk_index ≡ some h)
      × (verify plaintext h ≡ true)

  pub Verified-cases :
      (ts : FileTransferState) (h : Option Bytes)
      → expected_hash env peer ts.metadata chunk_index ≡ h
      → Verified ts
        ⊎ ((elim h as (λ _. Bool) [ none ↦ false | some h' ↦ verify plaintext h' ]) ≡ false)
  Verified-cases ts none e = inr refl
  Verified-cases ts (some h) e = elim (Bool-cases (verify plaintext h)) [
    | inl good ↦ inl (h, e, good)
    | inr bad ↦ inr bad
  ]

  -- A chunk that does not pass is asked for again, and nothing of it is kept.
  check_chunk-rejects :
      (dl : PeerDownload) (ts : FileTransferState) (n : Node)
      → Verified ts
        ⊎ (Untouched n (
              check_chunk env peer verify request legacy file_name chunk_index plaintext sync_path
                dl ts n)
            × ((check_chunk env peer verify request legacy file_name chunk_index plaintext sync_path
                  dl ts n).requests
                ≡ n.requests ++ (peer, request chunk_index) ∷ []))
  unfolding check_chunk
  check_chunk-rejects dl ts n =
      elim (Verified-cases ts (expected_hash env peer ts.metadata chunk_index) refl) [
        | inl good ↦ inl good
        | inr bad ↦ inr (rw (bad, check_chunk) ((refl, refl, refl), refl))
      ]

  -- The chunk belongs to a running transfer, and passes.
  abbrev pub Accepted : Node → Type 0
  Accepted n =
      (dl : PeerDownload) × (ts : FileTransferState) × (lookup peer n.transfers ≡ some dl)
      × (lookup file_name dl.active ≡ some ts)
      × Verified ts

  receive_chunk-rejects :
      (n : Node)
      → Accepted n
        ⊎ Untouched n (
            receive_chunk env peer verify request legacy file_name chunk_index plaintext sync_path
              n)
  unfolding receive_chunk
  receive_chunk-rejects n = elim (Option-cases (lookup peer n.transfers)) [
    | inl no_peer ↦ inr (rw (no_peer, receive_chunk) (refl, refl, refl))
    | inr (dl, peer_found) ↦ elim (Option-cases (lookup file_name dl.active)) [
      | inl no_file ↦ inr (rw (peer_found, no_file, receive_chunk) (refl, refl, refl))
      | inr (ts, file_found) ↦ elim (check_chunk-rejects dl ts n) [
        | inl good ↦ inl (dl, ts, peer_found, file_found, good)
        | inr (same, again) ↦ inr (rw (peer_found, file_found, receive_chunk) same)
      ]
    ]
  ]

module _ (env : Env) (peer : Text) (file_id : Bytes) (chunk_index : ℕ) (bytes : Bytes) where
  abbrev blinded_check : Bytes → Bytes → Bytes → Bool
  blinded_check key plaintext h = verify_chunk_blinded env.primitives plaintext h key

  -- What an encrypted chunk has to satisfy to be kept: it opens under the key of the peer, bound to
  -- the file id and the position, and the transfer that the id names expects its blinded hash.
  abbrev pub Genuine : Node → Type 0
  Genuine n =
      (sync_path : FilePath) × (key : Bytes) × (file_name : Text) × (plaintext : Bytes)
      × (key_for_peer n.state peer ≡ some key)
      × (name_of_id env peer file_id (lookup peer n.state.inbound_file_ids) ≡ some file_name)
      × (decrypt_with_aad env.primitives key bytes (chunk_aad file_id chunk_index) ≡ ok plaintext)
      × Accepted env peer (blinded_check key) (λ i. encrypted_chunk_request file_id (as_u32 i))
          false file_name chunk_index plaintext sync_path n

  open_chunk-rejects :
      (key : Bytes) (file_name : Text) (sync_path : FilePath) (n : Node)
      → ((plaintext : Bytes) × (decrypt_with_aad env.primitives key bytes
              (chunk_aad file_id chunk_index)
            ≡ ok plaintext)
          × Accepted env peer
              (blinded_check key)
              (λ i. encrypted_chunk_request file_id (as_u32 i))
              false
              file_name
              chunk_index
              plaintext
              sync_path
              n)
        ⊎ Untouched n (open_chunk env peer key file_id file_name chunk_index bytes sync_path n)
  unfolding open_chunk
  open_chunk-rejects key file_name sync_path n =
      elim (Result-cases
        (decrypt_with_aad env.primitives key bytes (chunk_aad file_id chunk_index))) [
          | inr (e, fails) ↦ inr (rw (fails, open_chunk) (refl, refl, refl))
          | inl (plaintext, opens) ↦
              elim (receive_chunk-rejects env peer (blinded_check key)
                (λ i. encrypted_chunk_request file_id (as_u32 i)) false file_name chunk_index
                plaintext sync_path n) [
                  | inl good ↦ inl (plaintext, opens, good)
                  | inr same ↦ inr (rw (opens, open_chunk) same)
                ]
        ]

  open_in_folder-rejects :
      (path : Option FilePath) (n : Node)
      → Genuine n ⊎ Untouched n (open_in_folder env peer path file_id chunk_index bytes n)
  unfolding open_in_folder
  open_in_folder-rejects none n = inr (refl, refl, refl)
  open_in_folder-rejects (some sync_path) n = elim (Option-cases (key_for_peer n.state peer)) [
    | inl no_key ↦ inr (rw (no_key, open_in_folder) (refl, refl, refl))
    | inr (key, key_found) ↦
        elim (Option-cases (name_of_id env peer file_id (lookup peer n.state.inbound_file_ids))) [
          | inl no_name ↦ inr (rw (key_found, no_name, open_in_folder) (refl, refl, refl))
          | inr (file_name, named) ↦ elim (open_chunk-rejects key file_name sync_path n) [
            | inl (plaintext, opens, good) ↦
                inl (sync_path, key, file_name, plaintext, key_found, named, opens, good)
            | inr same ↦ inr (rw (key_found, named, open_in_folder) same)
          ]
        ]
  ]

  -- An encrypted chunk that a peer sends either opens under the key of that peer, bound to the file
  -- id and the position that the message names, and its blinded hash is the one that the running
  -- transfer of that file expects at that position; or else the disk, the running downloads and the
  -- application state stay as they were.
  pub on_encrypted_chunk_response-rejects :
      (n : Node)
      → Genuine n ⊎ Untouched n (on_encrypted_chunk_response env peer file_id chunk_index bytes n)
  unfolding on_encrypted_chunk_response
  on_encrypted_chunk_response-rejects n = open_in_folder-rejects n.state.sync_path n
