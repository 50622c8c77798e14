-- ===== src/Sync/Offers.antt =====
-- src/sync/handler.rs: `on_response` on accepted exchanges and on manifests, up to the queue.
use vitruvius.Base.{
  Bool, true, false, not, ◌&&◌, ◌||◌, Option, none, some, List, [], ◌∷◌, ◌++◌, Bytes, Text, take,
  is_some, is_empty, Dict, lookup, insert, remove, contains_key, nat_eq, list_eq, ◌==◌,
  if◌then◌else◌, ok, err, map,
}
use vitruvius.Paths.{FilePath}
use vitruvius.Fs.{Fs}
use vitruvius.Network.{FileEntry, EncryptedFileEntry, EncryptedManifestPayload, manifest_request}
use vitruvius.Storage.{PendingFile, pending_of}
use vitruvius.Storage.Manifest.{decrypt_manifest}
use vitruvius.State.{InboundFileInfo, derive_shared_key, key_for_peer}
use vitruvius.Sync.{
  PeerDownload, new_download, Env, Node, vault_status, ok_level, info, warn, error_level, ◌▸◌,
  send_request, emit, log, with_state, set_peer_key,
}
use vitruvius.Sync.Scheduler.{rel_path_exists, vault_path_exists, start_queued_files}

-- "—"
abbrev pub no_fingerprint : Text
no_fingerprint = 226 ∷ 128 ∷ 148 ∷ []

abbrev pub first_key : Dict Text Bytes → Option Bytes
first_key [] = none
first_key ((p, k) ∷ d) = some k

abbrev pub or_key : Option Bytes → Option Bytes → Option Bytes
or_key (some k) d = some k
or_key none d = d

module _ (env : Env) where
  -- `short_fingerprint`, or a dash if there is no key
  abbrev pub fingerprint_of : Option Bytes → Text
  fingerprint_of none = no_fingerprint
  fingerprint_of (some k) = env.hex.encode (take 8 (env.primitives.hash k))

  -- The security posture that the GUI shows.
  unfoldable pub broadcast_status : Node → Node
  broadcast_status n =
      emit
        (vault_status (is_some n.state.encryption_key || not (is_empty n.state.peer_keys))
          n.state.encrypted_protocol
          (fingerprint_of (or_key n.state.encryption_key (first_key n.state.peer_keys))))
        n

module _ (env : Env) (peer : Text) where
  abbrev pub request_if_folder : Option FilePath → Node → Node
  request_if_folder none n = n
  request_if_folder (some path) n = n ▸ send_request peer manifest_request ▸ log info

  abbrev pub complete_exchange : Option Bytes → Bytes → Node → Node
  complete_exchange none their_public n = log warn n
  complete_exchange (some secret) their_public n =
      n
      ▸ set_peer_key env peer (derive_shared_key env.primitives secret their_public)
      ▸ log ok_level
      ▸ broadcast_status env
      ▸ request_if_folder n.state.sync_path

  unfoldable pub on_accepted : Bytes → Node → Node
  on_accepted their_public n =
      n
      ▸ with_state (λ st. record st { pending_exchanges = remove peer st.pending_exchanges })
      ▸ complete_exchange (lookup peer n.state.pending_exchanges) their_public

  -- `transfers.entry(peer).or_insert_with(PeerDownload::new)`
  abbrev pub or_new : Option PeerDownload → PeerDownload
  or_new none = new_download
  or_new (some dl) = dl

  abbrev pub put_download : PeerDownload → Node → Node
  put_download dl n = record n { transfers = insert peer dl n.transfers }

  abbrev pub queued_name : Text → List PendingFile → Bool
  queued_name name [] = false
  queued_name name (pf ∷ q) = pf.file_name == name || queued_name name q

  -- The tests that keep a file of the manifest out of the queue; `none` is a panic.
  unfoldable pub skip_file : Fs → FilePath → Bool → PeerDownload → Text → Option Bool
  skip_file fs sync_path vault_checked dl name =
      let in_progress : Option Bool =
        some (contains_key name dl.active || queued_name name dl.queue) in
      let after_vault : Option Bool = elim (vault_path_exists fs sync_path name) [
        | none ↦ none
        | some true ↦ some true
        | some false ↦ in_progress
      ] in
      if rel_path_exists fs sync_path name
      then some true
      else if vault_checked
      then after_vault
      else in_progress

  abbrev pub enqueue : PendingFile → PeerDownload → PeerDownload
  enqueue pf dl = record dl { queue = dl.queue ++ pf ∷ [] }

  -- The loop over the files of a manifest.
  unfoldable pub queue_files :
      Fs → FilePath → Bool → List PendingFile → PeerDownload → Option PeerDownload
  queue_files fs sync_path vault_checked [] dl = some dl
  queue_files fs sync_path vault_checked (pf ∷ pfs) dl =
      elim (skip_file fs sync_path vault_checked dl pf.file_name) [
        | none ↦ none
        | some true ↦ queue_files fs sync_path vault_checked pfs dl
        | some false ↦ queue_files fs sync_path vault_checked pfs (enqueue pf dl)
      ]

  -- What follows the loop: nothing to do, or the scheduler.
  unfoldable pub run_queue : FilePath → PeerDownload → Node → Node
  run_queue sync_path dl n =
      let r = start_queued_files env peer sync_path dl (log info n) in
      let idle = n ▸ put_download dl ▸ log ok_level in
      if is_empty dl.active && is_empty dl.queue then idle else put_download r.0 r.1

  unfoldable pub accept_files : FilePath → Bool → List PendingFile → Node → Node
  accept_files sync_path vault_checked pfs n =
      elim (queue_files n.fs sync_path vault_checked pfs (or_new (lookup peer n.transfers))) [
        | none ↦ record n { crashed = true }
        | some dl ↦ run_queue sync_path dl n
      ]

  abbrev pub pending_of_encrypted : EncryptedFileEntry → PendingFile
  pending_of_encrypted fe = record {
    file_name = fe.file_name;
    total_chunks = fe.total_chunks;
    file_size = fe.file_size;
    chunk_hashes = fe.blinded_chunk_hashes;
    file_id = some fe.file_id;
  }

  unfoldable pub info_map :
      List EncryptedFileEntry → Dict Bytes InboundFileInfo → Dict Bytes InboundFileInfo
  info_map [] m = m
  info_map (fe ∷ fes) m = info_map fes (
      insert fe.file_id
        (record {
          file_name = fe.file_name;
          file_size = fe.file_size;
          total_chunks = fe.total_chunks;
          blinded_chunk_hashes = fe.blinded_chunk_hashes;
        })
        m)

  abbrev pub remember_name : Text → Node → Node
  remember_name name = with_state (λ st. record st { peer_names = insert peer name st.peer_names })

  unfoldable pub accept_payload : EncryptedManifestPayload → Node → Node
  accept_payload payload n =
      let n1 = remember_name payload.node_name n in
      if is_empty payload.files then log info n1 else elim n1.state.sync_path [
        | none ↦ log warn n1
        | some path ↦
            n1
            ▸ with_state (λ st. record st {
              inbound_file_ids = insert peer (info_map payload.files []) st.inbound_file_ids;
            })
            ▸ accept_files path n1.state.vault_mode (map pending_of_encrypted payload.files)
      ]

  unfoldable pub on_encrypted_manifest : Bytes → Node → Node
  on_encrypted_manifest ciphertext n =
      let n1 = log info n in
      elim (key_for_peer n1.state peer) [
        | none ↦ log warn n1
        | some key ↦ elim (decrypt_manifest env.primitives key env.codec ciphertext) [
          | err e ↦ log error_level n1
          | ok payload ↦ accept_payload payload n1
        ]
      ]

  unfoldable pub on_manifest : Text → List FileEntry → Node → Node
  on_manifest node_name files n =
      let n1 = remember_name node_name n in
      if is_empty files then log info n1 else elim n1.state.sync_path [
        | none ↦ log warn n1
        | some path ↦ accept_files path false (map pending_of files) n1
      ]
