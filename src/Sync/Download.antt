-- ===== src/Sync/Download.antt =====
-- src/sync/handler.rs: `on_response`, one function per kind of response.
use vitruvius.Base.{
  ℕ, suc, ◌+◌, Bool, false, not, ◌||◌, Option, none, some, Bytes, Text, length, get_elem?, ltb,
  Dict, lookup, insert, remove, add, nat_eq, list_eq, if◌then◌else◌, Result, ok, err, as_u32, true,
  not, is_empty,
}
use vitruvius.Paths.{FilePath, rel_to_abs}
use vitruvius.Crypto.{decrypt, decrypt_with_aad, chunk_aad}
use vitruvius.Network.{
  SyncMessage, manifest, chunk_request, chunk_response, encrypted_manifest, encrypted_chunk_request,
  encrypted_chunk_response, empty, ack, error, key_exchange_accept, transfer_complete,
}
use vitruvius.Storage.{
  FileMetadata, FileTransferState, total_of, verify_chunk, verify_chunk_blinded,
}
use vitruvius.Storage.Reassembly.{reassemble_modal}
use vitruvius.State.{InboundFileInfo, key_for_peer}
use vitruvius.Sync.{
  PeerDownload, Env, Node, GuiEvent, chunk_received, remote_empty, peer_error, ok_level, info, warn,
  error_level, forget_writing, refresh_listing, ◌▸◌, send_request, emit, log, delay, with_state,
  Level,
}
use vitruvius.Sync.Scheduler.{start_queued_files}
use vitruvius.Sync.Upload.{load_stored_key}
use vitruvius.Sync.Offers.{put_download, on_accepted, on_encrypted_manifest, on_manifest}

module _ (env : Env) (peer : Text) where
  -- `ts.metadata.as_ref().and_then(|m| m.chunk_hashes.get(chunk_index))`
  abbrev pub expected_hash : Option FileMetadata → ℕ → Option Bytes
  expected_hash none i = none
  expected_hash (some m) i = get_elem? m.chunk_hashes i

  abbrev pub name_of : FileTransferState → Text → Text
  name_of ts file_name = elim ts.metadata [ none ↦ file_name | some m ↦ m.file_name ]

  abbrev pub put_transfer : Text → FileTransferState → PeerDownload → PeerDownload
  put_transfer file_name ts dl = record dl { active = insert file_name ts dl.active }

  -- What is still to be downloaded, or that all is complete.
  abbrev summary_level : PeerDownload → Level
  summary_level dl = if not (is_empty dl.queue) || not (is_empty dl.active) then info else ok_level

  -- The file is on disk: the transfer ends and the next files start. The legacy protocol logs what
  -- is left.
  unfoldable pub finish_transfer : Bool → Text → FilePath → FilePath → PeerDownload → Node → Node
  finish_transfer legacy file_name sync_path written_path dl n =
      let n1 =
        n
        ▸ emit (GuiEvent.transfer_complete peer file_name)
        ▸ log ok_level
        ▸ delay (refresh_listing sync_path)
        ▸ send_request peer (transfer_complete file_name) in
      let r =
        start_queued_files env peer sync_path (record dl { active = remove file_name dl.active })
          n1 in
      let done = r.1 ▸ put_download env peer r.0 ▸ delay (forget_writing written_path) in
      if legacy then log (summary_level r.0) done else done

  -- Every chunk is there: the file is written, in the form that the vault mode says.
  unfoldable pub write_transfer :
      Bool → Text → FilePath → FileTransferState → PeerDownload → Node → Node
  write_transfer legacy file_name sync_path ts dl n =
      let dest_path = rel_to_abs ts.sync_dir (name_of ts file_name) in
      let n1 = with_state (λ st. record st { writing_files = add dest_path st.writing_files }) n in
      let r =
        reassemble_modal ts env.primitives (env.rng n.draws 16) (λ k. env.rng (suc n.draws + k) 12)
          n.now n.state.vault_mode n.state.vault_key n.fs in
      let n2 = record n1 { fs = r.1; draws = suc n.draws + total_of ts.metadata } in
      elim r.0 [
        | ok written_path ↦ finish_transfer legacy file_name sync_path written_path dl n2
        | err e ↦ n2 ▸ put_download env peer dl ▸ log error_level
      ]

  -- A verified chunk is stored; one more is asked for; the file is written when all are there.
  unfoldable pub store_chunk :
      (ℕ → SyncMessage)
      → Bool
      → Text
      → ℕ
      → Bytes
      → FilePath
      → FileTransferState
      → PeerDownload
      → Node
      → Node
  store_chunk request legacy file_name chunk_index plaintext sync_path ts dl n =
      let total = total_of ts.metadata in
      let more = ltb ts.next_request total in
      let ts1 = record ts {
        received_chunks = insert chunk_index plaintext ts.received_chunks;
        last_activity = n.now;
        next_request = if more then ts.next_request + 1 else ts.next_request;
      } in
      let n1 = (if more then send_request peer (request ts.next_request) n else n) ▸ log info in
      let dl1 = put_transfer file_name ts1 dl in
      if ltb (length ts1.received_chunks) total
      then put_download env peer dl1 n1
      else write_transfer legacy file_name sync_path ts1 dl1 n1

  -- The hash is checked against the manifest's, and a mismatch is asked for again.
  unfoldable pub check_chunk :
      (Bytes → Bytes → Bool)
      → (ℕ → SyncMessage)
      → Bool
      → Text
      → ℕ
      → Bytes
      → FilePath
      → PeerDownload
      → FileTransferState
      → Node
      → Node
  check_chunk verify request legacy file_name chunk_index plaintext sync_path dl ts n =
      let verified : Bool = elim (expected_hash ts.metadata chunk_index) [
        | none ↦ false
        | some h ↦ verify plaintext h
      ] in
      let n1 = emit (chunk_received peer file_name chunk_index (total_of ts.metadata) verified) n in
      if verified
      then store_chunk request legacy file_name chunk_index plaintext sync_path ts dl n1
      else n1 ▸ log error_level ▸ send_request peer (request chunk_index)

  -- The transfer that a chunk belongs to; a chunk of no transfer is dropped.
  unfoldable pub receive_chunk :
      (Bytes → Bytes → Bool) → (ℕ → SyncMessage) → Bool → Text → ℕ → Bytes → FilePath → Node → Node
  receive_chunk verify request legacy file_name chunk_index plaintext sync_path n =
      elim (lookup peer n.transfers) [
        | none ↦ n
        | some dl ↦ elim (lookup file_name dl.active) [
          | none ↦ n
          | some ts ↦
              check_chunk verify request legacy file_name chunk_index plaintext sync_path dl ts n
        ]
      ]

  abbrev pub decrypt_if_keyed : Option Bytes → Bytes → Result Bytes
  decrypt_if_keyed none bytes = ok bytes
  decrypt_if_keyed (some key) bytes = decrypt env.primitives key bytes

  unfoldable pub on_chunk_response : Text → ℕ → Bytes → Node → Node
  on_chunk_response file_name chunk_index bytes n = elim n.state.sync_path [
    | none ↦ n
    | some sync_path ↦ elim (decrypt_if_keyed (key_for_peer n.state peer) bytes) [
      | err e ↦ n ▸ log error_level ▸ send_request peer (chunk_request file_name chunk_index)
      | ok plaintext ↦
          receive_chunk (verify_chunk env.primitives) (chunk_request file_name) true file_name
            chunk_index plaintext sync_path n
    ]
  ]

  abbrev pub name_of_id : Bytes → Option (Dict Bytes InboundFileInfo) → Option Text
  name_of_id file_id none = none
  name_of_id file_id (some m) = elim (lookup file_id m) [ none ↦ none | some i ↦ some i.file_name ]

  unfoldable pub open_chunk : Bytes → Bytes → Text → ℕ → Bytes → FilePath → Node → Node
  open_chunk key file_id file_name chunk_index bytes sync_path n =
      elim (decrypt_with_aad env.primitives key bytes (chunk_aad file_id chunk_index)) [
        | err e ↦
            n ▸ log error_level ▸ send_request peer (encrypted_chunk_request file_id chunk_index)
        | ok plaintext ↦
            receive_chunk (λ pt h. verify_chunk_blinded env.primitives pt h key)
              (λ i. encrypted_chunk_request file_id (as_u32 i)) false file_name chunk_index
              plaintext sync_path n
      ]

  unfoldable pub open_in_folder : Option FilePath → Bytes → ℕ → Bytes → Node → Node
  open_in_folder none file_id chunk_index bytes n = n
  open_in_folder (some sync_path) file_id chunk_index bytes n = elim (key_for_peer n.state peer) [
    | none ↦ log error_level n
    | some key ↦ elim (name_of_id file_id (lookup peer n.state.inbound_file_ids)) [
      | none ↦ log warn n
      | some file_name ↦ open_chunk key file_id file_name chunk_index bytes sync_path n
    ]
  ]

  unfoldable pub on_encrypted_chunk_response : Bytes → ℕ → Bytes → Node → Node
  on_encrypted_chunk_response file_id chunk_index bytes n =
      open_in_folder n.state.sync_path file_id chunk_index bytes n

  unfoldable pub dispatch_response : SyncMessage → Node → Node
  dispatch_response ack n = n
  dispatch_response (key_exchange_accept key) n = on_accepted env peer key n
  dispatch_response (encrypted_manifest ciphertext) n = on_encrypted_manifest env peer ciphertext n
  dispatch_response (manifest node_name files) n = on_manifest env peer node_name files n
  dispatch_response empty n = n ▸ emit (remote_empty peer) ▸ log info
  dispatch_response (chunk_response file_name i bytes hash) n =
      on_chunk_response file_name i bytes n
  dispatch_response (encrypted_chunk_response file_id i bytes hash) n =
      on_encrypted_chunk_response file_id i bytes n
  dispatch_response (error e) n = n ▸ emit (peer_error peer e) ▸ log error_level
  dispatch_response _ n = n

  unfoldable pub on_response : SyncMessage → Node → Node
  on_response response n = dispatch_response response (load_stored_key env peer n)
