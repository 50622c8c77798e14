-- ===== src/Sync/Upload.antt =====
-- src/sync/handler.rs: `on_request`, one function per kind of request.
use vitruvius.Base.{
  ℕ, suc, Bool, true, false, not, ◌&&◌, ◌||◌, Option, none, some, List, [], ◌∷◌, Bytes, Text,
  is_some, lookup, insert, remove, contains_key, contains, add, keep_if, nat_eq, list_eq, ◌==◌,
  if◌then◌else◌, Result, ok, err, missing_mapping, no_sync_folder, unexpected_request,
}
use vitruvius.Paths.{FilePath, rel_to_abs}
use vitruvius.Fs.{remove_file}
use vitruvius.Network.{
  SyncMessage, folder_announcement, manifest_request, chunk_request, encrypted_chunk_request, empty,
  ack, error, file_changed, file_deleted, key_exchange_propose, key_exchange_accept,
  transfer_complete,
}
use vitruvius.Storage.{get_chunk, get_encrypted_chunk}
use vitruvius.Storage.Manifest.{IdMap, get_manifest, get_encrypted_manifest}
use vitruvius.State.{
  AppState, get_peer_key, has_peer_key, derive_shared_key, key_for_peer, mirror_shared_key,
  peer_display_name,
}
use vitruvius.Sync.{
  Env, Node, peer_approval_required, ok_level, info, warn, forget_deleting, ◌▸◌, send_request,
  send_response, emit, log, delay, with_state, set_peer_key,
}

-- The reply to a fallible request, `unwrap_or_else(|e| SyncMessage::Error { .. })`.
abbrev pub or_error : Result SyncMessage → SyncMessage
or_error (ok msg) = msg
or_error (err e) = error e

-- `matches!(resp, ..ChunkResponse { .. })`
abbrev pub is_chunk : SyncMessage → Bool
is_chunk (SyncMessage.chunk_response f i d h) = true
is_chunk (SyncMessage.encrypted_chunk_response f i d h) = true
is_chunk _ = false

abbrev pub log_if : Bool → Node → Node
log_if true n = log info n
log_if false n = n

module _ (env : Env) (peer : Text) where
  abbrev adopt_key : Option Bytes → AppState → AppState
  adopt_key none st = st
  adopt_key (some key) st = record st { peer_keys = insert peer key st.peer_keys }

  -- The stored key is put to use before any message is handled.
  unfoldable pub load_stored_key : Node → Node
  load_stored_key n =
      if contains_key peer n.state.peer_keys
      then n
      else record n { state = adopt_key (get_peer_key env.hex n.store peer) n.state }

  unfoldable pub draw : ℕ → Node → Option Bytes
  draw size n = env.rng n.draws size

  abbrev pub drawn : Node → Node
  drawn n = record n { draws = suc n.draws }

  -- `tofu::generate_keypair()`
  unfoldable pub our_secret : Node → Bytes
  our_secret n = env.secret n.draws

  unfoldable pub request_manifests : List Text → Node → Node
  request_manifests [] n = n
  request_manifests (other ∷ others) n =
      request_manifests others (n ▸ send_request other manifest_request ▸ log info)

  -- Our own folder is announced once per connection.
  unfoldable pub announce_back : Node → Node
  announce_back n =
      if is_some n.state.sync_path && not (contains n.state.announced_to peer)
      then n
        ▸ with_state (λ st. record st { announced_to = add peer st.announced_to })
        ▸ send_request peer (folder_announcement n.state.node_name)
      else n

  abbrev pub other_keyed_peers : AppState → List Text
  other_keyed_peers st =
      keep_if (λ p. not (p == peer) && contains_key p st.peer_keys) st.connected_peers

  unfoldable pub on_folder_announcement : Text → Node → Node
  on_folder_announcement peer_name n =
      let n1 =
        n
        ▸ with_state (λ st. record st { peer_names = insert peer peer_name st.peer_names })
        ▸ log info
        ▸ send_response ack
        ▸ send_request peer manifest_request
        ▸ announce_back in
      request_manifests (other_keyed_peers n1.state) n1

  -- The operator's key is mirrored only if it came from the command line.
  unfoldable pub mirror_cli_key : Node → Node
  mirror_cli_key n =
      if not (contains_key peer n.state.peer_keys)
        && (is_some n.state.encryption_key && n.state.shared_key_from_cli)
      then with_state (λ st. mirror_shared_key st peer) n
      else n

  abbrev pub manifest_reply : Result (SyncMessage × IdMap) → Node → Node
  manifest_reply (err e) n = send_response (error e) n
  manifest_reply (ok (msg, ids)) n =
      n
      ▸ with_state (λ st. record st { outbound_file_ids = insert peer ids st.outbound_file_ids })
      ▸ send_response msg

  -- With a key for the peer, and the encrypted protocol on, the manifest is sealed.
  unfoldable pub serve_manifest : FilePath → Option Bytes → Bool → Node → Node
  serve_manifest path (some key) true n =
      manifest_reply
        (get_encrypted_manifest env.primitives key env.codec (draw 12 n) n.fs path n.state.node_name
          n.state.vault_mode)
        (n ▸ log info ▸ drawn)
  serve_manifest path _ _ n =
      n ▸ log info ▸ send_response (get_manifest env.primitives n.fs path n.state.node_name)

  -- Without a folder there is nothing to list.
  abbrev pub serve_folder : Option FilePath → Node → Node
  serve_folder none n = n ▸ log info ▸ send_response empty
  serve_folder (some path) n =
      serve_manifest path (key_for_peer n.state peer) n.state.encrypted_protocol n

  unfoldable pub on_manifest_request : Node → Node
  on_manifest_request n = let n' = mirror_cli_key n in serve_folder n'.state.sync_path n'

  abbrev pub path_of_id : Bytes → Option IdMap → Option Text
  path_of_id file_id none = none
  path_of_id file_id (some ids) = lookup file_id ids

  unfoldable pub encrypted_chunk_reply :
      Option FilePath → Option Bytes → Option Text → Bytes → ℕ → Node → SyncMessage
  encrypted_chunk_reply (some path) (some key) (some rel) file_id chunk_index n = or_error (
      get_encrypted_chunk env.primitives n.fs path (draw 12 n) rel file_id chunk_index key
        n.state.vault_mode n.state.vault_key)
  encrypted_chunk_reply _ _ _ file_id chunk_index n = error missing_mapping

  unfoldable pub on_encrypted_chunk_request : Bytes → ℕ → Node → Node
  on_encrypted_chunk_request file_id chunk_index n =
      let rel = path_of_id file_id (lookup peer n.state.outbound_file_ids) in
      let resp =
        encrypted_chunk_reply n.state.sync_path (key_for_peer n.state peer) rel file_id chunk_index
          n in
      n ▸ drawn ▸ log_if (is_chunk resp) ▸ send_response resp

  -- What a legacy chunk request is answered with.
  abbrev pub chunk_sent : FilePath → Text → ℕ → Node → SyncMessage
  chunk_sent path file_name chunk_index n = or_error (
      get_chunk env.primitives n.fs path (draw 12 n) file_name chunk_index
        (key_for_peer n.state peer))

  abbrev pub send_chunk : Option FilePath → Text → ℕ → Node → Node
  send_chunk none file_name chunk_index n = send_response (error no_sync_folder) n
  send_chunk (some path) file_name chunk_index n =
      n
      ▸ drawn
      ▸ log_if (is_chunk (chunk_sent path file_name chunk_index n))
      ▸ send_response (chunk_sent path file_name chunk_index n)

  unfoldable pub on_chunk_request : Text → ℕ → Node → Node
  on_chunk_request file_name chunk_index n = send_chunk n.state.sync_path file_name chunk_index n

  -- The local copy is deleted, whether or not there is one, and the manifest is asked for again.
  unfoldable pub on_file_changed : Text → Node → Node
  on_file_changed file_name n =
      let n' = send_response ack n in
      elim n.state.sync_path [
        | none ↦ n'
        | some path ↦
            let full_path = rel_to_abs path file_name in
            let removed =
              with_state (λ st. record st { deleting_files = add full_path st.deleting_files })
                n' in
            record removed { fs = (remove_file full_path removed.fs).1 }
            ▸ delay (forget_deleting full_path)
            ▸ log info
            ▸ send_request peer manifest_request
      ]

  abbrev pub log_removal : Result (Unit {0}) → Node → Node
  log_removal (ok u) n = log ok_level n
  log_removal (err e) n = log warn n

  unfoldable pub on_file_deleted : Text → Node → Node
  on_file_deleted file_name n =
      let n' = send_response ack n in
      elim n.state.sync_path [
        | none ↦ n'
        | some path ↦
            let r = remove_file (rel_to_abs path file_name) n'.fs in
            log_removal r.0 (record n' { fs = r.1 })
      ]

  -- A peer that is trusted already is keyed anew; any other one waits for the user.
  unfoldable pub on_key_exchange_propose : Bytes → Node → Node
  on_key_exchange_propose their_public n =
      let secret = our_secret n in
      let rekeyed =
        n
        ▸ drawn
        ▸ set_peer_key env peer (derive_shared_key env.primitives secret their_public)
        ▸ send_response (key_exchange_accept (env.primitives.public_key secret))
        ▸ log ok_level in
      let waiting =
        n
        ▸ with_state
            (λ st. record st { pending_approvals = insert peer their_public st.pending_approvals })
        ▸ log warn
        ▸ emit (peer_approval_required peer (peer_display_name n.state peer))
        ▸ send_response ack in
      if contains_key peer n.state.peer_keys || has_peer_key env.hex n.store peer
      then rekeyed
      else waiting

  abbrev pub finish_exchange : Option Bytes → Bytes → Node → Node
  finish_exchange none their_public n = log warn n
  finish_exchange (some secret) their_public n =
      n
      ▸ set_peer_key env peer (derive_shared_key env.primitives secret their_public)
      ▸ log ok_level

  unfoldable pub on_key_exchange_accept : Bytes → Node → Node
  on_key_exchange_accept their_public n =
      n
      ▸ with_state (λ st. record st { pending_exchanges = remove peer st.pending_exchanges })
      ▸ finish_exchange (lookup peer n.state.pending_exchanges) their_public
      ▸ send_response ack

  unfoldable pub dispatch_request : SyncMessage → Node → Node
  dispatch_request (folder_announcement peer_name) n = on_folder_announcement peer_name n
  dispatch_request manifest_request n = on_manifest_request n
  dispatch_request (encrypted_chunk_request file_id i) n = on_encrypted_chunk_request file_id i n
  dispatch_request (chunk_request file_name i) n = on_chunk_request file_name i n
  dispatch_request (transfer_complete file_name) n = n ▸ log ok_level ▸ send_response ack
  dispatch_request (file_changed file_name) n = on_file_changed file_name n
  dispatch_request (file_deleted file_name) n = on_file_deleted file_name n
  dispatch_request (key_exchange_propose key) n = on_key_exchange_propose key n
  dispatch_request (key_exchange_accept key) n = on_key_exchange_accept key n
  dispatch_request _ n = send_response (error unexpected_request) n

  unfoldable pub on_request : SyncMessage → Node → Node
  on_request request n = dispatch_request request (load_stored_key n)
