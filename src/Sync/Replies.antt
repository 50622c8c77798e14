-- ===== src/Sync/Replies.antt =====
-- src/sync/handler.rs: the replies of `on_request`.
use vitruvius.Base.{
  ℕ, ◌≡◌, refl, ap, ◌∙◌, Bool, true, false, Option, some, none, List, [], ◌∷◌, ◌++◌, Bytes, Text,
  nat_eq, list_eq, arith, Result, ok, err, contains_key, Bool-cases, inl, inr, ◌||◌, no_sync_folder,
}
use vitruvius.Paths.{FilePath}
use vitruvius.Network.{
  SyncMessage, folder_announcement, manifest_request, encrypted_chunk_request, chunk_request,
  transfer_complete, file_changed, file_deleted, key_exchange_propose, key_exchange_accept,
  chunk_response, manifest, encrypted_manifest, encrypted_chunk_response, empty, ack, error,
}
use vitruvius.Storage.Manifest.{IdMap, get_encrypted_manifest}
use vitruvius.State.{key_for_peer, has_peer_key}
use vitruvius.Sync.{Env, Node, set_peer_key, send_request, send_response, log, info, ◌▸◌}
use vitruvius.Sync.Upload.{
  request_manifests, announce_back, load_stored_key, manifest_reply, serve_folder, send_chunk,
  our_secret, draw, drawn, log_if, is_chunk, log_removal, finish_exchange, chunk_sent,
  on_folder_announcement, mirror_cli_key, on_manifest_request, serve_manifest,
  on_encrypted_chunk_request, on_chunk_request, on_file_changed, on_file_deleted,
  on_key_exchange_propose, on_key_exchange_accept, dispatch_request, on_request,
}

-- One reply is sent, after those that were sent before.
abbrev pub Answers : Node → Node → Type 0
Answers before after = (msg : SyncMessage) × (after.replies ≡ before.replies ++ msg ∷ [])

Answers-after :
    (before middle after : Node)
    → middle.replies ≡ before.replies
    → Answers middle after
    → Answers before after
Answers-after before middle after same (msg, replied) =
    (msg, replied ∙ ap (λ l. l ++ msg ∷ []) same)

module _ (env : Env) (peer : Text) where
  request_manifests-replies :
      (others : List Text) (n : Node) → (request_manifests env peer others n).replies ≡ n.replies
  unfolding request_manifests
  request_manifests-replies [] n = refl
  request_manifests-replies (p ∷ ps) n =
      request_manifests-replies ps (n ▸ send_request p manifest_request ▸ log info)

  announce_back-replies : (n : Node) → (announce_back env peer n).replies ≡ n.replies
  unfolding announce_back
  announce_back-replies n = ground arith

  load_stored_key-replies : (n : Node) → (load_stored_key env peer n).replies ≡ n.replies
  unfolding load_stored_key
  load_stored_key-replies n = ground arith

  mirror_cli_key-replies : (n : Node) → (mirror_cli_key env peer n).replies ≡ n.replies
  unfolding mirror_cli_key
  mirror_cli_key-replies n = ground arith

  on_folder_announcement-Answers :
      (name : Text) (n : Node) → Answers n (on_folder_announcement env peer name n)
  unfolding on_folder_announcement
  on_folder_announcement-Answers name n =
      (ack, rw (request_manifests-replies, announce_back-replies) refl)

  manifest_reply-Answers :
      (r : Result (SyncMessage × IdMap)) (n : Node) → Answers n (manifest_reply env peer r n)
  manifest_reply-Answers (ok (msg, ids)) n = (msg, refl)
  manifest_reply-Answers (err e) n = (error e, refl)

  serve_manifest-Answers :
      (path : FilePath) (key : Option Bytes) (b : Bool) (n : Node)
      → Answers n (serve_manifest env peer path key b n)
  unfolding serve_manifest
  serve_manifest-Answers path (some key) true n =
      manifest_reply-Answers
        (get_encrypted_manifest env.primitives key env.codec (draw env peer 12 n) n.fs path
          n.state.node_name n.state.vault_mode)
        (n ▸ log info ▸ drawn env peer)
  serve_manifest-Answers path (some key) false n = (_, refl)
  serve_manifest-Answers path none b n = (_, refl)

  serve_folder-Answers :
      (path : Option FilePath) (n : Node) → Answers n (serve_folder env peer path n)
  serve_folder-Answers none n = (empty, refl)
  serve_folder-Answers (some path) n =
      serve_manifest-Answers path (key_for_peer n.state peer) n.state.encrypted_protocol n

  on_manifest_request-Answers : (n : Node) → Answers n (on_manifest_request env peer n)
  unfolding on_manifest_request
  on_manifest_request-Answers n =
      let n' = mirror_cli_key env peer n in
      Answers-after n n' (on_manifest_request env peer n) (mirror_cli_key-replies n)
        (serve_folder-Answers n'.state.sync_path n')

  pub log_if-replies :
      (b : Bool) (msg : SyncMessage) (n : Node)
      → (n ▸ log_if b ▸ send_response msg).replies ≡ n.replies ++ msg ∷ []
  log_if-replies true msg n = refl
  log_if-replies false msg n = refl

  log_if-Answers :
      (b : Bool) (msg : SyncMessage) (n : Node) → Answers n (n ▸ log_if b ▸ send_response msg)
  log_if-Answers b msg n = (msg, log_if-replies b msg n)

  on_encrypted_chunk_request-Answers :
      (id : Bytes) (i : ℕ) (n : Node) → Answers n (on_encrypted_chunk_request env peer id i n)
  unfolding on_encrypted_chunk_request
  on_encrypted_chunk_request-Answers id i n = log_if-Answers _ _ (drawn env peer n)

  send_chunk-Answers :
      (path : Option FilePath) (name : Text) (i : ℕ) (n : Node)
      → Answers n (send_chunk env peer path name i n)
  send_chunk-Answers none name i n = (error no_sync_folder, refl)
  send_chunk-Answers (some path) name i n =
      log_if-Answers (is_chunk (chunk_sent env peer path name i n))
        (chunk_sent env peer path name i n) (drawn env peer n)

  on_chunk_request-Answers :
      (name : Text) (i : ℕ) (n : Node) → Answers n (on_chunk_request env peer name i n)
  unfolding on_chunk_request
  on_chunk_request-Answers name i n = send_chunk-Answers n.state.sync_path name i n

  on_file_changed-Answers :
      (name : Text) (path : Option FilePath) (n : Node)
      → n.state.sync_path ≡ path
      → Answers n (on_file_changed env peer name n)
  unfolding on_file_changed
  on_file_changed-Answers name none n e = (ack, rw (e, on_file_changed) refl)
  on_file_changed-Answers name (some path) n e = (ack, rw (e, on_file_changed) refl)

  log_removal-replies :
      (r : Result (Unit {0})) (n : Node) → (log_removal env peer r n).replies ≡ n.replies
  log_removal-replies (ok u) n = refl
  log_removal-replies (err e) n = refl

  on_file_deleted-Answers :
      (name : Text) (path : Option FilePath) (n : Node)
      → n.state.sync_path ≡ path
      → Answers n (on_file_deleted env peer name n)
  unfolding on_file_deleted
  on_file_deleted-Answers name none n e = (ack, rw (e, on_file_deleted) refl)
  on_file_deleted-Answers name (some path) n e =
      (ack, rw (e, on_file_deleted) (log_removal-replies _ _))

  on_key_exchange_propose-Answers :
      (key : Bytes) (n : Node) → Answers n (on_key_exchange_propose env peer key n)
  unfolding on_key_exchange_propose set_peer_key
  on_key_exchange_propose-Answers key n =
      elim (Bool-cases (contains_key peer n.state.peer_keys || has_peer_key env.hex n.store peer)) [
        | inl known ↦ (
          key_exchange_accept (env.primitives.public_key (our_secret env peer n)),
          rw (known, on_key_exchange_propose) refl,
        )
        | inr unknown ↦ (ack, rw (unknown, on_key_exchange_propose) refl)
      ]

  finish_exchange-replies :
      (secret : Option Bytes) (key : Bytes) (n : Node)
      → (finish_exchange env peer secret key n).replies ≡ n.replies
  unfolding set_peer_key
  finish_exchange-replies none key n = refl
  finish_exchange-replies (some secret) key n = refl

  on_key_exchange_accept-Answers :
      (key : Bytes) (n : Node) → Answers n (on_key_exchange_accept env peer key n)
  unfolding on_key_exchange_accept
  on_key_exchange_accept-Answers key n = (ack, rw finish_exchange-replies refl)

  dispatch_request-Answers :
      (request : SyncMessage) (n : Node) → Answers n (dispatch_request env peer request n)
  unfolding dispatch_request
  dispatch_request-Answers (folder_announcement name) n = on_folder_announcement-Answers name n
  dispatch_request-Answers manifest_request n = on_manifest_request-Answers n
  dispatch_request-Answers (chunk_request name i) n = on_chunk_request-Answers name i n
  dispatch_request-Answers (manifest name fs) n = (_, refl)
  dispatch_request-Answers (chunk_response name i d h) n = (_, refl)
  dispatch_request-Answers (encrypted_manifest c) n = (_, refl)
  dispatch_request-Answers (encrypted_chunk_request id i) n =
      on_encrypted_chunk_request-Answers id i n
  dispatch_request-Answers (encrypted_chunk_response id i d h) n = (_, refl)
  dispatch_request-Answers empty n = (_, refl)
  dispatch_request-Answers ack n = (_, refl)
  dispatch_request-Answers (error e) n = (_, refl)
  dispatch_request-Answers (file_changed name) n =
      on_file_changed-Answers name n.state.sync_path n refl
  dispatch_request-Answers (file_deleted name) n =
      on_file_deleted-Answers name n.state.sync_path n refl
  dispatch_request-Answers (key_exchange_propose key) n = on_key_exchange_propose-Answers key n
  dispatch_request-Answers (key_exchange_accept key) n = on_key_exchange_accept-Answers key n
  dispatch_request-Answers (transfer_complete name) n = (ack, refl)

  -- Whatever a peer sends as a request, exactly one reply is sent, after those sent before.
  pub on_request-Answers :
      (request : SyncMessage) (n : Node) → Answers n (on_request env peer request n)
  unfolding on_request
  on_request-Answers request n =
      let n' = load_stored_key env peer n in
      Answers-after n n' (on_request env peer request n) (load_stored_key-replies n)
        (dispatch_request-Answers request n')
