-- ===== src/Sync/Limits/Responses.antt =====
-- src/sync/handler.rs: `on_response`, and how many files it leaves active.
use vitruvius.Base.{refl, Option, none, some, nat_eq, list_eq, lookup, Bytes, Text}
use vitruvius.Paths.{FilePath}
use vitruvius.Network.{SyncMessage}
use vitruvius.Sync.{Env, Node, set_peer_key}
use vitruvius.Sync.Idle.{Idle, load_stored_key-Idle}
use vitruvius.Sync.Limits.Chunks.{on_chunk_response-Limited, open_in_folder-Limited}
use vitruvius.Sync.Limits.Manifests.{on_encrypted_manifest-Limited, on_manifest-Limited}
use vitruvius.Sync.Limits.{Limited, Idle-Limited}
use vitruvius.Sync.Offers.{on_accepted, complete_exchange, request_if_folder, broadcast_status}
use vitruvius.Sync.Download.{on_encrypted_chunk_response, dispatch_response, on_response}
use vitruvius.Sync.Upload.{load_stored_key}

module _ (env : Env) (peer : Text) where
  request_if_folder-Idle :
      (folder : Option FilePath) (n : Node) → Idle n (request_if_folder env peer folder n)
  request_if_folder-Idle none n = refl
  request_if_folder-Idle (some path) n = refl

  complete_exchange-Idle :
      (secret : Option Bytes) (key : Bytes) (n : Node)
      → Idle n (complete_exchange env peer secret key n)
  unfolding set_peer_key broadcast_status
  complete_exchange-Idle none key n = refl
  complete_exchange-Idle (some secret) key n = request_if_folder-Idle _ _

  on_accepted-Idle : (key : Bytes) (n : Node) → Idle n (on_accepted env peer key n)
  unfolding on_accepted
  on_accepted-Idle key n = complete_exchange-Idle (lookup peer n.state.pending_exchanges) key _

  dispatch_response-Limited :
      (msg : SyncMessage) (n : Node) → Limited n → Limited (dispatch_response env peer msg n)
  unfolding dispatch_response on_encrypted_chunk_response
  dispatch_response-Limited SyncMessage.ack n limited = limited
  dispatch_response-Limited (SyncMessage.key_exchange_accept key) n limited =
      Idle-Limited n (on_accepted env peer key n) (on_accepted-Idle key n) limited
  dispatch_response-Limited (SyncMessage.encrypted_manifest c) n limited =
      on_encrypted_manifest-Limited env peer c n limited
  dispatch_response-Limited (SyncMessage.manifest name files) n limited =
      on_manifest-Limited env peer name files n limited
  dispatch_response-Limited SyncMessage.empty n limited = limited
  dispatch_response-Limited (SyncMessage.chunk_response name i bytes h) n limited =
      on_chunk_response-Limited env peer name i bytes n limited
  dispatch_response-Limited (SyncMessage.encrypted_chunk_response file_id i bytes h) n limited =
      open_in_folder-Limited env peer _ file_id i bytes n limited
  dispatch_response-Limited (SyncMessage.error e) n limited = limited
  dispatch_response-Limited (SyncMessage.folder_announcement name) n limited = limited
  dispatch_response-Limited SyncMessage.manifest_request n limited = limited
  dispatch_response-Limited (SyncMessage.chunk_request name i) n limited = limited
  dispatch_response-Limited (SyncMessage.encrypted_chunk_request file_id i) n limited = limited
  dispatch_response-Limited (SyncMessage.file_changed name) n limited = limited
  dispatch_response-Limited (SyncMessage.file_deleted name) n limited = limited
  dispatch_response-Limited (SyncMessage.key_exchange_propose key) n limited = limited
  dispatch_response-Limited (SyncMessage.transfer_complete name) n limited = limited

  pub on_response-Limited :
      (msg : SyncMessage) (n : Node) → Limited n → Limited (on_response env peer msg n)
  unfolding on_response
  on_response-Limited msg n limited =
      dispatch_response-Limited msg (load_stored_key env peer n)
        (Idle-Limited n (load_stored_key env peer n) (load_stored_key-Idle env peer n) limited)
