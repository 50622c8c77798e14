-- ===== src/Sync/Idle.antt =====
-- src/sync/handler.rs: the handlers that leave the running downloads as they are: those of requests
-- and of the user's commands.
pub mod Commands
use vitruvius.Base.{
  ℕ, zero, suc, ◌+◌, ◌-◌, ◌*◌, ◌/◌, ◌%◌, ◌^◌, ◌≤◌, ◌<◌, min, max, ◌≡◌, refl, sym, ap, ap₂, subst,
  ◌∙◌, ◌≢◌, ◌↔◌, ◌⊎◌, inl, inr, Bool, true, false, not, ◌&&◌, ◌||◌, Option, none, some, List, [],
  ◌∷◌, ◌++◌, map, append-nil, append_assoc, arith, ltb, leb, nat_beq, nat_beq_iff, if◌then◌else◌,
  is_some, is_empty, ltb→lt, lt→ltb, le→ltb_false, Bool-cases, Option-cases, List-cases, length,
  get_elem?, take, drop, replicate, concat, All, sum, range_from, range, keep_if, length-append,
  take-append-drop, length-take, length-drop, length-map, take-append, drop-append, drop-all,
  take-all, drop-nil, take-nil, take-add, drop-drop, get_elem?-lt, get_elem?-eq_none, Eq, ◌==◌,
  ==_refl, eq_of_==, nat_eq, list_eq, list_beq, list_beq_iff, contains, Dict, lookup, contains_key,
  insert, remove, lookup-insert, lookup-insert_self, lookup-remove, contains_key-remove,
  insert-insert, contains_key-eq_none, length-insert-le, length-remove-le, add, delete,
  contains-add, contains-delete, Bytes, Text, le_bytes, from_le_bytes, u32_bytes, u64_bytes, as_u32,
  Error, Result, ok, err, or_fail, >>=-eq-ok as bind-eq-ok, Result-cases, ◌>>=◌ as bind, guard,
}
use vitruvius.Paths.{FilePath}
use vitruvius.Fs.{Fs, exists, remove_file, create_dir_all}
use vitruvius.Crypto.{Draw}
use vitruvius.Network.{SyncMessage}
use vitruvius.Storage.Manifest.{IdMap, get_encrypted_manifest, get_manifest}
use vitruvius.State.{key_for_peer}
use vitruvius.Sync.{Env, Node, PeerDownload, with_state, ◌▸◌, send_response, set_peer_key}
use vitruvius.Sync.Upload.{
  load_stored_key, request_manifests, announce_back, mirror_cli_key, log_if, manifest_reply,
  serve_manifest, serve_folder, send_chunk, on_file_changed, log_removal, on_file_deleted,
  on_key_exchange_propose, finish_exchange, dispatch_request, on_folder_announcement,
  on_manifest_request, on_encrypted_chunk_request, on_chunk_request, on_key_exchange_accept,
  on_request,
}

-- The downloads of a node are those of another.
abbrev pub Idle : Node → Node → Type 0
Idle before after = after.transfers ≡ before.transfers

module _ (env : Env) (peer : Text) where
  pub load_stored_key-Idle : (n : Node) → Idle n (load_stored_key env peer n)
  unfolding load_stored_key
  load_stored_key-Idle n = elim (Bool-cases (contains_key peer n.state.peer_keys)) [
    | inl known ↦ rw (known, load_stored_key)
    | inr unknown ↦ rw (unknown, load_stored_key)
  ]

  request_manifests-Idle :
      (others : List Text) (n : Node) → Idle n (request_manifests env peer others n)
  unfolding request_manifests
  request_manifests-Idle [] n = refl
  request_manifests-Idle (other ∷ others) n = request_manifests-Idle others _

  announce_back-Idle : (n : Node) → Idle n (announce_back env peer n)
  unfolding announce_back
  announce_back-Idle n = ground arith

  mirror_cli_key-Idle : (n : Node) → Idle n (mirror_cli_key env peer n)
  unfolding mirror_cli_key
  mirror_cli_key-Idle n = ground arith

  log_if-Idle : (b : Bool) (n : Node) → Idle n (log_if b n)
  log_if-Idle true n = refl
  log_if-Idle false n = refl

  manifest_reply-Idle :
      (r : Result (SyncMessage × IdMap)) (n : Node) → Idle n (manifest_reply env peer r n)
  manifest_reply-Idle (err e) n = refl
  manifest_reply-Idle (ok m) n = refl

  serve_manifest-Idle :
      (path : FilePath) (key : Option Bytes) (encrypted : Bool) (n : Node)
      → Idle n (serve_manifest env peer path key encrypted n)
  unfolding serve_manifest
  serve_manifest-Idle path (some key) true n = manifest_reply-Idle _ _
  serve_manifest-Idle path (some key) false n = refl
  serve_manifest-Idle path none encrypted n = refl

  serve_folder-Idle : (path : Option FilePath) (n : Node) → Idle n (serve_folder env peer path n)
  serve_folder-Idle none n = refl
  serve_folder-Idle (some path) n = serve_manifest-Idle path _ _ n

  send_chunk-Idle :
      (path : Option FilePath) (file_name : Text) (i : ℕ) (n : Node)
      → Idle n (send_chunk env peer path file_name i n)
  send_chunk-Idle none file_name i n = refl
  send_chunk-Idle (some path) file_name i n = log_if-Idle _ _

  on_file_changed-Idle :
      (file_name : Text) (n : Node) → Idle n (on_file_changed env peer file_name n)
  unfolding on_file_changed
  on_file_changed-Idle file_name n = elim (Option-cases n.state.sync_path) [
    | inl e ↦ rw (e, on_file_changed)
    | inr (path, e) ↦ rw (e, on_file_changed)
  ]

  log_removal-Idle : (r : Result (Unit {0})) (n : Node) → Idle n (log_removal env peer r n)
  log_removal-Idle (ok u) n = refl
  log_removal-Idle (err e) n = refl

  on_file_deleted-Idle :
      (file_name : Text) (n : Node) → Idle n (on_file_deleted env peer file_name n)
  unfolding on_file_deleted
  on_file_deleted-Idle file_name n = elim (Option-cases n.state.sync_path) [
    | inl e ↦ rw (e, on_file_deleted)
    | inr (path, e) ↦ rw (e, on_file_deleted) (log_removal-Idle _ _)
  ]

  on_key_exchange_propose-Idle :
      (key : Bytes) (n : Node) → Idle n (on_key_exchange_propose env peer key n)
  unfolding on_key_exchange_propose set_peer_key
  on_key_exchange_propose-Idle key n = ground arith

  finish_exchange-Idle :
      (secret : Option Bytes) (key : Bytes) (n : Node)
      → Idle n (finish_exchange env peer secret key n)
  unfolding set_peer_key
  finish_exchange-Idle none key n = refl
  finish_exchange-Idle (some secret) key n = refl

  dispatch_request-Idle : (msg : SyncMessage) (n : Node) → Idle n (dispatch_request env peer msg n)
  unfolding dispatch_request on_folder_announcement on_manifest_request on_encrypted_chunk_request
      on_chunk_request on_key_exchange_accept
  dispatch_request-Idle (SyncMessage.folder_announcement name) n =
      request_manifests-Idle _ _ ∙ announce_back-Idle _
  dispatch_request-Idle SyncMessage.manifest_request n =
      serve_folder-Idle _ _ ∙ mirror_cli_key-Idle n
  dispatch_request-Idle (SyncMessage.encrypted_chunk_request file_id i) n = log_if-Idle _ _
  dispatch_request-Idle (SyncMessage.chunk_request file_name i) n = send_chunk-Idle _ file_name i n
  dispatch_request-Idle (SyncMessage.transfer_complete file_name) n = refl
  dispatch_request-Idle (SyncMessage.file_changed file_name) n = on_file_changed-Idle file_name n
  dispatch_request-Idle (SyncMessage.file_deleted file_name) n = on_file_deleted-Idle file_name n
  dispatch_request-Idle (SyncMessage.key_exchange_propose key) n =
      on_key_exchange_propose-Idle key n
  dispatch_request-Idle (SyncMessage.key_exchange_accept key) n = finish_exchange-Idle _ key _
  dispatch_request-Idle (SyncMessage.manifest a b) n = refl
  dispatch_request-Idle (SyncMessage.chunk_response a b c d) n = refl
  dispatch_request-Idle (SyncMessage.encrypted_manifest a) n = refl
  dispatch_request-Idle (SyncMessage.encrypted_chunk_response a b c d) n = refl
  dispatch_request-Idle SyncMessage.empty n = refl
  dispatch_request-Idle SyncMessage.ack n = refl
  dispatch_request-Idle (SyncMessage.error e) n = refl

  pub on_request-Idle : (msg : SyncMessage) (n : Node) → Idle n (on_request env peer msg n)
  unfolding on_request
  on_request-Idle msg n = dispatch_request-Idle msg _ ∙ load_stored_key-Idle n
