-- ===== src/Sync/Limits.antt =====
-- src/sync/handler.rs: the number of files that a node downloads from one peer at a time.
pub mod Chunks
pub mod Manifests
pub mod Responses
pub mod Events
use vitruvius.Base.{
  ℕ, zero, suc, ◌+◌, ◌-◌, ◌*◌, ◌/◌, ◌%◌, ◌^◌, ◌≤◌, ◌<◌, min, max, ◌≡◌, refl, sym, ap, ap₂, subst,
  ◌∙◌, ◌≢◌, ◌↔◌, ◌⊎◌, inl, inr, Bool, true, false, not, ◌&&◌, ◌||◌, Option, none, some, List, [],
  ◌∷◌, ◌++◌, map, append-nil, append_assoc, arith, ltb, leb, nat_beq, nat_beq_iff, if◌then◌else◌,
  is_some, is_empty, ltb→lt, lt→ltb, le→ltb_false, Bool-cases, Option-cases, List-cases, length,
  get_elem?, take, drop, replicate, concat, All, sum, range_from, range, keep_if, length-append,
  take-append-drop, length-take, length-drop, length-map, take-append, drop-append, drop-all,
  take-all, drop-nil, take-nil, take-add, drop-drop, get_elem?-lt, get_elem?-eq_none, Eq, ◌==◌,
  ==_refl, eq_of_==, nat_eq, list_eq, list_beq, list_beq_iff, contains, Dict, lookup, contains_key,
  insert, remove, lookup-insert, lookup-insert_self, lookup-remove, contains_key-remove,
  insert-insert, contains_key-eq_none, length-insert-le, length-remove-le, add, delete,
  contains-add, contains-delete, Bytes, Text, le_bytes, from_le_bytes, u32_bytes, u64_bytes, as_u32,
  Error, Result, ok, err, or_fail, >>=-eq-ok as bind-eq-ok, Result-cases, ◌>>=◌ as bind, guard,
}
use vitruvius.Base.{
  AllValues, AllValues-insert, AllValues-remove, AllValues-lookup, length-insert_there,
}
use vitruvius.Paths.{FilePath}
use vitruvius.Network.{SyncMessage, EncryptedManifestPayload, FileEntry}
use vitruvius.Storage.{FileTransferState, PendingFile, pending_of, total_of}
use vitruvius.Storage.Manifest.{decrypt_manifest}
use vitruvius.State.{key_for_peer, InboundFileInfo}
use vitruvius.Crypto.{decrypt_with_aad, chunk_aad}
use vitruvius.Sync.{
  Env, Node, PeerDownload, new_download, max_concurrent_files, send_request, log, emit,
}
use vitruvius.Sync.Scheduler.{
  send_all, request_of, log_hits, report_written, write_deduped, begin_transfer, start_or_write,
  start_file, start_loop, start_queued_files, rel_path_exists, deduplicate, prepared, needed_chunks,
}
use vitruvius.Storage.Reassembly.{reassemble_modal}
use vitruvius.Sync.Bounds.{start_queued_files-bound}
use vitruvius.Sync.Idle.{Idle, load_stored_key-Idle}
use vitruvius.Sync.Offers.{
  put_download, or_new, queue_files, skip_file, run_queue, accept_files, accept_payload,
  on_encrypted_manifest, on_manifest, on_accepted, complete_exchange, request_if_folder,
  broadcast_status, pending_of_encrypted,
}
use vitruvius.Sync.Download.{
  put_transfer, finish_transfer, write_transfer, store_chunk, check_chunk, receive_chunk,
  on_chunk_response, on_encrypted_chunk_response, open_in_folder, open_chunk, dispatch_response,
  on_response, decrypt_if_keyed, name_of_id, expected_hash,
}
use vitruvius.Base.{max}

abbrev pub FewActive : PeerDownload → Type 0
FewActive dl = length dl.active ≤ max_concurrent_files

-- From no peer are more than three files downloaded at a time.
abbrev pub Limited : Node → Type 0
Limited n = AllValues FewActive n.transfers

pub Idle-Limited : (before after : Node) → Idle before after → Limited before → Limited after
Idle-Limited before after same limited = subst (AllValues FewActive) (sym same) limited

module _ (env : Env) (peer : Text) where
  send_all-Idle :
      (file_id : Option Bytes) (name : Text) (is : List ℕ) (n : Node)
      → Idle n (send_all peer file_id name is n)
  unfolding send_all
  send_all-Idle file_id name [] n = refl
  send_all-Idle file_id name (i ∷ is) n = send_all-Idle file_id name is _

  log_hits-Idle : (hits : ℕ) (n : Node) → Idle n (log_hits hits n)
  log_hits-Idle zero n = refl
  log_hits-Idle (suc hits) n = refl

  module _ (sync_path : FilePath) where
    report_written-Idle :
        (name : Text) (r : Result FilePath) (n : Node)
        → Idle n (report_written env peer sync_path name r n)
    report_written-Idle name (ok path) n = refl
    report_written-Idle name (err e) n = refl

    start_or_write-Idle :
        (pf : PendingFile) (ts : FileTransferState) (needed : List ℕ)
        (active : Dict Text FileTransferState) (n : Node)
        → Idle n (start_or_write env peer sync_path pf ts needed active n).1
    unfolding start_or_write begin_transfer write_deduped
    start_or_write-Idle pf ts [] active n = report_written-Idle pf.file_name _ _
    start_or_write-Idle pf ts (i ∷ is) active n = send_all-Idle pf.file_id pf.file_name _ _

    start_file-Idle :
        (pf : PendingFile) (active : Dict Text FileTransferState) (n : Node)
        → Idle n (start_file env peer sync_path pf active n).1
    unfolding start_file
    start_file-Idle pf active n =
        let found = deduplicate env.primitives n.fs sync_path pf in
        let begun =
          start_or_write-Idle pf (prepared found.0 sync_path n.now pf) (needed_chunks pf found.0)
            active (log_hits found.1 n) in
        elim (Bool-cases (rel_path_exists n.fs sync_path pf.file_name)) [
          | inl there ↦ rw (there, start_file)
          | inr absent ↦ rw (absent, start_file) (begun ∙ log_hits-Idle found.1 n)
        ]

    start_loop-Idle :
        (queue : List PendingFile) (active : Dict Text FileTransferState) (n : Node)
        → Idle n (start_loop env peer sync_path queue active n).1
    unfolding start_loop
    start_loop-Idle [] active n = refl
    start_loop-Idle (pf ∷ queue) active n =
        elim (Bool-cases (ltb (length active) max_concurrent_files)) [
          | inl free ↦
              rw (free, start_loop) (start_loop-Idle queue _ _ ∙ start_file-Idle pf active n)
          | inr full ↦ rw (full, start_loop)
        ]

    start_queued_files-Idle :
        (dl : PeerDownload) (n : Node) → Idle n (start_queued_files env peer sync_path dl n).1
    unfolding start_queued_files
    start_queued_files-Idle dl n = start_loop-Idle dl.queue dl.active n

    -- The scheduler, and the storing of what it leaves.
    pub put_started-Limited :
        (dl : PeerDownload) (n : Node)
        → FewActive dl
        → Limited n
        → Limited (
            put_download env peer
              (start_queued_files env peer sync_path dl n).0
              (start_queued_files env peer sync_path dl n).1)
    put_started-Limited dl n few limited =
        let r = start_queued_files env peer sync_path dl n in
        AllValues-insert FewActive peer r.0 r.1.transfers
          (start_queued_files-bound env peer sync_path dl n few).0
          (Idle-Limited n r.1 (start_queued_files-Idle dl n) limited)

    finish_transfer-Limited :
        (legacy : Bool) (name : Text) (written : FilePath) (dl : PeerDownload) (n : Node)
        → FewActive dl
        → Limited n
        → Limited (finish_transfer env peer legacy name sync_path written dl n)
    unfolding finish_transfer
    finish_transfer-Limited legacy name written dl n few limited =
        let started =
          put_started-Limited (record dl { active = remove name dl.active }) _
            (omega (arith, length-remove-le name dl.active)) limited in
        elim (Bool-cases legacy) [
          | inl e ↦ rw (e, finish_transfer) started
          | inr e ↦ rw (e, finish_transfer) started
        ]

    pub write_transfer-Limited :
        (legacy : Bool) (name : Text) (ts : FileTransferState) (dl : PeerDownload) (n : Node)
        → FewActive dl
        → Limited n
        → Limited (write_transfer env peer legacy name sync_path ts dl n)
    unfolding write_transfer
    write_transfer-Limited legacy name ts dl n few limited =
        elim (Result-cases
          (reassemble_modal ts env.primitives (env.rng n.draws 16)
            (λ k. env.rng (suc n.draws + k) 12) n.now n.state.vault_mode n.state.vault_key
            n.fs).0) [
              | inl (path, e) ↦
                  rw (e, write_transfer) (finish_transfer-Limited legacy name path dl _ few limited)
              | inr (x, e) ↦
                  rw (e, write_transfer)
                    (AllValues-insert FewActive peer dl n.transfers few limited)
            ]
