-- ===== src/Sync/Scheduler.antt =====
-- src/sync/handler.rs: `start_queued_files` and `check_stalls`. The queue shrinks in every round of
-- the scheduler's loop, so the loop is a recursion on it.
use vitruvius.Base.{
  ℕ, zero, suc, ◌+◌, ◌-◌, max, min, Bool, true, false, not, Option, none, some, List, [], ◌∷◌,
  Bytes, Text, length, take, get_elem?, range, keep_if, ltb, Dict, lookup, insert, contains_key,
  nat_eq, list_eq, as_u32, if◌then◌else◌, Result, ok, err,
}
use vitruvius.Paths.{FilePath, rel_to_abs, rel_to_vault_abs}
use vitruvius.Fs.{Fs, exists}
use vitruvius.Crypto.{Primitives}
use vitruvius.Network.{SyncMessage, chunk_request, encrypted_chunk_request}
use vitruvius.Storage.{
  FileMetadata, FileTransferState, PendingFile, missing_chunks, read_local_chunk_modal,
}
use vitruvius.Storage.Listing.{ChunkIndex, build_chunk_index_modal}
use vitruvius.Storage.Reassembly.{reassemble}
use vitruvius.Sync.{
  PeerDownload, Env, Node, GuiEvent, transfer_started, transfer_complete, ok_level, info, warn,
  error_level, window, max_concurrent_files, stall_secs, ◌▸◌, send_request, emit, log,
}

unfoldable pub rel_path_exists : Fs → FilePath → Text → Bool
rel_path_exists fs sync_root rel = exists fs (rel_to_abs sync_root rel)

-- `none` where `file_name().unwrap()` panics.
unfoldable pub vault_path_exists : Fs → FilePath → Text → Option Bool
vault_path_exists fs sync_root rel = elim (rel_to_vault_abs sync_root rel) [
  | none ↦ none
  | some p ↦ some (exists fs p)
]

-- The request for one chunk, by the file id if the transfer has one.
unfoldable pub request_of : Option Bytes → Text → ℕ → SyncMessage
request_of (some file_id) file_name ci = encrypted_chunk_request file_id (as_u32 ci)
request_of none file_name ci = chunk_request file_name ci

unfoldable pub send_all : Text → Option Bytes → Text → List ℕ → Node → Node
send_all peer file_id file_name [] n = n
send_all peer file_id file_name (ci ∷ cis) n =
    send_all peer file_id file_name cis (send_request peer (request_of file_id file_name ci) n)

-- The chunks that the local index offers, and how many they are.
module _ (P : Primitives) (fs : Fs) (sync_path : FilePath) (index : ChunkIndex) where
  abbrev local_bytes : Option (Text × ℕ) → Option Bytes
  local_bytes none = none
  local_bytes (some (src_file, src_chunk)) =
      read_local_chunk_modal P fs sync_path src_file src_chunk false none

  unfoldable pub dedup_loop : ℕ → List Bytes → Dict ℕ Bytes → ℕ → Dict ℕ Bytes × ℕ
  dedup_loop i [] received hits = (received, hits)
  dedup_loop i (hash ∷ hashes) received hits = elim (local_bytes (lookup hash index)) [
    | none ↦ dedup_loop (suc i) hashes received hits
    | some bytes ↦ dedup_loop (suc i) hashes (insert i bytes received) (hits + 1)
  ]

-- Only legacy transfers are deduplicated: the others speak of blinded hashes.
unfoldable pub deduplicate : Primitives → Fs → FilePath → PendingFile → Dict ℕ Bytes × ℕ
deduplicate P fs sync_path pf = elim pf.file_id [
  | some id ↦ ([], 0)
  | none ↦
      dedup_loop P fs sync_path (build_chunk_index_modal P fs sync_path false) 0 pf.chunk_hashes []
        0
]

abbrev pub metadata_of_pending : PendingFile → FileMetadata
metadata_of_pending pf = record {
  file_name = pf.file_name;
  total_chunks = pf.total_chunks;
  file_size = pf.file_size;
  is_vault = false;
  chunk_hashes = pf.chunk_hashes;
}

-- The new transfer, before its first requests.
abbrev pub prepared : Dict ℕ Bytes → FilePath → ℕ → PendingFile → FileTransferState
prepared received sync_path now pf = record {
  metadata = some (metadata_of_pending pf);
  received_chunks = received;
  sync_dir = sync_path;
  next_request = 0;
  last_activity = now;
  file_id = pf.file_id;
}

abbrev pub needed_chunks : PendingFile → Dict ℕ Bytes → List ℕ
needed_chunks pf received = keep_if (λ i. not (contains_key i received)) (range pf.total_chunks)

-- `needed.get(count).copied().unwrap_or(total)`
abbrev pub index_or : ℕ → Option ℕ → ℕ
index_or total none = total
index_or total (some i) = i

abbrev pub log_hits : ℕ → Node → Node
log_hits zero n = n
log_hits (suc hits) n = log info n

abbrev started : Text → PendingFile → GuiEvent
started peer pf = transfer_started peer pf.file_name pf.total_chunks pf.file_size

module _ (env : Env) (peer : Text) (sync_path : FilePath) where
  abbrev pub report_written : Text → Result FilePath → Node → Node
  report_written file_name (ok path) n = n ▸ emit (transfer_complete peer file_name) ▸ log ok_level
  report_written file_name (err e) n = n ▸ log error_level

  -- Every chunk is there already: the file is written at once.
  unfoldable pub write_deduped : PendingFile → FileTransferState → Node → Node
  write_deduped pf ts n =
      let n' = n ▸ log ok_level ▸ emit (started peer pf) in
      let r = reassemble ts n'.now n'.fs in report_written pf.file_name r.0 (record n' { fs = r.1 })

  -- The first requests go out, and the transfer is active.
  unfoldable pub begin_transfer :
      PendingFile
      → FileTransferState
      → List ℕ
      → Dict Text FileTransferState
      → Node
      → Dict Text FileTransferState × Node
  begin_transfer pf ts needed active n =
      let count = min (length needed) window in
      let n' =
        n
        ▸ log info
        ▸ emit (started peer pf)
        ▸ send_all peer pf.file_id pf.file_name (take count needed) in
      let ts' = record ts { next_request = index_or pf.total_chunks (get_elem? needed count) } in
      (insert pf.file_name ts' active, n')

  -- Every chunk is there, or some are asked for.
  unfoldable pub start_or_write :
      PendingFile
      → FileTransferState
      → List ℕ
      → Dict Text FileTransferState
      → Node
      → Dict Text FileTransferState × Node
  start_or_write pf ts [] active n = (active, write_deduped pf ts n)
  start_or_write pf ts (ci ∷ cis) active n = begin_transfer pf ts (ci ∷ cis) active n

  -- One round of the loop, for the file that was popped.
  unfoldable pub start_file :
      PendingFile → Dict Text FileTransferState → Node → Dict Text FileTransferState × Node
  start_file pf active n =
      let found = deduplicate env.primitives n.fs sync_path pf in
      let ts = prepared found.0 sync_path n.now pf in
      let begun = start_or_write pf ts (needed_chunks pf found.0) active (log_hits found.1 n) in
      if rel_path_exists n.fs sync_path pf.file_name then (active, log info n) else begun

  unfoldable pub start_loop :
      List PendingFile → Dict Text FileTransferState → Node → PeerDownload × Node
  start_loop [] active n = (record { active = active; queue = [] }, n)
  start_loop (pf ∷ queue) active n = elim (ltb (length active) max_concurrent_files) [
    | false ↦ (record { active = active; queue = pf ∷ queue }, n)
    | true ↦ start_loop queue (start_file pf active n).0 (start_file pf active n).1
  ]

  unfoldable pub start_queued_files : PeerDownload → Node → PeerDownload × Node
  start_queued_files dl n = start_loop dl.queue dl.active n

-- `next_request.max(last_ci + 1)` for the last request, if there is one.
unfoldable pub last_next : ℕ → List ℕ → ℕ
last_next next [] = next
last_next next (ci ∷ []) = max next (ci + 1)
last_next next (ci ∷ cj ∷ cis) = last_next next (cj ∷ cis)

-- The missing chunks of a stalled file are asked for again, as many as the window allows.
abbrev pub request_missing :
    Text → Text → FileTransferState → Node → Option FileMetadata → List ℕ → FileTransferState × Node
request_missing peer file_name ts n none missing = (ts, n)
request_missing peer file_name ts n (some m) [] = (ts, n)
request_missing peer file_name ts n (some m) (i ∷ is) =
    let to_req = take (min (length (i ∷ is)) window) (i ∷ is) in
    (
      record ts { next_request = last_next ts.next_request to_req; last_activity = n.now },
      n ▸ log warn ▸ send_all peer ts.file_id file_name to_req,
    )

-- One active file of `check_stalls`.
unfoldable pub check_file : Text → Text → FileTransferState → Node → FileTransferState × Node
check_file peer file_name ts n =
    if ltb (n.now - ts.last_activity) stall_secs
    then (ts, n)
    else request_missing peer file_name ts n ts.metadata (missing_chunks ts)

unfoldable pub check_files :
    Text → Dict Text FileTransferState → Node → Dict Text FileTransferState × Node
check_files peer [] n = ([], n)
check_files peer ((file_name, ts) ∷ rest) n =
    let first = check_file peer file_name ts n in
    let later = check_files peer rest first.1 in ((file_name, first.0) ∷ later.0, later.1)

unfoldable pub check_peers : Dict Text PeerDownload → Node → Dict Text PeerDownload × Node
check_peers [] n = ([], n)
check_peers ((peer, dl) ∷ rest) n =
    let first = check_files peer dl.active n in
    let later = check_peers rest first.1 in
    ((peer, record dl { active = first.0 }) ∷ later.0, later.1)

unfoldable pub check_stalls : Node → Node
check_stalls n = let r = check_peers n.transfers n in record r.1 { transfers = r.0 }
