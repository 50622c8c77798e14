-- ===== src/Sync/Bounds.antt =====
-- src/sync/handler.rs, `start_queued_files`: the bounds of the scheduler: how many files are
-- active, and how many chunks are asked for.
use vitruvius.Base.{
  ℕ, zero, suc, ◌+◌, ◌≤◌, ◌≡◌, refl, ◌⊎◌, inl, inr, Option, List, [], ◌∷◌, Bytes, Text, length,
  take, min, ltb, Bool-cases, length-append, length-take, length-insert-le, Dict, nat_eq, list_eq,
  arith, ap, Result, ok, err, ltb→lt,
}
use vitruvius.Paths.{FilePath}
use vitruvius.Storage.{FileTransferState, PendingFile}
use vitruvius.Sync.{PeerDownload, Env, Node, max_concurrent_files, window, send_request}
use vitruvius.Sync.Scheduler.{
  request_of, send_all, rel_path_exists, deduplicate, needed_chunks, prepared, write_deduped,
  begin_transfer, start_or_write, report_written, start_file, start_loop, start_queued_files,
  log_hits,
}

-- One request is sent for each chunk of the list.
pub length-send_all :
    (peer : Text) (file_id : Option Bytes) (file_name : Text) (cis : List ℕ) (n : Node)
    → length (send_all peer file_id file_name cis n).requests ≡ length n.requests + length cis
unfolding send_all
length-send_all peer file_id file_name [] n = omega arith
length-send_all peer file_id file_name (ci ∷ cis) n = omega (
  arith,
  length-send_all peer file_id file_name cis
      (send_request peer (request_of file_id file_name ci) n),
  length-append n.requests ((peer, request_of file_id file_name ci) ∷ []),
)

log_hits-requests : (hits : ℕ) (n : Node) → (log_hits hits n).requests ≡ n.requests
log_hits-requests zero n = refl
log_hits-requests (suc hits) n = refl

module _ (env : Env) (peer : Text) (sync_path : FilePath) where
  begin_transfer-active :
      (pf : PendingFile) (ts : FileTransferState) (needed : List ℕ)
      (active : Dict Text FileTransferState) (n : Node)
      → length (begin_transfer env peer sync_path pf ts needed active n).0 ≤ suc (length active)
  unfolding begin_transfer
  begin_transfer-active pf ts needed active n = length-insert-le pf.file_name _ active

  start_or_write-active :
      (pf : PendingFile) (ts : FileTransferState) (needed : List ℕ)
      (active : Dict Text FileTransferState) (n : Node)
      → length (start_or_write env peer sync_path pf ts needed active n).0 ≤ suc (length active)
  unfolding start_or_write
  start_or_write-active pf ts [] active n = omega arith
  start_or_write-active pf ts (ci ∷ cis) active n = begin_transfer-active pf ts (ci ∷ cis) active n

  start_file-active :
      (pf : PendingFile) (active : Dict Text FileTransferState) (n : Node)
      → length (start_file env peer sync_path pf active n).0 ≤ suc (length active)
  unfolding start_file
  start_file-active pf active n =
      let found = deduplicate env.primitives n.fs sync_path pf in
      let begun =
        start_or_write-active pf (prepared found.0 sync_path n.now pf) (needed_chunks pf found.0)
          active (log_hits found.1 n) in
      elim (Bool-cases (rel_path_exists n.fs sync_path pf.file_name)) [
        | inl there ↦ rw (there, start_file) (omega arith)
        | inr absent ↦ rw (absent, start_file) begun
      ]

  report_written-requests :
      (name : Text) (r : Result FilePath) (n : Node)
      → (report_written env peer sync_path name r n).requests ≡ n.requests
  report_written-requests name (ok p) n = refl
  report_written-requests name (err e) n = refl

  -- Starting one file, or writing it from what is there, sends four requests at most.
  pub start_or_write-requests :
      (pf : PendingFile) (ts : FileTransferState) (needed : List ℕ)
      (active : Dict Text FileTransferState) (n : Node)
      → length (start_or_write env peer sync_path pf ts needed active n).1.requests
        ≤ length n.requests + window
  unfolding start_or_write begin_transfer write_deduped
  start_or_write-requests pf ts [] active n =
      omega (arith, ap length (report_written-requests pf.file_name _ _))
  start_or_write-requests pf ts (ci ∷ cis) active n = omega (
    arith,
    length-send_all peer pf.file_id pf.file_name (take (min (length (ci ∷ cis)) window) (ci ∷ cis))
        _,
    length-take (min (length (ci ∷ cis)) window) (ci ∷ cis),
  )

  start_loop-bound :
      (queue : List PendingFile) (active : Dict Text FileTransferState) (n : Node)
      → length active ≤ max_concurrent_files
      → (length (start_loop env peer sync_path queue active n).0.active ≤ max_concurrent_files)
        × (((start_loop env peer sync_path queue active n).0.queue ≡ [])
            ⊎ (length (start_loop env peer sync_path queue active n).0.active
                ≡ max_concurrent_files))
  unfolding start_loop
  start_loop-bound [] active n few = (few, inl refl)
  start_loop-bound (pf ∷ queue) active n few =
      elim (Bool-cases (ltb (length active) max_concurrent_files)) [
        | inl free ↦
            let first = start_file env peer sync_path pf active n in
            let few' : length first.0 ≤ max_concurrent_files = omega (
              arith,
              start_file-active pf active n,
              ltb→lt (length active) max_concurrent_files free,
            ) in
            rw (free, start_loop) (start_loop-bound queue first.0 first.1 few')
        | inr full ↦ rw (full, start_loop) (few, inr (ground arith))
      ]

  -- If at most three files of a peer are active, then at most three are after the scheduler, and it
  -- leaves a file in the queue only while three are active.
  pub start_queued_files-bound :
      (dl : PeerDownload) (n : Node)
      → length dl.active ≤ max_concurrent_files
      → (length (start_queued_files env peer sync_path dl n).0.active ≤ max_concurrent_files)
        × (((start_queued_files env peer sync_path dl n).0.queue ≡ [])
            ⊎ (length (start_queued_files env peer sync_path dl n).0.active ≡ max_concurrent_files))
  unfolding start_queued_files
  start_queued_files-bound dl n few = start_loop-bound dl.queue dl.active n few
