-- ===== src/Sync/Keeping.antt =====
-- src/sync/handler.rs: what a transfer keeps of the chunks that `on_response` receives.
use vitruvius.Base.{
  ℕ, ◌≡◌, refl, sym, ap, ◌∙◌, ◌⊎◌, inl, inr, Bool, true, false, some, Bytes, Text, lookup, insert,
  lookup-insert, lookup-insert_self, nat_eq, list_eq, Bool-cases, ◌==◌, eq_of_==, ltb, length,
  if◌then◌else◌, ◌+◌,
}
use vitruvius.Paths.{FilePath}
use vitruvius.Network.{SyncMessage}
use vitruvius.Storage.{FileTransferState, total_of}
use vitruvius.Sync.{Env, Node, PeerDownload, send_request, emit, log, info, chunk_received, ◌▸◌}
use vitruvius.Sync.Download.{expected_hash, put_transfer, store_chunk, check_chunk, write_transfer}
use vitruvius.Sync.Rejection.{Untouched, Verified, Verified-cases}

module _ (env : Env) (peer : Text) (verify : Bytes → Bytes → Bool) (request : ℕ → SyncMessage)
    (legacy : Bool) (file_name : Text) (chunk_index : ℕ) (plaintext : Bytes)
    (sync_path : FilePath) where
  -- Every chunk that a transfer keeps passed the test against the hash at its position.
  abbrev pub Trusted : FileTransferState → Type 0
  Trusted ts =
      (i : ℕ) (d : Bytes)
      → lookup i ts.received_chunks ≡ some d
      → (h : Bytes) × (expected_hash env peer ts.metadata i ≡ some h) × (verify d h ≡ true)

  insert-Trusted :
      (ts ts1 : FileTransferState)
      → ts1.metadata ≡ ts.metadata
      → ts1.received_chunks ≡ insert chunk_index plaintext ts.received_chunks
      → Trusted ts
      → Verified env peer verify request legacy file_name chunk_index plaintext sync_path ts
      → Trusted ts1
  insert-Trusted ts ts1 same_meta added trusted (h, expected, good) i d found =
      let found' : (if chunk_index == i then some plaintext else lookup i ts.received_chunks)
          ≡ some d =
        sym (lookup-insert i chunk_index plaintext ts.received_chunks)
        ∙ ap (lookup i) (sym added)
        ∙ found in
      elim (Bool-cases (chunk_index == i)) [
        | inl same ↦
            let at : chunk_index ≡ i = eq_of_== chunk_index i same in
            let is_d : plaintext ≡ d = cc (rw same at found') in
            (h, rw same_meta (rw at at expected), rw (← is_d) good)
        | inr differ ↦ rw same_meta (trusted i d (rw differ at found'))
      ]

  -- The chunk is kept in a transfer that is still running, with the disk as it was, or the file is
  -- written from the transfer.
  abbrev pub Kept : PeerDownload → Node → Node → FileTransferState → Type 0
  Kept dl before after ts1 =
      ((after.transfers ≡ insert peer (put_transfer env peer file_name ts1 dl) before.transfers)
        × (after.fs ≡ before.fs))
      ⊎ ((n1 : Node) × (after
            ≡ write_transfer env peer legacy file_name sync_path ts1
                (put_transfer env peer file_name ts1 dl) n1))

  -- The transfer with the chunk in it.
  abbrev with_chunk : FileTransferState → Node → FileTransferState
  with_chunk ts n = record ts {
    received_chunks = insert chunk_index plaintext ts.received_chunks;
    last_activity = n.now;
    next_request =
        if ltb ts.next_request (total_of ts.metadata) then ts.next_request + 1 else ts.next_request;
  }

  send_if-same :
      (b : Bool) (msg : SyncMessage) (n : Node)
      → ((if b then send_request peer msg n else n).transfers ≡ n.transfers)
        × ((if b then send_request peer msg n else n).fs ≡ n.fs)
  send_if-same true msg n = (refl, refl)
  send_if-same false msg n = (refl, refl)

  store_chunk-Kept :
      (dl : PeerDownload) (ts : FileTransferState) (n : Node)
      → Kept dl n
          (store_chunk env peer request legacy file_name chunk_index plaintext sync_path ts dl n)
          (with_chunk ts n)
  unfolding store_chunk
  store_chunk-Kept dl ts n =
      let (same_transfers, same_fs) =
        send_if-same (ltb ts.next_request (total_of ts.metadata)) (request ts.next_request) n in
      elim (Bool-cases
        (ltb (length (insert chunk_index plaintext ts.received_chunks)) (total_of ts.metadata))) [
          | inl partial ↦
              inl (rw (partial, store_chunk) (ap (insert peer _) same_transfers, same_fs))
          | inr full ↦ inr (
            (if ltb ts.next_request (total_of ts.metadata)
                  then send_request peer (request ts.next_request) n
                  else n)
                ▸ log info,
            rw (full, store_chunk) refl,
          )
        ]

  -- If every chunk that a transfer keeps has passed the check against the manifest, then so it is
  -- after another chunk has come: either nothing was kept of that chunk, or the transfer that is
  -- kept, or that the file is written from, holds the chunk at its position, and all its chunks
  -- have passed.
  pub check_chunk-Trusted :
      (dl : PeerDownload) (ts : FileTransferState) (n : Node)
      → Trusted ts
      → Untouched n (
          check_chunk env peer verify request legacy file_name chunk_index plaintext sync_path dl ts
            n)
        ⊎ ((ts1 : FileTransferState) × Trusted ts1
            × (lookup chunk_index ts1.received_chunks ≡ some plaintext)
            × Kept dl n
                (check_chunk env peer verify request legacy file_name chunk_index plaintext
                  sync_path dl ts n)
                ts1)
  unfolding check_chunk
  check_chunk-Trusted dl ts n trusted =
      elim (Verified-cases env peer verify request legacy file_name chunk_index plaintext sync_path
        ts (expected_hash env peer ts.metadata chunk_index) refl) [
          | inr bad ↦ inl (rw (bad, check_chunk) (refl, refl, refl))
          | inl (h, expected, good) ↦
              let n1 =
                emit (chunk_received peer file_name chunk_index (total_of ts.metadata) true) n in
              inr (
                with_chunk ts n1,
                insert-Trusted ts (with_chunk ts n1) refl refl trusted (h, expected, good),
                lookup-insert_self chunk_index plaintext ts.received_chunks,
                rw (expected, good, check_chunk) (store_chunk-Kept dl ts n1),
              )
        ]
