-- ===== src/Sync/Limits/Chunks.antt =====
-- src/sync/handler.rs: chunks that come in, and how many files they leave active.
use vitruvius.Base.{
  ℕ, inl, inr, Bool, true, false, Option, none, some, arith, ltb, Bool-cases, Option-cases, length,
  nat_eq, list_eq, lookup, insert, Bytes, Text, Result-cases,
}
use vitruvius.Base.{AllValues-insert, AllValues-lookup, length-insert_there}
use vitruvius.Paths.{FilePath}
use vitruvius.Network.{SyncMessage}
use vitruvius.Storage.{FileTransferState, total_of, verify_chunk}
use vitruvius.State.{key_for_peer}
use vitruvius.Crypto.{decrypt_with_aad, chunk_aad}
use vitruvius.Sync.{Env, Node, PeerDownload}
use vitruvius.Sync.Limits.{FewActive, Limited, write_transfer-Limited}
use vitruvius.Sync.Download.{
  put_transfer, store_chunk, check_chunk, receive_chunk, on_chunk_response, open_in_folder,
  open_chunk, decrypt_if_keyed, name_of_id, expected_hash,
}
use vitruvius.Network.{chunk_request}

module _ (env : Env) (peer : Text) where
  module _ (request : ℕ → SyncMessage) (legacy : Bool) (name : Text) (i : ℕ) (bytes : Bytes)
      (sync_path : FilePath) where
    store_chunk-Limited :
        (ts : FileTransferState) (dl : PeerDownload) (n : Node)
        → ((ts' : FileTransferState) → FewActive (put_transfer env peer name ts' dl))
        → Limited n
        → Limited (store_chunk env peer request legacy name i bytes sync_path ts dl n)
    unfolding store_chunk
    store_chunk-Limited ts dl n few limited =
        let kept = insert i bytes ts.received_chunks in
        elim (Bool-cases (ltb ts.next_request (total_of ts.metadata))) [
          | inl more ↦ elim (Bool-cases (ltb (length kept) (total_of ts.metadata))) [
            | inl waits ↦
                rw (more, waits, store_chunk)
                  (AllValues-insert FewActive peer _ n.transfers (few _) limited)
            | inr whole ↦
                rw (more, whole, store_chunk)
                  (write_transfer-Limited env peer sync_path legacy name _ _ _ (few _) limited)
          ]
          | inr last ↦ elim (Bool-cases (ltb (length kept) (total_of ts.metadata))) [
            | inl waits ↦
                rw (last, waits, store_chunk)
                  (AllValues-insert FewActive peer _ n.transfers (few _) limited)
            | inr whole ↦
                rw (last, whole, store_chunk)
                  (write_transfer-Limited env peer sync_path legacy name _ _ _ (few _) limited)
          ]
        ]

    module _ (verify : Bytes → Bytes → Bool) where
      abbrev verdict : FileTransferState → Bool
      verdict ts = elim (expected_hash env peer ts.metadata i) [
        | none ↦ false
        | some h ↦ verify bytes h
      ]

      check_chunk-Limited :
          (dl : PeerDownload) (ts : FileTransferState) (n : Node)
          → ((ts' : FileTransferState) → FewActive (put_transfer env peer name ts' dl))
          → Limited n
          → Limited (check_chunk env peer verify request legacy name i bytes sync_path dl ts n)
      unfolding check_chunk
      check_chunk-Limited dl ts n few limited = elim (Bool-cases (verdict ts)) [
        | inl good ↦ rw (good, check_chunk) (store_chunk-Limited ts dl _ few limited)
        | inr bad ↦ rw (bad, check_chunk) limited
      ]

      receive_chunk-Limited :
          (n : Node)
          → Limited n
          → Limited (receive_chunk env peer verify request legacy name i bytes sync_path n)
      unfolding receive_chunk
      receive_chunk-Limited n limited = elim (Option-cases (lookup peer n.transfers)) [
        | inl e ↦ rw (e, receive_chunk) limited
        | inr (dl, e) ↦ elim (Option-cases (lookup name dl.active)) [
          | inl e' ↦ rw (e, e', receive_chunk) limited
          | inr (ts, e') ↦
              let few = AllValues-lookup FewActive peer n.transfers dl limited e in
              rw (e, e', receive_chunk)
                (check_chunk-Limited dl ts n
                  (λ ts'. omega (arith, length-insert_there name ts' ts dl.active e')) limited)
        ]
      ]

  pub on_chunk_response-Limited :
      (name : Text) (i : ℕ) (bytes : Bytes) (n : Node)
      → Limited n
      → Limited (on_chunk_response env peer name i bytes n)
  unfolding on_chunk_response
  on_chunk_response-Limited name i bytes n limited = elim (Option-cases n.state.sync_path) [
    | inl e ↦ rw (e, on_chunk_response) limited
    | inr (path, e) ↦
        elim (Result-cases (decrypt_if_keyed env peer (key_for_peer n.state peer) bytes)) [
          | inl (plaintext, e') ↦
              rw (e, e', on_chunk_response)
                (receive_chunk-Limited (chunk_request name) true name i plaintext path
                  (verify_chunk env.primitives) n limited)
          | inr (x, e') ↦ rw (e, e', on_chunk_response) limited
        ]
  ]

  open_chunk-Limited :
      (key file_id : Bytes) (name : Text) (i : ℕ) (bytes : Bytes) (path : FilePath) (n : Node)
      → Limited n
      → Limited (open_chunk env peer key file_id name i bytes path n)
  unfolding open_chunk
  open_chunk-Limited key file_id name i bytes path n limited =
      elim (Result-cases (decrypt_with_aad env.primitives key bytes (chunk_aad file_id i))) [
        | inl (plaintext, e) ↦
            rw (e, open_chunk) (receive_chunk-Limited _ false name i plaintext path _ n limited)
        | inr (x, e) ↦ rw (e, open_chunk) limited
      ]

  pub open_in_folder-Limited :
      (folder : Option FilePath) (file_id : Bytes) (i : ℕ) (bytes : Bytes) (n : Node)
      → Limited n
      → Limited (open_in_folder env peer folder file_id i bytes n)
  unfolding open_in_folder
  open_in_folder-Limited none file_id i bytes n limited = limited
  open_in_folder-Limited (some path) file_id i bytes n limited =
      elim (Option-cases (key_for_peer n.state peer)) [
        | inl e ↦ rw (e, open_in_folder) limited
        | inr (key, e) ↦
            elim (Option-cases
              (name_of_id env peer file_id (lookup peer n.state.inbound_file_ids))) [
                | inl e' ↦ rw (e, e', open_in_folder) limited
                | inr (name, e') ↦
                    rw (e, e', open_in_folder)
                      (open_chunk-Limited key file_id name i bytes path n limited)
              ]
      ]
