-- ===== src/Sync/Limits/Manifests.antt =====
-- src/sync/handler.rs: manifests that come in, and how many files they leave active.
use vitruvius.Base.{
  ◌≡◌, refl, sym, ap, inl, inr, Bool, true, false, ◌&&◌, Option, none, some, List, [], ◌∷◌, map,
  arith, is_empty, Bool-cases, Option-cases, length, nat_eq, list_eq, lookup, Bytes, Text,
  Result-cases,
}
use vitruvius.Base.{AllValues-insert, AllValues-lookup}
use vitruvius.Paths.{FilePath}
use vitruvius.Network.{EncryptedManifestPayload, FileEntry}
use vitruvius.Storage.{PendingFile, pending_of}
use vitruvius.Storage.Manifest.{decrypt_manifest}
use vitruvius.State.{key_for_peer}
use vitruvius.Sync.{Env, Node, PeerDownload, log, info}
use vitruvius.Sync.Limits.{FewActive, Limited, put_started-Limited}
use vitruvius.Sync.Offers.{
  or_new, queue_files, skip_file, run_queue, accept_files, accept_payload, on_encrypted_manifest,
  on_manifest,
}
use vitruvius.Fs.{Fs}
use mathlib.Core.Option.{some-injective}
use vitruvius.Sync.Offers.{enqueue}

module _ (env : Env) (peer : Text) where
  -- Queueing leaves the active files alone.
  queue_files-active :
      (fs : Fs) (path : FilePath) (vault_checked : Bool) (pfs : List PendingFile)
      (dl after : PeerDownload)
      → queue_files env peer fs path vault_checked pfs dl ≡ some after
      → after.active ≡ dl.active
  unfolding queue_files
  queue_files-active fs path vc [] dl after e = ap PeerDownload.active (some-injective _ _ (sym e))
  queue_files-active fs path vc (pf ∷ pfs) dl after e =
      elim (Option-cases (skip_file env peer fs path vc dl pf.file_name)) [
        | inl e' ↦ absurd (cc (rw (e', queue_files) at e))
        | inr (true, e') ↦ queue_files-active fs path vc pfs dl after (rw (e', queue_files) at e)
        | inr (false, e') ↦
            queue_files-active fs path vc pfs (enqueue env peer pf dl) after
              (rw (e', queue_files) at e)
      ]

  or_new-Few :
      (found : Option PeerDownload)
      → ((dl : PeerDownload) → found ≡ some dl → FewActive dl)
      → FewActive (or_new env peer found)
  or_new-Few none few = omega arith
  or_new-Few (some dl) few = few dl refl

  run_queue-Limited :
      (path : FilePath) (dl : PeerDownload) (n : Node)
      → FewActive dl
      → Limited n
      → Limited (run_queue env peer path dl n)
  unfolding run_queue
  run_queue-Limited path dl n few limited =
      elim (Bool-cases (is_empty dl.active && is_empty dl.queue)) [
        | inl e ↦ rw (e, run_queue) (AllValues-insert FewActive peer dl n.transfers few limited)
        | inr e ↦ rw (e, run_queue) (put_started-Limited env peer path dl (log info n) few limited)
      ]

  accept_files-Limited :
      (path : FilePath) (vault_checked : Bool) (pfs : List PendingFile) (n : Node)
      → Limited n
      → Limited (accept_files env peer path vault_checked pfs n)
  unfolding accept_files
  accept_files-Limited path vc pfs n limited =
      let known = or_new env peer (lookup peer n.transfers) in
      let few =
        or_new-Few (lookup peer n.transfers)
          (λ dl e. AllValues-lookup FewActive peer n.transfers dl limited e) in
      elim (Option-cases (queue_files env peer n.fs path vc pfs known)) [
        | inl e ↦ rw (e, accept_files) limited
        | inr (dl, e) ↦
            rw (e, accept_files)
              (run_queue-Limited path dl n
                (omega (arith, few, ap length (queue_files-active n.fs path vc pfs known dl e)))
                limited)
      ]

  accept_payload-Limited :
      (payload : EncryptedManifestPayload) (n : Node)
      → Limited n
      → Limited (accept_payload env peer payload n)
  unfolding accept_payload
  accept_payload-Limited payload n limited = elim (Bool-cases (is_empty payload.files)) [
    | inl e ↦ rw (e, accept_payload) limited
    | inr e ↦ elim (Option-cases n.state.sync_path) [
      | inl e' ↦ rw (e, e', accept_payload) limited
      | inr (path, e') ↦ rw (e, e', accept_payload) (accept_files-Limited path _ _ _ limited)
    ]
  ]

  pub on_encrypted_manifest-Limited :
      (ciphertext : Bytes) (n : Node)
      → Limited n
      → Limited (on_encrypted_manifest env peer ciphertext n)
  unfolding on_encrypted_manifest
  on_encrypted_manifest-Limited ciphertext n limited =
      elim (Option-cases (key_for_peer (log info n).state peer)) [
        | inl e ↦ rw (e, on_encrypted_manifest) limited
        | inr (key, e) ↦
            elim (Result-cases (decrypt_manifest env.primitives key env.codec ciphertext)) [
              | inl (payload, e') ↦
                  rw (e, e', on_encrypted_manifest) (accept_payload-Limited payload _ limited)
              | inr (x, e') ↦ rw (e, e', on_encrypted_manifest) limited
            ]
      ]

  pub on_manifest-Limited :
      (node_name : Text) (files : List FileEntry) (n : Node)
      → Limited n
      → Limited (on_manifest env peer node_name files n)
  unfolding on_manifest
  on_manifest-Limited node_name files n limited = elim (Bool-cases (is_empty files)) [
    | inl e ↦ rw (e, on_manifest) limited
    | inr e ↦ elim (Option-cases n.state.sync_path) [
      | inl e' ↦ rw (e, e', on_manifest) limited
      | inr (path, e') ↦
          rw (e, e', on_manifest) (accept_files-Limited path false (map pending_of files) _ limited)
    ]
  ]
