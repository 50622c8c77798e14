-- ===== src/Sync/Idle/Commands.antt =====
-- src/sync/handler.rs: the user's commands, which leave the running downloads as they are.
use vitruvius.Base.{
  is_empty, Bool-cases, ℕ, refl, inl, inr, Bool, not, ◌&&◌, Option, none, some, List, [], ◌∷◌,
  arith, is_some, Bool-cases, Option-cases, nat_eq, list_eq, Bytes, Text, Result, ok, err,
}
use vitruvius.Paths.{FilePath}
use vitruvius.Fs.{Fs, exists}
use vitruvius.Sync.{Env, Node, set_peer_key}
use vitruvius.Sync.Idle.{Idle}
use vitruvius.Sync.Offers.{broadcast_status}
use vitruvius.Sync.Commands.{
  GuiCommand, set_folder, dial_peer, request_sync, disconnect, approve_peer, deny_peer,
  decrypt_file, revoke_key, set_vault_mode, on_command, on_approve, with_pending, on_deny,
  announce_all, use_folder, open_folder, on_set_folder, dial_at, on_dial, on_request_sync,
  on_disconnect, on_revoke_key, on_set_vault_mode, use_new_key, after_generate, after_export,
  export_from, decrypt_in, on_decrypt_file, canonicalize, vault_key_path, load_key,
}

module _ (env : Env) where
  with_pending-Idle :
      (peer : Text) (waiting : Option Bytes) (n : Node) → Idle n (with_pending env peer waiting n)
  unfolding set_peer_key
  with_pending-Idle peer none n = refl
  with_pending-Idle peer (some key) n = refl

  on_approve-Idle : (peer : Text) (n : Node) → Idle n (on_approve env peer n)
  unfolding on_approve broadcast_status
  on_approve-Idle peer n = elim (Bool-cases (env.parses_peer_id peer)) [
    | inl parses ↦ rw (parses, on_approve, broadcast_status) (with_pending-Idle peer _ _)
    | inr fails ↦ rw (fails, on_approve, broadcast_status)
  ]

  on_deny-Idle : (peer : Text) (n : Node) → Idle n (on_deny env peer n)
  unfolding on_deny
  on_deny-Idle peer n = ground arith

  announce_all-Idle :
      (name : Text) (peers : List Text) (n : Node) → Idle n (announce_all env name peers n)
  unfolding announce_all
  announce_all-Idle name [] n = refl
  announce_all-Idle name (peer ∷ peers) n = announce_all-Idle name peers _

  use_folder-Idle : (name : Text) (abs : FilePath) (n : Node) → Idle n (use_folder env name abs n)
  unfolding use_folder
  use_folder-Idle name abs n = announce_all-Idle name n.state.connected_peers _

  open_folder-Idle :
      (name : Text) (p : FilePath) (r : Result (Unit {0}) × Fs) (n : Node)
      → Idle n (open_folder env name p r n)
  open_folder-Idle name p (err e, fs) n = refl
  open_folder-Idle name p (ok u, fs) n = elim (Option-cases (canonicalize env fs p)) [
    | inl e ↦ rw (e, open_folder)
    | inr (abs, e) ↦ rw (e, open_folder) (use_folder-Idle name abs _)
  ]

  dial_at-Idle : (addr : Option Text) (n : Node) → Idle n (dial_at env addr n)
  dial_at-Idle none n = refl
  dial_at-Idle (some addr) n = ground arith

  on_revoke_key-Idle : (peer : Text) (n : Node) → Idle n (on_revoke_key env peer n)
  unfolding on_revoke_key
  on_revoke_key-Idle peer n = ground arith

  use_new_key-Idle : (r : Result Bytes) (n : Node) → Idle n (use_new_key env r n)
  use_new_key-Idle (err e) n = refl
  use_new_key-Idle (ok key) n = refl

  after_generate-Idle : (r : Result (Unit {0}) × Fs) (n : Node) → Idle n (after_generate env r n)
  after_generate-Idle (err e, fs) n = refl
  after_generate-Idle (ok u, fs) n = use_new_key-Idle (load_key (vault_key_path env) fs) _

  on_set_vault_mode-Idle : (enabled : Bool) (n : Node) → Idle n (on_set_vault_mode env enabled n)
  unfolding on_set_vault_mode
  on_set_vault_mode-Idle enabled n =
      elim (Bool-cases (enabled && not (is_some n.state.vault_key))) [
        | inl e ↦ rw (e, on_set_vault_mode) (after_generate-Idle _ _)
        | inr e ↦ rw (e, on_set_vault_mode)
      ]

  after_export-Idle :
      (name dest : Text) (r : Result ℕ × Fs) (n : Node) → Idle n (after_export env name dest r n)
  after_export-Idle name dest (ok size, fs) n = refl
  after_export-Idle name dest (err e, fs) n = refl

  export_from-Idle :
      (name dest : Text) (key : Bytes) (path : Option FilePath) (n : Node)
      → Idle n (export_from env name dest key path n)
  export_from-Idle name dest key none n = refl
  export_from-Idle name dest key (some path) n = elim (Bool-cases (exists n.fs path)) [
    | inl e ↦ rw e (after_export-Idle name dest _ n)
    | inr e ↦ rw e
  ]

  decrypt_in-Idle :
      (name dest : Text) (key : Option Bytes) (folder : Option FilePath) (n : Node)
      → Idle n (decrypt_in env name dest key folder n)
  decrypt_in-Idle name dest none folder n = refl
  decrypt_in-Idle name dest (some key) none n = refl
  decrypt_in-Idle name dest (some key) (some folder) n = export_from-Idle name dest key _ n

  pub on_command-Idle :
      (name : Text) (cmd : GuiCommand) (n : Node) → Idle n (on_command env name cmd n)
  unfolding on_command on_set_folder on_dial on_request_sync on_disconnect on_decrypt_file
  on_command-Idle name (set_folder path) n = elim (Bool-cases (is_empty path)) [
    | inl nothing ↦ rw (nothing, on_set_folder) refl
    | inr some_path ↦ rw (some_path, on_set_folder) (open_folder-Idle name _ _ n)
  ]
  on_command-Idle name (dial_peer peer addr) n = dial_at-Idle _ n
  on_command-Idle name (request_sync peer) n = ground arith
  on_command-Idle name (disconnect peer) n = ground arith
  on_command-Idle name (approve_peer peer) n = on_approve-Idle peer n
  on_command-Idle name (deny_peer peer) n = on_deny-Idle peer n
  on_command-Idle name (decrypt_file file dest) n = decrypt_in-Idle file dest _ _ n
  on_command-Idle name (revoke_key peer) n = on_revoke_key-Idle peer n
  on_command-Idle name (set_vault_mode enabled) n = on_set_vault_mode-Idle enabled n
