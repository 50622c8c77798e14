-- ===== src/Sync/Commands.antt =====
-- src/sync/handler.rs: `on_command`, and from src/crypto.rs the key file that it makes.
use vitruvius.Base.{
  is_empty, ℕ, suc, Bool, true, not, ◌&&◌, Option, none, some, List, [], ◌∷◌, ◌++◌, Bytes, Text,
  map, is_some, lookup, remove, add, nat_eq, list_eq, if◌then◌else◌, Result, ok, err, ◌>>=◌ as bind,
  rng_failed,
}
use vitruvius.Paths.{FilePath, slash, starts_with, parent, push, rel_to_abs, rel_to_vault_abs}
use vitruvius.Fs.{
  Fs, Io, lift, ◌>>=◌, create, write_all, create_dir_all, exists, resolve, read_file,
}
use vitruvius.Crypto.{Draw, key_of_bytes}
use vitruvius.Vault.Export.{vault_export_to_plaintext}
use vitruvius.Network.{folder_announcement, manifest_request, key_exchange_accept}
use vitruvius.State.{derive_shared_key, is_encrypted, list_trusted_peers, revoke_peer_key}
use vitruvius.Storage.{FileMetadata}
use vitruvius.Storage.Listing.{list_folder_all}
use vitruvius.Sync.{
  Env, Node, GuiFileInfo, folder_listing, peer_key_revoked, trusted_peers, vault_mode_changed,
  decrypt_complete, ok_level, info, warn, error_level, ◌▸◌, send_request, emit, log, with_state,
  set_peer_key,
}
use vitruvius.Sync.Upload.{drawn, our_secret}
use vitruvius.Sync.Offers.{broadcast_status}

pub data GuiCommand : Type 0 where
  set_folder : Text → GuiCommand
  dial_peer : Text → Option Text → GuiCommand
  request_sync : Text → GuiCommand
  disconnect : Text → GuiCommand
  approve_peer : Text → GuiCommand
  deny_peer : Text → GuiCommand
  decrypt_file : Text → Text → GuiCommand
  revoke_key : Text → GuiCommand
  set_vault_mode : Bool → GuiCommand

-- `PathBuf::from(text)`, below the current directory if it is relative. An empty text is the current
-- directory here; the system calls fail on it, which `on_set_folder` writes out.
unfoldable pub path_of : FilePath → Text → FilePath
path_of current_dir text =
    rel_to_abs (if starts_with (slash ∷ []) text then [] else current_dir) text

-- `generate_key`: 32 random bytes are written to the file.
unfoldable pub generate_key : Draw → FilePath → Io (Unit {0})
generate_key none path = lift (err rng_failed)
generate_key (some key) path = create path >>= λ f. write_all f key

unfoldable pub load_key : FilePath → Fs → Result Bytes
load_key path fs = bind (read_file fs path) key_of_bytes

abbrev pub file_info : FileMetadata → GuiFileInfo
file_info m = record {
  name = m.file_name;
  size = m.file_size;
  chunks = m.total_chunks;
  is_vault = m.is_vault;
}

module _ (env : Env) where
  abbrev pub with_pending : Text → Option Bytes → Node → Node
  with_pending peer none n = log warn n
  with_pending peer (some their_public) n =
      let secret = our_secret env peer n in
      n
      ▸ drawn env peer
      ▸ set_peer_key env peer (derive_shared_key env.primitives secret their_public)
      ▸ send_request peer (key_exchange_accept (env.primitives.public_key secret))
      ▸ log ok_level

  -- The user approves what waits, and only that; the security status is shown in any case.
  unfoldable pub on_approve : Text → Node → Node
  on_approve peer n =
      let removed =
        with_state (λ st. record st { pending_approvals = remove peer st.pending_approvals }) n in
      broadcast_status env (
        if env.parses_peer_id peer
        then with_pending peer (lookup peer n.state.pending_approvals) removed
        else n)

  abbrev pub hang_up : Text → Node → Node
  hang_up peer n = record n { disconnects = n.disconnects ++ peer ∷ [] }

  unfoldable pub on_deny : Text → Node → Node
  on_deny peer n =
      if env.parses_peer_id peer
      then n
        ▸ with_state (λ st. record st { pending_approvals = remove peer st.pending_approvals })
        ▸ log warn
        ▸ hang_up peer
      else n

  -- The folder is announced to a peer, and its manifest asked for.
  unfoldable pub announce_all : Text → List Text → Node → Node
  announce_all node_name [] n = n
  announce_all node_name (peer ∷ peers) n =
      n
      ▸ with_state (λ st. record st { announced_to = add peer st.announced_to })
      ▸ send_request peer (folder_announcement node_name)
      ▸ send_request peer manifest_request
      ▸ log info
      ▸ announce_all node_name peers

  -- The folder is there.
  unfoldable pub use_folder : Text → FilePath → Node → Node
  use_folder node_name abs n =
      let told =
        record n { watched = n.watched ++ abs ∷ [] }
        ▸ log (if is_encrypted n.state then ok_level else warn)
        ▸ emit (folder_listing (map file_info (list_folder_all env.primitives n.fs abs)))
        ▸ log ok_level
        ▸ with_state (λ st. record st { sync_path = some abs; announced_to = [] }) in
      announce_all node_name n.state.connected_peers told

  -- `fs::canonicalize`
  abbrev pub canonicalize : Fs → FilePath → Option FilePath
  canonicalize fs p = if exists fs p then resolve fs p else none

  abbrev pub open_folder : Text → FilePath → Result (Unit {0}) × Fs → Node → Node
  open_folder node_name p (err e, fs) n = log error_level (record n { fs = fs })
  open_folder node_name p (ok _, fs) n = elim (canonicalize fs p) [
    | none ↦ log error_level (record n { fs = fs })
    | some abs ↦ use_folder node_name abs (record n { fs = fs })
  ]

  -- An empty path does not exist, `create_dir_all` does nothing for it, and `canonicalize` fails.
  unfoldable pub on_set_folder : Text → Text → Node → Node
  on_set_folder node_name path n =
      let p = path_of env.current_dir path in
      let opened =
        open_folder node_name p (if exists n.fs p then (ok tt, n.fs) else create_dir_all p n.fs)
          n in
      if is_empty path then log error_level n else opened

  abbrev pub dial_at : Option Text → Node → Node
  dial_at none n = log warn n
  dial_at (some addr) n =
      let dialing = log info (record n { dialed = n.dialed ++ addr ∷ [] }) in
      if not (env.parses_addr addr)
      then log error_level n
      else if env.dials addr
      then dialing
      else log error_level dialing

  -- `addr.or_else(|| known_addrs.get(&peer_id))`
  abbrev pub or_known : Option Text → Option Text → Option Text
  or_known (some addr) known = some addr
  or_known none known = known

  unfoldable pub on_dial : Text → Option Text → Node → Node
  on_dial peer addr n = dial_at (or_known addr (lookup peer n.state.known_addrs)) n

  unfoldable pub on_request_sync : Text → Node → Node
  on_request_sync peer n =
      if env.parses_peer_id peer then n ▸ log info ▸ send_request peer manifest_request else n

  unfoldable pub on_disconnect : Text → Node → Node
  on_disconnect peer n = if env.parses_peer_id peer then hang_up peer n else n

  -- The key leaves the store and then the state; if the store cannot be written, both stay.
  unfoldable pub on_revoke_key : Text → Node → Node
  on_revoke_key peer n =
      let r = revoke_peer_key env.store_writable peer n.store in
      let forgotten =
        record n { store = r.1 }
        ▸ with_state (λ st. record st { peer_keys = remove peer st.peer_keys })
        ▸ log warn
        ▸ emit (peer_key_revoked peer)
        ▸ emit (trusted_peers (list_trusted_peers r.1)) in
      if env.parses_peer_id peer
      then (if r.0 then forgotten else log error_level (record n { store = r.1 }))
      else n

  abbrev pub set_mode : Bool → Node → Node
  set_mode enabled n =
      n
      ▸ with_state (λ st. record st { vault_mode = enabled })
      ▸ log ok_level
      ▸ emit (vault_mode_changed enabled)

  -- "vault.key" in ".vitruvius" below the home directory
  abbrev pub vault_key_path : FilePath
  vault_key_path =
      push (push (elim env.home_dir [ none ↦ env.current_dir | some h ↦ h ]) dot_vitruvius)
        vault_key_name
    where
      dot_vitruvius : Text
      dot_vitruvius = 46 ∷ 118 ∷ 105 ∷ 116 ∷ 114 ∷ 117 ∷ 118 ∷ 105 ∷ 117 ∷ 115 ∷ []

      vault_key_name : Text
      vault_key_name = 118 ∷ 97 ∷ 117 ∷ 108 ∷ 116 ∷ 46 ∷ 107 ∷ 101 ∷ 121 ∷ []

  abbrev pub use_new_key : Result Bytes → Node → Node
  use_new_key (err e) n = log error_level n
  use_new_key (ok key) n =
      n ▸ with_state (λ st. record st { vault_key = some key }) ▸ log ok_level ▸ set_mode true

  abbrev pub after_generate : Result (Unit {0}) × Fs → Node → Node
  after_generate (err e, fs) n = log error_level (record n { fs = fs })
  after_generate (ok _, fs) n = use_new_key (load_key vault_key_path fs) (record n { fs = fs })

  -- Vault mode needs a key: one is made if there is none.
  unfoldable pub on_set_vault_mode : Bool → Node → Node
  on_set_vault_mode enabled n =
      let fs = (create_dir_all (elim (parent vault_key_path) [ none ↦ [] | some p ↦ p ]) n.fs).1 in
      let made =
        after_generate (generate_key (env.rng n.draws 32) vault_key_path fs)
          (record n { draws = suc n.draws }) in
      if enabled && not (is_some n.state.vault_key) then made else set_mode enabled n

  abbrev pub after_export : Text → Text → Result ℕ × Fs → Node → Node
  after_export name dest (ok size, fs) n =
      record n { fs = fs } ▸ log ok_level ▸ emit (decrypt_complete name dest size)
  after_export name dest (err e, fs) n = log error_level (record n { fs = fs })

  abbrev pub export_from : Text → Text → Bytes → Option FilePath → Node → Node
  export_from name dest key none n = record n { crashed = true }
  export_from name dest key (some vault_path) n =
      let r =
        vault_export_to_plaintext env.primitives vault_path key (path_of env.current_dir dest)
          n.fs in
      if exists n.fs vault_path then after_export name dest r n else log error_level n

  abbrev pub decrypt_in : Text → Text → Option Bytes → Option FilePath → Node → Node
  decrypt_in name dest none folder n = log error_level n
  decrypt_in name dest (some key) none n = log error_level n
  decrypt_in name dest (some key) (some folder) n =
      export_from name dest key (rel_to_vault_abs folder name) n

  unfoldable pub on_decrypt_file : Text → Text → Node → Node
  on_decrypt_file name dest n = decrypt_in name dest n.state.vault_key n.state.sync_path n

  unfoldable pub on_command : Text → GuiCommand → Node → Node
  on_command node_name (approve_peer peer) n = on_approve peer n
  on_command node_name (deny_peer peer) n = on_deny peer n
  on_command node_name (set_folder path) n = on_set_folder node_name path n
  on_command node_name (dial_peer peer addr) n = on_dial peer addr n
  on_command node_name (request_sync peer) n = on_request_sync peer n
  on_command node_name (disconnect peer) n = on_disconnect peer n
  on_command node_name (revoke_key peer) n = on_revoke_key peer n
  on_command node_name (set_vault_mode enabled) n = on_set_vault_mode enabled n
  on_command node_name (decrypt_file name dest) n = on_decrypt_file name dest n
