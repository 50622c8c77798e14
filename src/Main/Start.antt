-- ===== src/Main/Start.antt =====
-- src/main.rs: what happens between the command line and the event loop. `panicked` marks an
-- `expect` that fails.
use vitruvius.Base.{
  ℕ, Bool, true, false, ◌||◌, Option, none, some, [], ◌∷◌, if◌then◌else◌, is_some, nat_eq, list_eq,
  Bytes, Text, Result, ok, err, ◌>>=◌ as bind,
}
use vitruvius.Paths.{FilePath, parent, push}
use vitruvius.Fs.{Fs, Io, pure, lift, ◌>>=◌, ◌>>◌, ignore, create_dir_all, exists}
use vitruvius.Crypto.{Draw}
use vitruvius.State.{AppState, new_state}
use vitruvius.Sync.{Env}
use vitruvius.Sync.Commands.{path_of, generate_key, load_key}
use vitruvius.Identity.{vitruvius_path}
use vitruvius.Storage.Import.{import_plaintext_dir_into_vault}
use vitruvius.Vault.Export.{vault_export_to_plaintext}
use vitruvius.Main.Args.{Settings}
use vitruvius.Base.{panicked}

-- How the start ends: a subcommand has run, or the daemon begins with this state.
pub data Outcome : Type 0 where
  key_generated : Outcome
  imported : ℕ → Outcome
  exported : ℕ → Outcome
  daemon : AppState → Outcome

-- "vault.key"
abbrev pub vault_key_file : Text
vault_key_file = 118 ∷ 97 ∷ 117 ∷ 108 ∷ 116 ∷ 46 ∷ 107 ∷ 101 ∷ 121 ∷ []

module _ (env : Env) where
  abbrev pub default_vault_key_path : FilePath
  default_vault_key_path = push (vitruvius_path env.home_dir env.current_dir) vault_key_file

  abbrev pub given_path : Option Text → FilePath
  given_path none = default_vault_key_path
  given_path (some text) = path_of env.current_dir text

  abbrev pub make_parent : Option FilePath → Io (Unit {0})
  make_parent none = pure tt
  make_parent (some p) = ignore (create_dir_all p)

  -- The vault key: one is made if there is none.
  unfoldable pub vault_key_at : FilePath → Draw → Io Bytes
  vault_key_at path rng fs =
      let made = (make_parent (parent path) >> generate_key rng path) fs in
      let kept = if exists fs path then (ok tt, fs) else made in
      ((λ _. kept) >> λ after. (load_key path after, after)) fs

  unfoldable pub needs_vault_key : Settings → Bool
  needs_vault_key s = s.vault_mode || is_some s.import_args || is_some s.export_args

  abbrev pub transport_key : Option Text → Fs → Result (Option Bytes)
  transport_key none fs = ok none
  transport_key (some text) fs =
      bind (load_key (path_of env.current_dir text) fs) λ key. ok (some key)

  abbrev some_key : Io Bytes → Io (Option Bytes)
  some_key m = m >>= λ key. pure (some key)

  abbrev pub vault_key_for : Bool → Settings → Io (Option Bytes)
  vault_key_for true s = some_key (vault_key_at (given_path s.vault_key_path) (env.rng 0 32))
  vault_key_for false s = pure none

  -- `import` before `export` before the daemon.
  module _ (uuids : ℕ → Draw) (nonces : ℕ → ℕ → Draw) (node_name : Text) where
    abbrev pub initial_state : Settings → Option Bytes → Option Bytes → AppState
    initial_state s encryption_key vault_key = record (new_state node_name) {
      encryption_key = encryption_key;
      shared_key_from_cli = is_some s.key_path;
      vault_key = vault_key;
      vault_mode = s.vault_mode;
      encrypted_protocol = s.encrypted_protocol;
    }

    abbrev pub subcommand :
        Settings
        → Option Bytes
        → Option Bytes
        → Option (Text × Text)
        → Option (Text × Text)
        → Io Outcome
    subcommand s encryption_key none (some dirs) exports = lift (err panicked)
    subcommand s encryption_key (some key) (some (src, dst)) exports =
        import_plaintext_dir_into_vault env.primitives key uuids nonces
          (path_of env.current_dir src) (path_of env.current_dir dst)
        >>= λ n. pure (imported n)
    subcommand s encryption_key none none (some files) = lift (err panicked)
    subcommand s encryption_key (some key) none (some (src, dst)) =
        vault_export_to_plaintext env.primitives (path_of env.current_dir src) key
          (path_of env.current_dir dst)
        >>= λ n. pure (exported n)
    subcommand s encryption_key vault_key none none =
        pure (daemon (initial_state s encryption_key vault_key))

    unfoldable pub start_with_keys : Settings → Io Outcome
    start_with_keys s = do
      encryption_key ← λ fs. (transport_key s.key_path fs, fs)
      vault_key ← vault_key_for (needs_vault_key s) s
      subcommand s encryption_key vault_key s.import_args s.export_args

    abbrev pub generate_or_start : Settings → Option Text → Io Outcome
    generate_or_start s (some text) =
        generate_key (env.rng 0 32) (path_of env.current_dir text) >> pure key_generated
    generate_or_start s none = start_with_keys s

    -- The program up to its event loop, on the settings of the command line.
    unfoldable pub start : Settings → Io Outcome
    start s = generate_or_start s s.generate_key_path
