-- ===== src/Main/Restart.antt =====
-- src/main.rs: the vault key across two starts.
use vitruvius.Base.{
  ℕ, ◌≡◌, refl, sym, ap, subst, ◌∙◌, inl, inr, Bool, true, false, Option, none, some, Bool-cases,
  nat_eq, list_eq, Bytes, Text, Result, ok, err,
}
use vitruvius.Paths.{FilePath, parent}
use vitruvius.Fs.{Fs, pure, ◌>>=◌, ◌>>◌, exists}
use vitruvius.Fs.Actions.{>>=-eq-ok}
use vitruvius.Fs.Written.{Written, write-Written, exists-Written}
use vitruvius.Crypto.{Draw}
use vitruvius.Sync.{Env}
use vitruvius.Storage.Import.{import_plaintext_dir_into_vault}
use vitruvius.Vault.Export.{vault_export_to_plaintext}
use vitruvius.Sync.Commands.{path_of, generate_key, load_key}
use vitruvius.State.{AppState}
use vitruvius.Main.Args.{Settings}
use vitruvius.Main.Start.{
  start, start_with_keys, subcommand, vault_key_for, given_path, needs_vault_key, transport_key,
  Outcome, daemon, imported, exported, key_generated, generate_or_start, vault_key_at, make_parent,
}
use mathlib.Core.Bool.{true≢false}

-- A key file that has been made is there, with the key that was drawn.
generate_key-Written :
    (rng : Draw) (path : FilePath) (before after : Fs)
    → generate_key rng path before ≡ (ok tt, after)
    → (key : Bytes) × (rng ≡ some key) × Written path key before after
unfolding generate_key
generate_key-Written none path before after e = cc
generate_key-Written (some key) path before after e =
    (key, refl, write-Written path key before after e)

-- The same program with other random bytes.
abbrev pub redrawn : Env → (ℕ → ℕ → Draw) → Env
redrawn env rng = record env { rng = rng }

module _ (env env' : Env) (path : FilePath) (rng rng' : Draw) where
  load_again :
      (key : Bytes) (fs : Fs)
      → exists fs path ≡ true
      → load_key path fs ≡ ok key
      → vault_key_at env' path rng' fs ≡ (ok key, fs)
  unfolding vault_key_at
  load_again key fs there loaded = rw (there, vault_key_at) (rw (loaded, vault_key_at))

  -- Once a start has found or made a vault key, a later start on the disk that it left, whatever it
  -- draws, finds the same key and changes nothing; and a key file that is there stays as it is.
  pub vault_key_at-again :
      (key : Bytes) (before after : Fs)
      → vault_key_at env path rng before ≡ (ok key, after)
      → (vault_key_at env' path rng' after ≡ (ok key, after))
        × (exists before path ≡ true → after ≡ before)
  unfolding vault_key_at
  vault_key_at-again key before after e = elim (Bool-cases (exists before path)) [
    | inl there ↦
        let loaded = rw (there, vault_key_at) at e in
        let same : after ≡ before = ap (λ (r : Result Bytes × Fs). r.1) (sym loaded) in
        let run = load_again key before there (ap (λ (r : Result Bytes × Fs). r.0) loaded) in
        (subst (λ f. vault_key_at env' path rng' f ≡ (ok key, f)) (sym same) run, λ _. same)
    | inr missing ↦
        let (u, made, loaded) =
          >>=-eq-ok (λ (_ : Unit {0}) after. (load_key path after, after))
            (make_parent env (parent path) >> generate_key rng path) before
            (rw (missing, vault_key_at) at e) in
        let mid = ((make_parent env (parent path) >> generate_key rng path) before).1 in
        let (_, _, generated) =
          >>=-eq-ok (λ (_ : Unit {0}). generate_key rng path) (make_parent env (parent path)) before
            (ap (λ (r : Result (Unit {0})). (r, mid)) made) in
        let (_, _, w) = generate_key-Written rng path _ mid generated in
        let same : after ≡ mid = ap (λ (r : Result Bytes × Fs). r.1) (sym loaded) in
        let run =
          load_again key mid (exists-Written w) (ap (λ (r : Result Bytes × Fs). r.0) loaded) in
        (
          subst (λ f. vault_key_at env' path rng' f ≡ (ok key, f)) (sym same) run,
          λ there. absurd (cc),
        )
  ]

abbrev is_daemon : Outcome → Bool
is_daemon (daemon st) = true
is_daemon _ = false

abbrev daemon_in : Result Outcome → Bool
daemon_in (ok o) = is_daemon o
daemon_in (err e) = false

module _ (env : Env) (rng' : ℕ → ℕ → Draw) (uuids uuids' : ℕ → Draw) (nonces nonces' : ℕ → ℕ → Draw)
    (node_name : Text) where
  vault_key_for-again :
      (needed : Bool) (s : Settings) (vault_key : Option Bytes) (before after : Fs)
      → vault_key_for env needed s before ≡ (ok vault_key, after)
      → vault_key_for (redrawn env rng') needed s after ≡ (ok vault_key, after)
  vault_key_for-again false s vault_key before after e =
      ap (λ (r : Result (Option Bytes) × Fs). (r.0, after)) e
  vault_key_for-again true s vault_key before after e =
      let path = given_path env s.vault_key_path in
      let rng = env.rng 0 32 in
      let (key, loaded, last) =
        >>=-eq-ok (λ (k : Bytes). pure (some k)) (vault_key_at env path rng) before e in
      let mid = (vault_key_at env path rng before).1 in
      let again =
        (vault_key_at-again env (redrawn env rng') path rng (rng' 0 32) key before mid
          (ap (λ (r : Result Bytes). (r, mid)) loaded)).0 in
      let run : vault_key_for (redrawn env rng') true s mid ≡ (ok (some key), mid) =
        rw (again, ◌>>=◌) in
      subst (λ f. vault_key_for (redrawn env rng') true s f ≡ (ok vault_key, f))
        (ap (λ (r : Result (Option Bytes) × Fs). r.1) last)
        (run ∙ ap (λ (r : Result (Option Bytes) × Fs). (r.0, mid)) last)

  no_daemon :
      (o : Outcome)
      → is_daemon o ≡ false
      → (st : AppState) (fs after : Fs) → pure o fs ≡ (ok (daemon st), after)
      → true ≡ false
  no_daemon o other st fs after e = ap (λ (r : Result Outcome × Fs). daemon_in r.0) (sym e) ∙ other

  -- The daemon begins only where there is no subcommand, and then without touching the disk.
  subcommand-daemon :
      (s : Settings) (encryption_key vault_key : Option Bytes)
      (imports exports : Option (Text × Text)) (st : AppState) (before after : Fs)
      → subcommand env uuids nonces node_name s encryption_key vault_key imports exports before
        ≡ (ok (daemon st), after)
      → (after ≡ before)
        × ((fs : Fs)
            → subcommand
                (redrawn env rng')
                uuids'
                nonces'
                node_name
                s
                encryption_key
                vault_key
                imports
                exports
                fs
              ≡ (ok (daemon st), fs))
  subcommand-daemon s ek none (some dirs) exports st before after e = cc
  subcommand-daemon s ek (some key) (some (src, dst)) exports st before after e =
      let (n, _, last) =
        >>=-eq-ok (λ (n : ℕ). pure (imported n))
          (import_plaintext_dir_into_vault env.primitives key uuids nonces
            (path_of env.current_dir src) (path_of env.current_dir dst))
          before e in
      absurd (true≢false (no_daemon (imported n) refl st _ after last))
  subcommand-daemon s ek none none (some files) st before after e = cc
  subcommand-daemon s ek (some key) none (some (src, dst)) st before after e =
      let (n, _, last) =
        >>=-eq-ok (λ (n : ℕ). pure (exported n))
          (vault_export_to_plaintext env.primitives (path_of env.current_dir src) key
            (path_of env.current_dir dst))
          before e in
      absurd (true≢false (no_daemon (exported n) refl st _ after last))
  subcommand-daemon s ek vk none none st before after e = (
    ap (λ (r : Result Outcome × Fs). r.1) (sym e),
    λ fs. ap (λ (r : Result Outcome × Fs). (r.0, fs)) e,
  )

  generate_or_start-daemon :
      (s : Settings) (asked : Option Text) (st : AppState) (before after : Fs)
      → generate_or_start env uuids nonces node_name s asked before ≡ (ok (daemon st), after)
      → (asked ≡ none)
        × (start_with_keys env uuids nonces node_name s before ≡ (ok (daemon st), after))
  generate_or_start-daemon s none st before after e = (refl, e)
  generate_or_start-daemon s (some text) st before after e =
      let (u, _, last) =
        >>=-eq-ok (λ (_ : Unit {0}). pure key_generated)
          (generate_key (env.rng 0 32) (path_of env.current_dir text)) before e in
      absurd (true≢false (no_daemon key_generated refl st _ after last))

  start_with_keys-again :
      (s : Settings) (st : AppState) (before after : Fs)
      → s.key_path ≡ none
      → start_with_keys env uuids nonces node_name s before ≡ (ok (daemon st), after)
      → start_with_keys (redrawn env rng') uuids' nonces' node_name s after
        ≡ (ok (daemon st), after)
  unfolding start_with_keys needs_vault_key
  start_with_keys-again s st before after no_file e =
      let (ek, read, keyed) = >>=-eq-ok _ (λ fs. (transport_key env s.key_path fs, fs)) before e in
      let (vk, vault_ok, sub) =
        >>=-eq-ok _ (vault_key_for env (needs_vault_key env s) s) before keyed in
      let mid = (vault_key_for env (needs_vault_key env s) s before).1 in
      let (same, sub_again) =
        subcommand-daemon s ek vk s.import_args s.export_args st mid after sub in
      let vault_again =
        vault_key_for-again (needs_vault_key env s) s vk before mid
          (ap (λ (r : Result (Option Bytes)). (r, mid)) vault_ok) in
      let read_again : (fs : Fs) → transport_key (redrawn env rng') s.key_path fs ≡ ok ek = λ fs.
        ap (λ k. transport_key env k fs) no_file
        ∙ (ap (λ k. transport_key env k before) (sym no_file) ∙ read) in
      let run : start_with_keys (redrawn env rng') uuids' nonces' node_name s mid
          ≡ (ok (daemon st), mid) =
        rw (read_again mid, start_with_keys) (rw (vault_again, ◌>>=◌) (sub_again mid)) in
      subst
        (λ f. start_with_keys (redrawn env rng') uuids' nonces' node_name s f ≡ (ok (daemon st), f))
        (sym same) run

  -- If the settings name no transport key file: when a start ends in the daemon, a second start
  -- with the same settings, on the disk that the first one left, ends in the daemon with the same
  -- state and changes nothing on the disk, whatever random bytes, ids and nonces it draws.
  pub start-again :
      (s : Settings) (st : AppState) (before after : Fs)
      → s.key_path ≡ none
      → start env uuids nonces node_name s before ≡ (ok (daemon st), after)
      → start (redrawn env rng') uuids' nonces' node_name s after ≡ (ok (daemon st), after)
  unfolding start
  start-again s st before after no_file e =
      let (unasked, run) = generate_or_start-daemon s s.generate_key_path st before after e in
      ap (λ o. generate_or_start (redrawn env rng') uuids' nonces' node_name s o after) unasked
      ∙ start_with_keys-again s st before after no_file run
