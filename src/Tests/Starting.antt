-- ===== src/Tests/Starting.antt =====
-- Runs of the start of the program.
use vitruvius.Base.{
  ◌≡◌, refl, sym, true, none, some, [], ◌∷◌, arith, nat_eq, list_eq, list_beq, lookup, insert,
  Bytes, ok,
}
use vitruvius.Paths.{parent, push}
use vitruvius.Fs.{Fs, create, write_all, create_dir_all, exists, stat, resolve, node_at, read_file}
use vitruvius.Crypto.{key_of_bytes}
use vitruvius.State.{AppState}
use vitruvius.Sync.{Env}
use vitruvius.Sync.Commands.{generate_key, load_key}
use vitruvius.Identity.{KeypairCodec, load_or_create_keypair, save_keypair}
use vitruvius.Identity.Keeping.{load_or_create_keypair-again}
use vitruvius.Main.Args.{Settings, default_settings, run, parse_args}
use vitruvius.Main.Rendering.{render, parse_args-render}
use vitruvius.Main.Start.{
  daemon, start, start_with_keys, needs_vault_key, vault_key_at, initial_state,
}
use vitruvius.Main.Restart.{redrawn, start-again}
use vitruvius.Tests.Handlers.{alice, env}
use vitruvius.Tests.{uuid, nonce, key}

abbrev chosen : Settings
chosen = record default_settings {
  http_port = 8080;
  theme = 100 ∷ [];
  vault_mode = true;
  export_args = some ((97 ∷ []), (98 ∷ []));
}

parse_args-render_example : parse_args default_settings (render chosen) ≡ run chosen
parse_args-render_example = parse_args-render chosen (omega arith) (omega arith)

abbrev empty_disk : Fs
empty_disk = record { entries = [] }

abbrev drawing : Env
drawing = record env { rng = λ n size. some key }

abbrev vaulted : Settings
vaulted = record default_settings { vault_mode = true }

abbrev first_state : AppState
first_state = initial_state drawing (λ n. uuid) (λ n k. nonce) alice vaulted none (some key)

abbrev left : Fs
left = (start drawing (λ n. uuid) (λ n k. nonce) alice vaulted empty_disk).1

has_started :
    start drawing (λ n. uuid) (λ n k. nonce) alice vaulted empty_disk
    ≡ (ok (daemon first_state), left)
unfolding start start_with_keys needs_vault_key vault_key_at generate_key load_key key_of_bytes
    parent push create write_all create_dir_all exists stat resolve node_at read_file lookup insert
    list_beq
has_started = refl

start-again_example :
    start (redrawn drawing (λ n size. none)) (λ n. none) (λ n k. none) alice vaulted left
    ≡ (ok (daemon first_state), left)
start-again_example =
    start-again drawing (λ n size. none) (λ n. uuid) (λ n. none) (λ n k. nonce) (λ n k. none) alice
      vaulted first_state empty_disk left refl has_started

-- A key pair is its encoding.
abbrev plain_codec : KeypairCodec Bytes
plain_codec = record { to_protobuf_encoding = λ k. some k; from_protobuf_encoding = λ b. some b }

abbrev with_identity : Fs
with_identity = (load_or_create_keypair plain_codec [] key empty_disk).1

is_saved : load_or_create_keypair plain_codec [] key empty_disk ≡ (ok key, with_identity)
unfolding load_or_create_keypair save_keypair create write_all create_dir_all exists stat resolve
    node_at read_file lookup insert list_beq
is_saved = refl

load_or_create_keypair-again_example :
    load_or_create_keypair plain_codec [] (1 ∷ []) with_identity ≡ (ok key, with_identity)
load_or_create_keypair-again_example =
    load_or_create_keypair-again plain_codec [] key (1 ∷ []) key empty_disk with_identity
      (λ k b e. sym e) is_saved
