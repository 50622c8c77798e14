-- ===== src/Lib.antt =====
-- Vitruvius keeps a folder in step between peers: files are split into chunks, announced in a
-- manifest, sent over the network under a key that both sides share, and kept on disk either as they
-- are or in encrypted vault files (`*.vit`).
--
-- The parts and their files:
--   Paths      src/storage.rs: relative_path, rel_to_abs, rel_to_vault_abs, unsafe_rel_path
--   Fs         the calls of std::fs that the program makes, on a tree of directories and files
--   Crypto     src/crypto.rs: encryption with associated data, blinded names and hashes
--   Vault      src/storage.rs: the vault container, its writer (Vault/Write), its readers and the
--              export (Vault/Export); Vault/Image says what a well-formed file holds
--   Network    src/network.rs: the messages
--   Storage    src/storage.rs: metadata and chunks; Storage/Listing walks the folder,
--              Storage/Manifest makes and opens manifests, Storage/Reassembly writes received files,
--              Storage/Import is the import of a folder into a vault
--   State      src/state.rs and src/tofu.rs: the application state and the trusted keys; State/Store
--              is the file that holds the keys
--   Sync       src/sync/handler.rs: Sync/Scheduler is start_queued_files and check_stalls, Sync/Upload
--              is on_request, Sync/Offers and Sync/Download are on_response, and Sync/Swarm is
--              on_swarm_event, which calls them; Sync/Commands is on_command, with the commands of
--              src/gui/types.rs
--   Identity   src/identity.rs: the key pair on disk, and the directory of the program's files
--   Watcher    src/watcher.rs: what changes on the disk become notifications and listings
--   Main       src/main.rs: Main/Args is the command line, Main/Start goes from there to the initial
--              state, and Main/Loop is the event loop
--   Gui        src/gui/ws.rs, src/gui/http.rs and get_node_name: what a browser tab gets and sends
--   Base       numbers, lists, maps and errors that all parts share
--   Tests      concrete libraries and runs
--
-- A handler is a function on `Sync.Node`: the locked `AppState`, the running downloads, the disk, the
-- key store, and the requests, replies and events sent so far. A handler of the program runs to its
-- end in one event loop before the next one starts; a task that it spawns to act later is a value,
-- `Sync.Delayed`. `Main.Loop.Step` is one round of the loop, one such task, or one answer of a watcher,
-- and `Main.Loop.Reach` any sequence of them; between them time passes and other programs write.
-- Storage functions take the disk and return it with a result, so that a failed call keeps the effects
-- of what ran before it. Sync calls Storage, Storage calls Vault and Crypto, and all work on Fs.
--
-- The crates are parameters: `Crypto.Primitives` (BLAKE3, ChaCha20-Poly1305, X25519) with the laws
-- `IsAead`, `Storage.Manifest.Codec` (serde_cbor), `State.Store.Json` (serde_json),
-- `Identity.KeypairCodec` (libp2p's key pairs), `State.Hex` (hex), and the draws of the random
-- number generator, which are arguments. Names and paths are the bytes of their UTF-8 text; a path
-- holds its components, the last one first. A map is walked in the order of its association list, and
-- the clock counts seconds.
--
-- Bounds: `as u32` wraps at 2^32, and words are read and written little-endian. The directory walk has
-- as fuel one more than the number of entries of the disk, which no chain of nested directories
-- exceeds, and the import twice that number, since the copy of a path may lie below the source; the
-- reading of a file takes one round more than it has bytes; the decimal printing of a u64 has 20
-- digits. All other loops are recursions on what they consume. The offset of a chunk that is read from a
-- plaintext file is a product modulo 2^64, which does not wrap below the position 2^45. Where the code
-- panics (`file_name().unwrap()` on `..`), the model has the error `panicked` or `none`.
--
-- Not modelled: the set-up of the libp2p swarm and of the sockets, the delivery of events by the
-- operating system, file modes, the text of log lines and of the help, and the unused derive_subkey and
-- _open_for_append. They are calls of libraries, or change nothing that the program reads.
pub mod Base
pub mod Paths
pub mod Fs
pub mod Crypto
pub mod Vault
pub mod Network
pub mod Storage
pub mod Identity
pub mod State
pub mod Sync
pub mod Watcher
pub mod Main
pub mod Gui
pub mod Tests
