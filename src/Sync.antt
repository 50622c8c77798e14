-- ===== src/Sync.antt =====
-- src/sync/handler.rs and src/gui/types.rs: what the handlers act on. A handler is a function on
-- the node: the locked application state, the running downloads, the disk, and what was sent so
-- far. The mutex is held by one handler at a time, between awaits of the single event loop.
pub mod Scheduler
pub mod Upload
pub mod Offers
pub mod Download
pub mod Bounds
pub mod Replies
pub mod Rejection
pub mod Exchange
pub mod Keeping
pub mod Access
pub mod Swarm
pub mod Proposing
pub mod Commands
pub mod Trust
pub mod Idle
pub mod Limits
pub mod Missing
pub mod Stalls
use vitruvius.Base.{
  ℕ, suc, ◌+◌, Bool, true, false, not, ◌||◌, Option, none, some, List, [], ◌∷◌, ◌++◌, Bytes, Text,
  Dict, is_some, is_empty, insert, Error, nat_eq, list_eq,
}
use vitruvius.Paths.{FilePath}
use vitruvius.Fs.{Fs}
use vitruvius.Crypto.{Primitives, Draw}
use vitruvius.Network.{SyncMessage}
use vitruvius.Storage.{FileTransferState, PendingFile}
use vitruvius.Storage.Manifest.{Codec}
use vitruvius.State.{AppState, Hex, TofuStore, store_peer_key}

-- WINDOW, MAX_CONCURRENT_FILES and STALL_SECS
abbrev pub window : ℕ
window = 4

abbrev pub max_concurrent_files : ℕ
max_concurrent_files = 3

abbrev pub stall_secs : ℕ
stall_secs = 20

pub record PeerDownload : Type 0 where
  pub active : Dict Text FileTransferState
  pub queue : List PendingFile

abbrev pub new_download : PeerDownload
new_download = record { active = []; queue = [] }

pub data Level : Type 0 where
  ok_level info warn error_level : Level

pub record GuiFileInfo : Type 0 where
  pub name : Text
  pub size : ℕ
  pub chunks : ℕ
  pub is_vault : Bool

-- The text of a log line is not modelled.
pub data GuiEvent : Type 0 where
  identity : Text → Text → GuiEvent
  peer_discovered : Text → Text → Text → GuiEvent
  peer_connected : Text → Text → GuiEvent
  peer_disconnected : Text → GuiEvent
  dial_failed : Option Text → GuiEvent
  folder_listing : List GuiFileInfo → GuiEvent
  transfer_started : Text → Text → ℕ → ℕ → GuiEvent
  chunk_received : Text → Text → ℕ → ℕ → Bool → GuiEvent
  transfer_complete : Text → Text → GuiEvent
  remote_empty : Text → GuiEvent
  peer_error : Text → Error → GuiEvent
  peer_approval_required : Text → Text → GuiEvent
  log_line : Level → GuiEvent
  vault_status : Bool → Bool → Text → GuiEvent
  peer_key_revoked : Text → GuiEvent
  vault_mode_changed : Bool → GuiEvent
  trusted_peers : List Text → GuiEvent
  decrypt_complete : Text → Text → ℕ → GuiEvent

-- A task that sleeps before it acts.
pub data Delayed : Type 0 where
  forget_writing : FilePath → Delayed
  forget_deleting : FilePath → Delayed
  refresh_listing : FilePath → Delayed

-- What the node is built on: the libraries, the random draws (the number of the draw and its size),
-- this node's own id, and whether the key store can be written.
pub record Env : Type 0 where
  pub primitives : Primitives
  pub codec : Codec
  pub hex : Hex
  pub rng : ℕ → ℕ → Draw
  -- `StaticSecret::random_from_rng`
  pub secret : ℕ → Bytes
  pub parses_peer_id : Text → Bool
  pub local_peer_id : Text
  pub store_writable : Bool
  -- `Multiaddr` parses the text, and dialing it succeeds
  pub parses_addr : Text → Bool
  pub dials : Text → Bool
  -- the current directory and `dirs::home_dir()`
  pub current_dir : FilePath
  pub home_dir : Option FilePath

pub record Node : Type 0 where
  pub state : AppState
  pub transfers : Dict Text PeerDownload
  pub fs : Fs
  pub store : TofuStore
  pub draws : ℕ
  pub now : ℕ
  pub requests : List (Text × SyncMessage)
  pub replies : List SyncMessage
  pub events : List GuiEvent
  pub delayed : List Delayed
  pub disconnects : List Text
  -- `swarm.dial(..)` and `watch_tx.send(..)`
  pub dialed : List Text
  pub watched : List FilePath
  -- the thread has panicked
  pub crashed : Bool

infixl 6 ◌▸◌
abbrev pub ◌▸◌ {ℓ κ} : {A : Type ℓ} {B : Type κ} → A → (A → B) → B
a ▸ f = f a

-- `rr.send_request(&peer, msg)`
abbrev pub send_request : Text → SyncMessage → Node → Node
send_request peer msg n = record n { requests = n.requests ++ (peer, msg) ∷ [] }

-- `rr.send_response(channel, msg)`
abbrev pub send_response : SyncMessage → Node → Node
send_response msg n = record n { replies = n.replies ++ msg ∷ [] }

-- `event_tx.send(event)`
abbrev pub emit : GuiEvent → Node → Node
emit event n = record n { events = n.events ++ event ∷ [] }

abbrev pub log : Level → Node → Node
log level = emit (log_line level)

abbrev pub delay : Delayed → Node → Node
delay task n = record n { delayed = n.delayed ++ task ∷ [] }

abbrev pub with_state : (AppState → AppState) → Node → Node
with_state f n = record n { state = f n.state }

-- `set_peer_key`: the key is stored, if the store can be written, and put to use.
unfoldable pub set_peer_key : Env → Text → Bytes → Node → Node
set_peer_key env peer key n = record n {
  store = store_peer_key env.hex env.store_writable peer key n.store;
  state = record n.state { peer_keys = insert peer key n.state.peer_keys };
}
