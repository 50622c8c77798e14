-- ===== src/State.antt =====
-- src/state.rs and src/tofu.rs: the state of the application and the store of trusted keys.
--
-- A `PeerId` is its text. The store `~/.vitruvius/vitruvius_tofu.json` is a map from peer ids to
-- hexadecimal keys; `writable` says whether it can be saved. `Hex` stands for the crate `hex`.
pub mod Store
pub mod Refining
use vitruvius.Base.{
  ℕ, Bool, true, false, not, ◌||◌, Option, none, some, List, [], ◌∷◌, Bytes, Text, length, take,
  drop, map, is_some, is_empty, Dict, lookup, insert, remove, contains_key, nat_eq, list_eq, ◌==◌,
  if◌then◌else◌,
}
use vitruvius.Paths.{FilePath, starts_with}
use vitruvius.Crypto.{Primitives}

pub record Hex : Type 0 where
  pub encode : Bytes → Text
  pub decode : Text → Option Bytes

-- `tofu::get_peer_key`'s store
abbrev pub TofuStore : Type 0
TofuStore = Dict Text Text

abbrev key_of_hex : Hex → Option Text → Option Bytes
key_of_hex hex none = none
key_of_hex hex (some text) = elim (hex.decode text) [
  | none ↦ none
  | some bytes ↦ if length bytes == 32 then some bytes else none
]

unfoldable pub get_peer_key : Hex → TofuStore → Text → Option Bytes
get_peer_key hex store peer = key_of_hex hex (lookup peer store)

unfoldable pub has_peer_key : Hex → TofuStore → Text → Bool
has_peer_key hex store peer = is_some (get_peer_key hex store peer)

-- `store_peer_key`: the store as it is afterwards.
unfoldable pub store_peer_key : Hex → Bool → Text → Bytes → TofuStore → TofuStore
store_peer_key hex writable peer key store =
    if writable then insert peer (hex.encode key) store else store

-- `revoke_peer_key`: whether it succeeds, and the store afterwards.
unfoldable pub revoke_peer_key : Bool → Text → TofuStore → Bool × TofuStore
revoke_peer_key writable peer store = if writable then (true, remove peer store) else (false, store)

unfoldable pub list_trusted_peers : TofuStore → List Text
list_trusted_peers store = map (λ e. e.0) store

-- "vitruvius 2024 tofu key derivation v1"
abbrev pub tofu_context : Text
tofu_context =
    118 ∷ 105 ∷ 116 ∷ 114 ∷ 117 ∷ 118 ∷ 105 ∷ 117 ∷ 115 ∷ 32 ∷ 50 ∷ 48 ∷ 50 ∷ 52 ∷ 32 ∷ 116 ∷ 111
    ∷ 102 ∷ 117 ∷ 32 ∷ 107 ∷ 101 ∷ 121 ∷ 32 ∷ 100 ∷ 101 ∷ 114 ∷ 105 ∷ 118 ∷ 97 ∷ 116 ∷ 105 ∷ 111
    ∷ 110 ∷ 32 ∷ 118 ∷ 49 ∷ []

-- `derive_shared_key` never returns an error.
unfoldable pub derive_shared_key : Primitives → Bytes → Bytes → Bytes
derive_shared_key P our_secret their_public =
    P.derive_key tofu_context (P.diffie_hellman our_secret their_public)

pub record InboundFileInfo : Type 0 where
  pub file_name : Text
  pub file_size : ℕ
  pub total_chunks : ℕ
  pub blinded_chunk_hashes : List Bytes

-- Instants are seconds.
pub record AppState : Type 0 where
  pub known_addrs : Dict Text Text
  pub connected_peers : List Text
  pub sync_path : Option FilePath
  pub node_name : Text
  pub peer_names : Dict Text Text
  pub announced_to : List Text
  pub writing_files : List FilePath
  pub deleting_files : List FilePath
  pub recently_notified : Dict Text ℕ
  pub peer_keys : Dict Text Bytes
  pub pending_exchanges : Dict Text Bytes
  pub encryption_key : Option Bytes
  pub shared_key_from_cli : Bool
  pub pending_approvals : Dict Text Bytes
  pub vault_key : Option Bytes
  pub vault_mode : Bool
  pub encrypted_protocol : Bool
  pub outbound_file_ids : Dict Text (Dict Bytes Text)
  pub inbound_file_ids : Dict Text (Dict Bytes InboundFileInfo)

abbrev pub new_state : Text → AppState
new_state node_name = record {
  known_addrs = [];
  connected_peers = [];
  sync_path = none;
  node_name = node_name;
  peer_names = [];
  announced_to = [];
  writing_files = [];
  deleting_files = [];
  recently_notified = [];
  peer_keys = [];
  pending_exchanges = [];
  encryption_key = none;
  shared_key_from_cli = false;
  pending_approvals = [];
  vault_key = none;
  vault_mode = false;
  encrypted_protocol = true;
  outbound_file_ids = [];
  inbound_file_ids = [];
}

unfoldable pub is_encrypted : AppState → Bool
is_encrypted st = is_some st.encryption_key || not (is_empty st.peer_keys)

unfoldable pub key_for_peer : AppState → Text → Option Bytes
key_for_peer st peer = lookup peer st.peer_keys

abbrev mirror_key : Text → Option Bytes → AppState → AppState
mirror_key peer none st = st
mirror_key peer (some k) st =
    if contains_key peer st.peer_keys
    then st
    else record st { peer_keys = insert peer k st.peer_keys }

unfoldable pub mirror_shared_key : AppState → Text → AppState
mirror_shared_key st peer = mirror_key peer st.encryption_key st

-- "12D3KooW"
abbrev pub peer_id_prefix : Text
peer_id_prefix = 49 ∷ 50 ∷ 68 ∷ 51 ∷ 75 ∷ 111 ∷ 111 ∷ 87 ∷ []

-- The first eight bytes. `&s[..8]` panics where they end inside a character; the ids of libp2p are
-- in base 58, so they have none of more than one byte.
unfoldable pub short_id : Text → Text
short_id peer = take 8 (if starts_with peer_id_prefix peer then drop 8 peer else peer)

-- "Node-" in front of the short id, if the peer has not told its name.
abbrev name_or_id : Text → Option Text → Text
name_or_id peer none = 78 ∷ 111 ∷ 100 ∷ 101 ∷ 45 ∷ short_id peer
name_or_id peer (some name) = name

unfoldable pub peer_display_name : AppState → Text → Text
peer_display_name st peer = name_or_id peer (lookup peer st.peer_names)
