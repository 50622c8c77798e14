-- ===== src/Gui.antt =====
-- src/gui/ws.rs, src/gui/http.rs and `get_node_name` of src/state.rs: what a browser tab is sent,
-- and what it sends. Sending succeeds while the tab is open.
use vitruvius.Base.{
  ℕ, zero, suc, ◌-◌, Bool, true, false, ◌&&◌, ◌||◌, Option, none, some, List, [], ◌∷◌, ◌++◌, map,
  leb, if◌then◌else◌, is_empty, length, ◌==◌, nat_eq, list_eq, Dict, Bytes, Text, Result, ok, err,
}
use mathlib.Core.List.{reverse}
use vitruvius.Paths.{FilePath, starts_with}
use vitruvius.Fs.{Fs, read_file}
use vitruvius.State.{peer_display_name, list_trusted_peers, is_encrypted}
use vitruvius.Storage.Listing.{list_folder_all}
use vitruvius.Storage.Reassembly.{decimal}
use vitruvius.Sync.{
  Env, Node, GuiEvent, identity, vault_status, trusted_peers, peer_discovered, folder_listing,
  log_line, ok_level,
}
use vitruvius.Sync.Commands.{GuiCommand, file_info}
use vitruvius.Sync.Offers.{fingerprint_of, or_key, first_key}

-- The message of a tab, as far as the handler looks at it.
pub data Message : Type 0 where
  text : Text → Message
  close : Message
  ping pong : Bytes → Message
  other_message : Message

-- A tab: whether it is open, the events and the other messages it has been sent.
pub record Tab : Type 0 where
  pub is_open : Bool
  pub events : List GuiEvent
  pub messages : List Message
  pub commands : List GuiCommand

abbrev known_peers : Node → Dict Text Text → List GuiEvent
known_peers n [] = []
known_peers n ((peer, addr) ∷ rest) =
    peer_discovered peer addr (peer_display_name n.state peer) ∷ known_peers n rest

module _ (env : Env) where
  abbrev folder_events : Option FilePath → Node → List GuiEvent
  folder_events none n = []
  folder_events (some path) n =
      folder_listing (map file_info (list_folder_all env.primitives n.fs path))
      ∷ log_line ok_level
      ∷ []

  abbrev trusted_events : List Text → List GuiEvent
  trusted_events [] = []
  trusted_events (peer ∷ peers) = trusted_peers (peer ∷ peers) ∷ []

  -- What a tab that connects is sent.
  unfoldable pub snapshot : Text → Text → Node → List GuiEvent
  snapshot my_peer_id my_name n =
      identity my_peer_id my_name
      ∷ vault_status (is_encrypted n.state) n.state.encrypted_protocol
          (fingerprint_of env (or_key n.state.encryption_key (first_key n.state.peer_keys)))
      ∷ (trusted_events (list_trusted_peers n.store)
          ++ (known_peers n n.state.known_addrs ++ folder_events n.state.sync_path n))

  unfoldable pub open_tab : Text → Text → Node → Tab
  open_tab my_peer_id my_name n = record {
    is_open = true;
    events = snapshot my_peer_id my_name n;
    messages = [];
    commands = [];
  }

abbrev send_command : Option GuiCommand → Tab → Tab
send_command none t = t
send_command (some cmd) t = record t { commands = t.commands ++ cmd ∷ [] }

-- A message of the browser; `parse` is `serde_json::from_str::<GuiCommand>`.
unfoldable pub on_message : (Text → Option GuiCommand) → Message → Tab → Tab
on_message parse (text s) t = send_command (parse s) t
on_message parse close t = record t { is_open = false }
on_message parse (ping d) t = record t { messages = t.messages ++ pong d ∷ [] }
on_message parse (pong d) t = t
on_message parse other_message t = t

-- What the broadcast channel gives: an event, the number of events that were lost, or its end.
pub data Received : Type 0 where
  event : GuiEvent → Received
  lagged : ℕ → Received
  closed : Received

unfoldable pub on_received : Received → Tab → Tab
on_received (event e) t = record t { events = t.events ++ e ∷ [] }
on_received (lagged n) t = t
on_received closed t = record t { is_open = false }

-- `s.replace(pat, to)` for a pattern that is not empty; `skip` characters belong to a match.
unfoldable pub replace_from : ℕ → Text → Text → Text → Text
replace_from skip pat to [] = []
replace_from (suc skip) pat to (c ∷ s) = replace_from skip pat to s
replace_from zero pat to (c ∷ s) = elim (starts_with pat (c ∷ s)) [
  | true ↦ to ++ replace_from (length pat - 1) pat to s
  | false ↦ c ∷ replace_from zero pat to s
]

-- "__WS_PORT__"
abbrev port_mark : Text
port_mark = 95 ∷ 95 ∷ 87 ∷ 83 ∷ 95 ∷ 80 ∷ 79 ∷ 82 ∷ 84 ∷ 95 ∷ 95 ∷ []

-- "HTTP/1.1 200 OK", the content type, and "Content-Length: "
abbrev head_start : Text
head_start =
    72 ∷ 84 ∷ 84 ∷ 80 ∷ 47 ∷ 49 ∷ 46 ∷ 49 ∷ 32 ∷ 50 ∷ 48 ∷ 48 ∷ 32 ∷ 79 ∷ 75 ∷ 13 ∷ 10 ∷ 67 ∷ 111
    ∷ 110 ∷ 116 ∷ 101 ∷ 110 ∷ 116 ∷ 45 ∷ 84 ∷ 121 ∷ 112 ∷ 101 ∷ 58 ∷ 32 ∷ 116 ∷ 101 ∷ 120 ∷ 116 ∷ 47
    ∷ 104 ∷ 116 ∷ 109 ∷ 108 ∷ 59 ∷ 32 ∷ 99 ∷ 104 ∷ 97 ∷ 114 ∷ 115 ∷ 101 ∷ 116 ∷ 61 ∷ 117 ∷ 116 ∷ 102
    ∷ 45 ∷ 56 ∷ 13 ∷ 10 ∷ 67 ∷ 111 ∷ 110 ∷ 116 ∷ 101 ∷ 110 ∷ 116 ∷ 45 ∷ 76 ∷ 101 ∷ 110 ∷ 103 ∷ 116
    ∷ 104 ∷ 58 ∷ 32 ∷ []

-- "Cache-Control: no-cache", "Connection: close" and the empty line
abbrev head_end : Text
head_end =
    13 ∷ 10 ∷ 67 ∷ 97 ∷ 99 ∷ 104 ∷ 101 ∷ 45 ∷ 67 ∷ 111 ∷ 110 ∷ 116 ∷ 114 ∷ 111 ∷ 108 ∷ 58 ∷ 32 ∷ 110
    ∷ 111 ∷ 45 ∷ 99 ∷ 97 ∷ 99 ∷ 104 ∷ 101 ∷ 13 ∷ 10 ∷ 67 ∷ 111 ∷ 110 ∷ 110 ∷ 101 ∷ 99 ∷ 116 ∷ 105
    ∷ 111 ∷ 110 ∷ 58 ∷ 32 ∷ 99 ∷ 108 ∷ 111 ∷ 115 ∷ 101 ∷ 13 ∷ 10 ∷ 13 ∷ 10 ∷ []

-- The answer of `serve`, for the page that `get_html` gives.
unfoldable pub serve : Text → ℕ → Text
serve page ws_port =
    let html = replace_from 0 port_mark (decimal ws_port) page in
    head_start ++ (decimal (length html) ++ (head_end ++ html))

-- White space of ASCII; a host name has no other.
abbrev is_space : ℕ → Bool
is_space c = c == 32 || (leb 9 c && leb c 13)

unfoldable pub trim_start : Text → Text
trim_start [] = []
trim_start (c ∷ s) = let rest = trim_start s in if is_space c then rest else c ∷ s

unfoldable pub trim : Text → Text
trim s = reverse (trim_start (reverse (trim_start s)))

-- "Vitruvius-Node"
abbrev default_name : Text
default_name = 86 ∷ 105 ∷ 116 ∷ 114 ∷ 117 ∷ 118 ∷ 105 ∷ 117 ∷ 115 ∷ 45 ∷ 78 ∷ 111 ∷ 100 ∷ 101 ∷ []

abbrev pub text_of : Result Bytes → Option Text
text_of (err e) = none
text_of (ok bytes) = some bytes

abbrev pub name_or : Text → Option Text → Text
name_or otherwise none = otherwise
name_or otherwise (some s) = if is_empty (trim s) then otherwise else trim s

-- The variable `HOSTNAME`, then the file "/etc/hostname".
unfoldable pub get_node_name : Option Text → Fs → Text
get_node_name hostname fs =
    name_or (name_or default_name (text_of (read_file fs (hostname_name ∷ etc ∷ [])))) hostname
  where
    etc : Text
    etc = 101 ∷ 116 ∷ 99 ∷ []

    hostname_name : Text
    hostname_name = 104 ∷ 111 ∷ 115 ∷ 116 ∷ 110 ∷ 97 ∷ 109 ∷ 101 ∷ []
