-- ===== src/Sync/Swarm.antt =====
-- src/sync/handler.rs: `on_swarm_event`.
use vitruvius.Base.{
  Bool, not, ◌&&◌, ◌||◌, Option, List, [], ◌∷◌, Text, is_some, insert, remove, contains_key, add,
  delete, nat_eq, list_eq, if◌then◌else◌,
}
use vitruvius.Network.{SyncMessage, folder_announcement, manifest_request, key_exchange_propose}
use vitruvius.State.{peer_display_name}
use vitruvius.Storage.Listing.{text_lt}
use vitruvius.Sync.{
  Env, Node, peer_discovered, peer_connected, peer_disconnected, dial_failed, ok_level, info, warn,
  error_level, ◌▸◌, send_request, emit, log, with_state,
}
use vitruvius.Sync.Upload.{load_stored_key, drawn, our_secret, on_request}
use vitruvius.Sync.Download.{on_response}

-- `SwarmEvent<MyBehaviourEvent>`, as far as the program looks at it.
pub data SwarmEvent : Type 0 where
  discovered : List (Text × Text) → SwarmEvent
  expired : List (Text × Text) → SwarmEvent
  connection_established : Text → SwarmEvent
  connection_closed : Text → SwarmEvent
  request : Text → SyncMessage → SwarmEvent
  response : Text → SyncMessage → SwarmEvent
  outgoing_connection_error : Option Text → SwarmEvent
  outbound_failure : Text → SwarmEvent
  inbound_failure : Text → SwarmEvent
  other : SwarmEvent

unfoldable pub on_discovered : List (Text × Text) → Node → Node
on_discovered [] n = n
on_discovered ((peer, addr) ∷ found) n =
    let known = with_state (λ st. record st { known_addrs = insert peer addr st.known_addrs }) n in
    on_discovered found
      (emit (peer_discovered peer addr (peer_display_name known.state peer)) known)

unfoldable pub on_expired : List (Text × Text) → Node → Node
on_expired [] n = n
on_expired ((peer, addr) ∷ gone) n =
    on_expired gone (with_state (λ st. record st { known_addrs = remove peer st.known_addrs }) n)

module _ (env : Env) (peer : Text) where
  -- The peer counts as connected, and its stored key is put to use before any message is sent.
  unfoldable pub welcome : Node → Node
  welcome n =
      let connected =
        with_state (λ st. record st { connected_peers = add peer st.connected_peers }) n in
      let shown =
        connected
        ▸ emit (peer_connected peer (peer_display_name connected.state peer))
        ▸ log ok_level
        ▸ load_stored_key env peer in
      if contains_key peer shown.state.peer_keys then log ok_level shown else shown

  -- With a folder: it is announced, and the manifest is asked for if the answer can be read.
  unfoldable pub announce : Bool → Node → Node
  announce readable n =
      let told =
        n
        ▸ with_state (λ st. record st { announced_to = add peer st.announced_to })
        ▸ send_request peer (folder_announcement n.state.node_name) in
      if is_some n.state.sync_path
      then log info (if readable then send_request peer manifest_request told else told)
      else n

  -- Of two peers without a key, the one with the lower id proposes an exchange.
  unfoldable pub propose : Node → Node
  propose n =
      let secret = our_secret env peer n in
      let proposed =
        n
        ▸ drawn env peer
        ▸ with_state
            (λ st. record st { pending_exchanges = insert peer secret st.pending_exchanges })
        ▸ send_request peer (key_exchange_propose (env.primitives.public_key secret)) in
      log info (if text_lt env.local_peer_id peer then proposed else n)

  unfoldable pub on_connection_established : Node → Node
  on_connection_established n =
      let n1 = welcome n in
      let already_have_key = contains_key peer n1.state.peer_keys in
      let need_tofu = not n1.state.shared_key_from_cli in
      let n2 = announce (already_have_key || not need_tofu) n1 in
      if need_tofu && not already_have_key then propose n2 else n2

-- The downloads from the peer are dropped; its keys stay.
unfoldable pub on_connection_closed : Text → Node → Node
on_connection_closed peer n =
    let gone =
      with_state
        (λ st. record st {
          connected_peers = delete peer st.connected_peers;
          announced_to = delete peer st.announced_to;
        })
        n in
    record gone { transfers = remove peer n.transfers } ▸ emit (peer_disconnected peer) ▸ log warn

unfoldable pub on_swarm_event : Env → SwarmEvent → Node → Node
on_swarm_event env (discovered found) n = on_discovered found n
on_swarm_event env (expired gone) n = on_expired gone n
on_swarm_event env (connection_established peer) n = on_connection_established env peer n
on_swarm_event env (connection_closed peer) n = on_connection_closed peer n
on_swarm_event env (request peer msg) n = on_request env peer msg n
on_swarm_event env (response peer msg) n = on_response env peer msg n
on_swarm_event env (outgoing_connection_error peer) n = emit (dial_failed peer) n
on_swarm_event env (outbound_failure peer) n = log error_level n
on_swarm_event env (inbound_failure peer) n = n
on_swarm_event env other n = n
