-- ===== src/Sync/Limits/Events.antt =====
-- src/sync/handler.rs: `on_swarm_event` and `check_stalls`, and how many files they leave active.
use vitruvius.Base.{
  suc, ◌≡◌, refl, ap, ◌∙◌, Bool, true, false, not, ◌||◌, List, [], ◌∷◌, arith, if◌then◌else◌,
  length, nat_eq, list_eq, Dict, contains_key, Text,
}
use vitruvius.Base.{AllValues, AllValues-remove}
use vitruvius.Storage.{FileTransferState}
use vitruvius.Sync.{Env, Node, PeerDownload}
use vitruvius.Sync.Idle.{Idle, load_stored_key-Idle, on_request-Idle}
use vitruvius.Sync.Limits.{FewActive, Limited, Idle-Limited}
use vitruvius.Sync.Limits.Responses.{on_response-Limited}
use vitruvius.Sync.Scheduler.{check_file, check_files, check_peers, check_stalls}
use vitruvius.Sync.Swarm.{
  SwarmEvent, discovered, expired, connection_established, connection_closed, request, response,
  outgoing_connection_error, outbound_failure, inbound_failure, other, on_discovered, on_expired,
  welcome, announce, propose, on_connection_established, on_connection_closed, on_swarm_event,
}
use vitruvius.Sync.Upload.{on_request}

on_discovered-Idle : (found : List (Text × Text)) (n : Node) → Idle n (on_discovered found n)
unfolding on_discovered
on_discovered-Idle [] n = refl
on_discovered-Idle ((peer, addr) ∷ found) n = on_discovered-Idle found _

on_expired-Idle : (gone : List (Text × Text)) (n : Node) → Idle n (on_expired gone n)
unfolding on_expired
on_expired-Idle [] n = refl
on_expired-Idle ((peer, addr) ∷ gone) n = on_expired-Idle gone _

if-Idle : (b : Bool) (n x y : Node) → Idle n x → Idle n y → Idle n (if b then x else y)
if-Idle true n x y on_true on_false = on_true
if-Idle false n x y on_true on_false = on_false

module _ (env : Env) where
  welcome-Idle : (peer : Text) (n : Node) → Idle n (welcome env peer n)
  unfolding welcome
  welcome-Idle peer n =
      if-Idle _ n _ _ (load_stored_key-Idle env peer _) (load_stored_key-Idle env peer _)

  announce-Idle : (peer : Text) (readable : Bool) (n : Node) → Idle n (announce env peer readable n)
  unfolding announce
  announce-Idle peer readable n = ground arith

  propose-Idle : (peer : Text) (n : Node) → Idle n (propose env peer n)
  unfolding propose
  propose-Idle peer n = ground arith

  on_connection_established-Idle :
      (peer : Text) (n : Node) → Idle n (on_connection_established env peer n)
  unfolding on_connection_established
  on_connection_established-Idle peer n =
      let n1 = welcome env peer n in
      let n2 =
        announce env peer
          (contains_key peer n1.state.peer_keys || not (not n1.state.shared_key_from_cli)) n1 in
      let announced : Idle n n2 = announce-Idle peer _ n1 ∙ welcome-Idle peer n in
      if-Idle _ n (propose env peer n2) n2 (propose-Idle peer n2 ∙ announced) announced

  pub on_swarm_event-Limited :
      (event : SwarmEvent) (n : Node) → Limited n → Limited (on_swarm_event env event n)
  unfolding on_swarm_event on_connection_closed
  on_swarm_event-Limited (discovered found) n limited =
      Idle-Limited n (on_discovered found n) (on_discovered-Idle found n) limited
  on_swarm_event-Limited (expired gone) n limited =
      Idle-Limited n (on_expired gone n) (on_expired-Idle gone n) limited
  on_swarm_event-Limited (connection_established peer) n limited =
      Idle-Limited n (on_connection_established env peer n) (on_connection_established-Idle peer n)
        limited
  on_swarm_event-Limited (connection_closed peer) n limited =
      AllValues-remove FewActive peer n.transfers limited
  on_swarm_event-Limited (request peer msg) n limited =
      Idle-Limited n (on_request env peer msg n) (on_request-Idle env peer msg n) limited
  on_swarm_event-Limited (response peer msg) n limited = on_response-Limited env peer msg n limited
  on_swarm_event-Limited (outgoing_connection_error peer) n limited = limited
  on_swarm_event-Limited (outbound_failure peer) n limited = limited
  on_swarm_event-Limited (inbound_failure peer) n limited = limited
  on_swarm_event-Limited other n limited = limited

length-check_files :
    (peer : Text) (active : Dict Text FileTransferState) (n : Node)
    → length (check_files peer active n).0 ≡ length active
unfolding check_files
length-check_files peer [] n = refl
length-check_files peer ((name, ts) ∷ rest) n =
    ap suc (length-check_files peer rest (check_file peer name ts n).1)

check_peers-Few :
    (transfers : Dict Text PeerDownload) (n : Node)
    → AllValues FewActive transfers
    → AllValues FewActive (check_peers transfers n).0
unfolding check_peers
check_peers-Few [] n limited = tt
check_peers-Few ((peer, dl) ∷ rest) n (few, later) = (
  omega (arith, length-check_files peer dl.active n),
  check_peers-Few rest (check_files peer dl.active n).1 later,
)

pub check_stalls-Limited : (n : Node) → Limited n → Limited (check_stalls n)
unfolding check_stalls
check_stalls-Limited n limited = check_peers-Few n.transfers n limited
