-- ===== src/Main/Notifying.antt =====
-- src/main.rs: what the notifications of the watchers tell the peers.
use vitruvius.Base.{
  ℕ, ◌+◌, ◌-◌, ◌≡◌, refl, sym, ap, ◌∙◌, inl, inr, true, false, List, [], ◌∷◌, ◌++◌, map, append-nil,
  append_assoc, arith, ltb, if◌then◌else◌, Bool-cases, nat_eq, list_eq, lookup, insert,
  lookup-insert_self, Text,
}
use vitruvius.Network.{SyncMessage, file_changed}
use vitruvius.State.{AppState}
use vitruvius.Sync.{Node, send_request}
use vitruvius.Watcher.{file_changed as changed}
use vitruvius.Main.Loop.{on_notification, send_each, is_recent, notify_secs}

-- One copy of a message to each of the peers, in their order.
abbrev pub to_each : SyncMessage → List Text → List (Text × SyncMessage)
to_each msg peers = map (λ peer. (peer, msg)) peers

requests-send_each :
    (msg : SyncMessage) (peers : List Text) (n : Node)
    → (send_each msg peers n).requests ≡ n.requests ++ to_each msg peers
unfolding send_each
requests-send_each msg [] n = sym (append-nil n.requests)
requests-send_each msg (peer ∷ peers) n =
    requests-send_each msg peers (send_request peer msg n)
    ∙ append_assoc n.requests ((peer, msg) ∷ []) (to_each msg peers)

state-send_each :
    (msg : SyncMessage) (peers : List Text) (n : Node)
    → ((send_each msg peers n).state ≡ n.state) × ((send_each msg peers n).now ≡ n.now)
unfolding send_each
state-send_each msg [] n = (refl, refl)
state-send_each msg (peer ∷ peers) n = state-send_each msg peers _

-- The time of the notice is remembered.
abbrev noted : Text → Node → Node
noted name = λ n. record n {
  state = record n.state { recently_notified = insert name n.now n.state.recently_notified };
}

recent_quiet :
    (name : Text) (n : Node)
    → is_recent n.now (lookup name n.state.recently_notified) ≡ true
    → on_notification (changed name) n ≡ n
unfolding on_notification
recent_quiet name n e = rw (e, on_notification)

not_recent_sent :
    (name : Text) (n : Node)
    → is_recent n.now (lookup name n.state.recently_notified) ≡ false
    → on_notification (changed name) n
      ≡ send_each (file_changed name) n.state.connected_peers (noted name n)
unfolding on_notification
not_recent_sent name n e = rw (e, on_notification)

-- After `seconds` with nothing else.
abbrev pub later : ℕ → Node → Node
later seconds n = record n { now = n.now + seconds }

is_recent-after :
    (name : Text) (n : Node) (seconds : ℕ)
    → is_recent n.now (lookup name n.state.recently_notified) ≡ false
    → is_recent
        (later seconds (on_notification (changed name) n)).now
        (lookup name (on_notification (changed name) n).state.recently_notified)
      ≡ ltb (n.now + seconds - n.now) notify_secs
is_recent-after name n seconds fresh =
    let (st, now) = state-send_each (file_changed name) n.state.connected_peers (noted name n) in
    rw (not_recent_sent name n fresh)
      (rw (st, now, lookup-insert_self name n.now n.state.recently_notified))

-- A change of a file that was not notified within the last five seconds goes once to every
-- connected peer; when the same change is notified again some seconds later, it goes once more to
-- every connected peer if at least five seconds have passed, and to none otherwise.
pub on_notification-once :
    (name : Text) (n : Node) (seconds : ℕ)
    → is_recent n.now (lookup name n.state.recently_notified) ≡ false
    → ((on_notification (changed name) n).requests
        ≡ n.requests ++ to_each (file_changed name) n.state.connected_peers)
      × ((on_notification
            (changed name)
            (later seconds (on_notification (changed name) n))).requests
          ≡ (on_notification (changed name) n).requests
            ++ (if ltb seconds notify_secs
                then []
                else to_each (file_changed name) n.state.connected_peers))
on_notification-once name n seconds fresh =
    let n1 = on_notification (changed name) n in
    let first = not_recent_sent name n fresh in
    let sent : n1.requests ≡ n.requests ++ to_each (file_changed name) n.state.connected_peers =
      ap Node.requests first
      ∙ requests-send_each (file_changed name) n.state.connected_peers (noted name n) in
    let (st, now) = state-send_each (file_changed name) n.state.connected_peers (noted name n) in
    let same_peers : n1.state.connected_peers ≡ n.state.connected_peers =
      ap (λ m. m.state.connected_peers) first ∙ ap AppState.connected_peers st in
    let recency = is_recent-after name n seconds fresh in
    let passed : n.now + seconds - n.now ≡ seconds = omega arith in
    let recent = recency ∙ ap (λ s. ltb s notify_secs) passed in
    (
      sent,
      elim (Bool-cases (ltb seconds notify_secs)) [
        | inl soon ↦ rw soon (
            ap Node.requests (recent_quiet name (later seconds n1) (recent ∙ soon))
            ∙ sym (append-nil n1.requests))
        | inr late ↦ rw late (
            ap Node.requests (not_recent_sent name (later seconds n1) (recent ∙ late))
            ∙ requests-send_each (file_changed name) n1.state.connected_peers
                (noted name (later seconds n1))
            ∙ ap (λ peers. n1.requests ++ to_each (file_changed name) peers) same_peers)
      ],
    )
