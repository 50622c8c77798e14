-- ===== src/Main/Limits.antt =====
-- src/main.rs: what every run of the event loop keeps.
use vitruvius.Base.{refl, inl, inr, List, [], ◌∷◌, ◌++◌, Bool-cases, nat_eq, list_eq, lookup, Text}
use vitruvius.Network.{SyncMessage}
use vitruvius.Sync.{Env, Node, Delayed, forget_writing, forget_deleting, refresh_listing}
use vitruvius.Sync.Idle.{Idle}
use vitruvius.Sync.Idle.Commands.{on_command-Idle}
use vitruvius.Sync.Commands.{on_command}
use vitruvius.Sync.Limits.{Limited, Idle-Limited}
use vitruvius.Sync.Limits.Events.{on_swarm_event-Limited, check_stalls-Limited}
use vitruvius.Watcher.{WatchNotification, Watch, on_debounce}
use vitruvius.Watcher.{file_changed as changed, file_deleted as deleted}
use vitruvius.Main.Loop.{System, Step, Reach, send_each, on_notification, run_delayed, is_recent}

send_each-Idle : (msg : SyncMessage) (peers : List Text) (n : Node) → Idle n (send_each msg peers n)
unfolding send_each
send_each-Idle msg [] n = refl
send_each-Idle msg (peer ∷ peers) n = send_each-Idle msg peers _

on_notification-Idle : (note : WatchNotification) (n : Node) → Idle n (on_notification note n)
unfolding on_notification
on_notification-Idle (changed name) n =
    elim (Bool-cases (is_recent n.now (lookup name n.state.recently_notified))) [
      | inl e ↦ rw (e, on_notification)
      | inr e ↦ rw (e, on_notification) (send_each-Idle _ n.state.connected_peers _)
    ]
on_notification-Idle (deleted name) n = send_each-Idle _ n.state.connected_peers _

run_delayed-Idle : (env : Env) (task : Delayed) (n : Node) → Idle n (run_delayed env task n)
unfolding run_delayed
run_delayed-Idle env (forget_writing path) n = refl
run_delayed-Idle env (forget_deleting path) n = refl
run_delayed-Idle env (refresh_listing path) n = refl

on_debounce-Idle : (env : Env) (w : Watch) (n : Node) → Idle n (on_debounce env w n).1
unfolding on_debounce
on_debounce-Idle env w n = elim (Bool-cases w.dirty) [
  | inl e ↦ rw (e, on_debounce)
  | inr e ↦ rw (e, on_debounce)
]

module _ (env : Env) (node_name : Text) where
  Step-Limited : (s t : System) → Step env node_name s t → Limited s.node → Limited t.node
  Step-Limited _ _ (Step.command s cmd) limited =
      Idle-Limited s.node (on_command env node_name cmd s.node)
        (on_command-Idle env node_name cmd s.node) limited
  Step-Limited _ _ (Step.swarm_event s event) limited =
      on_swarm_event-Limited env event s.node limited
  Step-Limited _ _ (Step.watch s path rest e) limited = limited
  Step-Limited _ _ (Step.notification s note rest e) limited =
      Idle-Limited s.node (on_notification note s.node) (on_notification-Idle note s.node) limited
  Step-Limited _ _ (Step.stall_tick s) limited = check_stalls-Limited s.node limited
  Step-Limited _ _ (Step.fs_event s before later w event e) limited = limited
  Step-Limited _ _ (Step.debounce s before later w e) limited =
      Idle-Limited s.node (on_debounce env w s.node).1 (on_debounce-Idle env w s.node) limited
  Step-Limited _ _ (Step.wake s before later task e) limited =
      Idle-Limited s.node (run_delayed env task (record s.node { delayed = before ++ later }))
        (run_delayed-Idle env task (record s.node { delayed = before ++ later })) limited
  Step-Limited _ _ (Step.outside s fs seconds) limited = limited

  -- If no peer has more than three active downloads in a state of the program, then no peer has in
  -- any state that the program reaches from it: by commands, network events, watchers' events and
  -- notifications, ticks, delayed tasks, and changes of the disk from outside, in any order.
  pub Reach-Limited : (s t : System) → Reach env node_name s t → Limited s.node → Limited t.node
  Reach-Limited _ _ (Reach.done s) limited = limited
  Reach-Limited _ _ (Reach.next s t u step later) limited =
      Reach-Limited t u later (Step-Limited s t step limited)
