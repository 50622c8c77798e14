-- ===== src/Main/Loop.antt =====
-- src/main.rs: the event loop. A round of it, a delayed task and a watcher's answer are steps; each
-- holds the lock while it acts.
use vitruvius.Base.{
  ℕ, ◌+◌, ◌-◌, ◌≡◌, Bool, false, Option, none, some, List, [], ◌∷◌, ◌++◌, map, ltb, if◌then◌else◌,
  nat_eq, list_eq, lookup, insert, remove, delete, Text,
}
use vitruvius.Paths.{FilePath}
use vitruvius.Fs.{Fs}
use vitruvius.Network.{SyncMessage}
use vitruvius.Storage.Listing.{list_folder_all}
use vitruvius.Sync.{
  Env, Node, Delayed, forget_writing, forget_deleting, refresh_listing, folder_listing, emit,
  send_request, with_state,
}
use vitruvius.Sync.Commands.{GuiCommand, on_command, file_info}
use vitruvius.Sync.Swarm.{SwarmEvent, on_swarm_event}
use vitruvius.Sync.Scheduler.{check_stalls}
use vitruvius.Watcher.{WatchNotification, FsEvent, Watch, new_watch, on_fs_event, on_debounce}
use vitruvius.Watcher.{file_changed as changed, file_deleted as deleted}
use vitruvius.Network.{file_changed, file_deleted}

-- One message to each of the peers.
unfoldable pub send_each : SyncMessage → List Text → Node → Node
send_each msg [] n = n
send_each msg (peer ∷ peers) n = send_each msg peers (send_request peer msg n)

-- `t.elapsed().as_secs() < 5`
abbrev pub notify_secs : ℕ
notify_secs = 5

abbrev pub is_recent : ℕ → Option ℕ → Bool
is_recent now none = false
is_recent now (some t) = ltb (now - t) notify_secs

-- What the loop does with a watcher's notification: a change is passed on to the connected peers
-- unless one of the same file has been within five seconds, and a deletion always.
unfoldable pub on_notification : WatchNotification → Node → Node
on_notification (changed name) n =
    let noted =
      with_state (λ st. record st { recently_notified = insert name n.now st.recently_notified })
        n in
    if is_recent n.now (lookup name n.state.recently_notified)
    then n
    else send_each (file_changed name) n.state.connected_peers noted
on_notification (deleted name) n =
    send_each (file_deleted name) n.state.connected_peers
      (with_state (λ st. record st { recently_notified = remove name st.recently_notified }) n)

-- The tasks that have slept: the watcher may notify a path again, or the listing is shown.
abbrev pub forget_written : FilePath → Node → Node
forget_written path = with_state (λ st. record st { writing_files = delete path st.writing_files })

abbrev pub forget_deleted : FilePath → Node → Node
forget_deleted path =
    with_state (λ st. record st { deleting_files = delete path st.deleting_files })

abbrev pub show_files : Env → FilePath → Node → Node
show_files env path n =
    emit (folder_listing (map file_info (list_folder_all env.primitives n.fs path))) n

unfoldable pub run_delayed : Env → Delayed → Node → Node
run_delayed env (forget_writing path) n = forget_written path n
run_delayed env (forget_deleting path) n = forget_deleted path n
run_delayed env (refresh_listing path) n = show_files env path n

-- The node, the running watchers and the channel of their notifications.
pub record System : Type 0 where
  pub node : Node
  pub watches : List Watch
  pub pending : List WatchNotification

abbrev pub with_node : (Node → Node) → System → System
with_node f s = record s { node = f s.node }

-- What a watcher has notified goes to the channel.
abbrev send_notes : List Watch → Watch → List Watch → System → System
send_notes before w later s = record s {
  watches = before ++ (record w { notified = [] } ∷ later);
  pending = s.pending ++ w.notified;
}

module _ (env : Env) (node_name : Text) where
  pub data Step : System → System → Type 0 where
    command : (s : System) (cmd : GuiCommand) → Step s (with_node (on_command env node_name cmd) s)
    swarm_event :
        (s : System) (event : SwarmEvent) → Step s (with_node (on_swarm_event env event) s)
    -- `watch_rx.recv()`
    watch :
        (s : System) (path : FilePath) (rest : List FilePath)
        → s.node.watched ≡ path ∷ rest
        → Step s (record s {
          node = record s.node { watched = rest };
          watches = s.watches ++ new_watch path ∷ [];
        })
    -- `notify_rx.recv()`
    notification :
        (s : System) (note : WatchNotification) (rest : List WatchNotification)
        → s.pending ≡ note ∷ rest
        → Step s (record s { node = on_notification note s.node; pending = rest })
    stall_tick : (s : System) → Step s (with_node check_stalls s)
    fs_event :
        (s : System) (before later : List Watch) (w : Watch) (event : FsEvent)
        → s.watches ≡ before ++ w ∷ later
        → Step s (send_notes before (on_fs_event s.node.state s.node.fs event w) later s)
    debounce :
        (s : System) (before later : List Watch) (w : Watch)
        → s.watches ≡ before ++ w ∷ later
        → Step s (record s {
          node = (on_debounce env w s.node).1;
          watches = before ++ (on_debounce env w s.node).0 ∷ later;
        })
    wake :
        (s : System) (before later : List Delayed) (task : Delayed)
        → s.node.delayed ≡ before ++ task ∷ later
        → Step s (with_node (λ n. run_delayed env task (record n { delayed = before ++ later })) s)
    -- Time passes, and other programs change the disk.
    outside :
        (s : System) (fs : Fs) (seconds : ℕ)
        → Step s (with_node (λ n. record n { fs = fs; now = n.now + seconds }) s)

  pub data Reach : System → System → Type 0 where
    done : (s : System) → Reach s s
    next : (s t u : System) → Step s t → Reach t u → Reach s u
