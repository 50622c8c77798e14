-- ===== src/Tests/Running.antt =====
-- Runs of the event loop and of a watcher.
use vitruvius.Base.{
  ◌≡◌, refl, false, none, some, [], ◌∷◌, ◌++◌, arith, ltb, if◌then◌else◌, All, nat_eq, list_eq,
  lookup, List, ℕ, map, length, ◌≤◌,
}
use vitruvius.Storage.{FileTransferState}
use vitruvius.Sync.{Node, window}
use vitruvius.Sync.Limits.{Limited}
use vitruvius.Sync.Commands.{request_sync, on_command}
use vitruvius.Sync.Scheduler.{check_file, check_stalls}
use vitruvius.Sync.Missing.{Ascending}
use vitruvius.Storage.{FileMetadata}
use vitruvius.Sync.Stalls.{check_file-stalled, asking, Missing, Asked}
use vitruvius.Watcher.{Watch, new_watch, on_fs_event, created_or_modified, file_changed as changed}
use vitruvius.Watcher.Suppressing.{Right, on_fs_event-Right}
use vitruvius.Main.Loop.{System, Step, Reach, with_node, on_notification, is_recent, notify_secs}
use vitruvius.Main.Limits.{Reach-Limited}
use vitruvius.Main.Notifying.{on_notification-once, to_each, later}
use vitruvius.Network.{file_changed}
use vitruvius.Tests.Handlers.{alice, bob, env, node_with, sharing}

-- Bob sends one file, of which nothing has come.
abbrev waiting : FileTransferState
waiting = record {
  metadata = some (record {
    file_name = 97 ∷ [];
    total_chunks = 2;
    file_size = 600000;
    is_vault = false;
    chunk_hashes = (1 ∷ []) ∷ (2 ∷ []) ∷ [];
  });
  received_chunks = [];
  sync_dir = [];
  next_request = 2;
  last_activity = 0;
  file_id = none;
}

abbrev downloading : Node
downloading = record (node_with sharing) {
  transfers = (bob, record { active = ((97 ∷ []), waiting) ∷ []; queue = [] }) ∷ [];
  now = 30;
}

abbrev begun : System
begun = record { node = downloading; watches = []; pending = [] }

abbrev asked : System
asked = with_node (on_command env alice (request_sync bob)) begun

abbrev checked : System
checked = with_node check_stalls asked

Reach-Limited_example : Limited checked.node
Reach-Limited_example =
    Reach-Limited env alice begun checked
      (Reach.next begun asked checked (Step.command begun (request_sync bob))
        (Reach.next asked checked checked (Step.stall_tick asked) (Reach.done checked)))
      (omega arith, tt)

abbrev announced : FileMetadata
announced = record {
  file_name = 97 ∷ [];
  total_chunks = 2;
  file_size = 600000;
  is_vault = false;
  chunk_hashes = (1 ∷ []) ∷ (2 ∷ []) ∷ [];
}

check_file-stalled_example :
    (is : List ℕ) × ((check_file bob (97 ∷ []) waiting downloading).1.requests
      ≡ downloading.requests ++ map (λ i. (bob, asking none (97 ∷ []) i)) is)
    × All (Missing waiting announced) is
    × Ascending 0 is
    × (length is ≤ window)
    × Asked downloading waiting announced is
    × ((check_file bob (97 ∷ []) waiting downloading).0.received_chunks ≡ waiting.received_chunks)
check_file-stalled_example = check_file-stalled bob (97 ∷ []) waiting downloading announced refl

abbrev connected : Node
connected = node_with (record sharing { connected_peers = bob ∷ [] })

not_notified : is_recent 0 (lookup (97 ∷ []) connected.state.recently_notified) ≡ false
unfolding lookup
not_notified = refl

on_notification-once_example :
    ((on_notification (changed (97 ∷ [])) connected).requests
      ≡ [] ++ to_each (file_changed (97 ∷ [])) (bob ∷ []))
    × ((on_notification
          (changed (97 ∷ []))
          (later 7 (on_notification (changed (97 ∷ [])) connected))).requests
        ≡ (on_notification (changed (97 ∷ [])) connected).requests
          ++ (if ltb 7 notify_secs then [] else to_each (file_changed (97 ∷ [])) (bob ∷ [])))
on_notification-once_example = on_notification-once (97 ∷ []) connected 7 not_notified

abbrev watched : Watch
watched =
    on_fs_event sharing connected.fs (created_or_modified (((97 ∷ []) ∷ []) ∷ [])) (new_watch [])

on_fs_event-Right_example : All (Right sharing connected.fs []) watched.notified
on_fs_event-Right_example =
    on_fs_event-Right sharing connected.fs (created_or_modified (((97 ∷ []) ∷ []) ∷ []))
      (new_watch []) tt
