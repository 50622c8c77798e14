-- ===== src/Watcher.antt =====
-- src/watcher.rs: the watch on a folder. The crate `notify` delivers the events; a watcher answers
-- each as a whole, and on a tick of its ticker lists the folder again if something has happened.
pub mod Suppressing
use vitruvius.Base.{
  ℕ, zero, suc, ◌+◌, ◌-◌, ◌*◌, ◌/◌, ◌%◌, ◌^◌, ◌≤◌, ◌<◌, min, max, ◌≡◌, refl, sym, ap, ap₂, subst,
  ◌∙◌, ◌≢◌, ◌↔◌, ◌⊎◌, inl, inr, Bool, true, false, not, ◌&&◌, ◌||◌, Option, none, some, List, [],
  ◌∷◌, ◌++◌, map, append-nil, append_assoc, arith, ltb, leb, nat_beq, nat_beq_iff, if◌then◌else◌,
  is_some, is_empty, ltb→lt, lt→ltb, le→ltb_false, Bool-cases, Option-cases, List-cases, length,
  get_elem?, take, drop, replicate, concat, All, sum, range_from, range, keep_if, length-append,
  take-append-drop, length-take, length-drop, length-map, take-append, drop-append, drop-all,
  take-all, drop-nil, take-nil, take-add, drop-drop, get_elem?-lt, get_elem?-eq_none, Eq, ◌==◌,
  ==_refl, eq_of_==, nat_eq, list_eq, list_beq, list_beq_iff, contains, Dict, lookup, contains_key,
  insert, remove, lookup-insert, lookup-insert_self, lookup-remove, contains_key-remove,
  insert-insert, contains_key-eq_none, length-insert-le, length-remove-le, add, delete,
  contains-add, contains-delete, Bytes, Text, le_bytes, from_le_bytes, u32_bytes, u64_bytes, as_u32,
  Error, Result, ok, err, or_fail, >>=-eq-ok as bind-eq-ok, Result-cases, ◌>>=◌ as bind, guard,
}
use mathlib.Core.List.{reverse}
use vitruvius.Paths.{FilePath, strip_prefix, join, slash, backslash}
use vitruvius.Fs.{Fs, is_file}
use vitruvius.State.{AppState}
use vitruvius.Storage.Listing.{list_folder_all}
use vitruvius.Sync.{Env, Node, folder_listing, emit}
use vitruvius.Sync.Commands.{file_info}

pub data WatchNotification : Type 0 where
  file_changed : Text → WatchNotification
  file_deleted : Text → WatchNotification

-- `notify::Event`, as far as the watcher looks at it.
pub data FsEvent : Type 0 where
  created_or_modified : List FilePath → FsEvent
  removed : List FilePath → FsEvent
  other_kind : FsEvent

-- The task of `run_watcher`: the folder, whether a listing is due, and what it has notified.
pub record Watch : Type 0 where
  pub path : FilePath
  pub dirty : Bool
  pub notified : List WatchNotification

abbrev pub new_watch : FilePath → Watch
new_watch path = record { path = path; dirty = false; notified = [] }

-- `s.replace('\\', "/")`
unfoldable pub to_slashes : Text → Text
to_slashes [] = []
to_slashes (c ∷ s) = (if c == backslash then slash else c) ∷ to_slashes s

-- The name of a path below the folder, if it lies there.
unfoldable pub watched_name : FilePath → FilePath → Option Text
watched_name root p = elim (strip_prefix (reverse root) (reverse p)) [
  | none ↦ none
  | some comps ↦ some (to_slashes (join slash comps))
]

abbrev pub note : (Text → WatchNotification) → Option Text → List WatchNotification
note kind none = []
note kind (some name) = kind name ∷ []

-- Files that the program writes itself are passed over.
unfoldable pub changed_notes : AppState → Fs → FilePath → List FilePath → List WatchNotification
changed_notes st fs root [] = []
changed_notes st fs root (p ∷ ps) =
    (if is_file fs p && not (contains st.writing_files p)
      then note file_changed (watched_name root p)
      else [])
    ++ changed_notes st fs root ps

-- So are files that the program deletes itself.
unfoldable pub removed_notes : AppState → FilePath → List FilePath → List WatchNotification
removed_notes st root [] = []
removed_notes st root (p ∷ ps) =
    (if contains st.deleting_files p then [] else note file_deleted (watched_name root p))
    ++ removed_notes st root ps

abbrev notify_all : List WatchNotification → Watch → Watch
notify_all notes w = record w { dirty = true; notified = w.notified ++ notes }

unfoldable pub on_fs_event : AppState → Fs → FsEvent → Watch → Watch
on_fs_event st fs (created_or_modified paths) w = notify_all (changed_notes st fs w.path paths) w
on_fs_event st fs (removed paths) w = notify_all (removed_notes st w.path paths) w
on_fs_event st fs other_kind w = w

-- The tick of the ticker.
unfoldable pub on_debounce : Env → Watch → Node → Watch × Node
on_debounce env w n =
    if w.dirty
    then (
      record w { dirty = false },
      emit (folder_listing (map file_info (list_folder_all env.primitives n.fs w.path))) n,
    )
    else (w, n)
