-- ===== src/Watcher/Suppressing.antt =====
-- src/watcher.rs: which events of the disk become notifications.
use mathlib.Core.List.{reverse, reverse-reverse, reverse-append}
use mathlib.Core.Option.{some-injective}
use vitruvius.Base.{
  ◌==◌, eq_of_==, Option-cases, sym, ap, ap₂, ◌∙◌, ◌≡◌, refl, inl, inr, true, false, Option, none,
  some, List, [], ◌∷◌, ◌++◌, Bool-cases, All, nat_eq, list_eq, contains, Text, Option-cases, sym,
}
use vitruvius.Paths.{FilePath, strip_prefix, join, slash}
use vitruvius.Fs.{Fs, is_file}
use vitruvius.State.{AppState}
use vitruvius.Watcher.{
  to_slashes, WatchNotification, FsEvent, created_or_modified, removed, other_kind, Watch,
  on_fs_event, changed_notes, removed_notes, watched_name, note, file_changed, file_deleted,
  reverse, to_slashes,
}

-- A path, last component first, lies at or below the folder: it has the folder's components and
-- then `comps`, which joined by slashes, with slashes for backslashes, are the name. The folder
-- itself has no further component, and its name is empty.
abbrev pub NamedIn : FilePath → FilePath → Text → Type 0
NamedIn root p name =
    (comps : List Text) × (p ≡ reverse comps ++ root) × (name ≡ to_slashes (join slash comps))

-- A notification is right: of a change, if it names a regular file at or below the folder that is
-- not being written by the program; of a removal, if it names a path at or below the folder that is
-- not being deleted by the program.
pub data Right (st : AppState) (fs : Fs) (root : FilePath) : WatchNotification → Type 0 where
  right_change :
      (p : FilePath) (name : Text)
      → NamedIn root p name
      → is_file fs p ≡ true
      → contains st.writing_files p ≡ false
      → Right st fs root (file_changed name)
  right_removal :
      (p : FilePath) (name : Text)
      → NamedIn root p name
      → contains st.deleting_files p ≡ false
      → Right st fs root (file_deleted name)

-- What `strip_prefix` leaves follows the prefix.
strip_prefix-append :
    (root path comps : List Text) → strip_prefix root path ≡ some comps → path ≡ root ++ comps
unfolding strip_prefix
strip_prefix-append [] path comps e = cc
strip_prefix-append (r ∷ root) [] comps e = cc
strip_prefix-append (r ∷ root) (c ∷ path) comps e = elim (Bool-cases (r == c)) [
  | inr other ↦ absurd (cc (rw (other, strip_prefix) at e))
  | inl same ↦
      ap₂ (λ x xs. x ∷ xs) (sym (eq_of_== r c same))
        (strip_prefix-append root path comps (rw (same, strip_prefix) at e))
]

watched_name-NamedIn :
    (root p : FilePath) (name : Text) → watched_name root p ≡ some name → NamedIn root p name
unfolding watched_name
watched_name-NamedIn root p name e = elim (Option-cases (strip_prefix (reverse root) (reverse p))) [
  | inl outside ↦ absurd (cc (rw (outside, watched_name) at e))
  | inr (comps, found) ↦ (
    comps,
    sym (reverse-reverse p)
        ∙ ap reverse (strip_prefix-append (reverse root) (reverse p) comps found)
        ∙ reverse-append (reverse root) comps
        ∙ ap (λ r. reverse comps ++ r) (reverse-reverse root),
    some-injective _ _ (sym e ∙ rw (found, watched_name) refl),
  )
]

module _ (st : AppState) (fs : Fs) (root : FilePath) where
  All-append :
      (xs ys : List WatchNotification)
      → All (Right st fs root) xs
      → All (Right st fs root) ys
      → All (Right st fs root) (xs ++ ys)
  All-append [] ys first rest = rest
  All-append (x ∷ xs) ys (r, first) rest = (r, All-append xs ys first rest)

  changed_note-Right :
      (p : FilePath) (o : Option Text)
      → watched_name root p ≡ o
      → is_file fs p ≡ true
      → contains st.writing_files p ≡ false
      → All (Right st fs root) (note file_changed o)
  changed_note-Right p none named file own = tt
  changed_note-Right p (some name) named file own =
      (Right.right_change p name (watched_name-NamedIn root p name named) file own, tt)

  removed_note-Right :
      (p : FilePath) (o : Option Text)
      → watched_name root p ≡ o
      → contains st.deleting_files p ≡ false
      → All (Right st fs root) (note file_deleted o)
  removed_note-Right p none named own = tt
  removed_note-Right p (some name) named own =
      (Right.right_removal p name (watched_name-NamedIn root p name named) own, tt)

  changed_notes-Right : (ps : List FilePath) → All (Right st fs root) (changed_notes st fs root ps)
  unfolding changed_notes
  changed_notes-Right [] = tt
  changed_notes-Right (p ∷ ps) =
      let rest = changed_notes-Right ps in
      elim (Bool-cases (is_file fs p)) [
        | inr no_file ↦ rw (no_file, changed_notes) rest
        | inl file ↦ elim (Bool-cases (contains st.writing_files p)) [
          | inl own ↦ rw (file, own, changed_notes) rest
          | inr other ↦
              rw (file, other, changed_notes)
                (All-append (note file_changed (watched_name root p)) (changed_notes st fs root ps)
                  (changed_note-Right p (watched_name root p) refl file other) rest)
        ]
      ]

  removed_notes-Right : (ps : List FilePath) → All (Right st fs root) (removed_notes st root ps)
  unfolding removed_notes
  removed_notes-Right [] = tt
  removed_notes-Right (p ∷ ps) =
      let rest = removed_notes-Right ps in
      elim (Bool-cases (contains st.deleting_files p)) [
        | inl own ↦ rw (own, removed_notes) rest
        | inr other ↦
            rw (other, removed_notes)
              (All-append (note file_deleted (watched_name root p)) (removed_notes st root ps)
                (removed_note-Right p (watched_name root p) refl other) rest)
      ]

-- If what a watcher has notified is right, then after any event of the disk it is: every change
-- that it notifies is of a regular file at or below its folder that the program is not writing
-- itself, and every removal of a path at or below its folder that the program is not deleting
-- itself, under the name that the components after the folder's give.
pub on_fs_event-Right :
    (st : AppState) (fs : Fs) (event : FsEvent) (w : Watch)
    → All (Right st fs w.path) w.notified
    → All (Right st fs w.path) (on_fs_event st fs event w).notified
unfolding on_fs_event
on_fs_event-Right st fs (created_or_modified ps) w before =
    All-append st fs w.path w.notified (changed_notes st fs w.path ps) before
      (changed_notes-Right st fs w.path ps)
on_fs_event-Right st fs (removed ps) w before =
    All-append st fs w.path w.notified (removed_notes st w.path ps) before
      (removed_notes-Right st fs w.path ps)
on_fs_event-Right st fs other_kind w before = before
