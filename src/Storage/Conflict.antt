-- ===== src/Storage/Conflict.antt =====
-- src/storage.rs: a local file that differs from the incoming one is kept under another name.
use vitruvius.Base.{
  ℕ, ◌≡◌, sym, ap, subst, ◌∙◌, inl, inr, true, false, Option, none, some, ◌∷◌, arith, if◌then◌else◌,
  Option-cases, range, ◌==◌, nat_eq, list_eq, list_beq, Bytes, Text, Result, ok, err,
}
use vitruvius.Paths.{FilePath, dotdot, file_name, set_file_name, stem_ext, rel_to_abs, parent}
use vitruvius.Fs.{
  Fs, Node, dir, file, node_at, resolve, stat, exists, is_directory, read_file, put, take_away,
}
use vitruvius.Fs.Laws.{nonroot_of, stat-resolve, resolve-put, node_at-put, node_at-put_self}
use vitruvius.Fs.Renaming.{is_directory-take_away, resolve-take_away}
use vitruvius.Fs.Dirs.{parent-resolve, create_dir_all-there}
use vitruvius.Fs.Written.{Written}
use vitruvius.Fs.Actions.{>>=-eq-ok}
use vitruvius.Storage.{FileMetadata, FileTransferState}
use vitruvius.Storage.Reassembly.{
  conflict_of, conflict_name, keep_conflicting, incoming_bytes, reassemble_plain, create_parents,
}
use vitruvius.Storage.Reassembling.{open_and_write}
use vitruvius.Base.{list_beq, io_not_found, io_not_a_file}
use mathlib.Core.Option.{some-injective}
use vitruvius.Storage.ConflictName.{
  length-conflict_of, differs-length, differs-longer, resolve-child, set_file_name-long,
  rename-within,
}

-- The file that stood at the source is found at the target after another file has been written at
-- the source.
read_file-kept :
    (fs after : Fs) (src dst s d : FilePath) (old whole : Bytes)
    → resolve fs src ≡ some s
    → resolve fs dst ≡ some d
    → node_at fs s ≡ some (file old)
    → is_directory (node_at fs d) ≡ false
    → (s == d) ≡ false
    → Written src whole (put d (file old) (take_away s fs)) after
    → read_file after dst ≡ ok old
unfolding read_file
read_file-kept fs after src dst s d old whole from to held free differ w =
    let s_file : is_directory (node_at fs s) ≡ false = ap is_directory held in
    let s_nonroot = nonroot_of s fs s_file in
    let d_nonroot = nonroot_of d fs free in
    let gone = take_away s fs in
    let moved = put d (file old) gone in
    let free_then = is_directory-take_away s d fs s_nonroot s_file ∙ free in
    let at_moved : (p : FilePath) → resolve moved p ≡ resolve fs p = λ p.
      resolve-put d p old gone d_nonroot free_then ∙ resolve-take_away s p fs s_nonroot s_file in
    let same_handle : w.handle ≡ s =
      some-injective w.handle s (sym w.resolves ∙ (at_moved src ∙ from)) in
    let at_after : resolve after dst ≡ some d =
      ap (λ f. resolve f dst) w.changed
      ∙ (resolve-put w.handle dst whole moved w.nonroot w.no_dir ∙ (at_moved dst ∙ to)) in
    let other : (w.handle == d) ≡ false = ap (λ h. h == d) same_handle ∙ differ in
    let node : node_at after d ≡ some (file old) =
      ap (λ f. node_at f d) w.changed
      ∙ (node_at-put w.handle d (file whole) moved w.nonroot
          ∙ (ap (λ b. if b then some (file whole) else node_at moved d) other
              ∙ node_at-put_self d (file old) gone d_nonroot)) in
    let found : stat after dst ≡ some (file old) = stat-resolve dst d after at_after ∙ node in
    rw (found, read_file)

file_there :
    (fs : Fs) (p : FilePath) (b : Bytes)
    → stat fs p ≡ some (file b)
    → (exists fs p ≡ true) × (read_file fs p ≡ ok b)
unfolding exists read_file
file_there fs p b e = (rw (e, exists), rw (e, read_file))

keep_conflicting-moves :
    (fs : Fs) (out s d : FilePath) (coming old : Bytes) (secs : ℕ)
    → resolve fs out ≡ some s
    → resolve fs (set_file_name out (conflict_name out secs)) ≡ some d
    → node_at fs s ≡ some (file old)
    → is_directory (node_at fs d) ≡ false
    → (old == coming) ≡ false
    → keep_conflicting out coming secs fs ≡ (ok tt, put d (file old) (take_away s fs))
unfolding keep_conflicting
keep_conflicting-moves fs out s d coming old secs from to held free other =
    let found : stat fs out ≡ some (file old) = stat-resolve out s fs from ∙ held in
    let (there, readable) = file_there fs out old found in
    let renamed =
      rename-within fs out (set_file_name out (conflict_name out secs)) s d old from to held free in
    rw (readable, there, other, keep_conflicting)
      (ap (λ (r : Result (Unit {0}) × Fs). (ok tt, r.1)) renamed)

-- A file that can be read stands where its path resolves.
read_file-node :
    (fs : Fs) (p : FilePath) (b : Bytes)
    → read_file fs p ≡ ok b
    → (h : FilePath) × (resolve fs p ≡ some h) × (node_at fs h ≡ some (file b))
unfolding read_file stat
read_file-node fs p b e = elim (Option-cases (resolve fs p)) [
  | inl missing ↦ absurd (cc (rw (missing, stat, read_file) at e))
  | inr (h, there) ↦ (h, there, go (node_at fs h) (rw (there, stat, read_file) at e))
]
  where
    go :
        (o : Option Node)
        → ◌≡◌ {A = Result Bytes}
            (elim o [
              | none ↦ err io_not_found
              | some n ↦ elim n [ dir ↦ err io_not_a_file | file c ↦ ok c ]
            ])
            (ok b)
        → o ≡ some (file b)
    go none bad = cc
    go (some dir) bad = cc
    go (some (file c)) good = cc

heads_differ :
    (c name : Text) (d : FilePath) → (c == name) ≡ false → ((c ∷ d) == (name ∷ d)) ≡ false
unfolding list_beq
heads_differ c name d e = rw e

parent_there :
    (fs : Fs) (c : Text) (p d : FilePath)
    → resolve fs p ≡ some d
    → node_at fs d ≡ some dir
    → create_parents (parent (c ∷ p)) fs ≡ (ok tt, fs)
unfolding parent
parent_there fs c p d there is_dir = create_dir_all-there fs p d there is_dir

module _ (ts : FileTransferState) (meta : FileMetadata) (secs : ℕ) where
  abbrev target : FilePath
  target = rel_to_abs ts.sync_dir meta.file_name

  abbrev incoming : Bytes
  incoming = incoming_bytes ts.received_chunks (range meta.total_chunks)

  -- The path under which the local file is kept.
  abbrev pub conflict_path : FilePath
  conflict_path = set_file_name target (conflict_name target secs)

  kept_then_written :
      (before after : Fs) (path s d : FilePath) (old : Bytes)
      → resolve before target ≡ some s
      → resolve before conflict_path ≡ some d
      → node_at before s ≡ some (file old)
      → is_directory (node_at before d) ≡ false
      → (s == d) ≡ false
      → (old == incoming) ≡ false
      → create_parents (parent target) before ≡ (ok tt, before)
      → reassemble_plain ts meta secs before ≡ (ok path, after)
      → read_file after conflict_path ≡ ok old
  unfolding reassemble_plain
  kept_then_written before after path s d old from to held free differ other parents e =
      let (_, _, kept) = >>=-eq-ok _ (create_parents (parent target)) before e in
      let fs1 = (create_parents (parent target) before).1 in
      let (_, _, opened) = >>=-eq-ok _ (keep_conflicting target incoming secs) fs1 kept in
      let fs2 = (keep_conflicting target incoming secs fs1).1 in
      let (_, w, _) = open_and_write ts meta secs target path fs2 after opened in
      let moved = put d (file old) (take_away s before) in
      let is_moved : fs2 ≡ moved =
        ap (λ (r : Result (Unit {0}) × Fs). (keep_conflicting target incoming secs r.1).1) parents
        ∙ ap (λ (r : Result (Unit {0}) × Fs). r.1)
            (keep_conflicting-moves before target s d incoming old secs from to held free other) in
      read_file-kept before after target conflict_path s d old incoming from to held free differ
        (subst (λ f. Written target incoming f after) is_moved w)

  -- If the target's file name is not `..`, a file stands there with other contents than the
  -- incoming ones, and no directory stands at the new path: when the plaintext branch of the
  -- reassembly succeeds, the contents that stood at the target are found at the new path.
  pub reassemble_plain-keeps_conflicting :
      (before after : Fs) (path p : FilePath) (c : Text) (old : Bytes)
      → target ≡ c ∷ p
      → (c == dotdot) ≡ false
      → read_file before target ≡ ok old
      → (old == incoming) ≡ false
      → is_directory (stat before conflict_path) ≡ false
      → reassemble_plain ts meta secs before ≡ (ok path, after)
      → read_file after conflict_path ≡ ok old
  unfolding conflict_name file_name
  reassemble_plain-keeps_conflicting before after path p c old is plain readable other free e =
      let (s, from, held) = read_file-node before target old readable in
      let at_c : resolve before (c ∷ p) ≡ some s = ap (resolve before) (sym is) ∙ from in
      let (d, above, is_dir) = parent-resolve before c p s at_c in
      let same_s : s ≡ c ∷ d =
        some-injective s (c ∷ d) (sym at_c ∙ resolve-child before c p d above is_dir plain) in
      let name = conflict_of secs (some (stem_ext c)) in
      let long = length-conflict_of secs c in
      let named : conflict_name (c ∷ p) secs ≡ name = rw plain in
      let at_conflict : conflict_path ≡ name ∷ p =
        ap (λ t. set_file_name t (conflict_name t secs)) is
        ∙ (ap (set_file_name (c ∷ p)) named ∙ set_file_name-long c name p plain (omega arith)) in
      let to : resolve before conflict_path ≡ some (name ∷ d) =
        ap (resolve before) at_conflict
        ∙ resolve-child before name p d above is_dir (differs-longer name dotdot (omega arith)) in
      let free_d : is_directory (node_at before (name ∷ d)) ≡ false =
        ap is_directory (sym (stat-resolve conflict_path (name ∷ d) before to)) ∙ free in
      let differ : (s == (name ∷ d)) ≡ false =
        ap (λ h. h == (name ∷ d)) same_s
        ∙ heads_differ c name d (differs-length c name (omega arith)) in
      let parents : create_parents (parent target) before ≡ (ok tt, before) =
        ap (λ t. create_parents (parent t) before) is ∙ parent_there before c p d above is_dir in
      kept_then_written before after path s (name ∷ d) old from to held free_d differ other parents
        e
