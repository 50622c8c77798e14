-- ===== src/Fs/Laws.antt =====
-- Laws of the file system: what a write to one file leaves as it was.
use vitruvius.Base.{
  ◌∙◌, sym, subst, inl, inr, Bool-cases, Option-cases, ◌≡◌, ◌≢◌, refl, ap, Option, none, some, [],
  ◌∷◌, ◌++◌, Bytes, false, lookup-insert, insert-insert, nat_eq, list_eq, ◌==◌, eq_of_==,
  list_beq_iff, arith, ok, if◌then◌else◌,
}
use vitruvius.Paths.{FilePath}
use vitruvius.Fs.{
  Fs, Node, dir, file, node_at, resolve, stat, read_file, create, create_at, write_all, put,
  is_directory,
}

-- The handle of a file is not the root.
abbrev pub IsHandle : FilePath → Type 0
IsHandle h = h ≢ []

pub node_at-put :
    (h p : FilePath) (n : Node) (fs : Fs)
    → IsHandle h
    → node_at (put h n fs) p ≡ (if h == p then some n else node_at fs p)
unfolding node_at
node_at-put h [] n fs nonroot = ground (arith, list_beq_iff h [])
node_at-put h (c ∷ p) n fs nonroot = lookup-insert (c ∷ p) h n fs.entries

pub node_at-put_self :
    (h : FilePath) (n : Node) (fs : Fs) → IsHandle h → node_at (put h n fs) h ≡ some n
node_at-put_self h n fs nonroot = ground (arith, node_at-put h h n fs nonroot, list_beq_iff h h)

pub is_directory-put :
    (h d : FilePath) (b : Bytes) (fs : Fs)
    → IsHandle h
    → is_directory (node_at fs h) ≡ false
    → is_directory (node_at (put h (file b) fs) d) ≡ is_directory (node_at fs d)
is_directory-put h d b fs nonroot nodir = elim (Bool-cases (h == d)) [
  | inl same ↦
      rw (node_at-put h d (file b) fs nonroot, same)
        (sym (subst (λ x. is_directory (node_at fs x) ≡ false) (eq_of_== h d same) nodir))
  | inr differ ↦ rw (node_at-put h d (file b) fs nonroot, differ)
]

-- Writing a file where there is no directory changes no path's meaning.
pub resolve-put :
    (h p : FilePath) (b : Bytes) (fs : Fs)
    → IsHandle h
    → is_directory (node_at fs h) ≡ false
    → resolve (put h (file b) fs) p ≡ resolve fs p
unfolding resolve
resolve-put h [] b fs nonroot nodir = refl
resolve-put h (c ∷ p) b fs nonroot nodir =
    rw (resolve-put h p b fs nonroot nodir) (elim (Option-cases (resolve fs p)) [
      | inl e ↦ rw (e, resolve)
      | inr (d, e) ↦ rw (e, resolve) (rw (is_directory-put h d b fs nonroot nodir))
    ])

pub stat-resolve : (p h : FilePath) (fs : Fs) → resolve fs p ≡ some h → stat fs p ≡ node_at fs h
unfolding stat
stat-resolve p h fs e = rw (e, stat)

pub read_file-put :
    (h p : FilePath) (b : Bytes) (fs : Fs)
    → IsHandle h
    → is_directory (node_at fs h) ≡ false
    → resolve fs p ≡ some h
    → read_file (put h (file b) fs) p ≡ ok b
unfolding read_file
read_file-put h p b fs nonroot nodir r =
    let at_p = stat-resolve p h (put h (file b) fs) (resolve-put h p b fs nonroot nodir ∙ r) in
    rw (at_p ∙ node_at-put_self h (file b) fs nonroot, read_file)

pub write_all-put :
    (h : FilePath) (a b : Bytes) (fs : Fs)
    → IsHandle h
    → write_all h b (put h (file a) fs) ≡ (ok tt, put h (file (a ++ b)) fs)
unfolding write_all
write_all-put h a b fs nonroot = rw (node_at-put_self h (file a) fs nonroot) (
    ap (λ d. (ok tt, record { entries = d })) (insert-insert h (file (a ++ b)) (file a) fs.entries))

-- What a successful `create` has found and done.
pub record Created (p h : FilePath) (before after : Fs) : Type 0 where
  pub nonroot : IsHandle h
  pub resolves : resolve before p ≡ some h
  pub no_dir : is_directory (node_at before h) ≡ false
  pub emptied : after ≡ put h (file []) before

-- A path without a directory is not the root.
pub nonroot_of : (h : FilePath) (fs : Fs) → is_directory (node_at fs h) ≡ false → IsHandle h
unfolding node_at
nonroot_of [] fs e = ground arith
nonroot_of (c ∷ p) fs e = ground arith

create_at-Created :
    (p h d : FilePath) (n : Option Node) (before after : Fs)
    → resolve before p ≡ some d
    → node_at before d ≡ n
    → create_at d n before ≡ (ok h, after)
    → Created p h before after
create_at-Created p h d (some dir) before after r at_d e = cc
create_at-Created p h d (some (file b)) before after r at_d e =
    let same : d ≡ h = cc in
    let no_dir : is_directory (node_at before h) ≡ false = rw (← same, at_d) in
    record { nonroot = nonroot_of h before no_dir; resolves = cc; no_dir = no_dir; emptied = cc }
create_at-Created p h d none before after r at_d e =
    let same : d ≡ h = cc in
    let no_dir : is_directory (node_at before h) ≡ false = rw (← same, at_d) in
    record { nonroot = nonroot_of h before no_dir; resolves = cc; no_dir = no_dir; emptied = cc }

pub create-Created :
    (p h : FilePath) (before after : Fs)
    → create p before ≡ (ok h, after)
    → Created p h before after
unfolding create
create-Created p h before after e = elim (Option-cases (resolve before p)) [
  | inl none_there ↦ absurd (cc (rw (none_there, create) at e))
  | inr (d, there) ↦
      create_at-Created p h d (node_at before d) before after there refl (rw (there, create) at e)
]
