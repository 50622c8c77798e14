-- ===== src/Fs/Written.antt =====
-- What `fs::write` leaves: a file with the given contents, below directories that are there.
use vitruvius.Base.{
  ◌≡◌, sym, ap, ◌∙◌, true, false, some, [], ◌∷◌, nat_eq, list_eq, Bytes, Text, Result, ok,
}
use vitruvius.Paths.{FilePath}
use vitruvius.Fs.{
  Fs, file, node_at, resolve, stat, is_directory, create_dir_all, create, write_all, put, read_file,
  exists, ◌>>=◌, ◌>>◌, pure,
}
use vitruvius.Fs.Laws.{
  IsHandle, create-Created, resolve-put, read_file-put, write_all-put, stat-resolve,
  node_at-put_self,
}
use vitruvius.Fs.Dirs.{parent-resolve, create_dir_all-there}
use vitruvius.Fs.Actions.{>>=-eq-ok}

-- The file at `path` has been written, and nothing else has changed.
pub record Written (path : FilePath) (contents : Bytes) (before after : Fs) : Type 0 where
  pub handle : FilePath
  pub nonroot : IsHandle handle
  pub no_dir : is_directory (node_at before handle) ≡ false
  pub resolves : resolve before path ≡ some handle
  pub changed : after ≡ put handle (file contents) before

pub write-Written :
    (path : FilePath) (b : Bytes) (before after : Fs)
    → (create path >>= λ f. write_all f b) before ≡ (ok tt, after)
    → Written path b before after
write-Written path b before after e =
    let (h, created, filled) = >>=-eq-ok (λ (f : FilePath). write_all f b) (create path) before e in
    let mid = (create path before).1 in
    let c = create-Created path h before mid (ap (λ (r : Result FilePath). (r, mid)) created) in
    let put_both = write_all-put h [] b before c.nonroot in
    record {
      handle = h;
      nonroot = c.nonroot;
      no_dir = c.no_dir;
      resolves = c.resolves;
      changed = ap (λ (r : Result (Unit {0}) × Fs). r.1) (sym (rw c.emptied at filled) ∙ put_both);
    }

module _ {path : FilePath} {b : Bytes} {before after : Fs} (w : Written path b before after) where
  pub resolve-Written : resolve after path ≡ some w.handle
  resolve-Written =
      rw w.changed (resolve-put w.handle path b before w.nonroot w.no_dir ∙ w.resolves)

  pub read_file-Written : read_file after path ≡ ok b
  read_file-Written =
      rw w.changed (read_file-put w.handle path b before w.nonroot w.no_dir w.resolves)

  pub exists-Written : exists after path ≡ true
  unfolding exists
  exists-Written =
      let at_path : stat after path ≡ some (file b) =
        stat-resolve path w.handle after resolve-Written
        ∙ (ap (λ f. node_at f w.handle) w.changed
            ∙ node_at-put_self w.handle (file b) before w.nonroot) in
      rw (at_path, exists)

-- The same where a value is returned after the writing.
pub write_then-Written :
    {A : Type 0} (path : FilePath) (b : Bytes) (a x : A) (before after : Fs)
    → (create path >>= λ f. (write_all f b >> pure a)) before ≡ (ok x, after)
    → (x ≡ a) × Written path b before after
unfolding write_all
write_then-Written {A} path b a x before after e =
    let (h, created, last) =
      >>=-eq-ok (λ (f : FilePath). write_all f b >> pure a) (create path) before e in
    let written : (create path >>= λ f. write_all f b) before ≡ (ok tt, after) =
      rw (created, ◌>>=◌) (ap (λ (r : Result A × Fs). (ok tt, r.1)) last) in
    (value_of (ap (λ (r : Result A × Fs). r.0) last), write-Written path b before after written)
  where
    value_of : ok a ≡ ok x → x ≡ a
    value_of same = cc

-- The directories above a written file are there.
pub create_dir_all-Written :
    (c : Text) (dir : FilePath) (b : Bytes) (before after : Fs)
    → Written (c ∷ dir) b before after
    → create_dir_all dir after ≡ (ok tt, after)
create_dir_all-Written c dir b before after w =
    let (d, there, is_dir) = parent-resolve after c dir w.handle (resolve-Written w) in
    create_dir_all-there after dir d there is_dir
