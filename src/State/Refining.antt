-- ===== src/State/Refining.antt =====
-- src/tofu.rs: the file behaves as the map that the handlers use.
use vitruvius.Base.{
  ◌≡◌, refl, sym, ap, ◌∙◌, inl, inr, Bool, true, false, Option, none, some, if◌then◌else◌,
  Option-cases, nat_eq, list_eq, insert, remove, Bytes, Text, Error, Result, ok, err, Result-cases,
}
use vitruvius.Paths.{FilePath}
use vitruvius.Fs.{Fs, ◌>>=◌, create, create_at, write_all, read_file, resolve, node_at}
use vitruvius.Fs.Written.{write-Written, read_file-Written, create_dir_all-Written}
use vitruvius.Fs.Dirs.{create_dir_all-again}
use vitruvius.Fs.{Node, dir as dir_node, file}
use vitruvius.State.{Hex, TofuStore, store_peer_key, revoke_peer_key}
use vitruvius.State.Store.{
  Json, parse_store, store_path, store_file, load_store, save_store, save_peer_key, erase_peer_key,
}
use vitruvius.Identity.{vitruvius_dir}

create_at-err :
    (h : FilePath) (o : Option Node) (before after : Fs) (x : Error)
    → create_at h o before ≡ (err x, after)
    → after ≡ before
create_at-err h (some dir_node) before after x e = ap (λ (r : Result FilePath × Fs). r.1) (sym e)
create_at-err h (some (file b)) before after x e = cc
create_at-err h none before after x e = cc

create-err :
    (path : FilePath) (before after : Fs) (x : Error)
    → create path before ≡ (err x, after)
    → after ≡ before
unfolding create
create-err path before after x e = elim (Option-cases (resolve before path)) [
  | inl missing ↦ ap (λ (r : Result FilePath × Fs). r.1) (sym (rw (missing, create) at e))
  | inr (h, there) ↦ create_at-err h (node_at before h) before after x (rw (there, create) at e)
]

-- A write that fails has changed nothing.
write-err :
    (path : FilePath) (b : Bytes) (before after : Fs) (x : Error)
    → (create path >>= λ f. write_all f b) before ≡ (err x, after)
    → after ≡ before
unfolding write_all
write-err path b before after x e = elim (Result-cases (create path before).0) [
  | inl (h, made) ↦ absurd (cc (rw (made, ◌>>=◌) at e))
  | inr (y, failed) ↦
      ap (λ (r : Result (Unit {0}) × Fs). r.1) (sym (rw (failed, ◌>>=◌) at e))
      ∙ create-err path before (create path before).1 y
          (ap (λ (r : Result FilePath). (r, (create path before).1)) failed)
]

abbrev pub is_ok {ℓ} : {A : Type ℓ} → Result A → Bool
is_ok (ok a) = true
is_ok (err e) = false

module _ (json : Json) (dir : FilePath) where
  -- A store is read as it was written.
  abbrev pub Faithful : Type 0
  Faithful =
      (s : TofuStore) (t : Text) → json.to_string_pretty s ≡ some t → json.from_str t ≡ some s

  -- Reading a store where the directory is there.
  load_there :
      (fs : Fs)
      → vitruvius_dir dir fs ≡ fs
      → load_store json dir fs ≡ parse_store json (read_file fs (store_path json dir))
  unfolding load_store
  load_there fs there = ap (λ f. parse_store json (read_file f (store_path json dir))) there

  vitruvius_dir-again : (fs : Fs) → vitruvius_dir dir (vitruvius_dir dir fs) ≡ vitruvius_dir dir fs
  vitruvius_dir-again fs = ap (λ (r : Result (Unit {0}) × Fs). r.1) (create_dir_all-again dir fs)

  load_store-vitruvius_dir :
      (fs : Fs) → load_store json dir (vitruvius_dir dir fs) ≡ load_store json dir fs
  unfolding load_store
  load_store-vitruvius_dir fs =
      ap (λ f. parse_store json (read_file f (store_path json dir))) (vitruvius_dir-again fs)

  written_store :
      (store : TofuStore) (text : Text) (fs after : Fs) (r : Result (Unit {0}))
      → Faithful
      → json.to_string_pretty store ≡ some text
      → (create (store_path json dir) >>= λ f. write_all f text) fs ≡ (r, after)
      → load_store json dir after ≡ (if is_ok r then store else load_store json dir fs)
  written_store store text fs after (err x) faithful encoded e =
      ap (load_store json dir) (write-err (store_path json dir) text fs after x e)
  written_store store text fs after (ok u) faithful encoded e =
      let w = write-Written (store_path json dir) text fs after e in
      load_there after (
        ap (λ (r : Result (Unit {0}) × Fs). r.1)
          (create_dir_all-Written store_file dir text fs after w))
      ∙ rw (read_file-Written w) (rw (faithful store text encoded, parse_store))

  save_store-load_store :
      (store : TofuStore) (fs : Fs)
      → Faithful
      → load_store json dir (save_store json dir store fs).1
        ≡ (if is_ok (save_store json dir store fs).0 then store else load_store json dir fs)
  unfolding save_store
  save_store-load_store store fs faithful = elim (Option-cases (json.to_string_pretty store)) [
    | inl e ↦ rw (e, save_store) (load_store-vitruvius_dir fs)
    | inr (text, e) ↦
        rw (e, save_store)
          (rw (← load_store-vitruvius_dir fs)
            (written_store store text (vitruvius_dir dir fs) _ _ faithful e refl))
  ]

  -- If a store is read as it was written, then saving and erasing a key in the file do to the store
  -- that the file holds what the operations on the map do to the map, where the map counts as
  -- writable exactly when the access to the file succeeds.
  pub peer_keys_in_file-refine :
      (hex : Hex) (peer : Text) (key : Bytes) (fs : Fs)
      → Faithful
      → (load_store json dir (save_peer_key json dir hex peer key fs).1
          ≡ store_peer_key hex
              (is_ok (save_peer_key json dir hex peer key fs).0)
              peer
              key
              (load_store json dir fs))
        × (◌≡◌ {A = Bool × TofuStore}
            (
              is_ok (erase_peer_key json dir peer fs).0,
              load_store json dir (erase_peer_key json dir peer fs).1,
            )
            (revoke_peer_key
              (is_ok (erase_peer_key json dir peer fs).0)
              peer
              (load_store json dir fs)))
  unfolding save_peer_key erase_peer_key store_peer_key revoke_peer_key
  peer_keys_in_file-refine hex peer key fs faithful =
      let made = vitruvius_dir dir fs in
      let same = load_store-vitruvius_dir fs in
      let saved =
        save_store-load_store (insert peer (hex.encode key) (load_store json dir fs)) made
          faithful in
      let erased = save_store-load_store (remove peer (load_store json dir fs)) made faithful in
      (
        rw same at saved,
        go _ _ _ (is_ok (save_store json dir (remove peer (load_store json dir fs)) made).0)
            (rw same at erased),
      )
    where
      go :
          (s t u : TofuStore) (b : Bool)
          → s ≡ (if b then t else u)
          → ◌≡◌ {A = Bool × TofuStore} (b, s) (if b then (true, t) else (false, u))
      go s t u true e = ap (λ x. (true, x)) e
      go s t u false e = ap (λ x. (false, x)) e
