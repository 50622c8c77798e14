-- ===== src/Storage/Reassembling.antt =====
-- src/storage.rs: what `reassemble_modal` leaves on the disk.
use vitruvius.Base.{
  ℕ, ◌≡◌, refl, ap, sym, ◌∙◌, Bytes, Option, none, some, List, [], ◌∷◌, ◌++◌, Dict, lookup, All,
  is_some, true, Result, ok, err, or_fail, missing_chunk, append-nil, append_assoc, range, nat_eq,
}
use vitruvius.Paths.{FilePath, rel_to_abs, parent}
use vitruvius.Fs.{Fs, file, put, ◌>>=◌, ◌>>◌, pure, create, read_file}
use vitruvius.Fs.Actions.{continue-eq-ok, >>=-eq-ok}
use vitruvius.Fs.Written.{Written, read_file-Written}
use vitruvius.Fs.Laws.{IsHandle, create-Created, write_all-put}
use vitruvius.Storage.{FileMetadata, FileTransferState}
use vitruvius.Storage.Reassembly.{
  incoming_bytes, write_received, keep_conflicting, reassemble_plain, or_nothing, create_parents,
}

module _ (received : Dict ℕ Bytes) where
  -- The chunk is there.
  abbrev pub Present : ℕ → Type 0
  Present i = is_some (lookup i received) ≡ true

  or_fail-present :
      (i : ℕ) (o : Option Bytes) (d : Bytes)
      → or_fail o (missing_chunk i) ≡ ok d
      → (or_nothing received o ≡ d) × (is_some o ≡ true)
  or_fail-present i none d e = cc
  or_fail-present i (some b) d e = (cc, refl)

  -- The loop succeeds only if every chunk is there, and appends them in order.
  write_received-ok :
      (h : FilePath) (is : List ℕ) (acc : Bytes) (fs after : Fs)
      → IsHandle h
      → write_received received h is (put h (file acc) fs) ≡ (ok tt, after)
      → (after ≡ put h (file (acc ++ incoming_bytes received is)) fs) × All Present is
  unfolding write_received incoming_bytes
  write_received-ok h [] acc fs after nonroot e =
      (rw append-nil (ap (λ (r : Result (Unit {0}) × Fs). r.1) (sym e)), tt)
  write_received-ok h (i ∷ is) acc fs after nonroot e =
      let (d, found, then_write) = continue-eq-ok _ _ _ e in
      let (bytes_eq, there) = or_fail-present i (lookup i received) d found in
      let (last, rest) =
        write_received-ok h is (acc ++ d) fs after nonroot
          (rw (write_all-put h acc d fs nonroot) at then_write) in
      (rw bytes_eq (rw append_assoc at last), (there, rest))

module _ (ts : FileTransferState) (meta : FileMetadata) (secs : ℕ) where
  pub open_and_write :
      (out path : FilePath) (before after : Fs)
      → (create out >>= λ h.
            write_received ts.received_chunks h (range meta.total_chunks) >> pure out)
          before
        ≡ (ok path, after)
      → (path ≡ out)
        × Written out (incoming_bytes ts.received_chunks (range meta.total_chunks)) before after
        × All (Present ts.received_chunks) (range meta.total_chunks)
  open_and_write out path before after e =
      let made = (create out before).1 in
      let (h, create_ok, filled) =
        >>=-eq-ok
          (λ (h : FilePath).
            write_received ts.received_chunks h (range meta.total_chunks) >> pure out)
          (create out) before e in
      let c =
        create-Created out h before made (ap (λ (r : Result FilePath). (r, made)) create_ok) in
      let start = put h (file []) before in
      let (u, loop_ok, last) =
        >>=-eq-ok (λ (_ : Unit {0}). pure out)
          (write_received ts.received_chunks h (range meta.total_chunks)) start
          (rw c.emptied at filled) in
      let mid = (write_received ts.received_chunks h (range meta.total_chunks) start).1 in
      let (written, all_there) =
        write_received-ok ts.received_chunks h (range meta.total_chunks) [] before mid c.nonroot
          (ap (λ (r : Result (Unit {0})). (r, mid)) loop_ok) in
      let whole = incoming_bytes ts.received_chunks (range meta.total_chunks) in
      let after_is : after ≡ put h (file whole) before =
        sym (ap (λ (r : Result FilePath × Fs). r.1) last) ∙ written in
      (
        ap path_or_root (sym (ap (λ (r : Result FilePath × Fs). r.0) last)),
        record {
          handle = h;
          nonroot = c.nonroot;
          no_dir = c.no_dir;
          resolves = c.resolves;
          changed = after_is;
        },
        all_there,
      )
    where
      path_or_root : Result FilePath → FilePath
      path_or_root (ok p) = p
      path_or_root (err x) = []

  -- A plaintext file is written only when every chunk that the metadata counts is there; the file
  -- then stands at the path that its name gives under the transfer's folder, and holds the received
  -- chunks, joined in the order of their positions.
  pub reassemble_plain-ok :
      (path : FilePath) (before after : Fs)
      → reassemble_plain ts meta secs before ≡ (ok path, after)
      → (path ≡ rel_to_abs ts.sync_dir meta.file_name)
        × (read_file after path ≡ ok (incoming_bytes ts.received_chunks (range meta.total_chunks)))
        × All (Present ts.received_chunks) (range meta.total_chunks)
  unfolding reassemble_plain
  reassemble_plain-ok path before after e =
      let out = rel_to_abs ts.sync_dir meta.file_name in
      let (_, _, kept) = >>=-eq-ok _ (create_parents (parent out)) before e in
      let fs1 = (create_parents (parent out) before).1 in
      let (_, _, opened) =
        >>=-eq-ok _
          (keep_conflicting out (incoming_bytes ts.received_chunks (range meta.total_chunks)) secs)
          fs1 kept in
      let (same, w, all_there) = open_and_write out path _ after opened in
      (same, rw same (read_file-Written w), all_there)
