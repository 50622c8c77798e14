-- ===== src/Storage/Import.antt =====
-- src/storage.rs: `import_plaintext_dir_into_vault` and `process_chunk`.
--
-- The entries of a directory are those it has when it is opened. The recursion descends at most
-- twice as many levels as the file system has entries: as deep as a path of the source, or as the
-- copy of such a path below a target that lies in the source.
pub mod Exporting
use vitruvius.Base.{
  ℕ, zero, suc, ◌+◌, ◌-◌, ◌*◌, ◌/◌, ◌%◌, ◌^◌, ◌≤◌, ◌<◌, min, max, ◌≡◌, refl, sym, ap, ap₂, subst,
  ◌∙◌, ◌≢◌, ◌↔◌, ◌⊎◌, inl, inr, Bool, true, false, not, ◌&&◌, ◌||◌, Option, none, some, List, [],
  ◌∷◌, ◌++◌, map, append-nil, append_assoc, arith, ltb, leb, nat_beq, nat_beq_iff, if◌then◌else◌,
  is_some, is_empty, ltb→lt, lt→ltb, le→ltb_false, Bool-cases, Option-cases, List-cases, length,
  get_elem?, take, drop, replicate, concat, All, sum, range_from, range, keep_if, length-append,
  take-append-drop, length-take, length-drop, length-map, take-append, drop-append, drop-all,
  take-all, drop-nil, take-nil, take-add, drop-drop, get_elem?-lt, get_elem?-eq_none, Eq, ◌==◌,
  ==_refl, eq_of_==, nat_eq, list_eq, list_beq, list_beq_iff, contains, Dict, lookup, contains_key,
  insert, remove, lookup-insert, lookup-insert_self, lookup-remove, contains_key-remove,
  insert-insert, contains_key-eq_none, length-insert-le, length-remove-le, add, delete,
  contains-add, contains-delete, Bytes, Text, le_bytes, from_le_bytes, u32_bytes, u64_bytes, as_u32,
  Error, Result, ok, err, or_fail, >>=-eq-ok as bind-eq-ok, Result-cases, ◌>>=◌ as bind, guard,
}
use vitruvius.Paths.{FilePath, relative_path}
use vitruvius.Fs.{Fs, Io, pure, lift, ◌>>=◌, ◌>>◌, ignore, create_dir_all, is_file, read_file}
use vitruvius.Crypto.{Primitives, Draw}
use vitruvius.Vault.Write.{vault_write_file}
use vitruvius.Storage.{chunk_size, FileTransferState, total_of}
use vitruvius.Storage.Listing.{read_dir, is_dir, has_vault_ext}
use vitruvius.Storage.Reassembly.{reassemble}
use vitruvius.Base.{outside_root}

-- The reading loop: at most `n` reads of `size` bytes, until one gives nothing.
unfoldable pub read_chunks : ℕ → ℕ → Bytes → List Bytes
read_chunks size zero rest = []
read_chunks size (suc n) rest =
    let got = take size rest in
    let later = read_chunks size n (drop size rest) in if is_empty got then [] else got ∷ later

-- The chunks of a file: one empty chunk for an empty file.
unfoldable pub chunks_of : ℕ → Bytes → List Bytes
chunks_of size contents =
    let chunks = read_chunks size (suc (length contents)) contents in
    if is_empty chunks then [] ∷ [] else chunks

module _ (P : Primitives) (vault_key : Bytes) (uuids : ℕ → Draw) (nonces : ℕ → ℕ → Draw) where
  -- One file; the draws are those of the file with the number `count`.
  unfoldable pub import_file : FilePath → FilePath → FilePath → ℕ → Io ℕ
  import_file src_root target_root path count = do
    rel ← lift (or_fail (relative_path src_root path) outside_root)
    contents ← λ fs. (read_file fs path, fs)
    _ ←
        vault_write_file P (uuids count) (nonces count) target_root rel
          (chunks_of chunk_size contents) vault_key
    pure (suc count)

  module _ (src_root target_root : FilePath) where
    -- One entry of a directory; `recurse` imports a subdirectory.
    unfoldable pub import_entry : (FilePath → ℕ → Io ℕ) → FilePath → ℕ → Io ℕ
    import_entry recurse path count fs =
        if is_dir fs path
        then recurse path count fs
        else if is_file fs path && not (has_vault_ext path)
        then import_file src_root target_root path count fs
        else (ok count, fs)

    unfoldable pub import_entries : (FilePath → ℕ → Io ℕ) → List FilePath → ℕ → Io ℕ
    import_entries recurse [] count = pure count
    import_entries recurse (path ∷ rest) count = do
      imported ← import_entry recurse path count
      import_entries recurse rest imported

    -- The inner function `recurse`.
    unfoldable pub import_dir : ℕ → FilePath → ℕ → Io ℕ
    import_dir zero cur count = pure count
    import_dir (suc fuel) cur count = do
      entries ← λ fs. (read_dir fs cur, fs)
      import_entries (import_dir fuel) entries count

  unfoldable pub import_plaintext_dir_into_vault : FilePath → FilePath → Io ℕ
  import_plaintext_dir_into_vault source_dir target_dir fs =
      let made = (create_dir_all target_dir fs).1 in
      import_dir source_dir target_dir (2 * length made.entries) source_dir 0 made

-- The chunk is kept, and the file written once as many chunks are there as it has. The result says
-- whether it is, beside the transfer.
unfoldable pub process_chunk : ℕ → Bytes → ℕ → FileTransferState → Io (Bool × FileTransferState)
process_chunk chunk_index bytes secs ts =
    let kept = record ts { received_chunks = insert chunk_index bytes ts.received_chunks } in
    elim (ltb (length kept.received_chunks) (total_of ts.metadata)) [
      | true ↦ pure (false, kept)
      | false ↦ reassemble kept secs >>= λ path. pure (true, kept)
    ]
