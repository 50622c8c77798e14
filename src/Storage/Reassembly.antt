-- ===== src/Storage/Reassembly.antt =====
-- src/storage.rs: `reassemble_modal`, `reassemble` and `process_chunk`. The clock and the draws of
-- the random number generator are arguments.
use vitruvius.Base.{
  ℕ, zero, suc, ◌+◌, ◌/◌, ◌%◌, Bool, true, false, Option, none, some, List, [], ◌∷◌, ◌++◌, Bytes,
  Text, Dict, lookup, nat_eq, list_eq, ◌==◌, ltb, if◌then◌else◌, range, Result, ok, err,
  ◌>>=◌ as bind, or_fail, no_metadata, no_vault_key, missing_chunk,
}
use vitruvius.Paths.{FilePath, dot, parent, file_name, set_file_name, stem_ext, rel_to_abs}
use vitruvius.Fs.{
  Io, pure, lift, ignore, ◌>>=◌, ◌>>◌, create, write_all, rename, exists, read_file, create_dir_all,
}
use vitruvius.Crypto.{Primitives, Draw}
use vitruvius.Vault.Write.{vault_write_file}
use vitruvius.Storage.{FileMetadata, FileTransferState}

-- `format!("{}", n)` for a `u64`, which has at most 20 digits.
unfoldable pub decimal_loop : ℕ → ℕ → Text → Text
decimal_loop zero n acc = acc
decimal_loop (suc fuel) n acc =
    let digits = (48 + n % 10) ∷ acc in
    let rest = decimal_loop fuel (n / 10) digits in if ltb n 10 then digits else rest

unfoldable pub decimal : ℕ → Text
decimal n = decimal_loop 20 n []

-- ".conflict."
abbrev pub conflict_infix : Text
conflict_infix = 46 ∷ 99 ∷ 111 ∷ 110 ∷ 102 ∷ 108 ∷ 105 ∷ 99 ∷ 116 ∷ 46 ∷ []

abbrev pub conflict_of : ℕ → Option (Text × Option Text) → Text
conflict_of secs none = 99 ∷ 111 ∷ 110 ∷ 102 ∷ 108 ∷ 105 ∷ 99 ∷ 116 ∷ 46 ∷ decimal secs
conflict_of secs (some (stem, none)) = stem ++ (conflict_infix ++ decimal secs)
conflict_of secs (some (stem, some ext)) = stem ++ (conflict_infix ++ (decimal secs ++ (dot ∷ ext)))

-- The name under which the local file is kept.
unfoldable pub conflict_name : FilePath → ℕ → Text
conflict_name out_path secs =
    conflict_of secs (elim (file_name out_path) [ none ↦ none | some name ↦ some (stem_ext name) ])

module _ (received : Dict ℕ Bytes) where
  -- The chunks 0, 1, .. of the vault branch; the first one that is missing is an error.
  unfoldable pub collect_chunks : List ℕ → Result (List Bytes)
  collect_chunks [] = ok []
  collect_chunks (i ∷ is) =
      bind (or_fail (lookup i received) (missing_chunk i))
        λ c. bind (collect_chunks is) λ cs. ok (c ∷ cs)

  abbrev pub or_nothing : Option Bytes → Bytes
  or_nothing none = []
  or_nothing (some bytes) = bytes

  -- `incoming_bytes`, which skips what is missing.
  unfoldable pub incoming_bytes : List ℕ → Bytes
  incoming_bytes [] = []
  incoming_bytes (i ∷ is) = or_nothing (lookup i received) ++ incoming_bytes is

  -- The writing loop of the plaintext branch.
  unfoldable pub write_received : FilePath → List ℕ → Io (Unit {0})
  write_received out [] = pure tt
  write_received out (i ∷ is) = do
    d ← lift (or_fail (lookup i received) (missing_chunk i))
    write_all out d
    write_received out is

abbrev bytes_or_empty : Result Bytes → Bytes
bytes_or_empty (ok bytes) = bytes
bytes_or_empty (err e) = []

-- If a file stands at `out_path` with other contents than the incoming ones, it is renamed. A
-- failure of the renaming is only logged.
unfoldable pub keep_conflicting : FilePath → Bytes → ℕ → Io (Unit {0})
keep_conflicting out_path incoming secs fs =
    let same = bytes_or_empty (read_file fs out_path) == incoming in
    let kept = ignore (rename out_path (set_file_name out_path (conflict_name out_path secs))) fs in
    if exists fs out_path then (if same then (ok tt, fs) else kept) else (ok tt, fs)

abbrev pub create_parents : Option FilePath → Io (Unit {0})
create_parents none = pure tt
create_parents (some p) = create_dir_all p

module _ (ts : FileTransferState) where
  unfoldable pub reassemble_plain : FileMetadata → ℕ → Io FilePath
  reassemble_plain meta secs = do
    let out_path = rel_to_abs ts.sync_dir meta.file_name
    create_parents (parent out_path)
    keep_conflicting out_path (incoming_bytes ts.received_chunks (range meta.total_chunks)) secs
    out ← create out_path
    write_received ts.received_chunks out (range meta.total_chunks)
    pure out_path

  unfoldable pub reassemble_vault :
      Primitives → Draw → (ℕ → Draw) → FileMetadata → Option Bytes → Io FilePath
  reassemble_vault P uuid_draw nonces meta vault_key = do
    key ← lift (or_fail vault_key no_vault_key)
    chunks ← lift (collect_chunks ts.received_chunks (range meta.total_chunks))
    vault_write_file P uuid_draw nonces ts.sync_dir meta.file_name chunks key

  unfoldable pub reassemble_modal :
      Primitives → Draw → (ℕ → Draw) → ℕ → Bool → Option Bytes → Io FilePath
  reassemble_modal P uuid_draw nonces secs vault_mode vault_key = do
    meta ← lift (or_fail ts.metadata no_metadata)
    elim vault_mode [
      | true ↦ reassemble_vault P uuid_draw nonces meta vault_key
      | false ↦ reassemble_plain meta secs
    ]

  -- `reassemble` is `reassemble_modal(ts, false, None)`.
  unfoldable pub reassemble : ℕ → Io FilePath
  reassemble secs = do meta ← lift (or_fail ts.metadata no_metadata); reassemble_plain meta secs
