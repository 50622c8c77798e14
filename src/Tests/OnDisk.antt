-- ===== src/Tests/OnDisk.antt =====
-- Runs of the key store, the import and the listings.
use vitruvius.Base.{
  ℕ, ◌+◌, ◌^◌, ◌<◌, ◌≡◌, refl, sym, ap, ap₂, Bool, false, Option, none, some, [], ◌∷◌, ◌++◌, arith,
  length, take, drop, range, take-append, drop-append, nat_eq, list_eq, list_beq, contains, lookup,
  insert, remove, Bytes, Text, le_bytes, from_le_bytes, ok,
}
use mathlib.Core.List.{Perm}
use vitruvius.Paths.{
  FilePath, push, push_all, parent, file_name, set_file_name, rel_to_abs, rel_to_vault_abs,
  unsafe_rel_path, with_extension, stem_ext, relative_path, strip_prefix, join,
}
use vitruvius.Paths.Split.{split, starts_with, contains_seq, rsplit_at}
use vitruvius.Fs.{
  Fs, file, node_at, resolve, stat, create, write_all, create_dir_all, read_file, rename,
}
use vitruvius.Crypto.{encrypt_with_aad, decrypt_with_aad}
use vitruvius.Vault.{vault_chunk_aad, read_vault_header, read_exact, read_record_head, open_record}
use vitruvius.Vault.Write.{
  try_u32, try_block_len, create_parent, write_chunk, write_chunks, write_header, write_target,
  vault_write_file,
}
use vitruvius.Vault.Export.{vault_export_to_plaintext, export_to, export_loop}
use vitruvius.Storage.{FileMetadata}
use vitruvius.Storage.Listing.{
  walk_dir, walk_fuel, visit_plain, walk_dir_plain, walk_dir_vault, list_folder_all,
}
use vitruvius.Storage.Walking.{Named, walk_dir-enough}
use vitruvius.Storage.Sorting.{Ascending, list_folder_all-sorted}
use vitruvius.Storage.Import.{import_file, chunks_of, read_chunks}
use vitruvius.Storage.Import.Exporting.{vault_export-import_file}
use vitruvius.Storage.{FileTransferState}
use vitruvius.Storage.Reassembly.{reassemble_vault, collect_chunks, incoming_bytes}
use vitruvius.Storage.Reassembly.{
  reassemble_plain, keep_conflicting, conflict_name, write_received, decimal, decimal_loop,
}
use vitruvius.Storage.Conflict.{conflict_path, reassemble_plain-keeps_conflicting}
use vitruvius.Fs.{is_directory, exists}
use vitruvius.Storage.VaultCopy.{vault_read_chunk-reassemble_vault}
use vitruvius.Vault.{vault_read_chunk}
use vitruvius.State.{Hex, TofuStore, store_peer_key, revoke_peer_key}
use vitruvius.State.Store.{Json, load_store, save_peer_key, erase_peer_key}
use vitruvius.State.Refining.{is_ok, Faithful, peer_keys_in_file-refine}
use vitruvius.Tests.{
  toy, toy_unseal, toy-IsAead, length-pad, key, nonce, nonce-Fills, uuid, uuid-Fills,
}

-- Stores of at most one peer.
abbrev print_store : TofuStore → Option Text
print_store [] = some []
print_store ((peer, k) ∷ []) = some (length peer ∷ (peer ++ k))
print_store (e ∷ f ∷ es) = none

abbrev read_store : Text → Option TofuStore
read_store [] = some []
read_store (n ∷ rest) = some ((take n rest, drop n rest) ∷ [])

abbrev small_json : Json
small_json = record { to_string_pretty = print_store; from_str = read_store }

small_json-Faithful : Faithful small_json []
small_json-Faithful [] t e = ap read (sym e)
  where
    read : Option Text → Option TofuStore
    read none = none
    read (some t) = read_store t
small_json-Faithful ((peer, k) ∷ []) t e =
    let same : t ≡ length peer ∷ (peer ++ k) = cc in
    rw same (
      ap₂ (λ p q. some ((p, q) ∷ [])) (take-append (length peer) peer k refl)
        (drop-append (length peer) peer k refl))
small_json-Faithful (x ∷ y ∷ es) t e = cc

abbrev plain_hex : Hex
plain_hex = record { encode = λ b. b; decode = λ t. some t }

abbrev one_file : Fs
one_file = record { entries = (((98 ∷ []) ∷ []), file (1 ∷ 2 ∷ 3 ∷ [])) ∷ [] }

peer_keys_in_file-refine_example :
    (load_store small_json [] (save_peer_key small_json [] plain_hex (120 ∷ []) key one_file).1
      ≡ store_peer_key plain_hex
          (is_ok (save_peer_key small_json [] plain_hex (120 ∷ []) key one_file).0)
          (120 ∷ [])
          key
          (load_store small_json [] one_file))
    × (◌≡◌ {A = Bool × TofuStore}
        (
          is_ok (erase_peer_key small_json [] (120 ∷ []) one_file).0,
          load_store small_json [] (erase_peer_key small_json [] (120 ∷ []) one_file).1,
        )
        (revoke_peer_key
          (is_ok (erase_peer_key small_json [] (120 ∷ []) one_file).0)
          (120 ∷ [])
          (load_store small_json [] one_file)))
peer_keys_in_file-refine_example =
    peer_keys_in_file-refine small_json [] plain_hex (120 ∷ []) key one_file small_json-Faithful

one_file-Named : Named one_file.entries
unfolding list_beq
one_file-Named = ((refl, refl), tt)

walk_dir-enough_example :
    walk_dir one_file (visit_plain toy one_file []) (walk_fuel one_file + 5) []
    ≡ walk_dir one_file (visit_plain toy one_file []) (walk_fuel one_file) []
walk_dir-enough_example = walk_dir-enough one_file (visit_plain toy one_file []) [] 5 one_file-Named

list_folder_all-sorted_example :
    Ascending (list_folder_all toy one_file [])
    × Perm
        (list_folder_all toy one_file [])
        (walk_dir_plain toy one_file [] ++ walk_dir_vault toy one_file [])
list_folder_all-sorted_example = list_folder_all-sorted toy one_file []

abbrev stored_path : FilePath
stored_path = (98 ∷ 46 ∷ 118 ∷ 105 ∷ 116 ∷ []) ∷ (118 ∷ []) ∷ []

abbrev with_vault : Fs
with_vault =
    (import_file toy key (λ n. uuid) (λ n k. nonce) [] ((118 ∷ []) ∷ []) ((98 ∷ []) ∷ []) 0
      one_file).1

is_imported :
    import_file toy key (λ n. uuid) (λ n k. nonce) [] ((118 ∷ []) ∷ []) ((98 ∷ []) ∷ []) 0 one_file
    ≡ (ok 1, with_vault)
unfolding import_file chunks_of read_chunks relative_path strip_prefix join read_file
    vault_write_file try_u32 try_block_len create_parent write_chunk write_chunks write_header
    write_target push push_all parent file_name set_file_name rel_to_abs rel_to_vault_abs
    unsafe_rel_path split starts_with contains_seq node_at resolve stat create write_all
    create_dir_all encrypt_with_aad vault_chunk_aad lookup insert le_bytes list_beq contains
is_imported = refl

-- "c"
abbrev copy : FilePath
copy = (99 ∷ []) ∷ []

abbrev with_copy : Fs
with_copy = (vault_export_to_plaintext toy stored_path key copy with_vault).1

is_copied : vault_export_to_plaintext toy stored_path key copy with_vault ≡ (ok 3, with_copy)
unfolding import_file chunks_of read_chunks relative_path strip_prefix join vault_write_file try_u32
    try_block_len create_parent write_chunk write_chunks write_header write_target push push_all
    parent file_name set_file_name rel_to_abs rel_to_vault_abs unsafe_rel_path split starts_with
    contains_seq node_at resolve stat create write_all create_dir_all encrypt_with_aad
    vault_chunk_aad lookup insert le_bytes list_beq contains vault_export_to_plaintext
    with_extension stem_ext rsplit_at read_file read_vault_header read_exact from_le_bytes export_to
    export_loop open_record read_record_head decrypt_with_aad toy_unseal rename remove
is_copied = refl

named_b : relative_path [] ((98 ∷ []) ∷ []) ≡ some (98 ∷ [])
unfolding relative_path strip_prefix join list_beq
named_b = refl

stored_b : rel_to_vault_abs ((118 ∷ []) ∷ []) (98 ∷ []) ≡ some stored_path
unfolding rel_to_vault_abs rel_to_abs push_all push split file_name set_file_name list_beq
stored_b = refl

readable_b : read_file one_file ((98 ∷ []) ∷ []) ≡ ok (1 ∷ 2 ∷ 3 ∷ [])
unfolding read_file stat resolve node_at lookup list_beq
readable_b = refl

vault_export-import_file_example :
    (◌≡◌ {A = ℕ} 3 3) × (read_file with_copy copy ≡ ok (1 ∷ 2 ∷ 3 ∷ []))
vault_export-import_file_example =
    vault_export-import_file toy toy-IsAead length-pad key (λ n. uuid) (λ n k. nonce) []
      ((118 ∷ []) ∷ []) ((98 ∷ []) ∷ []) stored_path copy (98 ∷ []) (1 ∷ 2 ∷ 3 ∷ []) 0 1 3 one_file
      with_vault with_copy uuid-Fills (λ k. nonce-Fills) (omega arith) named_b stored_b readable_b
      is_imported is_copied

abbrev arrived_meta : FileMetadata
arrived_meta = record {
  file_name = 98 ∷ [];
  total_chunks = 1;
  file_size = 2;
  is_vault = false;
  chunk_hashes = [];
}

abbrev arrived : FileTransferState
arrived = record {
  metadata = some arrived_meta;
  received_chunks = (0, (4 ∷ 5 ∷ [])) ∷ [];
  sync_dir = (118 ∷ []) ∷ [];
  next_request = 1;
  last_activity = 0;
  file_id = none;
}

abbrev kept : Fs
kept = (reassemble_vault arrived toy uuid (λ k. nonce) arrived_meta (some key) one_file).1

is_kept :
    reassemble_vault arrived toy uuid (λ k. nonce) arrived_meta (some key) one_file
    ≡ (ok stored_path, kept)
unfolding reassemble_vault collect_chunks vault_write_file try_u32 try_block_len create_parent
    write_chunk write_chunks write_header write_target push push_all parent file_name set_file_name
    rel_to_abs rel_to_vault_abs unsafe_rel_path split starts_with contains_seq node_at resolve stat
    create write_all create_dir_all encrypt_with_aad vault_chunk_aad lookup insert le_bytes list_beq
    contains
is_kept = refl

two_bytes : length (incoming_bytes arrived.received_chunks (range 1)) < 2 ^ 64
unfolding incoming_bytes lookup
two_bytes = omega arith

vault_read_chunk-reassemble_vault_example :
    (c : Bytes) × (lookup 0 arrived.received_chunks ≡ some c)
    × (vault_read_chunk toy kept stored_path 0 key ≡ ok c)
vault_read_chunk-reassemble_vault_example =
    vault_read_chunk-reassemble_vault toy toy-IsAead length-pad arrived arrived_meta key uuid
      (λ k. nonce) stored_path one_file kept 0 uuid-Fills (λ k. nonce-Fills) two_bytes (omega arith)
      is_kept

-- The file "b" arrives in a folder that has another one of that name.
abbrev arriving : FileTransferState
arriving = record arrived { sync_dir = [] }

abbrev replaced : Fs
replaced = (reassemble_plain arriving arrived_meta 7 one_file).1

is_replaced : reassemble_plain arriving arrived_meta 7 one_file ≡ (ok ((98 ∷ []) ∷ []), replaced)
unfolding reassemble_plain keep_conflicting conflict_name write_received incoming_bytes decimal
    decimal_loop push push_all parent file_name set_file_name rel_to_abs stem_ext rsplit_at split
    exists read_file rename node_at resolve stat create write_all create_dir_all lookup insert
    remove list_beq
is_replaced = refl

readable_target : read_file one_file (rel_to_abs [] (98 ∷ [])) ≡ ok (1 ∷ 2 ∷ 3 ∷ [])
unfolding rel_to_abs push_all push split read_file stat resolve node_at lookup list_beq
readable_target = refl

other_contents :
    list_beq (1 ∷ 2 ∷ 3 ∷ []) (incoming_bytes arriving.received_chunks (range 1)) ≡ false
unfolding incoming_bytes lookup list_beq
other_contents = refl

target_b : rel_to_abs [] (98 ∷ []) ≡ (98 ∷ []) ∷ []
unfolding rel_to_abs push_all push split list_beq
target_b = refl

free_target : is_directory (stat one_file (conflict_path arriving arrived_meta 7)) ≡ false
unfolding conflict_name decimal decimal_loop push push_all file_name set_file_name rel_to_abs
    stem_ext rsplit_at split stat resolve node_at lookup list_beq
free_target = refl

plain_b : list_beq {A = ℕ} (98 ∷ []) (46 ∷ 46 ∷ []) ≡ false
unfolding list_beq
plain_b = refl

reassemble_plain-keeps_conflicting_example :
    read_file replaced (conflict_path arriving arrived_meta 7) ≡ ok (1 ∷ 2 ∷ 3 ∷ [])
reassemble_plain-keeps_conflicting_example =
    reassemble_plain-keeps_conflicting arriving arrived_meta 7 one_file replaced ((98 ∷ []) ∷ []) []
      (98 ∷ []) (1 ∷ 2 ∷ 3 ∷ []) target_b plain_b readable_target other_contents free_target
      is_replaced
