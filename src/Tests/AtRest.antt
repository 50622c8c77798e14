-- ===== src/Tests/AtRest.antt =====
-- Runs of the vault file format.
use vitruvius.Base.{
  ℕ, sum, map, length, ◌≡◌, refl, List, [], ◌∷◌, Bytes, Text, ok, arith, lookup, insert, remove,
  le_bytes, from_le_bytes, list_beq, contains,
}
use vitruvius.Paths.{
  FilePath, push, push_all, parent, file_name, set_file_name, rel_to_abs, rel_to_vault_abs,
  unsafe_rel_path, with_extension, stem_ext,
}
use vitruvius.Paths.Split.{split, starts_with, contains_seq, rsplit_at}
use vitruvius.Fs.{Fs, node_at, resolve, stat, create, write_all, create_dir_all, read_file, rename}
use vitruvius.Crypto.{encrypt_with_aad, decrypt_with_aad}
use vitruvius.Vault.{
  VaultHeader, vault_read_chunk, vault_chunk_aad, read_vault_header, read_vault_chunk_hashes,
  read_exact, read_record_head, open_record,
}
use vitruvius.Vault.Write.{
  try_u32, try_block_len, create_parent, write_chunk, write_chunks, write_header, write_target,
  vault_write_file,
}
use vitruvius.Vault.Export.{vault_export_to_plaintext, export_to, export_loop}
use vitruvius.Vault.Exporting.{vault_export-IsVault}
use vitruvius.Crypto.Binding.{vault_chunk_aad-injective}
use vitruvius.Vault.RoundTrip.{
  HoldsVault, vault_write_file-ok, vault_read_chunk-vault_write_file, listing-vault_write_file,
}
use vitruvius.Tests.{
  toy, tag, pad, toy_unseal, toy-IsAead, length-pad, key, nonce, nonce-Fills, uuid, uuid-Fills,
}

abbrev two_chunks : List Bytes
two_chunks = (1 ∷ 2 ∷ []) ∷ (3 ∷ []) ∷ []

-- "a"
abbrev name : Text
name = 97 ∷ []

abbrev no_files : Fs
no_files = record { entries = [] }

abbrev vault_path : FilePath
vault_path = (97 ∷ 46 ∷ 118 ∷ 105 ∷ 116 ∷ []) ∷ []

abbrev written : Fs
written = (vault_write_file toy uuid (λ k. nonce) [] name two_chunks key no_files).1

is_written :
    vault_write_file toy uuid (λ k. nonce) [] name two_chunks key no_files
    ≡ (ok vault_path, written)
unfolding vault_write_file try_u32 try_block_len create_parent write_chunk write_chunks write_header
    write_target push push_all parent file_name set_file_name rel_to_abs rel_to_vault_abs
    unsafe_rel_path split starts_with contains_seq node_at resolve stat create write_all
    create_dir_all encrypt_with_aad vault_chunk_aad lookup insert le_bytes list_beq contains
is_written = refl

vault_read_chunk-vault_write_file_example :
    vault_read_chunk toy written vault_path 1 key ≡ ok (3 ∷ [])
vault_read_chunk-vault_write_file_example =
    vault_read_chunk-vault_write_file toy toy-IsAead length-pad key (λ k. nonce) (λ k. nonce-Fills)
      two_chunks (omega arith) uuid [] vault_path name no_files written 1 uuid-Fills is_written

listing-vault_write_file_example :
    (bytes : Bytes) × (hdr : VaultHeader) × (read_file written vault_path ≡ ok bytes)
    × (read_vault_header bytes ≡ ok hdr)
    × (hdr.total_chunks ≡ 2)
    × (hdr.original_size ≡ 3)
    × (read_vault_chunk_hashes bytes hdr.total_chunks ≡ ok (pad (1 ∷ 2 ∷ []) ∷ pad (3 ∷ []) ∷ []))
listing-vault_write_file_example =
    listing-vault_write_file toy toy-IsAead length-pad key (λ k. nonce) (λ k. nonce-Fills)
      two_chunks (omega arith) uuid [] vault_path name no_files written uuid-Fills is_written

held : HoldsVault toy key two_chunks vault_path written
held =
    let (_, _, h) =
      vault_write_file-ok toy toy-IsAead length-pad key (λ k. nonce) (λ k. nonce-Fills) two_chunks
        (omega arith) uuid [] vault_path name no_files written uuid-Fills is_written in
    h

-- "b"
abbrev plain_path : FilePath
plain_path = (98 ∷ []) ∷ []

abbrev exported : Fs
exported = (vault_export_to_plaintext toy vault_path key plain_path written).1

is_exported : vault_export_to_plaintext toy vault_path key plain_path written ≡ (ok 3, exported)
unfolding vault_write_file try_u32 try_block_len create_parent write_chunk write_chunks write_header
    write_target push push_all parent file_name set_file_name rel_to_abs rel_to_vault_abs
    unsafe_rel_path split starts_with contains_seq node_at resolve stat create write_all
    create_dir_all encrypt_with_aad vault_chunk_aad lookup insert le_bytes list_beq contains
    vault_export_to_plaintext with_extension stem_ext rsplit_at read_file read_vault_header
    read_exact from_le_bytes export_to export_loop open_record read_record_head decrypt_with_aad
    toy_unseal rename remove
is_exported = refl

vault_export-IsVault_example :
    (◌≡◌ {A = ℕ} 3 (sum (map length two_chunks)))
    × (read_file exported plain_path ≡ ok (1 ∷ 2 ∷ 3 ∷ []))
vault_export-IsVault_example =
    vault_export-IsVault toy key two_chunks held.0 vault_path plain_path 3 written exported held.2
      held.1 is_exported

vault_chunk_aad-injective_example : (tag ≡ tag) × (◌≡◌ {A = ℕ} 1 1)
vault_chunk_aad-injective_example =
    vault_chunk_aad-injective tag tag 1 1 refl refl (omega arith) (omega arith) refl
