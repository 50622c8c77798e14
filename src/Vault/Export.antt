-- ===== src/Vault/Export.antt =====
-- src/storage.rs: `vault_export_to_plaintext`. The plaintext goes to `<dest>.tmp`, which is renamed
-- on success and removed on failure. The vault file is read as it was before the temporary file is
-- made; the code reads on while it writes, so it differs where `<dest>.tmp` is the vault file itself,
-- which the code then truncates.
use vitruvius.Base.{ℕ, zero, suc, Bytes, Text, ◌∷◌, [], Result, ok, err}
use vitruvius.Paths.{FilePath, with_extension}
use vitruvius.Fs.{
  Io, pure, lift, ◌>>=◌, ◌>>◌, ignore, create, write_all, rename, remove_file, read_file,
}
use vitruvius.Crypto.{Primitives}
use vitruvius.Vault.{VaultHeader, vault_header_len, read_vault_header, open_record}
use vitruvius.Vault.Write.{create_parent}

-- "tmp"
abbrev pub tmp_ext : Text
tmp_ext = 116 ∷ 109 ∷ 112 ∷ []

module _ (P : Primitives) (contents file_uuid vault_key : Bytes) where
  unfoldable pub export_loop : FilePath → ℕ → ℕ → ℕ → Io (Unit {0})
  export_loop out zero i pos = pure tt
  export_loop out (suc n) i pos = do
    (plaintext, next) ← lift (open_record P contents file_uuid vault_key i pos)
    write_all out plaintext
    export_loop out n (suc i) next

  -- The closure whose result decides between `rename` and `remove_file`.
  unfoldable pub export_to : FilePath → ℕ → Io (Unit {0})
  export_to tmp_path total_chunks = do
    out ← create tmp_path
    export_loop out total_chunks 0 vault_header_len

abbrev pub finish_export : FilePath → FilePath → ℕ → Result (Unit {0}) → Io ℕ
finish_export tmp_path dest_path original_size (ok _) = do
  rename tmp_path dest_path
  pure original_size
finish_export tmp_path dest_path original_size (err e) = do
  ignore (remove_file tmp_path)
  lift (err e)

abbrev pub export_file : Primitives → Bytes → Bytes → FilePath → VaultHeader → Io ℕ
export_file P contents vault_key dest_path hdr fs =
    let tmp_path = with_extension dest_path tmp_ext in
    let r =
      (create_parent dest_path
          >> export_to P contents hdr.file_uuid vault_key tmp_path hdr.total_chunks)
        fs in
    finish_export tmp_path dest_path hdr.original_size r.0 r.1

unfoldable pub vault_export_to_plaintext : Primitives → FilePath → Bytes → FilePath → Io ℕ
vault_export_to_plaintext P vault_file_path vault_key dest_path fs =
    (do
      contents ← lift (read_file fs vault_file_path)
      hdr ← lift (read_vault_header contents)
      export_file P contents vault_key dest_path hdr)
      fs
