-- ===== src/Storage/Import/Exporting.antt =====
-- src/storage.rs: an imported file, exported again.
use vitruvius.Base.{
  ℕ, zero, suc, ◌^◌, ◌≤◌, ◌<◌, ◌≡◌, refl, sym, ap, subst, ◌∙◌, inl, inr, some, List, [], ◌∷◌, ◌++◌,
  map, arith, List-cases, length, take, drop, concat, sum, length-append, take-append-drop,
  length-take, length-drop, take-nil, nat_eq, list_eq, Bytes, Text, Result, ok,
}
use vitruvius.Paths.{FilePath, relative_path, rel_to_vault_abs}
use vitruvius.Fs.{Fs, read_file, pure, ◌>>=◌}
use vitruvius.Fs.Actions.{>>=-eq-ok}
use vitruvius.Crypto.{Primitives, IsAead, Draw}
use vitruvius.Crypto.Aead.{Fills}
use vitruvius.Storage.{chunk_size}
use vitruvius.Storage.Import.{read_chunks, chunks_of, import_file}
use vitruvius.Vault.Write.{vault_write_file}
use vitruvius.Vault.Export.{vault_export_to_plaintext}
use vitruvius.Vault.RoundTrip.{vault_write_file-ok}
use vitruvius.Vault.Exporting.{vault_export-IsVault}
use mathlib.Core.Option.{some-injective}

module _ (size : ℕ) (some_bytes : 1 ≤ size) where
  -- Enough reads give the whole file.
  concat-read_chunks :
      (n : ℕ) (rest : Bytes) → length rest < n → concat (read_chunks size n rest) ≡ rest
  unfolding read_chunks
  concat-read_chunks zero rest enough = absurd (omega arith)
  concat-read_chunks (suc n) [] enough = rw (take-nil size, read_chunks)
  concat-read_chunks (suc n) (b ∷ rest) enough =
      let later =
        concat-read_chunks n (drop size (b ∷ rest)) (omega (arith, length-drop size (b ∷ rest))) in
      elim (List-cases (take size (b ∷ rest))) [
        | inl nothing ↦ absurd (omega (arith, length-take size (b ∷ rest), ap length nothing))
        | inr (c, cs, e) ↦
            rw (e, read_chunks)
              (rw later
                (ap (λ l. l ++ drop size (b ∷ rest)) (sym e) ∙ take-append-drop size (b ∷ rest)))
      ]

  -- The chunks of a file, joined, are its contents.
  concat-chunks_of : (contents : Bytes) → concat (chunks_of size contents) ≡ contents
  unfolding chunks_of
  concat-chunks_of contents =
      let whole = concat-read_chunks (suc (length contents)) contents (omega arith) in
      elim (List-cases (read_chunks size (suc (length contents)) contents)) [
        | inl e ↦ rw (e, chunks_of) (ap concat (sym e) ∙ whole)
        | inr (c, cs, e) ↦ rw (e, chunks_of) (ap concat (sym e) ∙ whole)
      ]

sum-map-length : (chunks : List Bytes) → sum (map length chunks) ≡ length (concat chunks)
sum-map-length [] = refl
sum-map-length (c ∷ cs) = omega (arith, sum-map-length cs, length-append c (concat cs))

module _ (P : Primitives) (sound : IsAead P) (hash_len : (b : Bytes) → length (P.hash b) ≡ 32)
    (vault_key : Bytes) (uuids : ℕ → Draw) (nonces : ℕ → ℕ → Draw) where
  -- For a sound AEAD and hashes of 32 bytes, where the draws for a file give 16 and 12 bytes: if a
  -- file of less than 2^64 bytes has been imported, and the vault file that its name gives below
  -- the target is exported on the disk that the import left, then the exported file holds the
  -- contents of the imported one, and the export reports their length.
  pub vault_export-import_file :
      (src_root target_root path vault_path dest : FilePath) (rel : Text) (contents : Bytes)
      (count counted n : ℕ) (before mid after : Fs)
      → Fills 16 (uuids count)
      → ((k : ℕ) → Fills 12 (nonces count k))
      → length contents < 2 ^ 64
      → relative_path src_root path ≡ some rel
      → rel_to_vault_abs target_root rel ≡ some vault_path
      → read_file before path ≡ ok contents
      → import_file P vault_key uuids nonces src_root target_root path count before
        ≡ (ok counted, mid)
      → vault_export_to_plaintext P vault_path vault_key dest mid ≡ (ok n, after)
      → (n ≡ length contents) × (read_file after dest ≡ ok contents)
  unfolding import_file
  vault_export-import_file src_root target_root path vault_path dest rel contents count counted n
        before mid after uuid_len nonce_len fits rel_is target_is readable imported exported =
      let chunks = chunks_of chunk_size contents in
      let whole : concat chunks ≡ contents = concat-chunks_of chunk_size (omega arith) contents in
      let size_fits : sum (map length chunks) < 2 ^ 64 =
        omega (arith, sum-map-length chunks, ap length whole) in
      let write =
        vault_write_file P (uuids count) (nonces count) target_root rel chunks vault_key in
      let run : (write >>= λ _. pure (suc count)) before ≡ (ok counted, mid) =
        rw (rel_is, readable, import_file) at imported in
      let (written_path, wrote, last) =
        >>=-eq-ok (λ (_ : FilePath). pure (suc count)) write before run in
      let written : write before ≡ (ok written_path, mid) =
        ap (λ (r : Result FilePath). (r, (write before).1)) wrote
        ∙ ap (λ (r : Result ℕ × Fs). (ok written_path, r.1)) last in
      let (target, _, held) =
        vault_write_file-ok P sound hash_len vault_key (nonces count) nonce_len chunks size_fits
          (uuids count) target_root written_path rel before mid uuid_len written in
      let same : written_path ≡ vault_path =
        some-injective written_path vault_path (sym target ∙ target_is) in
      let (bytes, stored, v) = held in
      let (size, held_after) =
        vault_export-IsVault P vault_key chunks bytes vault_path dest n mid after v
          (subst (λ p. read_file mid p ≡ ok bytes) same stored) exported in
      (
        size ∙ (sum-map-length chunks ∙ ap length whole),
        held_after ∙ ap (λ (b : Bytes). ok b) whole,
      )
