-- ===== src/Storage/VaultCopy.antt =====
-- src/storage.rs: the vault branch of `reassemble_modal`, read back chunk by chunk.
use vitruvius.Base.{
  ℕ, zero, suc, ◌+◌, ◌^◌, ◌<◌, ◌≡◌, sym, ap, ◌∙◌, inl, inr, Option, none, some, List, [], ◌∷◌, map,
  arith, Option-cases, length, get_elem?, sum, range_from, range, length-append, get_elem?-eq_none,
  nat_eq, list_eq, Dict, lookup, Bytes, Error, ok, or_fail, >>=-eq-ok as bind-eq-ok,
}
use vitruvius.Paths.{FilePath}
use vitruvius.Fs.{Fs, lift}
use vitruvius.Fs.Actions.{>>=-eq-ok}
use vitruvius.Crypto.{Primitives, IsAead, Draw}
use vitruvius.Crypto.Aead.{Fills}
use vitruvius.Storage.{FileMetadata, FileTransferState}
use vitruvius.Storage.Reassembly.{collect_chunks, incoming_bytes, reassemble_vault}
use vitruvius.Vault.{vault_read_chunk}
use vitruvius.Vault.Write.{vault_write_file}
use vitruvius.Vault.RoundTrip.{vault_read_chunk-vault_write_file}
use vitruvius.Base.{missing_chunk, chunk_out_of_range}

module _ (received : Dict ℕ Bytes) where
  or_fail-some : (o : Option Bytes) (e : Error) (c : Bytes) → or_fail o e ≡ ok c → o ≡ some c
  or_fail-some none e c h = cc
  or_fail-some (some b) e c h = cc

  collect_chunks-cons :
      (n k : ℕ) (cs : List Bytes)
      → collect_chunks received (range_from (suc n) k) ≡ ok cs
      → (c : Bytes) × (rest : List Bytes) × (lookup k received ≡ some c)
        × (collect_chunks received (range_from n (suc k)) ≡ ok rest)
        × (cs ≡ c ∷ rest)
  unfolding collect_chunks
  collect_chunks-cons n k cs e =
      let (c, found, more) = bind-eq-ok (or_fail (lookup k received) (missing_chunk k)) _ e in
      let (rest, collected, last) =
        bind-eq-ok (collect_chunks received (range_from n (suc k))) _ more in
      (c, rest, or_fail-some (lookup k received) (missing_chunk k) c found, collected, cc)

  -- What is collected has the chunks in the order of their numbers.
  collect_chunks-get_elem? :
      (n i k : ℕ) (cs : List Bytes)
      → collect_chunks received (range_from n k) ≡ ok cs
      → i < n
      → get_elem? cs i ≡ lookup (k + i) received
  collect_chunks-get_elem? zero i k cs e small = absurd (omega arith)
  collect_chunks-get_elem? (suc n) zero k cs e small =
      let (c, rest, found, collected, split) = collect_chunks-cons n k cs e in
      rw split (sym found ∙ ap (λ j. lookup j received) (omega arith))
  collect_chunks-get_elem? (suc n) (suc i) k cs e small =
      let (c, rest, found, collected, split) = collect_chunks-cons n k cs e in
      rw split (
        collect_chunks-get_elem? n i (suc k) rest collected (omega arith)
        ∙ ap (λ j. lookup j received) (omega arith))

  collect_chunks-nil : (cs : List Bytes) → collect_chunks received [] ≡ ok cs → cs ≡ []
  unfolding collect_chunks
  collect_chunks-nil cs e = cc

  length-collect_chunks :
      (n k : ℕ) (cs : List Bytes) → collect_chunks received (range_from n k) ≡ ok cs → length cs ≡ n
  length-collect_chunks zero k cs e = ap length (collect_chunks-nil cs e)
  length-collect_chunks (suc n) k cs e =
      let (c, rest, found, collected, split) = collect_chunks-cons n k cs e in
      ap length split ∙ ap suc (length-collect_chunks n (suc k) rest collected)

  -- Every chunk is there, and together they are as long as the file.
  collect_chunks-sum :
      (n k : ℕ) (cs : List Bytes)
      → collect_chunks received (range_from n k) ≡ ok cs
      → sum (map length cs) ≡ length (incoming_bytes received (range_from n k))
  unfolding incoming_bytes
  collect_chunks-sum zero k cs e = ap (λ l. sum (map length l)) (collect_chunks-nil cs e)
  collect_chunks-sum (suc n) k cs e =
      let (c, rest, found, collected, split) = collect_chunks-cons n k cs e in
      rw (split, found)
        (omega (
          arith,
          collect_chunks-sum n (suc k) rest collected,
          length-append c (incoming_bytes received (range_from n (suc k))),
        ))

module _ (P : Primitives) (sound : IsAead P) (hash_len : (b : Bytes) → length (P.hash b) ≡ 32) where
  -- For a sound AEAD and hashes of 32 bytes, where the draws give 16 and 12 bytes and the received
  -- chunks are together shorter than 2^64: if the vault branch of the reassembly has written a
  -- file, then reading any of the counted chunks of that file, on the disk as it is then, returns
  -- the chunk that was received at this position.
  pub vault_read_chunk-reassemble_vault :
      (ts : FileTransferState) (meta : FileMetadata) (vault_key : Bytes) (uuid_draw : Draw)
      (nonces : ℕ → Draw) (path : FilePath) (before after : Fs) (i : ℕ)
      → Fills 16 uuid_draw
      → ((k : ℕ) → Fills 12 (nonces k))
      → length (incoming_bytes ts.received_chunks (range meta.total_chunks)) < 2 ^ 64
      → i < meta.total_chunks
      → reassemble_vault ts P uuid_draw nonces meta (some vault_key) before ≡ (ok path, after)
      → (c : Bytes) × (lookup i ts.received_chunks ≡ some c)
        × (vault_read_chunk P after path i vault_key ≡ ok c)
  unfolding reassemble_vault
  vault_read_chunk-reassemble_vault ts meta vault_key uuid_draw nonces path before after i uuid_len
        nonce_len fits small e =
      let collected = collect_chunks ts.received_chunks (range meta.total_chunks) in
      let (chunks, all_there, written) =
        >>=-eq-ok
          (λ (cs : List Bytes).
            vault_write_file P uuid_draw nonces ts.sync_dir meta.file_name cs vault_key)
          (lift collected) before e in
      let size_fits : sum (map length chunks) < 2 ^ 64 =
        omega (arith, collect_chunks-sum ts.received_chunks meta.total_chunks 0 chunks all_there) in
      let read =
        vault_read_chunk-vault_write_file P sound hash_len vault_key nonces nonce_len chunks
          size_fits uuid_draw ts.sync_dir path meta.file_name before after i uuid_len written in
      let at_i =
        collect_chunks-get_elem? ts.received_chunks meta.total_chunks i 0 chunks all_there small in
      elim (Option-cases (get_elem? chunks i)) [
        | inl missing ↦ absurd (
            omega (
              arith,
              get_elem?-eq_none chunks i missing,
              length-collect_chunks ts.received_chunks meta.total_chunks 0 chunks all_there,
            ))
        | inr (c, there) ↦ (
          c,
          ap (λ j. lookup j ts.received_chunks) (omega arith) ∙ (sym at_i ∙ there),
          read ∙ ap (λ o. or_fail o (chunk_out_of_range i (length chunks))) there,
        )
      ]
