-- ===== src/Vault/RoundTrip.antt =====
-- Writing a vault file and reading it back.
use vitruvius.Base.{
  ℕ, ◌<◌, ◌^◌, ◌≡◌, refl, sym, ap, ◌∙◌, List, ◌++◌, Bytes, Text, length, map, sum, get_elem?, inl,
  inr, Bool-cases, Option-cases, Option, none, some, false, arith, Result, ok, err,
  chunk_out_of_range, rng_failed, or_fail, get_elem?-eq_none,
}
use vitruvius.Paths.{FilePath, unsafe_rel_path, rel_to_vault_abs}
use vitruvius.Fs.{Fs, file, put, ◌>>=◌, ◌>>◌, lift, pure, create, read_file}
use vitruvius.Fs.Actions.{continue-eq-ok, >>=-eq-ok}
use vitruvius.Fs.Laws.{Created, create-Created, read_file-put}
use vitruvius.Crypto.{Primitives, IsAead, Draw}
use vitruvius.Crypto.Aead.{Fills}
use vitruvius.Vault.{VaultHeader, vault_read_chunk, read_vault_header, read_vault_chunk_hashes}
use vitruvius.Vault.Write.{
  try_u32, create_parent, write_header, write_chunks, write_target, write_at, vault_write_file,
}
use vitruvius.Vault.Writing.{write_chunks-ok, write_header-put}
use vitruvius.Vault.Image.{header_bytes, IsVault}
use vitruvius.Vault.Reading.Listing.{read_vault_header-IsVault, read_vault_chunk_hashes-IsVault}
use vitruvius.Vault.Reading.Chunks.{read_chunk_of-IsVault, read_chunk_of-past}

try_u32-ok : (n m : ℕ) → try_u32 n ≡ ok m → (m ≡ n) × (n < 2 ^ 32)
unfolding try_u32
try_u32-ok n m e = ground arith

-- What the file system holds at a path.
abbrev pub HoldsVault : Primitives → Bytes → List Bytes → FilePath → Fs → Type 0
HoldsVault P vault_key chunks path fs =
    (bytes : Bytes) × (read_file fs path ≡ ok bytes) × IsVault P vault_key chunks bytes

module _ (P : Primitives) (sound : IsAead P) (hash_len : (b : Bytes) → length (P.hash b) ≡ 32)
    (vault_key : Bytes) (nonces : ℕ → Draw) (nonce_len : (k : ℕ) → Fills 12 (nonces k))
    (chunks : List Bytes) (size_fits : sum (map length chunks) < 2 ^ 64) where
  -- After `File::create` the rest of the routine fills the file.
  fill-Created :
      (file_uuid : Bytes) (target h path : FilePath) (before created after : Fs)
      → length file_uuid ≡ 16
      → length chunks < 2 ^ 32
      → Created target h before created
      → (write_header P vault_key file_uuid nonces h (length chunks) (sum (map length chunks))
            >> (write_chunks P vault_key file_uuid nonces h 0 chunks >> pure target))
          created
        ≡ (ok path, after)
      → (path ≡ target) × HoldsVault P vault_key chunks target after
  fill-Created file_uuid target h path before created after uuid_len few c e =
      let header = header_bytes file_uuid (length chunks) (sum (map length chunks)) in
      let e' =
        rw
          (
            c.emptied,
            write_header-put P sound vault_key file_uuid nonces h c.nonroot (length chunks)
                (sum (map length chunks)) before,
          )
          at e in
      let (u, chunks_ok, last) =
        >>=-eq-ok (λ (_ : Unit {0}). pure target)
          (write_chunks P vault_key file_uuid nonces h 0 chunks) (put h (file header) before) e' in
      let mid =
        (write_chunks P vault_key file_uuid nonces h 0 chunks (put h (file header) before)).1 in
      let (records, held, final) =
        write_chunks-ok P sound vault_key file_uuid nonces h c.nonroot 0 chunks header before mid
          nonce_len hash_len (omega arith) (ap (λ (r : Result (Unit {0})). (r, mid)) chunks_ok) in
      let after_is : after ≡ put h (file (header ++ records)) before =
        sym (ap (λ (r : Result FilePath × Fs). r.1) last) ∙ final in
      (
        ground arith,
        (
          header ++ records,
          rw after_is
              (read_file-put h target (header ++ records) before c.nonroot c.no_dir c.resolves),
          record {
            file_uuid = file_uuid;
            records = records;
            layout = refl;
            uuid_len = uuid_len;
            few_chunks = few;
            size_fits = size_fits;
            holds = held;
          },
        ),
      )

  create_and_fill :
      (file_uuid : Bytes) (target path : FilePath) (before after : Fs)
      → length file_uuid ≡ 16
      → length chunks < 2 ^ 32
      → (create target >>= λ f.
            write_header P vault_key file_uuid nonces f (length chunks) (sum (map length chunks))
            >> (write_chunks P vault_key file_uuid nonces f 0 chunks >> pure target))
          before
        ≡ (ok path, after)
      → (path ≡ target) × HoldsVault P vault_key chunks target after
  create_and_fill file_uuid target path before after uuid_len few e =
      let made = (create target before).1 in
      let (h, create_ok, filled) =
        >>=-eq-ok
          (λ (f : FilePath).
            write_header P vault_key file_uuid nonces f (length chunks) (sum (map length chunks))
            >> (write_chunks P vault_key file_uuid nonces f 0 chunks >> pure target))
          (create target) before e in
      fill-Created file_uuid target h path before made after uuid_len few
        (create-Created target h before made (ap (λ (r : Result FilePath). (r, made)) create_ok))
        filled

  write_target-ok :
      (file_uuid : Bytes) (target path : FilePath) (before after : Fs)
      → length file_uuid ≡ 16
      → write_target P vault_key file_uuid nonces target chunks before ≡ (ok path, after)
      → (path ≡ target) × HoldsVault P vault_key chunks target after
  unfolding write_target
  write_target-ok file_uuid target path before after uuid_len e =
      let (u, _, counted) = >>=-eq-ok _ (create_parent target) before e in
      let (total, total_ok, created) = continue-eq-ok _ _ _ counted in
      let (same, few) = try_u32-ok (length chunks) total total_ok in
      let started = (create_parent target before).1 in
      create_and_fill file_uuid target path started after uuid_len few (rw same at created)

  write_at-ok :
      (uuid_draw : Draw) (target : Option FilePath) (path : FilePath) (before after : Fs)
      → Fills 16 uuid_draw
      → write_at P vault_key uuid_draw nonces target chunks before ≡ (ok path, after)
      → (target ≡ some path) × HoldsVault P vault_key chunks path after
  write_at-ok uuid_draw none path before after uuid_len e = cc
  write_at-ok none (some target) path before after uuid_len e =
      let (u, _, failed) =
        >>=-eq-ok (λ (_ : Unit {0}). lift {A = FilePath} (err rng_failed)) (create_parent target)
          before e in
      absurd (cc failed)
  write_at-ok (some file_uuid) (some target) path before after uuid_len e =
      let (same, held) =
        write_target-ok file_uuid target path before after (uuid_len file_uuid refl) e in
      (ap some (sym same), rw same held)

  pub vault_write_file-ok :
      (uuid_draw : Draw) (sync_root path : FilePath) (rel_path : Text) (before after : Fs)
      → Fills 16 uuid_draw
      → vault_write_file P uuid_draw nonces sync_root rel_path chunks vault_key before
        ≡ (ok path, after)
      → (rel_to_vault_abs sync_root rel_path ≡ some path)
        × (unsafe_rel_path rel_path ≡ false)
        × HoldsVault P vault_key chunks path after
  unfolding vault_write_file
  vault_write_file-ok uuid_draw sync_root path rel_path before after uuid_len e =
      elim (Bool-cases (unsafe_rel_path rel_path)) [
        | inl bad ↦ absurd (cc (rw (bad, vault_write_file) at e))
        | inr good ↦
            let (at, held) =
              write_at-ok uuid_draw (rel_to_vault_abs sync_root rel_path) path before after uuid_len
                (rw (good, vault_write_file) at e) in
            (at, good, held)
      ]

  -- Let the cipher be a sound AEAD, the hash have 32 bytes, the draws fill their buffers and the
  -- chunks have less than 2^64 bytes in all. When a vault file has been written, reading chunk i of
  -- it under the same key gives the i-th of the chunks it was written from, and an index past the
  -- last one is refused as out of range.
  pub vault_read_chunk-vault_write_file :
      (uuid_draw : Draw) (sync_root path : FilePath) (rel_path : Text) (before after : Fs) (i : ℕ)
      → Fills 16 uuid_draw
      → vault_write_file P uuid_draw nonces sync_root rel_path chunks vault_key before
        ≡ (ok path, after)
      → vault_read_chunk P after path i vault_key
        ≡ or_fail (get_elem? chunks i) (chunk_out_of_range i (length chunks))
  unfolding vault_read_chunk
  vault_read_chunk-vault_write_file uuid_draw sync_root path rel_path before after i uuid_len e =
      let (_, _, held) =
        vault_write_file-ok uuid_draw sync_root path rel_path before after uuid_len e in
      let (bytes, readable, v) = held in
      rw readable (elim (Option-cases (get_elem? chunks i)) [
        | inl past ↦
            rw past
              (read_chunk_of-past P vault_key chunks bytes v i (get_elem?-eq_none chunks i past))
        | inr (chunk, found) ↦
            rw found (read_chunk_of-IsVault P vault_key chunks bytes v i chunk found)
      ])

  -- Under the same conditions: the header and the hash table of a vault file that was written, read
  -- without the key, give the number of chunks, their total size and the plaintext hash of each.
  pub listing-vault_write_file :
      (uuid_draw : Draw) (sync_root path : FilePath) (rel_path : Text) (before after : Fs)
      → Fills 16 uuid_draw
      → vault_write_file P uuid_draw nonces sync_root rel_path chunks vault_key before
        ≡ (ok path, after)
      → (bytes : Bytes) × (hdr : VaultHeader) × (read_file after path ≡ ok bytes)
        × (read_vault_header bytes ≡ ok hdr)
        × (hdr.total_chunks ≡ length chunks)
        × (hdr.original_size ≡ sum (map length chunks))
        × (read_vault_chunk_hashes bytes hdr.total_chunks ≡ ok (map P.hash chunks))
  listing-vault_write_file uuid_draw sync_root path rel_path before after uuid_len e =
      let (_, _, held) =
        vault_write_file-ok uuid_draw sync_root path rel_path before after uuid_len e in
      let (bytes, readable, v) = held in
      (
        bytes,
        record {
          file_uuid = v.file_uuid;
          total_chunks = length chunks;
          original_size = sum (map length chunks);
        },
        readable,
        read_vault_header-IsVault P vault_key chunks bytes v,
        refl,
        refl,
        read_vault_chunk_hashes-IsVault P vault_key chunks bytes v,
      )
