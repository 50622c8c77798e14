-- ===== src/Vault/Exporting.antt =====
-- `vault_export_to_plaintext` on a well-formed file.
use vitruvius.Base.{
  ℕ, suc, ◌+◌, ◌≡◌, sym, ap, ◌∙◌, List, [], ◌∷◌, ◌++◌, Bytes, length, map, sum, concat,
  append_assoc, append-nil, Result, ok, err, inl, inr, Result-cases, some,
}
use vitruvius.Paths.{FilePath, with_extension}
use vitruvius.Fs.{Fs, file, put, create, read_file, rename, pure, node_at, resolve}
use vitruvius.Fs.Actions.{>>=-eq-ok}
use vitruvius.Fs.Laws.{
  IsHandle, write_all-put, Created, create-Created, node_at-put_self, resolve-put,
}
use vitruvius.Fs.Renaming.{rename-ok}
use vitruvius.Crypto.{Primitives}
use vitruvius.Vault.Image.{header_bytes, Records, IsVault}
use vitruvius.Vault.Reading.{next_pre, cut-next, next-at, open_record-at}
use vitruvius.Vault.Reading.Listing.{read_vault_header-IsVault, length-header_bytes}
use vitruvius.Vault.Write.{create_parent}
use vitruvius.Vault.Export.{
  tmp_ext, export_loop, export_to, export_file, finish_export, vault_export_to_plaintext,
}

-- The loop appends every chunk to the open file, and cannot fail on a well-formed file.
export_loop-Records :
    (P : Primitives) (key uuid contents pre : Bytes) (pos i : ℕ) (chunks : List Bytes)
    (bytes acc : Bytes) (h : FilePath) (fs : Fs)
    → IsHandle h
    → contents ≡ pre ++ bytes
    → length pre ≡ pos
    → Records P key uuid i chunks bytes
    → export_loop P contents uuid key h (length chunks) i pos (put h (file acc) fs)
      ≡ (ok tt, put h (file (acc ++ concat chunks)) fs)
unfolding export_loop
export_loop-Records P key uuid contents pre pos i [] bytes acc h fs nonroot cut at_pos holds =
    rw append-nil
export_loop-Records P key uuid contents pre pos i (chunk ∷ chunks) bytes acc h fs nonroot cut at_pos
      holds =
    let later =
      export_loop-Records P key uuid contents
        (next_pre P key uuid contents pre pos i chunk chunks bytes cut at_pos holds)
        (pos + 32 + 4 + length holds.0) (suc i) chunks holds.1 (acc ++ chunk) h fs nonroot
        (cut-next P key uuid contents pre pos i chunk chunks bytes cut at_pos holds)
        (next-at P key uuid contents pre pos i chunk chunks bytes cut at_pos holds) holds.6 in
    rw
      (
        open_record-at P key uuid contents pre pos i chunk chunks bytes cut at_pos holds,
        write_all-put h acc chunk fs nonroot,
        later,
      )
      (rw append_assoc)

abbrev value_or {ℓ} : {A : Type ℓ} → A → Result A → A
value_or d (ok a) = a
value_or d (err e) = d

module _ (P : Primitives) (vault_key : Bytes) (chunks : List Bytes) (contents : Bytes)
    (v : IsVault P vault_key chunks contents) where
  -- Onto a fresh file the loop writes the whole plaintext.
  export_whole :
      (h : FilePath) (fs : Fs)
      → IsHandle h
      → export_loop P contents v.file_uuid vault_key h (length chunks) 0 40 (put h (file []) fs)
        ≡ (ok tt, put h (file (concat chunks)) fs)
  export_whole h fs nonroot =
      export_loop-Records P vault_key v.file_uuid contents
        (header_bytes v.file_uuid (length chunks) (sum (map length chunks))) 40 0 chunks v.records
        [] h fs nonroot v.layout
        (length-header_bytes v.file_uuid (length chunks) (sum (map length chunks)) v.uuid_len)
        v.holds

  -- When the temporary file can be made and renamed, the destination holds the plaintext.
  rename_whole :
      (tmp dest h : FilePath) (n size : ℕ) (before made after : Fs)
      → Created tmp h before made
      → finish_export tmp dest size
          (export_loop P contents v.file_uuid vault_key h (length chunks) 0 40 made).0
          (export_loop P contents v.file_uuid vault_key h (length chunks) 0 40 made).1
        ≡ (ok n, after)
      → (n ≡ size) × (read_file after dest ≡ ok (concat chunks))
  rename_whole tmp dest h n size before made after c e =
      let full = put h (file (concat chunks)) before in
      let e' = rw (c.emptied, export_whole h before c.nonroot) at e in
      let (_, renamed, last) = >>=-eq-ok (λ (_ : Unit {0}). pure size) (rename tmp dest) full e' in
      let moved_fs = (rename tmp dest full).1 in
      let (s, b, from, held, found) =
        rename-ok tmp dest full moved_fs (ap (λ (r : Result (Unit {0})). (r, moved_fs)) renamed) in
      let at_h : resolve full tmp ≡ some h =
        resolve-put h tmp (concat chunks) before c.nonroot c.no_dir ∙ c.resolves in
      let same : s ≡ h = cc (from, at_h) in
      let whole : b ≡ concat chunks = cc (
        held,
        ap (node_at full) same,
        node_at-put_self h (file (concat chunks)) before c.nonroot,
      ) in
      (
        ap (λ (r : Result ℕ × Fs). value_or 0 r.0) (sym last),
        rw (← ap (λ (r : Result ℕ × Fs). r.1) last) (found ∙ ap ok whole),
      )

  finish_export-ok :
      (tmp dest : FilePath) (n size : ℕ) (before after : Fs)
      → finish_export tmp dest size
          (export_to P contents v.file_uuid vault_key tmp (length chunks) before).0
          (export_to P contents v.file_uuid vault_key tmp (length chunks) before).1
        ≡ (ok n, after)
      → (n ≡ size) × (read_file after dest ≡ ok (concat chunks))
  unfolding export_to
  finish_export-ok tmp dest n size before after e = elim (Result-cases (create tmp before).0) [
    | inr (x, refused) ↦ absurd (cc (rw (refused, export_to) at e))
    | inl (h, made) ↦
        rename_whole tmp dest h n size before (create tmp before).1 after
          (create-Created tmp h before (create tmp before).1
            (ap (λ (r : Result FilePath). (r, (create tmp before).1)) made))
          (rw (made, export_to) at e)
  ]

  export_file-ok :
      (dest : FilePath) (n : ℕ) (before after : Fs)
      → export_file P contents vault_key dest
          (record {
            file_uuid = v.file_uuid;
            total_chunks = length chunks;
            original_size = sum (map length chunks);
          })
          before
        ≡ (ok n, after)
      → (n ≡ sum (map length chunks)) × (read_file after dest ≡ ok (concat chunks))
  export_file-ok dest n before after e = elim (Result-cases (create_parent dest before).0) [
    | inr (x, refused) ↦ absurd (cc (rw refused at e))
    | inl (u, made) ↦
        finish_export-ok (with_extension dest tmp_ext) dest n (sum (map length chunks))
          (create_parent dest before).1 after (rw made at e)
  ]

-- If the file to export is readable and a well-formed vault file, and the export succeeds, it
-- returns the size of the plaintext and leaves at the destination all the chunks, joined in their
-- order.
pub vault_export-IsVault :
    (P : Primitives) (vault_key : Bytes) (chunks : List Bytes) (contents : Bytes)
    (vault_file_path dest_path : FilePath) (n : ℕ) (before after : Fs)
    → IsVault P vault_key chunks contents
    → read_file before vault_file_path ≡ ok contents
    → vault_export_to_plaintext P vault_file_path vault_key dest_path before ≡ (ok n, after)
    → (n ≡ sum (map length chunks)) × (read_file after dest_path ≡ ok (concat chunks))
unfolding vault_export_to_plaintext
vault_export-IsVault P vault_key chunks contents vault_file_path dest_path n before after v readable
      e =
    export_file-ok P vault_key chunks contents v dest_path n before after
      (rw (readable, read_vault_header-IsVault P vault_key chunks contents v) at e)
