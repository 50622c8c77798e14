-- ===== src/Tests/Announced.antt =====
-- A codec for manifests, and a run of the encrypted manifest.
use vitruvius.Base.{
  All, ℕ, zero, suc, ◌≡◌, refl, sym, ◌∙◌, append-nil, ap, ap₂, List, [], ◌∷◌, ◌++◌, append_assoc,
  Bytes, Text, some, false, ok, length, take, drop, take-append, drop-append, lookup, list_beq,
  replicate,
}
use vitruvius.Fs.{Fs, file, is_file, read_file, stat, resolve, node_at}
use vitruvius.Network.{EncryptedFileEntry, EncryptedManifestPayload, encrypted_manifest}
use vitruvius.Storage.Listing.{
  list_folder_modal, sort_by_name, insert_sorted, walk_dir_plain, walk_dir, walk_entries, read_dir,
  names_in, is_dir, visit_plain, has_vault_ext, compute_file_metadata_plain,
}
use vitruvius.Paths.{extension, file_name, stem_ext, relative_path, strip_prefix, push}
use vitruvius.Paths.Split.{rsplit_at, join}
use vitruvius.Crypto.{encrypt_with_aad}
use vitruvius.Storage.{FileMetadata}
use vitruvius.Storage.Ids.{AnnouncesAll, Resolves, StandsFor, names_of}
use vitruvius.Storage.Manifest.{
  Codec, payload_of, add_ids, seal_manifest, get_encrypted_manifest, decrypt_manifest,
}
use vitruvius.Storage.Announcing.{RoundTrips, decrypt_manifest-get_encrypted_manifest}
use vitruvius.Tests.{toy, toy-IsAead, tag, key, nonce, nonce-Fills}

-- A reader gives what it has read and what is left.
abbrev Reads : Type 0 → Type 0
Reads A = Bytes → A × Bytes

abbrev write_text : Text → Bytes
write_text t = length t ∷ t

abbrev read_text : Reads Text
read_text [] = ([], [])
read_text (n ∷ r) = (take n r, drop n r)

read_text-write_text : (t r : Bytes) → read_text (write_text t ++ r) ≡ (t, r)
read_text-write_text t r =
    ap₂ (λ a b. (a, b)) (take-append (length t) t r refl) (drop-append (length t) t r refl)

module _ {A : Type 0} (write : A → Bytes) (read : Reads A) where
  abbrev write_each : List A → Bytes
  write_each [] = []
  write_each (x ∷ xs) = write x ++ write_each xs

  abbrev read_each : ℕ → Reads (List A)
  read_each zero r = ([], r)
  read_each (suc n) r =
      let first = read r in let rest = read_each n first.1 in (first.0 ∷ rest.0, rest.1)

  abbrev write_all : List A → Bytes
  write_all xs = length xs ∷ write_each xs

  abbrev read_all : Reads (List A)
  read_all [] = ([], [])
  read_all (n ∷ r) = read_each n r

  module _ (sound : (x : A) (r : Bytes) → read (write x ++ r) ≡ (x, r)) where
    read_each-write_each :
        (xs : List A) (r : Bytes) → read_each (length xs) (write_each xs ++ r) ≡ (xs, r)
    read_each-write_each [] r = refl
    read_each-write_each (x ∷ xs) r =
        rw (append_assoc, sound x (write_each xs ++ r), read_each-write_each xs r) refl

    read_all-write_all : (xs : List A) (r : Bytes) → read_all (write_all xs ++ r) ≡ (xs, r)
    read_all-write_all xs r = read_each-write_each xs r

abbrev write_entry : EncryptedFileEntry → Bytes
write_entry fe =
    write_text fe.file_name
    ++ (write_text fe.file_id
        ++ (fe.file_size
            ∷ fe.total_chunks
            ∷ write_all write_text read_text fe.blinded_chunk_hashes))

abbrev read_entry_tail : Text → Bytes → Reads EncryptedFileEntry
read_entry_tail name id (size ∷ total ∷ r) =
    let hashes = read_all write_text read_text r in
    (
      record {
        file_name = name;
        file_id = id;
        file_size = size;
        total_chunks = total;
        blinded_chunk_hashes = hashes.0;
      },
      hashes.1,
    )
read_entry_tail name id _ = (
  record {
    file_name = name;
    file_id = id;
    file_size = 0;
    total_chunks = 0;
    blinded_chunk_hashes = [];
  },
  [],
)

abbrev read_entry : Reads EncryptedFileEntry
read_entry r =
    let name = read_text r in let id = read_text name.1 in read_entry_tail name.0 id.0 id.1

entry_layout : (a b c r : Bytes) → (a ++ (b ++ c)) ++ r ≡ a ++ (b ++ (c ++ r))
entry_layout a b c r = rw (append_assoc, append_assoc) refl

abbrev entry_with : EncryptedFileEntry → List Bytes → EncryptedFileEntry
entry_with fe hashes = record fe { blinded_chunk_hashes = hashes }

read_entry-write_entry :
    (fe : EncryptedFileEntry) (r : Bytes) → read_entry (write_entry fe ++ r) ≡ (fe, r)
read_entry-write_entry fe r =
    let hashes = write_all write_text read_text fe.blinded_chunk_hashes in
    let tail = fe.file_size ∷ fe.total_chunks ∷ hashes in
    ap read_entry (entry_layout (write_text fe.file_name) (write_text fe.file_id) tail r)
    ∙ ap (λ (n : Text × Bytes). read_entry_tail n.0 (read_text n.1).0 (read_text n.1).1)
        (read_text-write_text fe.file_name (write_text fe.file_id ++ (tail ++ r)))
    ∙ ap (λ (n : Text × Bytes). read_entry_tail fe.file_name n.0 n.1)
        (read_text-write_text fe.file_id (tail ++ r))
    ∙ ap (λ (h : List Bytes × Bytes). (entry_with fe h.0, h.1))
        (read_all-write_all write_text read_text read_text-write_text fe.blinded_chunk_hashes r)

abbrev payload_with : Text → List EncryptedFileEntry → EncryptedManifestPayload
payload_with name files = record { node_name = name; files = files }

abbrev write_payload : EncryptedManifestPayload → Bytes
write_payload p = write_text p.node_name ++ write_all write_entry read_entry p.files

abbrev read_payload : Bytes → EncryptedManifestPayload
read_payload r =
    let name = read_text r in
    record { node_name = name.0; files = (read_all write_entry read_entry name.1).0 }

read_payload-write_payload : (p : EncryptedManifestPayload) → read_payload (write_payload p) ≡ p
read_payload-write_payload p =
    ap (λ (n : Text × Bytes). payload_with n.0 (read_all write_entry read_entry n.1).0)
      (read_text-write_text p.node_name (write_all write_entry read_entry p.files))
    ∙ ap (payload_with p.node_name) (
        ap (λ b. (read_all write_entry read_entry b).0)
          (sym (append-nil (write_all write_entry read_entry p.files)))
        ∙ ap (λ (h : List EncryptedFileEntry × Bytes). h.0)
            (read_all-write_all write_entry read_entry read_entry-write_entry p.files []))

abbrev codec : Codec
codec = record { to_vec = λ p. some (write_payload p); from_slice = λ b. some (read_payload b) }

codec-RoundTrips : RoundTrips codec
codec-RoundTrips p bytes e =
    let same : write_payload p ≡ bytes = cc in ap some (rw (← same) (read_payload-write_payload p))

-- "a"
abbrev name : Text
name = 97 ∷ []

abbrev one_file : Fs
one_file = record { entries = (name ∷ [], file (1 ∷ 2 ∷ 3 ∷ [])) ∷ [] }

abbrev ciphertext : Bytes
ciphertext =
    replicate 12 5
    ++ (write_payload (payload_of toy key name (list_folder_modal toy one_file [] false)) ++ tag)

announced :
    get_encrypted_manifest toy key codec nonce one_file [] name false
    ≡ ok (
      encrypted_manifest ciphertext,
      add_ids toy key (list_folder_modal toy one_file [] false) [],
    )
unfolding get_encrypted_manifest seal_manifest encrypt_with_aad list_folder_modal sort_by_name
    insert_sorted walk_dir_plain walk_dir walk_entries read_dir names_in is_dir is_file visit_plain
    has_vault_ext extension file_name stem_ext rsplit_at compute_file_metadata_plain relative_path
    strip_prefix join read_file stat resolve node_at lookup list_beq push payload_of
announced = refl

abbrev listed : List FileMetadata
listed = list_folder_modal toy one_file [] false

decrypt_manifest-get_encrypted_manifest_example :
    (payload : EncryptedManifestPayload) × (decrypt_manifest toy key codec ciphertext ≡ ok payload)
    × (payload.node_name ≡ name)
    × AnnouncesAll toy key listed payload.files
    × All (Resolves toy key (names_of listed) (add_ids toy key listed [])) listed
    × All (StandsFor toy key (names_of listed)) (add_ids toy key listed [])
decrypt_manifest-get_encrypted_manifest_example =
    decrypt_manifest-get_encrypted_manifest toy toy-IsAead key codec codec-RoundTrips nonce
      nonce-Fills one_file [] name false ciphertext (add_ids toy key listed []) announced
