-- ===== src/Storage/Listing.antt =====
-- src/storage.rs: walking the sync folder, the sorted listings and the chunk index.
--
-- `read_dir` lists a directory in the order of the file system's entries. The walk descends at most
-- as many levels as the file system has entries, which no chain of nested directories exceeds.
use vitruvius.Base.{
  ℕ, zero, suc, Bool, true, false, Option, none, some, List, [], ◌∷◌, ◌++◌, Bytes, Text, length,
  map, ltb, Dict, insert, contains_key, nat_eq, list_eq, ◌==◌, if◌then◌else◌, Result, ok, err,
  ◌>>=◌, or_fail, io_not_a_directory, io_not_found, bad_vault_filename, not_a_vit_file,
  outside_root,
}
use vitruvius.Paths.{
  FilePath, dot, vault_ext, push, file_name, set_file_name, extension, strip_suffix, relative_path,
}
use vitruvius.Fs.{Fs, Node, node_at, resolve, stat, is_file, is_directory, read_file}
use vitruvius.Crypto.{Primitives}
use vitruvius.Vault.{read_vault_header, read_vault_chunk_hashes}
use vitruvius.Storage.{FileMetadata, metadata_of}

-- The names directly below the directory `d`.
unfoldable pub names_in : FilePath → Dict FilePath Node → List Text
names_in d [] = []
names_in d (([], n) ∷ es) = names_in d es
names_in d ((c ∷ p, n) ∷ es) = let rest = names_in d es in if p == d then c ∷ rest else rest

-- `fs::read_dir`, as the paths of the entries.
unfoldable pub read_dir : Fs → FilePath → Result (List FilePath)
read_dir fs d = elim (resolve fs d) [
  | none ↦ err io_not_found
  | some h ↦
      if is_directory (node_at fs h)
      then ok (map (λ c. push d c) (names_in h fs.entries))
      else err io_not_a_directory
]

unfoldable pub is_dir : Fs → FilePath → Bool
is_dir fs p = is_directory (stat fs p)

abbrev is_vault_ext : Option Text → Bool
is_vault_ext none = false
is_vault_ext (some e) = e == vault_ext

unfoldable pub has_vault_ext : FilePath → Bool
has_vault_ext p = is_vault_ext (extension p)

module _ (P : Primitives) (fs : Fs) (root : FilePath) where
  unfoldable pub compute_file_metadata_plain : FilePath → Result FileMetadata
  compute_file_metadata_plain abs_path = do
    name ← or_fail (relative_path root abs_path) outside_root
    contents ← read_file fs abs_path
    ok (metadata_of P name contents)

  unfoldable pub compute_file_metadata_vault : FilePath → Result FileMetadata
  compute_file_metadata_vault abs_path = do
    stem ← or_fail (file_name abs_path) bad_vault_filename
    stripped ← or_fail (strip_suffix (dot ∷ vault_ext) stem) not_a_vit_file
    name ← or_fail (relative_path root (set_file_name abs_path stripped)) outside_root
    contents ← read_file fs abs_path
    hdr ← read_vault_header contents
    chunk_hashes ← read_vault_chunk_hashes contents hdr.total_chunks
    ok (record {
      file_name = name;
      total_chunks = hdr.total_chunks;
      file_size = hdr.original_size;
      is_vault = true;
      chunk_hashes = chunk_hashes;
    })

  -- `Ok(m) => results.push(m)`, `Err(e) => error!(..)`
  abbrev or_skip : Result FileMetadata → List FileMetadata
  or_skip (ok m) = m ∷ []
  or_skip (err e) = []

  unfoldable pub visit_plain : FilePath → List FileMetadata
  visit_plain path = if has_vault_ext path then [] else or_skip (compute_file_metadata_plain path)

  unfoldable pub visit_vault : FilePath → List FileMetadata
  visit_vault path = if has_vault_ext path then or_skip (compute_file_metadata_vault path) else []

module _ (fs : Fs) (visit : FilePath → List FileMetadata) where
  -- The loop over the entries of one directory; `descend` walks a subdirectory.
  unfoldable pub walk_entries : (FilePath → List FileMetadata) → List FilePath → List FileMetadata
  walk_entries descend [] = []
  walk_entries descend (path ∷ rest) =
      (if is_dir fs path then descend path else if is_file fs path then visit path else [])
      ++ walk_entries descend rest

  unfoldable pub walk_dir : ℕ → FilePath → List FileMetadata
  walk_dir zero d = []
  walk_dir (suc fuel) d = elim (read_dir fs d) [
    | err e ↦ []
    | ok entries ↦ walk_entries (walk_dir fuel) entries
  ]

abbrev pub walk_fuel : Fs → ℕ
walk_fuel fs = suc (length fs.entries)

unfoldable pub walk_dir_plain : Primitives → Fs → FilePath → List FileMetadata
walk_dir_plain P fs root = walk_dir fs (visit_plain P fs root) (walk_fuel fs) root

unfoldable pub walk_dir_vault : Primitives → Fs → FilePath → List FileMetadata
walk_dir_vault P fs root = walk_dir fs (visit_vault P fs root) (walk_fuel fs) root

-- `a < b` on file names: the lexicographic order of their bytes.
unfoldable pub text_lt : Text → Text → Bool
text_lt [] [] = false
text_lt [] (y ∷ ys) = true
text_lt (x ∷ xs) [] = false
text_lt (x ∷ xs) (y ∷ ys) = let rest = text_lt xs ys in if x == y then rest else ltb x y

-- `sort_by(|a, b| a.file_name.cmp(&b.file_name))`, a stable sort.
unfoldable pub insert_sorted : FileMetadata → List FileMetadata → List FileMetadata
insert_sorted m [] = m ∷ []
insert_sorted m (n ∷ ns) =
    let rest = insert_sorted m ns in
    if text_lt n.file_name m.file_name then n ∷ rest else m ∷ n ∷ ns

unfoldable pub sort_by_name : List FileMetadata → List FileMetadata
sort_by_name [] = []
sort_by_name (m ∷ ms) = insert_sorted m (sort_by_name ms)

module _ (P : Primitives) (fs : Fs) (sync_root : FilePath) where
  unfoldable pub list_folder_modal : Bool → List FileMetadata
  list_folder_modal vault_mode =
      sort_by_name
        (if vault_mode then walk_dir_vault P fs sync_root else walk_dir_plain P fs sync_root)

  unfoldable pub list_folder_all : List FileMetadata
  list_folder_all = sort_by_name (walk_dir_plain P fs sync_root ++ walk_dir_vault P fs sync_root)

-- Where a chunk with a given plaintext hash can be found on disk.
abbrev pub ChunkIndex : Type 0
ChunkIndex = Dict Bytes (Text × ℕ)

-- `index.entry(*hash).or_insert_with(..)` for each chunk of a file.
unfoldable pub index_hashes : Text → ℕ → List Bytes → ChunkIndex → ChunkIndex
index_hashes name i [] index = index
index_hashes name i (hash ∷ hashes) index =
    index_hashes name (suc i) hashes
      (if contains_key hash index then index else insert hash (name, i) index)

unfoldable pub index_files : List FileMetadata → ChunkIndex → ChunkIndex
index_files [] index = index
index_files (f ∷ fs) index = index_files fs (index_hashes f.file_name 0 f.chunk_hashes index)

unfoldable pub build_chunk_index_modal : Primitives → Fs → FilePath → Bool → ChunkIndex
build_chunk_index_modal P fs sync_root vault_mode =
    index_files (list_folder_modal P fs sync_root vault_mode) []
