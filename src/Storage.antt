-- ===== src/Storage.antt =====
-- src/storage.rs: the metadata types, the reading of local chunks and their serving.
--
-- `read` on a regular file fills the buffer unless the file ends; file sizes stay below
-- 2^64 - CHUNK_SIZE, so the rounding of `total_chunks` does not wrap.
pub mod Slices
pub mod Manifest
pub mod Ids
pub mod Announcing
pub mod Reassembling
pub mod Integrity
pub mod Reassembly
pub mod Listing
pub mod Serving
pub mod Import
pub mod Walking
pub mod Sorting
pub mod VaultCopy
pub mod ConflictName
pub mod Conflict
use vitruvius.Base.{
  ◌%◌, ◌^◌, ℕ, zero, suc, ◌+◌, ◌-◌, ◌*◌, ◌/◌, max, Bool, true, false, Option, none, some, List, [],
  ◌∷◌, Bytes, Text, length, take, drop, range, keep_if, not, is_empty, Dict, contains_key, nat_eq,
  list_eq, ◌==◌, as_u32, Result, ok, err, ◌>>=◌, ◌>>◌, or_fail, guard, unsafe_path, no_vault_key,
  panicked, chunk_past_end, if◌then◌else◌,
}
use vitruvius.Paths.{FilePath, rel_to_abs, rel_to_vault_abs, unsafe_rel_path}
use vitruvius.Fs.{Fs, read_file}
use vitruvius.Crypto.{Primitives, Draw, encrypt, encrypt_with_aad, blind_chunk_hash, chunk_aad}
use vitruvius.Network.{FileEntry, SyncMessage, chunk_response, encrypted_chunk_response, error}
use vitruvius.Vault.{vault_read_chunk}

-- CHUNK_SIZE
abbrev pub chunk_size : ℕ
chunk_size = 524288

pub record FileMetadata : Type 0 where
  pub file_name : Text
  pub total_chunks : ℕ
  pub file_size : ℕ
  pub is_vault : Bool
  pub chunk_hashes : List Bytes

-- `last_activity` is a time in seconds.
pub record FileTransferState : Type 0 where
  pub metadata : Option FileMetadata
  pub received_chunks : Dict ℕ Bytes
  pub sync_dir : FilePath
  pub next_request : ℕ
  pub last_activity : ℕ
  pub file_id : Option Bytes

abbrev pub new_transfer : FilePath → ℕ → FileTransferState
new_transfer sync_dir now = record {
  metadata = none;
  received_chunks = [];
  sync_dir = sync_dir;
  next_request = 0;
  last_activity = now;
  file_id = none;
}

-- `metadata.as_ref().map(|m| m.total_chunks).unwrap_or(0)`
abbrev pub total_of : Option FileMetadata → ℕ
total_of none = 0
total_of (some m) = m.total_chunks

unfoldable pub missing_chunks : FileTransferState → List ℕ
missing_chunks ts =
    keep_if (λ i. not (contains_key i ts.received_chunks)) (range (total_of ts.metadata))

pub record PendingFile : Type 0 where
  pub file_name : Text
  pub total_chunks : ℕ
  pub file_size : ℕ
  pub chunk_hashes : List Bytes
  pub file_id : Option Bytes

abbrev pub pending_of : FileEntry → PendingFile
pending_of fe = record {
  file_name = fe.file_name;
  total_chunks = fe.total_chunks;
  file_size = fe.file_size;
  chunk_hashes = fe.chunk_hashes;
  file_id = none;
}

-- `((file_size + CHUNK_SIZE - 1) / CHUNK_SIZE).max(1)`
unfoldable pub chunks_of_size : ℕ → ℕ → ℕ
chunks_of_size size file_size = max ((file_size + size - 1) / size) 1

module _ (P : Primitives) where
  -- The hashing loop: at most `n` reads of `size` bytes, which stop at the end of the file.
  unfoldable pub hash_loop : ℕ → ℕ → Bytes → List Bytes
  hash_loop size zero rest = []
  hash_loop size (suc n) rest =
      let got = take size rest in
      let later = hash_loop size n (drop size rest) in
      if is_empty got then [] else P.hash got ∷ later

  -- `compute_file_metadata_plain` on the name and the contents of the file.
  unfoldable pub metadata_of : Text → Bytes → FileMetadata
  metadata_of file_name contents =
      let total = chunks_of_size chunk_size (length contents) in
      record {
        file_name = file_name;
        total_chunks = total;
        file_size = length contents;
        is_vault = false;
        chunk_hashes = hash_loop chunk_size total contents;
      }

-- The read at `chunk_index as u64 * CHUNK_SIZE`, a product of 64 bits: it wraps around, as in a
-- release build (a debug build panics on the overflow). An empty read is an error.
unfoldable pub read_slice : ℕ → Bytes → ℕ → Result Bytes
read_slice size contents chunk_index =
    let got = take size (drop ((chunk_index * size) % 2 ^ 64) contents) in
    if is_empty got then err (chunk_past_end chunk_index) else ok got

module _ (P : Primitives) (fs : Fs) (sync_root : FilePath) where
  -- Vault mode reads the `*.vit` file. Where `file_name().unwrap()` panics, on a path that ends in
  -- `..`, the error is `panicked`: the program crashes there, and sends no reply.
  unfoldable pub read_vault_local : Text → ℕ → Option Bytes → Result Bytes
  read_vault_local rel_path chunk_index vault_key = do
    key ← or_fail vault_key no_vault_key
    abs ← or_fail (rel_to_vault_abs sync_root rel_path) panicked
    vault_read_chunk P fs abs (as_u32 chunk_index) key

  unfoldable pub read_local_chunk_plain : Text → ℕ → Bool → Option Bytes → Result Bytes
  read_local_chunk_plain rel_path chunk_index vault_mode vault_key = do
    guard (not (unsafe_rel_path rel_path)) unsafe_path
    elim vault_mode [
      | true ↦ read_vault_local rel_path chunk_index vault_key
      | false ↦ do
        contents ← read_file fs (rel_to_abs sync_root rel_path)
        read_slice chunk_size contents chunk_index
    ]

  -- Encryption in transit, if there is a transport key.
  abbrev encrypt_if_keyed : Draw → Option Bytes → Bytes → Result Bytes
  encrypt_if_keyed rng none plaintext = ok plaintext
  encrypt_if_keyed rng (some key) plaintext = encrypt P rng key plaintext

  unfoldable pub chunk_reply : Draw → Text → ℕ → Option Bytes → Result Bytes → Result SyncMessage
  chunk_reply rng rel_path chunk_index transport_key (err e) = ok (error e)
  chunk_reply rng rel_path chunk_index transport_key (ok plaintext) = do
    sent ← encrypt_if_keyed rng transport_key plaintext
    ok (chunk_response rel_path chunk_index sent (P.hash plaintext))

  unfoldable pub get_chunk_modal :
      Draw → Text → ℕ → Option Bytes → Bool → Option Bytes → Result SyncMessage
  get_chunk_modal rng rel_path chunk_index transport_key vault_mode vault_key =
      chunk_reply rng rel_path chunk_index transport_key
        (read_local_chunk_plain rel_path chunk_index vault_mode vault_key)

  unfoldable pub get_chunk : Draw → Text → ℕ → Option Bytes → Result SyncMessage
  get_chunk rng rel_path chunk_index encryption_key =
      get_chunk_modal rng rel_path chunk_index encryption_key false none

  unfoldable pub get_encrypted_chunk :
      Draw → Text → Bytes → ℕ → Bytes → Bool → Option Bytes → Result SyncMessage
  get_encrypted_chunk rng rel_path file_id chunk_index transport_key vault_mode vault_key = do
    plaintext ← read_local_chunk_plain rel_path chunk_index vault_mode vault_key
    let blinded_hash = blind_chunk_hash P transport_key (P.hash plaintext)
    sent ← encrypt_with_aad P rng transport_key plaintext (chunk_aad file_id chunk_index)
    ok (encrypted_chunk_response file_id chunk_index sent blinded_hash)

  -- `read_local_chunk_modal`
  unfoldable pub read_local_chunk_modal : Text → ℕ → Bool → Option Bytes → Option Bytes
  read_local_chunk_modal rel_path chunk_index vault_mode vault_key =
      elim (read_local_chunk_plain rel_path chunk_index vault_mode vault_key) [
        | ok bytes ↦ some bytes
        | err e ↦ none
      ]

module _ (P : Primitives) where
  unfoldable pub verify_chunk : Bytes → Bytes → Bool
  verify_chunk bytes expected = P.hash bytes == expected

  unfoldable pub verify_chunk_blinded : Bytes → Bytes → Bytes → Bool
  verify_chunk_blinded plaintext expected_blinded transport_key =
      blind_chunk_hash P transport_key (P.hash plaintext) == expected_blinded
