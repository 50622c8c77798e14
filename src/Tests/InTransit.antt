-- ===== src/Tests/InTransit.antt =====
-- Runs of what crosses the network.
use vitruvius.Base.{
  List, ℕ, ◌≡◌, ◌≢◌, refl, [], ◌∷◌, ◌++◌, Bytes, Text, true, false, some, none, ok, err, arith,
  lookup, insert, le_bytes, list_beq, contains, length, concat, range, get_elem?, nat_eq,
  nat_beq_iff, All, replicate, chunk_past_end,
}
use vitruvius.Paths.{push, push_all, parent, rel_to_abs, unsafe_rel_path}
use vitruvius.Paths.Split.{split, starts_with, contains_seq}
use vitruvius.Fs.{
  Fs, file, node_at, resolve, stat, create, write_all, create_dir_all, read_file, exists,
}
use vitruvius.Crypto.{encrypt_with_aad, decrypt_with_aad, chunk_aad, blind_chunk_hash}
use vitruvius.Crypto.Aead.{Sealed, Sealed-decrypt_with_aad}
use vitruvius.Crypto.Binding.{chunk_aad-injective, chunk_aad-ne-vault_chunk_aad}
use vitruvius.Vault.{vault_chunk_aad}
use vitruvius.Network.{encrypted_chunk_response}
use vitruvius.Storage.{
  chunk_size, FileTransferState, metadata_of, read_slice, chunks_of_size, hash_loop,
  get_encrypted_chunk, read_local_chunk_plain, verify_chunk, verify_chunk_blinded,
}
use vitruvius.Storage.Slices.{
  hash_of, read_each, metadata_of-read_slice, length-chunk_hashes, concat-read_slice, empty_file,
}
use vitruvius.Storage.Serving.{get_encrypted_chunk-opens}
use vitruvius.Storage.Reassembly.{
  reassemble_plain, keep_conflicting, write_received, incoming_bytes,
}
use vitruvius.Storage.Reassembling.{Present, reassemble_plain-ok}
use vitruvius.Storage.Integrity.{Checked, reassemble_plain-integrity}
use vitruvius.Tests.{toy, toy_distinct, toy-IsAead, toy_unseal, pad, tag, key, nonce, nonce-Fills}

-- "a"
abbrev name : Text
name = 97 ∷ []

abbrev body : Bytes
body = 1 ∷ 2 ∷ 3 ∷ []

abbrev one_file : Fs
one_file = record { entries = (name ∷ [], file body) ∷ [] }

metadata_of-read_slice_example :
    get_elem? (metadata_of toy name body).chunk_hashes 0
    ≡ hash_of toy (read_slice chunk_size body 0)
metadata_of-read_slice_example = metadata_of-read_slice toy name body 0 (omega arith)

body-nonempty : body ≢ []
body-nonempty e = cc

length-chunk_hashes_example :
    length (metadata_of toy name body).chunk_hashes ≡ (metadata_of toy name body).total_chunks
length-chunk_hashes_example = length-chunk_hashes toy name body body-nonempty

concat-read_slice_example :
    (pieces : List Bytes) × (read_each body (range (metadata_of toy name body).total_chunks)
      ≡ ok pieces)
    × (concat pieces ≡ body)
concat-read_slice_example = concat-read_slice toy name body body-nonempty (omega arith)

empty_file_example :
    ((metadata_of toy name []).total_chunks ≡ 1)
    × ((metadata_of toy name []).chunk_hashes ≡ [])
    × (read_slice chunk_size [] 0 ≡ err (chunk_past_end 0))
empty_file_example = empty_file toy name 0

chunk_aad-injective_example : (tag ≡ tag) × (◌≡◌ {A = ℕ} 1 1)
chunk_aad-injective_example =
    chunk_aad-injective tag tag 1 1 refl refl (omega arith) (omega arith) refl

chunk_aad-ne-vault_chunk_aad_example : chunk_aad tag 1 ≢ vault_chunk_aad tag 1
chunk_aad-ne-vault_chunk_aad_example = chunk_aad-ne-vault_chunk_aad tag tag 1 1

opened : decrypt_with_aad toy key (replicate 12 5 ++ (body ++ tag)) name ≡ ok body
unfolding decrypt_with_aad toy_unseal list_beq
opened = refl

Sealed-decrypt_with_aad_example : Sealed toy key name body (replicate 12 5 ++ (body ++ tag))
Sealed-decrypt_with_aad_example =
    Sealed-decrypt_with_aad toy toy-IsAead key name body (replicate 12 5 ++ (body ++ tag)) opened

served :
    get_encrypted_chunk toy one_file [] nonce name tag 0 key false none
    ≡ ok (
        encrypted_chunk_response tag 0
          (replicate 12 5 ++ (body ++ tag))
          (pad (key ++ 0 ∷ pad body)))
unfolding get_encrypted_chunk read_local_chunk_plain read_slice read_file stat resolve node_at
    rel_to_abs push_all push split unsafe_rel_path contains_seq starts_with contains
    encrypt_with_aad blind_chunk_hash chunk_aad le_bytes lookup list_beq
served = refl

get_encrypted_chunk-opens_example :
    (plaintext : Bytes) × (read_local_chunk_plain toy one_file [] name 0 false none ≡ ok plaintext)
    × (decrypt_with_aad toy key (replicate 12 5 ++ (body ++ tag)) (chunk_aad tag 0) ≡ ok plaintext)
    × (pad (key ++ 0 ∷ pad body) ≡ blind_chunk_hash toy key (toy.hash plaintext))
    × (verify_chunk_blinded toy plaintext (pad (key ++ 0 ∷ pad body)) key ≡ true)
get_encrypted_chunk-opens_example =
    get_encrypted_chunk-opens toy one_file [] nonce name tag 0 key false none
      (replicate 12 5 ++ (body ++ tag)) (pad (key ++ 0 ∷ pad body)) toy-IsAead nonce-Fills served

abbrev transfer : FileTransferState
transfer = record {
  metadata = some (metadata_of toy_distinct name body);
  received_chunks = (0, body) ∷ [];
  sync_dir = [];
  next_request = 1;
  last_activity = 0;
  file_id = none;
}

abbrev no_files : Fs
no_files = record { entries = [] }

abbrev received : Fs
received = (reassemble_plain transfer (metadata_of toy_distinct name body) 0 no_files).1

is_received :
    reassemble_plain transfer (metadata_of toy_distinct name body) 0 no_files
    ≡ (ok (name ∷ []), received)
unfolding reassemble_plain metadata_of chunks_of_size hash_loop rel_to_abs push_all push split
    parent create_dir_all keep_conflicting incoming_bytes write_received exists stat resolve node_at
    create write_all lookup insert list_beq read_file
is_received = refl

reassemble_plain-ok_example :
    (name ∷ [] ≡ rel_to_abs [] name)
    × (read_file received (name ∷ [])
        ≡ ok (
            incoming_bytes
              ((0, body) ∷ [])
              (range (metadata_of toy_distinct name body).total_chunks)))
    × All (Present ((0, body) ∷ [])) (range (metadata_of toy_distinct name body).total_chunks)
unfolding metadata_of
reassemble_plain-ok_example =
    reassemble_plain-ok transfer (metadata_of toy_distinct name body) 0 (name ∷ []) no_files
      received is_received

only_chunk :
    (i : ℕ) (d : Bytes) → lookup i ((0, body) ∷ []) ≡ some d → (◌≡◌ {A = ℕ} 0 i) × (body ≡ d)
unfolding lookup
only_chunk i d e = ground (arith, nat_beq_iff 0 i)

zero_checked :
    (h : Bytes) × (get_elem? (metadata_of toy_distinct name body).chunk_hashes 0 ≡ some h)
    × (verify_chunk toy_distinct body h ≡ true)
unfolding metadata_of chunks_of_size hash_loop verify_chunk list_beq
zero_checked = (body, refl, refl)

all-Checked :
    Checked toy_distinct (metadata_of toy_distinct name body).chunk_hashes ((0, body) ∷ [])
all-Checked i d e = let (at, same) = only_chunk i d e in rw (← at, ← same) zero_checked

reassemble_plain-integrity_example : read_file received (name ∷ []) ≡ ok body
reassemble_plain-integrity_example =
    reassemble_plain-integrity toy_distinct name body transfer 0 (name ∷ []) no_files received
      (λ a b e. e) all-Checked is_received
