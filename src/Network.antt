-- ===== src/Network.antt =====
-- src/network.rs: the messages. Keys, hashes and file ids are byte lists; a file name is text.
use vitruvius.Base.{ℕ, List, Bytes, Text, Error}

pub record FileEntry : Type 0 where
  pub file_name : Text
  pub file_size : ℕ
  pub total_chunks : ℕ
  pub chunk_hashes : List Bytes

pub record EncryptedFileEntry : Type 0 where
  pub file_name : Text
  pub file_id : Bytes
  pub file_size : ℕ
  pub total_chunks : ℕ
  pub blinded_chunk_hashes : List Bytes

pub record EncryptedManifestPayload : Type 0 where
  pub node_name : Text
  pub files : List EncryptedFileEntry

-- The text of an error message is the text of the error that it reports.
pub data SyncMessage : Type 0 where
  folder_announcement : Text → SyncMessage
  manifest_request : SyncMessage
  chunk_request : Text → ℕ → SyncMessage
  manifest : Text → List FileEntry → SyncMessage
  chunk_response : Text → ℕ → Bytes → Bytes → SyncMessage
  encrypted_manifest : Bytes → SyncMessage
  encrypted_chunk_request : Bytes → ℕ → SyncMessage
  encrypted_chunk_response : Bytes → ℕ → Bytes → Bytes → SyncMessage
  empty ack : SyncMessage
  error : Error → SyncMessage
  file_changed : Text → SyncMessage
  file_deleted : Text → SyncMessage
  key_exchange_propose : Bytes → SyncMessage
  key_exchange_accept : Bytes → SyncMessage
  transfer_complete : Text → SyncMessage
