-- ===== src/Storage/Integrity.antt =====
-- src/storage.rs: from the sender's file to the receiver's.
use vitruvius.Base.{
  ℕ, ◌≡◌, refl, ap, ap₂, sym, ◌∙◌, Bytes, Text, some, List, [], ◌∷◌, ◌++◌, Dict, lookup, All, true,
  map, concat, ok, range, Option-cases, inl, inr, nat_eq, list_eq, get_elem?, eq_of_==,
}
use vitruvius.Paths.{FilePath}
use vitruvius.Fs.{Fs, read_file}
use vitruvius.Crypto.{Primitives}
use vitruvius.Storage.{FileTransferState, metadata_of, verify_chunk}
use vitruvius.Storage.Slices.{slice, hash_slice, chunk_hashes-hash_slice, concat-slice}
use vitruvius.Storage.Reassembly.{incoming_bytes, or_nothing, reassemble_plain}
use vitruvius.Storage.Reassembling.{Present, reassemble_plain-ok}

-- Every chunk that was kept passed the test against the hash at its position.
abbrev pub Checked : Primitives → List Bytes → Dict ℕ Bytes → Type 0
Checked P hashes received =
    (i : ℕ) (d : Bytes)
    → lookup i received ≡ some d
    → (h : Bytes) × (get_elem? hashes i ≡ some h) × (verify_chunk P d h ≡ true)

-- The hash tells the texts apart.
abbrev pub CollisionFree : Primitives → Type 0
CollisionFree P = (a b : Bytes) → P.hash a ≡ P.hash b → a ≡ b

module _ (P : Primitives) (distinct : CollisionFree P) (file_name : Text) (contents : Bytes)
    (received : Dict ℕ Bytes)
    (checked : Checked P (metadata_of P file_name contents).chunk_hashes received) where
  same_hash : (got d h : Bytes) → hash_slice P got ≡ some h → P.hash d ≡ h → d ≡ got
  same_hash [] d h found passed = cc
  same_hash (b ∷ bs) d h found passed = distinct d (b ∷ bs) (passed ∙ cc)

  -- A chunk that was kept is the slice of the sender's file at its position.
  kept_chunk : (i : ℕ) (d : Bytes) → lookup i received ≡ some d → d ≡ slice i contents
  unfolding verify_chunk
  kept_chunk i d there =
      let (h, announced, passed) = checked i d there in
      same_hash (slice i contents) d h
        (sym (chunk_hashes-hash_slice P file_name contents i) ∙ announced)
        (eq_of_== (P.hash d) h passed)

  Present-chunk :
      (i : ℕ) → Present received i → or_nothing received (lookup i received) ≡ slice i contents
  Present-chunk i there = elim (Option-cases (lookup i received)) [
    | inl gone ↦ absurd (cc (rw gone at there))
    | inr (d, found) ↦ rw found (kept_chunk i d found)
  ]

  incoming_bytes-slices :
      (is : List ℕ)
      → All (Present received) is
      → incoming_bytes received is ≡ concat (map (λ i. slice i contents) is)
  unfolding incoming_bytes
  incoming_bytes-slices [] there = refl
  incoming_bytes-slices (i ∷ is) (there, rest) =
      ap₂ (λ a b. a ++ b) (Present-chunk i there) (incoming_bytes-slices is rest)

-- Let a transfer have the metadata of the sender's plaintext file, and let every chunk that it kept
-- have passed the check against that metadata. If the hash has no collision and the file is written
-- at all, then the receiver's file has, byte for byte, the contents of the sender's.
pub reassemble_plain-integrity :
    (P : Primitives) (file_name : Text) (contents : Bytes) (ts : FileTransferState) (secs : ℕ)
    (path : FilePath) (before after : Fs)
    → CollisionFree P
    → Checked P (metadata_of P file_name contents).chunk_hashes ts.received_chunks
    → reassemble_plain ts (metadata_of P file_name contents) secs before ≡ (ok path, after)
    → read_file after path ≡ ok contents
reassemble_plain-integrity P file_name contents ts secs path before after distinct checked e =
    let meta = metadata_of P file_name contents in
    let (_, held, there) = reassemble_plain-ok ts meta secs path before after e in
    held
    ∙ ap ok (
        incoming_bytes-slices P distinct file_name contents ts.received_chunks checked
          (range meta.total_chunks) there
        ∙ concat-slice P file_name contents)
