-- ===== src/Vault/Reading/Chunks.antt =====
-- `vault_read_chunk` on a well-formed file.
use vitruvius.Base.{
  ℕ, zero, suc, ◌+◌, ◌≤◌, ◌≡◌, List, [], ◌∷◌, ◌++◌, Bytes, length, map, sum, get_elem?, some, ok,
  err, arith, chunk_out_of_range, ◌==◌, nat_eq, false, get_elem?-lt, ==_refl,
}
use vitruvius.Crypto.{Primitives}
use vitruvius.Vault.{read_chunk_loop, read_chunk_of}
use vitruvius.Vault.Image.{header_bytes, Records, IsVault}
use vitruvius.Vault.Reading.{next_pre, head-at, block-at, cut-next, next-at}
use vitruvius.Vault.Reading.Listing.{read_vault_header-IsVault, length-header_bytes}

-- The loop at record number `i` finds the chunk `k` places further on.
read_chunk_loop-Records :
    (P : Primitives) (vault_key file_uuid contents pre : Bytes) (pos i k index : ℕ)
    (chunks : List Bytes) (bytes found : Bytes)
    → contents ≡ pre ++ bytes
    → length pre ≡ pos
    → Records P vault_key file_uuid i chunks bytes
    → get_elem? chunks k ≡ some found
    → i + k ≡ index
    → read_chunk_loop P contents file_uuid vault_key index (length chunks) i pos ≡ ok found
unfolding read_chunk_loop
read_chunk_loop-Records P key uuid contents pre pos i k index [] bytes found cut at_pos holds at_k
      e =
    ground arith
read_chunk_loop-Records P key uuid contents pre pos i zero index (chunk ∷ chunks) bytes found cut
      at_pos holds at_k e =
    let here : index ≡ i = omega arith in
    let same : chunk ≡ found = cc in
    rw
      (
        here,
        head-at P key uuid contents pre pos i chunk chunks bytes cut at_pos holds,
        ==_refl i,
        block-at P key uuid contents pre pos i chunk chunks bytes cut at_pos holds,
      )
      (rw (here, ← same) holds.5)
read_chunk_loop-Records P key uuid contents pre pos i (suc k) index (chunk ∷ chunks) bytes found cut
      at_pos holds at_k e =
    let differ : (i == index) ≡ false = ground arith in
    let later =
      read_chunk_loop-Records P key uuid contents
        (next_pre P key uuid contents pre pos i chunk chunks bytes cut at_pos holds)
        (pos + 32 + 4 + length holds.0) (suc i) k index chunks holds.1 found
        (cut-next P key uuid contents pre pos i chunk chunks bytes cut at_pos holds)
        (next-at P key uuid contents pre pos i chunk chunks bytes cut at_pos holds) holds.6 at_k
        (omega arith) in
    rw (head-at P key uuid contents pre pos i chunk chunks bytes cut at_pos holds, differ) later

module _ (P : Primitives) (vault_key : Bytes) (chunks : List Bytes) (bytes : Bytes)
    (v : IsVault P vault_key chunks bytes) where
  -- A well-formed file gives back each of its chunks.
  pub read_chunk_of-IsVault :
      (i : ℕ) (chunk : Bytes)
      → get_elem? chunks i ≡ some chunk
      → read_chunk_of P bytes i vault_key ≡ ok chunk
  unfolding read_chunk_of
  read_chunk_of-IsVault i chunk found =
      let found_by_loop =
        read_chunk_loop-Records P vault_key v.file_uuid bytes
          (header_bytes v.file_uuid (length chunks) (sum (map length chunks))) 40 0 i i chunks
          v.records chunk v.layout
          (length-header_bytes v.file_uuid (length chunks) (sum (map length chunks)) v.uuid_len)
          v.holds found (omega arith) in
      ground (
        arith,
        read_vault_header-IsVault P vault_key chunks bytes v,
        found_by_loop,
        get_elem?-lt chunks i found,
      )

  -- And it has no other.
  pub read_chunk_of-past :
      (i : ℕ)
      → length chunks ≤ i
      → read_chunk_of P bytes i vault_key ≡ err (chunk_out_of_range i (length chunks))
  unfolding read_chunk_of
  read_chunk_of-past i past = ground (arith, read_vault_header-IsVault P vault_key chunks bytes v)
