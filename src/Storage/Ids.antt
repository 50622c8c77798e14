-- ===== src/Storage/Ids.antt =====
-- src/storage.rs: the file ids that `get_encrypted_manifest` gives out, and the names that they stand
-- for.
use mathlib.Core.Option.{some-injective}
use vitruvius.Base.{
  ◌≡◌, refl, ap, subst, ◌∙◌, Bytes, Text, some, true, is_some, List, [], ◌∷◌, All, lookup, insert,
  lookup-insert, lookup-insert_self, ap₂, nat_eq, list_eq, Bool-cases, Option-cases, inl, inr,
  contains, ◌==◌, eq_of_==, ==_refl, map, as_u32, lookup-insert_self,
}
use vitruvius.Crypto.{Primitives, blind_filename, blind_chunk_hash}
use vitruvius.Network.{EncryptedFileEntry}
use vitruvius.Storage.{FileMetadata}
use vitruvius.Storage.Manifest.{IdMap, add_ids, encrypted_entry}

abbrev pub names_of : List FileMetadata → List Text
names_of files = map (λ (m : FileMetadata). m.file_name) files

module _ (P : Primitives) (transport_key : Bytes) where
  abbrev pub id_of : Text → Bytes
  id_of name = blind_filename P transport_key name

  -- The entry announces the file: its name, its size, its number of chunks as 32 bits, and in place
  -- of the name's and the chunks' hashes what the key makes of them.
  abbrev pub Announces : FileMetadata → EncryptedFileEntry → Type 0
  Announces m fe =
      (fe.file_name ≡ m.file_name)
      × (fe.file_id ≡ id_of m.file_name)
      × (fe.file_size ≡ m.file_size)
      × (fe.total_chunks ≡ as_u32 m.total_chunks)
      × (fe.blinded_chunk_hashes ≡ map (blind_chunk_hash P transport_key) m.chunk_hashes)

  -- One entry for each file, in the files' order.
  abbrev pub AnnouncesAll : List FileMetadata → List EncryptedFileEntry → Type 0
  AnnouncesAll [] [] = Unit
  AnnouncesAll [] (fe ∷ fes) = ⊥
  AnnouncesAll (m ∷ ms) [] = ⊥
  AnnouncesAll (m ∷ ms) (fe ∷ fes) = Announces m fe × AnnouncesAll ms fes

  pub AnnouncesAll-encrypted_entry :
      (files : List FileMetadata) → AnnouncesAll files (map (encrypted_entry P transport_key) files)
  unfolding encrypted_entry
  AnnouncesAll-encrypted_entry [] = tt
  AnnouncesAll-encrypted_entry (m ∷ ms) =
      ((refl, refl, refl, refl, refl), AnnouncesAll-encrypted_entry ms)

  -- An id and a name of the map: the id is the name's, and the name is one of those listed.
  abbrev pub StandsFor : List Text → Bytes × Text → Type 0
  StandsFor names pair = (pair.0 ≡ id_of pair.1) × (contains names pair.1 ≡ true)

  -- The id of the file is in the map, and stands there for a listed name that has this id.
  abbrev pub Resolves : List Text → IdMap → FileMetadata → Type 0
  Resolves names ids m =
      (name : Text) × (lookup (id_of m.file_name) ids ≡ some name)
      × StandsFor names (id_of m.file_name, name)

  All-insert :
      (names : List Text) (k : Bytes) (v : Text) (d : IdMap)
      → StandsFor names (k, v)
      → All (StandsFor names) d
      → All (StandsFor names) (insert k v d)
  unfolding insert
  All-insert names k v [] holds all = (holds, tt)
  All-insert names k v ((j, w) ∷ d) holds (first, rest) =
      let later = All-insert names k v d holds rest in
      elim (Bool-cases (j == k)) [
        | inl same ↦ rw (same, insert) ((eq_of_== j k same ∙ holds.0, holds.1), rest)
        | inr other ↦ rw (other, insert) (first, later)
      ]

  All-add_ids :
      (names : List Text) (ms : List FileMetadata) (d : IdMap)
      → All (λ (m : FileMetadata). contains names m.file_name ≡ true) ms
      → All (StandsFor names) d
      → All (StandsFor names) (add_ids P transport_key ms d)
  unfolding add_ids
  All-add_ids names [] d listed all = all
  All-add_ids names (m ∷ ms) d (first, listed) all =
      All-add_ids names ms (insert (id_of m.file_name) m.file_name d) listed
        (All-insert names (id_of m.file_name) m.file_name d (refl, first) all)

  All-lookup :
      (names : List Text) (k : Bytes) (v : Text) (d : IdMap)
      → All (StandsFor names) d
      → lookup k d ≡ some v
      → StandsFor names (k, v)
  unfolding lookup
  All-lookup names k v [] all found = cc
  All-lookup names k v ((j, w) ∷ d) (first, rest) found = elim (Bool-cases (j == k)) [
    | inl same ↦
        let held : w ≡ v = some-injective w v (rw (same, lookup) at found) in
        subst (λ (p : Bytes × Text). StandsFor names p)
          (ap₂ (λ a b. (a, b)) (eq_of_== j k same) held) first
    | inr other ↦ All-lookup names k v d rest (rw (other, lookup) at found)
  ]

  -- What is in the map stays in it.
  add_ids-keeps :
      (j : Bytes) (ms : List FileMetadata) (d : IdMap)
      → is_some (lookup j d) ≡ true
      → is_some (lookup j (add_ids P transport_key ms d)) ≡ true
  unfolding add_ids
  add_ids-keeps j [] d there = there
  add_ids-keeps j (m ∷ ms) d there =
      add_ids-keeps j ms (insert (id_of m.file_name) m.file_name d)
        (elim (Bool-cases (id_of m.file_name == j)) [
          | inl same ↦ rw (lookup-insert j (id_of m.file_name) m.file_name d, same) refl
          | inr other ↦ rw (lookup-insert j (id_of m.file_name) m.file_name d, other) there
        ])

  add_ids-holds :
      (ms : List FileMetadata) (d : IdMap)
      → All
          (λ (m : FileMetadata).
            is_some (lookup (id_of m.file_name) (add_ids P transport_key ms d)) ≡ true)
          ms
  unfolding add_ids
  add_ids-holds [] d = tt
  add_ids-holds (m ∷ ms) d =
      let next = insert (id_of m.file_name) m.file_name d in
      (
        add_ids-keeps (id_of m.file_name) ms next
            (ap is_some (lookup-insert_self (id_of m.file_name) m.file_name d)),
        add_ids-holds ms next,
      )

  Resolves-lookup :
      (names : List Text) (ids : IdMap) (ms : List FileMetadata)
      → All (StandsFor names) ids
      → All (λ (m : FileMetadata). is_some (lookup (id_of m.file_name) ids) ≡ true) ms
      → All (Resolves names ids) ms
  Resolves-lookup names ids [] all there = tt
  Resolves-lookup names ids (m ∷ ms) all (first, there) = (
    elim (Option-cases (lookup (id_of m.file_name) ids)) [
      | inl missing ↦ absurd (cc (rw missing at first))
      | inr (name, found) ↦ (name, found, All-lookup names (id_of m.file_name) name ids all found)
    ],
    Resolves-lookup names ids ms all there,
  )

  names-cons :
      (x : Text) (names : List Text) (ms : List FileMetadata)
      → All (λ (m : FileMetadata). contains names m.file_name ≡ true) ms
      → All (λ (m : FileMetadata). contains (x ∷ names) m.file_name ≡ true) ms
  unfolding contains
  names-cons x names [] all = tt
  names-cons x names (m ∷ ms) (first, all) = (
    elim (Bool-cases (x == m.file_name)) [ inl same ↦ rw same refl | inr other ↦ rw other first ],
    names-cons x names ms all,
  )

  contains-first : (x : Text) (xs : List Text) → contains (x ∷ xs) x ≡ true
  unfolding contains
  contains-first x xs = rw (==_refl x) refl

  contains-names_of :
      (files : List FileMetadata)
      → All (λ (m : FileMetadata). contains (names_of files) m.file_name ≡ true) files
  contains-names_of [] = tt
  contains-names_of (m ∷ ms) = (
    contains-first m.file_name (names_of ms),
    names-cons m.file_name (names_of ms) ms (contains-names_of ms),
  )

  -- The map of ids resolves every listed file, and holds nothing else.
  pub add_ids-Resolves :
      (files : List FileMetadata)
      → All (Resolves (names_of files) (add_ids P transport_key files [])) files
        × All (StandsFor (names_of files)) (add_ids P transport_key files [])
  add_ids-Resolves files =
      let ids = add_ids P transport_key files [] in
      let all = All-add_ids (names_of files) files [] (contains-names_of files) tt in
      (Resolves-lookup (names_of files) ids files all (add_ids-holds files []), all)
