-- ===== src/Identity.antt =====
-- src/identity.rs: the key pair of the node, and the directory of the program's files.
--
-- The Ed25519 key pairs of libp2p and their encoding are a parameter.
pub mod Keeping
use vitruvius.Base.{
  ℕ, zero, suc, ◌+◌, ◌-◌, ◌*◌, ◌/◌, ◌%◌, ◌^◌, ◌≤◌, ◌<◌, min, max, ◌≡◌, refl, sym, ap, ap₂, subst,
  ◌∙◌, ◌≢◌, ◌↔◌, ◌⊎◌, inl, inr, Bool, true, false, not, ◌&&◌, ◌||◌, Option, none, some, List, [],
  ◌∷◌, ◌++◌, map, append-nil, append_assoc, arith, ltb, leb, nat_beq, nat_beq_iff, if◌then◌else◌,
  is_some, is_empty, ltb→lt, lt→ltb, le→ltb_false, Bool-cases, Option-cases, List-cases, length,
  get_elem?, take, drop, replicate, concat, All, sum, range_from, range, keep_if, length-append,
  take-append-drop, length-take, length-drop, length-map, take-append, drop-append, drop-all,
  take-all, drop-nil, take-nil, take-add, drop-drop, get_elem?-lt, get_elem?-eq_none, Eq, ◌==◌,
  ==_refl, eq_of_==, nat_eq, list_eq, list_beq, list_beq_iff, contains, Dict, lookup, contains_key,
  insert, remove, lookup-insert, lookup-insert_self, lookup-remove, contains_key-remove,
  insert-insert, contains_key-eq_none, length-insert-le, length-remove-le, add, delete,
  contains-add, contains-delete, Bytes, Text, le_bytes, from_le_bytes, u32_bytes, u64_bytes, as_u32,
  Error, Result, ok, err, or_fail, >>=-eq-ok as bind-eq-ok, Result-cases, ◌>>=◌ as bind, guard,
}
use vitruvius.Paths.{FilePath, push}
use vitruvius.Fs.{
  Fs, Io, pure, lift, ◌>>=◌, ◌>>◌, create, write_all, create_dir_all, exists, read_file,
}
use vitruvius.Base.{keypair_encoding}

-- ".vitruvius"
abbrev pub dot_vitruvius : Text
dot_vitruvius = 46 ∷ 118 ∷ 105 ∷ 116 ∷ 114 ∷ 117 ∷ 118 ∷ 105 ∷ 117 ∷ 115 ∷ []

-- KEY_FILE
abbrev pub key_file : Text
key_file =
    118 ∷ 105 ∷ 116 ∷ 114 ∷ 117 ∷ 118 ∷ 105 ∷ 117 ∷ 115 ∷ 95 ∷ 112 ∷ 101 ∷ 101 ∷ 114 ∷ 46 ∷ 107
    ∷ 101 ∷ 121 ∷ []

-- `dirs::home_dir()`, or the current directory.
abbrev pub home_or_here : Option FilePath → FilePath → FilePath
home_or_here none current_dir = current_dir
home_or_here (some home) current_dir = home

-- What `libp2p::identity::Keypair` gives.
pub record KeypairCodec (K : Type 0) : Type 0 where
  pub to_protobuf_encoding : K → Option Bytes
  pub from_protobuf_encoding : Bytes → Option K

-- The path that `vitruvius_dir` returns, and the file system as it leaves it.
abbrev pub vitruvius_path : Option FilePath → FilePath → FilePath
vitruvius_path home_dir current_dir = push (home_or_here home_dir current_dir) dot_vitruvius

abbrev pub vitruvius_dir : FilePath → Fs → Fs
vitruvius_dir dir fs = (create_dir_all dir fs).1

module _ {K : Type 0} (codec : KeypairCodec K) where
  abbrev pub parse_keypair : Result Bytes → Option K
  parse_keypair (err e) = none
  parse_keypair (ok bytes) = codec.from_protobuf_encoding bytes

  -- The key pair on disk; a file that cannot be read or parsed counts as none.
  abbrev pub stored_keypair : FilePath → Fs → Option K
  stored_keypair path fs = if exists fs path then parse_keypair (read_file fs path) else none

  -- `fresh` is what `generate_ed25519` returns.
  unfoldable pub save_keypair : FilePath → K → Io K
  save_keypair path fresh = do
    bytes ← lift (or_fail (codec.to_protobuf_encoding fresh) keypair_encoding)
    f ← create path
    write_all f bytes
    pure fresh

  abbrev pub load_or_save : FilePath → K → Option K → Io K
  load_or_save path fresh (some kp) = pure kp
  load_or_save path fresh none = save_keypair path fresh

  -- `dir` is the directory that `vitruvius_dir` gives.
  unfoldable pub load_or_create_keypair : FilePath → K → Io K
  load_or_create_keypair dir fresh fs =
      let made = vitruvius_dir dir fs in
      let path = key_file ∷ dir in load_or_save path fresh (stored_keypair path made) made
