-- ===== src/State/Store.antt =====
-- src/tofu.rs: the store of trusted keys as a file. `Json` stands for the crate `serde_json`.
use vitruvius.Base.{
  Option, none, some, List, [], ◌∷◌, map, take, drop, nat_eq, list_eq, insert, remove, Bytes, Text,
  Result, ok, err, or_fail,
}
use vitruvius.Paths.{FilePath}
use vitruvius.Fs.{Fs, Io, lift, ◌>>=◌, create, write_all, read_file}
use vitruvius.Crypto.{Primitives}
use vitruvius.State.{Hex, TofuStore, get_peer_key, list_trusted_peers}
use vitruvius.Identity.{vitruvius_dir}
use vitruvius.Paths.{join}
use vitruvius.Base.{json_encoding}

pub record Json : Type 0 where
  pub to_string_pretty : TofuStore → Option Text
  pub from_str : Text → Option TofuStore

-- STORE_FILE
abbrev pub store_file : Text
store_file =
    118 ∷ 105 ∷ 116 ∷ 114 ∷ 117 ∷ 118 ∷ 105 ∷ 117 ∷ 115 ∷ 95 ∷ 116 ∷ 111 ∷ 102 ∷ 117 ∷ 46 ∷ 106
    ∷ 115 ∷ 111 ∷ 110 ∷ []

module _ (json : Json) where
  abbrev pub parse_store : Result Bytes → TofuStore
  parse_store (err e) = []
  parse_store (ok text) = elim (json.from_str text) [ none ↦ [] | some store ↦ store ]

  -- `dir` is the directory that `vitruvius_dir` gives; every access makes it.
  module _ (dir : FilePath) where
    abbrev pub store_path : FilePath
    store_path = store_file ∷ dir

    unfoldable pub load_store : Fs → TofuStore
    load_store fs = parse_store (read_file (vitruvius_dir dir fs) store_path)

    unfoldable pub save_store : TofuStore → Io (Unit {0})
    save_store store fs =
        (do
          text ← lift (or_fail (json.to_string_pretty store) json_encoding)
          f ← create store_path
          write_all f text)
          (vitruvius_dir dir fs)

    unfoldable pub read_peer_key : Hex → Text → Fs → Option Bytes
    read_peer_key hex peer fs = get_peer_key hex (load_store fs) peer

    unfoldable pub save_peer_key : Hex → Text → Bytes → Io (Unit {0})
    save_peer_key hex peer key fs =
        save_store (insert peer (hex.encode key) (load_store fs)) (vitruvius_dir dir fs)

    unfoldable pub erase_peer_key : Text → Io (Unit {0})
    erase_peer_key peer fs = save_store (remove peer (load_store fs)) (vitruvius_dir dir fs)

    unfoldable pub read_trusted_peers : Fs → List Text
    read_trusted_peers fs = list_trusted_peers (load_store fs)

-- `bytes[..16].chunks(4).map(hex::encode).join(":")`
unfoldable pub key_fingerprint : Primitives → Hex → Bytes → Text
key_fingerprint P hex key =
    let h = P.hash key in
    join 58
      (map hex.encode (take 4 h ∷ take 4 (drop 4 h) ∷ take 4 (drop 8 h) ∷ take 4 (drop 12 h) ∷ []))
