-- ===== src/Fs.antt =====
-- The part of `std::fs` that the program uses: a tree of directories and regular files.
--
-- Paths are resolved component by component, as POSIX does without symbolic links: `..` leaves the
-- directory reached so far, and every directory on the way must exist. A failed call leaves the
-- effects of what ran before it, so an action returns the file system beside its result. Writing to
-- an open file, `sync_all` and `set_permissions` succeed; the mode bits are not modelled.
pub mod Laws
pub mod Renaming
pub mod Actions
pub mod Dirs
pub mod Written
use vitruvius.Base.{
  ℕ, nat_eq, list_eq, Bool, true, false, Option, none, some, List, [], ◌∷◌, ◌++◌, Bytes, Dict,
  lookup, insert, remove, ◌==◌, if◌then◌else◌, Result, ok, err, Error, io_not_found, io_not_a_file,
  io_not_a_directory,
}
use vitruvius.Paths.{FilePath, dotdot}

pub data Node : Type 0 where
  dir : Node
  file : Bytes → Node

pub record Fs : Type 0 where
  pub entries : Dict FilePath Node

unfoldable pub node_at : Fs → FilePath → Option Node
node_at fs [] = some dir
node_at fs (c ∷ p) = lookup (c ∷ p) fs.entries

abbrev pub is_directory : Option Node → Bool
is_directory (some dir) = true
is_directory _ = false

abbrev pub tail_of : FilePath → FilePath
tail_of [] = []
tail_of (c ∷ p) = p

unfoldable pub resolve : Fs → FilePath → Option FilePath
resolve fs [] = some []
resolve fs (c ∷ p) = elim (resolve fs p) [
  | none ↦ none
  | some d ↦
      if is_directory (node_at fs d)
      then (if c == dotdot then some (tail_of d) else some (c ∷ d))
      else none
]

unfoldable pub stat : Fs → FilePath → Option Node
stat fs p = elim (resolve fs p) [ none ↦ none | some h ↦ node_at fs h ]

unfoldable pub exists : Fs → FilePath → Bool
exists fs p = elim (stat fs p) [ none ↦ false | some n ↦ true ]

unfoldable pub is_file : Fs → FilePath → Bool
is_file fs p = elim (stat fs p) [ none ↦ false | some n ↦ elim n [ dir ↦ false | file b ↦ true ] ]

-- `File::open` and `fs::read`: the contents of a regular file.
unfoldable pub read_file : Fs → FilePath → Result Bytes
read_file fs p = elim (stat fs p) [
  | none ↦ err io_not_found
  | some n ↦ elim n [ dir ↦ err io_not_a_file | file b ↦ ok b ]
]

abbrev pub Io {ℓ} : Type ℓ → Type ℓ
Io A = Fs → Result A × Fs

abbrev pub pure {ℓ} : {A : Type ℓ} → A → Io A
pure a fs = (ok a, fs)

abbrev pub lift {ℓ} : {A : Type ℓ} → Result A → Io A
lift r fs = (r, fs)

abbrev pub continue {ℓ κ} :
    {A : Type ℓ} {B : Type κ} → Result A → (A → Fs → Result B × Fs) → Fs → Result B × Fs
continue (ok a) f fs = f a fs
continue (err e) f fs = (err e, fs)

module _ {ℓ κ} {A : Type ℓ} {B : Type κ} where
  infixl 5 ◌>>=◌
  abbrev pub ◌>>=◌ : Io A → (A → Io B) → Io B
  (m >>= f) fs = continue (m fs).0 f (m fs).1

module _ {ℓ} {B : Type ℓ} where
  infixl 5 ◌>>◌
  abbrev pub ◌>>◌ : Io (Unit {0}) → Io B → Io B
  m >> k = m >>= λ _. k

-- `.ok()`, `let _ = ...`: the error is dropped and the effects stay.
abbrev pub ignore {ℓ} : {A : Type ℓ} → Io A → Io (Unit {0})
ignore m fs = (ok tt, (m fs).1)

abbrev pub put : FilePath → Node → Fs → Fs
put h n fs = record { entries = insert h n fs.entries }

abbrev pub create_at : FilePath → Option Node → Io FilePath
create_at h (some dir) fs = (err io_not_a_file, fs)
create_at h _ fs = (ok h, put h (file []) fs)

-- `File::create`: an empty file at the path, and the resolved path as its handle.
unfoldable pub create : FilePath → Io FilePath
create p fs = elim (resolve fs p) [
  | none ↦ (err io_not_found, fs)
  | some h ↦ create_at h (node_at fs h) fs
]

abbrev pub contents : Option Node → Bytes
contents (some (file b)) = b
contents _ = []

-- `write_all` on the open file `h`, whose cursor stands at the end.
unfoldable pub write_all : FilePath → Bytes → Io (Unit {0})
write_all h b fs = (ok tt, put h (file (contents (node_at fs h) ++ b)) fs)

abbrev pub take_away : FilePath → Fs → Fs
take_away h fs = record { entries = remove h fs.entries }

abbrev pub remove_at : FilePath → Option Node → Io (Unit {0})
remove_at h (some (file b)) fs = (ok tt, take_away h fs)
remove_at h (some dir) fs = (err io_not_a_file, fs)
remove_at h none fs = (err io_not_found, fs)

-- `fs::remove_file`
unfoldable pub remove_file : FilePath → Io (Unit {0})
remove_file p fs = elim (resolve fs p) [
  | none ↦ (err io_not_found, fs)
  | some h ↦ remove_at h (node_at fs h) fs
]

abbrev pub move_to : FilePath → FilePath → Option Node → Option Node → Io (Unit {0})
move_to s d (some (file b)) (some dir) fs = (err io_not_a_file, fs)
move_to s d (some (file b)) _ fs = (ok tt, put d (file b) (take_away s fs))
move_to s d _ _ fs = (err io_not_found, fs)

-- `fs::rename` of a regular file, over a regular file if there is one.
unfoldable pub rename : FilePath → FilePath → Io (Unit {0})
rename src dst fs = elim (resolve fs src) [
  | none ↦ (err io_not_found, fs)
  | some s ↦ elim (resolve fs dst) [
    | none ↦ (err io_not_found, fs)
    | some d ↦ move_to s d (node_at fs s) (node_at fs d) fs
  ]
]

abbrev pub make_dir : Option FilePath → Fs → Option Node → Result (Unit {0}) × Fs
make_dir none fs n = (err io_not_a_directory, fs)
make_dir (some h) fs (some dir) = (ok tt, fs)
make_dir (some h) fs (some (file b)) = (err io_not_a_directory, fs)
make_dir (some h) fs none = (ok tt, put h dir fs)

-- `fs::create_dir_all`
unfoldable pub create_dir_all : FilePath → Io (Unit {0})
create_dir_all [] fs = (ok tt, fs)
create_dir_all (c ∷ p) fs =
    let r = create_dir_all p fs in
    continue r.0 (λ _ fs'. make_dir (resolve fs' (c ∷ p)) fs' (stat fs' (c ∷ p))) r.1
