-- ===== src/Paths.antt =====
-- src/storage.rs (path helpers), src/sync/handler.rs (`rel_path_exists`, `vault_path_exists`) and
-- the parts of `std::path` that they use.
--
-- A path is absolute and holds its components with the last one first, so that `parent` is the tail
-- of the list and `file_name` its head. `.` and empty components are dropped, as `components()`
-- does; `..` stays until the file system resolves it.
pub mod Split
unfoldable pub use Split.*
use mathlib.Core.List.{reverse}
use vitruvius.Base.{
  ℕ, nat_eq, list_eq, ◌≡◌, refl, Bool, true, false, ◌||◌, Option, none, some, List, [], ◌∷◌, ◌++◌,
  arith, Text, ◌==◌, contains, if◌then◌else◌, is_empty,
}

abbrev pub FilePath : Type 0
FilePath = List Text

-- ".."
abbrev pub dotdot : Text
dotdot = 46 ∷ 46 ∷ []

-- VAULT_EXT
abbrev pub vault_ext : Text
vault_ext = 118 ∷ 105 ∷ 116 ∷ []

abbrev pub dot : ℕ
dot = 46

abbrev pub slash : ℕ
slash = 47

abbrev pub backslash : ℕ
backslash = 92

-- `path.push(component)` for a component without a slash.
unfoldable pub push : FilePath → Text → FilePath
push p c = if is_empty c || c == (dot ∷ []) then p else c ∷ p

unfoldable pub push_all : FilePath → List Text → FilePath
push_all p [] = p
push_all p (c ∷ cs) = push_all (push p c) cs

unfoldable pub parent : FilePath → Option FilePath
parent [] = none
parent (c ∷ p) = some p

unfoldable pub file_name : FilePath → Option Text
file_name [] = none
file_name (c ∷ p) = if c == dotdot then none else some c

-- `set_file_name` and `with_file_name`
unfoldable pub set_file_name : FilePath → Text → FilePath
set_file_name [] n = push [] n
set_file_name (c ∷ p) n = if c == dotdot then push (c ∷ p) n else push p n

-- `file_stem` and `extension` of a file name
unfoldable pub stem_ext : Text → Text × Option Text
stem_ext name = elim (rsplit_at dot name) [
  | none ↦ (name, none)
  | some (before, after) ↦ if is_empty before then (name, none) else (before, some after)
]

unfoldable pub extension : FilePath → Option Text
extension p = elim (file_name p) [ none ↦ none | some name ↦ (stem_ext name).1 ]

-- `path.with_extension(ext)`
unfoldable pub with_extension : FilePath → Text → FilePath
with_extension p ext = elim (file_name p) [
  | none ↦ p
  | some name ↦ set_file_name p ((stem_ext name).0 ++ (dot ∷ ext))
]

-- `format!("{}.{}", name, VAULT_EXT)`
abbrev pub vault_name : Text → Text
vault_name name = name ++ (dot ∷ vault_ext)

unfoldable pub rel_to_abs : FilePath → Text → FilePath
rel_to_abs root rel = push_all root (split slash rel)

-- `file_name().unwrap()` panics where the path ends in `..`: `none`.
unfoldable pub rel_to_vault_abs : FilePath → Text → Option FilePath
rel_to_vault_abs root rel =
    let p = rel_to_abs root rel in
    elim (file_name p) [ none ↦ none | some name ↦ some (set_file_name p (vault_name name)) ]

unfoldable pub unsafe_rel_path : Text → Bool
unsafe_rel_path rel =
    contains_seq dotdot rel || starts_with (slash ∷ []) rel || contains rel backslash

-- `path.strip_prefix(root)` on components in reading order.
unfoldable pub strip_prefix : List Text → List Text → Option (List Text)
strip_prefix [] path = some path
strip_prefix (r ∷ root) [] = none
strip_prefix (r ∷ root) (c ∷ path) =
    let rest = strip_prefix root path in if r == c then rest else none

unfoldable pub relative_path : FilePath → FilePath → Option Text
relative_path root path = elim (strip_prefix (reverse root) (reverse path)) [
  | none ↦ none
  | some comps ↦ let s = join slash comps in if is_empty s then none else some s
]
