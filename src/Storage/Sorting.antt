-- ===== src/Storage/Sorting.antt =====
-- src/storage.rs: the order of a listing.
use vitruvius.Base.{
  ◌≡◌, refl, inl, inr, true, false, List, [], ◌∷◌, ◌++◌, arith, Bool-cases, nat_eq, list_eq, Text,
}
use mathlib.Core.List.{Perm}
use mathlib.Core.List.Perm
use vitruvius.Paths.{FilePath}
use vitruvius.Fs.{Fs}
use vitruvius.Crypto.{Primitives}
use vitruvius.Storage.{FileMetadata}
use vitruvius.Storage.Listing.{
  text_lt, insert_sorted, sort_by_name, walk_dir_plain, walk_dir_vault, list_folder_all,
}

-- No file's name is below that of the file before it.
abbrev pub Ascending : List FileMetadata → Type 0
Ascending [] = Unit {0}
Ascending (m ∷ []) = Unit {0}
Ascending (m ∷ n ∷ ms) = (text_lt n.file_name m.file_name ≡ false) × Ascending (n ∷ ms)

text_lt-asym : (a b : Text) → text_lt a b ≡ true → text_lt b a ≡ false
unfolding text_lt
text_lt-asym [] [] e = cc
text_lt-asym [] (y ∷ ys) e = refl
text_lt-asym (x ∷ xs) [] e = cc
text_lt-asym (x ∷ xs) (y ∷ ys) e = ground (arith, text_lt-asym xs ys)

-- A file that is not below the first one may stand in front of it, wherever it goes.
insert_sorted-Ascending :
    (m : FileMetadata) (ms : List FileMetadata)
    → Ascending ms
    → Ascending (insert_sorted m ms)
      × ((n : FileMetadata)
          → text_lt m.file_name n.file_name ≡ false
          → Ascending (n ∷ ms)
          → Ascending (n ∷ insert_sorted m ms))
unfolding insert_sorted
insert_sorted-Ascending m [] sorted = (tt, λ n above _. (above, tt))
insert_sorted-Ascending m (k ∷ ks) sorted = elim (Bool-cases (text_lt k.file_name m.file_name)) [
  | inr front ↦ rw (front, insert_sorted) ((front, sorted), λ n above _. (above, (front, sorted)))
  | inl behind ↦
      let (_, put) = insert_sorted-Ascending m ks (tail_sorted k ks sorted) in
      let rest = put k (text_lt-asym k.file_name m.file_name behind) sorted in
      rw (behind, insert_sorted) (rest, λ n above both. (both.0, rest))
]
  where
    tail_sorted : (k : FileMetadata) (ks : List FileMetadata) → Ascending (k ∷ ks) → Ascending ks
    tail_sorted k [] s = tt
    tail_sorted k (l ∷ ls) s = s.1

sort_by_name-Ascending : (ms : List FileMetadata) → Ascending (sort_by_name ms)
unfolding sort_by_name
sort_by_name-Ascending [] = tt
sort_by_name-Ascending (m ∷ ms) =
    (insert_sorted-Ascending m (sort_by_name ms) (sort_by_name-Ascending ms)).0

insert_sorted-Perm :
    (m : FileMetadata) (ms : List FileMetadata) → Perm (insert_sorted m ms) (m ∷ ms)
unfolding insert_sorted
insert_sorted-Perm m [] = Perm.refl (m ∷ [])
insert_sorted-Perm m (k ∷ ks) = elim (Bool-cases (text_lt k.file_name m.file_name)) [
  | inr front ↦ rw (front, insert_sorted) (Perm.refl (m ∷ k ∷ ks))
  | inl behind ↦
      rw (behind, insert_sorted)
        (Perm.trans (Perm.cons k (insert_sorted-Perm m ks)) (Perm.swap m k ks))
]

sort_by_name-Perm : (ms : List FileMetadata) → Perm (sort_by_name ms) ms
unfolding sort_by_name
sort_by_name-Perm [] = Perm.refl []
sort_by_name-Perm (m ∷ ms) =
    Perm.trans (insert_sorted-Perm m (sort_by_name ms)) (Perm.cons m (sort_by_name-Perm ms))

-- The listing of a folder is in the order of the file names, and it holds the files that the two
-- walks find, each as often as they find it.
pub list_folder_all-sorted :
    (P : Primitives) (fs : Fs) (root : FilePath)
    → Ascending (list_folder_all P fs root)
      × Perm (list_folder_all P fs root) (walk_dir_plain P fs root ++ walk_dir_vault P fs root)
unfolding list_folder_all
list_folder_all-sorted P fs root = (
  sort_by_name-Ascending (walk_dir_plain P fs root ++ walk_dir_vault P fs root),
  sort_by_name-Perm (walk_dir_plain P fs root ++ walk_dir_vault P fs root),
)
