-- ===== src/Storage/ConflictName.antt =====
-- src/storage.rs: the name under which a conflicting file is kept, and the renaming to it.
use vitruvius.Base.{
  ℕ, suc, ◌+◌, ◌≤◌, ◌<◌, ◌≡◌, refl, ap, inl, inr, false, Option, none, some, [], ◌∷◌, ◌++◌, arith,
  is_empty, Bool-cases, Option-cases, length, length-append, ◌==◌, eq_of_==, nat_eq, list_eq, Bytes,
  Text, ok,
}
use vitruvius.Paths.{FilePath, dot, dotdot, push, set_file_name, stem_ext}
use vitruvius.Paths.Split.{rsplit_at}
use vitruvius.Fs.{
  Fs, Node, dir, file, node_at, resolve, is_directory, rename, move_to, put, take_away,
}
use vitruvius.Storage.Reassembly.{decimal, conflict_infix, conflict_of}

length-rsplit_at :
    (sep : ℕ) (s before after : Text)
    → rsplit_at sep s ≡ some (before, after)
    → length s ≡ length before + suc (length after)
unfolding rsplit_at
length-rsplit_at sep [] before after e = cc
length-rsplit_at sep (c ∷ s) before after e = elim (Option-cases (rsplit_at sep s)) [
  | inr ((b, a), later) ↦
      let at : some ((c ∷ b), a) ≡ some (before, after) = rw (later, rsplit_at) at e in
      let same_b : c ∷ b ≡ before = ap front at in
      let same_a : a ≡ after = ap back at in
      omega (arith, length-rsplit_at sep s b a later, ap length same_b, ap length same_a)
  | inl last ↦ elim (Bool-cases (c == sep)) [
    | inl here ↦
        let at : some ([], s) ≡ some (before, after) = rw (last, here, rsplit_at) at e in
        omega (arith, ap length (ap front at), ap length (ap back at))
    | inr not_here ↦ absurd (cc (rw (last, not_here, rsplit_at) at e))
  ]
]
  where
    front : Option (Text × Text) → Text
    front none = []
    front (some (x, y)) = x

    back : Option (Text × Text) → Text
    back none = []
    back (some (x, y)) = y

-- The new name is longer than the old one.
pub length-conflict_of :
    (secs : ℕ) (c : Text) → length c + 10 ≤ length (conflict_of secs (some (stem_ext c)))
unfolding stem_ext
length-conflict_of secs c =
    let plain : length c + 10 ≤ length (c ++ (conflict_infix ++ decimal secs)) = omega (
      arith,
      length-append c (conflict_infix ++ decimal secs),
      length-append conflict_infix (decimal secs),
    ) in
    elim (Option-cases (rsplit_at dot c)) [
      | inl e ↦ rw (e, stem_ext) plain
      | inr ((before, after), e) ↦ elim (Bool-cases (is_empty before)) [
        | inl e' ↦ rw (e, e', stem_ext) plain
        | inr e' ↦
            rw (e, e', stem_ext)
              (omega (
                arith,
                length-rsplit_at dot c before after e,
                length-append before (conflict_infix ++ (decimal secs ++ (dot ∷ after))),
                length-append conflict_infix (decimal secs ++ (dot ∷ after)),
                length-append (decimal secs) (dot ∷ after),
              ))
      ]
    ]

pub differs-length : (x y : Text) → length x < length y → (x == y) ≡ false
differs-length x y less = elim (Bool-cases (x == y)) [
  | inl same ↦ absurd (omega (arith, ap length (eq_of_== x y same)))
  | inr differ ↦ differ
]

pub differs-longer : (x y : Text) → length y < length x → (x == y) ≡ false
differs-longer x y less = elim (Bool-cases (x == y)) [
  | inl same ↦ absurd (omega (arith, ap length (eq_of_== x y same)))
  | inr differ ↦ differ
]

-- Where a name of a directory resolves.
pub resolve-child :
    (fs : Fs) (name : Text) (p d : FilePath)
    → resolve fs p ≡ some d
    → node_at fs d ≡ some dir
    → (name == dotdot) ≡ false
    → resolve fs (name ∷ p) ≡ some (name ∷ d)
unfolding resolve
resolve-child fs name p d there is_dir plain = rw (there, is_dir, plain, resolve)

-- A long name can be put in place of another.
pub set_file_name-long :
    (c name : Text) (p : FilePath)
    → (c == dotdot) ≡ false
    → 10 ≤ length name
    → set_file_name (c ∷ p) name ≡ name ∷ p
unfolding set_file_name push
set_file_name-long c [] p plain long = absurd (omega arith)
set_file_name-long c (x ∷ xs) p plain long =
    rw (plain, differs-longer (x ∷ xs) (dot ∷ []) (omega arith), set_file_name, push)

pub rename-within :
    (fs : Fs) (src dst s d : FilePath) (old : Bytes)
    → resolve fs src ≡ some s
    → resolve fs dst ≡ some d
    → node_at fs s ≡ some (file old)
    → is_directory (node_at fs d) ≡ false
    → rename src dst fs ≡ (ok tt, put d (file old) (take_away s fs))
unfolding rename
rename-within fs src dst s d old from to held free = rw (from, to, rename) (go (node_at fs d) refl)
  where
    go :
        (o : Option Node)
        → node_at fs d ≡ o
        → move_to s d (node_at fs s) (node_at fs d) fs ≡ (ok tt, put d (file old) (take_away s fs))
    go (some dir) e = absurd (cc (rw e at free))
    go (some (file b)) e = rw (held, e)
    go none e = rw (held, e)
