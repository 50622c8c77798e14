-- ===== src/Fs/Dirs.antt =====
-- Laws of `create_dir_all`: making directories that are there changes nothing.
use vitruvius.Base.{
  ◌≡◌, refl, ap, subst, ◌∙◌, inl, inr, true, Option, none, some, [], ◌∷◌, arith, Bool-cases,
  Option-cases, ◌==◌, eq_of_==, nat_eq, list_eq, list_beq_iff, Text, Result, ok, err,
}
use vitruvius.Paths.{FilePath}
use vitruvius.Fs.{Fs, Node, dir, file, node_at, resolve, is_directory, create_dir_all, put}
use vitruvius.Fs.Laws.{IsHandle, stat-resolve, node_at-put, node_at-put_self}

pub is_directory-eq : (o : Option Node) → is_directory o ≡ true → o ≡ some dir
is_directory-eq (some dir) e = refl
is_directory-eq (some (file b)) e = ground arith
is_directory-eq none e = ground arith

-- Where a name in a directory resolves, the directory is there.
pub parent-resolve :
    (fs : Fs) (c : Text) (p h : FilePath)
    → resolve fs (c ∷ p) ≡ some h
    → (d : FilePath) × (resolve fs p ≡ some d) × (node_at fs d ≡ some dir)
unfolding resolve
parent-resolve fs c p h e = elim (Option-cases (resolve fs p)) [
  | inl none_there ↦ absurd (cc (rw (none_there, resolve) at e))
  | inr (d, there) ↦ elim (Bool-cases (is_directory (node_at fs d))) [
    | inl found ↦ (d, there, is_directory-eq (node_at fs d) found)
    | inr other ↦ absurd (cc (rw (there, other, resolve) at e))
  ]
]

-- Making a directory that is there.
pub create_dir_all-there :
    (fs : Fs) (p d : FilePath)
    → resolve fs p ≡ some d
    → node_at fs d ≡ some dir
    → create_dir_all p fs ≡ (ok tt, fs)
unfolding create_dir_all
create_dir_all-there fs [] d e n = refl
create_dir_all-there fs (c ∷ p) d e n =
    let (above, there, is_dir) = parent-resolve fs c p d e in
    rw (create_dir_all-there fs p above there is_dir) (rw (e, stat-resolve (c ∷ p) d fs e ∙ n))

-- A new directory changes no path that resolves.
module _ (h : FilePath) (fs : Fs) (nonroot : IsHandle h) (absent : node_at fs h ≡ none) where
  made : Fs
  made = put h dir fs

  node_at-made : (d : FilePath) (n : Node) → node_at fs d ≡ some n → node_at made d ≡ some n
  unfolding made
  node_at-made d n e = elim (Bool-cases (h == d)) [
    | inl same ↦ absurd (cc (subst (λ x. node_at fs x ≡ none) (eq_of_== h d same) absent))
    | inr differ ↦ rw (node_at-put h d dir fs nonroot, differ) e
  ]

  pub resolve-made : (p d : FilePath) → resolve fs p ≡ some d → resolve (put h dir fs) p ≡ some d
  unfolding resolve made
  resolve-made [] d e = e
  resolve-made (c ∷ p) d e =
      let (above, there, is_dir) = parent-resolve fs c p d e in
      rw (resolve-made p above there, node_at-made above dir is_dir)
        (rw (there, is_dir, resolve) at e)

-- The directory of a path that names nothing yet resolves beside it.
make_dir-again :
    (fs : Fs) (c : Text) (p : FilePath)
    → create_dir_all p fs ≡ (ok tt, fs)
    → create_dir_all (c ∷ p) (create_dir_all (c ∷ p) fs).1 ≡ create_dir_all (c ∷ p) fs
unfolding create_dir_all node_at
make_dir-again fs c p before = elim (Option-cases (resolve fs (c ∷ p))) [
  | inl e ↦ rw (before, e, create_dir_all) (rw (before, e, create_dir_all))
  | inr (h, e) ↦ go h e (node_at fs h) refl
]
  where
    go :
        (h : FilePath)
        → resolve fs (c ∷ p) ≡ some h
        → (o : Option Node) → node_at fs h ≡ o
        → create_dir_all (c ∷ p) (create_dir_all (c ∷ p) fs).1 ≡ create_dir_all (c ∷ p) fs
    go h e (some dir) n = let same = create_dir_all-there fs (c ∷ p) h e n in rw same same
    go h e (some (file b)) n =
        let s = stat-resolve (c ∷ p) h fs e ∙ n in
        rw (before, e, s, create_dir_all) (rw (before, e, s, create_dir_all))
    go [] e none n = cc
    go (x ∷ h) e none n =
        let s = stat-resolve (c ∷ p) (x ∷ h) fs e ∙ n in
        let nonroot : IsHandle (x ∷ h) = λ q. absurd (ground (arith, list_beq_iff (x ∷ h) [])) in
        let same : create_dir_all (c ∷ p) fs ≡ (ok tt, put (x ∷ h) dir fs) =
          rw (before, e, s, create_dir_all) in
        rw same (
          create_dir_all-there (put (x ∷ h) dir fs) (c ∷ p) (x ∷ h)
            (resolve-made (x ∷ h) fs nonroot n (c ∷ p) (x ∷ h) e)
            (node_at-put_self (x ∷ h) dir fs nonroot))

-- Making directories once more changes nothing, whether or not it succeeds.
pub create_dir_all-again :
    (p : FilePath) (fs : Fs) → create_dir_all p (create_dir_all p fs).1 ≡ create_dir_all p fs
unfolding create_dir_all
create_dir_all-again [] fs = refl
create_dir_all-again (c ∷ p) fs = go (create_dir_all-again p fs) (create_dir_all p fs).0 refl
  where
    fs1 : Fs
    fs1 = (create_dir_all p fs).1

    go :
        create_dir_all p fs1 ≡ create_dir_all p fs
        → (r : Result (Unit {0})) → (create_dir_all p fs).0 ≡ r
        → create_dir_all (c ∷ p) (create_dir_all (c ∷ p) fs).1 ≡ create_dir_all (c ∷ p) fs
    go ih (err x) e =
        let first : create_dir_all (c ∷ p) fs ≡ (err x, fs1) = rw (e, create_dir_all) in
        let again : create_dir_all (c ∷ p) fs1 ≡ (err x, fs1) = rw (ih, e, create_dir_all) in
        rw first again
    go ih (ok tt) e =
        let below : create_dir_all p fs1 ≡ (ok tt, fs1) =
          ih ∙ ap (λ (r : Result (Unit {0})). (r, fs1)) e in
        let first : create_dir_all (c ∷ p) fs ≡ create_dir_all (c ∷ p) fs1 =
          rw (e, below, create_dir_all) in
        rw first (make_dir-again fs1 c p below)
