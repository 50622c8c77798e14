-- ===== src/Fs/Renaming.antt =====
-- Laws of `rename` and `remove_file`.
use vitruvius.Base.{
  ◌≡◌, refl, sym, ap, ◌∙◌, subst, inl, inr, Bool-cases, Option-cases, Option, none, some, [], ◌∷◌,
  Bytes, false, lookup-remove, nat_eq, list_eq, ◌==◌, eq_of_==, list_beq_iff, arith, Result, ok,
  if◌then◌else◌,
}
use vitruvius.Paths.{FilePath}
use vitruvius.Fs.{
  Fs, Node, dir, file, node_at, resolve, read_file, rename, move_to, put, take_away, is_directory,
}
use vitruvius.Fs.Laws.{IsHandle, nonroot_of, read_file-put}

pub node_at-take_away :
    (h p : FilePath) (fs : Fs)
    → IsHandle h
    → node_at (take_away h fs) p ≡ (if h == p then none else node_at fs p)
unfolding node_at
node_at-take_away h [] fs nonroot = ground (arith, list_beq_iff h [])
node_at-take_away h (c ∷ p) fs nonroot = lookup-remove (c ∷ p) h fs.entries

pub is_directory-take_away :
    (h d : FilePath) (fs : Fs)
    → IsHandle h
    → is_directory (node_at fs h) ≡ false
    → is_directory (node_at (take_away h fs) d) ≡ is_directory (node_at fs d)
is_directory-take_away h d fs nonroot nodir = elim (Bool-cases (h == d)) [
  | inl same ↦
      rw (node_at-take_away h d fs nonroot, same)
        (sym (subst (λ x. is_directory (node_at fs x) ≡ false) (eq_of_== h d same) nodir))
  | inr differ ↦ rw (node_at-take_away h d fs nonroot, differ)
]

pub resolve-take_away :
    (h p : FilePath) (fs : Fs)
    → IsHandle h
    → is_directory (node_at fs h) ≡ false
    → resolve (take_away h fs) p ≡ resolve fs p
unfolding resolve
resolve-take_away h [] fs nonroot nodir = refl
resolve-take_away h (c ∷ p) fs nonroot nodir =
    rw (resolve-take_away h p fs nonroot nodir) (elim (Option-cases (resolve fs p)) [
      | inl e ↦ rw (e, resolve)
      | inr (d, e) ↦ rw (e, resolve) (rw (is_directory-take_away h d fs nonroot nodir))
    ])

-- A file that was moved is found at its new path.
read_file-moved :
    (dst s d : FilePath) (b : Bytes) (fs : Fs)
    → resolve fs dst ≡ some d
    → is_directory (node_at fs s) ≡ false
    → is_directory (node_at fs d) ≡ false
    → read_file (put d (file b) (take_away s fs)) dst ≡ ok b
read_file-moved dst s d b fs r s_file d_free =
    let s_nonroot = nonroot_of s fs s_file in
    read_file-put d dst b (take_away s fs) (nonroot_of d fs d_free)
      (is_directory-take_away s d fs s_nonroot s_file ∙ d_free)
      (resolve-take_away s dst fs s_nonroot s_file ∙ r)

read_file-move_to :
    (dst s d : FilePath) (n m : Option Node) (fs after : Fs)
    → resolve fs dst ≡ some d
    → node_at fs s ≡ n
    → node_at fs d ≡ m
    → move_to s d n m fs ≡ (ok tt, after)
    → (b : Bytes) × (n ≡ some (file b)) × (read_file after dst ≡ ok b)
read_file-move_to dst s d none m fs after r at_s at_d e = cc
read_file-move_to dst s d (some dir) m fs after r at_s at_d e = cc
read_file-move_to dst s d (some (file b)) (some dir) fs after r at_s at_d e = cc
read_file-move_to dst s d (some (file b)) none fs after r at_s at_d e =
    let moved = read_file-moved dst s d b fs r (rw at_s) (rw at_d) in
    (b, refl, rw (← ap (λ (x : Result (Unit {0}) × Fs). x.1) e) moved)
read_file-move_to dst s d (some (file b)) (some (file c)) fs after r at_s at_d e =
    let moved = read_file-moved dst s d b fs r (rw at_s) (rw at_d) in
    (b, refl, rw (← ap (λ (x : Result (Unit {0}) × Fs). x.1) e) moved)

-- A rename that succeeds has moved the contents of the source.
pub rename-ok :
    (src dst : FilePath) (fs after : Fs)
    → rename src dst fs ≡ (ok tt, after)
    → (s : FilePath) × (b : Bytes) × (resolve fs src ≡ some s)
      × (node_at fs s ≡ some (file b))
      × (read_file after dst ≡ ok b)
unfolding rename
rename-ok src dst fs after e = elim (Option-cases (resolve fs src)) [
  | inl gone ↦ absurd (cc (rw (gone, rename) at e))
  | inr (s, from) ↦ elim (Option-cases (resolve fs dst)) [
    | inl gone ↦ absurd (cc (rw (from, gone, rename) at e))
    | inr (d, to) ↦
        let (b, held, found) =
          read_file-move_to dst s d (node_at fs s) (node_at fs d) fs after to refl refl
            (rw (from, to, rename) at e) in
        (s, b, from, held, found)
  ]
]
