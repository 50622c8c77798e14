-- ===== src/Storage/Walking.antt =====
-- src/storage.rs: the walk of a folder ends, however deep the folder is.
use vitruvius.Base.{
  ℕ, zero, suc, ◌+◌, ◌≤◌, ◌<◌, ◌≡◌, refl, sym, ap, ◌∙◌, inl, inr, Bool, true, false, ◌||◌, none,
  some, List, [], ◌∷◌, map, arith, if◌then◌else◌, is_empty, Bool-cases, Option-cases, length, All,
  ◌==◌, ==_refl, eq_of_==, nat_eq, list_eq, Dict, lookup, Text,
}
use vitruvius.Paths.{FilePath, dotdot, dot, push}
use vitruvius.Fs.{Fs, Node, dir, node_at, resolve, is_directory}
use vitruvius.Fs.Laws.{stat-resolve}
use vitruvius.Storage.{FileMetadata}
use vitruvius.Storage.Listing.{names_in, read_dir, is_dir, walk_entries, walk_dir, walk_fuel}
use vitruvius.Fs.Dirs.{is_directory-eq}

-- A name that a directory's entry has: not empty, `.` or `..`.
abbrev pub IsName : Text → Type 0
IsName c = ((is_empty c || c == (dot ∷ [])) ≡ false) × ((c == dotdot) ≡ false)

abbrev IsEntry : FilePath → Type 0
IsEntry [] = Unit {0}
IsEntry (c ∷ p) = IsName c

-- Every entry of the file system has such a name.
abbrev pub Named : Dict FilePath Node → Type 0
Named es = All (λ (e : FilePath × Node). IsEntry e.0) es

-- The path is strictly below the directory.
strictly_below : FilePath → FilePath → Bool
strictly_below h [] = false
strictly_below h (c ∷ p) = let rest = strictly_below h p in p == h || rest

-- The entries that are.
count_below : FilePath → Dict FilePath Node → ℕ
count_below h [] = 0
count_below h ((p, n) ∷ es) =
    let rest = count_below h es in if strictly_below h p then suc rest else rest

strictly_below-cons :
    (c : Text) (h p : FilePath) → strictly_below (c ∷ h) p ≡ true → strictly_below h p ≡ true
unfolding strictly_below
strictly_below-cons c h [] e = e
strictly_below-cons c h (x ∷ p) e = elim (Bool-cases (p == c ∷ h)) [
  | inl same ↦
      let parent : strictly_below h p ≡ true =
        ap (strictly_below h) (eq_of_== p (c ∷ h) same) ∙ here in
      rw (parent, strictly_below) (or_true (p == h))
  | inr differ ↦
      let parent = strictly_below-cons c h p (rw (differ, strictly_below) at e) in
      rw (parent, strictly_below) (or_true (p == h))
]
  where
    or_true : (b : Bool) → (b || true) ≡ true
    or_true b = ground arith

    here : strictly_below h (c ∷ h) ≡ true
    here = ground (arith, ==_refl h)

strictly_below-length : (h p : FilePath) → strictly_below h p ≡ true → length h < length p
unfolding strictly_below
strictly_below-length h [] e = ground arith
strictly_below-length h (c ∷ p) e = elim (Bool-cases (p == h)) [
  | inl same ↦ omega (arith, ap length (eq_of_== p h same))
  | inr differ ↦ omega (arith, strictly_below-length h p (rw (differ, strictly_below) at e))
]

not_below_self : (h : FilePath) → strictly_below h h ≡ false
not_below_self h = elim (Bool-cases (strictly_below h h)) [
  | inl e ↦ absurd (omega (arith, strictly_below-length h h e))
  | inr e ↦ e
]

below_child : (c : Text) (h : FilePath) → strictly_below h (c ∷ h) ≡ true
unfolding strictly_below
below_child c h = ground (arith, ==_refl h)

count_below-le :
    (c : Text) (h : FilePath) (es : Dict FilePath Node) → count_below (c ∷ h) es ≤ count_below h es
unfolding count_below
count_below-le c h [] = omega arith
count_below-le c h ((p, n) ∷ es) = ground (arith, count_below-le c h es, strictly_below-cons c h p)

-- Fewer entries are below a subdirectory than below the directory.
count_below-lt :
    (c : Text) (h : FilePath) (es : Dict FilePath Node) (n : Node)
    → lookup (c ∷ h) es ≡ some n
    → count_below (c ∷ h) es < count_below h es
unfolding count_below lookup
count_below-lt c h [] n e = cc
count_below-lt c h ((p, m) ∷ es) n e = elim (Bool-cases (p == c ∷ h)) [
  | inl same ↦
      let is = eq_of_== p (c ∷ h) same in
      let inside : strictly_below h p ≡ true = ap (strictly_below h) is ∙ below_child c h in
      let not_inside : strictly_below (c ∷ h) p ≡ false =
        ap (strictly_below (c ∷ h)) is ∙ not_below_self (c ∷ h) in
      rw (inside, not_inside, count_below) (omega (arith, count_below-le c h es))
  | inr differ ↦
      ground (arith, count_below-lt c h es n (rw (differ, lookup) at e), strictly_below-cons c h p)
]

count_below-length : (h : FilePath) (es : Dict FilePath Node) → count_below h es ≤ length es
unfolding count_below
count_below-length h [] = omega arith
count_below-length h ((p, n) ∷ es) = ground (arith, count_below-length h es)

names_in-IsName : (d : FilePath) (es : Dict FilePath Node) → Named es → All IsName (names_in d es)
unfolding names_in
names_in-IsName d [] named = tt
names_in-IsName d (([], n) ∷ es) (first, rest) = names_in-IsName d es rest
names_in-IsName d ((c ∷ p, n) ∷ es) (first, rest) = elim (Bool-cases (p == d)) [
  | inl same ↦ rw (same, names_in) (first, names_in-IsName d es rest)
  | inr differ ↦ rw (differ, names_in) (names_in-IsName d es rest)
]

module _ (fs : Fs) (visit : FilePath → List FileMetadata) where
  module _ (d h : FilePath) (at_h : resolve fs d ≡ some h)
      (is_h : is_directory (node_at fs h) ≡ true) where
    -- A subdirectory resolves below the directory.
    child_dir :
        (c : Text)
        → IsName c
        → is_dir fs (push d c) ≡ true
        → (resolve fs (push d c) ≡ some (c ∷ h))
          × (count_below (c ∷ h) fs.entries < count_below h fs.entries)
    unfolding push resolve is_dir node_at
    child_dir c (plain, no_dots) there =
        let pushed : push d c ≡ c ∷ d = rw (plain, push) in
        let resolved : resolve fs (c ∷ d) ≡ some (c ∷ h) = rw (at_h, is_h, no_dots, resolve) in
        let found : is_directory (node_at fs (c ∷ h)) ≡ true =
          ap is_directory (sym (stat-resolve (c ∷ d) (c ∷ h) fs resolved))
          ∙ (ap (is_dir fs) (sym pushed) ∙ there) in
        (
          ap (resolve fs) pushed ∙ resolved,
          count_below-lt c h fs.entries dir (is_directory-eq (node_at fs (c ∷ h)) found),
        )

    walk_entries-agree :
        (walk other : FilePath → List FileMetadata) (cs : List Text)
        → All IsName cs
        → ((c : Text) → IsName c → is_dir fs (push d c) ≡ true → walk (push d c) ≡ other (push d c))
        → walk_entries fs visit walk (map (λ c. push d c) cs)
          ≡ walk_entries fs visit other (map (λ c. push d c) cs)
    unfolding walk_entries
    walk_entries-agree walk other [] named agree = refl
    walk_entries-agree walk other (c ∷ cs) (name, names) agree =
        let rest = walk_entries-agree walk other cs names agree in
        elim (Bool-cases (is_dir fs (push d c))) [
          | inl there ↦ rw (there, walk_entries) (rw (agree c name there, rest))
          | inr none_there ↦ rw (none_there, walk_entries) (rw rest)
        ]

  -- Two amounts of fuel that both exceed what is below give the same walk.
  walk_dir-agree :
      (a b : ℕ) (d h : FilePath)
      → Named fs.entries
      → resolve fs d ≡ some h
      → count_below h fs.entries < a
      → count_below h fs.entries < b
      → walk_dir fs visit a d ≡ walk_dir fs visit b d
  unfolding walk_dir read_dir
  walk_dir-agree zero b d h named at_h few_a few_b = absurd (omega arith)
  walk_dir-agree (suc a) zero d h named at_h few_a few_b = absurd (omega arith)
  walk_dir-agree (suc a) (suc b) d h named at_h few_a few_b =
      elim (Bool-cases (is_directory (node_at fs h))) [
        | inr no_dir ↦ rw (at_h, no_dir, read_dir, walk_dir)
        | inl is_h ↦
            rw (at_h, is_h, read_dir, walk_dir)
              (walk_entries-agree d h at_h is_h (walk_dir fs visit a) (walk_dir fs visit b)
                (names_in h fs.entries) (names_in-IsName h fs.entries named)
                (λ c name there.
                  let (at_child, fewer) = child_dir d h at_h is_h c name there in
                  walk_dir-agree a b (push d c) (c ∷ h) named at_child (omega arith) (omega arith)))
      ]

  walk_dir-missing : (a : ℕ) (d : FilePath) → resolve fs d ≡ none → walk_dir fs visit a d ≡ []
  unfolding walk_dir read_dir
  walk_dir-missing zero d missing = refl
  walk_dir-missing (suc a) d missing = rw (missing, read_dir, walk_dir)

  -- If no entry of the file system is called `.` or `..` or has an empty name: the walk with the
  -- depth that the listings allow returns what it returns with any greater depth, so it is never
  -- cut short.
  pub walk_dir-enough :
      (root : FilePath) (more : ℕ)
      → Named fs.entries
      → walk_dir fs visit (walk_fuel fs + more) root ≡ walk_dir fs visit (walk_fuel fs) root
  walk_dir-enough root more named = elim (Option-cases (resolve fs root)) [
    | inl missing ↦
        walk_dir-missing (walk_fuel fs + more) root missing
        ∙ sym (walk_dir-missing (walk_fuel fs) root missing)
    | inr (h, there) ↦
        let few = count_below-length h fs.entries in
        walk_dir-agree (walk_fuel fs + more) (walk_fuel fs) root h named there (omega arith)
          (omega arith)
  ]
