-- ===== src/Sync/Missing.antt =====
-- src/storage.rs: the chunks that a transfer misses, as positions.
use vitruvius.Base.{
  ℕ, zero, suc, ◌+◌, ◌≤◌, ◌<◌, ◌≡◌, ◌⊎◌, refl, inl, inr, Bool, true, false, List, [], ◌∷◌, All,
  arith, contains, ◌==◌, ==_refl, nat_eq, length, take, keep_if, range_from, Bool-cases, ap, subst,
  sym,
}

-- Every position is larger than those before it, and the first is at least `low`.
abbrev pub Ascending : ℕ → List ℕ → Type 0
Ascending low [] = Unit
Ascending low (i ∷ is) = (low ≤ i) × Ascending (suc i) is

pub Ascending-take : (k low : ℕ) (is : List ℕ) → Ascending low is → Ascending low (take k is)
Ascending-take zero low is up = tt
Ascending-take (suc k) low [] up = tt
Ascending-take (suc k) low (i ∷ is) (first, up) = (first, Ascending-take k (suc i) is up)

pub All-take {ℓ κ} :
    {A : Type ℓ} (P : A → Type κ) (k : ℕ) (xs : List A) → All P xs → All P (take k xs)
All-take P zero xs all = tt
All-take P (suc k) [] all = tt
All-take P (suc k) (x ∷ xs) (first, all) = (first, All-take P k xs all)

Ascending-weaken : (low high : ℕ) (is : List ℕ) → low ≤ high → Ascending high is → Ascending low is
Ascending-weaken low high [] le up = tt
Ascending-weaken low high (i ∷ is) le (first, up) = (omega arith, up)

pub take-length : (k : ℕ) (is : List ℕ) → (length (take k is) ≡ k) ⊎ (take k is ≡ is)
take-length zero is = inl refl
take-length (suc k) [] = inr refl
take-length (suc k) (i ∷ is) = elim (take-length k is) [
  | inl full ↦ inl (ap suc full)
  | inr whole ↦ inr (ap (λ l. i ∷ l) whole)
]

module _ (p : ℕ → Bool) where
  -- What is kept lies in the range and passes the test.
  abbrev pub KeptBelow : ℕ → ℕ → Type 0
  KeptBelow top i = (i < top) × (p i ≡ true)

  pub KeptBelow-keep_if :
      (n k top : ℕ) → k + n ≤ top → All (KeptBelow top) (keep_if p (range_from n k))
  unfolding keep_if
  KeptBelow-keep_if zero k top le = tt
  KeptBelow-keep_if (suc n) k top le =
      let rest = KeptBelow-keep_if n (suc k) top (omega arith) in
      elim (Bool-cases (p k)) [
        | inl kept ↦ rw (kept, keep_if) ((omega arith, kept), rest)
        | inr left ↦ rw (left, keep_if) rest
      ]

  pub Ascending-keep_if : (n k : ℕ) → Ascending k (keep_if p (range_from n k))
  unfolding keep_if
  Ascending-keep_if zero k = tt
  Ascending-keep_if (suc n) k =
      let rest = Ascending-keep_if n (suc k) in
      elim (Bool-cases (p k)) [
        | inl kept ↦ rw (kept, keep_if) (omega arith, rest)
        | inr left ↦
            rw (left, keep_if)
              (Ascending-weaken k (suc k) (keep_if p (range_from n (suc k))) (omega arith) rest)
      ]

  -- A position fails the test or is listed.
  abbrev pub Covered : List ℕ → ℕ → Type 0
  Covered is i = (p i ≡ false) ⊎ (contains is i ≡ true)

  Covered-cons : (i : ℕ) (is js : List ℕ) → All (Covered is) js → All (Covered (i ∷ is)) js
  unfolding contains
  Covered-cons i is [] all = tt
  Covered-cons i is (j ∷ js) (inl failed, all) = (inl failed, Covered-cons i is js all)
  Covered-cons i is (j ∷ js) (inr listed, all) = (
    inr (elim (Bool-cases (i == j)) [ inl same ↦ rw (same) refl | inr other ↦ rw (other) listed ]),
    Covered-cons i is js all,
  )

  keep_if-kept : (k : ℕ) (ks : List ℕ) → p k ≡ true → keep_if p (k ∷ ks) ≡ k ∷ keep_if p ks
  unfolding keep_if
  keep_if-kept k ks kept = rw (kept, keep_if) refl

  keep_if-left : (k : ℕ) (ks : List ℕ) → p k ≡ false → keep_if p (k ∷ ks) ≡ keep_if p ks
  unfolding keep_if
  keep_if-left k ks left = rw (left, keep_if) refl

  contains-head : (k : ℕ) (ks : List ℕ) → contains (k ∷ ks) k ≡ true
  unfolding contains
  contains-head k ks = rw (==_refl k) refl

  pub Covered-keep_if : (n k : ℕ) → All (Covered (keep_if p (range_from n k))) (range_from n k)
  Covered-keep_if zero k = tt
  Covered-keep_if (suc n) k =
      let ks = range_from n (suc k) in
      let rest = Covered-keep_if n (suc k) in
      elim (Bool-cases (p k)) [
        | inl kept ↦
            subst (λ l. All (Covered l) (k ∷ ks)) (sym (keep_if-kept k ks kept))
              (inr (contains-head k (keep_if p ks)), Covered-cons k (keep_if p ks) ks rest)
        | inr left ↦
            subst (λ l. All (Covered l) (k ∷ ks)) (sym (keep_if-left k ks left)) (inl left, rest)
      ]
