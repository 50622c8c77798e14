-- ===== src/Main/Ports.antt =====
-- src/main.rs: a number in decimal digits is read back.
use vitruvius.Base.{
  ℕ, zero, suc, ◌+◌, ◌/◌, ◌%◌, ◌^◌, ◌<◌, ◌≡◌, refl, sym, ap, ◌∙◌, inl, inr, true, ◌&&◌, none, some,
  [], ◌∷◌, arith, ltb, leb, ltb→lt, lt→ltb, Bool-cases, ◌==◌, eq_of_==, nat_eq, list_eq, Text,
}
use vitruvius.Storage.Reassembly.{decimal, decimal_loop}
use vitruvius.Main.Args.{digits_value, parse_u16}

-- The digits of a number with at most `fuel` of them, in front of `acc`.
digits_value-decimal_loop :
    (fuel n : ℕ) (acc : Text)
    → n < 10 ^ fuel
    → digits_value 0 (decimal_loop fuel n acc) ≡ digits_value n acc
unfolding decimal_loop digits_value
digits_value-decimal_loop zero n acc small = ap (λ m. digits_value m acc) (omega arith)
digits_value-decimal_loop (suc fuel) n acc small =
    let is_digit : (leb 48 (48 + n % 10) && ltb (48 + n % 10) 58) ≡ true = ground arith in
    elim (Bool-cases (ltb n 10)) [
      | inl last ↦
          rw (last, decimal_loop)
            (rw (is_digit, digits_value)
              (ap (λ m. digits_value m acc) (omega (arith, ltb→lt n 10 last))))
      | inr more ↦
          rw (more, decimal_loop)
            (digits_value-decimal_loop fuel (n / 10) ((48 + n % 10) ∷ acc) (omega arith)
              ∙ rw (is_digit, digits_value) (ap (λ m. digits_value m acc) (omega arith)))
    ]

decimal_loop-nonempty :
    (fuel n c : ℕ) (acc : Text) → (d : ℕ) × (s : Text) × (decimal_loop fuel n (c ∷ acc) ≡ d ∷ s)
unfolding decimal_loop
decimal_loop-nonempty zero n c acc = (c, acc, refl)
decimal_loop-nonempty (suc fuel) n c acc = elim (Bool-cases (ltb n 10)) [
  | inl last ↦ (48 + n % 10, c ∷ acc, rw (last, decimal_loop))
  | inr more ↦
      let (d, s, e) = decimal_loop-nonempty fuel (n / 10) (48 + n % 10) (c ∷ acc) in
      (d, s, rw (more, decimal_loop) e)
]

digits_value-nil : (n : ℕ) → digits_value n [] ≡ some n
unfolding digits_value
digits_value-nil n = refl

-- A plus sign is not a digit.
digits_value-plus : (s : Text) → digits_value 0 (43 ∷ s) ≡ none
unfolding digits_value
digits_value-plus s = refl

parse_u16-digits :
    (d : ℕ) (r : Text) (n : ℕ)
    → digits_value 0 (d ∷ r) ≡ some n
    → n < 2 ^ 16
    → parse_u16 (d ∷ r) ≡ some n
unfolding parse_u16
parse_u16-digits d r n value small = elim (Bool-cases (d == 43)) [
  | inl plus ↦ absurd (
      cc (ap (λ c. digits_value 0 (c ∷ r)) (sym (eq_of_== d 43 plus)) ∙ value, digits_value-plus r))
  | inr digit ↦ rw (digit, parse_u16) (rw (value) (rw (lt→ltb n (2 ^ 16) small)))
]

pub parse_u16-decimal : (n : ℕ) → n < 2 ^ 16 → parse_u16 (decimal n) ≡ some n
unfolding decimal decimal_loop
parse_u16-decimal n small =
    let (d, r, e) = nonempty 19 n in
    let value : digits_value 0 (d ∷ r) ≡ some n =
      ap (digits_value 0) (sym e)
      ∙ (digits_value-decimal_loop 20 n [] (omega arith) ∙ digits_value-nil n) in
    ap parse_u16 e ∙ parse_u16-digits d r n value small
  where
    nonempty : (fuel n : ℕ) → (d : ℕ) × (r : Text) × (decimal_loop (suc fuel) n [] ≡ d ∷ r)
    nonempty fuel n = elim (Bool-cases (ltb n 10)) [
      | inl last ↦ (48 + n % 10, [], rw (last, decimal_loop))
      | inr more ↦
          let (d, s, e) = decimal_loop-nonempty fuel (n / 10) (48 + n % 10) [] in
          (d, s, rw (more, decimal_loop) e)
    ]
