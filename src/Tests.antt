-- ===== src/Tests.antt =====
-- Concrete libraries, and the runs that show that the theorems apply.
mod AtRest
mod InTransit
mod Handlers
mod Announced
mod Running
mod Starting
mod OnDisk
use vitruvius.Base.{
  ℕ, ◌+◌, ◌-◌, ◌≡◌, refl, ap, sym, ◌∙◌, Bool, true, false, Option, some, none, List, [], ◌∷◌, ◌++◌,
  Bytes, Text, length, take, drop, replicate, sum, ltb, nat_eq, list_eq, ◌==◌, ==_refl, eq_of_==,
  if◌then◌else◌, take-append, drop-append, length-append, length-take, take-append-drop,
  length-replicate, arith, Bool-cases, inl, inr,
}
use vitruvius.Crypto.{Primitives, IsAead, Draw}
use vitruvius.Crypto.Aead.{Fills}

-- A cipher that appends a tag and checks it.
abbrev pub tag : Bytes
tag = replicate 16 7

abbrev toy_seal : Bytes → Bytes → Bytes → Bytes → Option Bytes
toy_seal key nonce aad msg = some (msg ++ tag)

unfoldable pub toy_unseal : Bytes → Bytes → Bytes → Bytes → Option Bytes
toy_unseal key nonce aad c =
    let k = length c - 16 in if drop k c == tag then some (take k c) else none

-- 32 bytes that begin with the text
abbrev pub pad : Bytes → Bytes
pad b = take 32 (b ++ replicate 32 0)

abbrev pub toy : Primitives
toy = record {
  hash = pad;
  derive_key = λ context b. pad b;
  seal = toy_seal;
  unseal = toy_unseal;
  public_key = λ secret. secret;
  diffie_hellman = λ secret public. (sum secret + sum public) ∷ [];
}

-- The same with a hash that tells all texts apart.
abbrev pub toy_distinct : Primitives
toy_distinct = record toy { hash = λ b. b }

pub length-pad : (b : Bytes) → length (pad b) ≡ 32
length-pad b = omega (
  arith,
  length-take 32 (b ++ replicate 32 0),
  length-append b (replicate 32 0),
  length-replicate {A = ℕ} 32 0,
)

toy-unseal_seal :
    (key nonce aad msg c : Bytes)
    → toy_seal key nonce aad msg ≡ some c
    → toy_unseal key nonce aad c ≡ some msg
unfolding toy_unseal
toy-unseal_seal key nonce aad msg c e =
    let k : length (msg ++ tag) - 16 ≡ length msg = omega (arith, length-append msg tag) in
    let same : c ≡ msg ++ tag = cc in
    let end : drop (length (msg ++ tag) - 16) (msg ++ tag) ≡ tag =
      rw k (drop-append (length msg) msg tag refl) in
    let front : take (length (msg ++ tag) - 16) (msg ++ tag) ≡ msg =
      rw k (take-append (length msg) msg tag refl) in
    rw (same, end, front, ==_refl tag)

toy-seal_unseal :
    (key nonce aad c msg : Bytes)
    → toy_unseal key nonce aad c ≡ some msg
    → toy_seal key nonce aad msg ≡ some c
unfolding toy_unseal
toy-seal_unseal key nonce aad c msg e = elim (Bool-cases (drop (length c - 16) c == tag)) [
  | inr bad ↦ absurd (cc (rw (bad, toy_unseal) at e))
  | inl good ↦
      let end = eq_of_== (drop (length c - 16) c) tag good in
      let front : take (length c - 16) c ≡ msg = cc (rw (good, toy_unseal) at e) in
      ap some (rw (← front, ← end) (take-append-drop (length c - 16) c))
]

toy-length_seal :
    (key nonce aad msg c : Bytes) → toy_seal key nonce aad msg ≡ some c → length c ≡ length msg + 16
toy-length_seal key nonce aad msg c e =
    let same : c ≡ msg ++ tag = cc in rw (same, length-append msg tag) refl

pub toy-IsAead : IsAead toy
toy-IsAead = record {
  unseal-seal = toy-unseal_seal;
  seal-unseal = toy-seal_unseal;
  length-seal = toy-length_seal;
}

abbrev pub nonce : Draw
nonce = some (replicate 12 5)

abbrev pub uuid : Draw
uuid = some (replicate 16 3)

pub nonce-Fills : Fills 12 nonce
nonce-Fills bytes e = ap length_of (sym e)
  where
    length_of : Draw → ℕ
    length_of none = 0
    length_of (some b) = length b

pub uuid-Fills : Fills 16 uuid
uuid-Fills bytes e = ap length_of (sym e)
  where
    length_of : Draw → ℕ
    length_of none = 0
    length_of (some b) = length b

abbrev pub key : Bytes
key = replicate 32 9
