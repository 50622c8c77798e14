-- ===== src/Crypto/Aead.antt =====
-- src/crypto.rs: what `encrypt_with_aad` makes and `decrypt_with_aad` accepts.
use vitruvius.Base.{
  ℕ, ◌+◌, ◌≡◌, refl, ap, sym, ◌∙◌, Bytes, some, none, ◌++◌, length, take, drop, take-append,
  drop-append, take-append-drop, length-append, length-take, Option-cases, Bool-cases, ltb, inl,
  inr, arith, ok,
}
use vitruvius.Crypto.{Primitives, IsAead, Draw, encrypt_with_aad, decrypt_with_aad}

-- A draw that succeeds fills the buffer.
abbrev pub Fills : ℕ → Draw → Type 0
Fills n rng = (bytes : Bytes) → rng ≡ some bytes → length bytes ≡ n

-- What an encrypted message is made of.
pub record Sealed (P : Primitives) (key aad plaintext input : Bytes) : Type 0 where
  pub nonce : Bytes
  pub ciphertext : Bytes
  pub layout : input ≡ nonce ++ ciphertext
  pub nonce_len : length nonce ≡ 12
  pub sealed : P.seal key nonce aad plaintext ≡ some ciphertext

module _ (P : Primitives) (sound : IsAead P) (key aad plaintext input : Bytes) where
  -- What `encrypt_with_aad` returns is such a message.
  pub encrypt_with_aad-Sealed :
      (rng : Draw)
      → Fills 12 rng
      → encrypt_with_aad P rng key plaintext aad ≡ ok input
      → Sealed P key aad plaintext input
  unfolding encrypt_with_aad
  encrypt_with_aad-Sealed none fills e = cc
  encrypt_with_aad-Sealed (some nonce) fills e =
      elim (Option-cases (P.seal key nonce aad plaintext)) [
        | inl fails ↦ absurd (cc (rw fails at e))
        | inr (c, made) ↦ record {
          nonce = nonce;
          ciphertext = c;
          layout = ground (arith, rw made at e);
          nonce_len = fills nonce refl;
          sealed = made;
        }
      ]

  -- Such a message is opened.
  pub decrypt_with_aad-Sealed :
      Sealed P key aad plaintext input → decrypt_with_aad P key input aad ≡ ok plaintext
  unfolding decrypt_with_aad
  decrypt_with_aad-Sealed s =
      let nonce_part : take 12 input ≡ s.nonce =
        rw s.layout (take-append 12 s.nonce s.ciphertext s.nonce_len) in
      let rest : drop 12 input ≡ s.ciphertext =
        rw s.layout (drop-append 12 s.nonce s.ciphertext s.nonce_len) in
      let opens : P.unseal key (take 12 input) aad (drop 12 input) ≡ some plaintext =
        rw (nonce_part, rest) (sound.unseal-seal key s.nonce aad plaintext s.ciphertext s.sealed) in
      let long : length input ≡ 12 + (length plaintext + 16) = omega (
        arith,
        ap length s.layout,
        length-append s.nonce s.ciphertext,
        s.nonce_len,
        sound.length-seal key s.nonce aad plaintext s.ciphertext s.sealed,
      ) in
      ground (arith, opens, long)

  -- For a sound AEAD, whatever `decrypt_with_aad` accepts is a nonce of 12 bytes, followed by what
  -- the cipher makes, under the same key, nonce and associated data, of the plaintext that it
  -- returns.
  pub Sealed-decrypt_with_aad :
      decrypt_with_aad P key input aad ≡ ok plaintext → Sealed P key aad plaintext input
  unfolding decrypt_with_aad
  Sealed-decrypt_with_aad e = elim (Bool-cases (ltb (length input) 28)) [
    | inl short ↦ absurd (cc (rw (short, decrypt_with_aad) at e))
    | inr long ↦ elim (Option-cases (P.unseal key (take 12 input) aad (drop 12 input))) [
      | inl fails ↦ absurd (cc (rw (long, fails) at e))
      | inr (m, opens) ↦
          let same : m ≡ plaintext = ground arith in
          record {
            nonce = take 12 input;
            ciphertext = drop 12 input;
            layout = sym (take-append-drop 12 input);
            nonce_len = ground (arith, length-take 12 input, long);
            sealed =
                sound.seal-unseal key (take 12 input) aad (drop 12 input) plaintext
                  (opens ∙ ap some same);
          }
    ]
  ]
