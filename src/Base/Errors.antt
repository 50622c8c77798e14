-- ===== src/Base/Errors.antt =====
-- `anyhow::Result`. An error is the place that raised it; its text is not modelled.
use Prim.Native.Nat.{ℕ}
use mathlib.Core.Path.{◌≡◌, refl}
use mathlib.Core.Logic.{◌⊎◌, inl, inr}
use mathlib.Core.Option.{Option, none, some}
use mathlib.Core.Bool.{Bool, true, false}

pub data Error : Type 0 where
  io_not_found io_not_a_file io_unexpected_eof io_not_a_directory : Error
  rng_failed encryption_failed decryption_failed : Error
  data_too_short : ℕ → Error
  bad_magic : Error
  chunk_out_of_range : ℕ → ℕ → Error
  chunk_not_found : ℕ → Error
  unsafe_path too_many_chunks chunk_too_big : Error
  bad_vault_filename not_a_vit_file outside_root : Error
  no_vault_key : Error
  -- an `unwrap` of `None`: the thread panics
  panicked : Error
  chunk_past_end : ℕ → Error
  manifest_cbor manifest_parse : Error
  no_metadata : Error
  missing_chunk : ℕ → Error
  missing_mapping no_sync_folder unexpected_request : Error
  bad_key_length : ℕ → Error
  keypair_encoding json_encoding : Error

pub data Result {ℓ} (T : Type ℓ) : Type ℓ where
  err : Error → Result T
  ok : T → Result T

-- `ok_or_else`
abbrev pub or_fail {ℓ} : {T : Type ℓ} → Option T → Error → Result T
or_fail none otherwise = err otherwise
or_fail (some value) otherwise = ok value

-- The operator `?`: what follows runs on the value, and an error returns at once.
module _ {ℓ κ} {T : Type ℓ} {U : Type κ} where
  infixl 5 ◌>>=◌
  abbrev pub ◌>>=◌ : Result T → (T → Result U) → Result U
  err failure >>= next = err failure
  ok value >>= next = next value

-- A run that succeeds has succeeded in its first step, and then in the rest.
module _ {ℓ κ} {T : Type ℓ} {U : Type κ} where
  pub >>=-eq-ok :
      (first : Result T) (next : T → Result U) {result : U}
      → (first >>= next) ≡ ok result
      → (value : T) × (first ≡ ok value) × (next value ≡ ok result)
  >>=-eq-ok (err failure) next succeeds = cc
  >>=-eq-ok (ok value) next succeeds = (value, refl, succeeds)

-- An early `return Err(e)` when the test fails.
abbrev pub guard : Bool → Error → Result (Unit {0})
guard false failure = err failure
guard true failure = ok tt

module _ {ℓ} {T : Type ℓ} where
  infixl 5 ◌>>◌
  abbrev pub ◌>>◌ : Result (Unit {0}) → Result T → Result T
  first >> second = first >>= λ _. second

  pub Result-cases : (r : Result T) → ((value : T) × (r ≡ ok value)) ⊎ ((e : Error) × (r ≡ err e))
  Result-cases (err e) = inr (e, refl)
  Result-cases (ok value) = inl (value, refl)
