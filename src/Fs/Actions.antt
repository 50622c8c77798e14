-- ===== src/Fs/Actions.antt =====
-- Inversion of actions that succeed.
use vitruvius.Base.{◌≡◌, refl, Result, ok, err}
use vitruvius.Fs.{Fs, Io, continue, ◌>>=◌}

module _ {ℓ κ} {A : Type ℓ} {B : Type κ} (f : A → Io B) {b : B} {after : Fs} where
  pub continue-eq-ok :
      (r : Result A) (fs : Fs)
      → continue r f fs ≡ (ok b, after)
      → (a : A) × (r ≡ ok a) × (f a fs ≡ (ok b, after))
  continue-eq-ok (ok a) fs e = (a, refl, e)
  continue-eq-ok (err x) fs e = cc

  -- An action that succeeds has succeeded in its first part, and then in the rest.
  pub >>=-eq-ok :
      (m : Io A) (fs : Fs)
      → (m >>= f) fs ≡ (ok b, after)
      → (a : A) × ((m fs).0 ≡ ok a) × (f a (m fs).1 ≡ (ok b, after))
  >>=-eq-ok m fs e = continue-eq-ok (m fs).0 (m fs).1 e
