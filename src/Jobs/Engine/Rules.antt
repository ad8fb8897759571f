-- ===== src/Jobs/Engine/Rules.antt =====
-- Postconditions of actions, for the value and for the exception.
use mangarr_gateway.Prelude.{refl, ◌≡◌}
use mangarr_gateway.Jobs.Engine.{Exception, Outcome, ok, raise, Run, ◌>>=◌, continue}

abbrev pub Post {ℓ} :
    {A : Type ℓ} → (A → Run → Type 0) → (Exception → Run → Type 0) → Outcome A × Run → Type 0
Post Q E (ok a, s) = Q a s
Post Q E (raise e, s) = E e s

-- An outcome of which nothing is known.
pub any-Post {ℓ} :
    {A : Type ℓ} (Q : A → Run → Type 0) (E : Exception → Run → Type 0) (r : Outcome A) (s : Run)
    → ((a : A) → Q a s)
    → ((e : Exception) → E e s)
    → Post Q E (r, s)
any-Post Q E (ok a) s h k = h a
any-Post Q E (raise e) s h k = k e

-- An outcome whose value is told by an equation.
pub known-Post {ℓ} :
    {A : Type ℓ} (Q : A → Run → Type 0) (E : Exception → Run → Type 0) (r : Outcome A) (s : Run)
    → ((a : A) → r ≡ ok a → Q a s)
    → ((e : Exception) → E e s)
    → Post Q E (r, s)
known-Post Q E (ok a) s h k = h a refl
known-Post Q E (raise e) s h k = k e

module _ {ℓ κ} {A : Type ℓ} {B : Type κ} where
  continue-Post :
      (Q : A → Run → Type 0) (R : B → Run → Type 0) (E : Exception → Run → Type 0) (r : Outcome A)
      (s : Run) (f : A → Run → Outcome B × Run)
      → Post Q E (r, s)
      → ((a : A) (t : Run) → Q a t → Post R E (f a t))
      → Post R E (continue r f s)
  continue-Post Q R E (ok a) s f h k = k a s h
  continue-Post Q R E (raise e) s f h k = h

  -- What follows a bind may use what its first action ensures.
  pub >>=-Post :
      (Q : A → Run → Type 0) (R : B → Run → Type 0) (E : Exception → Run → Type 0)
      (m : Run → Outcome A × Run) (f : A → Run → Outcome B × Run) (s : Run)
      → Post Q E (m s)
      → ((a : A) (t : Run) → Q a t → Post R E (f a t))
      → Post R E ((m >>= f) s)
  unfolding ◌>>=◌
  >>=-Post Q R E m f s h k = continue-Post Q R E (m s).0 (m s).1 f h k
