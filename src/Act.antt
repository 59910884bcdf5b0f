-- ===== src/Act.antt =====
-- Code that changes the service's state and may answer early with a refusal: an action takes the
-- state and gives the result with the state it leaves, beside a refusal too.
pub mod Runs
pub mod Leaves
pub mod Meets
use authbyte.Prelude.{Bool, true, false, Result, ok, err}

abbrev pub Act {ℓ} : Type ℓ → Type ℓ → Type ℓ → Type ℓ
Act W E A = W → Result E A × W

module _ {ℓ} {W E A : Type ℓ} where
  unfoldable pub pure : A → Act W E A
  pure a w = (ok a, w)

  unfoldable pub raise : E → Act W E A
  raise e w = (err e, w)

  unfoldable pub gets : (W → A) → Act W E A
  gets f w = (ok (f w), w)

module _ {ℓ} {W E A B : Type ℓ} where
  abbrev pub continue : Result E A → (A → Act W E B) → Act W E B
  continue (ok a) f w = f a w
  continue (err e) f w = (err e, w)

  infixl 5 ◌>>=◌
  unfoldable pub ◌>>=◌ : Act W E A → (A → Act W E B) → Act W E B
  ◌>>=◌ m f w = let (r, w') = m w in continue r f w'

module _ {ℓ} {W E F A : Type ℓ} where
  abbrev pub settle : Result E A → (E → Act W F A) → Act W F A
  settle (ok a) h w = (ok a, w)
  settle (err e) h w = h e w

  -- A call whose error is answered here, in the state that the call left.
  unfoldable pub on_error : Act W E A → (E → Act W F A) → Act W F A
  on_error m h w = let (r, w') = m w in settle r h w'

-- An action for its effect.
module _ {W E : Type 0} where
  unfoldable pub modify : (W → W) → Act W E (Unit {0})
  modify f w = (ok tt, f w)

  unfoldable pub refuse_if : Bool → E → Act W E (Unit {0})
  refuse_if true e w = (err e, w)
  refuse_if false e w = (ok tt, w)

module _ {W E B : Type 0} where
  infixl 5 ◌>>◌
  abbrev pub ◌>>◌ : Act W E (Unit {0}) → Act W E B → Act W E B
  m >> n = m >>= λ _. n
