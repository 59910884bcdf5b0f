-- ===== src/Act/Leaves.antt =====
-- What an action leaves of the state, whether it answers or refuses: a relation between the state
-- before and the state after, with one rule for each way to build an action.
use authbyte.Prelude.{◌≡◌, refl, Bool, true, false, Result, ok, err, if◌then◌else◌}
use authbyte.Act.{Act, pure, raise, gets, refuse_if, on_error, continue, settle, ◌>>=◌}

-- A relation that a run of several actions has if each of them has it.
pub record Chains {W : Type 0} (R : W → W → Type 0) : Type 0 where
  pub stays : (w : W) → R w w
  pub joins : (u v w : W) → R u v → R v w → R u w

module _ {W : Type 0} (R : W → W → Type 0) where
  pub record Leaves {E A : Type 0} (m : Act W E A) : Type 0 where
    pub at : (w : W) → R w (m w).1

module _ {W : Type 0} {R : W → W → Type 0} (chains : Chains R) where
  pub Leaves-pure : {E A : Type 0} (a : A) → Leaves R (pure {E = E} a)
  unfolding pure
  Leaves-pure a = record { at = λ w. chains.stays w }

  pub Leaves-raise : {E A : Type 0} (e : E) → Leaves R (raise {A = A} e)
  unfolding raise
  Leaves-raise e = record { at = λ w. chains.stays w }

  pub Leaves-gets : {E A : Type 0} (f : W → A) → Leaves R (gets {E = E} f)
  unfolding gets
  Leaves-gets f = record { at = λ w. chains.stays w }

  pub Leaves-refuse_if : {E : Type 0} (b : Bool) (e : E) → Leaves R (refuse_if b e)
  unfolding refuse_if
  Leaves-refuse_if true e = record { at = λ w. chains.stays w }
  Leaves-refuse_if false e = record { at = λ w. chains.stays w }

  pub Leaves-if :
      {E A : Type 0} (b : Bool) (m n : Act W E A)
      → Leaves R m
      → Leaves R n
      → Leaves R (if b then m else n)
  Leaves-if true m n lm ln = lm
  Leaves-if false m n lm ln = ln

  -- the first of two actions runs only where the test holds
  pub Leaves-if_true :
      {E A : Type 0} (b : Bool) (m n : Act W E A)
      → (b ≡ true → Leaves R m)
      → Leaves R n
      → Leaves R (if b then m else n)
  Leaves-if_true true m n lm ln = lm refl
  Leaves-if_true false m n lm ln = ln

  continue-leaves :
      {E A B : Type 0} (r : Result E A) (f : A → Act W E B) (u v : W)
      → R u v
      → ((a : A) → Leaves R (f a))
      → R u (continue r f v).1
  continue-leaves (ok a) f u v h lf = chains.joins u v _ h ((lf a).at v)
  continue-leaves (err e) f u v h lf = h

  pub Leaves-bind :
      {E A B : Type 0} (m : Act W E A) (f : A → Act W E B)
      → Leaves R m
      → ((a : A) → Leaves R (f a))
      → Leaves R (m >>= f)
  unfolding ◌>>=◌
  Leaves-bind m f lm lf = record { at = λ w. continue-leaves (m w).0 f w (m w).1 (lm.at w) lf }

  settle-leaves :
      {E F A : Type 0} (r : Result E A) (h : E → Act W F A) (u v : W)
      → R u v
      → ((e : E) → Leaves R (h e))
      → R u (settle r h v).1
  settle-leaves (ok a) h u v p lh = p
  settle-leaves (err e) h u v p lh = chains.joins u v _ p ((lh e).at v)

  pub Leaves-on_error :
      {E F A : Type 0} (m : Act W E A) (h : E → Act W F A)
      → Leaves R m
      → ((e : E) → Leaves R (h e))
      → Leaves R (on_error m h)
  unfolding on_error
  Leaves-on_error m h lm lh = record { at = λ w. settle-leaves (m w).0 h w (m w).1 (lm.at w) lh }

pub ruleset leaves_rules = (
  Leaves-pure, Leaves-raise, Leaves-gets, Leaves-refuse_if, Leaves-if, Leaves-bind, Leaves-on_error,
)
