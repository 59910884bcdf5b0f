-- ===== src/Act/Meets.antt =====
-- What an action answers, whatever state it starts in: a predicate of its refusals and one of its
-- values, put together as the action is.
use authbyte.Prelude.{Bool, true, false, Result, ok, err, if◌then◌else◌}
use authbyte.Act.{Act, pure, raise, on_error, continue, settle, ◌>>=◌}

module _ {E A : Type 0} where
  abbrev pub Outcome : (E → Type 0) → (A → Type 0) → Result E A → Type 0
  Outcome P Q (ok a) = Q a
  Outcome P Q (err e) = P e

-- no condition at all
abbrev pub Any : {A : Type 0} → A → Type 0
Any a = Unit

Outcome-Any : {E A : Type 0} (r : Result E A) → Outcome Any Any r
Outcome-Any (ok a) = tt
Outcome-Any (err e) = tt

module _ {W E A : Type 0} where
  pub record Meets (P : E → Type 0) (Q : A → Type 0) (m : Act W E A) : Type 0 where
    pub at : (w : W) → Outcome P Q (m w).0

  pub Meets-Any : (m : Act W E A) → Meets Any Any m
  Meets-Any m = record { at = λ w. Outcome-Any (m w).0 }

  module _ {P : E → Type 0} {Q : A → Type 0} where
    pub Meets-pure : (a : A) → Q a → Meets P Q (pure a)
    unfolding pure
    Meets-pure a q = record { at = λ w. q }

    pub Meets-raise : (e : E) → P e → Meets P Q (raise e)
    unfolding raise
    Meets-raise e p = record { at = λ w. p }

    pub Meets-if :
        (b : Bool) (m n : Act W E A) → Meets P Q m → Meets P Q n → Meets P Q (if b then m else n)
    Meets-if true m n h k = h
    Meets-if false m n h k = k

module _ {W E A B : Type 0} {P : E → Type 0} {R : A → Type 0} {Q : B → Type 0} where
  Outcome-continue :
      (r : Result E A) (f : A → Act W E B) (w : W)
      → Outcome P R r
      → ((a : A) → R a → Meets P Q (f a))
      → Outcome P Q (continue r f w).0
  Outcome-continue (ok a) f w h k = (k a h).at w
  Outcome-continue (err e) f w h k = h

  pub Meets-bind :
      (m : Act W E A) (f : A → Act W E B)
      → Meets P R m
      → ((a : A) → R a → Meets P Q (f a))
      → Meets P Q (m >>= f)
  unfolding ◌>>=◌
  Meets-bind m f h k = record { at = λ w. Outcome-continue (m w).0 f (m w).1 (h.at w) k }

module _ {W E F A : Type 0} {P : F → Type 0} {R : E → Type 0} {Q : A → Type 0} where
  Outcome-settle :
      (r : Result E A) (g : E → Act W F A) (w : W)
      → Outcome R Q r
      → ((e : E) → R e → Meets P Q (g e))
      → Outcome P Q (settle r g w).0
  Outcome-settle (ok a) g w h k = h
  Outcome-settle (err e) g w h k = (k e h).at w

  pub Meets-on_error :
      (m : Act W E A) (g : E → Act W F A)
      → Meets R Q m
      → ((e : E) → R e → Meets P Q (g e))
      → Meets P Q (on_error m g)
  unfolding on_error
  Meets-on_error m g h k = record { at = λ w. Outcome-settle (m w).0 g (m w).1 (h.at w) k }
