-- ===== src/Act/Runs.antt =====
-- How an action ran, read from its result and its last state.
use authbyte.Prelude.{
  ◌≡◌, refl, Bool, true, false, Result, ok, err, arith, ◌⊎◌, inl, inr, if◌then◌else◌,
}
use authbyte.Act.{Act, pure, raise, refuse_if, on_error, continue, settle, ◌>>=◌}

module _ {W E A B : Type 0} where
  continue-eq-ok :
      (r : Result E A) (f : A → Act W E B) (v : W) {b : B} {w : W}
      → continue r f v ≡ (ok b, w)
      → (a : A) × (r ≡ ok a) × (f a v ≡ (ok b, w))
  continue-eq-ok (ok a) f v h = (a, refl, h)
  continue-eq-ok (err e) f v h = absurd (ground arith)

  -- A bind that answered: its first part answered, and the rest did from there.
  pub >>=-eq-ok :
      (m : Act W E A) (f : A → Act W E B) (u : W) {b : B} {w : W}
      → (m >>= f) u ≡ (ok b, w)
      → (a : A) × (v : W) × (m u ≡ (ok a, v)) × (f a v ≡ (ok b, w))
  unfolding ◌>>=◌
  >>=-eq-ok m f u h =
      let (a, first, rest) = continue-eq-ok (m u).0 f (m u).1 h in
      (a, (m u).1, ground (arith, first), rest)

  -- A bind whose first part is known runs on as the rest.
  pub >>=-ok :
      (m : Act W E A) (f : A → Act W E B) (u v : W) (a : A) → m u ≡ (ok a, v) → (m >>= f) u ≡ f a v
  unfolding ◌>>=◌
  >>=-ok m f u v a h = rw h refl

  pub >>=-err :
      (m : Act W E A) (f : A → Act W E B) (u v : W) (e : E)
      → m u ≡ (err e, v)
      → (m >>= f) u ≡ (err e, v)
  unfolding ◌>>=◌
  >>=-err m f u v e h = rw h refl

module _ {W E F A : Type 0} where
  settle-eq-ok :
      (r : Result E A) (h : E → Act W F A) (v : W) {a : A} {w : W}
      → settle r h v ≡ (ok a, w)
      → ((r ≡ ok a) × (v ≡ w)) ⊎ ((e : E) × (r ≡ err e) × (h e v ≡ (ok a, w)))
  settle-eq-ok (ok b) h v p = inl (ground arith, ground arith)
  settle-eq-ok (err e) h v p = inr (e, refl, p)

  -- A call with a handler that always refuses answered only if the call did.
  pub on_error-eq-ok :
      (m : Act W E A) (h : E → F) (u : W) {a : A} {w : W}
      → on_error m (λ e. raise (h e)) u ≡ (ok a, w)
      → m u ≡ (ok a, w)
  unfolding on_error raise
  on_error-eq-ok m h u p = ground arith

  settle-never-eq-ok :
      (r : Result E A) (h : E → Act W F A) (v : W) {a : A} {w : W}
      → ((e : E) (x : W) (b : A) (y : W) → h e x ≡ (ok b, y) → ⊥)
      → settle r h v ≡ (ok a, w)
      → (r ≡ ok a) × (v ≡ w)
  settle-never-eq-ok (ok b) h v never p = (ground arith, ground arith)
  settle-never-eq-ok (err e) h v never p = absurd (never e v _ _ p)

  -- A call whose failure never answers answered itself.
  pub settled-eq-ok :
      (m : Act W E A) (h : E → Act W F A) (u : W) {a : A} {w : W}
      → ((e : E) (x : W) (b : A) (y : W) → h e x ≡ (ok b, y) → ⊥)
      → on_error m h u ≡ (ok a, w)
      → m u ≡ (ok a, w)
  unfolding on_error
  settled-eq-ok m h u never p =
      let (same, stays) = settle-never-eq-ok (m u).0 h (m u).1 never p in
      ground (arith, same, stays)

  pub on_error-ok :
      (m : Act W E A) (h : E → Act W F A) (u v : W) (a : A)
      → m u ≡ (ok a, v)
      → on_error m h u ≡ (ok a, v)
  unfolding on_error
  on_error-ok m h u v a p = rw p refl

  pub on_error-err :
      (m : Act W E A) (h : E → Act W F A) (u v : W) (e : E)
      → m u ≡ (err e, v)
      → on_error m h u ≡ h e v
  unfolding on_error
  on_error-err m h u v e p = rw p refl

module _ {W E : Type 0} where
  pub refuse_if-eq-ok :
      (b : Bool) (e : E) (u : W) {x : Unit {0}} {w : W}
      → refuse_if b e u ≡ (ok x, w)
      → (b ≡ false) × (u ≡ w)
  unfolding refuse_if
  refuse_if-eq-ok true e u h = absurd (ground arith)
  refuse_if-eq-ok false e u h = (refl, ground arith)

module _ {W E A : Type 0} where
  pub raise-eq-ok : (e : E) (u : W) {a : A} {w : W} → raise e u ≡ (ok a, w) → ⊥
  unfolding raise
  raise-eq-ok e u h = ground arith

  pub pure-eq-ok :
      (a : A) (u : W) {b : A} {w : W} → pure {E = E} a u ≡ (ok b, w) → (a ≡ b) × (u ≡ w)
  unfolding pure
  pure-eq-ok a u h = (ground arith, ground arith)

module _ {W E A : Type 0} where
  -- Behind a test whose one branch never answers, the other branch ran.
  pub if_never-eq-ok :
      (b : Bool) (never rest : Act W E A) (u : W) {a : A} {w : W}
      → ((c : A) (v : W) → never u ≡ (ok c, v) → ⊥)
      → (if b then never else rest) u ≡ (ok a, w)
      → (b ≡ false) × (rest u ≡ (ok a, w))
  if_never-eq-ok true never rest u {a} {w} n h = absurd (n a w h)
  if_never-eq-ok false never rest u n h = (refl, h)

  pub if_else_never-eq-ok :
      (b : Bool) (rest never : Act W E A) (u : W) {a : A} {w : W}
      → ((c : A) (v : W) → never u ≡ (ok c, v) → ⊥)
      → (if b then rest else never) u ≡ (ok a, w)
      → (b ≡ true) × (rest u ≡ (ok a, w))
  if_else_never-eq-ok true rest never u n h = (refl, h)
  if_else_never-eq-ok false rest never u {a} {w} n h = absurd (n a w h)

  -- The same of a branch that never gives this answer.
  pub if_other-eq-ok :
      (b : Bool) (other rest : Act W E A) (u : W) (a : A) {w : W}
      → ((v : W) → other u ≡ (ok a, v) → ⊥)
      → (if b then other else rest) u ≡ (ok a, w)
      → (b ≡ false) × (rest u ≡ (ok a, w))
  if_other-eq-ok true other rest u a {w} n h = absurd (n w h)
  if_other-eq-ok false other rest u a n h = (refl, h)

module _ {W E F A : Type 0} where
  settle_other-eq-ok :
      (r : Result E A) (h : E → Act W F A) (v : W) (a : A) {w : W}
      → ((e : E) (x y : W) → h e x ≡ (ok a, y) → ⊥)
      → settle r h v ≡ (ok a, w)
      → (r ≡ ok a) × (v ≡ w)
  settle_other-eq-ok (ok b) h v a never p = (ground arith, ground arith)
  settle_other-eq-ok (err e) h v a never p = absurd (never e v _ p)

  -- A call whose failure never gives this answer gave it itself.
  pub settled_other-eq-ok :
      (m : Act W E A) (h : E → Act W F A) (u : W) (a : A) {w : W}
      → ((e : E) (x y : W) → h e x ≡ (ok a, y) → ⊥)
      → on_error m h u ≡ (ok a, w)
      → m u ≡ (ok a, w)
  unfolding on_error
  settled_other-eq-ok m h u a never p =
      let (same, stays) = settle_other-eq-ok (m u).0 h (m u).1 a never p in
      ground (arith, same, stays)
