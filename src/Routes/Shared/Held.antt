-- ===== src/Routes/Shared/Held.antt =====
-- routes/shared.go: what the browser's shared session rests on.
use authbyte.Prelude.{
  ℕ, String, ◌≡◌, refl, sym, ap, subst, ◌∙◌, false, not, ◌||◌, Option, none, some, ok, arith,
  eq_iff, ◌==◌,
}
use authbyte.Act.{pure, gets, on_error}
use authbyte.Act.Runs.{>>=-eq-ok, pure-eq-ok, if_other-eq-ok, settled_other-eq-ok}
use authbyte.Browser.{Visit, read_cookie}
use authbyte.Routes.Answers.{Refusal, wrapped}
use authbyte.Routes.Shared.Browser.{
  shared_cookie, Joined, cookie_parts, shared_secret_hash, forget_cookie, lost, loaded,
  held_or_lost, load_parts, of_parts, browser_shared,
}
use authbyte.Session.Shared.{Shared, shared_expired}
use authbyte.Store.Calls.{StoreError, not_found, unavailable, exists, Call}
use authbyte.Store.Index.{load_shared}
use authbyte.Store.Answers.{load_shared-eq-ok}
use authbyte.World.{Env, World}

module _ (env : Env) where
  open env use {cache}

  -- The browser's own shared session: its cookie names it, with its secret, and it is in force.
  pub record IsHeld (v : Visit) (w : World env) (j : Joined) : Type 0 where
    pub secret : String
    pub cookie : cookie_parts (read_cookie v shared_cookie) ≡ some (j.id, secret)
    pub kept : cache.get w.shared w.now j.id ≡ some j.shared
    pub shown : shared_secret_hash env secret ≡ j.shared.secret_hash
    pub live : shared_expired j.shared w.now ≡ false

  forget_cookie-eq-ok :
      (v : Visit) (j : Joined) (w u : World env) → forget_cookie env v w ≡ (ok (some j), u) → ⊥
  forget_cookie-eq-ok v j w u e =
      let (_, w1, _, e1) = >>=-eq-ok _ _ w e in ground (arith, pure-eq-ok {E = Refusal} none w1 e1)

  pub pure_none-eq-ok :
      {A : Type 0} (a : A) (w u : World env)
      → pure {W = World env} {E = Refusal} {A = Option A} none w ≡ (ok (some a), u)
      → ⊥
  pure_none-eq-ok {A} a w u e = ground (arith, pure-eq-ok {E = Refusal} {A = Option A} none w e)

  lost-eq-ok :
      (v : Visit) (sh : Shared) (e : StoreError) (x y : World env)
      → lost env v e x ≡ (ok (some sh), y)
      → ⊥
  lost-eq-ok v sh not_found x y e =
      let (_, x1, _, e1) = >>=-eq-ok _ _ x e in pure_none-eq-ok sh x1 y e1
  lost-eq-ok v sh unavailable x y e = pure_none-eq-ok sh x y e
  lost-eq-ok v sh exists x y e = pure_none-eq-ok sh x y e

  inject_some : (a b : Joined) → Path (Option Joined) (some a) (some b) → a ≡ b
  inject_some a b e = ground arith

  secret_right :
      (secret_hash : String) (sh : Shared) (now : ℕ)
      → (not (secret_hash == sh.secret_hash) || shared_expired sh now) ≡ false
      → (secret_hash ≡ sh.secret_hash) × (shared_expired sh now ≡ false)
  secret_right h sh now e = (ground (arith, eq_iff h sh.secret_hash), ground arith)

  held_by :
      (v : Visit) (id secret : String) (sh : Shared) (w : World env) (j : Joined) (now : ℕ)
      {u : World env}
      → cookie_parts (read_cookie v shared_cookie) ≡ some (id, secret)
      → cache.get w.shared w.now id ≡ some sh
      → now ≡ w.now
      → (not (shared_secret_hash env secret == sh.secret_hash) || shared_expired sh now) ≡ false
      → record { id = id; shared = sh } ≡ j
      → w ≡ u
      → IsHeld v w j × (w ≡ u)
  held_by v id secret sh w j now cookie kept clock good same stays =
      let (right, live) = secret_right (shared_secret_hash env secret) sh now good in
      (
        subst (IsHeld v w) same (record {
          secret = secret;
          cookie = cookie;
          kept = kept;
          shown = right;
          live = subst (λ t. shared_expired sh t ≡ false) clock live;
        }),
        stays,
      )

  loaded-IsHeld :
      (v : Visit) (id secret : String) (sh : Shared) (w : World env) (j : Joined) {u : World env}
      → cookie_parts (read_cookie v shared_cookie) ≡ some (id, secret)
      → cache.get w.shared w.now id ≡ some sh
      → loaded env v id secret sh w ≡ (ok (some j), u)
      → IsHeld v w j × (w ≡ u)
  unfolding loaded gets
  loaded-IsHeld v id secret sh w j cookie kept e =
      let (now, w1, read, e1) = >>=-eq-ok _ _ w e in
      let (good, e2) =
        if_other-eq-ok
          (not (shared_secret_hash env secret == sh.secret_hash) || shared_expired sh now) _ _ w1
          (some j) (λ z. forget_cookie-eq-ok v j w1 z) e1 in
      let (same, stays) =
        pure-eq-ok {E = Refusal} {A = Option Joined} (some (record { id = id; shared = sh })) w1
          e2 in
      held_by v id secret sh w j now cookie kept (ground (arith, read)) good (inject_some _ j same)
        (ground (arith, read, stays))

  wrapped-eq-ok :
      (m : Call env Shared) (w : World env) {sh : Shared} {u : World env}
      → wrapped env m w ≡ (ok (some sh), u)
      → m w ≡ (ok sh, u)
  wrapped-eq-ok m w {sh} {u} e =
      let (a, w1, call, e1) = >>=-eq-ok m _ w e in
      let (same, stays) = pure-eq-ok {E = StoreError} {A = Option Shared} (some a) w1 e1 in
      ground (arith, call, same, stays)

  held_or_lost-IsHeld :
      (v : Visit) (id secret : String) (kept : Option Shared) (w w1 : World env) (j : Joined)
      {u : World env}
      → cookie_parts (read_cookie v shared_cookie) ≡ some (id, secret)
      → on_error (wrapped env (load_shared env id)) (lost env v) w ≡ (ok kept, w1)
      → held_or_lost env v id secret kept w1 ≡ (ok (some j), u)
      → IsHeld v w j × (u.now ≡ w.now)
  held_or_lost-IsHeld v id secret none w w1 j cookie call e = absurd (pure_none-eq-ok j w1 _ e)
  held_or_lost-IsHeld v id secret (some sh) w w1 j {u} cookie call e =
      let (kept, _, left) = load_shared-eq-ok env id w (
        wrapped-eq-ok (load_shared env id) w (
          settled_other-eq-ok (wrapped env (load_shared env id)) (lost env v) w (some sh)
            (lost-eq-ok v sh) call)) in
      let (held, stays) =
        loaded-IsHeld v id secret sh w1 j cookie
          (subst (λ s. cache.get s w1.now id ≡ some sh) (sym (ap (λ z. z.shared) left))
            (subst (λ t. cache.get w.shared t id ≡ some sh) (sym (ap (λ z. z.now) left)) kept))
          e in
      (
        record {
          secret = held.secret;
          cookie = held.cookie;
          kept =
              subst (λ s. cache.get s w.now j.id ≡ some j.shared) (ap (λ z. z.shared) left)
                (subst (λ t. cache.get w1.shared t j.id ≡ some j.shared) (ap (λ z. z.now) left)
                  held.kept);
          shown = held.shown;
          live = subst (λ t. shared_expired j.shared t ≡ false) (ap (λ z. z.now) left) held.live;
        },
        ap (λ z. z.now) (sym stays) ∙ ap (λ z. z.now) left,
      )

  load_parts-IsHeld :
      (v : Visit) (id secret : String) (w : World env) (j : Joined) {u : World env}
      → cookie_parts (read_cookie v shared_cookie) ≡ some (id, secret)
      → load_parts env v id secret w ≡ (ok (some j), u)
      → IsHeld v w j × (u.now ≡ w.now)
  unfolding load_parts
  load_parts-IsHeld v id secret w j cookie e =
      let (kept, w1, call, e1) = >>=-eq-ok _ _ w e in
      held_or_lost-IsHeld v id secret kept w w1 j cookie call e1

  of_parts-IsHeld :
      (v : Visit) (o : Option (String × String)) (w : World env) (j : Joined) {u : World env}
      → cookie_parts (read_cookie v shared_cookie) ≡ o
      → of_parts env v o w ≡ (ok (some j), u)
      → IsHeld v w j × (u.now ≡ w.now)
  of_parts-IsHeld v none w j cookie e = absurd (forget_cookie-eq-ok v j w _ e)
  of_parts-IsHeld v (some p) w j cookie e = load_parts-IsHeld v p.0 p.1 w j cookie e

  pub browser_shared-IsHeld :
      (v : Visit) (w : World env) (j : Joined) {u : World env}
      → browser_shared env v w ≡ (ok (some j), u)
      → IsHeld v w j × (u.now ≡ w.now)
  unfolding browser_shared
  browser_shared-IsHeld v w j e =
      let (_, e1) =
        if_other-eq-ok (read_cookie v shared_cookie == "") _ _ w (some j)
          (λ z. pure_none-eq-ok j w z) e in
      of_parts-IsHeld v (cookie_parts (read_cookie v shared_cookie)) w j refl e1
