-- ===== src/Routes/Shared/Silent.antt =====
-- routes/shared.go: what an answer with no page rests on.
use authbyte.Prelude.{
  unrefused, ℕ, ◌≡◌, refl, ap, subst, Bool, true, false, not, ◌&&◌, List, [], ◌∷◌, Option, none,
  some, ok, contains, arith, ◌==◌, ◌⊎◌, inl, inr, if◌then◌else◌,
}
use authbyte.Act.{pure, gets}
use authbyte.Act.Runs.{>>=-eq-ok, pure-eq-ok, if_other-eq-ok}
use authbyte.Browser.{Visit, Reply}
use authbyte.Registry.Rows.{claim_serial_number}
use authbyte.Registry.SignIn.{membership_required}
use authbyte.Register.{Membership}
use authbyte.Routes.Answers.{Refusal, Handler}
use authbyte.Routes.Authorize.{AuthorizeRequest, offered}
use authbyte.Routes.Shared.Fitting.{
  inject_way, last_fit_fits, Among, MayShare, IsFit, may_share-MayShare, fit_of-IsFit,
}
use authbyte.Routes.Shared.Browser.{
  Joined, fits, Found, found_way, refused_for, unasked, fit_of, last_fit, may_share, browser_shared,
  of_membership, as_member, identified, shared_way, answer_by, answer_found, answer_joined,
  answer_from_shared,
}
use authbyte.Session.Shared.{Way, Shared}
use authbyte.World.{Env, World}
use authbyte.Routes.Shared.Answering.{IsLeft, answer_by-IsLeft}
use authbyte.Routes.Shared.Held.{IsHeld, pure_none-eq-ok, browser_shared-IsHeld}

module _ (env : Env) where
  open env use {cache}

  of_membership-found :
      (ms : Option (List Membership)) (way x : Way)
      → of_membership env ms way ≡ found_way x
      → way ≡ x
  of_membership-found none way x e = ground arith
  of_membership-found (some []) way x e = ground arith
  of_membership-found (some (m ∷ ms)) way x e = inject_way way x e

  either-found :
      (b : Bool) (m : Handler env Found) (way x : Way) (w : World env) {u : World env}
      → ((z : World env) → m w ≡ (ok (found_way x), z) → way ≡ x)
      → (if b then m else pure (found_way way)) w ≡ (ok (found_way x), u)
      → way ≡ x
  either-found true m way x w h e = h _ e
  either-found false m way x w h e =
      inject_way way x (pure-eq-ok {E = Refusal} (found_way way) w e).0

  as_member-found :
      (req : AuthorizeRequest) (sh : Shared) (way x : Way) (w : World env) {u : World env}
      → as_member env req sh way w ≡ (ok (found_way x), u)
      → way ≡ x
  unfolding as_member
  as_member-found req sh way x w e =
      either-found (env.register.wired && membership_required env.registry req.client_id true) _ way
        x w
        (λ z asked.
          let (ms, w1, _, e1) = >>=-eq-ok _ _ w asked in
          of_membership-found ms way x
            (pure-eq-ok {E = Refusal} (of_membership env ms way) w1 e1).0)
        e

  identified-found :
      (req : AuthorizeRequest) (sh : Shared) (found : Found) (way : Way) (w : World env)
      {u : World env}
      → identified env req sh found w ≡ (ok (found_way way), u)
      → (found ≡ found_way way)
        × ((contains req.client.claims claim_serial_number && sh.serial_number == "") ≡ false)
  unfolding identified
  identified-found req sh (found_way other) way w e =
      let (known, e1) =
        if_other-eq-ok (contains req.client.claims claim_serial_number && sh.serial_number == "") _
          _ w (found_way way)
          (λ z h. ground (arith, pure-eq-ok {E = Refusal} (refused_for "identity") w h)) e in
      (ap found_way (as_member-found req sh other way w e1), known)
  identified-found req sh (refused_for why) way w e =
      absurd (ground (arith, pure-eq-ok {E = Refusal} (refused_for why) w e))
  identified-found req sh unasked way w e =
      absurd (ground (arith, pure-eq-ok {E = Refusal} unasked w e))

  fitting :
      (req : AuthorizeRequest) (now : ℕ) (ways : List Way) (way : Way)
      → (refused_for "way" ≡ found_way way)
        ⊎ (Among way ways × (fit_of req (offered env req.client) now way ≡ fits))
      → Among way ways × (fit_of req (offered env req.client) now way ≡ fits)
  fitting req now ways way (inl none_found) = ground arith
  fitting req now ways way (inr fit) = fit

  shared_way-found :
      (req : AuthorizeRequest) (sh : Shared) (now : ℕ) (way : Way) (w : World env) {u : World env}
      → shared_way env req sh now w ≡ (ok (found_way way), u)
      → (may_share req ≡ true)
        × Among way sh.ways
        × (fit_of req (offered env req.client) now way ≡ fits)
        × ((contains req.client.claims claim_serial_number && sh.serial_number == "") ≡ false)
  unfolding shared_way
  shared_way-found req sh now way w e =
      let (may, e1) =
        if_other-eq-ok (not (may_share req)) _ _ w (found_way way)
          (λ z h. ground (arith, pure-eq-ok {E = Refusal} unasked w h)) e in
      let (found, known) =
        identified-found req sh
          (last_fit req (offered env req.client) now (refused_for "way") sh.ways) way w e1 in
      let (there, fit) =
        fitting req now sh.ways way
          (last_fit_fits req (offered env req.client) now (refused_for "way") sh.ways way found) in
      (unrefused (may_share req) may, there, fit, known)

  -- What the answer with no page rests on.
  pub record IsSilent (v : Visit) (req : AuthorizeRequest) (w : World env) (answer : Reply)
      (u : World env) : Type 0 where
    pub joined : Joined
    pub held : IsHeld env v w joined
    pub may : MayShare env req
    pub way : Way
    pub of_session : Among way joined.shared.ways
    pub fit : IsFit env req w.now way
    pub known :
        (contains req.client.claims claim_serial_number && joined.shared.serial_number == "")
        ≡ false
    pub left : IsLeft env req joined way w.now answer u

  answer_found-found :
      (req : AuthorizeRequest) (j : Joined) (now : ℕ) (found : Found) (answer : Reply)
      (w : World env) {u : World env}
      → answer_found env req j now found w ≡ (ok (some answer), u)
      → (way : Way) × (found ≡ found_way way)
        × (answer_by env req j now way w ≡ (ok (some answer), u))
  unfolding answer_found
  answer_found-found req j now (found_way way) answer w e = (way, refl, e)
  answer_found-found req j now (refused_for why) answer w e =
      let (_, w1, _, e1) = >>=-eq-ok _ _ w e in absurd (pure_none-eq-ok env answer w1 _ e1)
  answer_found-found req j now unasked answer w e = absurd (pure_none-eq-ok env answer w _ e)

  answer_joined-IsSilent :
      (v : Visit) (req : AuthorizeRequest) (o : Option Joined) (answer : Reply) (w w1 : World env)
      {u : World env}
      → browser_shared env v w ≡ (ok o, w1)
      → answer_joined env req o w1 ≡ (ok (some answer), u)
      → IsSilent v req w answer u
  unfolding gets
  answer_joined-IsSilent v req none answer w w1 read e = absurd (pure_none-eq-ok env answer w1 _ e)
  answer_joined-IsSilent v req (some j) answer w w1 {u} read e =
      let (held, clock) = browser_shared-IsHeld env v w j read in
      let (now, w2, told, e1) = >>=-eq-ok _ _ w1 e in
      let (found, w3, sought, e2) = >>=-eq-ok _ _ w2 e1 in
      let (way, is_way, answered) = answer_found-found req j now found answer w3 e2 in
      let (may, there, fitting, known) =
        shared_way-found req j.shared now way w2
          (subst (λ f. shared_way env req j.shared now w2 ≡ (ok f, w3)) is_way sought) in
      let same_time : now ≡ w.now = ground (arith, told, clock) in
      let fit =
        fit_of-IsFit env req w.now way
          (subst (λ t. fit_of req (offered env req.client) t way ≡ fits) same_time fitting) in
      record {
        joined = j;
        held = held;
        may = may_share-MayShare env req may;
        way = way;
        of_session = there;
        fit = fit;
        known = known;
        left =
            answer_by-IsLeft env req j w.now way answer w3 fit.in_force (
              subst (λ t. answer_by env req j t way w3 ≡ (ok (some answer), u)) same_time answered);
      }

  -- A request is answered with no page only in a browser whose cookie names a shared session in force
  -- with its secret, for a client of single sign-on that did not ask for a sign-in now; by one of
  -- that session's ways of signing in, which has not ended, that the client may use, that the request
  -- does not exclude and that is no older than it allows; and for a person who has the identity code
  -- the client needs. The code answered is kept for that client, address and challenge and leads to a
  -- session of that person, signed in by that way, that lasts as long as the way has left.
  pub answer_from_shared-IsSilent :
      (v : Visit) (req : AuthorizeRequest) (w : World env) (answer : Reply) (u : World env)
      → answer_from_shared env v req w ≡ (ok (some answer), u)
      → IsSilent v req w answer u
  unfolding answer_from_shared
  answer_from_shared-IsSilent v req w answer u e =
      let (o, w1, read, e1) = >>=-eq-ok _ _ w e in
      answer_joined-IsSilent v req o answer w w1 read e1
