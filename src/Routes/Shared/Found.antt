-- ===== src/Routes/Shared/Found.antt =====
-- routes/shared.go: `sharedWay` finds a way of signing in whenever there is one.
use authbyte.Prelude.{
  ℕ, String, ◌≡◌, ◌≢◌, refl, ap, ◌∙◌, true, false, ◌&&◌, List, [], ◌∷◌, ◌++◌, ok, contains, All,
  ◌==◌,
}
use authbyte.Act.{pure}
use authbyte.Registry.Rows.{claim_serial_number}
use authbyte.Registry.SignIn.{membership_required}
use authbyte.Routes.Authorize.{AuthorizeRequest, offered}
use authbyte.Routes.Shared.Browser.{
  Fit, fits, too_old, unfit, Found, found_way, refused_for, fit_of, with_fit, last_fit, may_share,
  as_member, identified, shared_way,
}
use authbyte.Session.Shared.{Way, Shared}
use authbyte.World.{Env, World}

module _ (req : AuthorizeRequest) (here : List String) (now : ℕ) where
  last_fit_append :
      (before : Found) (a b : List Way)
      → last_fit req here now before (a ++ b)
        ≡ last_fit req here now (last_fit req here now before a) b
  unfolding last_fit
  last_fit_append before [] b = refl
  last_fit_append before (w ∷ a) b = last_fit_append (with_fit (fit_of req here now w) w before) a b

  with_fit_stays : (f : Fit) (w way : Way) → f ≢ fits → with_fit f w (found_way way) ≡ found_way way
  with_fit_stays fits w way other = absurd (other refl)
  with_fit_stays too_old w way other = refl
  with_fit_stays unfit w way other = refl

  last_fit_stays :
      (way : Way) (later : List Way)
      → All (λ w. fit_of req here now w ≢ fits) later
      → last_fit req here now (found_way way) later ≡ found_way way
  unfolding last_fit
  last_fit_stays way [] none_fits = refl
  last_fit_stays way (w ∷ ws) (other, others) =
      rw (with_fit_stays (fit_of req here now w) w way other) (last_fit_stays way ws others)

  last_fit_last :
      (before : Found) (earlier later : List Way) (way : Way)
      → fit_of req here now way ≡ fits
      → All (λ w. fit_of req here now w ≢ fits) later
      → last_fit req here now before (earlier ++ way ∷ later) ≡ found_way way
  unfolding last_fit
  last_fit_last before earlier later way fit others =
      last_fit_append before earlier (way ∷ later)
      ∙ ap
          (λ f. last_fit req here now (with_fit f way (last_fit req here now before earlier)) later)
          fit
      ∙ last_fit_stays way later others

module _ (env : Env) where
  identified_member :
      (req : AuthorizeRequest) (sh : Shared) (way : Way) (w : World env)
      → (contains req.client.claims claim_serial_number && sh.serial_number == "") ≡ false
      → (env.register.wired && membership_required env.registry req.client_id true) ≡ false
      → identified env req sh (found_way way) w ≡ (ok (found_way way), w)
  unfolding identified as_member pure
  identified_member req sh way w known free = rw known (rw free refl)

  -- A request that the shared session may answer, of a client that needs no membership nor an
  -- identity code that is missing, is answered by the last of the session's ways of signing in that
  -- fits it, whatever came before, and the state is left as it was.
  pub shared_way_last :
      (req : AuthorizeRequest) (sh : Shared) (now : ℕ) (earlier later : List Way) (way : Way)
      (w : World env)
      → may_share req ≡ true
      → sh.ways ≡ earlier ++ way ∷ later
      → fit_of req (offered env req.client) now way ≡ fits
      → All (λ o. fit_of req (offered env req.client) now o ≢ fits) later
      → (contains req.client.claims claim_serial_number && sh.serial_number == "") ≡ false
      → (env.register.wired && membership_required env.registry req.client_id true) ≡ false
      → shared_way env req sh now w ≡ (ok (found_way way), w)
  unfolding shared_way
  shared_way_last req sh now earlier later way w may ways fit others known free = rw may (
      rw ways (
        rw
          (last_fit_last req (offered env req.client) now (refused_for "way") earlier later way fit
            others)
          (identified_member req sh way w known free)))
