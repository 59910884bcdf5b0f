-- ===== src/Routes/Shared/Fitting.antt =====
-- routes/shared.go: when a shared session may answer a request, and which of its ways of signing in.
use authbyte.Prelude.{
  ℕ, ◌<◌, ◌≤◌, ◌-◌, String, ◌≡◌, ◌≢◌, refl, ap, ◌++◌, subst, true, false, List, [], ◌∷◌, Option,
  none, some, contains, arith, ◌⊎◌, inl, inr, ◌&&◌, ◌||◌, not, leb, is_empty, is_some,
}
use authbyte.Routes.Asking.{unix, older}
use authbyte.Routes.Authorize.{AuthorizeRequest, offered}
use authbyte.Routes.Shared.Browser.{
  Fit, fits, too_old, unfit, Found, found_way, refused_for, unasked, fit_of, with_fit, last_fit,
  may_share,
}
use authbyte.Session.Shared.{Way}
use authbyte.Session.Types.{is_zero}
use authbyte.Routes.Authorize.Offered.{IsOffered, offered-IsOffered}
use authbyte.World.{Env}

pub inject_way : (a b : Way) → found_way a ≡ found_way b → a ≡ b
inject_way a b e = ground arith

with_fit_fits :
    (req : AuthorizeRequest) (here : List String) (now : ℕ) (f : Fit) (w : Way) (before : Found)
    (way : Way)
    → fit_of req here now w ≡ f
    → with_fit f w before ≡ found_way way
    → (before ≡ found_way way) ⊎ ((w ≡ way) × (fit_of req here now way ≡ fits))
with_fit_fits req here now fits w before way h e =
    let same = inject_way w way e in inr (same, subst (λ x. fit_of req here now x ≡ fits) same h)
with_fit_fits req here now too_old w (found_way other) way h e = inl e
with_fit_fits req here now too_old w (refused_for why) way h e = ground arith
with_fit_fits req here now too_old w unasked way h e = ground arith
with_fit_fits req here now unfit w before way h e = inl e

-- A way of a list.
abbrev pub Among : Way → List Way → Type 0
Among way ways = (before : List Way) × (others : List Way) × (ways ≡ before ++ way ∷ others)

Among-later : (w way : Way) (ways : List Way) → Among way ways → Among way (w ∷ ways)
Among-later w way ways (before, others, at) = (w ∷ before, others, ap (λ l. w ∷ l) at)

Among-first : (w way : Way) (ways : List Way) → w ≡ way → Among way (w ∷ ways)
Among-first w way ways same = ([], ways, ap (λ x. x ∷ ways) same)

-- A way that was found is one of the list and fits, unless it was found before.
pub last_fit_fits :
    (req : AuthorizeRequest) (here : List String) (now : ℕ) (before : Found) (ways : List Way)
    (way : Way)
    → last_fit req here now before ways ≡ found_way way
    → (before ≡ found_way way) ⊎ (Among way ways × (fit_of req here now way ≡ fits))
unfolding last_fit
last_fit_fits req here now before [] way e = inl e
last_fit_fits req here now before (w ∷ ways) way e =
    elim (last_fit_fits req here now (with_fit (fit_of req here now w) w before) ways way e) [
      | inl earlier ↦
          elim (with_fit_fits req here now (fit_of req here now w) w before way refl earlier) [
            | inl first ↦ inl first
            | inr (same, fit) ↦ inr (Among-first w way ways same, fit)
          ]
      | inr (there, fit) ↦ inr (Among-later w way ways there, fit)
    ]

asked_of :
    (named : List String) (way_method : String)
    → (not (is_empty named) && not (contains named way_method)) ≡ false
    → (named ≡ []) ⊎ (contains named way_method ≡ true)
asked_of [] way_method e = inl refl
asked_of (m ∷ ms) way_method e = inr (ground (arith, e))

some_age_of :
    (asked : Option ℕ) → elim asked [ none ↦ false | some n ↦ leb n 0 ] ≡ false → asked ≢ some 0
some_age_of none e h = ground (arith, h)
some_age_of (some n) e h = ground (arith, e, h)

recent_of :
    (asked : Option ℕ) (at age top : ℕ)
    → (is_some asked && (is_zero at || older asked age)) ≡ false
    → asked ≡ some top
    → age ≤ top
recent_of none at age top e h = ground (arith, h)
recent_of (some n) at age top e h = ground (arith, e, h)

module _ (env : Env) where
  -- A request that the shared session may answer: of a client of single sign-on, and not for a
  -- sign-in now.
  pub record MayShare (req : AuthorizeRequest) : Type 0 where
    pub single_sign_on : req.client.single_sign_on ≡ true
    pub no_login : req.sign_ask.login ≡ false
    pub no_selection : req.sign_ask.select_account ≡ false
    pub some_age : req.sign_ask.max_age ≢ some 0

  -- A way of signing in that answers a request.
  pub record IsFit (req : AuthorizeRequest) (now : ℕ) (way : Way) : Type 0 where
    pub in_force : now < way.ends
    pub on_offer : IsOffered env req.client way.way_method
    pub asked_for : (req.named ≡ []) ⊎ (contains req.named way.way_method ≡ true)
    pub recent : (top : ℕ) → req.sign_ask.max_age ≡ some top → unix now - way.auth_time ≤ top

  pub may_share-MayShare : (req : AuthorizeRequest) → may_share req ≡ true → MayShare req
  unfolding may_share
  may_share-MayShare req e = record {
    single_sign_on = ground (arith, e);
    no_login = ground (arith, e);
    no_selection = ground (arith, e);
    some_age = some_age_of req.sign_ask.max_age (ground (arith, e));
  }

  pub fit_of-IsFit :
      (req : AuthorizeRequest) (now : ℕ) (way : Way)
      → fit_of req (offered env req.client) now way ≡ fits
      → IsFit req now way
  unfolding fit_of
  fit_of-IsFit req now way e = record {
    in_force = ground (arith, e);
    on_offer = offered-IsOffered env req.client way.way_method (ground (arith, e));
    asked_for = asked_of req.named way.way_method (ground (arith, e));
    recent = λ top h.
        recent_of req.sign_ask.max_age way.auth_time (unix now - way.auth_time) top
          (ground (arith, e)) h;
  }
