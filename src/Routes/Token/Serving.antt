-- ===== src/Routes/Token/Serving.antt =====
-- What a service's own token carries.
use authbyte.Prelude.{
  contains, ◌↔◌, unrefused, true, String, ap, List, [], ◌∷◌, inl, inr, ◌⊎◌, Bool-cases, ◌≡◌, ◌≢◌,
  sym, ◌∙◌, false, Option, none, some, ok, arith, eq_iff, is_empty, ◌==◌, subst,
}
use authbyte.Act.{pure, raise, modify}
use authbyte.Act.Runs.{>>=-eq-ok, pure-eq-ok, refuse_if-eq-ok}
use authbyte.Claims.{Claims}
use authbyte.Issuer.{issue_service, sign}
use authbyte.Register.{Membership}
use authbyte.Registry.Rows.{Client}
use authbyte.Registry.Scopes.{join}
use authbyte.Registry.Grants.{authenticate, allowed_scopes}
use authbyte.World.{Env, World}
use authbyte.Routes.Answers.{TokenResponse}
use authbyte.Routes.Membership.{choose_membership, intersect_scopes, audit}
use authbyte.Routes.Membership.Choosing.{contains-intersect_scopes, Holds, find-Holds}
use authbyte.Routes.Membership.Minted.{Answers, ask_memberships-Answers, ask_memberships-eq-ok}
use authbyte.Rolebyte.Laws.{memberships_about}
use authbyte.Routes.Request.{Request, text_of}
use authbyte.Routes.Token.Service.{
  requested_scopes, chosen_of, service_account_scopes, service_scopes, answer_service,
  grant_client_credentials,
}
use authbyte.Routes.Token.Refreshing.{issued-eq-ok, form_string-eq-ok}
use authbyte.Routes.Token.Exchanging.{allowed-eq-ok}
use authbyte.Routes.ClientAuth.{Presented}
use authbyte.Routes.ClientAuth.Came.{CameWith, client_secret-eq-ok, registered-eq-ok}

named-Holds :
    (ms : List Membership) (tenant : String) (m : Membership)
    → tenant ≢ ""
    → (choose_membership ms tenant).chosen ≡ some m
    → Holds ms m × (m.tenant_id ≡ tenant)
unfolding choose_membership
named-Holds ms tenant m named h =
    let (held, same) =
      find-Holds (λ x. x.tenant_id == tenant) ms m (ground (arith, named, eq_iff tenant "")) in
    (held, (eq_iff m.tenant_id tenant).0 same)

module _ (env : Env) where
  open env use {registry, register}

  chosen_of-eq-ok :
      (o : Option Membership) (w v : World env) (m : Membership)
      → chosen_of env o w ≡ (ok m, v)
      → (o ≡ some m) × (w ≡ v)
  unfolding pure raise
  chosen_of-eq-ok none w v m h = absurd (ground arith)
  chosen_of-eq-ok (some x) w v m h = (ground arith, ground arith)

  -- The scopes of a service account in a tenant: of those it is granted, the ones that its
  -- membership there carries, as the register answers once the service's own invitations are
  -- claimed, and at least one. The register is not asked for anything else.
  abbrev pub IsAccount :
      World env → World env → String → String → List String → List String → Type 0
  IsAccount w v client_id tenant given scopes =
      (ms : List Membership) × (m : Membership) × Answers env v client_id ms
      × (v.register ≡ (register.claims_door w.register client_id).1)
      × Holds ms m
      × (m.tenant_id ≡ tenant)
      × (is_empty scopes ≡ false)
      × (scopes ≡ intersect_scopes given m.scopes)
      × ((s : String)
          → (contains scopes s ≡ true) ↔ ((contains given s ≡ true) × (contains m.scopes s ≡ true)))

  service_account_scopes-IsAccount :
      (client_id tenant : String) (given scopes : List String) (w v : World env)
      → tenant ≢ ""
      → service_account_scopes env client_id tenant given w ≡ (ok scopes, v)
      → IsAccount w v client_id tenant given scopes
  unfolding service_account_scopes
  service_account_scopes-IsAccount client_id tenant given scopes w v named h =
      let (_, w1, wired, rest1) = >>=-eq-ok _ _ w h in
      let (_, same1) = refuse_if-eq-ok _ _ w wired in
      let (ms, w2, asked, rest2) = >>=-eq-ok _ _ w1 rest1 in
      let (m, w3, chosen, rest3) = >>=-eq-ok _ _ w2 rest2 in
      let (_, w4, some_left, last) = >>=-eq-ok _ _ w3 rest3 in
      let (is_m, same2) = chosen_of-eq-ok (choose_membership ms tenant).chosen w2 w3 m chosen in
      let (held, there) = named-Holds ms tenant m named is_m in
      let (left, same3) = refuse_if-eq-ok _ _ w3 some_left in
      let (is_scopes, same4) = pure-eq-ok (intersect_scopes given m.scopes) w4 last in
      (
        ms,
        m,
        subst (λ z. Answers env z client_id ms) (same2 ∙ same3 ∙ same4)
            (ask_memberships-Answers env client_id w1 ms w2 asked),
        ap (λ z. z.register) (sym (same2 ∙ same3 ∙ same4))
            ∙ ap (λ z. z.register)
                (memberships_about env client_id w1 ms w2
                  (ask_memberships-eq-ok env client_id w1 asked)).2
            ∙ ap (λ z. (register.claims_door z.register client_id).1) (sym same1),
        held,
        there,
        subst (λ l. is_empty l ≡ false) is_scopes left,
        sym is_scopes,
        λ s.
            subst
              (λ l.
                (contains l s ≡ true) ↔ ((contains given s ≡ true) × (contains m.scopes s ≡ true)))
              is_scopes (contains-intersect_scopes given m.scopes s),
      )

  -- What a service's token states.
  abbrev pub IsServiceToken : Claims → String → String → String → List String → String → Type 0
  IsServiceToken tok client_id audience tenant scopes thumbprint =
      (tok.subject ≡ client_id)
      × (tok.audience ≡ audience ∷ [])
      × (tok.tenant ≡ tenant)
      × (tok.scope ≡ join scopes)
      × (tok.thumbprint ≡ thumbprint)

  issue_service-IsServiceToken :
      (client_id audience tenant : String) (scopes : List String) (thumbprint : String)
      (tok : Claims)
      → issue_service env (record {
        client_id = client_id;
        audience = audience;
        scopes = scopes;
        tenant = tenant;
        thumbprint = thumbprint;
      })
        ≡ some tok
      → IsServiceToken tok client_id audience tenant scopes thumbprint
  unfolding issue_service sign
  issue_service-IsServiceToken client_id audience tenant scopes thumbprint tok h =
      (ground arith, ground arith, ground arith, ground arith, ground arith)

  answer_service-IsServiceToken :
      (client_id audience tenant : String) (scopes : List String) (thumbprint : String)
      (w v : World env) (r : TokenResponse)
      → answer_service env client_id audience tenant scopes thumbprint w ≡ (ok r, v)
      → IsServiceToken r.access_token client_id audience tenant scopes thumbprint
        × (v.register ≡ w.register)
  unfolding answer_service audit modify
  answer_service-IsServiceToken client_id audience tenant scopes thumbprint w v r h =
      let (tok, w1, token, rest) = >>=-eq-ok _ _ w h in
      let (_, w2, audited, last) = >>=-eq-ok _ _ w1 rest in
      let (made, same1) = issued-eq-ok env _ w w1 tok token in
      let (is_r, same3) = pure-eq-ok _ w2 last in
      (
        subst (λ t. IsServiceToken t client_id audience tenant scopes thumbprint)
            (ap (λ t. t.access_token) is_r)
            (issue_service-IsServiceToken client_id audience tenant scopes thumbprint tok made),
        ground (arith, same1, audited, same3),
      )

  -- Either the service acts as itself, with just what the registry grants it, or as a service
  -- account of the tenant it named.
  abbrev pub IsServing :
      World env → World env → String → String → List String → List String → Type 0
  IsServing w v client_id tenant given scopes =
      ((tenant ≡ "") × (scopes ≡ given) × (v.register ≡ w.register))
      ⊎ ((tenant ≢ "") × IsAccount w v client_id tenant given scopes)

  service_scopes-IsServing :
      (client_id tenant : String) (given scopes : List String) (w v : World env)
      → service_scopes env client_id tenant given w ≡ (ok scopes, v)
      → IsServing w v client_id tenant given scopes
  unfolding service_scopes
  service_scopes-IsServing client_id tenant given scopes w v h = elim (Bool-cases (tenant == "")) [
    | inl itself ↦
        let (same, stays) = pure-eq-ok given w (rw itself at h) in
        inl ((eq_iff tenant "").0 itself, sym same, ap (λ z. z.register) (sym stays))
    | inr named ↦
        let is_named : tenant ≢ "" = λ e. ground (arith, named, eq_iff tenant "", e) in
        inr (
          is_named,
          service_account_scopes-IsAccount client_id tenant given scopes w v is_named
              (rw named at h),
        )
  ]

  -- The same between states whose registers are the same.
  IsServing-between :
      (w v x y : World env) (client_id tenant : String) (given scopes : List String)
      → w.register ≡ x.register
      → v.register ≡ y.register
      → IsServing w v client_id tenant given scopes
      → IsServing x y client_id tenant given scopes
  IsServing-between w v x y client_id tenant given scopes p q (inl (none_named, same, stays)) =
      inl (none_named, same, sym q ∙ stays ∙ p)
  IsServing-between w v x y client_id tenant given scopes p q
        (inr (named, (ms, m, answers, claimed, held, there, left, same, both))) =
      inr (
        named,
        (
          ms,
          m,
          subst
              (λ s.
                register.memberships_door s client_id
                ≡ some (record { subject_key = client_id; holds = ms }))
              q answers,
          sym q ∙ claimed ∙ ap (λ s. (register.claims_door s client_id).1) p,
          held,
          there,
          left,
          same,
          both,
        ),
      )

  abbrev pub IsService : Request → String → World env → Claims → World env → Type 0
  IsService req thumbprint w tok v =
      (client_id : String) × (audience : String) × (came : Presented) × (client : Client)
      × (given : List String) × (scopes : List String) × (req.required "client_id" ≡ some client_id)
      × (req.required "audience" ≡ some audience)
      × CameWith env req client_id came
      × (came.presented ≡ true)
      × (authenticate registry client_id (env.bytes came.secret) ≡ ok client)
      × (allowed_scopes registry client_id audience (requested_scopes (req.optional "scope"))
          ≡ ok given)
      × IsServing w v client_id (text_of (req.optional "tenant")) given scopes
      × IsServiceToken tok client_id audience (text_of (req.optional "tenant")) scopes thumbprint

  -- A service's token is answered only to a client that proved its secret, with what the registry
  -- grants it toward the audience it asked for: all of it, and no tenant, where it names none; and
  -- where it names a tenant, what its membership there carries of it, as the register answers once
  -- it is asked, never nothing. The register's state changes by that service's own claim only, and
  -- not at all where no tenant is named.
  pub grant_client_credentials_authorized :
      (req : Request) (thumbprint : String) (w v : World env) (r : TokenResponse)
      → grant_client_credentials env req thumbprint w ≡ (ok r, v)
      → IsService req thumbprint w r.access_token v
  unfolding grant_client_credentials
  grant_client_credentials_authorized req thumbprint w v r h =
      let (client_id, w1, read1, rest1) = >>=-eq-ok _ _ w h in
      let (came, w2, read2, rest2) = >>=-eq-ok _ _ w1 rest1 in
      let (_, w3, sent, rest3) = >>=-eq-ok _ _ w2 rest2 in
      let (audience, w4, read4, rest4) = >>=-eq-ok _ _ w3 rest3 in
      let (client, w5, proven, rest5) = >>=-eq-ok _ _ w4 rest4 in
      let (given, w6, granted, rest6) = >>=-eq-ok _ _ w5 rest5 in
      let (scopes, w7, narrowed, last) = >>=-eq-ok _ _ w6 rest6 in
      let tenant = text_of (req.optional "tenant") in
      let (there1, same1) = form_string-eq-ok env req "client_id" w w1 client_id read1 in
      let (by, same2) = client_secret-eq-ok env req client_id w1 w2 came read2 in
      let (shown, same3) = refuse_if-eq-ok _ _ w2 sent in
      let (there4, same4) = form_string-eq-ok env req "audience" w3 w4 audience read4 in
      let (is_client, same5) = registered-eq-ok env _ w4 w5 client proven in
      let (is_given, same6) = allowed-eq-ok env _ w5 w6 given granted in
      let start = sym (same1 ∙ same2 ∙ same3 ∙ same4 ∙ same5 ∙ same6) in
      let (token, left) =
        answer_service-IsServiceToken client_id audience tenant scopes thumbprint w7 v r last in
      (
        client_id,
        audience,
        came,
        client,
        given,
        scopes,
        there1,
        there4,
        by,
        unrefused came.presented shown,
        is_client,
        is_given,
        IsServing-between w6 w7 w v client_id tenant given scopes (ap (λ z. z.register) start)
            (sym left) (service_scopes-IsServing client_id tenant given scopes w6 w7 narrowed),
        token,
      )
