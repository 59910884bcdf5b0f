-- ===== src/Routes/Token/Refreshing.antt =====
-- What it takes to refresh a person's token, and what a refresh leaves.
use authbyte.Prelude.{
  String, true, ◌&&◌, ◌⊎◌, ap, [], ◌∷◌, inl, inr, Option-cases, ◌≡◌, ◌≢◌, sym, ◌∙◌, false, not,
  ◌||◌, Option, none, some, ok, arith, eq_iff, ◌==◌, subst,
}
use authbyte.Act.{Act, pure, raise, modify}
use authbyte.Act.Runs.{>>=-eq-ok, pure-eq-ok, on_error-eq-ok, refuse_if-eq-ok}
use authbyte.Claims.{Claims}
use authbyte.Issuer.{issue_user, sign}
use authbyte.Registry.Scopes.{join}
use authbyte.Registry.Rows.{SignInClient}
use authbyte.Session.Types.{UserSession, RefreshGrant, session_expired}
use authbyte.World.{Env, World}
use authbyte.Store.Calls.{StoreError}
use authbyte.Store.Answers.{load_refresh-eq-ok, load_session-eq-ok}
use authbyte.Routes.Answers.{TokenResponse, issued, stored, store_refusal}
use authbyte.Rolebyte.{person_key}
use authbyte.Registry.SignIn.{sign_in_client, membership_required}
use authbyte.Routes.ClientAuth.Came.{IsProven, authenticate_sign_in-eq-ok}
use authbyte.Routes.Membership.{
  MembershipOutcome, at_refresh, baseline_of, is_asked, user_scopes, audit,
}
use authbyte.Routes.Membership.Minted.{IsMember, user_scopes_minted}
use authbyte.Routes.Membership.Refreshed.{ClaimsOnly, user_scopes_refresh}
use authbyte.Routes.Request.{Request, form_string}
use authbyte.Routes.Kept.{Kept, chains, after-Kept, user_scopes-Leaves, audit-Leaves}
use authbyte.Routes.Token.Person.{
  Followed, user_token_of, refreshed_session, refresh_bound_session, answer_refresh, refresh_with,
  grant_refresh_token,
}

module _ (env : Env) where
  open env use {cache}

  pub stored-eq-ok :
      {A : Type 0} (m : Act (World env) StoreError A) (w v : World env) (a : A)
      → stored env m w ≡ (ok a, v)
      → m w ≡ (ok a, v)
  unfolding stored
  stored-eq-ok m w v a h = on_error-eq-ok m store_refusal w h

  -- The refresh token leads to this session, which is in force, for this client and this key.
  abbrev pub IsBound : World env → String → String → String → UserSession → Type 0
  IsBound w token client_id thumbprint sess =
      (g : RefreshGrant) × (cache.get w.refresh w.now (env.hash token) ≡ some g)
      × (g.client_id ≡ client_id)
      × (client_id ≢ "")
      × (cache.get w.sessions w.now g.session_id ≡ some sess)
      × (session_expired sess w.now ≡ false)
      × (sess.thumbprint ≡ thumbprint)
      × (thumbprint ≢ "")

  both : (a b : String) → (a == "" || not (a == b)) ≡ false → (a ≡ b) × (b ≢ "")
  both a b h = (ground (arith, eq_iff a b), λ e. ground (arith, eq_iff a b, eq_iff a "", e))

  refresh_bound_session-IsBound :
      (token client_id thumbprint : String) (w v : World env) (f : Followed)
      → refresh_bound_session env token client_id thumbprint w ≡ (ok f, v)
      → IsBound w token client_id thumbprint f.sess × Kept env w v × (v.register ≡ w.register)
  unfolding refresh_bound_session refreshed_session
  refresh_bound_session-IsBound token client_id thumbprint w v f h =
      let (f1, w4, followed, checked) = >>=-eq-ok _ _ w h in
      let (_, w5, key, last) = >>=-eq-ok _ _ w4 checked in
      let (g, w1, grant, rest) = >>=-eq-ok _ _ w followed in
      let (_, w2, client, rest2) = >>=-eq-ok _ _ w1 rest in
      let (s, w3, session, rest3) = >>=-eq-ok _ _ w2 rest2 in
      let (there, same1) = load_refresh-eq-ok env _ w (stored-eq-ok _ w w1 g grant) in
      let (is_client, same2) = refuse_if-eq-ok _ _ w1 client in
      let (kept, live, same3) = load_session-eq-ok env _ w2 (stored-eq-ok _ w2 w3 s session) in
      let (is_followed, same4) = pure-eq-ok _ w3 rest3 in
      let (is_key, same5) = refuse_if-eq-ok _ _ w4 key in
      let (is_last, same6) = pure-eq-ok _ w5 last in
      let (c1, c2) = both g.client_id client_id is_client in
      let (k1, k2) = both f1.sess.thumbprint thumbprint is_key in
      (
        (
          g,
          there,
          c1,
          c2,
          ground (arith, kept, same1, same2, is_followed, is_last),
          ground (arith, live, same1, same2, is_followed, is_last),
          ground (arith, k1, is_last),
          k2,
        ),
        (
          ground (arith, same1, same2, same3, same4, same5, same6),
          ground (arith, same1, same2, same3, same4, same5, same6),
          ground (arith, same1, same2, same3, same4, same5, same6),
          ground (arith, same1, same2, same3, same4, same5, same6),
        ),
        ground (arith, same1, same2, same3, same4, same5, same6),
      )

  pub issued-eq-ok :
      {A : Type 0} (o : Option A) (w v : World env) (a : A)
      → issued env o w ≡ (ok a, v)
      → (o ≡ some a) × (w ≡ v)
  unfolding issued pure raise
  issued-eq-ok none w v a h = absurd (ground arith)
  issued-eq-ok (some b) w v a h = (ground arith, ground arith)

  -- What a person's token states of its person, its key and its client.
  abbrev pub IsTokenOf : Claims → SignInClient → UserSession → MembershipOutcome → String → Type 0
  IsTokenOf tok c sess o thumbprint =
      (tok.subject ≡ sess.subject)
      × (tok.scope ≡ join o.scopes)
      × (tok.tenant ≡ o.tenant)
      × (tok.thumbprint ≡ thumbprint)
      × (tok.client_id ≡ c.client_id)
      × (tok.audience ≡ c.audience ∷ [])

  pub issue_user-IsTokenOf :
      (c : SignInClient) (sess : UserSession) (o : MembershipOutcome) (thumbprint : String)
      (tok : Claims)
      → issue_user env (user_token_of c sess o thumbprint) ≡ some tok
      → IsTokenOf tok c sess o thumbprint
  unfolding issue_user sign user_token_of
  issue_user-IsTokenOf c sess o thumbprint tok h =
      (ground arith, ground arith, ground arith, ground arith, ground arith, ground arith)

  answer_refresh-eq-ok :
      (c : SignInClient) (sess : UserSession) (o : MembershipOutcome) (refresh thumbprint : String)
      (w v : World env) (r : TokenResponse)
      → answer_refresh env c sess o refresh thumbprint w ≡ (ok r, v)
      → IsTokenOf r.access_token c sess o thumbprint
        × (r.refresh_token ≡ refresh)
        × (r.tenants ≡ o.choices)
        × Kept env w v
        × (v.register ≡ w.register)
  unfolding answer_refresh audit modify
  answer_refresh-eq-ok c sess o refresh thumbprint w v r h =
      let (tok, w1, token, rest) = >>=-eq-ok _ _ w h in
      let (_, w2, audited, last) = >>=-eq-ok _ _ w1 rest in
      let (made, same1) = issued-eq-ok _ w w1 tok token in
      let k = after-Kept env _ w1 w2 _ (audit-Leaves env _) audited in
      let (is_r, same2) = pure-eq-ok _ w2 last in
      (
        subst (λ t. IsTokenOf t c sess o thumbprint) (ap (λ t. t.access_token) is_r)
            (issue_user-IsTokenOf c sess o thumbprint tok made),
        ground (arith, is_r),
        ground (arith, is_r),
        subst (λ u. Kept env u v) (sym same1) (subst (Kept env w1) same2 k),
        ground (arith, same1, audited, same2),
      )

  -- What a refresh's token is minted with: the client's own baseline and no tenant, with the register
  -- left as it was, where the people of the session's client need no membership; and otherwise what
  -- the register answers about the session's person for the session's tenant, with nothing asked of
  -- it that changes it but claims.
  abbrev pub IsIssued : World env → World env → UserSession → MembershipOutcome → Type 0
  IsIssued w v sess o =
      (((env.register.wired && membership_required env.registry sess.client_id true) ≡ false)
        × (o.scopes ≡ baseline_of (sign_in_client env.registry sess.client_id))
        × (o.tenant ≡ "")
        × (o.choices ≡ [])
        × (v.register ≡ w.register))
      ⊎ (((env.register.wired && membership_required env.registry sess.client_id true) ≡ true)
          × IsMember env v sess sess.tenant o
          × ClaimsOnly env w.register v.register)

  user_scopes-IsIssued :
      (sess : UserSession) (w v : World env) (o : MembershipOutcome)
      → user_scopes env sess sess.client_id sess.tenant at_refresh w ≡ (ok o, v)
      → IsIssued w v sess o
  unfolding is_asked
  user_scopes-IsIssued sess w v o h =
      elim (user_scopes_minted env sess sess.client_id sess.tenant at_refresh w o v h) [
        | inl (free, scopes, tenant, choices, left) ↦
            inl (free, scopes, tenant, choices, ap (λ z. z.register) left)
        | inr (asked, member) ↦ inr (
          asked,
          member,
          subst (λ z. ClaimsOnly env w.register z.1.register) h
              (user_scopes_refresh env sess sess.client_id sess.tenant w),
        )
      ]

  -- The same between states whose registers are the same.
  IsIssued-between :
      (w v x y : World env) (sess : UserSession) (o : MembershipOutcome)
      → x.register ≡ w.register
      → y.register ≡ v.register
      → IsIssued w v sess o
      → IsIssued x y sess o
  IsIssued-between w v x y sess o p q (inl (free, scopes, tenant, choices, left)) =
      inl (free, scopes, tenant, choices, q ∙ left ∙ sym p)
  IsIssued-between w v x y sess o p q (inr (asked, (ms, answers, outcome), claims)) = inr (
    asked,
    (
      ms,
      subst
          (λ s.
            env.register.memberships_door s (person_key sess.subject)
            ≡ some (record { subject_key = person_key sess.subject; holds = ms }))
          (sym q) answers,
      outcome,
    ),
    subst (λ s. ClaimsOnly env s y.register) (sym p)
        (subst (ClaimsOnly env w.register) (sym q) claims),
  )

  refresh_with-IsBound :
      (c : SignInClient) (refresh client_id thumbprint : String) (w v : World env)
      (r : TokenResponse)
      → refresh_with env c refresh client_id thumbprint w ≡ (ok r, v)
      → (sess : UserSession) × (o : MembershipOutcome) × IsBound w refresh client_id thumbprint sess
        × IsIssued w v sess o
        × IsTokenOf r.access_token c sess o thumbprint
        × (r.refresh_token ≡ refresh)
        × (r.tenants ≡ o.choices)
        × Kept env w v
  unfolding refresh_with
  refresh_with-IsBound c refresh client_id thumbprint w v r h =
      let (f, w1, followed, rest) = >>=-eq-ok _ _ w h in
      let (o, w2, asked, last) = >>=-eq-ok _ _ w1 rest in
      let (is_bound, k1, s1) =
        refresh_bound_session-IsBound refresh client_id thumbprint w w1 f followed in
      let k2 =
        after-Kept env _ w1 w2 o
          (user_scopes-Leaves env f.sess f.sess.client_id f.sess.tenant at_refresh) asked in
      let (is_token, same, tenants, k3, s3) =
        answer_refresh-eq-ok c f.sess o refresh thumbprint w2 v r last in
      let joins = (chains env).joins in
      let issued_then =
        IsIssued-between w1 w2 w v f.sess o (sym s1) s3
          (user_scopes-IsIssued f.sess w1 w2 o asked) in
      (
        f.sess,
        o,
        is_bound,
        issued_then,
        is_token,
        same,
        tenants,
        joins w w2 v (joins w w1 w2 k1 k2) k3,
      )

  -- What it takes for a refresh, and what it leaves, from the state `w` to `v`.
  abbrev pub IsRefresh : Request → String → World env → TokenResponse → World env → Type 0
  IsRefresh req thumbprint w r v =
      (refresh : String) × (client_id : String) × (c : SignInClient) × (sess : UserSession)
      × (o : MembershipOutcome) × (req.required "refresh_token" ≡ some refresh)
      × (req.required "client_id" ≡ some client_id)
      × IsProven env req client_id c
      × IsBound w refresh client_id thumbprint sess
      × IsIssued w v sess o
      × IsTokenOf r.access_token c sess o thumbprint
      × (r.refresh_token ≡ refresh)
      × (r.tenants ≡ o.choices)
      × Kept env w v

  pub form_string-eq-ok :
      (req : Request) (name : String) (w v : World env) (s : String)
      → form_string env req name w ≡ (ok s, v)
      → (req.required name ≡ some s) × (w ≡ v)
  unfolding form_string pure raise
  form_string-eq-ok req name w v s h = elim (Option-cases (req.required name)) [
    | inl missing ↦ absurd (ground (arith, missing))
    | inr (a, there) ↦ (ground (arith, there), ground (arith, there))
  ]

  -- A refresh is answered only to a client that proved itself, for a refresh token that the store
  -- holds for this very client, whose session is in force and bound to the key that the request
  -- proved. The token names that session's person and that client and is bound to that key. Its
  -- scopes and tenant are the client's baseline where no membership is needed, and otherwise what the
  -- register answers about that person for the session's tenant. The refresh token stays the same,
  -- and no session and no grant is written: nothing is prolonged.
  pub grant_refresh_token_bound :
      (req : Request) (thumbprint : String) (w v : World env) (r : TokenResponse)
      → grant_refresh_token env req thumbprint w ≡ (ok r, v)
      → IsRefresh req thumbprint w r v
  unfolding grant_refresh_token
  grant_refresh_token_bound req thumbprint w v r h =
      let (refresh, w1, read1, rest1) = >>=-eq-ok _ _ w h in
      let (client_id, w2, read2, rest2) = >>=-eq-ok _ _ w1 rest1 in
      let (c, w3, proven, rest3) = >>=-eq-ok _ _ w2 rest2 in
      let (there1, same1) = form_string-eq-ok req "refresh_token" w w1 refresh read1 in
      let (there2, same2) = form_string-eq-ok req "client_id" w1 w2 client_id read2 in
      let (is_proven, same3) = authenticate_sign_in-eq-ok env req client_id w2 w3 c proven in
      let (sess, o, is_bound, was_issued, is_token, same, tenants, kept) =
        refresh_with-IsBound c refresh client_id thumbprint w3 v r rest3 in
      let start = sym (same1 ∙ same2 ∙ same3) in
      (
        refresh,
        client_id,
        c,
        sess,
        o,
        there1,
        there2,
        is_proven,
        subst (λ z. IsBound z refresh client_id thumbprint sess) start is_bound,
        subst (λ z. IsIssued z v sess o) start was_issued,
        is_token,
        same,
        tenants,
        subst (λ z. Kept env z v) start kept,
      )
