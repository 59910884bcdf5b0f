-- ===== src/Routes/Revoke/Ended.antt =====
-- A revocation that is answered leaves nothing to renew with.
use authbyte.Prelude.{
  String, ◌≡◌, subst, Bool, true, false, List, ◌∷◌, Option, none, some, ok, arith, eq_iff, eq_refl,
}
use authbyte.Act.{pure, raise, on_error, gets, modify, refuse_if, ◌>>=◌}
use authbyte.Act.Runs.{>>=-eq-ok, pure-eq-ok}
use authbyte.Registry.Rows.{SignInClient}
use authbyte.Registry.SignIn.{ai_app}
use authbyte.Session.Types.{UserSession, RefreshGrant}
use authbyte.World.{Env, World}
use authbyte.Store.Calls.{reach, found, load_refresh, load_session, delete_refresh, delete_session}
use authbyte.Routes.Answers.{stored, present, attempt, ignored}
use authbyte.Routes.Request.{Request}
use authbyte.Routes.Ending.{
  NoGrant, NoSession, after-Gone, end_shared-Gone, audit-Gone, stored-Gone, delete_refresh-Gone,
}
use authbyte.Routes.Token.Refreshing.{form_string-eq-ok}
use authbyte.Routes.Revoke.{end_bound, revoke_session, revoke_grant, revoke_bound, revoke}
use authbyte.Routes.App.{revoke_found, revoke_granted, revoke_app}

module _ (env : Env) where
  open env use {cache}

  stored-delete_refresh :
      (key : String) (w v : World env) (u : Unit {0})
      → stored env (delete_refresh env key) w ≡ (ok u, v)
      → NoGrant env v key
  unfolding stored delete_refresh on_error reach ◌>>=◌ modify raise
  stored-delete_refresh key w v u h =
      ground (arith, eq_refl key, cache.get-del w.refresh key w.now key)

  stored-delete_session :
      (sid : String) (w v : World env) (u : Unit {0})
      → stored env (delete_session env sid) w ≡ (ok u, v)
      → NoSession env v sid
  unfolding stored delete_session on_error reach ◌>>=◌ modify raise
  stored-delete_session sid w v u h =
      ground (arith, eq_refl sid, cache.get-del w.sessions sid w.now sid)

  -- A session's end at its client's request leaves neither the session nor its grant, whatever the
  -- end of the browser's other sessions meets.
  pub end_bound_ends :
      (key sid : String) (sess : UserSession) (w v : World env) (u : Unit {0})
      → end_bound env key sid sess w ≡ (ok u, v)
      → NoSession env v sid × NoGrant env v key
  unfolding end_bound
  end_bound_ends key sid sess w v u h =
      let (u1, w1, session, rest1) = >>=-eq-ok _ _ w h in
      let (u2, w2, grant, rest2) = >>=-eq-ok _ _ w1 rest1 in
      let (u3, w3, others, last) = >>=-eq-ok _ _ w2 rest2 in
      let g2 = after-Gone env _ w1 w2 u2 (stored-Gone env _ (delete_refresh-Gone env key)) grant in
      let g3 = after-Gone env _ w2 w3 u3 (end_shared-Gone env sess.shared sess.subject _) others in
      let g4 = after-Gone env _ w3 v u (audit-Gone env _) last in
      (
        g4.no_session sid
            (g3.no_session sid (g2.no_session sid (stored-delete_session sid w w1 u1 session))),
        g4.no_grant key (g3.no_grant key (stored-delete_refresh key w1 w2 u2 grant)),
      )

  revoke_session-NoGrant :
      (key : String) (g : RefreshGrant) (thumbprint : String) (o : Option UserSession)
      (w v : World env) (u : Unit {0})
      → revoke_session env key g thumbprint o w ≡ (ok u, v)
      → NoGrant env v key
  unfolding revoke_session
  revoke_session-NoGrant key g thumbprint none w v u h = stored-delete_refresh key w v u h
  revoke_session-NoGrant key g thumbprint (some sess) w v u h =
      let (_, w1, _, last) = >>=-eq-ok _ _ w h in
      (end_bound_ends key g.session_id sess w1 v u last).1

  present-load_refresh :
      (key : String) (w v : World env)
      → present env (load_refresh env key) w ≡ (ok none, v)
      → NoGrant env v key
  unfolding present load_refresh on_error reach found ◌>>=◌ gets pure raise
  present-load_refresh key w v h = ground arith

  revoke_grant-NoGrant :
      (key client_id thumbprint : String) (o : Option RefreshGrant) (w0 w v : World env)
      (u : Unit {0})
      → present env (load_refresh env key) w0 ≡ (ok o, w)
      → revoke_grant env key client_id thumbprint o w ≡ (ok u, v)
      → NoGrant env v key
  unfolding revoke_grant
  revoke_grant-NoGrant key client_id thumbprint none w0 w v u there h =
      subst (λ z. NoGrant env z key) (pure-eq-ok tt w h).1 (present-load_refresh key w0 w there)
  revoke_grant-NoGrant key client_id thumbprint (some g) w0 w v u there h =
      let (_, w1, _, rest) = >>=-eq-ok _ _ w h in
      let (o, w2, _, last) = >>=-eq-ok _ _ w1 rest in
      revoke_session-NoGrant key g thumbprint o w2 v u last

  revoke_bound-NoGrant :
      (req : Request) (client_id token : String) (w v : World env) (u : Unit {0})
      → revoke_bound env req client_id token w ≡ (ok u, v)
      → NoGrant env v (env.hash token)
  unfolding revoke_bound
  revoke_bound-NoGrant req client_id token w v u h =
      let (thumbprint, w1, proved, rest) = >>=-eq-ok _ _ w h in
      let (o, w2, there, last) = >>=-eq-ok _ _ w1 rest in
      revoke_grant-NoGrant (env.hash token) client_id thumbprint o w1 w2 v u there last

  -- Once a client that is no AI app has its revocation answered, the store holds no grant under the
  -- refresh token that it named: the token renews nothing from then on.
  pub revoke-NoGrant :
      (req : Request) (token client_id : String) (w v : World env) (u : Unit {0})
      → req.required "token" ≡ some token
      → req.required "client_id" ≡ some client_id
      → ai_app env.registry client_id ≡ none
      → revoke env req w ≡ (ok u, v)
      → NoGrant env v (env.hash token)
  unfolding revoke
  revoke-NoGrant req token client_id w v u is_token is_client plain h =
      let (t, w1, read1, rest1) = >>=-eq-ok _ _ w h in
      let (c, w2, read2, rest2) = >>=-eq-ok _ _ w1 rest1 in
      let (_, w3, proven, rest3) = >>=-eq-ok _ _ w2 rest2 in
      let same1 : t ≡ token =
        ground (arith, is_token, form_string-eq-ok env req "token" w w1 t read1) in
      let same2 : c ≡ client_id =
        ground (arith, is_client, form_string-eq-ok env req "client_id" w1 w2 c read2) in
      let plain2 : ai_app env.registry c ≡ none = rw same2 plain in
      let rest4 : revoke_bound env req c t w3 ≡ (ok u, v) = rw plain2 at rest3 in
      subst (λ z. NoGrant env v (env.hash z)) same1 (revoke_bound-NoGrant req c t w3 v u rest4)

  -- Where the store answers nothing after the grant of an AI app is loaded, the app's revocation is
  -- answered as done, and every session and every grant is still there.
  pub revoke_app_outage :
      (app : SignInClient) (token : String) (g : RefreshGrant) (more : List Bool) (w : World env)
      → cache.get w.refresh w.now (env.hash token) ≡ some g
      → g.client_id ≡ app.client_id
      → w.outages ≡ false ∷ true ∷ true ∷ more
      → revoke_app env app token w ≡ (ok tt, record w { outages = more })
  unfolding revoke_app revoke_granted revoke_found present attempt ignored load_refresh load_session
      delete_refresh on_error reach found ◌>>=◌ gets pure raise refuse_if modify
  revoke_app_outage app token g more w there mine down =
      ground (arith, there, mine, down, eq_iff g.client_id app.client_id)
