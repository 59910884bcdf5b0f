-- ===== src/Routes/Token/Redeeming.antt =====
-- What it takes to exchange a person's code, and what the exchange leaves.
use authbyte.Prelude.{
  String, ap, ◌≡◌, sym, ◌∙◌, false, none, some, ok, arith, eq_iff, eq_refl, ◌-◌, subst,
}
use authbyte.Act.{Act}
use authbyte.Act.Runs.{>>=-eq-ok, pure-eq-ok, on_error-eq-ok, refuse_if-eq-ok}
use authbyte.Act.Leaves.{Leaves, Leaves-if, Leaves-bind, Leaves-pure}
use authbyte.Registry.Rows.{SignInClient}
use authbyte.Session.Types.{UserSession, AppCode, RefreshGrant, session_expired}
use authbyte.World.{Env, World}
use authbyte.Store.Calls.{StoreError, save_refresh, replace_session}
use authbyte.Store.Answers.{
  consume_app_code-eq-ok, load_session-eq-ok, save_refresh-eq-ok, replace_session-eq-ok,
}
use authbyte.Routes.Answers.{unauthorized, TokenResponse, or_unauthorized, stored}
use authbyte.Routes.Membership.{MembershipOutcome, at_sign_in}
use authbyte.Routes.Request.{Request}
use authbyte.Routes.Pkce.{verify_pkce_iff}
use authbyte.Routes.Kept.{
  Kept, chains, after-Kept, issued-Leaves, audit-Leaves, authenticate_sign_in-Leaves,
  user_scopes-Leaves, random_token-Leaves,
}
use authbyte.Routes.Token.Person.{
  asked_id_token, bound, code_session, answer_code, exchange_code, grant_authorization_code,
}
use authbyte.Routes.Token.Refreshing.{
  stored-eq-ok, form_string-eq-ok, issued-eq-ok, IsTokenOf, issue_user-IsTokenOf,
}

module _ (env : Env) where
  open env use {cache}

  or_unauthorized-eq-ok :
      {A : Type 0} (m : Act (World env) StoreError A) (w v : World env) (a : A)
      → or_unauthorized env m w ≡ (ok a, v)
      → m w ≡ (ok a, v)
  unfolding or_unauthorized
  or_unauthorized-eq-ok m w v a h = on_error-eq-ok m (λ e. unauthorized) w h

  -- A code that a request may exchange: its echo and its verifier are the request's, by S256.
  abbrev pub IsRedeemed : AppCode → String → String → String → Type 0
  IsRedeemed code client_id redirect_uri verifier =
      (code.client_id ≡ client_id)
      × (code.redirect_uri ≡ redirect_uri)
      × (code.code_challenge_method ≡ "S256")
      × (env.hash verifier ≡ code.code_challenge)

  code_session-IsRedeemed :
      (code : AppCode) (client_id redirect_uri verifier : String) (w v : World env)
      (s : UserSession)
      → code_session env code client_id redirect_uri verifier w ≡ (ok s, v)
      → IsRedeemed code client_id redirect_uri verifier
        × (cache.get w.sessions w.now code.session_id ≡ some s)
        × (session_expired s w.now ≡ false)
        × (v ≡ record w { outages = v.outages })
  unfolding code_session
  code_session-IsRedeemed code client_id redirect_uri verifier w v s h =
      let (_, w1, echoed, rest1) = >>=-eq-ok _ _ w h in
      let (_, w2, proved, rest2) = >>=-eq-ok _ _ w1 rest1 in
      let (echo, same1) = refuse_if-eq-ok _ _ w echoed in
      let (proof, same2) = refuse_if-eq-ok _ _ w1 proved in
      let (there, live, left) =
        load_session-eq-ok env _ w2 (or_unauthorized-eq-ok _ w2 v s rest2) in
      let (m, c) =
        (verify_pkce_iff env verifier code.code_challenge code.code_challenge_method).0
          (ground (arith, proof)) in
      (
        (
          ground (arith, echo, eq_iff code.client_id client_id),
          ground (arith, echo, eq_iff code.redirect_uri redirect_uri),
          m,
          c,
        ),
        ground (arith, there, same1, same2),
        ground (arith, live, same1, same2),
        ground (arith, left, same1, same2),
      )

  asked_id_token-Leaves :
      (c : SignInClient) (sess : UserSession) (code : AppCode)
      → Leaves (Kept env) (asked_id_token env c sess code)
  unfolding asked_id_token
  asked_id_token-Leaves c sess code =
      Leaves-if (chains env) code.openid _ _
        (Leaves-bind (chains env) _ _ (issued-Leaves env _) λ id. Leaves-pure (chains env) _)
        (Leaves-pure (chains env) _)

  answer_code-eq-ok :
      (c : SignInClient) (code : AppCode) (sess : UserSession) (o : MembershipOutcome)
      (refresh : String) (w v : World env) (r : TokenResponse)
      → answer_code env c code sess o refresh w ≡ (ok r, v)
      → IsTokenOf env r.access_token c sess o sess.thumbprint
        × (r.refresh_token ≡ refresh)
        × Kept env w v
  unfolding answer_code
  answer_code-eq-ok c code sess o refresh w v r h =
      let (tok, w1, token, rest1) = >>=-eq-ok _ _ w h in
      let (id, w2, asked, rest2) = >>=-eq-ok _ _ w1 rest1 in
      let (_, w3, audited, last) = >>=-eq-ok _ _ w2 rest2 in
      let (made, same1) = issued-eq-ok env _ w w1 tok token in
      let k2 = after-Kept env _ w1 w2 id (asked_id_token-Leaves c sess code) asked in
      let k3 = after-Kept env _ w2 w3 _ (audit-Leaves env _) audited in
      let (is_r, same4) = pure-eq-ok _ w3 last in
      (
        subst (λ t. IsTokenOf env t c sess o sess.thumbprint) (ap (λ t. t.access_token) is_r)
            (issue_user-IsTokenOf env c sess o sess.thumbprint tok made),
        ground (arith, is_r),
        subst (λ u. Kept env u v) (sym same1)
            (subst (Kept env w1) same4 ((chains env).joins w1 w2 w3 k2 k3)),
      )

  -- What an exchange leaves of its session: it is kept until the end it had, for this client, this
  -- key and this outcome, and the refresh token's grant leads to it.
  abbrev pub IsSaved : World env → World env → String → UserSession → String → String → Type 0
  IsSaved w v sid sess refresh client_id =
      (cache.get v.refresh v.now (env.hash refresh)
        ≡ some (record { session_id = sid; client_id = client_id; rotated = false }))
      × (cache.get v.sessions v.now sid ≡ some sess)
      × (session_expired sess v.now ≡ false)
      × (v.codes ≡ w.codes)

  save-IsSaved :
      (sid : String) (sess : UserSession) (refresh client_id : String) (w w1 v : World env)
      (a b : Unit {0})
      → stored env
          (save_refresh env
            (env.hash refresh)
            (record { session_id = sid; client_id = client_id; rotated = false })
            sess.expires_at)
          w
        ≡ (ok a, w1)
      → stored env (replace_session env sid sess) w1 ≡ (ok b, v)
      → IsSaved w v sid sess refresh client_id
  unfolding session_expired
  save-IsSaved sid sess refresh client_id w w1 v a b saved replaced =
      let g : RefreshGrant = record { session_id = sid; client_id = client_id; rotated = false } in
      let ttl = sess.expires_at - w.now in
      let (open1, left1) = save_refresh-eq-ok env _ g _ w (stored-eq-ok env _ w w1 a saved) in
      let (_, open2, left2) =
        replace_session-eq-ok env sid sess w1 (stored-eq-ok env _ w1 v b replaced) in
      (
        ground (
          arith,
          left1,
          left2,
          open1,
          eq_refl (env.hash refresh),
          cache.get-set w.refresh w.now (env.hash refresh) g ttl w.now (env.hash refresh),
        ),
        ground (
          arith,
          left1,
          left2,
          open1,
          eq_refl sid,
          cache.get-set w.sessions w.now sid sess ttl w.now sid,
        ),
        ground (arith, left1, left2, open1),
        ground (arith, left1, left2),
      )

  -- The grant and the session of an exchange are still there when it has answered.
  grant-Kept :
      (u v : World env) (refresh token : String) (g : RefreshGrant)
      → Kept env u v
      → token ≡ refresh
      → cache.get u.refresh u.now (env.hash refresh) ≡ some g
      → cache.get v.refresh v.now (env.hash token) ≡ some g
  grant-Kept u v refresh token g (now, _, kept, _) same h = rw same (rw kept (rw now h))

  session-Kept :
      (u v : World env) (sid : String) (make : String → UserSession) (refresh token : String)
      → Kept env u v
      → token ≡ refresh
      → cache.get u.sessions u.now sid ≡ some (make refresh)
      → cache.get v.sessions v.now sid ≡ some (make token)
  session-Kept u v sid make refresh token (now, kept, _, _) same h = rw same (rw kept (rw now h))

  code_gone :
      (w w1 w2 w3 w4 w6 v : World env) (code : String)
      → w1 ≡ record w { outages = w1.outages; codes = cache.del w.codes code }
      → w2 ≡ record w1 { outages = w2.outages }
      → Kept env w2 w3
      → Kept env w3 w4
      → w6.codes ≡ w4.codes
      → Kept env w6 v
      → cache.get v.codes v.now code ≡ none
  code_gone w w1 w2 w3 w4 w6 v code left left2 k3 k4 same k7 =
      ground
        (arith, left, left2, k3, k4, same, k7, eq_refl code, cache.get-del w.codes code v.now code)

  -- What an exchange goes by and what it leaves, from the state `w` to `v`.
  abbrev pub IsExchanged :
      World env
      → World env
      → SignInClient
      → String
      → String
      → String
      → String
      → String
      → TokenResponse
      → Type 0
  IsExchanged w v c client_id redirect_uri code verifier thumbprint r =
      (app_code : AppCode) × (sess : UserSession) × (o : MembershipOutcome) × (cache.get w.codes
          w.now code
        ≡ some app_code)
      × IsRedeemed app_code client_id redirect_uri verifier
      × (cache.get w.sessions w.now app_code.session_id ≡ some sess)
      × (session_expired sess w.now ≡ false)
      × IsTokenOf env r.access_token c sess o thumbprint
      × (cache.get v.codes v.now code ≡ none)
      × (cache.get v.refresh v.now (env.hash r.refresh_token)
          ≡ some
              (record { session_id = app_code.session_id; client_id = client_id; rotated = false }))
      × (cache.get v.sessions v.now app_code.session_id
          ≡ some (bound env sess thumbprint client_id o r.refresh_token))

  exchange_code-IsExchanged :
      (c : SignInClient) (client_id redirect_uri code verifier thumbprint : String)
      (w v : World env) (r : TokenResponse)
      → exchange_code env c client_id redirect_uri code verifier thumbprint w ≡ (ok r, v)
      → IsExchanged w v c client_id redirect_uri code verifier thumbprint r
  unfolding exchange_code
  exchange_code-IsExchanged c client_id redirect_uri code verifier thumbprint w v r h =
      let (app_code, w1, taken, rest1) = >>=-eq-ok _ _ w h in
      let (sess, w2, followed, rest2) = >>=-eq-ok _ _ w1 rest1 in
      let (o, w3, asked, rest3) = >>=-eq-ok _ _ w2 rest2 in
      let (refresh, w4, drawn, rest4) = >>=-eq-ok _ _ w3 rest3 in
      let (u5, w5, saved, rest5) = >>=-eq-ok _ _ w4 rest4 in
      let (u6, w6, replaced, last) = >>=-eq-ok _ _ w5 rest5 in
      let sess2 = bound env sess thumbprint client_id o refresh in
      let (there, left) =
        consume_app_code-eq-ok env code w (or_unauthorized-eq-ok _ w w1 app_code taken) in
      let (is_redeemed, kept, live, left2) =
        code_session-IsRedeemed app_code client_id redirect_uri verifier w1 w2 sess followed in
      let k3 =
        after-Kept env _ w2 w3 o (user_scopes-Leaves env sess client_id app_code.tenant at_sign_in)
          asked in
      let k4 = after-Kept env _ w3 w4 refresh (random_token-Leaves env) drawn in
      let (grant, session, _, codes) =
        save-IsSaved app_code.session_id sess2 refresh client_id w4 w5 w6 u5 u6 saved replaced in
      let (is_token, same, k7) = answer_code-eq-ok c app_code sess2 o refresh w6 v r last in
      (
        app_code,
        sess,
        o,
        there,
        is_redeemed,
        ground (arith, kept, left),
        ground (arith, live, left),
        is_token,
        code_gone w w1 w2 w3 w4 w6 v code left left2 k3 k4 codes k7,
        grant-Kept w6 v refresh r.refresh_token _ k7 same grant,
        session-Kept w6 v app_code.session_id (bound env sess thumbprint client_id o) refresh
            r.refresh_token k7 same session,
      )

  -- The code, the verifier, the client and the redirect address that a request names.
  abbrev pub IsAnswered : Request → String → World env → TokenResponse → World env → Type 0
  IsAnswered req thumbprint w r v =
      (code : String) × (verifier : String) × (client_id : String) × (redirect_uri : String)
      × (c : SignInClient) × (u : World env) × (req.required "code" ≡ some code)
      × (req.required "code_verifier" ≡ some verifier)
      × (req.required "client_id" ≡ some client_id)
      × (req.required "redirect_uri" ≡ some redirect_uri)
      × Kept env w u
      × IsExchanged u v c client_id redirect_uri code verifier thumbprint r

  -- A person's code is exchanged only where the store holds it, for the client and the redirect
  -- address that it was issued for, by a verifier whose S256 hash is its challenge, and while its
  -- session is in force. The token names that session's person and is bound to the proved key. The
  -- code is gone afterwards, the session is bound to the key and the client, and the refresh token
  -- that is answered is kept as its hash and leads this client to that session.
  pub grant_authorization_code_redeemed :
      (req : Request) (thumbprint : String) (w v : World env) (r : TokenResponse)
      → grant_authorization_code env req thumbprint w ≡ (ok r, v)
      → IsAnswered req thumbprint w r v
  unfolding grant_authorization_code
  grant_authorization_code_redeemed req thumbprint w v r h =
      let (code, w1, read1, rest1) = >>=-eq-ok _ _ w h in
      let (verifier, w2, read2, rest2) = >>=-eq-ok _ _ w1 rest1 in
      let (client_id, w3, read3, rest3) = >>=-eq-ok _ _ w2 rest2 in
      let (redirect_uri, w4, read4, rest4) = >>=-eq-ok _ _ w3 rest3 in
      let (c, w5, proven, last) = >>=-eq-ok _ _ w4 rest4 in
      let (there1, same1) = form_string-eq-ok env req "code" w w1 code read1 in
      let (there2, same2) = form_string-eq-ok env req "code_verifier" w1 w2 verifier read2 in
      let (there3, same3) = form_string-eq-ok env req "client_id" w2 w3 client_id read3 in
      let (there4, same4) = form_string-eq-ok env req "redirect_uri" w3 w4 redirect_uri read4 in
      let start = same1 ∙ same2 ∙ same3 ∙ same4 in
      (
        code,
        verifier,
        client_id,
        redirect_uri,
        c,
        w5,
        there1,
        there2,
        there3,
        there4,
        subst (λ z. Kept env z w5) (sym start)
            (after-Kept env _ w4 w5 c (authenticate_sign_in-Leaves env req client_id) proven),
        exchange_code-IsExchanged c client_id redirect_uri code verifier thumbprint w5 v r last,
      )
