-- ===== src/Routes/Callback/Chosen/Given.antt =====
-- routes/aiapp.go: what the code for a chosen assistant leaves behind.
use authbyte.Prelude.{◌-◌, ◌+◌, String, ◌≡◌, sym, subst, false, some, ok, leb, arith, eq_refl}
use authbyte.Act.Runs.{>>=-eq-ok, pure-eq-ok, raise-eq-ok, settled-eq-ok}
use authbyte.Browser.{Reply, code_at}
use authbyte.Register.{Assistant}
use authbyte.Routes.Answers.Runs.{or_internal-eq-ok, random_token-eq-ok}
use authbyte.Routes.Callback.Answered.Proved.{shown-eq-ok}
use authbyte.Routes.Callback.Chosen.{code_as, working_as, or_restart, answer_as}
use authbyte.Routes.Shared.Browser.{app_code_ttl}
use authbyte.Session.Types.{Flow, UserSession}
use authbyte.Store.Calls.{Call}
use authbyte.Store.Answers.{replace_session-eq-ok, save_app_code-eq-ok}
use authbyte.World.{Env, World}

module _ (env : Env) where
  open env use {cache}

  pub or_restart-eq-ok :
      {A : Type 0} (m : Call env A) (w : World env) {a : A} {u : World env}
      → or_restart env m w ≡ (ok a, u)
      → m w ≡ (ok a, u)
  or_restart-eq-ok m w e = settled-eq-ok m _ w (λ r x b y h. raise-eq-ok _ x h) e

  -- The code given for an assistant, and the session that works as it.
  pub record IsGiven (flow : Flow) (sess : UserSession) (a : Assistant) (answer : Reply)
      (u : World env) : Type 0 where
    pub code : String
    pub answered : answer ≡ code_at flow.app_redirect_uri code flow.spa_state
    pub carries :
        cache.get u.codes u.now code
        ≡ some (record {
          session_id = flow.session_id;
          code_challenge = flow.code_challenge;
          code_challenge_method = flow.code_challenge_method;
          client_id = flow.client_id;
          redirect_uri = flow.app_redirect_uri;
          tenant = a.tenant_id;
          openid = false;
          nonce = "";
          assistant = a.key;
          app_scopes = flow.app_scopes;
        })
    pub works :
        cache.get u.sessions u.now flow.session_id
        ≡ some (record sess {
          client_id = flow.client_id;
          tenant = a.tenant_id;
          assistant = a.key;
          app_scopes = flow.app_scopes;
        })

  given_after :
      (flow : Flow) (sess : UserSession) (a : Assistant) (code : String) (w w1 w2 w3 : World env)
      → leb sess.expires_at w.now ≡ false
      → w1 ≡ record w {
        outages = w1.outages;
        sessions =
            cache.set w.sessions w.now flow.session_id
              (working_as flow a sess)
              (sess.expires_at - w.now);
      }
      → w2 ≡ record w1 { draws = w1.draws + 1 }
      → w3 ≡ record w2 {
        outages = w3.outages;
        codes = cache.set w2.codes w2.now code (code_as flow a) app_code_ttl;
      }
      → (cache.get w3.codes w3.now code ≡ some (code_as flow a))
        × (cache.get w3.sessions w3.now flow.session_id ≡ some (working_as flow a sess))
  given_after flow sess a code w w1 w2 w3 live h1 h2 h3 = (
    ground (
      arith,
      h3,
      eq_refl code,
      cache.get-set w2.codes w2.now code (code_as flow a) app_code_ttl w3.now code,
    ),
    ground (
      arith,
      live,
      h1,
      h2,
      h3,
      eq_refl flow.session_id,
      cache.get-set w.sessions w.now flow.session_id (working_as flow a sess)
          (sess.expires_at - w.now) w3.now flow.session_id,
    ),
  )

  pub answer_as-IsGiven :
      (flow : Flow) (sess : UserSession) (a : Assistant) (w : World env) {answer : Reply}
      {u : World env}
      → answer_as env flow sess a w ≡ (ok answer, u)
      → IsGiven flow sess a answer u × (u.register ≡ w.register)
  unfolding answer_as
  answer_as-IsGiven flow sess a w e =
      let (_, w1, replaced, e1) = >>=-eq-ok _ _ w e in
      let (code, w2, drawn, e2) = >>=-eq-ok _ _ w1 e1 in
      let (_, w3, saved, e3) = >>=-eq-ok _ _ w2 e2 in
      let (_, live, r1) =
        replace_session-eq-ok env flow.session_id (working_as flow a sess) w
          (or_restart-eq-ok _ w replaced) in
      let r2 = random_token-eq-ok env w1 (shown-eq-ok env _ w1 drawn) in
      let r3 =
        save_app_code-eq-ok env code (code_as flow a) app_code_ttl w2
          (or_internal-eq-ok env _ w2 (shown-eq-ok env _ w2 saved)) in
      let (same, stays) = pure-eq-ok (code_at flow.app_redirect_uri code flow.spa_state) w3 e3 in
      let (carries, works) = given_after flow sess a code w w1 w2 w3 live r1 r2 r3 in
      (
        record {
          code = code;
          answered = sym same;
          carries = subst (λ z. cache.get z.codes z.now code ≡ some (code_as flow a)) stays carries;
          works =
              subst
                (λ z. cache.get z.sessions z.now flow.session_id ≡ some (working_as flow a sess))
                stays works;
        },
        ground (arith, r1, r2, r3, stays),
      )
