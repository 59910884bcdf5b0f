-- ===== src/Routes/Token/Person.antt =====
-- routes/token.go and routes/refresh.go: a person's token, by the code of a sign-in or by the
-- refresh token of the session that it began.
use authbyte.Prelude.{String, false, not, ◌||◌, Option, none, some, contains, ◌==◌, if◌then◌else◌}
use authbyte.Act.{pure, refuse_if, ◌>>=◌, ◌>>◌}
use authbyte.Claims.{IdTokenClaims}
use authbyte.Issuer.{UserTokenInput, IdTokenInput, issue_user, issue_id}
use authbyte.Registry.Rows.{
  SignInClient, claim_name, claim_given_name, claim_family_name, claim_serial_number,
}
use authbyte.Session.Types.{UserSession, AppCode}
use authbyte.World.{Env, user_token_issued}
use authbyte.Store.Calls.{
  consume_app_code, load_session, replace_session, save_refresh, load_refresh,
}
use authbyte.Routes.Answers.{
  Handler, seconds, TokenResponse, unauthorized, issued, stored, or_unauthorized, random_token,
}
use authbyte.Routes.Membership.{MembershipOutcome, at_sign_in, at_refresh, user_scopes, audit}
use authbyte.Routes.Request.{Request, form_string}
use authbyte.Routes.Pkce.{verify_pkce}
use authbyte.Routes.ClientAuth.{authenticate_sign_in}

abbrev pub token_type_dpop : String
token_type_dpop = "DPoP"

unfoldable pub listed_claim : SignInClient → String → String → String
listed_claim c claim value = if contains c.claims claim then value else ""

-- The session and the key it is kept under, that a refresh token leads to.
pub record Followed : Type 0 where
  pub sess : UserSession
  pub sid : String

-- What both grants issue to a person's client.
unfoldable pub user_token_of :
    SignInClient → UserSession → MembershipOutcome → String → UserTokenInput
unfolding listed_claim
user_token_of c sess outcome thumbprint = record {
  subject = sess.subject;
  audience = c.audience;
  scopes = outcome.scopes;
  loa = sess.loa;
  login_method = sess.login_method;
  name = listed_claim c claim_name sess.name;
  given_name = listed_claim c claim_given_name sess.given_name;
  family_name = listed_claim c claim_family_name sess.family_name;
  serial_number = listed_claim c claim_serial_number sess.serial_number;
  tenant = outcome.tenant;
  thumbprint = thumbprint;
  client_id = c.client_id;
}

abbrev pub id_token_of : SignInClient → UserSession → AppCode → IdTokenInput
id_token_of c sess code = record {
  subject = sess.subject;
  client_id = c.client_id;
  nonce = code.nonce;
  auth_time = sess.auth_time;
  acr = sess.login_method;
  amr = sess.amr;
  sid = sess.sid;
}

module _ (env : Env) where
  -- an ID token, where the sign-in asked for one
  unfoldable pub asked_id_token :
      SignInClient → UserSession → AppCode → Handler env (Option IdTokenClaims)
  asked_id_token c sess code =
      if code.openid
      then (do id ← issued env (issue_id env (id_token_of c sess code)); pure (some id))
      else pure none

  -- the session that a code exchange leaves
  abbrev pub bound : UserSession → String → String → MembershipOutcome → String → UserSession
  bound sess thumbprint client_id outcome refresh = record sess {
    thumbprint = thumbprint;
    client_id = client_id;
    tenant = outcome.tenant;
    refresh_key = env.hash refresh;
  }

  -- from the code that was consumed: its echo, its verifier and its session
  unfoldable pub code_session : AppCode → String → String → String → Handler env UserSession
  code_session code client_id redirect_uri verifier = do
    refuse_if (not (code.client_id == client_id) || not (code.redirect_uri == redirect_uri))
        unauthorized
    refuse_if (not (verify_pkce env verifier code.code_challenge code.code_challenge_method))
        unauthorized
    or_unauthorized env (load_session env code.session_id)

  unfoldable pub answer_code :
      SignInClient → AppCode → UserSession → MembershipOutcome → String → Handler env TokenResponse
  answer_code c code sess outcome refresh = do
    tok ← issued env (issue_user env (user_token_of c sess outcome sess.thumbprint))
    id_token ← asked_id_token c sess code
    audit env (user_token_issued sess.subject sess.loa sess.login_method c.audience outcome.scopes)
    pure (record {
      access_token = tok;
      token_type = token_type_dpop;
      expires_in = seconds tok.lifetime;
      refresh_token = refresh;
      id_token = id_token;
      issued_token_type = "";
      scope = "";
      capabilities = sess.capabilities;
      tenants = outcome.choices;
    })

  unfoldable pub exchange_code :
      SignInClient → String → String → String → String → String → Handler env TokenResponse
  exchange_code c client_id redirect_uri code verifier thumbprint = do
    app_code ← or_unauthorized env (consume_app_code env code)
    sess ← code_session app_code client_id redirect_uri verifier
    outcome ← user_scopes env sess client_id app_code.tenant at_sign_in
    refresh ← random_token env
    let sess = bound sess thumbprint client_id outcome refresh
    stored env (
        save_refresh env sess.refresh_key
          (record { session_id = app_code.session_id; client_id = client_id; rotated = false })
          sess.expires_at)
    stored env (replace_session env app_code.session_id sess)
    answer_code c app_code sess outcome refresh

  unfoldable pub grant_authorization_code : Request → String → Handler env TokenResponse
  grant_authorization_code req thumbprint = do
    code ← form_string env req "code"
    verifier ← form_string env req "code_verifier"
    client_id ← form_string env req "client_id"
    redirect_uri ← form_string env req "redirect_uri"
    c ← authenticate_sign_in env req client_id
    exchange_code c client_id redirect_uri code verifier thumbprint

  unfoldable pub refreshed_session : String → String → Handler env Followed
  refreshed_session token client_id = do
    grant ← stored env (load_refresh env (env.hash token))
    refuse_if (grant.client_id == "" || not (grant.client_id == client_id)) unauthorized
    sess ← stored env (load_session env grant.session_id)
    pure (record { sess = sess; sid = grant.session_id })

  unfoldable pub refresh_bound_session : String → String → String → Handler env Followed
  refresh_bound_session token client_id thumbprint = do
    f ← refreshed_session token client_id
    refuse_if (f.sess.thumbprint == "" || not (f.sess.thumbprint == thumbprint)) unauthorized
    pure f

  unfoldable pub answer_refresh :
      SignInClient → UserSession → MembershipOutcome → String → String → Handler env TokenResponse
  answer_refresh c sess outcome refresh thumbprint = do
    tok ← issued env (issue_user env (user_token_of c sess outcome thumbprint))
    audit env (user_token_issued sess.subject sess.loa sess.login_method c.audience outcome.scopes)
    pure (record {
      access_token = tok;
      token_type = token_type_dpop;
      expires_in = seconds tok.lifetime;
      refresh_token = refresh;
      id_token = none;
      issued_token_type = "";
      scope = "";
      capabilities = none;
      tenants = outcome.choices;
    })

  unfoldable pub refresh_with : SignInClient → String → String → String → Handler env TokenResponse
  refresh_with c refresh client_id thumbprint = do
    f ← refresh_bound_session refresh client_id thumbprint
    outcome ← user_scopes env f.sess f.sess.client_id f.sess.tenant at_refresh
    answer_refresh c f.sess outcome refresh thumbprint

  unfoldable pub grant_refresh_token : Request → String → Handler env TokenResponse
  grant_refresh_token req thumbprint = do
    refresh ← form_string env req "refresh_token"
    client_id ← form_string env req "client_id"
    c ← authenticate_sign_in env req client_id
    refresh_with c refresh client_id thumbprint
