-- ===== src/Routes/App.antt =====
-- routes/aiapp.go: an AI app at the token and the revocation endpoint. It holds no key; its refresh
-- token is good once.
pub mod Reused
pub mod Live
pub mod Used
use authbyte.Prelude.{
  ℕ, String, Bool, true, false, not, ◌&&◌, ◌||◌, List, [], ◌∷◌, Option, none, some, ◌==◌,
  if◌then◌else◌,
}
use authbyte.Act.{pure, raise, gets, modify, refuse_if, on_error, ◌>>=◌, ◌>>◌}
use authbyte.Issuer.{issue_app}
use authbyte.Registry.Scopes.{join}
use authbyte.Registry.Rows.{SignInClient}
use authbyte.Registry.Validate.Address.{same_resource}
use authbyte.Session.Types.{UserSession, AppCode, RefreshGrant, Connection}
use authbyte.World.{Env, World, user_token_issued, login_failure}
use authbyte.Store.Calls.{
  StoreError, not_found, Call, consume_app_code, load_session, replace_session, save_refresh,
  load_refresh, take_refresh, delete_refresh,
}
use authbyte.Store.Index.{add_connection}
use authbyte.Routes.Answers.{
  Handler, seconds, TokenResponse, Refusal, unauthorized, oauth, store_refusal, issued, stored,
  present, attempt, ignored, random_token,
}
use authbyte.Routes.Membership.{audit}
use authbyte.Routes.Request.{Request}
use authbyte.Routes.Pkce.{verify_pkce}
use authbyte.Routes.ClientAuth.{authenticate_sign_in}
use authbyte.Routes.Connection.{login_assistant, whole_second, connection_scopes, end_connection}

abbrev pub token_type_bearer : String
token_type_bearer = "Bearer"

-- the lowest assurance
abbrev pub loa_low : String
loa_low = "low"

-- an entry that is gone is an invalid grant, and any other failure the store's own refusal
unfoldable pub grant_refusal : StoreError → Refusal
grant_refusal not_found = oauth "invalid_grant"
grant_refusal e = store_refusal e

module _ (env : Env) where
  -- whether the request names another resource than the app's, or does not name it at the exchange
  unfoldable pub wrong_target : SignInClient → String → List String → Bool
  wrong_target app grant [] = grant == "authorization_code"
  wrong_target app grant (r ∷ []) = not (same_resource env.net app.audience r)
  wrong_target app grant rs = true

  abbrev pub granted_call : {A : Type 0} → Call env A → Handler env A
  granted_call m = on_error m (λ e. raise (grant_refusal e))

  unfoldable pub answer_app_token :
      SignInClient → UserSession → List String → String → Handler env TokenResponse
  answer_app_token app sess scopes refresh = do
    tok ← issued env (
        issue_app env (record {
          subject = sess.subject;
          audience = app.audience;
          client_id = app.client_id;
          scopes = scopes;
          tenant = sess.tenant;
          assistant = sess.assistant;
          loa = loa_low;
          login_method = login_assistant;
          connection = sess.sid;
          ttl = env.app_token_ttl;
        }))
    audit env (user_token_issued sess.subject loa_low login_assistant app.audience scopes)
    pure (record {
      access_token = tok;
      token_type = token_type_bearer;
      expires_in = seconds tok.lifetime;
      refresh_token = refresh;
      id_token = none;
      issued_token_type = "";
      scope = join scopes;
      capabilities = none;
      tenants = [];
    })

  -- the session that an exchange leaves: its refresh token, its public name, and when it was made
  abbrev pub connected : UserSession → String → String → ℕ → UserSession
  connected sess refresh sid now = record sess {
    refresh_key = env.hash refresh;
    sid = sid;
    connected_at = whole_second now;
  }

  -- from the code that was consumed: the app's session
  unfoldable pub app_code_session :
      SignInClient → AppCode → String → String → Handler env UserSession
  app_code_session app code verifier redirect_uri = do
    refuse_if
        (not (code.client_id == app.client_id)
          || not (code.redirect_uri == redirect_uri)
          || code.assistant == ""
          || not (verify_pkce env verifier code.code_challenge code.code_challenge_method))
        (oauth "invalid_grant")
    sess ← on_error (load_session env code.session_id) (λ e. raise (oauth "invalid_grant"))
    refuse_if (not (sess.assistant == code.assistant) || not (sess.client_id == app.client_id))
        (oauth "invalid_grant")
    pure sess

  -- the connection is made: its refresh grant, its session and its entry in the index
  unfoldable pub make_connection : SignInClient → String → UserSession → Handler env (Unit {0})
  make_connection app sid sess = do
    stored env (
        save_refresh env sess.refresh_key
          (record { session_id = sid; client_id = app.client_id; rotated = false }) sess.expires_at)
    stored env (replace_session env sid sess)
    stored env (
        add_connection env sess.tenant sess.assistant (record { id = sess.sid; session_id = sid })
          sess.expires_at)

  unfoldable pub app_code_exchange : Request → SignInClient → Handler env TokenResponse
  app_code_exchange req app = do
    let code = req.peek "code"
    let verifier = req.peek "code_verifier"
    let redirect_uri = req.peek "redirect_uri"
    refuse_if (code == "" || verifier == "" || redirect_uri == "") (oauth "invalid_request")
    app_code ← granted_call (consume_app_code env code)
    sess ← app_code_session app app_code verifier redirect_uri
    scopes ← connection_scopes env app app_code.session_id sess []
    refresh ← random_token env
    sid ← random_token env
    now ← gets (λ w. w.now)
    let sess = connected sess refresh sid now
    make_connection app app_code.session_id sess
    answer_app_token app sess scopes refresh

  -- a refresh token used again: the connection ends
  unfoldable pub reused_refresh : {A : Type 0} → String → UserSession → String → Handler env A
  reused_refresh sid sess key = do
    audit env
        (login_failure "an AI app's refresh token used a second time; the connection is ended")
    end_connection env sid sess (key ∷ [])
    raise (oauth "invalid_grant")

  -- once the token is claimed: the next one, and the mark on this one
  unfoldable pub rotate :
      SignInClient → String → String → UserSession → List String → Handler env TokenResponse
  rotate app key sid sess scopes = do
    next ← random_token env
    let next_key = env.hash next
    stored env (
        save_refresh env next_key
          (record { session_id = sid; client_id = app.client_id; rotated = false }) sess.expires_at)
    stored env (
        save_refresh env key
          (record { session_id = sid; client_id = app.client_id; rotated = true }) sess.expires_at)
    let sess = record sess { refresh_key = next_key }
    granted_call (replace_session env sid sess)
    answer_app_token app sess scopes next

  unfoldable pub renew :
      SignInClient → String → RefreshGrant → UserSession → Handler env TokenResponse
  renew app key grant sess = do
    scopes ← connection_scopes env app grant.session_id sess (key ∷ [])
    claimed ← granted_call (take_refresh env key)
    if claimed.rotated || not (claimed.session_id == grant.session_id)
        then reused_refresh grant.session_id sess key
        else rotate app key grant.session_id sess scopes

  -- once the session is looked for: a connection that has ended takes its grant with it
  unfoldable pub refresh_with_session :
      SignInClient → String → RefreshGrant → Option UserSession → Handler env TokenResponse
  refresh_with_session app key grant none = do
    ignored env (delete_refresh env key)
    raise (oauth "invalid_grant")
  refresh_with_session app key grant (some sess) =
      if grant.rotated then reused_refresh grant.session_id sess key else renew app key grant sess

  unfoldable pub app_refresh : Request → SignInClient → Handler env TokenResponse
  app_refresh req app = do
    let token = req.peek "refresh_token"
    refuse_if (token == "") (oauth "invalid_request")
    let key = env.hash token
    grant ← granted_call (load_refresh env key)
    refuse_if (not (grant.client_id == app.client_id)) (oauth "invalid_grant")
    sess ← present env (load_session env grant.session_id)
    refresh_with_session app key grant sess

  unfoldable pub grant_for_app : Request → String → SignInClient → Handler env TokenResponse
  grant_for_app req grant app = do
    proven ← authenticate_sign_in env req app.client_id
    refuse_if (wrong_target app grant (req.peek_multi "resource")) (oauth "invalid_target")
    if grant == "authorization_code" then app_code_exchange req app else app_refresh req app

  -- once the session is looked for; any failure to load it deletes the grant
  unfoldable pub revoke_found : String → RefreshGrant → Option UserSession → Handler env (Unit {0})
  revoke_found key grant none = ignored env (delete_refresh env key)
  revoke_found key grant (some sess) = end_connection env grant.session_id sess (key ∷ [])

  unfoldable pub revoke_granted :
      SignInClient → String → Option RefreshGrant → Handler env (Unit {0})
  revoke_granted app key none = pure tt
  revoke_granted app key (some grant) = do
    refuse_if (not (grant.client_id == app.client_id)) unauthorized
    sess ← attempt env (load_session env grant.session_id)
    revoke_found key grant sess

  unfoldable pub revoke_app : SignInClient → String → Handler env (Unit {0})
  revoke_app app token = do
    grant ← present env (load_refresh env (env.hash token))
    revoke_granted app (env.hash token) grant
