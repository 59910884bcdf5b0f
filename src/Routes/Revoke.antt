-- ===== src/Routes/Revoke.antt =====
-- routes/refresh.go: `revoke`, which ends a session at its client's request, and every app session
-- of the browser with it.
pub mod Ended
use authbyte.Prelude.{String, Bool, true, false, not, ◌||◌, Option, none, some, ◌==◌}
use authbyte.Act.{pure, raise, refuse_if, ◌>>=◌, ◌>>◌}
use authbyte.Registry.SignIn.{ai_app}
use authbyte.Session.Types.{UserSession, RefreshGrant}
use authbyte.World.{Env, session_ended}
use authbyte.Store.Calls.{load_refresh, load_session, delete_session, delete_refresh}
use authbyte.Routes.Answers.{Handler, unauthorized, stored, present}
use authbyte.Routes.Membership.{audit}
use authbyte.Routes.Request.{Request, form_string}
use authbyte.Routes.ClientAuth.{authenticate_sign_in}
use authbyte.Routes.Dpop.{verify_endpoint_dpop}
use authbyte.Routes.Shared.{end_shared}
use authbyte.Routes.App.{revoke_app}

abbrev pub ended_sign_out : String
ended_sign_out = "sign-out"

module _ (env : Env) where
  -- the session first, then its grant, then the browser's others
  unfoldable pub end_bound : String → String → UserSession → Handler env (Unit {0})
  end_bound key sid sess = do
    stored env (delete_session env sid)
    stored env (delete_refresh env key)
    end_shared env sess.shared sess.subject ended_sign_out
    audit env (session_ended sess.subject sess.login_method)

  unfoldable pub revoke_session :
      String → RefreshGrant → String → Option UserSession → Handler env (Unit {0})
  revoke_session key grant thumbprint none = stored env (delete_refresh env key)
  revoke_session key grant thumbprint (some sess) = do
    refuse_if (sess.thumbprint == "" || not (sess.thumbprint == thumbprint)) unauthorized
    end_bound key grant.session_id sess

  unfoldable pub revoke_grant :
      String → String → String → Option RefreshGrant → Handler env (Unit {0})
  revoke_grant key client_id thumbprint none = pure tt
  revoke_grant key client_id thumbprint (some grant) = do
    refuse_if (grant.client_id == "" || not (grant.client_id == client_id)) unauthorized
    sess ← present env (load_session env grant.session_id)
    revoke_session key grant thumbprint sess

  unfoldable pub revoke_bound : Request → String → String → Handler env (Unit {0})
  revoke_bound req client_id token = do
    thumbprint ← verify_endpoint_dpop env req
    grant ← present env (load_refresh env (env.hash token))
    revoke_grant (env.hash token) client_id thumbprint grant

  unfoldable pub revoke : Request → Handler env (Unit {0})
  revoke req = do
    token ← form_string env req "token"
    client_id ← form_string env req "client_id"
    proven ← authenticate_sign_in env req client_id
    elim (ai_app env.registry client_id) [
      | some app ↦ revoke_app env app token
      | none ↦ revoke_bound req client_id token
    ]
