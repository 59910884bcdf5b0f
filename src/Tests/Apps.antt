-- ===== src/Tests/Apps.antt =====
-- The theorem on connections at a deployment with one AI app, connected as one assistant.
use authbyte.Prelude.{◌≡◌, refl, true, [], ◌∷◌, ok, lookup, insert, some}
use authbyte.Act.{gets, modify, raise, pure, refuse_if, on_error, ◌>>=◌}
use authbyte.Claims.{Claims, Actor, acting}
use authbyte.Issuer.{base}
use authbyte.Registry.Rows.{SignInClient}
use authbyte.Registry.SignIn.{ai_app}
use authbyte.Session.Types.{UserSession, session_expired, RefreshGrant}
use authbyte.World.{Env, World}
use authbyte.Store.Calls.{reach, found, load_session, replace_session}
use authbyte.Store.Index.{connections, connection_key, members, cut_space}
use authbyte.Routes.Answers.{present, stored}
use authbyte.Routes.Connection.{
  is_ai_app, find_connection, follow, follow_found, check_live, mark_used, record_use,
  app_connection_live,
}
use authbyte.Routes.Request.{Request}
use authbyte.Routes.App.{app_refresh}
use authbyte.Routes.App.Used.{app_refresh_used}
use authbyte.Routes.App.Live.{IsLive, app_connection_live-IsLive}
use authbyte.Tests.Deployment.{env, registry, web, session, request, blank}
use authbyte.Tests.Memory.{get_timed, left_timed, set_timed}

abbrev app : SignInClient
app = record web {
  client_id = "app";
  kind = "ai_app";
  audience = "https://mcp.example/";
  scopes = "files/doc:read" ∷ [];
  claims = [];
}

abbrev app_env : Env
app_env = record env { registry = record registry { sign_in_clients = ("app", app) ∷ [] } }

abbrev app_session : UserSession
app_session = record session { client_id = "app"; sid = "conn"; assistant = "helper" }

abbrev app_world : World app_env
app_world = record {
  now = 1000;
  outages = [];
  flows = [];
  codes = [];
  sessions = ("s2", (app_session, 9000)) ∷ [];
  refresh = [];
  shared = [];
  shared_apps = [];
  connections = ("acme/helper", (("conn s2", 9000) ∷ [], 9000)) ∷ [];
  proofs = [];
  register = tt;
  people = tt;
  jar = [];
  draws = 0;
  events = [];
}

abbrev app_token : Claims
app_token = record (base "person" "https://mcp.example/" 60000) {
  tenant = "acme";
  client_id = "app";
  login_method = "assistant";
  act = acting "helper" Actor.none;
  sid = "conn";
}

abbrev app_left : World app_env
app_left = (app_connection_live app_env "svc" app_token "conn" app_world).1

is_live : app_connection_live app_env "svc" app_token "conn" app_world ≡ (ok tt, app_left)
unfolding app_connection_live is_ai_app ai_app find_connection follow follow_found check_live
    mark_used record_use present stored reach found load_session replace_session session_expired
    connections connection_key members cut_space get_timed left_timed set_timed lookup insert gets
    modify raise pure refuse_if on_error ◌>>=◌
is_live = refl

app_connection_live-IsLive_example :
    (is_ai_app app_env app_token.client_id ≡ true) × IsLive app_env app_world app_token "conn"
app_connection_live-IsLive_example =
    app_connection_live-IsLive app_env "svc" app_token "conn" app_world app_left tt is_live

abbrev used_grant : RefreshGrant
used_grant = record { session_id = "s2"; client_id = "app"; rotated = true }

abbrev used_world : World app_env
used_world = record app_world { refresh = ("old", (used_grant, 9000)) ∷ [] }

abbrev old_request : Request
old_request = record request { peek = λ name. "old" }

old_there : get_timed used_world.refresh 1000 "old" ≡ some used_grant
unfolding get_timed lookup
old_there = refl

app_refresh_used_example :
    ¬ (app_refresh app_env old_request app used_world ≡ (ok blank, used_world))
app_refresh_used_example =
    app_refresh_used app_env old_request app used_grant used_world used_world blank old_there refl
