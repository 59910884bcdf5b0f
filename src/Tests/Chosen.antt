-- ===== src/Tests/Chosen.antt =====
-- The theorem on the choice of an assistant, for a person with one assistant and an AI app.
use Prim.Native.String.{◌++◌ as append}
use authbyte.Prelude.{String, ◌≡◌, refl, true, false, [], ◌∷◌, none, some, ok, lookup}
use authbyte.Browser.{
  Visit, Reply, code_at, opt_param, shown, choice_token, bound_here, from_own_page,
}
use authbyte.Register.{Register}
use authbyte.Registry.Rows.{SignInClient}
use authbyte.Session.Types.{Flow, session_expired}
use authbyte.Routes.Callback.Chosen.{choose_assistant, assistant_way, choose_bound}
use authbyte.Routes.Callback.Chosen.Owned.{IsChosen, choose_assistant-IsChosen}
use authbyte.Act.{pure, gets, ◌>>=◌, on_error, modify, refuse_if}
use authbyte.Store.Calls.{reach, found, consume_flow, save_app_code, replace_session, load_session}
use authbyte.Registry.SignIn.{ai_app}
use authbyte.Tests.Memory.{get_timed}
use authbyte.Routes.Answers.{or_internal, random_token}
use authbyte.Routes.Connection.{is_ai_app, persons_assistants}
use authbyte.Rolebyte.{person_key, answered_for, answer, settled, claim, assistants}
use authbyte.World.{Env, World}
use authbyte.Tests.Deployment.{env, registry, web, session}

abbrev binding : String
binding = "0123456789012345678901234567890123456789012"

abbrev app : SignInClient
app = record web { client_id = "app"; kind = "ai_app"; scopes = "files/doc:read" ∷ [] }

abbrev own_register : Register
own_register = record {
  State = Unit {0};
  wired = true;
  claims_door = λ s key. (true, s);
  memberships_door = λ s key. none;
  assistants_door = λ s key. some (record {
    subject_key = key;
    holds =
        record {
          key = "helper";
          name = "Helper";
          tenant_id = "acme";
          tenant_name = "Acme";
          scopes = "files/doc:read" ∷ [];
        }
        ∷ [];
  });
  admissions_door = λ s key login. (none, s);
}

abbrev app_env : Env
app_env = record env {
  register = own_register;
  registry = record registry { sign_in_clients = ("app", app) ∷ [] };
}

abbrev flow : Flow
flow = record {
  code_challenge = "verifier";
  code_challenge_method = "S256";
  app_redirect_uri = "https://portal.example/cb";
  spa_state = "app-state";
  entrust_redirect_uri = "";
  upstream = "eparaksts";
  requested_methods = [];
  client_id = "app";
  webeid_nonce = "";
  tenant = "";
  nonce = "";
  openid = false;
  client_nonce = "";
  forced_login = false;
  max_age = none;
  started = 0;
  binding = append "authbyte sign-in binding\0" binding;
  picker = false;
  request = "";
  app_scopes = "files/doc:read" ∷ [];
  session_id = "s1";
}

abbrev choosing : World app_env
choosing = record {
  now = 1000;
  outages = [];
  flows = ("assistant:ticket", (flow, 9000)) ∷ [];
  codes = [];
  sessions = ("s1", (session, 9000)) ∷ [];
  refresh = [];
  shared = [];
  shared_apps = [];
  connections = [];
  proofs = [];
  register = tt;
  people = tt;
  jar = [];
  draws = 0;
  events = [];
}

abbrev posted : Visit
posted = record {
  is_post = true;
  at_authorize = true;
  query = ("ticket", "ticket") ∷ [];
  form = ("csrf", append "authbyte sign-in choice\0" binding) ∷ ("way", "acme/helper") ∷ [];
  cookies = ("__Host-authbyte_signin", binding) ∷ [];
  origin = "https://id.example";
  accept_language = "en";
  secure_cookies = true;
}

abbrev given : Reply
given = code_at "https://portal.example/cb" "fresh" "app-state"

abbrev after_choice : World app_env
after_choice = (choose_assistant app_env posted choosing).1

chosen : choose_assistant app_env posted choosing ≡ (ok given, after_choice)
unfolding pure gets ◌>>=◌ on_error modify refuse_if opt_param shown choice_token bound_here
    from_own_page lookup assistant_way choose_bound choose_assistant reach found consume_flow
    save_app_code replace_session load_session session_expired ai_app get_timed or_internal
    random_token is_ai_app persons_assistants person_key answered_for answer settled claim
    assistants
chosen = refl

choose_assistant-IsChosen_example : IsChosen app_env posted choosing given after_choice
choose_assistant-IsChosen_example =
    choose_assistant-IsChosen app_env posted choosing given after_choice chosen
