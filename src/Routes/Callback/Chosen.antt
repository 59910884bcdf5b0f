-- ===== src/Routes/Callback/Chosen.antt =====
-- routes/aiapp.go: `chooseAssistant`, the person's choice of the assistant that an AI app works as.
pub mod Given
pub mod Owned
use Prim.Native.String.{◌++◌ as append}
use authbyte.Prelude.{
  ℕ, String, Bool, true, false, not, ◌&&◌, ◌||◌, List, [], ◌∷◌, Option, none, some, Result, ok, err,
  find, ◌==◌, if◌then◌else◌,
}
use authbyte.Act.{pure, raise, on_error, ◌>>=◌, ◌>>◌}
use authbyte.Browser.{
  Visit, Reply, code_at, cannot_start, get_param, opt_param, Screen, shown, browser_binding,
  bound_here, choice_token, from_own_page,
}
use authbyte.Register.{Assistant}
use authbyte.Routes.Answers.{
  Handler, unauthorized, forbidden, param_required, random_token, or_internal,
}
use authbyte.Routes.Callback.{assistant_ticket_prefix}
use authbyte.Routes.Callback.Answered.{fail_with}
use authbyte.Routes.Connection.{is_ai_app, persons_assistants}
use authbyte.Routes.Shared.Browser.{app_code_ttl}
use authbyte.Session.Types.{Flow, AppCode, UserSession}
use authbyte.Store.Calls.{
  StoreError, Call, consume_flow, load_session, replace_session, save_app_code,
}
use authbyte.World.{Env, World}

-- an assistant as the page's form names it
unfoldable pub assistant_way : Assistant → String
assistant_way a = append a.tenant_id (append "/" a.key)

-- the code for an AI app that works as an assistant
abbrev pub code_as : Flow → Assistant → AppCode
code_as flow a = record {
  session_id = flow.session_id;
  code_challenge = flow.code_challenge;
  code_challenge_method = flow.code_challenge_method;
  client_id = flow.client_id;
  redirect_uri = flow.app_redirect_uri;
  tenant = a.tenant_id;
  openid = false;
  nonce = "";
  assistant = a.key;
  app_scopes = flow.app_scopes;
}

abbrev pub working_as : Flow → Assistant → UserSession → UserSession
working_as flow a sess = record sess {
  client_id = flow.client_id;
  tenant = a.tenant_id;
  assistant = a.key;
  app_scopes = flow.app_scopes;
}

module _ (env : Env) where
  -- a call of the store whose failure starts the sign-in again
  abbrev pub or_restart : {A : Type 0} → Call env A → Screen env A
  or_restart m = on_error m (λ e. raise (cannot_start unauthorized))

  unfoldable pub answer_as : Flow → UserSession → Assistant → Screen env Reply
  answer_as flow sess a = do
    or_restart (replace_session env flow.session_id (working_as flow a sess))
    app_code ← shown env (random_token env)
    shown env (or_internal env (save_app_code env app_code (code_as flow a) app_code_ttl))
    pure (code_at flow.app_redirect_uri app_code flow.spa_state)

  abbrev pub answer_chosen : Flow → UserSession → Option Assistant → Screen env Reply
  answer_chosen flow sess none =
      fail_with env "assistant choice names no assistant of the person's" (cannot_start forbidden)
  answer_chosen flow sess (some a) = answer_as flow sess a

  -- the person's own assistants, as the register answers now
  unfoldable pub choose_for : Visit → Flow → Screen env Reply
  unfolding answer_as
  choose_for v flow = do
    sess ← or_restart (load_session env flow.session_id)
    own ← shown env (persons_assistants env sess.subject)
    answer_chosen flow sess (find (λ a. assistant_way a == get_param v.form "way") own)

  unfoldable pub choose_bound : Visit → Flow → Screen env Reply
  unfolding choose_for
  choose_bound v flow =
      if flow.session_id == ""
      then raise (cannot_start unauthorized)
      else if not (bound_here env v flow.binding)
      then fail_with env "assistant choice in a browser the sign-in did not start in"
          (cannot_start unauthorized)
      else if not (is_ai_app env flow.client_id)
      then raise (cannot_start unauthorized)
      else choose_for v flow

  abbrev pub ticketed : Visit → Option String → Screen env Reply
  ticketed v none = raise (cannot_start (param_required "ticket"))
  ticketed v (some ticket) = do
    flow ← or_restart (consume_flow env (append assistant_ticket_prefix ticket))
    choose_bound v flow

  unfoldable pub choose_assistant : Visit → Screen env Reply
  choose_assistant v =
      if not (from_own_page env v)
      then fail_with env "assistant choice sent from another origin" (cannot_start forbidden)
      else if browser_binding env v == ""
          || not (get_param v.form "csrf" == choice_token env (browser_binding env v))
      then fail_with env "assistant choice without the page's token" (cannot_start forbidden)
      else ticketed v (opt_param v.query "ticket")
