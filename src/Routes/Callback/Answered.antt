-- ===== src/Routes/Callback/Answered.antt =====
-- routes/authorize.go: `callback`, a provider's answer to a sign-in.
-- A reason in the audit trail is its fixed words, without the values that some of them end with.
pub mod Bound
pub mod Proved
use text.Mathlib.Text.{starts_with}
use authbyte.Prelude.{
  ℕ, String, Bool, true, false, not, ◌&&◌, ◌||◌, List, [], ◌∷◌, Option, none, some, Result, ok, err,
  length, ltb, leb, ◌==◌, if◌then◌else◌,
}
use authbyte.Act.{Act, pure, raise, gets, on_error, ◌>>=◌, ◌>>◌}
use authbyte.Browser.{
  Visit, Reply, code_at, error_at, request_at, cannot_start, refused, opt_param, Screen, shown,
  set_cookie, bound_here, notice_cookie, notice_cancelled, notice_provider,
}
use authbyte.Identity.Resolver.{UserInfo, Identity, resolve}
use authbyte.Registry.SignIn.{sign_in_client}
use authbyte.Routes.Answers.{unauthorized, forbidden, internal, param_required}
use authbyte.Routes.Asking.{sign_in_moment, registered_amr}
use authbyte.Routes.Connection.{is_ai_app}
use authbyte.Routes.Callback.{
  NoSession, method_not_requested, mapping_failed, SignedIn, assistant_ticket_prefix,
  capture_capabilities, establish_session, stamp_sign_in, save_signed_in, ask_assistant, mint_code,
}
use authbyte.Routes.Membership.{audit}
use authbyte.Session.Types.{Flow, UserSession}
use authbyte.Store.Calls.{StoreError, consume_flow}
use authbyte.Upstream.{
  Entry, Tokens, ClaimsError, identity_code, bad_id_token, other, method_allowed, resolver_of,
}
use authbyte.World.{Env, World, AuditEvent, login_failure, login_success}

-- an assistant page's ticket, which no provider's return may spend
unfoldable pub is_assistant_ticket : String → Bool
is_assistant_ticket state = starts_with state assistant_ticket_prefix

module _ (env : Env) where
  open env use {sign_in}

  -- a failed sign-in, in the audit trail and to the browser
  unfoldable pub fail_with : {A : Type 0} → String → Reply → Screen env A
  fail_with reason answer = do shown env (audit env (login_failure reason)); raise answer

  unfoldable pub returned_here : Visit → Flow → Screen env (Unit {0})
  unfolding fail_with
  returned_here v flow =
      if bound_here env v flow.binding
      then pure tt
      else fail_with "the provider's answer reached a browser that did not start the sign-in"
          (cannot_start unauthorized)

  -- Whether a flow was sent to an entry: a flow that names none was sent to the only one.
  unfoldable pub sent_to : Flow → Entry → Bool
  sent_to flow entry =
      flow.upstream == entry.name
      || (flow.upstream == ""
          && (leb (length sign_in.upstreams.entries) 1 && ltb 0 (length sign_in.upstreams.entries)))

  -- whether an answer names another issuer than the provider's
  unfoldable pub other_issuer : Visit → Entry → Bool
  other_issuer v entry = elim (opt_param v.query "iss") [
    | none ↦ false
    | some iss ↦ not (entry.provider.issuer == "") && not (iss == entry.provider.issuer)
  ]

  unfoldable pub answered_by : Visit → Flow → Entry → Screen env (Unit {0})
  unfolding sent_to other_issuer fail_with
  answered_by v flow entry =
      if not (sent_to flow entry)
      then fail_with "the provider's answer arrived on another provider's return path"
          (cannot_start unauthorized)
      else if other_issuer v entry
      then fail_with "the provider's answer names another issuer" (cannot_start unauthorized)
      else pure tt

  abbrev pub notice_of : String → String
  notice_of error = if error == "access_denied" then notice_cancelled else notice_provider

  -- an error that the provider answers goes where the sign-in began
  unfoldable pub error_for : Visit → Entry → String → Flow → Screen env Reply
  unfolding returned_here answered_by
  error_for v entry error flow = do
    returned_here v flow
    answered_by v flow entry
    if flow.picker
        then shown env
            (do set_cookie env v notice_cookie (notice_of error); pure (request_at flow.request))
        else pure (error_at flow.app_redirect_uri error flow.spa_state)

  abbrev pub lost : {A : Type 0} → StoreError → Screen env A
  lost e = raise (cannot_start unauthorized)

  unfoldable pub answer_error : Visit → Entry → String → Option String → Screen env Reply
  unfolding is_assistant_ticket error_for
  answer_error v entry error none = raise (cannot_start unauthorized)
  answer_error v entry error (some state) =
      if is_assistant_ticket state
      then raise (cannot_start unauthorized)
      else (do flow ← on_error (consume_flow env state) lost; error_for v entry error flow)

  abbrev pub with_tokens : Option Tokens → Screen env Tokens
  with_tokens none = raise (refused internal)
  with_tokens (some t) = pure t

  abbrev pub with_claims : Result ClaimsError UserInfo → Screen env UserInfo
  with_claims (ok info) = pure info
  with_claims (err identity_code) = fail_with "upstream identity code" (refused unauthorized)
  with_claims (err bad_id_token) = fail_with "upstream id_token" (refused unauthorized)
  with_claims (err other) = raise (refused internal)

  abbrev pub in_time : Flow → Option ℕ → Screen env ℕ
  in_time flow none =
      fail_with "authentication older than the client allows"
        (error_at flow.app_redirect_uri "unmet_authentication_requirements" flow.spa_state)
  in_time flow (some at) = pure at

  abbrev pub no_session : {A : Type 0} → Flow → NoSession → Screen env A
  no_session flow method_not_requested =
      fail_with "login method not requested"
        (error_at flow.app_redirect_uri "unmet_authentication_requirements" flow.spa_state)
  no_session flow mapping_failed = fail_with "session establishment failed" (refused internal)

  -- the answer to a sign-in whose session is kept
  unfoldable pub answer_client : Visit → Flow → String → UserSession → Screen env Reply
  answer_client v flow key sess =
      if is_ai_app env flow.client_id
      then shown env (ask_assistant env v flow key sess)
      else shown env (do
        app_code ← mint_code env flow key
        pure (code_at flow.app_redirect_uri app_code flow.spa_state))

  unfoldable pub complete : Visit → Flow → Entry → Tokens → UserInfo → Identity → Screen env Reply
  unfolding answer_client
  complete v flow entry tokens info id = do
    now ← gets (λ w. w.now)
    at ← in_time flow (sign_in_moment info flow now)
    signed ← on_error (establish_session env flow id entry.key) (no_session flow)
    stamped ← shown env (
        stamp_sign_in env
          (record signed.sess {
            capabilities =
                capture_capabilities env (sign_in_client env.registry flow.client_id) entry.provider
                  tokens.access_token info id.login_method;
          })
          at (registered_amr info.amr))
    sess ← shown env (save_signed_in env v flow.client_id signed.key stamped)
    shown env (audit env (login_success sess.subject sess.loa sess.login_method))
    answer_client v flow signed.key sess

  -- what follows the flow, once it is known to be this browser's and this provider's
  unfoldable pub exchange_answer : Visit → Entry → String → Flow → Screen env Reply
  unfolding complete
  exchange_answer v entry code flow = do
    tokens ← with_tokens (entry.provider.exchange code flow.entrust_redirect_uri)
    info ← with_claims (entry.provider.claims tokens flow.nonce)
    let id = resolve sign_in.lower (resolver_of sign_in.lower entry.provider) info
    if not (method_allowed entry.provider id.login_method)
        then fail_with "login method not permitted via the upstream IdP" (refused forbidden)
        else complete v flow entry tokens info id

  abbrev pub given : String → Option String → Screen env String
  given name none = raise (refused (param_required name))
  given name (some s) = pure s

  unfoldable pub answer_code : Visit → Entry → Screen env Reply
  unfolding is_assistant_ticket returned_here answered_by exchange_answer
  answer_code v entry = do
    code ← given "code" (opt_param v.query "code")
    state ← given "state" (opt_param v.query "state")
    if is_assistant_ticket state then raise (cannot_start unauthorized) else (do
      flow ← on_error (consume_flow env state) lost
      returned_here v flow
      answered_by v flow entry
      exchange_answer v entry code flow)

  abbrev pub answer_or_error : Visit → Entry → Option String → Screen env Reply
  answer_or_error v entry none = answer_code v entry
  answer_or_error v entry (some error) = do
    shown env (audit env (login_failure "eParaksts IdP returned an error"))
    answer_error v entry error (opt_param v.query "state")

  unfoldable pub callback : Visit → Entry → Screen env Reply
  unfolding answer_error answer_code
  callback v entry = answer_or_error v entry (opt_param v.query "error")
