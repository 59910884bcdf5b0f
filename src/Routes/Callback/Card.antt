-- ===== src/Routes/Callback/Card.antt =====
-- routes/webeid.go and `cardAnswer` of routes/signin.go: a sign-in with the card, whose answer the
-- card's engine checks against the challenge that the page was shown with.
use Prim.Native.String.{◌++◌ as append}
use authbyte.Prelude.{
  String, Bool, false, not, ◌||◌, List, [], ◌∷◌, Option, none, some, contains, ◌==◌, if◌then◌else◌,
}
use authbyte.Act.{Act, pure, raise, gets, on_error, ◌>>=◌, ◌>>◌}
use authbyte.Browser.{
  AuthParams, Visit, Reply, code_at, cannot_start, refused, get_param, Screen, shown, bind_browser,
  browser_binding, bound_here, choice_token, from_own_page,
}
use authbyte.Identity.Methods.{login_web_eid, provider_web_eid}
use authbyte.Identity.Resolver.{Identity}
use authbyte.Registry.Rows.{SignInClient}
use authbyte.Registry.SignIn.{sign_in_client}
use authbyte.Routes.Answers.{Handler, unauthorized, internal}
use authbyte.Routes.Asking.{unix}
use authbyte.Routes.Authorize.{AuthorizeRequest, offered, page_ways}
use authbyte.Routes.Authorize.Endpoint.{read, refuse_at_client, turn_away, show_page, again}
use authbyte.Routes.Callback.{
  NoSession, method_not_requested, mapping_failed, signs, establish_session, stamp_sign_in,
  save_signed_in, ask_assistant, mint_code,
}
use authbyte.Routes.Callback.Answered.{is_assistant_ticket}
use authbyte.Routes.Connection.{is_ai_app}
use authbyte.Routes.Membership.{audit}
use authbyte.Session.Types.{Flow, UserSession, Capabilities, trim_left, trim_right}
use authbyte.SignIn.{CardSubject, CardEngine}
use authbyte.Store.Calls.{consume_flow}
use authbyte.World.{Env, World, login_failure, login_success}

-- What a card's answer came to: it is refused, it is answered already, or it failed.
pub data CardError : Type 0 where
  card_refused card_failed : CardError
  card_answered : Reply → CardError

abbrev pub card_amr : List String
card_amr = "hwk" ∷ "mfa" ∷ "pin" ∷ "sc" ∷ []

-- the identity of a card's holder, whose code is written in the platform's one spelling
unfoldable pub card_identity : CardSubject → String → Identity
card_identity s code =
    let name = trim_right (trim_left (append s.given_name (append " " s.surname))) in
    record {
      subject = "";
      idp_subject = code;
      name = if name == "" then s.common_name else name;
      given_name = s.given_name;
      family_name = s.surname;
      serial_number = code;
      email = "";
      loa = "high";
      login_method = login_web_eid;
      issuer = "";
      directory_guest = false;
    }

module _ (env : Env) where
  open env use {sign_in}

  unfoldable pub webeid_identity : CardSubject → Option Identity
  unfolding card_identity
  webeid_identity s = elim (sign_in.canonical s.id_code s.country_code) [
    | none ↦ none
    | some code ↦ some (card_identity s code)
  ]

  unfoldable pub card_capabilities : CardEngine → Option SignInClient → String → Option Capabilities
  card_capabilities engine client token =
      let certificate = engine.certificate token in
      if not (signs env client) || certificate == ""
      then none
      else some (record {
        sign_identity_id = "";
        signing_certificate = "";
        auth_certificate = certificate;
        seals = [];
        seals_known = false;
      })

  abbrev pub CardAct : Type 0 → Type 0
  CardAct A = Act (World env) CardError A

  -- an audited refusal of the card's answer
  abbrev pub refuse_card : {A : Type 0} → String → CardAct A
  refuse_card reason = do
    on_error (audit env (login_failure reason)) (λ e. raise card_failed)
    raise card_refused

  -- a part of the handler whose refusal is answered as it stands
  abbrev pub or_answered : {A : Type 0} → Handler env A → CardAct A
  or_answered m = on_error m (λ e. raise (card_answered (refused e)))

  abbrev pub validated : CardEngine → String → String → CardAct CardSubject
  validated engine token nonce = elim (engine.validate token nonce) [
    | none ↦ refuse_card "web eid token validation failed"
    | some s ↦ pure s
  ]

  abbrev pub keyed : Option Identity → CardAct Identity
  keyed none = refuse_card "web eid identity code"
  keyed (some id) = pure id

  abbrev pub no_session : {A : Type 0} → NoSession → CardAct A
  no_session method_not_requested = refuse_card "login method not requested"
  no_session mapping_failed = do
    on_error (audit env (login_failure "session establishment failed")) (λ e. raise card_failed)
    raise card_failed

  unfoldable pub finish_card : Visit → Flow → String → UserSession → CardAct String
  finish_card v flow key sess =
      if is_ai_app env flow.client_id
      then (do
        or_answered (audit env (login_success sess.subject sess.loa sess.login_method))
        page ← or_answered (ask_assistant env v flow key sess)
        raise (card_answered page))
      else (do
        app_code ← on_error (mint_code env flow key) (λ e. raise card_failed)
        or_answered (audit env (login_success sess.subject sess.loa sess.login_method))
        pure app_code)

  -- the code for the client of a sign-in with the card
  unfoldable pub complete_card : CardEngine → Visit → Flow → String → CardAct String
  unfolding webeid_identity card_capabilities finish_card
  complete_card engine v flow token = do
    subject ← validated engine token flow.webeid_nonce
    id ← keyed (webeid_identity subject)
    signed ← on_error (establish_session env flow id provider_web_eid) no_session
    now ← gets (λ w. w.now)
    stamped ← or_answered (
        stamp_sign_in env
          (record signed.sess {
            capabilities =
                card_capabilities engine (sign_in_client env.registry flow.client_id) token;
          })
          (unix now) card_amr)
    sess ← or_answered (save_signed_in env v flow.client_id signed.key stamped)
    finish_card v flow signed.key sess

  module _ (encode : AuthParams → String) where
    abbrev pub settle_card : AuthorizeRequest → String → CardError → Screen env String
    settle_card req binding card_refused = do
      page ← shown env (show_page env encode req binding "cardfailed")
      raise page
    settle_card req binding card_failed = raise (refused internal)
    settle_card req binding (card_answered answer) = raise answer

    -- none: the challenge was used, has ended, or was never this page's
    unfoldable pub card_flow : AuthorizeRequest → Option Flow → Option Flow
    card_flow req none = none
    card_flow req (some flow) =
        if flow.webeid_nonce == "" || flow.binding == "" || not (flow.client_id == req.client_id)
        then none
        else some flow

    abbrev pub code_or_page : CardEngine → Visit → AuthorizeRequest → Option Flow → Screen env Reply
    code_or_page engine v req none = again env encode v req "expired"
    code_or_page engine v req (some flow) =
        if not (bound_here env v flow.binding)
        then (do
          shown env
              (audit env (login_failure "card answer in a browser the sign-in did not start in"))
          raise (cannot_start unauthorized))
        else (do
          bound ← shown env (bind_browser env v)
          app_code ←
              on_error (complete_card engine v flow (get_param v.form "token"))
                (settle_card req (browser_binding env v))
          pure (code_at flow.app_redirect_uri app_code flow.spa_state))

    abbrev pub consumed : String → Screen env (Option Flow)
    consumed state = on_error (consume_flow env state >>= λ flow. pure (some flow)) (λ e. pure none)

    -- an answer from this service's own page, with its token
    unfoldable pub card_posted : CardEngine → Visit → AuthorizeRequest → Screen env Reply
    unfolding complete_card card_flow
    card_posted engine v req =
        let state = get_param v.form "state" in
        if browser_binding env v == ""
        then again env encode v req "expired"
        else if not (get_param v.form "csrf" == choice_token env (browser_binding env v))
        then turn_away env encode "card answer without the page's token"
        else if is_assistant_ticket state
        then again env encode v req "expired"
        else (do flow ← consumed state; code_or_page engine v req (card_flow req flow))

    abbrev pub offers_card : Option (List String) → Bool
    offers_card none = false
    offers_card (some ways) = contains ways login_web_eid

    -- The handler of a deployment that reads cards.
    unfoldable pub card_answer : CardEngine → Visit → Screen env Reply
    unfolding card_posted
    card_answer engine v =
        if not (from_own_page env v)
        then turn_away env encode "card answer sent from another origin"
        else (do
          req ← read env encode v.query
          if req.sign_ask.is_none
              then refuse_at_client env encode req "login_required"
              else if not (offers_card (page_ways env req (offered env req.client)))
              then turn_away env encode "card answer for a request the card is not offered to"
              else card_posted engine v req)
