-- ===== src/Routes/Callback.antt =====
-- routes/authorize.go and routes/capabilities.go: what follows a person's sign-in, at a provider or by
-- the card, and a provider's answer.
pub mod Answered
pub mod Card
pub mod Chosen
use authbyte.Prelude.{
  ℕ, ◌+◌, String, Bool, true, false, not, ◌&&◌, ◌||◌, List, [], ◌∷◌, ◌++◌, Option, none, some,
  Result, ok, err, is_empty, is_some, ◌==◌, if◌then◌else◌,
}
use authbyte.Act.{Act, pure, raise, gets, modify, on_error, ◌>>=◌, ◌>>◌}
use authbyte.Browser.{Visit, Reply, code_at, assistant_page, refused, Screen, shown, bind_browser}
use authbyte.Identity.Catalog.{SignIdentity, SealCandidate, select_signing, select_auth, seals}
use authbyte.Identity.Resolver.{UserInfo, Identity}
use Prim.Native.String.{◌++◌ as append}
use authbyte.Registry.Rows.{SignInClient}
use authbyte.Routes.Answers.{Refusal, Handler, internal, or_internal, random_token}
use authbyte.Routes.Asking.{method_requested}
use authbyte.Routes.Connection.{is_ai_app, persons_assistants}
use authbyte.Routes.Membership.{audit}
use authbyte.Routes.Shared.{add_shared_app}
use authbyte.Routes.Shared.Browser.{app_code_ttl}
use authbyte.Routes.Shared.Joining.{join_shared}
use authbyte.Routes.Authorize.Endpoint.{flow_ttl}
use authbyte.Session.Types.{Flow, AppCode, UserSession, Capabilities, Seal}
use authbyte.SignIn.{Profile}
use authbyte.Store.Calls.{create_session, save_app_code, save_flow}
use authbyte.Upstream.{Provider}
use authbyte.World.{Env, World, login_failure, login_success, identity_written}

-- Why a sign-in made no session.
pub data NoSession : Type 0 where
  method_not_requested mapping_failed : NoSession

-- A sign-in's new session, under its key.
pub record SignedIn : Type 0 where
  pub key : String
  pub sess : UserSession

abbrev pub session_of : Identity → String → UserSession
session_of id subject = record {
  subject = subject;
  name = id.name;
  given_name = id.given_name;
  family_name = id.family_name;
  serial_number = id.serial_number;
  loa = id.loa;
  login_method = id.login_method;
  client_id = "";
  tenant = "";
  thumbprint = "";
  capabilities = none;
  directory_issuer = id.issuer;
  directory_guest = id.directory_guest;
  expires_at = 0;
  refresh_key = "";
  auth_time = 0;
  amr = [];
  sid = "";
  shared = "";
  assistant = "";
  app_scopes = [];
  connected_at = 0;
  last_used = 0;
}

-- the code that a flow's sign-in ends with
abbrev pub code_of : Flow → String → AppCode
code_of flow sid = record {
  session_id = sid;
  code_challenge = flow.code_challenge;
  code_challenge_method = flow.code_challenge_method;
  client_id = flow.client_id;
  redirect_uri = flow.app_redirect_uri;
  tenant = flow.tenant;
  openid = flow.openid;
  nonce = flow.client_nonce;
  assistant = "";
  app_scopes = [];
}

abbrev pub assistant_ticket_prefix : String
assistant_ticket_prefix = "assistant:"

abbrev pub certificate_of : Option String → String
certificate_of none = ""
certificate_of (some c) = c

-- the certificate of an identity that was selected, "" where none was or it could not be fetched
abbrev pub fetched : Provider → String → Option SignIdentity → String
fetched p token none = ""
fetched p token (some s) = certificate_of (p.sign_identity_cert token s.id)

abbrev pub id_of : Option SignIdentity → String
id_of none = ""
id_of (some s) = s.id

unfoldable pub seals_with : Provider → String → List SealCandidate → List Seal
seals_with p token [] = []
seals_with p token (s ∷ ss) =
    record {
      id = s.id;
      label = s.label;
      certificate = certificate_of (p.sign_identity_cert token s.id);
    }
    ∷ seals_with p token ss

module _ (env : Env) where
  open env use {sign_in}

  abbrev pub capabilities_from : Provider → String → List SignIdentity → String → Capabilities
  capabilities_from p token catalog login_method =
      let signing = select_signing sign_in.lower env.equal_fold catalog login_method in
      record {
        sign_identity_id = id_of signing;
        signing_certificate = fetched p token signing;
        auth_certificate =
            fetched p token (select_auth sign_in.lower env.equal_fold catalog login_method);
        seals = seals_with p token (seals sign_in.lower env.equal_fold catalog);
        seals_known = true;
      }

  abbrev pub signs : Option SignInClient → Bool
  signs none = false
  signs (some c) = c.signing

  unfoldable pub capture_capabilities :
      Option SignInClient → Provider → String → UserInfo → String → Option Capabilities
  capture_capabilities client p token info login_method =
      if not (signs client) || not p.identity_catalog_enabled
      then none
      else elim info.sign_identities [
        | none ↦ none
        | some catalog ↦ some (capabilities_from p token catalog login_method)
      ]

  abbrev pub mapped : Option (String × Bool) → Act (World env) NoSession (String × Bool)
  mapped none = raise mapping_failed
  mapped (some p) = pure p

  -- The person's subject at the identity store, which keeps the sign-in's credential.
  unfoldable pub ensure_mapping : String → Profile → Act (World env) NoSession (String × Bool)
  ensure_mapping handle profile = do
    answered ← gets (λ w. sign_in.ensure_mapping w.people handle profile)
    modify (λ w. record w { people = answered.1 })
    mapped answered.0

  abbrev pub profile_of : Identity → String → Profile
  profile_of id provider = record {
    name = id.name;
    given_name = id.given_name;
    family_name = id.family_name;
    serial_number = id.serial_number;
    login_method = id.login_method;
    email = id.email;
    provider = provider;
  }

  unfoldable pub establish_mapped : Identity → String → Act (World env) NoSession SignedIn
  unfolding ensure_mapping
  establish_mapped id provider = do
    found ← ensure_mapping id.idp_subject (profile_of id provider)
    modify (λ w. record w { events = w.events ++ identity_written found.0 id.loa found.1 ∷ [] })
    key ← gets (λ w. env.random w.draws)
    modify (λ w. record w { draws = w.draws + 1 })
    pure (record { key = key; sess = session_of id found.0 })

  -- a sign-in by a method that was not asked for reaches no store
  unfoldable pub establish_session : Flow → Identity → String → Act (World env) NoSession SignedIn
  unfolding establish_mapped
  establish_session flow id provider =
      if not (method_requested flow.requested_methods id.login_method)
      then raise method_not_requested
      else establish_mapped id provider

  unfoldable pub stamp_sign_in : UserSession → ℕ → List String → Handler env UserSession
  stamp_sign_in sess auth_time amr = do
    sid ← random_token env
    pure (record sess { auth_time = auth_time; amr = amr; sid = sid })

  -- The session of a completed sign-in is kept: an AI app's by itself, any other in the browser's
  -- shared session.
  unfoldable pub save_signed_in : Visit → String → String → UserSession → Handler env UserSession
  unfolding join_shared
  save_signed_in v client key sess =
      if is_ai_app env client
      then or_internal env (create_session env key sess env.session_ttl)
      else (do
        joined ← join_shared env v sess
        made ←
            or_internal env
              (create_session env key (record sess { shared = joined.0 }) env.session_ttl)
        added ← add_shared_app env joined.0 joined.1 client key
        pure made)

  -- An AI app's sign-in ends with the choice of an assistant, under a ticket of its own.
  unfoldable pub ask_assistant : Visit → Flow → String → UserSession → Handler env Reply
  ask_assistant v flow key sess = do
    ticket ← random_token env
    or_internal env (
        save_flow env (append assistant_ticket_prefix ticket) (record flow { session_id = key })
          flow_ttl)
    own ← persons_assistants env sess.subject
    binding ← bind_browser env v
    pure (assistant_page ticket own)

  -- the code for the client, at its own address
  unfoldable pub mint_code : Flow → String → Handler env String
  mint_code flow key = do
    app_code ← random_token env
    or_internal env (save_app_code env app_code (code_of flow key) app_code_ttl)
    pure app_code
