-- ===== src/Routes/Token/Exchange.antt =====
-- routes/token.go and routes/aiapp.go: token exchange, where a service acts for a token's subject.
use authbyte.Prelude.{
  String, Bool, true, false, not, ◌&&◌, ◌||◌, List, [], Option, none, some, contains, keep, ◌==◌,
  if◌then◌else◌,
}
use authbyte.Act.{pure, raise, gets, refuse_if, ◌>>=◌, ◌>>◌}
use authbyte.Claims.{Claims, acting}
use authbyte.Issuer.{DelegatedTokenInput, issue_delegated}
use authbyte.Registry.Scopes.{parse_scope_string, is_box, is_level}
use authbyte.Registry.Grants.{authenticate, allowed_scopes, assistant_levels, may_act_from}
use authbyte.World.{Env, delegation_refused, delegated_token_issued}
use authbyte.Routes.Answers.{
  Handler, seconds, TokenResponse, unauthorized, forbidden, param_invalid, issued,
}
use authbyte.Routes.Membership.{audit}
use authbyte.Routes.Request.{Request, form_string}
use authbyte.Routes.ClientAuth.{client_secret, registered}
use authbyte.Routes.Token.Person.{token_type_dpop}
use authbyte.Routes.Token.Service.{requested_scopes, allowed}
use authbyte.Routes.Connection.{login_assistant, app_connection_live}

abbrev pub token_type_access_token : String
token_type_access_token = "urn:ietf:params:oauth:token-type:access_token"

-- the test of one scope
abbrev pub passes : List String → List String → String → Bool
passes held named s = is_level s && contains named s || is_box s && contains held s

unfoldable pub narrow_for_assistant : List String → String → List String → List String
narrow_for_assistant scopes subject_scope named =
    keep (passes (parse_scope_string subject_scope) named) scopes

abbrev pub other_type : Option String → Bool
other_type none = false
other_type (some t) = not (t == token_type_access_token)

module _ (env : Env) where
  unfoldable pub may_be_acted_for : Claims → Bool
  may_be_acted_for subject = not (env.is_service subject) || not (subject.tenant == "")

  -- a refusal that is audited
  unfoldable pub refuse_delegation : Bool → String → Claims → String → Handler env (Unit {0})
  refuse_delegation true client_id subject reason = do
    audit env (delegation_refused client_id subject.subject reason)
    raise forbidden
  refuse_delegation false client_id subject reason = pure tt

  abbrev pub parsed : {A : Type 0} → Option A → Handler env A
  parsed none = raise unauthorized
  parsed (some a) = pure a

  -- an AI app's token is exchanged only while its connection is live
  unfoldable pub check_connection : String → Claims → String → Handler env (Unit {0})
  check_connection client_id subject connection =
      if subject.login_method == login_assistant && not (subject.client_id == "")
      then app_connection_live env client_id subject connection
      else pure tt

  -- what an exchange carries of what its client is granted
  unfoldable pub carried : Claims → String → String → List String → List String
  unfolding narrow_for_assistant
  carried subject client_id audience given =
      if subject.login_method == login_assistant
      then narrow_for_assistant given subject.scope
          (assistant_levels env.registry client_id audience)
      else given

  abbrev pub delegated_of : Claims → String → String → List String → String → DelegatedTokenInput
  delegated_of subject client_id audience scopes thumbprint = record {
    subject = subject.subject;
    audience = audience;
    scopes = scopes;
    loa = subject.loa;
    login_method = subject.login_method;
    serial_number = subject.serial_number;
    tenant = subject.tenant;
    actor = acting client_id subject.act;
    thumbprint = thumbprint;
    ttl = 0;
  }

  -- once the subject token is parsed
  unfoldable pub exchange_for :
      String → String → List String → Claims → String → String → Handler env TokenResponse
  exchange_for client_id audience requested subject connection thumbprint = do
    refuse_delegation (not (may_be_acted_for subject)) client_id subject
        "a platform service acting as itself cannot be acted for"
    refuse_delegation (not (may_act_from env.registry client_id subject.audience)) client_id subject
        "the subject token was issued for an audience this client does not act from"
    check_connection client_id subject connection
    given ← allowed env (allowed_scopes env.registry client_id audience requested)
    let scopes = carried subject client_id audience given
    tok ←
        issued env (issue_delegated env (delegated_of subject client_id audience scopes thumbprint))
    audit env (delegated_token_issued client_id subject.subject audience scopes)
    pure (record {
      access_token = tok;
      token_type = token_type_dpop;
      expires_in = seconds tok.lifetime;
      refresh_token = "";
      id_token = none;
      issued_token_type = token_type_access_token;
      scope = "";
      capabilities = none;
      tenants = [];
    })

  unfoldable pub grant_token_exchange : Request → String → Handler env TokenResponse
  grant_token_exchange req thumbprint = do
    client_id ← form_string env req "client_id"
    came ← client_secret env req client_id
    refuse_if (not came.presented) unauthorized
    audience ← form_string env req "audience"
    subject_token ← form_string env req "subject_token"
    refuse_if (other_type (req.optional "subject_token_type")) (param_invalid "subject_token_type")
    proven ← registered env (authenticate env.registry client_id (env.bytes came.secret))
    now ← gets (λ w. w.now)
    subject ← parsed (env.parse_token now subject_token)
    exchange_for client_id audience (requested_scopes (req.optional "scope")) subject.0 subject.1
        thumbprint
