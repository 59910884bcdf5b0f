-- ===== src/Routes/Token/Service.antt =====
-- routes/token.go: a service's own token, by its client credentials.
use authbyte.Prelude.{
  String, not, List, [], Option, none, some, Result, ok, err, is_empty, ◌==◌, if◌then◌else◌,
}
use authbyte.Act.{pure, raise, refuse_if, ◌>>=◌, ◌>>◌}
use authbyte.Issuer.{issue_service}
use authbyte.Registry.Scopes.{parse_scope_string}
use authbyte.Registry.Grants.{RegistryError, grant_denied, authenticate, allowed_scopes}
use authbyte.World.{Env, service_token_issued}
use authbyte.Routes.Answers.{
  Handler, seconds, TokenResponse, Refusal, unauthorized, forbidden, not_member, issued,
}
use authbyte.Routes.Membership.{choose_membership, intersect_scopes, ask_memberships, audit}
use authbyte.Routes.Request.{Request, form_string, text_of}
use authbyte.Routes.ClientAuth.{client_secret, registered}
use authbyte.Routes.Token.Person.{token_type_dpop}

unfoldable pub requested_scopes : Option String → List String
requested_scopes none = []
requested_scopes (some s) = parse_scope_string s

-- 403 for a grant denied, 401 for any other refusal of the registry
unfoldable pub scope_refusal : RegistryError → Refusal
scope_refusal grant_denied = forbidden
scope_refusal _ = unauthorized

module _ (env : Env) where
  unfoldable pub allowed : {A : Type 0} → Result RegistryError A → Handler env A
  allowed (ok a) = pure a
  allowed (err e) = raise (scope_refusal e)

  abbrev pub chosen_of : {A : Type 0} → Option A → Handler env A
  chosen_of none = raise not_member
  chosen_of (some m) = pure m

  unfoldable pub service_account_scopes : String → String → List String → Handler env (List String)
  service_account_scopes client_id tenant given = do
    refuse_if (not env.register.wired) not_member
    ms ← ask_memberships env client_id
    m ← chosen_of (choose_membership ms tenant).chosen
    let scopes = intersect_scopes given m.scopes
    refuse_if (is_empty scopes) forbidden
    pure scopes

  -- the scopes of a service account in its tenant, or of a service acting as itself
  unfoldable pub service_scopes : String → String → List String → Handler env (List String)
  service_scopes client_id tenant given =
      if not (tenant == "") then service_account_scopes client_id tenant given else pure given

  unfoldable pub answer_service :
      String → String → String → List String → String → Handler env TokenResponse
  answer_service client_id audience tenant scopes thumbprint = do
    tok ← issued env (
        issue_service env (record {
          client_id = client_id;
          audience = audience;
          scopes = scopes;
          tenant = tenant;
          thumbprint = thumbprint;
        }))
    audit env (service_token_issued client_id audience tenant scopes)
    pure (record {
      access_token = tok;
      token_type = token_type_dpop;
      expires_in = seconds tok.lifetime;
      refresh_token = "";
      id_token = none;
      issued_token_type = "";
      scope = "";
      capabilities = none;
      tenants = [];
    })

  unfoldable pub grant_client_credentials : Request → String → Handler env TokenResponse
  grant_client_credentials req thumbprint = do
    client_id ← form_string env req "client_id"
    came ← client_secret env req client_id
    refuse_if (not came.presented) unauthorized
    audience ← form_string env req "audience"
    proven ← registered env (authenticate env.registry client_id (env.bytes came.secret))
    given ←
        allowed
          (allowed_scopes env.registry client_id audience (requested_scopes (req.optional "scope")))
    let tenant = text_of (req.optional "tenant")
    scopes ← service_scopes client_id tenant given
    answer_service client_id audience tenant scopes thumbprint
