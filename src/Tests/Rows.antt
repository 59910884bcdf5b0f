-- ===== src/Tests/Rows.antt =====
-- The registry's theorems at the deployment's rows.
use authbyte.Prelude.{
  ◌≡◌, ◌↔◌, refl, String, [], ◌∷◌, ◌≢◌, Option, none, some, ok, All, inl, inr, lookup, insert,
  remove, true, false, contains,
}
use authbyte.Registry.Rows.{Client, SignInClient, Document}
use authbyte.Registry.Scopes.{
  codes, is_space, parse_scope_string, join, is_box, is_level, cut, last_is,
}
use authbyte.Registry.Scopes.Words.{IsScope, parse-join}
use authbyte.Registry.Load.{
  grant_audiences, SecretResolver, load, add_client, add_clients, add_sign_in_client,
  add_sign_in_clients, resolve_secret, is_audience,
}
use authbyte.Registry.Load.Invariant.{IsLoaded, load-IsLoaded, load_ids_apart}
use authbyte.Registry.Load.Kept.{load_keeps}
use authbyte.Registry.Validate.Client.{
  validate_client, check_scopes, check_levels, check_grant, check_grants,
}
use authbyte.Registry.Validate.Client.Laws.{IsClient, validate_client_iff}
use authbyte.Registry.Validate.Address.{check_address, is_loopback}
use authbyte.Registry.Validate.SignIn.{
  validate_sign_in_client, each_address, check_claims, check_boxes, check_type, check_row,
  check_addresses, validate_ai_app, check_kind,
}
use authbyte.Registry.Validate.SignIn.Spec.{IsSignInClient}
use authbyte.Registry.Validate.SignIn.Laws.{validate_sign_in_client_iff}
use authbyte.Registry.Secrets.{subtle_mismatch}
use authbyte.Registry.Secrets.Laws.{subtle_mismatch_iff}
use authbyte.Registry.Grants.{allowed_scopes, authenticate, may_act_from}
use authbyte.Registry.Grants.Laws.{
  MayAsk, MayAct, allowed_scopes_iff, authenticate_iff, may_act_from_iff,
}
use authbyte.Registry.SignIn.{
  authenticate_sign_in, sign_in_client, validate_redirect_uri, validate_post_logout_uri,
}
use authbyte.Registry.SignIn.Laws.{HasProof, InForce, authenticate_sign_in_iff, validate_uri_iff}
use authbyte.Tests.Deployment.{registry, service, web, net}

allowed_scopes_iff_example :
    (allowed_scopes registry "svc" "files" ("files/doc:read" ∷ []) ≡ ok ("files/doc:read" ∷ []))
    ↔ MayAsk registry "svc" "files" ("files/doc:read" ∷ []) ("files/doc:read" ∷ [])
allowed_scopes_iff_example =
    allowed_scopes_iff registry "svc" "files" ("files/doc:read" ∷ []) ("files/doc:read" ∷ [])

may_act_from_iff_example :
    (may_act_from registry "svc" ("portal" ∷ []) ≡ true) ↔ MayAct registry "svc" ("portal" ∷ [])
may_act_from_iff_example = may_act_from_iff registry "svc" ("portal" ∷ [])

authenticate_iff_example : (authenticate registry "svc" (codes "secret") ≡ ok service) ↔ (
    (lookup registry.clients "svc" ≡ some service)
    × (service.enabled ≡ true)
    × (lookup registry.secrets "svc" ≡ some (codes "secret"))
    × (false ≡ false))
authenticate_iff_example = authenticate_iff registry "svc" (codes "secret") service

authenticate_sign_in_iff_example :
    (authenticate_sign_in registry "web" [] false ≡ ok web)
    ↔ (InForce registry "web" web × HasProof registry web "web" [] false)
authenticate_sign_in_iff_example = authenticate_sign_in_iff registry "web" [] false web

validate_uri_iff_example :
    ((validate_redirect_uri registry "web" "https://portal.example/cb" ≡ ok tt) ↔ (
      (c : SignInClient) × (sign_in_client registry "web" ≡ some c)
      × (contains c.redirect_uris "https://portal.example/cb" ≡ true)))
    × ((validate_post_logout_uri registry "web" "https://portal.example/cb" ≡ ok tt) ↔ (
        (c : SignInClient) × (sign_in_client registry "web" ≡ some c)
        × (contains c.post_logout_redirect_uris "https://portal.example/cb" ≡ true)))
validate_uri_iff_example = validate_uri_iff registry "web" "https://portal.example/cb"

validate_client_iff_example : (validate_client service ≡ none) ↔ IsClient service
validate_client_iff_example = validate_client_iff service

validate_sign_in_client_iff_example :
    (validate_sign_in_client net web ≡ none) ↔ IsSignInClient net web
validate_sign_in_client_iff_example = validate_sign_in_client_iff net web

subtle_mismatch_iff_example :
    (subtle_mismatch (codes "ab") (codes "ac") ≡ false) ↔ (codes "ab" ≡ codes "ac")
subtle_mismatch_iff_example = subtle_mismatch_iff (codes "ab") (codes "ac")

two_scopes : All IsScope ("files/doc:read" ∷ "files:admin" ∷ [])
unfolding is_box is_level cut last_is is_space
two_scopes = (inl refl, (inr refl, tt))

parse-join_example :
    parse_scope_string (join ("files/doc:read" ∷ "files:admin" ∷ []))
    ≡ "files/doc:read" ∷ "files:admin" ∷ []
parse-join_example = parse-join ("files/doc:read" ∷ "files:admin" ∷ []) two_scopes

abbrev document : Document
document = record { service_clients = service ∷ []; sign_in_clients = web ∷ [] }

abbrev resolver : Option SecretResolver
resolver = some (λ id ref. some (codes "secret"))

loads : load resolver net document ≡ ok registry
unfolding load add_client add_clients add_sign_in_client add_sign_in_clients resolve_secret
    is_audience validate_client check_scopes check_levels check_grant check_grants check_address
    is_loopback validate_sign_in_client each_address check_claims check_boxes check_type check_row
    check_addresses validate_ai_app check_kind is_box is_level cut last_is lookup insert remove
    is_space
loads = refl

web_there : lookup registry.sign_in_clients "web" ≡ some web
unfolding lookup
web_there = refl

load-IsLoaded_example : IsLoaded net registry
load-IsLoaded_example = load-IsLoaded net resolver document registry loads

load_ids_apart_example :
    ((k : String) (t : SignInClient)
      → lookup registry.sign_in_clients k ≡ some t
      → t.audience ≢ "web")
    × ((k : String) (c : Client)
        → lookup registry.clients k ≡ some c
        → contains (grant_audiences c.grants) "web" ≡ false)
load_ids_apart_example = load_ids_apart net resolver document registry loads "web" web web_there

load_keeps_example :
    All (λ c. lookup registry.clients c.client_id ≡ some c) document.service_clients
    × All (λ c. lookup registry.sign_in_clients c.client_id ≡ some c) document.sign_in_clients
load_keeps_example = load_keeps net resolver document registry loads
