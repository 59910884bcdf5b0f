-- ===== src/Tests/Deployment.antt =====
-- One deployment: a web client, a service and an AI app, a register with one membership, and a store
-- with one session.
use authbyte.Prelude.{
  String, true, false, [], ◌∷◌, Option, none, some, Result, ok, err, ◌==◌, if◌then◌else◌,
}
use authbyte.Claims.{Claims}
use authbyte.Issuer.{base}
use authbyte.Register.{Register, Membership}
use authbyte.Registry.Rows.{Grant, Client, SignInClient}
use authbyte.Registry.Load.{Registry}
use authbyte.Registry.Scopes.{codes}
use authbyte.Registry.Validate.Address.{Net}
use authbyte.Session.Types.{UserSession, AppCode, RefreshGrant}
use authbyte.Identity.Resolver.{UserInfo}
use authbyte.Upstream.{Entry}
use authbyte.SignIn.{SignIn}
use authbyte.World.{Env, World}
use authbyte.Routes.Answers.{TokenResponse, Refusal}
use authbyte.Routes.Request.{Request, Proof, ProofError}
use authbyte.Tests.Memory.{memory}

abbrev pub files_grant : Grant
files_grant = record {
  audience = "files";
  scopes = "files/doc:read" ∷ "files:admin" ∷ [];
  assistant_levels = [];
}

abbrev pub service : Client
service = record {
  client_id = "svc";
  secret_ref = "svc-secret";
  enabled = true;
  grants = files_grant ∷ [];
  act_from = "portal" ∷ [];
}

abbrev pub web : SignInClient
web = record {
  client_id = "web";
  enabled = true;
  kind = "";
  client_type = "public";
  secret_ref = "";
  audience = "portal";
  scopes = [];
  membership_required = none;
  baseline_scopes = [];
  claims = "name" ∷ [];
  methods = [];
  signing = false;
  single_sign_on = false;
  client_name = "Portal";
  logo_uri = "";
  redirect_uris = "https://portal.example/cb" ∷ [];
  post_logout_redirect_uris = [];
  backchannel_logout_uri = "";
}

abbrev pub registry : Registry
registry = record {
  clients = ("svc", service) ∷ [];
  sign_in_clients = ("web", web) ∷ [];
  secrets = ("svc", codes "secret") ∷ [];
}

abbrev pub member : Membership
member = record { tenant_id = "acme"; scopes = "files/doc:read" ∷ [] }

abbrev pub register : Register
register = record {
  State = Unit {0};
  wired = true;
  claims_door = λ s key. (true, s);
  memberships_door = λ s key. some (record { subject_key = key; holds = member ∷ [] });
  assistants_door = λ s key. none;
  admissions_door = λ s key login. (none, s);
}

abbrev pub net : Net
net = record {
  parse = λ raw. some (record {
    scheme = "https";
    host = "portal.example";
    hostname = "portal.example";
    escaped_path = "/cb";
    raw_query = "";
    fragment = "";
    has_user = false;
  });
  equal_fold = λ a b. a == b;
  is_loopback_ip = λ ip. false;
}

abbrev pub subject_token : Claims
subject_token = record (base "person" "portal" 60000) { tenant = "acme"; loa = "high" }

abbrev pub person_claims : UserInfo
person_claims = record {
  subject = "idp-person";
  domain = "";
  acr = "urn:eparaksts:authentication:flow:mobileid";
  amr = [];
  given_name = "A";
  family_name = "Person";
  name = "A Person";
  serial_number = "PNOXX-1";
  email = "";
  eips = "";
  sign_identities = none;
  issuer = "https://idp.example";
  directory_id = "";
  directory_guest = false;
  auth_time = 0;
}

-- a provider of eParaksts Mobile, and the card
abbrev pub mobile : Entry
mobile = record {
  name = "eparaksts";
  provider = record {
    issuer = "https://idp.example";
    authority_url = "";
    methods = "eparakstsMobile" ∷ [];
    loa_policy = [];
    method_policy = [];
    method_default = "";
    loa_default = "high";
    identity_catalog_enabled = false;
    federated = "eparakstsMobile" ∷ [];
    logout_url = λ uri. "https://idp.example/logout";
    exchange = λ code uri. some (record { access_token = "at"; id_token = "" });
    claims = λ tokens nonce. ok person_claims;
    sign_identity_cert = λ token id. none;
  };
  return_path = "/callback";
  display_name = "";
  acr = ("eparakstsMobile", "urn:mobileid") ∷ [];
  holds_stored = true;
  key = "";
}

abbrev pub sign_in : SignIn
sign_in = record {
  upstreams = record { entries = mobile ∷ []; of_method = ("eparakstsMobile", mobile) ∷ [] };
  card = none;
  People = Unit {0};
  ensure_mapping = λ p handle profile. (some ("person", false), p);
  canonical = λ code country. some code;
  lower = λ c. c;
  base64url_decodes = λ s. true;
  choose_language = λ cookie asked accepted. "en";
  base_url = "https://id.example";
  self_origin = "https://id.example";
}

abbrev pub env : Env
env = record {
  cache = memory;
  register = register;
  registry = registry;
  net = net;
  sign_in = sign_in;
  random = λ n. "fresh";
  hash = λ s. s;
  signs = λ c. true;
  signs_id = λ c. true;
  bytes = λ s. codes s;
  equal_fold = λ a b. a == b;
  base64_decode = λ s. none;
  query_unescape = λ s. some s;
  nonce_enabled = false;
  nonce_verifies = λ n t. true;
  proof_window = 60000;
  parse_token = λ t s. if s == "subject" then some (subject_token, "") else none;
  is_service = λ c. false;
  user_ttl = 300000;
  service_ttl = 60000;
  session_ttl = 3600000;
  app_token_ttl = 300000;
}

abbrev pub session : UserSession
session = record {
  subject = "person";
  name = "A Person";
  given_name = "A";
  family_name = "Person";
  serial_number = "";
  loa = "high";
  login_method = "eid";
  client_id = "web";
  tenant = "acme";
  thumbprint = "key";
  capabilities = none;
  directory_issuer = "";
  directory_guest = false;
  expires_at = 9000;
  refresh_key = "refresh";
  auth_time = 1;
  amr = [];
  sid = "public";
  shared = "";
  assistant = "";
  app_scopes = [];
  connected_at = 0;
  last_used = 0;
}

abbrev pub grant : RefreshGrant
grant = record { session_id = "s1"; client_id = "web"; rotated = false }

abbrev pub code : AppCode
code = record {
  session_id = "s1";
  code_challenge = "verifier";
  code_challenge_method = "S256";
  client_id = "web";
  redirect_uri = "https://portal.example/cb";
  tenant = "";
  openid = false;
  nonce = "";
  assistant = "";
  app_scopes = [];
}

abbrev pub world : World env
world = record {
  now = 1000;
  outages = [];
  flows = [];
  codes = ("code", (code, 5000)) ∷ [];
  sessions = ("s1", (session, 9000)) ∷ [];
  refresh = ("refresh", (grant, 9000)) ∷ [];
  shared = [];
  shared_apps = [];
  connections = [];
  proofs = [];
  register = tt;
  people = tt;
  jar = [];
  draws = 0;
  events = [];
}

abbrev pub field : String → Option String
field name =
    if name == "refresh_token"
    then some "refresh"
    else if name == "token"
    then some "refresh"
    else if name == "client_id"
    then some "web"
    else if name == "code"
    then some "code"
    else if name == "code_verifier"
    then some "verifier"
    else if name == "redirect_uri"
    then some "https://portal.example/cb"
    else none

abbrev pub service_field : String → Option String
service_field name =
    if name == "client_id"
    then some "svc"
    else if name == "audience"
    then some "files"
    else if name == "subject_token"
    then some "subject"
    else none

abbrev pub service_secret : String → Option String
service_secret name = if name == "client_secret" then some "secret" else none

abbrev pub proof : Result ProofError Proof
proof = ok (record { jti = "proof"; thumbprint = "key"; nonce = "" })

abbrev pub request : Request
request = record {
  required = field;
  optional = λ name. none;
  peek = λ name. "";
  peek_multi = λ name. [];
  authorization = "";
  proof = proof;
}

abbrev pub service_request : Request
service_request = record request { required = service_field; optional = service_secret }

abbrev pub blank : TokenResponse
blank = record {
  access_token = base "" "" 0;
  token_type = "";
  expires_in = 0;
  refresh_token = "";
  id_token = none;
  issued_token_type = "";
  scope = "";
  capabilities = none;
  tenants = [];
}

abbrev pub answer_of : Result Refusal TokenResponse → TokenResponse
answer_of (ok r) = r
answer_of (err e) = blank
