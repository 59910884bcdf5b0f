-- ===== src/Routes/Authorize.antt =====
-- routes/authorize.go and routes/signin.go: the checks on an authorization request, the ways it may
-- be answered, and the flow of the sign-in that it begins.
pub mod Offered
pub mod Checked
pub mod Endpoint
pub mod Homed
use authbyte.Prelude.{
  ℕ, String, Bool, true, false, not, ◌&&◌, ◌||◌, List, [], ◌∷◌, ◌++◌, Option, none, some, Result,
  ok, err, contains, is_empty, is_some, keep, ◌==◌, if◌then◌else◌, ◌>>=◌,
}
use authbyte.Browser.{
  AuthParams, Visit, Reply, get_param, opt_param, code_at, error_at, cannot_start, binding_hash,
}
use authbyte.Identity.Methods.{login_web_eid}
use authbyte.Registry.Rows.{SignInClient, kind_ai_app}
use authbyte.Registry.Grants.{RegistryError}
use authbyte.Registry.SignIn.{sign_in_client, validate_redirect_uri}
use authbyte.Routes.Answers.{param_required, param_invalid}
use authbyte.Routes.Asking.{
  AuthError, IdTokenAsk, SignInAsk, s256_challenge, read_id_token_ask, read_sign_in_ask,
  requested_methods, read_ai_app_ask, unix,
}
use authbyte.Session.Types.{Flow}
use authbyte.Upstream.{Entry, by_method}
use authbyte.World.{Env}

-- An authorization request that passed every check.
pub record AuthorizeRequest : Type 0 where
  pub params : AuthParams
  pub redirect_uri : String
  pub client_id : String
  pub spa_state : String
  pub challenge : String
  pub challenge_method : String
  pub id_ask : IdTokenAsk
  pub sign_ask : SignInAsk
  -- none of them: the person picks
  pub named : List String
  pub tenant : String
  pub client : SignInClient
  pub app_scopes : List String

-- What names a client and an address of its own: the client's id, its row and the address.
pub record Placed : Type 0 where
  pub client_id : String
  pub client : SignInClient
  pub redirect_uri : String

-- what a flow keeps of a request
abbrev pub flow_of : AuthorizeRequest → List String → String → Bool → String → ℕ → Flow
flow_of req methods binding from_page request started = record {
  code_challenge = req.challenge;
  code_challenge_method = req.challenge_method;
  app_redirect_uri = req.redirect_uri;
  spa_state = req.spa_state;
  entrust_redirect_uri = "";
  upstream = "";
  requested_methods = methods;
  client_id = req.client_id;
  webeid_nonce = "";
  tenant = req.tenant;
  nonce = "";
  openid = req.id_ask.openid;
  client_nonce = req.id_ask.nonce;
  forced_login = req.sign_ask.forced_login;
  max_age = req.sign_ask.max_age;
  started = started;
  binding = binding;
  picker = from_page;
  request = request;
  app_scopes = req.app_scopes;
  session_id = "";
}

abbrev pub request_of :
    AuthParams
    → Placed
    → String × String
    → IdTokenAsk
    → SignInAsk
    → List String
    → List String
    → AuthorizeRequest
request_of p c challenge id_ask sign_ask app_scopes named = record {
  params = p;
  redirect_uri = c.redirect_uri;
  client_id = c.client_id;
  spa_state = get_param p "state";
  challenge = challenge.0;
  challenge_method = challenge.1;
  id_ask = id_ask;
  sign_ask = sign_ask;
  named = named;
  tenant = if c.client.kind == kind_ai_app then "" else get_param p "tenant";
  client = c.client;
  app_scopes = app_scopes;
}

-- none of these is the entry's name
abbrev pub same_entry : Option Entry → Entry → Bool
same_entry none e = true
same_entry (some other) e = e.name == other.name

module _ (env : Env) where
  open env use {registry, net, sign_in}

  unfoldable pub can_start : String → Bool
  can_start method =
      is_some (by_method sign_in.upstreams method)
      || (method == login_web_eid && is_some sign_in.card)

  -- the loop over a row's methods, with what it has put out
  unfoldable pub offered_in : List String → List String → List String
  unfolding can_start
  offered_in out [] = out
  offered_in out (m ∷ ms) =
      offered_in (if can_start m && not (contains out m) then out ++ m ∷ [] else out) ms

  unfoldable pub offered : SignInClient → List String
  unfolding offered_in
  offered client = offered_in [] client.methods

  -- the loop over the methods, with the entry of the ones before
  unfoldable pub provider_in : Option Entry → List String → Option Entry
  provider_in entry [] = entry
  provider_in entry (m ∷ ms) = elim (by_method sign_in.upstreams m) [
    | none ↦ none
    | some e ↦ let rest = provider_in (some e) ms in if same_entry entry e then rest else none
  ]

  unfoldable pub provider_of : List String → Option Entry
  unfolding provider_in
  provider_of methods = provider_in none methods

  -- the ways that a page shows, or none where no page is shown
  unfoldable pub page_ways : AuthorizeRequest → List String → Option (List String)
  unfolding provider_of
  page_ways req ways =
      if is_empty req.named
      then some ways
      else if contains req.named login_web_eid || not (is_some (provider_of req.named))
      then some req.named
      else none

  -- a client whose address was found is one in force
  abbrev pub listed_as :
      String → String → Result RegistryError (Unit {0}) → Option SignInClient → Result Reply Placed
  listed_as client_id redirect_uri (ok u) (some client) =
      ok (record { client_id = client_id; client = client; redirect_uri = redirect_uri })
  listed_as client_id redirect_uri v client = err (cannot_start (param_invalid "redirect_uri"))

  unfoldable pub listed_client : String → String → Result Reply Placed
  listed_client client_id redirect_uri =
      listed_as client_id redirect_uri (validate_redirect_uri registry client_id redirect_uri)
        (sign_in_client registry client_id)

  -- the checks before the address is known to be the client's
  unfoldable pub place : AuthParams → Result Reply Placed
  unfolding listed_client
  place p =
      let redirect_uri = get_param p "redirect_uri" in
      let client_id = get_param p "client_id" in
      if not (get_param p "response_type" == "code")
      then err (cannot_start (param_invalid "response_type"))
      else if redirect_uri == ""
      then err (cannot_start (param_required "redirect_uri"))
      else if client_id == ""
      then err (cannot_start (param_required "client_id"))
      else listed_client client_id redirect_uri

  abbrev pub challenged : Option (String × String) → Result AuthError (String × String)
  challenged none = err "invalid_request"
  challenged (some c) = ok c

  abbrev pub met : Option (List String) → Result AuthError (List String)
  met none = err "unmet_authentication_requirements"
  met (some methods) = ok methods

  abbrev pub boxes_asked : SignInClient → AuthParams → Result AuthError (List String)
  boxes_asked client p = if client.kind == kind_ai_app then read_ai_app_ask net client p else ok []

  -- the checks whose refusal is answered at the client's own address
  unfoldable pub read_placed : AuthParams → Placed → Result AuthError AuthorizeRequest
  unfolding offered
  read_placed p c = do
    challenge ← challenged (s256_challenge p)
    id_ask ← read_id_token_ask p
    sign_ask ← read_sign_in_ask p
    app_scopes ← boxes_asked c.client p
    named ← met (requested_methods (offered c.client) (get_param p "acr_values"))
    ok (request_of p c challenge id_ask sign_ask app_scopes named)

  abbrev pub at_client :
      AuthParams → Placed → Result AuthError AuthorizeRequest → Result Reply AuthorizeRequest
  at_client p c (ok req) = ok req
  at_client p c (err e) = err (error_at c.redirect_uri e (get_param p "state"))

  unfoldable pub read_authorize : AuthParams → Result Reply AuthorizeRequest
  unfolding place read_placed
  read_authorize p = do c ← place p; at_client p c (read_placed p c)

  -- `p.encode()` is a library's writing of the query; a flow begun on the page keeps it
  unfoldable pub new_flow : AuthorizeRequest → List String → String → Bool → String → ℕ → Flow
  new_flow req methods binding from_page request now =
      flow_of req methods (binding_hash env binding) from_page (if from_page then request else "")
        (unix now)
