-- ===== src/Tests/SignIns.antt =====
-- The sign-in's theorems at the deployment: a browser whose binding is kept, a client that signs in by
-- eParaksts Mobile, and an AI app.
use Prim.Native.String.{◌++◌ as append}
use authbyte.Prelude.{
  String, ◌≡◌, refl, true, false, [], ◌∷◌, none, some, ok, Assoc, ◌⊎◌, arith, eq_iff, ◌==◌, lookup,
  remove, insert,
}
use authbyte.Browser.{
  AuthParams, Visit, Reply, code_at, get_param, request_params, opt_param, shown, set_cookie,
  bound_here,
}
use authbyte.Identity.Methods.{
  permitted_flows, is_eparaksts_federated, login_web_eid, login_legacy_eid, flow_csc_eid_plugin,
}
use Prim.Native.Char.{Char}
use authbyte.Identity.Methods.Laws.{IsReader, permitted_flows_apart}
use authbyte.Identity.Resolver.Laws.{the_method, IsSame, interpret_same, interpret_specific}
use authbyte.Routes.Authorize.Checked.{IsChecked, read_authorize-IsChecked}
use authbyte.Session.Types.{Flow}
use authbyte.Upstream.{
  method_allowed, resolver_of, Entry, Providers, new_set, read_entries, read_entry, check_entry,
  add_methods, names_of, paths_of, key_entries, credential_key, identifier, key_methods, keyed,
}
use authbyte.Routes.Authorize.{AuthorizeRequest, read_authorize}
use authbyte.Routes.Authorize.Endpoint.{authorize, refuse_at_client}
use authbyte.Routes.Authorize.Homed.{address_of, reply_of, authorize_home}
use authbyte.Routes.Callback.Answered.{callback}
use authbyte.Routes.Callback.Answered.Bound.{IsEarned, callback-IsEarned}
use authbyte.Routes.Callback.Answered.Proved.{is_code}
use authbyte.Act.{pure, raise, gets, ◌>>=◌, on_error, modify, refuse_if}
use authbyte.Identity.Resolver.{
  lowered, index_policy, new_resolver_policies, new_resolver, haystack, interpret, resolve,
}
use authbyte.Text.{place as place_key, contains_text, to_lower, key_before, sort_keys}
use authbyte.Routes.Asking.{
  s256_challenge, read_id_token_ask, read_sign_in_ask, requested_methods, method_requested,
  sign_in_moment,
}
use authbyte.Routes.Shared.{replace_previous, add_shared_app}
use authbyte.Routes.Callback.{establish_session, stamp_sign_in, save_signed_in, mint_code}
use authbyte.Store.Calls.{reach, found, consume_flow, save_app_code, create_session}
use authbyte.Store.Index.{create_shared, put_shared_app}
use authbyte.Session.Shared.{keep}
use authbyte.Registry.SignIn.{
  sign_in_client, ai_app, membership_required, requires_membership_somewhere, insert_client,
  enabled_of, sign_in_clients, never_minted, baselines_never_minted, authenticate_sign_in,
  insert_audience, audiences_of, audiences, validate_redirect_uri, validate_post_logout_uri,
}
use authbyte.Registry.Scopes.{is_space, parse_scope_string}
use authbyte.Tests.Memory.{get_timed}
use authbyte.Routes.Answers.{or_internal, attempt, random_token}
use authbyte.Routes.Membership.{audit}
use authbyte.Routes.Connection.{is_ai_app}
use authbyte.Upstream.Laws.{IsTold, new_set-IsTold}
use authbyte.World.{World}
use authbyte.Tests.Deployment.{env, world, web, mobile}

abbrev binding : String
binding = "0123456789012345678901234567890123456789012"

abbrev encode : AuthParams → String
encode p = "request"

abbrev visit : Visit
visit = record {
  is_post = false;
  at_authorize = true;
  query =
      ("response_type", "code")
      ∷ ("client_id", "web")
      ∷ ("redirect_uri", "https://portal.example/cb")
      ∷ ("code_challenge", "verifier")
      ∷ ("code_challenge_method", "S256")
      ∷ ("prompt", "none")
      ∷ [];
  form = [];
  cookies = ("__Host-authbyte_signin", binding) ∷ [];
  origin = "https://id.example";
  accept_language = "en";
  secure_cookies = true;
}

abbrev flow : Flow
flow = record {
  code_challenge = "verifier";
  code_challenge_method = "S256";
  app_redirect_uri = "https://portal.example/cb";
  spa_state = "app-state";
  entrust_redirect_uri = "https://id.example/callback";
  upstream = "eparaksts";
  requested_methods = "eparakstsMobile" ∷ [];
  client_id = "web";
  webeid_nonce = "";
  tenant = "";
  nonce = "nonce";
  openid = false;
  client_nonce = "";
  forced_login = false;
  max_age = none;
  started = 0;
  binding = append "authbyte sign-in binding\0" binding;
  picker = false;
  request = "";
  app_scopes = [];
  session_id = "";
}

abbrev signing_in : World env
signing_in = record world { flows = ("state", (flow, 9000)) ∷ [] }

abbrev returned : Visit
returned = record visit { query = ("code", "provider-code") ∷ ("state", "state") ∷ [] }

abbrev no_page : World env
no_page = (authorize env encode visit world).1

home : address_of (reply_of (authorize env encode visit world).0) ≡ some "https://portal.example/cb"
unfolding pure raise ◌>>=◌ on_error request_params shown lookup s256_challenge read_id_token_ask
    read_sign_in_ask requested_methods refuse_at_client authorize address_of sign_in_client
    validate_redirect_uri is_space parse_scope_string
home = refl

authorize_home_example :
    authbyte.Registry.SignIn.validate_redirect_uri env.registry
      (get_param (request_params visit) "client_id")
      "https://portal.example/cb"
    ≡ ok tt
authorize_home_example = authorize_home env encode visit world "https://portal.example/cb" home

abbrev earned : Reply
earned = code_at "https://portal.example/cb" "fresh" "app-state"

abbrev after_callback : World env
after_callback = (callback env returned mobile signing_in).1

called : callback env returned mobile signing_in ≡ (ok earned, after_callback)
unfolding place_key pure gets ◌>>=◌ on_error modify refuse_if opt_param shown set_cookie bound_here
    lookup insert new_resolver resolve to_lower key_before sort_keys method_allowed resolver_of
    method_requested sign_in_moment replace_previous add_shared_app establish_session stamp_sign_in
    save_signed_in mint_code callback reach found consume_flow save_app_code create_session
    create_shared put_shared_app keep ai_app get_timed or_internal attempt random_token audit
    is_ai_app
called = refl

callback-IsEarned_example : IsEarned env returned mobile signing_in earned
unfolding is_code
callback-IsEarned_example =
    callback-IsEarned env returned mobile signing_in earned after_callback called refl

permitted_flows_apart_example :
    ((login_web_eid ≡ login_legacy_eid)
      ⊎ ((flow_csc_eid_plugin ≡ flow_csc_eid_plugin)
          × IsReader login_web_eid
          × IsReader login_legacy_eid))
    × ((login_web_eid ≡ login_web_eid) ⊎ (is_eparaksts_federated login_web_eid ≡ true))
unfolding permitted_flows
permitted_flows_apart_example =
    permitted_flows_apart login_web_eid login_legacy_eid flow_csc_eid_plugin refl refl

abbrev lower : Char → Char
lower c = c

abbrev some_methods : Assoc String
some_methods = ("mobile", "a") ∷ ("mobile-eid", "b") ∷ []

abbrev same_methods : Assoc String
same_methods = ("mobile-eid", "b") ∷ ("mobile", "a") ∷ []

apart : ("mobile" == "mobile-eid") ≡ false
apart = refl

is_same : IsSame lower some_methods same_methods
unfolding index_policy lowered to_lower insert remove lookup
is_same k =
    ground (arith, apart, eq_iff "mobile" k, eq_iff "mobile-eid" k, eq_iff "mobile" "mobile-eid")

interpret_same_example :
    interpret lower (new_resolver_policies lower [] some_methods "" "") "urn:flow:mobile-eid" []
    ≡ interpret lower (new_resolver_policies lower [] same_methods "" "") "urn:flow:mobile-eid" []
interpret_same_example =
    interpret_same lower [] [] some_methods same_methods "" "" "urn:flow:mobile-eid" [] (λ k. refl)
      is_same

abbrev claimed : String
claimed = "urn:flow:mobile-eid"

interpret_specific_example :
    let r = new_resolver_policies lower [] some_methods "" "" in
    (j : String) × (contains_text (haystack lower (to_lower lower claimed) []) j ≡ true)
    × (lookup r.method_policy j ≡ some (interpret lower r claimed []).0)
    × (key_before "mobile" j ≡ false)
unfolding haystack to_lower lookup new_resolver_policies index_policy lowered insert remove
interpret_specific_example =
    interpret_specific lower the_method [] some_methods "" "" claimed [] "mobile" refl refl

abbrev asked : AuthorizeRequest
asked = record {
  params = visit.query;
  redirect_uri = "https://portal.example/cb";
  client_id = "web";
  spa_state = "";
  challenge = "verifier";
  challenge_method = "S256";
  id_ask = record { openid = false; nonce = "" };
  sign_ask = record {
    forced_login = false;
    login = false;
    is_none = true;
    select_account = false;
    max_age = none;
    ui_locales = "";
  };
  named = [];
  tenant = "";
  client = web;
  app_scopes = [];
}

asked_read : read_authorize env visit.query ≡ ok asked
unfolding lookup s256_challenge read_id_token_ask read_sign_in_ask requested_methods read_authorize
    sign_in_client validate_redirect_uri is_space parse_scope_string
asked_read = refl

read_authorize-IsChecked_example : IsChecked env asked × ("web" ≡ get_param visit.query "client_id")
read_authorize-IsChecked_example = read_authorize-IsChecked env visit.query asked asked_read

-- the provider and one more, whose people are kept under its issuer
abbrev guests : Entry
guests = record mobile {
  name = "guests";
  provider = record mobile.provider { issuer = "https://guests.example"; methods = "guest" ∷ [] };
  return_path = "/callback/guests";
  holds_stored = false;
}

abbrev told : Providers
told = record {
  entries = mobile ∷ record guests { key = "https://guests.example" } ∷ [];
  of_method =
      ("guest", record guests { key = "https://guests.example" })
      ∷ ("eparakstsMobile", mobile)
      ∷ [];
}

set_made : new_set (mobile ∷ guests ∷ []) ≡ ok told
unfolding new_set read_entries read_entry check_entry add_methods names_of paths_of key_entries
    credential_key identifier key_methods keyed lookup insert remove
set_made = refl

new_set-IsTold_example : IsTold (mobile ∷ guests ∷ []) told
new_set-IsTold_example = new_set-IsTold (mobile ∷ guests ∷ []) told set_made
