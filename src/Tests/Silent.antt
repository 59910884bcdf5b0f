-- ===== src/Tests/Silent.antt =====
-- The theorem on an answer with no page, for a browser that holds a shared session.
use Prim.Native.String.{◌++◌ as append}
use authbyte.Prelude.{String, ◌≡◌, refl, true, false, [], ◌∷◌, none, some, ok, lookup, ◌≢◌}
use authbyte.Browser.{Visit, Reply, code_at}
use authbyte.Session.Shared.{Way, Shared, shared_expired}
use authbyte.Routes.Authorize.{AuthorizeRequest, offered, offered_in, can_start}
use authbyte.Routes.Shared.Browser.{
  answer_from_shared, fit_of, fits, found_way, may_share, shared_way,
}
use authbyte.Routes.Shared.Silent.{IsSilent, answer_from_shared-IsSilent}
use authbyte.Act.{pure, gets, ◌>>=◌, on_error, modify, refuse_if}
use authbyte.Upstream.{by_method}
use authbyte.Routes.Authorize.Endpoint.{authorize}
use authbyte.Routes.Shared.{replace_previous, add_shared_app, shared_live}
use authbyte.Store.Calls.{reach, found, save_app_code, create_session}
use authbyte.Store.Index.{load_shared, put_shared_app}
use authbyte.Registry.SignIn.{membership_required}
use authbyte.Registry.Scopes.{is_space}
use authbyte.Tests.Memory.{get_timed}
use authbyte.Routes.Answers.{or_internal, attempt, random_token}
use authbyte.Routes.Membership.{audit}
use authbyte.Rolebyte.{person_key, answered_for, answer, settled, claim, memberships}
use authbyte.World.{World, Env}
use authbyte.Routes.Shared.Found.{shared_way_last}
use authbyte.Tests.Deployment.{register, env, web, world}

abbrev secret : String
secret = "0123456789012345678901234567890123456789012"

abbrev id : String
id = "0123456789012345678901"

abbrev visit : Visit
visit = record {
  is_post = false;
  at_authorize = true;
  query = [];
  form = [];
  cookies = ("__Host-authbyte_sso", append id (append "." secret)) ∷ [];
  origin = "https://id.example";
  accept_language = "en";
  secure_cookies = true;
}

abbrev way : Way
way = record {
  way_method = "eparakstsMobile";
  loa = "high";
  auth_time = 1;
  amr = [];
  signed_in = 1;
  ends = 9000;
}

abbrev kept : Shared
kept = record {
  secret_hash = append "authbyte shared session\0" secret;
  subject = "person";
  name = "A Person";
  given_name = "A";
  family_name = "Person";
  serial_number = "";
  directory_issuer = "";
  directory_guest = false;
  ways = way ∷ [];
  expires_at = 9000;
}

abbrev sharing : World env
sharing = record world { shared = (id, (kept, 9000)) ∷ [] }

abbrev asked : AuthorizeRequest
asked = record {
  params = [];
  redirect_uri = "https://portal.example/cb";
  client_id = "web";
  spa_state = "app-state";
  challenge = "verifier";
  challenge_method = "S256";
  id_ask = record { openid = false; nonce = "" };
  sign_ask = record {
    forced_login = false;
    login = false;
    is_none = false;
    select_account = false;
    max_age = none;
    ui_locales = "";
  };
  named = [];
  tenant = "";
  client = record web { methods = "eparakstsMobile" ∷ []; single_sign_on = true };
  app_scopes = [];
}

abbrev given : Reply
given = code_at "https://portal.example/cb" "fresh" "app-state"

abbrev after_answer : World env
after_answer = (answer_from_shared env visit asked sharing).1

answered : answer_from_shared env visit asked sharing ≡ (ok (some given), after_answer)
unfolding pure gets ◌>>=◌ on_error modify refuse_if lookup by_method authorize fit_of
    replace_previous add_shared_app shared_live reach found save_app_code create_session load_shared
    put_shared_app shared_expired membership_required is_space get_timed or_internal attempt
    random_token audit person_key answered_for answer settled claim memberships
answered = refl

answer_from_shared-IsSilent_example : IsSilent env visit asked sharing given after_answer
answer_from_shared-IsSilent_example =
    answer_from_shared-IsSilent env visit asked sharing given after_answer answered

-- the deployment without a register
abbrev unwired : Env
unwired = record env { register = record register { wired = false } }

abbrev starting : World unwired
starting = record {
  now = 1000;
  outages = [];
  flows = [];
  codes = [];
  sessions = [];
  refresh = [];
  shared = [];
  shared_apps = [];
  connections = [];
  proofs = [];
  register = tt;
  people = tt;
  jar = [];
  draws = 0;
  events = [];
}

-- one way more that fits, and one that has ended
abbrev last_way : Way
last_way = record way { ends = 8000 }

abbrev ended_way : Way
ended_way = record way { ends = 5 }

abbrev kept_ways : Shared
kept_ways = record kept { ways = way ∷ last_way ∷ ended_way ∷ [] }

last_fits : fit_of asked (offered unwired asked.client) 1000 last_way ≡ fits
unfolding fit_of offered offered_in can_start by_method lookup
last_fits = refl

ended_unfit : fit_of asked (offered unwired asked.client) 1000 ended_way ≢ fits
unfolding fit_of
ended_unfit e = cc

shared_way_last_example :
    shared_way unwired asked kept_ways 1000 starting ≡ (ok (found_way last_way), starting)
unfolding may_share
shared_way_last_example =
    shared_way_last unwired asked kept_ways 1000 (way ∷ []) (ended_way ∷ []) last_way starting refl
      refl last_fits (ended_unfit, tt) refl refl
