-- ===== src/Tests/Store.antt =====
-- The store's and the handlers' other theorems at the deployment.
use authbyte.Prelude.{
  ℕ, ◌+◌, ◌≤◌, ◌<◌, arith, ◌≡◌, ◌↔◌, ◌⊎◌, refl, [], ◌∷◌, ◌++◌, none, some, ok, err, lookup, insert,
  remove, true, false, contains, ltb, if◌then◌else◌,
}
use authbyte.Act.{gets, modify, raise, pure, refuse_if, on_error, ◌>>=◌}
use authbyte.Claims.{Claims, Actor}
use authbyte.Issuer.{DelegatedTokenInput, issue_delegated, sign, base}
use authbyte.Issuer.Laws.{issue_delegated_bounds}
use authbyte.Registry.SignIn.{sign_in_client, membership_required}
use authbyte.Rolebyte.{memberships, claim, answer, settled, answered_for, person_key}
use authbyte.Registry.Scopes.{is_space, join}
use authbyte.Session.Shared.{Way, Shared, keep, other_ways}
use authbyte.Session.Shared.Laws.{IsShared, EndsBy, keep-IsShared}
use authbyte.Store.Calls.{
  not_found, reach, found, consume_app_code, take_refresh, replace_session, create_session,
  load_session, delete_session, delete_refresh,
}
use authbyte.Store.Index.{remove_connection, connection_key}
use authbyte.Store.Laws.{consume_app_code_once, replace_session_ended, load-create_session}
use authbyte.World.{World}
use authbyte.Routes.Answers.{unless_gone, ignored}
use authbyte.Routes.Membership.{
  MembershipOutcome, at_sign_in, at_refresh, user_scopes, is_asked, member_scopes,
  resolve_memberships, ask_memberships, settle_outcome, choose_membership, outcome_of, baseline_of,
  audit,
}
use authbyte.Routes.Membership.Minted.{IsMember, user_scopes_minted}
use authbyte.Routes.Membership.Refreshed.{ClaimsOnly, user_scopes_refresh}
use authbyte.Routes.Connection.{end_connection, delete_grants, leave_index}
use authbyte.Routes.App.{revoke_app}
use authbyte.Routes.App.Reused.{NoGrants, end_connection_ends}
use authbyte.Routes.Revoke.Ended.{revoke_app_outage}
use authbyte.Routes.Ending.{NoSession}
use authbyte.Routes.Token.Exchange.{narrow_for_assistant}
use authbyte.Routes.Token.Exchanging.{MayCarry, narrow_for_assistant_iff}
use authbyte.Tests.Deployment.{env, world, web, session, grant, code}
use authbyte.Tests.Memory.{get_timed, set_timed}

abbrev code_taken : World env
code_taken = (consume_app_code env "code" world).1

takes_code : consume_app_code env "code" world ≡ (ok code, code_taken)
unfolding consume_app_code reach found ◌>>=◌ gets modify pure get_timed lookup remove
takes_code = refl

consume_app_code_once_example : ¬ (consume_app_code env "code" code_taken ≡ (ok code, code_taken))
consume_app_code_once_example =
    consume_app_code_once env "code" world code code_taken takes_code code_taken refl code
      code_taken

abbrev grant_taken : World env
grant_taken = (take_refresh env "refresh" world).1

no_s2 : get_timed world.sessions 1000 "s2" ≡ none
unfolding get_timed lookup
no_s2 = refl

replace_session_ended_example :
    let (r, v) = replace_session env "s2" session world in
    ((u : Unit {0}) → ¬ (r ≡ ok u)) × (v.sessions ≡ world.sessions)
replace_session_ended_example = replace_session_ended env "s2" session world no_s2

abbrev s2_made : World env
s2_made = (create_session env "s2" session 500 world).1

makes_s2 :
    create_session env "s2" session 500 world ≡ (ok (record session { expires_at = 1500 }), s2_made)
unfolding create_session reach ◌>>=◌ gets modify refuse_if pure get_timed set_timed lookup insert
    remove
makes_s2 = refl

made_up : s2_made.outages ≡ []
unfolding create_session reach ◌>>=◌ gets modify refuse_if pure get_timed set_timed lookup insert
    remove
made_up = refl

load-create_session_example :
    (load_session env "s2" (record s2_made { now = 1500 })).0
    ≡ (if ltb 1500 (1000 + 500) then ok (record session { expires_at = 1500 }) else err not_found)
load-create_session_example =
    load-create_session env "s2" session (record session { expires_at = 1500 }) 500 world s2_made
      (record s2_made { now = 1500 }) makes_s2 refl made_up (omega arith)

abbrev asked : World env
asked = (user_scopes env session "web" "acme" at_sign_in world).1

abbrev member_outcome : MembershipOutcome
member_outcome = record { scopes = "files/doc:read" ∷ []; tenant = "acme"; choices = [] }

asks : user_scopes env session "web" "acme" at_sign_in world ≡ (ok member_outcome, asked)
unfolding user_scopes is_asked membership_required lookup member_scopes resolve_memberships
    ask_memberships settle_outcome choose_membership outcome_of memberships claim answer settled
    answered_for person_key is_space on_error ◌>>=◌ gets modify raise pure refuse_if
asks = refl

user_scopes_minted_example :
    ((is_asked env "web" ≡ false)
      × (member_outcome.scopes ≡ baseline_of (sign_in_client env.registry "web"))
      × (member_outcome.tenant ≡ "")
      × (member_outcome.choices ≡ [])
      × (asked ≡ world))
    ⊎ ((is_asked env "web" ≡ true) × IsMember env asked session "acme" member_outcome)
user_scopes_minted_example =
    user_scopes_minted env session "web" "acme" at_sign_in world member_outcome asked asks

user_scopes_refresh_example :
    ClaimsOnly env tt (user_scopes env session "web" "acme" at_refresh world).1.register
user_scopes_refresh_example = user_scopes_refresh env session "web" "acme" world

abbrev ended : World env
ended = (end_connection env "s1" session ("refresh" ∷ []) world).1

ends : end_connection env "s1" session ("refresh" ∷ []) world ≡ (ok tt, ended)
unfolding end_connection delete_grants leave_index unless_gone ignored audit delete_session
    delete_refresh remove_connection connection_key reach on_error ◌>>=◌ gets modify pure get_timed
    set_timed lookup insert remove
ends = refl

end_connection_ends_example :
    NoSession env ended "s1" × NoGrants env ended ("refresh" ∷ "refresh" ∷ [])
end_connection_ends_example =
    end_connection_ends env "s1" session ("refresh" ∷ []) world ended tt ends

abbrev failing : World env
failing = record world { outages = false ∷ true ∷ true ∷ [] }

refresh_there : get_timed world.refresh 1000 "refresh" ≡ some grant
unfolding get_timed lookup
refresh_there = refl

revoke_app_outage_example :
    revoke_app env web "refresh" failing ≡ (ok tt, record failing { outages = [] })
revoke_app_outage_example =
    revoke_app_outage env web "refresh" grant [] failing refresh_there refl refl

narrow_for_assistant_iff_example :
    (contains
        (narrow_for_assistant ("files/doc:read" ∷ "files:admin" ∷ []) "files/doc:read" [])
        "files:admin"
      ≡ true)
    ↔ MayCarry ("files/doc:read" ∷ "files:admin" ∷ []) "files/doc:read" [] "files:admin"
narrow_for_assistant_iff_example =
    narrow_for_assistant_iff ("files/doc:read" ∷ "files:admin" ∷ []) "files/doc:read" []
      "files:admin"

abbrev eid_way : Way
eid_way = record {
  way_method = "eid";
  loa = "high";
  auth_time = 1;
  amr = [];
  signed_in = 1;
  ends = 20;
}

abbrev browser : Shared
browser = record {
  secret_hash = "";
  subject = "person";
  name = "";
  given_name = "";
  family_name = "";
  serial_number = "";
  directory_issuer = "";
  directory_guest = false;
  ways = record eid_way { ends = 10 } ∷ [];
  expires_at = 10;
}

browser-IsShared : IsShared browser
browser-IsShared = record { distinct = (refl, tt); covered = (omega arith, tt) }

keep-IsShared_example :
    IsShared (keep browser eid_way)
    × ((keep browser eid_way).ways ≡ other_ways eid_way browser.ways ++ eid_way ∷ [])
    × (10 ≤ (keep browser eid_way).expires_at)
    × ((bound : ℕ)
        → 10 ≤ bound
        → EndsBy bound (keep browser eid_way).ways
        → (keep browser eid_way).expires_at ≤ bound)
keep-IsShared_example = keep-IsShared browser eid_way browser-IsShared

abbrev delegated : DelegatedTokenInput
delegated = record {
  subject = "person";
  audience = "files";
  scopes = [];
  loa = "high";
  login_method = "eid";
  serial_number = "";
  tenant = "acme";
  actor = Actor.none;
  thumbprint = "key";
  ttl = 10;
}

abbrev delegated_claims : Claims
delegated_claims = record (base "person" "files" 10) {
  loa = "high";
  login_method = "eid";
  tenant = "acme";
  thumbprint = "key";
}

issues_delegated : issue_delegated env delegated ≡ some delegated_claims
unfolding issue_delegated sign join
issues_delegated = refl

issue_delegated_bounds_example :
    (delegated_claims.lifetime ≤ env.service_ttl)
    × (0 < delegated.ttl → delegated_claims.lifetime ≤ delegated.ttl)
    × (delegated_claims.subject ≡ delegated.subject)
    × (delegated_claims.act ≡ delegated.actor)
    × (delegated_claims.thumbprint ≡ delegated.thumbprint)
issue_delegated_bounds_example =
    issue_delegated_bounds env delegated delegated_claims issues_delegated
