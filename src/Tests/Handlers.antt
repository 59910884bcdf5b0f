-- ===== src/Tests/Handlers.antt =====
-- The handlers' theorems at the deployment.
use authbyte.Act.{gets, modify, on_error, pure, raise, refuse_if, ◌>>=◌}
use authbyte.Issuer.{issue_delegated, issue_service, issue_user, sign}
use authbyte.Prelude.{insert, lookup, none, ok, refl, remove, ◌≡◌}
use authbyte.Registry.Grants.{
  allowed_scopes, authenticate, enabled_client, granted, may_act_from, scopes_of_grant,
  wrong_secret,
}
use authbyte.Registry.Scopes.{is_space}
use authbyte.Registry.Secrets.{fold_diff, subtle_mismatch}
use authbyte.Registry.SignIn.{
  ai_app, authenticate_sign_in as sign_in_proof, membership_required, sign_in_client,
}
use authbyte.Rolebyte.{answer, answered_for, claim, memberships, person_key, settled}
use authbyte.Routes.Answers.{TokenResponse, issued, or_unauthorized, present, random_token, stored}
use authbyte.Routes.ClientAuth.{
  authenticate_sign_in, basic_credentials, client_secret, cut_text, one_method, registered,
  unescaped,
}
use authbyte.Routes.Dpop.{check_and_set, verify_endpoint_dpop}
use authbyte.Routes.Ending.{NoGrant}
use authbyte.Routes.Membership.{
  ask_memberships, audit, choose_membership, is_asked, member_scopes, outcome_of,
  resolve_memberships, settle_outcome, user_scopes,
}
use authbyte.Routes.Pkce.{verify_pkce}
use authbyte.Routes.Request.{form_string}
use authbyte.Routes.Revoke.{end_bound, revoke, revoke_bound, revoke_grant, revoke_session}
use authbyte.Routes.Revoke.Ended.{revoke-NoGrant}
use authbyte.Routes.Shared.{end_shared}
use authbyte.Routes.Token.Exchange.{
  carried, check_connection, exchange_for, grant_token_exchange, may_be_acted_for,
  refuse_delegation,
}
use authbyte.Routes.Token.Exchanging.{IsAuthorized, grant_token_exchange-IsAuthorized}
use authbyte.Routes.Token.Person.{
  answer_code, answer_refresh, asked_id_token, code_session, exchange_code,
  grant_authorization_code, grant_refresh_token, listed_claim, refresh_bound_session, refresh_with,
  refreshed_session, user_token_of,
}
use authbyte.Routes.Token.Redeeming.{IsAnswered, grant_authorization_code_redeemed}
use authbyte.Routes.Token.Refreshing.{IsRefresh, grant_refresh_token_bound}
use authbyte.Routes.Token.Service.{
  allowed, answer_service, grant_client_credentials, requested_scopes, service_account_scopes,
  service_scopes,
}
use authbyte.Routes.Token.Serving.{IsService, grant_client_credentials_authorized}
use authbyte.Session.Types.{session_expired, trim_left, trim_right}
use authbyte.Store.Calls.{
  consume_app_code, delete_refresh, delete_session, found, load_refresh, load_session, reach,
  replace_session, save_refresh,
}
use authbyte.Tests.Deployment.{answer_of, env, request, service_request, world}
use authbyte.Tests.Memory.{get_timed, set_timed}
use authbyte.World.{World}

abbrev refresh_answer : TokenResponse
refresh_answer = answer_of (grant_refresh_token env request "key" world).0

abbrev refresh_left : World env
refresh_left = (grant_refresh_token env request "key" world).1

refresh_runs : grant_refresh_token env request "key" world ≡ (ok refresh_answer, refresh_left)
unfolding form_string client_secret one_method basic_credentials cut_text unescaped registered
    lookup stored load_refresh load_session reach found session_expired user_scopes is_asked
    membership_required member_scopes resolve_memberships ask_memberships memberships claim answer
    settled answered_for choose_membership outcome_of settle_outcome issued sign audit gets modify
    raise pure refuse_if on_error ◌>>=◌ get_timed set_timed person_key is_space trim_left trim_right
    grant_refresh_token authenticate_sign_in sign_in_proof sign_in_client refresh_with
    refresh_bound_session refreshed_session answer_refresh issue_user user_token_of listed_claim
refresh_runs = refl

grant_refresh_token_bound_example : IsRefresh env request "key" world refresh_answer refresh_left
grant_refresh_token_bound_example =
    grant_refresh_token_bound env request "key" world refresh_left refresh_answer refresh_runs

abbrev code_answer : TokenResponse
code_answer = answer_of (grant_authorization_code env request "key" world).0

abbrev code_left : World env
code_left = (grant_authorization_code env request "key" world).1

code_runs : grant_authorization_code env request "key" world ≡ (ok code_answer, code_left)
unfolding form_string client_secret one_method basic_credentials cut_text unescaped registered
    lookup stored load_refresh load_session reach found session_expired user_scopes is_asked
    membership_required member_scopes resolve_memberships ask_memberships memberships claim answer
    settled answered_for choose_membership outcome_of settle_outcome issued sign audit gets modify
    raise pure refuse_if on_error ◌>>=◌ get_timed set_timed person_key is_space trim_left trim_right
    grant_authorization_code authenticate_sign_in sign_in_proof sign_in_client exchange_code
    or_unauthorized consume_app_code code_session verify_pkce random_token save_refresh
    replace_session answer_code asked_id_token issue_user user_token_of listed_claim insert remove
code_runs = refl

grant_authorization_code_redeemed_example : IsAnswered env request "key" world code_answer code_left
grant_authorization_code_redeemed_example =
    grant_authorization_code_redeemed env request "key" world code_left code_answer code_runs

abbrev service_answer : TokenResponse
service_answer = answer_of (grant_client_credentials env service_request "key" world).0

abbrev service_left : World env
service_left = (grant_client_credentials env service_request "key" world).1

service_runs :
    grant_client_credentials env service_request "key" world ≡ (ok service_answer, service_left)
unfolding form_string client_secret one_method basic_credentials cut_text unescaped registered
    lookup stored load_refresh load_session reach found session_expired user_scopes is_asked
    membership_required member_scopes resolve_memberships ask_memberships memberships claim answer
    settled answered_for choose_membership outcome_of settle_outcome issued sign audit gets modify
    raise pure refuse_if on_error ◌>>=◌ get_timed set_timed person_key is_space trim_left trim_right
    grant_client_credentials authenticate allowed allowed_scopes scopes_of_grant granted
    requested_scopes service_scopes service_account_scopes answer_service issue_service
    enabled_client wrong_secret subtle_mismatch fold_diff
service_runs = refl

grant_client_credentials_authorized_example :
    IsService env service_request "key" world service_answer.access_token service_left
grant_client_credentials_authorized_example =
    grant_client_credentials_authorized env service_request "key" world service_left service_answer
      service_runs

abbrev exchange_answer : TokenResponse
exchange_answer = answer_of (grant_token_exchange env service_request "key" world).0

abbrev exchange_left : World env
exchange_left = (grant_token_exchange env service_request "key" world).1

exchange_runs :
    grant_token_exchange env service_request "key" world ≡ (ok exchange_answer, exchange_left)
unfolding form_string client_secret one_method basic_credentials cut_text unescaped registered
    lookup stored load_refresh load_session reach found session_expired user_scopes is_asked
    membership_required member_scopes resolve_memberships ask_memberships memberships claim answer
    settled answered_for choose_membership outcome_of settle_outcome issued sign audit gets modify
    raise pure refuse_if on_error ◌>>=◌ get_timed set_timed person_key is_space trim_left trim_right
    grant_token_exchange authenticate allowed allowed_scopes scopes_of_grant granted
    requested_scopes exchange_for refuse_delegation may_be_acted_for may_act_from check_connection
    carried issue_delegated enabled_client wrong_secret subtle_mismatch fold_diff
exchange_runs = refl

grant_token_exchange-IsAuthorized_example :
    IsAuthorized env world service_request exchange_answer.access_token "key"
grant_token_exchange-IsAuthorized_example =
    grant_token_exchange-IsAuthorized env service_request "key" world exchange_left exchange_answer
      exchange_runs

abbrev revoke_left : World env
revoke_left = (revoke env request world).1

revoke_runs : revoke env request world ≡ (ok tt, revoke_left)
unfolding form_string client_secret one_method basic_credentials cut_text unescaped registered
    lookup stored load_refresh load_session reach found session_expired user_scopes is_asked
    membership_required member_scopes resolve_memberships ask_memberships memberships claim answer
    settled answered_for choose_membership outcome_of settle_outcome issued sign audit gets modify
    raise pure refuse_if on_error ◌>>=◌ get_timed set_timed person_key is_space trim_left trim_right
    revoke authenticate_sign_in sign_in_proof sign_in_client ai_app revoke_bound
    verify_endpoint_dpop check_and_set present revoke_grant revoke_session end_bound delete_session
    delete_refresh end_shared remove insert
revoke_runs = refl

no_app : ai_app env.registry "web" ≡ none
unfolding ai_app lookup
no_app = refl

revoke-NoGrant_example : NoGrant env revoke_left "refresh"
revoke-NoGrant_example =
    revoke-NoGrant env request "refresh" "web" world revoke_left tt refl refl no_app revoke_runs
