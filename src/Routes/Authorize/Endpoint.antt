-- ===== src/Routes/Authorize/Endpoint.antt =====
-- routes/authorize.go and routes/signin.go: the authorization endpoint, and the choice on the page.
use Prim.Native.String.{◌++◌ as append}
use authbyte.Prelude.{
  ℕ, String, Bool, true, false, not, ◌&&◌, List, [], ◌∷◌, Option, none, some, Result, ok, err,
  contains, ◌==◌, if◌then◌else◌,
}
use authbyte.Act.{pure, raise, gets, ◌>>=◌, ◌>>◌}
use authbyte.Browser.{
  AuthParams, Visit, Reply, error_at, provider_at, authorize_at, ways_page, cannot_start, get_param,
  request_params, Screen, shown, browser_binding, bind_browser, take_notice, choice_token,
  from_own_page, page_language,
}
use authbyte.Identity.Methods.{login_web_eid}
use authbyte.Routes.Answers.{
  Handler, forbidden, no_provider, param_invalid, or_internal, random_token,
}
use authbyte.Routes.Asking.{upstream_acr, upstream_prompt}
use authbyte.Routes.Authorize.{
  AuthorizeRequest, offered, page_ways, provider_of, new_flow, read_authorize,
}
use authbyte.Routes.Membership.{audit}
use authbyte.Routes.Shared.Browser.{answer_from_shared}
use authbyte.Session.Types.{Flow}
use authbyte.Store.Calls.{save_flow}
use authbyte.Upstream.{Entry, acr_for}
use authbyte.World.{Env, login_failure}

abbrev pub flow_ttl : ℕ
flow_ttl = 600000

module _ (env : Env) (encode : AuthParams → String) where
  abbrev pub read_as : Result Reply AuthorizeRequest → Screen env AuthorizeRequest
  read_as (ok req) = pure req
  read_as (err answer) = raise answer

  -- a request that was read, or its answer
  unfoldable pub read : AuthParams → Screen env AuthorizeRequest
  unfolding read_authorize
  read p = read_as (read_authorize env p)

  unfoldable pub refuse_at_client : {A : Type 0} → AuthorizeRequest → String → Screen env A
  refuse_at_client req error = raise (error_at req.redirect_uri error req.spa_state)

  -- the flow of a sign-in at a provider
  abbrev pub flow_to : AuthorizeRequest → List String → String → Bool → ℕ → Entry → String → Flow
  flow_to req methods binding from_page now e nonce =
      record (new_flow env req methods binding from_page (encode req.params) now) {
        entrust_redirect_uri = append env.sign_in.base_url e.return_path;
        upstream = e.name;
        nonce = nonce;
      }

  unfoldable pub start_at :
      AuthorizeRequest → List String → String → String → Bool → Entry → Handler env Reply
  start_at req methods binding ui_locales from_page e = do
    state ← random_token env
    nonce ← random_token env
    now ← gets (λ w. w.now)
    or_internal env
        (save_flow env state (flow_to req methods binding from_page now e nonce) flow_ttl)
    pure (
        provider_at e.name (record {
          state = state;
          redirect_uri = append env.sign_in.base_url e.return_path;
          acr_values = upstream_acr (acr_for e) methods;
          ui_locales = ui_locales;
          prompt = upstream_prompt req.sign_ask;
          max_age = req.sign_ask.max_age;
          nonce = nonce;
        }))

  abbrev pub start_with :
      AuthorizeRequest → List String → String → String → Bool → Option Entry → Handler env Reply
  start_with req methods binding ui_locales from_page none = raise no_provider
  start_with req methods binding ui_locales from_page (some e) =
      start_at req methods binding ui_locales from_page e

  unfoldable pub start_provider :
      AuthorizeRequest → List String → String → String → Bool → Handler env Reply
  unfolding provider_of start_at
  start_provider req methods binding ui_locales from_page =
      start_with req methods binding ui_locales from_page (provider_of env methods)

  -- the challenge for the card: a flow of its own, whose state the page carries
  unfoldable pub start_card : AuthorizeRequest → String → Handler env String
  unfolding new_flow
  start_card req binding = do
    nonce ← random_token env
    state ← random_token env
    now ← gets (λ w. w.now)
    let flow = record (new_flow env req (login_web_eid ∷ []) binding true (encode req.params) now) {
      webeid_nonce = nonce;
    }
    or_internal env (save_flow env state flow flow_ttl)
    pure state

  abbrev pub ways_of : Option (List String) → List String
  ways_of none = []
  ways_of (some ways) = ways

  abbrev pub card_state : AuthorizeRequest → String → List String → Handler env (Option String)
  card_state req binding ways =
      if contains ways login_web_eid
      then (do state ← start_card req binding; pure (some state))
      else pure none

  unfoldable pub show_page : AuthorizeRequest → String → String → Handler env Reply
  show_page req binding notice = do
    let ways = ways_of (page_ways env req (offered env req.client))
    state ← card_state req binding ways
    pure (ways_page (record { ways = ways; notice = notice; card_state = state }))

  abbrev pub page_or_provider :
      Visit → AuthorizeRequest → String → Option (List String) → Handler env Reply
  page_or_provider v req binding (some ways) = do
    notice ← take_notice env v
    show_page req binding notice
  page_or_provider v req binding none =
      start_provider req req.named binding req.sign_ask.ui_locales false

  abbrev pub go_on : Visit → AuthorizeRequest → Option Reply → Screen env Reply
  go_on v req (some answer) = pure answer
  go_on v req none =
      if req.sign_ask.is_none
      then refuse_at_client req "login_required"
      else shown env (do
        binding ← bind_browser env v
        page_or_provider v req binding (page_ways env req (offered env req.client)))

  unfoldable pub authorize : Visit → Screen env Reply
  unfolding read answer_from_shared
  authorize v = do
    req ← read (request_params v)
    if v.is_post && browser_binding env v == ""
        then pure (authorize_at req.params)
        else (do answered ← shown env (answer_from_shared env v req); go_on v req answered)

  -- a post that the page did not send
  unfoldable pub turn_away : {A : Type 0} → String → Screen env A
  turn_away reason = do shown env (audit env (login_failure reason)); raise (cannot_start forbidden)

  abbrev pub again : Visit → AuthorizeRequest → String → Screen env Reply
  again v req notice = shown env (do binding ← bind_browser env v; show_page req binding notice)

  abbrev pub picked : Visit → AuthorizeRequest → List String → String → Screen env Reply
  picked v req ways binding =
      let way = get_param v.form "way" in
      if not (get_param v.form "csrf" == choice_token env binding)
      then turn_away "sign-in choice without the page's token"
      else if not (contains ways way)
      then turn_away "sign-in choice names a way the page did not offer"
      else if way == login_web_eid
      then again v req "noscript"
      else shown env (do
        bound ← bind_browser env v
        start_provider req (way ∷ []) binding (page_language env v req.sign_ask.ui_locales) true)

  abbrev pub on_page : Visit → AuthorizeRequest → Option (List String) → Screen env Reply
  on_page v req none = raise (cannot_start (param_invalid "acr_values"))
  on_page v req (some ways) =
      if browser_binding env v == ""
      then again v req "expired"
      else picked v req ways (browser_binding env v)

  unfoldable pub choose : Visit → Screen env Reply
  unfolding read
  choose v =
      if not (from_own_page env v) then turn_away "sign-in choice sent from another origin" else (do
        req ← read v.query
        if req.sign_ask.is_none
            then refuse_at_client req "login_required"
            else on_page v req (page_ways env req (offered env req.client)))
