-- ===== src/Routes/Authorize/Homed.antt =====
-- routes/authorize.go and routes/signin.go: where the authorization endpoint sends a browser.
use authbyte.Prelude.{
  ℕ, String, ◌≡◌, refl, Bool, true, false, List, Option, none, some, Result, ok, err, arith, subst,
  sym, ◌==◌, ◌∙◌, ◌>>=◌ as chain, ◌&&◌,
}
use authbyte.Act.Meets.{
  Outcome, Any, Meets, Meets-Any, Meets-pure, Meets-raise, Meets-if, Meets-bind, Meets-on_error,
}
use authbyte.Browser.{
  AuthParams, Visit, WaysPage, Reply, code_at, error_at, provider_at, authorize_at, request_at,
  ways_page, assistant_page, cannot_start, refused, get_param, request_params, shown,
  browser_binding,
}
use authbyte.Registry.Rows.{SignInClient}
use authbyte.Registry.SignIn.{sign_in_client, validate_redirect_uri}
use authbyte.Registry.Grants.{RegistryError}
use authbyte.Routes.Answers.{Handler, Refusal}
use authbyte.Routes.Asking.{AuthError}
use authbyte.Routes.Authorize.{
  AuthorizeRequest, Placed, offered, page_ways, provider_of, place, read_placed, at_client,
  read_authorize, listed_as,
}
use authbyte.Routes.Authorize.Checked.{place_placed, read_authorize-IsChecked}
use authbyte.Routes.Authorize.Endpoint.{
  read, refuse_at_client, start_at, start_provider, start_with, read_as, show_page,
  page_or_provider, go_on, authorize,
}
use authbyte.Routes.Shared.Browser.{
  Joined, Found, found_way, refused_for, unasked, answer_from_shared, answer_joined, answer_found,
  answer_by, code_if,
}
use authbyte.Session.Shared.{Way}
use authbyte.Upstream.{Entry, AuthorizeParams}
use authbyte.World.{Env, World}

-- the address of a client that an answer goes to
unfoldable pub address_of : Reply → Option String
address_of (code_at u code state) = some u
address_of (error_at u error state) = some u
address_of (provider_at name params) = none
address_of (authorize_at p) = none
address_of (request_at query) = none
address_of (ways_page page) = none
address_of (assistant_page ticket own) = none
address_of (cannot_start e) = none
address_of (refused e) = none

abbrev pub reply_of : Result Reply Reply → Reply
reply_of (ok answer) = answer
reply_of (err answer) = answer

module _ (env : Env) (encode : AuthParams → String) where
  -- An answer that stays away from addresses that are not the client's.
  abbrev Homed : String → Reply → Type 0
  Homed client answer =
      (u : String)
      → address_of answer ≡ some u
      → validate_redirect_uri env.registry client u ≡ ok tt

  some_eq : (a b : String) → Path (Option String) (some a) (some b) → a ≡ b
  some_eq a b e = ground arith

  -- An answer that names no client's address.
  elsewhere : (client : String) (answer : Reply) → address_of answer ≡ none → Homed client answer
  elsewhere client answer h u e = absurd (ground (arith, h, e))

  at_home :
      (client u : String) (answer : Reply)
      → address_of answer ≡ some u
      → validate_redirect_uri env.registry client u ≡ ok tt
      → Homed client answer
  at_home client u answer h listed v e =
      subst (λ a. validate_redirect_uri env.registry client a ≡ ok tt) (some_eq u v (sym h ∙ e))
        listed

  provider_at-Homed :
      (client name : String) (params : AuthorizeParams) → Homed client (provider_at name params)
  unfolding address_of
  provider_at-Homed client name params = elsewhere client (provider_at name params) refl

  ways_page-Homed : (client : String) (page : WaysPage) → Homed client (ways_page page)
  unfolding address_of
  ways_page-Homed client page = elsewhere client (ways_page page) refl

  authorize_at-Homed : (client : String) (p : AuthParams) → Homed client (authorize_at p)
  unfolding address_of
  authorize_at-Homed client p = elsewhere client (authorize_at p) refl

  cannot_start-Homed : (client : String) (e : Refusal) → Homed client (cannot_start e)
  unfolding address_of
  cannot_start-Homed client e = elsewhere client (cannot_start e) refl

  refused-Homed : (client : String) (e : Refusal) → Homed client (refused e)
  unfolding address_of
  refused-Homed client e = elsewhere client (refused e) refl

  code_at-Homed :
      (client u code state : String)
      → validate_redirect_uri env.registry client u ≡ ok tt
      → Homed client (code_at u code state)
  unfolding address_of
  code_at-Homed client u code state own = at_home client u (code_at u code state) refl own

  error_at-Homed :
      (client u error state : String)
      → validate_redirect_uri env.registry client u ≡ ok tt
      → Homed client (error_at u error state)
  unfolding address_of
  error_at-Homed client u error state own = at_home client u (error_at u error state) refl own

  shown-Homed :
      {A : Type 0} (client : String) (m : Handler env A) → Meets (Homed client) Any (shown env m)
  unfolding shown
  shown-Homed client m =
      Meets-on_error m _ (Meets-Any m) (λ e _. Meets-raise (refused e) (refused-Homed client e))

  -- a part whose value is an answer
  shown_answer-Homed :
      (client : String) (m : Handler env Reply)
      → Meets Any (Homed client) m
      → Meets (Homed client) (Homed client) (shown env m)
  unfolding shown
  shown_answer-Homed client m h =
      Meets-on_error m _ h (λ e _. Meets-raise (refused e) (refused-Homed client e))

  start_with-Homed :
      (client : String) (req : AuthorizeRequest) (methods : List String) (binding ui : String)
      (from_page : Bool) (e : Option Entry)
      → Meets Any (Homed client) (start_with env encode req methods binding ui from_page e)
  unfolding start_at
  start_with-Homed client req methods binding ui from_page none = Meets-raise _ tt
  start_with-Homed client req methods binding ui from_page (some e) =
      Meets-bind {R = Any} _ _ (Meets-Any _) λ state _.
        Meets-bind {R = Any} _ _ (Meets-Any _) λ nonce _.
          Meets-bind {R = Any} _ _ (Meets-Any _) λ now _.
            Meets-bind {R = Any} _ _ (Meets-Any _)
              λ saved _. Meets-pure _ (provider_at-Homed client e.name _)

  start_provider-Homed :
      (client : String) (req : AuthorizeRequest) (methods : List String) (binding ui : String)
      (from_page : Bool)
      → Meets Any (Homed client) (start_provider env encode req methods binding ui from_page)
  unfolding start_provider
  start_provider-Homed client req methods binding ui from_page =
      start_with-Homed client req methods binding ui from_page (provider_of env methods)

  show_page-Homed :
      (client : String) (req : AuthorizeRequest) (binding notice : String)
      → Meets Any (Homed client) (show_page env encode req binding notice)
  unfolding show_page
  show_page-Homed client req binding notice =
      Meets-bind {R = Any} _ _ (Meets-Any _) λ state _. Meets-pure _ (ways_page-Homed client _)

  page_or_provider-Homed :
      (client : String) (v : Visit) (req : AuthorizeRequest) (binding : String)
      (ways : Option (List String))
      → Meets Any (Homed client) (page_or_provider env encode v req binding ways)
  page_or_provider-Homed client v req binding (some ways) =
      Meets-bind {R = Any} _ _ (Meets-Any _) λ notice _. show_page-Homed client req binding notice
  page_or_provider-Homed client v req binding none =
      start_provider-Homed client req req.named binding req.sign_ask.ui_locales false

  -- A request whose address is the client's.
  abbrev Owns : String → AuthorizeRequest → Type 0
  Owns client req = validate_redirect_uri env.registry client req.redirect_uri ≡ ok tt

  abbrev HomedIf : String → Option Reply → Type 0
  HomedIf client none = Unit
  HomedIf client (some answer) = Homed client answer

  refuse_at_client-Homed :
      {A : Type 0} {Q : A → Type 0} (client : String) (req : AuthorizeRequest) (error : String)
      → Owns client req
      → Meets (Homed client) Q (refuse_at_client env encode req error)
  unfolding refuse_at_client
  refuse_at_client-Homed client req error own =
      Meets-raise _ (error_at-Homed client req.redirect_uri error req.spa_state own)

  go_on-Homed :
      (client : String) (v : Visit) (req : AuthorizeRequest) (answered : Option Reply)
      → Owns client req
      → HomedIf client answered
      → Meets (Homed client) (Homed client) (go_on env encode v req answered)
  go_on-Homed client v req (some answer) own home = Meets-pure answer home
  go_on-Homed client v req none own home =
      Meets-if req.sign_ask.is_none _ _ (refuse_at_client-Homed client req "login_required" own) (
        shown_answer-Homed client _ (
          Meets-bind {R = Any} _ _ (Meets-Any _) λ binding _.
            page_or_provider-Homed client v req binding
              (page_ways env req (offered env req.client))))

  code_if-Homed :
      (client : String) (req : AuthorizeRequest) (j : Joined) (way : Way) (sid : String)
      (live : Bool)
      → Owns client req
      → Meets Any (HomedIf client) (code_if env req j way sid live)
  code_if-Homed client req j way sid true own = Meets-bind {R = Any} _ _ (Meets-Any _) λ app_code _.
      Meets-bind {R = Any} _ _ (Meets-Any _) λ saved _.
        Meets-bind {R = Any} _ _ (Meets-Any _)
          λ noted _. Meets-pure _ (code_at-Homed client req.redirect_uri app_code req.spa_state own)
  code_if-Homed client req j way sid false own =
      Meets-bind {R = Any} _ _ (Meets-Any _) λ ended _. Meets-pure none tt

  answer_found-Homed :
      (client : String) (req : AuthorizeRequest) (j : Joined) (now : ℕ) (found : Found)
      → Owns client req
      → Meets Any (HomedIf client) (answer_found env req j now found)
  unfolding answer_found answer_by
  answer_found-Homed client req j now (found_way way) own =
      Meets-bind {R = Any} _ _ (Meets-Any _) λ public _.
        Meets-bind {R = Any} _ _ (Meets-Any _) λ sid _.
          Meets-bind {R = Any} _ _ (Meets-Any _) λ made _.
            Meets-bind {R = Any} _ _ (Meets-Any _) λ added _.
              Meets-bind {R = Any} _ _ (Meets-Any _)
                λ live _. code_if-Homed client req j way sid live own
  answer_found-Homed client req j now (refused_for why) own =
      Meets-bind {R = Any} _ _ (Meets-Any _) λ noted _. Meets-pure none tt
  answer_found-Homed client req j now unasked own = Meets-pure none tt

  answer_joined-Homed :
      (client : String) (req : AuthorizeRequest) (j : Option Joined)
      → Owns client req
      → Meets Any (HomedIf client) (answer_joined env req j)
  answer_joined-Homed client req none own = Meets-pure none tt
  answer_joined-Homed client req (some j) own = Meets-bind {R = Any} _ _ (Meets-Any _) λ now _.
      Meets-bind {R = Any} _ _ (Meets-Any _)
        λ found _. answer_found-Homed client req j now found own

  shown_some-Homed :
      (client : String) (m : Handler env (Option Reply))
      → Meets Any (HomedIf client) m
      → Meets (Homed client) (HomedIf client) (shown env m)
  unfolding shown
  shown_some-Homed client m h =
      Meets-on_error m _ h (λ e _. Meets-raise (refused e) (refused-Homed client e))

  inject_err : (a b : Reply) → Path (Result Reply AuthorizeRequest) (err a) (err b) → a ≡ b
  inject_err a b e = ground arith

  listed_as-Homed :
      (client_id redirect_uri : String) (answer : Reply) (v : Result RegistryError (Unit {0}))
      (o : Option SignInClient)
      → listed_as env client_id redirect_uri v o ≡ err answer
      → address_of answer ≡ none
  unfolding address_of
  listed_as-Homed client_id redirect_uri answer (err refusal) o e = ground arith
  listed_as-Homed client_id redirect_uri answer (ok u) none e = ground arith
  listed_as-Homed client_id redirect_uri answer (ok u) (some client) e = ground arith

  -- A refusal of a request that could be read goes nowhere, or to its client's own address.
  place-Homed :
      (p : AuthParams) (answer : Reply) → place env p ≡ err answer → address_of answer ≡ none
  unfolding place address_of
  place-Homed p answer e = ground (
    arith,
    listed_as-Homed (get_param p "client_id") (get_param p "redirect_uri") answer
        (validate_redirect_uri env.registry (get_param p "client_id") (get_param p "redirect_uri"))
        (sign_in_client env.registry (get_param p "client_id")),
  )

  at_client-Homed :
      (client : String) (p : AuthParams) (c : Placed) (r : Result AuthError AuthorizeRequest)
      → validate_redirect_uri env.registry client c.redirect_uri ≡ ok tt
      → (answer : Reply) → at_client env p c r ≡ err answer
      → Homed client answer
  at_client-Homed client p c (ok req) own answer e = absurd (ground arith)
  at_client-Homed client p c (err refusal) own answer e =
      subst (Homed client) (inject_err _ answer e)
        (error_at-Homed client c.redirect_uri refusal (get_param p "state") own)

  read_authorize-Homed :
      (p : AuthParams) (first : Result Reply Placed)
      → place env p ≡ first
      → (answer : Reply) → chain first (λ c. at_client env p c (read_placed env p c)) ≡ err answer
      → Homed (get_param p "client_id") answer
  read_authorize-Homed p (err refusal) placed answer e =
      subst (Homed (get_param p "client_id")) (inject_err refusal answer e)
        (elsewhere (get_param p "client_id") refusal (place-Homed p refusal placed))
  read_authorize-Homed p (ok c) placed answer e =
      let (is_placed, named) = place_placed env p c placed in
      at_client-Homed (get_param p "client_id") p c (read_placed env p c)
        (subst (λ i. validate_redirect_uri env.registry i c.redirect_uri ≡ ok tt) named
          is_placed.listed)
        answer e

  owned :
      (p : AuthParams) (req : AuthorizeRequest)
      → read_authorize env p ≡ ok req
      → Owns (get_param p "client_id") req
  owned p req e =
      let (checked, named) = read_authorize-IsChecked env p req e in
      subst (λ i. validate_redirect_uri env.registry i req.redirect_uri ≡ ok tt) named
        checked.placed.listed

  read_as-Homed :
      (p : AuthParams) (r : Result Reply AuthorizeRequest)
      → read_authorize env p ≡ r
      → Meets
          (Homed (get_param p "client_id"))
          (Owns (get_param p "client_id"))
          (read_as env encode r)
  unfolding read_authorize
  read_as-Homed p (ok req) e = Meets-pure req (owned p req e)
  read_as-Homed p (err answer) e =
      Meets-raise answer (read_authorize-Homed p (place env p) refl answer e)

  read-Homed :
      (p : AuthParams)
      → Meets (Homed (get_param p "client_id")) (Owns (get_param p "client_id")) (read env encode p)
  unfolding read
  read-Homed p = read_as-Homed p (read_authorize env p) refl

  authorize-Homed :
      (v : Visit)
      → let client = get_param (request_params v) "client_id" in
        Meets (Homed client) (Homed client) (authorize env encode v)
  unfolding authorize answer_from_shared
  authorize-Homed v =
      let client = get_param (request_params v) "client_id" in
      Meets-bind _ _ (read-Homed (request_params v)) λ req own.
        Meets-if (v.is_post && browser_binding env v == "") _ _
          (Meets-pure _ (authorize_at-Homed client req.params))
          (Meets-bind _ _
            (shown_some-Homed client _
              (Meets-bind {R = Any} _ _ (Meets-Any _) λ j _. answer_joined-Homed client req j own))
            λ answered home. go_on-Homed client v req answered own home)

  Outcome-Homed :
      (client : String) (r : Result Reply Reply)
      → Outcome (Homed client) (Homed client) r
      → Homed client (reply_of r)
  Outcome-Homed client (ok answer) home = home
  Outcome-Homed client (err answer) home = home

  -- Whatever comes of an authorization request, an answer that sends the browser to a client's
  -- address, with a code or with an error, sends it to one that is registered for the client that
  -- the request names, while that client is in force.
  pub authorize_home :
      (v : Visit) (w : World env) (u : String)
      → address_of (reply_of (authorize env encode v w).0) ≡ some u
      → validate_redirect_uri env.registry (get_param (request_params v) "client_id") u ≡ ok tt
  authorize_home v w u e =
      Outcome-Homed _ (authorize env encode v w).0 ((authorize-Homed v).at w) u e
