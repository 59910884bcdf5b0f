-- ===== src/Routes/Authorize/Checked.antt =====
-- routes/authorize.go: what `readAuthorize` has checked of a request that it passes.
use authbyte.Prelude.{
  String, ◌≡◌, refl, true, false, not, ◌&&◌, List, Option, none, some, Result, ok, err, all,
  all-contains, contains, ◌==◌, if◌then◌else◌, arith, >>=-eq-ok, if-eq-ok, subst, ◌∙◌, Bool-cases,
  inl, inr,
}
use authbyte.Browser.{AuthParams, get_param, Reply}
use authbyte.Registry.Rows.{SignInClient, kind_ai_app}
use authbyte.Registry.Grants.{RegistryError}
use authbyte.Registry.SignIn.{sign_in_client, validate_redirect_uri}
use authbyte.Routes.Asking.{
  AuthError, IdTokenAsk, SignInAsk, s256_challenge, read_id_token_ask, read_sign_in_ask,
  requested_methods,
}
use authbyte.Routes.Asking.Laws.{
  s256_challenge_read, requested_methods_offered, read_ai_app_ask_own,
}
use authbyte.Routes.Authorize.{
  AuthorizeRequest, Placed, offered, place, challenged, met, boxes_asked, read_placed, at_client,
  read_authorize, request_of, listed_as, listed_client,
}
use authbyte.Routes.Authorize.Offered.{IsOffered, offered-IsOffered}
use authbyte.World.{Env}

own_workspace :
    (kind tenant : String)
    → (kind == kind_ai_app && not ((if kind == kind_ai_app then "" else tenant) == "")) ≡ false
own_workspace kind tenant = elim (Bool-cases (kind == kind_ai_app)) [
  | inl app ↦ rw app refl
  | inr web ↦ rw web refl
]

module _ (env : Env) where
  open env use {registry, net}

  -- An address of a client in force, for which the client registered it.
  pub record IsPlaced (client_id redirect_uri : String) (client : SignInClient) : Type 0 where
    pub listed : validate_redirect_uri registry client_id redirect_uri ≡ ok tt
    pub known : sign_in_client registry client_id ≡ some client

  pub record IsChecked (req : AuthorizeRequest) : Type 0 where
    pub placed : IsPlaced req.client_id req.redirect_uri req.client
    pub challenged : (req.challenge == "") ≡ false
    pub by_s256 : req.challenge_method ≡ "S256"
    pub ways : (m : String) → contains req.named m ≡ true → IsOffered env req.client m
    pub boxes : all (contains req.client.scopes) req.app_scopes ≡ true
    -- an AI app's workspace is its assistant's
    pub workspace : (req.client.kind == kind_ai_app && not (req.tenant == "")) ≡ false

  inject_placed : (a b : Placed) → Path (Result Reply Placed) (ok a) (ok b) → a ≡ b
  inject_placed a b e = ground arith

  listed_known :
      (client_id redirect_uri : String) (c : Placed) (v : Result RegistryError (Unit {0}))
      → validate_redirect_uri registry client_id redirect_uri ≡ v
      → (o : Option SignInClient) → sign_in_client registry client_id ≡ o
      → listed_as env client_id redirect_uri v o ≡ ok c
      → IsPlaced c.client_id c.redirect_uri c.client × (c.client_id ≡ client_id)
  listed_known client_id redirect_uri c (err refusal) h o k e = ground arith
  listed_known client_id redirect_uri c (ok u) h none k e = ground arith
  listed_known client_id redirect_uri c (ok u) h (some client) k e =
      subst (λ d. IsPlaced d.client_id d.redirect_uri d.client × (d.client_id ≡ client_id))
        (inject_placed _ c e) (record { listed = h; known = k }, refl)

  listed_placed :
      (client_id redirect_uri : String) (c : Placed)
      → listed_client env client_id redirect_uri ≡ ok c
      → IsPlaced c.client_id c.redirect_uri c.client × (c.client_id ≡ client_id)
  unfolding listed_client
  listed_placed client_id redirect_uri c e =
      listed_known client_id redirect_uri c (validate_redirect_uri registry client_id redirect_uri)
        refl (sign_in_client registry client_id) refl e

  pub place_placed :
      (p : AuthParams) (c : Placed)
      → place env p ≡ ok c
      → IsPlaced c.client_id c.redirect_uri c.client × (c.client_id ≡ get_param p "client_id")
  unfolding place
  place_placed p c e =
      let (_, e1) = if-eq-ok (not (get_param p "response_type" == "code")) _ _ e in
      let (_, e2) = if-eq-ok (get_param p "redirect_uri" == "") _ _ e1 in
      let (_, e3) = if-eq-ok (get_param p "client_id" == "") _ _ e2 in
      listed_placed (get_param p "client_id") (get_param p "redirect_uri") c e3

  challenged-eq-ok :
      (o : Option (String × String)) (c : String × String) → challenged env o ≡ ok c → o ≡ some c
  challenged-eq-ok none c e = ground arith
  challenged-eq-ok (some d) c e = ground arith

  met-eq-ok :
      (o : Option (List String)) (named : List String) → met env o ≡ ok named → o ≡ some named
  met-eq-ok none named e = ground arith
  met-eq-ok (some other) named e = ground arith

  boxes_asked_own :
      (client : SignInClient) (p : AuthParams) (boxes : List String)
      → boxes_asked env client p ≡ ok boxes
      → all (contains client.scopes) boxes ≡ true
  boxes_asked_own client p boxes e = ground (arith, read_ai_app_ask_own net client p {read = boxes})

  -- A request that passed the checks is what they found.
  request-IsChecked :
      (p : AuthParams) (c : Placed) (challenge : String × String) (id_ask : IdTokenAsk)
      (sign_ask : SignInAsk) (boxes named : List String) (req : AuthorizeRequest)
      → IsPlaced c.client_id c.redirect_uri c.client
      → s256_challenge p ≡ some challenge
      → all (contains c.client.scopes) boxes ≡ true
      → all (contains (offered env c.client)) named ≡ true
      → request_of p c challenge id_ask sign_ask boxes named ≡ req
      → IsChecked req × (req.client_id ≡ c.client_id) × (req.redirect_uri ≡ c.redirect_uri)
  request-IsChecked p c challenge id_ask sign_ask boxes named req placed first own ways e =
      subst (λ r. IsChecked r × (r.client_id ≡ c.client_id) × (r.redirect_uri ≡ c.redirect_uri)) e
        (
          record {
            placed = placed;
            challenged = (s256_challenge_read p first).0;
            by_s256 = (s256_challenge_read p first).1;
            ways = λ m h.
                offered-IsOffered env c.client m
                  (all-contains (contains (offered env c.client)) named m ways h);
            boxes = own;
            workspace = own_workspace c.client.kind (get_param p "tenant");
          },
          refl,
          refl,
        )

  inject : (a b : AuthorizeRequest) → Path (Result AuthError AuthorizeRequest) (ok a) (ok b) → a ≡ b
  inject a b e = ground arith

  read_placed-IsChecked :
      (p : AuthParams) (c : Placed) (req : AuthorizeRequest)
      → IsPlaced c.client_id c.redirect_uri c.client
      → read_placed env p c ≡ ok req
      → IsChecked req × (req.client_id ≡ c.client_id) × (req.redirect_uri ≡ c.redirect_uri)
  unfolding read_placed
  read_placed-IsChecked p c req placed e =
      let (challenge, first, e1) = >>=-eq-ok (challenged env (s256_challenge p)) _ e in
      let (id_ask, _, e2) = >>=-eq-ok (read_id_token_ask p) _ e1 in
      let (sign_ask, _, e3) = >>=-eq-ok (read_sign_in_ask p) _ e2 in
      let (boxes, asked, e4) = >>=-eq-ok (boxes_asked env c.client p) _ e3 in
      let (named, ways, e5) =
        >>=-eq-ok (met env (requested_methods (offered env c.client) (get_param p "acr_values"))) _
          e4 in
      request-IsChecked p c challenge id_ask sign_ask boxes named req placed
        (challenged-eq-ok (s256_challenge p) challenge first)
        (boxes_asked_own c.client p boxes asked)
        (requested_methods_offered (offered env c.client) (get_param p "acr_values")
          (met-eq-ok _ named ways))
        (inject _ req e5)

  at_client-eq-ok :
      (p : AuthParams) (c : Placed) (r : Result AuthError AuthorizeRequest) (req : AuthorizeRequest)
      → at_client env p c r ≡ ok req
      → r ≡ ok req
  at_client-eq-ok p c (ok other) req e = ground arith
  at_client-eq-ok p c (err refusal) req e = ground arith

  -- A request that the authorization endpoint goes on with names a client in force and an address
  -- that is registered for it, carries a challenge of the method S256, and asks only for ways that
  -- the client may use and this deployment can start; the boxes of an AI app's are its row's, and it
  -- names no workspace.
  pub read_authorize-IsChecked :
      (p : AuthParams) (req : AuthorizeRequest)
      → read_authorize env p ≡ ok req
      → IsChecked req × (req.client_id ≡ get_param p "client_id")
  unfolding read_authorize
  read_authorize-IsChecked p req e =
      let (c, placed, rest) = >>=-eq-ok (place env p) _ e in
      let (is_placed, named) = place_placed p c placed in
      let (checked, same, _) =
        read_placed-IsChecked p c req is_placed
          (at_client-eq-ok p c (read_placed env p c) req rest) in
      (checked, same ∙ named)
