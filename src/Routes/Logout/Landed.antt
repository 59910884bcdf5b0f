-- ===== src/Routes/Logout/Landed.antt =====
-- routes/logout.go: where a sign-out may end.
use authbyte.Prelude.{
  String, ◌≡◌, refl, sym, ap, subst, ◌∙◌, Bool, true, false, not, ◌&&◌, Option, none, some, Result,
  ok, err, ◌==◌, if◌then◌else◌,
}
use authbyte.Act.Runs.{>>=-eq-ok, pure-eq-ok, raise-eq-ok}
use authbyte.Browser.{Visit, opt_param}
use authbyte.Registry.Grants.{RegistryError}
use authbyte.Registry.SignIn.{validate_post_logout_uri}
use authbyte.Routes.Answers.{Refusal}
use authbyte.Routes.Logout.{Landing, by_provider, at_once, landing_of, required, listed, logout}
use authbyte.Upstream.{Entry, federated_method}
use authbyte.World.{Env, World}

-- the address that a sign-out ends at
abbrev pub address : Landing → String
address (by_provider a u) = u
address (at_once u) = u

address-landing_of :
    (e : Option Entry) (method redirect_uri : String)
    → address (landing_of e method redirect_uri) ≡ redirect_uri
address-landing_of none method redirect_uri = refl
address-landing_of (some e) method redirect_uri =
    address_if
      (federated_method e.provider method && not (e.provider.logout_url redirect_uri == ""))
      (e.provider.logout_url redirect_uri) redirect_uri
  where
    address_if : (b : Bool) (a u : String) → address (if b then by_provider a u else at_once u) ≡ u
    address_if true a u = refl
    address_if false a u = refl

module _ (env : Env) where
  required-eq-ok :
      (name : String) (o : Option String) (w : World env) {s : String} {u : World env}
      → required env name o w ≡ (ok s, u)
      → o ≡ some s
  required-eq-ok name none w e = absurd (raise-eq-ok _ w e)
  required-eq-ok name (some s) w e = ap some (pure-eq-ok {E = Refusal} s w e).0

  listed-eq-ok :
      (r : Result RegistryError (Unit {0})) (w : World env) {u : World env}
      → listed env r w ≡ (ok tt, u)
      → r ≡ ok tt
  listed-eq-ok (ok u) w e = refl
  listed-eq-ok (err refusal) w e = absurd (raise-eq-ok _ w e)

  -- A sign-out that is answered ends at the address that the browser named, by way of a provider or
  -- not, which is registered as a sign-out landing of the client that it named, while it is in force.
  pub logout_lands :
      (v : Visit) (w : World env) (landing : Landing) (u : World env)
      → logout env v w ≡ (ok landing, u)
      → (client_id : String) × (opt_param v.query "client_id" ≡ some client_id)
        × (opt_param v.query "redirect_uri" ≡ some (address landing))
        × (validate_post_logout_uri env.registry client_id (address landing) ≡ ok tt)
  unfolding logout
  logout_lands v w landing u e =
      let (client_id, w1, named, e1) = >>=-eq-ok _ _ w e in
      let (redirect_uri, w2, to, e2) = >>=-eq-ok _ _ w1 e1 in
      let (_, w3, on_list, e3) = >>=-eq-ok _ _ w2 e2 in
      let (_, w4, _, e4) = >>=-eq-ok _ _ w3 e3 in
      let (_, w5, _, e5) = >>=-eq-ok _ _ w4 e4 in
      let (_, w6, _, e6) = >>=-eq-ok _ _ w5 e5 in
      let here =
        sym (address-landing_of _ _ redirect_uri)
        ∙ ap address (pure-eq-ok {E = Refusal} _ w6 e6).0 in
      (
        client_id,
        required-eq-ok _ _ w named,
        required-eq-ok _ _ w1 to ∙ ap some here,
        subst (λ a. validate_post_logout_uri env.registry client_id a ≡ ok tt) here
            (listed-eq-ok _ w2 on_list),
      )
