-- ===== src/Routes/Logout.antt =====
-- routes/logout.go: the browser's leg of a sign-out.
pub mod Landed
use authbyte.Prelude.{
  String, Bool, true, false, not, ◌&&◌, Option, none, some, Result, ok, err, ◌==◌, if◌then◌else◌,
}
use authbyte.Act.{pure, raise, ◌>>=◌, ◌>>◌}
use authbyte.Browser.{Visit, opt_param, clear_cookie}
use authbyte.Registry.Grants.{RegistryError}
use authbyte.Registry.SignIn.{validate_post_logout_uri}
use authbyte.Routes.Answers.{Handler, param_required, param_invalid}
use authbyte.Routes.Asking.{text_of}
use authbyte.Routes.Membership.{audit}
use authbyte.Routes.Shared.{end_shared}
use authbyte.Routes.Shared.Browser.{Joined, shared_cookie, browser_shared}
use authbyte.Upstream.{Entry, by_method, federated_method}
use authbyte.World.{Env, logged_out}

-- Where a sign-out sends the browser: to a provider's address, which sends it on to the landing, or to
-- the landing itself.
pub data Landing : Type 0 where
  -- the provider's address, the landing
  by_provider : String → String → Landing
  at_once : String → Landing

abbrev pub federated_entry : Option Entry → String → Bool
federated_entry none method = false
federated_entry (some e) method = federated_method e.provider method

-- a provider with no address to sign out at is not visited
abbrev pub landing_of : Option Entry → String → String → Landing
landing_of none method redirect_uri = at_once redirect_uri
landing_of (some e) method redirect_uri =
    let address = e.provider.logout_url redirect_uri in
    if federated_method e.provider method && not (address == "")
    then by_provider address redirect_uri
    else at_once redirect_uri

module _ (env : Env) where
  abbrev pub required : String → Option String → Handler env String
  required name none = raise (param_required name)
  required name (some s) = pure s

  abbrev pub listed : Result RegistryError (Unit {0}) → Handler env (Unit {0})
  listed (ok u) = pure tt
  listed (err e) = raise (param_invalid "redirect_uri")

  -- the shared session ends with every app session under it, and its cookie goes
  abbrev pub end_joined : Visit → Option Joined → Handler env (Unit {0})
  end_joined v none = pure tt
  end_joined v (some j) = do
    end_shared env j.id j.shared.subject "sign-out"
    clear_cookie env v shared_cookie

  unfoldable pub logout : Visit → Handler env Landing
  logout v = do
    client_id ← required "client_id" (opt_param v.query "client_id")
    redirect_uri ← required "redirect_uri" (opt_param v.query "redirect_uri")
    listed (validate_post_logout_uri env.registry client_id redirect_uri)
    joined ← browser_shared env v
    end_joined v joined
    let method = text_of (opt_param v.query "login_method")
    let entry = by_method env.sign_in.upstreams method
    audit env (logged_out method (federated_entry entry method))
    pure (landing_of entry method redirect_uri)
