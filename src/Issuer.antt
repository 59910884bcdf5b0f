-- ===== src/Issuer.antt =====
-- issuer/issuer.go: what each kind of token states. Signing is the key manager's: the model keeps
-- the claims, and an issue fails where they cannot be signed. A lifetime is in milliseconds; the
-- issue and expiry times and the random id that every token carries are not modelled.
pub mod Laws
use authbyte.Prelude.{
  ℕ, String, Bool, true, false, not, ◌&&◌, ◌||◌, List, [], ◌∷◌, Option, none, some, ltb, leb, ◌==◌,
  if◌then◌else◌,
}
use authbyte.Claims.{Claims, Actor, acting, IdTokenClaims}
use authbyte.Registry.Scopes.{join}
use authbyte.World.{Env}

pub record UserTokenInput : Type 0 where
  pub subject : String
  pub audience : String
  pub scopes : List String
  pub loa : String
  pub login_method : String
  pub name : String
  pub given_name : String
  pub family_name : String
  pub serial_number : String
  pub tenant : String
  pub thumbprint : String
  pub client_id : String

pub record ServiceTokenInput : Type 0 where
  pub client_id : String
  pub audience : String
  pub scopes : List String
  pub tenant : String
  pub thumbprint : String

pub record AppTokenInput : Type 0 where
  pub subject : String
  pub audience : String
  pub client_id : String
  pub scopes : List String
  pub tenant : String
  pub assistant : String
  pub loa : String
  pub login_method : String
  pub connection : String
  pub ttl : ℕ

pub record DelegatedTokenInput : Type 0 where
  pub subject : String
  pub audience : String
  pub scopes : List String
  pub loa : String
  pub login_method : String
  pub serial_number : String
  pub tenant : String
  pub actor : Actor
  pub thumbprint : String
  -- 0 for the service token's
  pub ttl : ℕ

pub record IdTokenInput : Type 0 where
  pub subject : String
  pub client_id : String
  pub nonce : String
  pub auth_time : ℕ
  pub acr : String
  pub amr : List String
  pub sid : String

-- `base`, with the claims that a token may leave out left out
abbrev pub base : String → String → ℕ → Claims
base subject audience ttl = record {
  subject = subject;
  audience = audience ∷ [];
  lifetime = ttl;
  client_id = "";
  scope = "";
  loa = "";
  login_method = "";
  name = "";
  given_name = "";
  family_name = "";
  serial_number = "";
  tenant = "";
  thumbprint = "";
  act = Actor.none;
  sid = "";
}

module _ (env : Env) where
  unfoldable pub sign : Claims → Option Claims
  sign c = if env.signs c then some c else none

  unfoldable pub issue_user : UserTokenInput → Option Claims
  unfolding sign
  issue_user input = sign (record (base input.subject input.audience env.user_ttl) {
    scope = join input.scopes;
    loa = input.loa;
    login_method = input.login_method;
    name = input.name;
    given_name = input.given_name;
    family_name = input.family_name;
    serial_number = input.serial_number;
    tenant = input.tenant;
    client_id = input.client_id;
    thumbprint = input.thumbprint;
  })

  unfoldable pub issue_service : ServiceTokenInput → Option Claims
  unfolding sign
  issue_service input = sign (record (base input.client_id input.audience env.service_ttl) {
    client_id = input.client_id;
    scope = join input.scopes;
    tenant = input.tenant;
    thumbprint = input.thumbprint;
  })

  -- the one kind of token bound to no key
  unfoldable pub issue_app : AppTokenInput → Option Claims
  unfolding sign
  issue_app input =
      if input.assistant == "" || leb input.ttl 0
      then none
      else sign (record (base input.subject input.audience input.ttl) {
        scope = join input.scopes;
        loa = input.loa;
        login_method = input.login_method;
        tenant = input.tenant;
        client_id = input.client_id;
        act = acting input.assistant Actor.none;
        sid = input.connection;
      })

  unfoldable pub issue_delegated : DelegatedTokenInput → Option Claims
  unfolding sign
  issue_delegated input =
      let ttl =
        if ltb 0 input.ttl && ltb input.ttl env.service_ttl then input.ttl else env.service_ttl in
      sign (record (base input.subject input.audience ttl) {
        scope = join input.scopes;
        loa = input.loa;
        login_method = input.login_method;
        serial_number = input.serial_number;
        tenant = input.tenant;
        act = input.actor;
        thumbprint = input.thumbprint;
      })

  -- the claims of a sign-in's ID token, which is signed as another type
  unfoldable pub sign_id : IdTokenClaims → Option IdTokenClaims
  sign_id c = if env.signs_id c then some c else none

  unfoldable pub issue_id : IdTokenInput → Option IdTokenClaims
  unfolding sign_id
  issue_id input = sign_id (record {
    subject = input.subject;
    audience = input.client_id;
    lifetime = env.user_ttl;
    auth_time = input.auth_time;
    nonce = input.nonce;
    acr = input.acr;
    amr = input.amr;
    sid = input.sid;
  })
