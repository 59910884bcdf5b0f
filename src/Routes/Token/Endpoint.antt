-- ===== src/Routes/Token/Endpoint.antt =====
-- routes/token.go: `token`, which answers each grant by its handler.
use authbyte.Prelude.{String, ◌||◌, Option, none, some, ◌==◌, if◌then◌else◌}
use authbyte.Act.{raise, ◌>>=◌}
use authbyte.Registry.Rows.{SignInClient}
use authbyte.Registry.SignIn.{ai_app}
use authbyte.World.{Env}
use authbyte.Routes.Answers.{Handler, TokenResponse, param_invalid}
use authbyte.Routes.Request.{Request, form_string}
use authbyte.Routes.Dpop.{verify_endpoint_dpop}
use authbyte.Routes.App.{grant_for_app}
use authbyte.Routes.Token.Person.{grant_authorization_code, grant_refresh_token}
use authbyte.Routes.Token.Service.{grant_client_credentials}
use authbyte.Routes.Token.Exchange.{grant_token_exchange}

abbrev pub grant_exchange : String
grant_exchange = "urn:ietf:params:oauth:grant-type:token-exchange"

module _ (env : Env) where
  abbrev pub app_named : Option String → Option SignInClient
  app_named none = none
  app_named (some id) = ai_app env.registry id

  -- an AI app is answered without a proof
  unfoldable pub asking_app : Request → String → Option SignInClient
  asking_app req grant =
      if grant == "authorization_code" || grant == "refresh_token"
      then app_named (req.optional "client_id")
      else none

  unfoldable pub dispatch : Request → String → String → Handler env TokenResponse
  dispatch req grant thumbprint =
      if grant == "authorization_code"
      then grant_authorization_code env req thumbprint
      else if grant == "client_credentials"
      then grant_client_credentials env req thumbprint
      else if grant == "refresh_token"
      then grant_refresh_token env req thumbprint
      else if grant == grant_exchange
      then grant_token_exchange env req thumbprint
      else raise (param_invalid "grant_type")

  unfoldable pub token : Request → Handler env TokenResponse
  token req = do
    grant ← form_string env req "grant_type"
    elim (asking_app req grant) [
      | some app ↦ grant_for_app env req grant app
      | none ↦ verify_endpoint_dpop env req >>= dispatch req grant
    ]
