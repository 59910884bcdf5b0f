-- ===== src/Routes/ClientAuth.antt =====
-- routes/clientauth.go: how a client presents its secret, and the sign-in client's proof.
pub mod Came
use Prim.Native.Char.{code}
use authbyte.Prelude.{
  ℕ, String, Bool, true, not, ◌&&◌, Option, none, some, Result, ok, err, leb, is_some, ◌==◌,
  if◌then◌else◌,
}
use authbyte.Act.{pure, raise, refuse_if, ◌>>=◌, ◌>>◌}
use authbyte.Registry.Rows.{SignInClient}
use authbyte.Registry.SignIn.{authenticate_sign_in as registered_proof}
use authbyte.Registry.Grants.{RegistryError}
use authbyte.Session.Types.{trim_left, trim_right}
use authbyte.World.{Env}
use authbyte.Routes.Answers.{Handler, unauthorized, param_invalid}
use authbyte.Routes.Request.{Request, text_of}

-- `strings.Cut` at one character of a text
unfoldable pub cut_text : ℕ → String → Option (String × String)
cut_text sep String.[] = none
cut_text sep (String.◌∷◌ c s) =
    let rest = cut_text sep s in
    if leb sep (code c) && leb (code c) sep
    then some (String.[], s)
    else elim rest [ none ↦ none | some p ↦ some (String.◌∷◌ c p.0, p.1) ]

abbrev pub around : ℕ → String → String × String
around sep s = elim (cut_text sep s) [ none ↦ (s, "") | some p ↦ p ]

-- An Authorization header's Basic credentials: there are none, they do not decode, or they are a
-- client and a secret.
pub data Basic : Type 0 where
  no_basic invalid_basic : Basic
  basic : String → String → Basic

-- The secret that came, if any did.
pub record Presented : Type 0 where
  pub secret : String
  pub presented : Bool

module _ (env : Env) where
  -- each part form-decoded
  unfoldable pub unescaped : String × String → Basic
  unescaped p = elim (env.query_unescape p.0) [
    | none ↦ invalid_basic
    | some id ↦ elim (env.query_unescape p.1) [ none ↦ invalid_basic | some s ↦ basic id s ]
  ]

  unfoldable pub basic_credentials : String → Basic
  unfolding cut_text unescaped trim_left trim_right
  basic_credentials header =
      let parts = around 32 header in
      if not (env.equal_fold parts.0 "Basic")
      then no_basic
      else elim (env.base64_decode (trim_right (trim_left parts.1))) [
        | none ↦ invalid_basic
        | some raw ↦ elim (cut_text 58 raw) [ none ↦ invalid_basic | some p ↦ unescaped p ]
      ]

  -- the secret of a header that is read, and of the form
  unfoldable pub one_method : Basic → String → Option String → Handler env Presented
  one_method invalid_basic client_id form = raise unauthorized
  one_method no_basic client_id form =
      pure (record { secret = text_of form; presented = is_some form })
  one_method (basic id s) client_id form = do
    refuse_if (not (id == client_id)) unauthorized
    refuse_if (is_some form) (param_invalid "client_secret")
    pure (record { secret = s; presented = true })

  unfoldable pub client_secret : Request → String → Handler env Presented
  unfolding one_method basic_credentials
  client_secret req client_id =
      one_method (basic_credentials req.authorization) client_id (req.optional "client_secret")

  -- a registry's answer whose every refusal is a 401
  unfoldable pub registered : {A : Type 0} → Result RegistryError A → Handler env A
  registered (ok a) = pure a
  registered (err e) = raise unauthorized

  unfoldable pub authenticate_sign_in : Request → String → Handler env SignInClient
  authenticate_sign_in req client_id = do
    came ← client_secret req client_id
    registered (registered_proof env.registry client_id (env.bytes came.secret) came.presented)
