-- ===== src/Routes/Request.antt =====
-- What a handler reads of a request. Reading the form and verifying the DPoP proof are libraries'
-- (azugo and go-authbyte/dpop): a request is given as what they answer.
use authbyte.Prelude.{String, List, Option, none, some, Result}
use authbyte.Act.{pure, raise}
use authbyte.World.{Env}
use authbyte.Routes.Answers.{Handler, param_required}

-- A verified proof: its id, its key's thumbprint and the nonce it carries.
pub record Proof : Type 0 where
  pub jti : String
  pub thumbprint : String
  pub nonce : String

pub data ProofError : Type 0 where
  missing_nonce invalid_proof : ProofError

pub record Request : Type 0 where
  -- `Form.String`, where none is a parameter that is required and not there
  pub required : String → Option String
  -- `Form.StringOptional`
  pub optional : String → Option String
  -- `PostArgs().Peek`, and `PeekMulti`
  pub peek : String → String
  pub peek_multi : String → List String
  -- the Authorization header
  pub authorization : String
  -- what `dpop.Verify` answers for the request
  pub proof : Result ProofError Proof

module _ (env : Env) where
  abbrev pub given : {A : Type 0} → String → Option A → Handler env A
  given name none = raise (param_required name)
  given name (some a) = pure a

  unfoldable pub form_string : Request → String → Handler env String
  form_string req name = given name (req.required name)

-- an optional parameter, or ""
abbrev pub text_of : Option String → String
text_of none = ""
text_of (some s) = s
