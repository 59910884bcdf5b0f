-- ===== src/Registry/Rows.antt =====
-- registry/registry.go: the rows of the registry document, as the YAML decoder fills them.
use authbyte.Prelude.{String, Bool, List, Option}
use authbyte.Prelude.{◌∷◌, []}

abbrev pub client_confidential : String
client_confidential = "confidential"

abbrev pub client_public : String
client_public = "public"

abbrev pub kind_ai_app : String
kind_ai_app = "ai_app"

abbrev pub claim_name : String
claim_name = "name"

abbrev pub claim_given_name : String
claim_given_name = "given_name"

abbrev pub claim_family_name : String
claim_family_name = "family_name"

abbrev pub claim_serial_number : String
claim_serial_number = "serial_number"

-- One audience that a service client may target, and the scopes it may ask for there.
pub record Grant : Type 0 where
  pub audience : String
  pub scopes : List String
  pub assistant_levels : List String

-- One registered service client.
pub record Client : Type 0 where
  pub client_id : String
  pub secret_ref : String
  pub enabled : Bool
  pub grants : List Grant
  pub act_from : List String

-- A registered client that signs people in.
pub record SignInClient : Type 0 where
  pub client_id : String
  pub enabled : Bool
  pub kind : String
  pub client_type : String
  pub secret_ref : String
  pub audience : String
  pub scopes : List String
  pub membership_required : Option Bool
  pub baseline_scopes : List String
  pub claims : List String
  pub methods : List String
  pub signing : Bool
  pub single_sign_on : Bool
  pub client_name : String
  pub logo_uri : String
  pub redirect_uris : List String
  pub post_logout_redirect_uris : List String
  pub backchannel_logout_uri : String

pub record Document : Type 0 where
  pub service_clients : List Client
  pub sign_in_clients : List SignInClient

abbrev pub known_claims : List String
known_claims = claim_name ∷ claim_given_name ∷ claim_family_name ∷ claim_serial_number ∷ []
