-- ===== src/SignIn.antt =====
-- What signing a person in takes from outside this repository: the identity store's procedures, the
-- card's engine, and the libraries that read texts.
use Prim.Native.Char.{Char}
use authbyte.Prelude.{String, Bool, Option}
use authbyte.Upstream.{Providers}

-- store/postgres.go: what a sign-in tells the identity store of its person.
pub record Profile : Type 0 where
  pub name : String
  pub given_name : String
  pub family_name : String
  pub serial_number : String
  pub login_method : String
  pub email : String
  pub provider : String

-- webeid/webeid.go: whom the card's engine read off a card.
pub record CardSubject : Type 0 where
  pub id_code : String
  pub country_code : String
  pub given_name : String
  pub surname : String
  pub common_name : String

pub record CardEngine : Type 0 where
  -- the card's answer, the challenge
  pub validate : String → String → Option CardSubject
  -- `unverifiedCertificate` of the answer, "" for none
  pub certificate : String → String

pub record SignIn : Type 1 where
  pub upstreams : Providers
  pub card : Option CardEngine
  -- the identity store, whose procedure answers a person's subject and whether it is new, or fails
  pub People : Type 0
  pub ensure_mapping : People → String → Profile → Option (String × Bool) × People
  -- `identitycode.Canonical`, of a code and a country
  pub canonical : String → String → Option String
  -- `unicode.ToLower`, and whether `base64.RawURLEncoding` decodes a text
  pub lower : Char → Char
  pub base64url_decodes : String → Bool
  -- the language of a page, by the cookie, the request's ui_locales and Accept-Language
  pub choose_language : String → String → String → String
  -- the setting BaseURL without a slash at its end, and its origin as browsers name it
  pub base_url : String
  pub self_origin : String
