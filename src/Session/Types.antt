-- ===== src/Session/Types.antt =====
-- session/session.go: login flows, application codes, sessions and refresh grants. A `time.Time` is
-- the number of milliseconds since the zero time, so 0 is the zero time; Unix seconds are numbers.
pub mod Laws
use Prim.Native.Char.{code}
use Prim.Native.String.{◌++◌ as append}
use authbyte.Prelude.{
  ℕ, String, Bool, true, false, not, ◌&&◌, ◌||◌, List, Option, leb, ltb, ◌==◌, if◌then◌else◌,
}
use authbyte.Registry.Scopes.{is_space}

-- `now.Before(t)`, of a time that may be the zero time
abbrev pub is_before : ℕ → ℕ → Bool
is_before now t = ltb now t

abbrev pub is_zero : ℕ → Bool
is_zero t = leb t 0

pub record Flow : Type 0 where
  pub code_challenge : String
  pub code_challenge_method : String
  pub app_redirect_uri : String
  pub spa_state : String
  pub entrust_redirect_uri : String
  pub upstream : String
  pub requested_methods : List String
  pub client_id : String
  pub webeid_nonce : String
  pub tenant : String
  pub nonce : String
  pub openid : Bool
  pub client_nonce : String
  pub forced_login : Bool
  pub max_age : Option ℕ
  pub started : ℕ
  pub binding : String
  pub picker : Bool
  pub request : String
  pub app_scopes : List String
  pub session_id : String

pub record AppCode : Type 0 where
  pub session_id : String
  pub code_challenge : String
  pub code_challenge_method : String
  pub client_id : String
  pub redirect_uri : String
  pub tenant : String
  pub openid : Bool
  pub nonce : String
  pub assistant : String
  pub app_scopes : List String

-- One organisation seal that a person may sign with.
pub record Seal : Type 0 where
  pub id : String
  pub label : String
  pub certificate : String

pub record Capabilities : Type 0 where
  pub sign_identity_id : String
  pub signing_certificate : String
  pub auth_certificate : String
  pub seals : List Seal
  pub seals_known : Bool

pub record UserSession : Type 0 where
  pub subject : String
  pub name : String
  pub given_name : String
  pub family_name : String
  pub serial_number : String
  pub loa : String
  pub login_method : String
  pub client_id : String
  pub tenant : String
  pub thumbprint : String
  pub capabilities : Option Capabilities
  pub directory_issuer : String
  pub directory_guest : Bool
  pub expires_at : ℕ
  pub refresh_key : String
  pub auth_time : ℕ
  pub amr : List String
  pub sid : String
  pub shared : String
  pub assistant : String
  pub app_scopes : List String
  pub connected_at : ℕ
  pub last_used : ℕ

-- One AI app's connection as an assistant's index keeps it.
pub record Connection : Type 0 where
  pub id : String
  pub session_id : String

pub record RefreshGrant : Type 0 where
  pub session_id : String
  pub client_id : String
  pub rotated : Bool

unfoldable pub session_expired : UserSession → ℕ → Bool
session_expired s now = is_zero s.expires_at || not (is_before now s.expires_at)

-- `strings.TrimSpace`
unfoldable pub trim_left : String → String
trim_left String.[] = String.[]
trim_left (String.◌∷◌ c s) =
    let rest = trim_left s in if is_space (code c) then rest else String.◌∷◌ c s

abbrev pub cons_unless : Bool → String → String → String
cons_unless true full String.[] = String.[]
cons_unless true full (String.◌∷◌ c s) = full
cons_unless false full s = full

unfoldable pub trim_right : String → String
trim_right String.[] = String.[]
trim_right (String.◌∷◌ c s) =
    let rest = trim_right s in cons_unless (is_space (code c)) (String.◌∷◌ c rest) rest

abbrev pub or_else_name : String → String → String
or_else_name n next = if not (n == "") then n else next

unfoldable pub display_name : UserSession → String
display_name s = or_else_name s.name (
    or_else_name (trim_right (trim_left (append s.given_name (append " " s.family_name))))
      s.subject)
