-- ===== src/Claims.antt =====
-- issuer/issuer.go: what a token states. The claims type is a library's; these are the claims that
-- the issuer writes, with "" where the claim is left out.
use authbyte.Prelude.{ℕ, String, List}

-- The chain of acting parties, the nearest first.
pub data Actor : Type 0 where
  none : Actor
  acting : String → Actor → Actor

pub record Claims : Type 0 where
  pub subject : String
  pub audience : List String
  pub lifetime : ℕ
  pub client_id : String
  pub scope : String
  pub loa : String
  pub login_method : String
  pub name : String
  pub given_name : String
  pub family_name : String
  pub serial_number : String
  pub tenant : String
  -- cnf.jkt; "" for a token bound to no key
  pub thumbprint : String
  pub act : Actor
  -- an app token's connection
  pub sid : String

-- What an ID token states.
pub record IdTokenClaims : Type 0 where
  pub subject : String
  pub audience : String
  pub lifetime : ℕ
  pub auth_time : ℕ
  pub nonce : String
  pub acr : String
  pub amr : List String
  pub sid : String
