-- ===== src/World.antt =====
-- What a request can see and change: the cache's instances, the register, the clock, the draws of
-- random values, and the audit trail. A call of the cache that cannot be answered changes nothing;
-- which calls those are is the environment's to choose.
use authbyte.Prelude.{ℕ, String, Bool, List, Option, Assoc}
use authbyte.Registry.Load.{Bytes, Registry}
use authbyte.Registry.Validate.Address.{Net}
use authbyte.Claims.{Claims, IdTokenClaims}
use authbyte.Register.{Register}
use authbyte.Session.Types.{Flow, AppCode, UserSession, RefreshGrant}
use authbyte.Session.Shared.{Shared}
use authbyte.Session.Cache.{Cache}
use authbyte.SignIn.{SignIn}

-- The audit trail's entries that the modelled operations write (audit/audit.go).
pub data AuditEvent : Type 0 where
  -- actor, login method
  session_ended : String → String → AuditEvent
  -- reason
  login_failure : String → AuditEvent
  -- subject, level, login method, audience, scopes
  user_token_issued : String → String → String → String → List String → AuditEvent
  -- client, audience, tenant, scopes
  service_token_issued : String → String → String → List String → AuditEvent
  -- client, the subject acted for, audience, scopes
  delegated_token_issued : String → String → String → List String → AuditEvent
  -- client, subject, reason
  delegation_refused : String → String → String → AuditEvent
  -- the key asked about
  answered_for_another : String → AuditEvent
  -- subject, reason, how many app sessions
  shared_session_ended : String → String → ℕ → AuditEvent
  -- subject, method
  shared_session_created : String → String → AuditEvent
  -- client, reason
  shared_session_refused : String → String → AuditEvent
  -- subject, client, method
  shared_session_reused : String → String → String → AuditEvent
  -- subject, level, method
  login_success : String → String → String → AuditEvent
  -- method, whether the provider is visited
  logged_out : String → Bool → AuditEvent
  -- subject, level, whether it is new
  identity_written : String → String → Bool → AuditEvent

-- What the code takes from outside this repository, and its configuration.
pub record Env : Type 1 where
  pub cache : Cache
  pub register : Register
  pub registry : Registry
  pub net : Net
  pub sign_in : SignIn
  -- the n-th random token drawn
  pub random : ℕ → String
  -- SHA-256, then unpadded base64url
  pub hash : String → String
  -- whether the key manager signs these claims; a failure is an internal error
  pub signs : Claims → Bool
  pub signs_id : IdTokenClaims → Bool
  -- an access token that this issuer signed and that is in force, and the connection it names
  pub parse_token : ℕ → String → Option (Claims × String)
  -- the bytes of a text, `strings.EqualFold`, base64 and form decoding
  pub bytes : String → Bytes
  pub equal_fold : String → String → Bool
  pub base64_decode : String → Option String
  pub query_unescape : String → Option String
  -- whether proofs must carry this server's nonce, whether a nonce is one at a time, and how long
  -- an accepted proof is remembered: its greatest age and the leeway
  pub nonce_enabled : Bool
  pub nonce_verifies : String → ℕ → Bool
  pub proof_window : ℕ
  -- `claims.IsService`
  pub is_service : Claims → Bool
  pub user_ttl : ℕ
  pub service_ttl : ℕ
  pub session_ttl : ℕ
  pub app_token_ttl : ℕ

module _ (env : Env) where
  pub record World : Type 0 where
    pub now : ℕ
    -- one for each call of the cache to come: true for a call that cannot be answered
    pub outages : List Bool
    pub flows : env.cache.Contents Flow
    pub codes : env.cache.Contents AppCode
    pub sessions : env.cache.Contents UserSession
    pub refresh : env.cache.Contents RefreshGrant
    pub shared : env.cache.Contents Shared
    pub shared_apps : env.cache.Contents (Assoc String)
    pub connections : env.cache.Contents (Assoc ℕ)
    pub proofs : env.cache.Contents Bool
    pub register : env.register.State
    pub people : env.sign_in.People
    -- the cookies that answers set, the latest first; "" for one cleared
    pub jar : Assoc String
    pub draws : ℕ
    pub events : List AuditEvent
