-- ===== src/Routes/Answers.antt =====
-- What a handler answers: a refusal, or a token response (routes/response/response.go). A handler
-- that wrote a refusal has returned, so a refusal is the error of its action.
pub mod Runs
use authbyte.Prelude.{ℕ, ◌+◌, ◌/◌, String, List, Option, none, some}
use authbyte.Act.{Act, pure, raise, on_error, gets, modify, ◌>>=◌, ◌>>◌}
use authbyte.Claims.{Claims, IdTokenClaims}
use authbyte.Session.Types.{Capabilities}
use authbyte.Store.Calls.{StoreError, not_found, unavailable, exists, Call}
use authbyte.World.{Env, World}

pub data Refusal : Type 0 where
  -- 401, the 401 that asks for a server nonce, 403, and the 401 whose code says that an AI app's connection has ended
  unauthorized nonce_wanted forbidden connection_ended : Refusal
  -- 403 err:membership:notMember
  not_member : Refusal
  -- 502 and 503 err:upstream:unavailable: the register, the store
  register_unavailable store_unavailable : Refusal
  -- a parameter missing, or not what it must be
  param_required param_invalid : String → Refusal
  -- an OAuth error of the token endpoint for an AI app, 400
  oauth : String → Refusal
  -- 404: no one provider offers the methods
  no_provider : Refusal
  -- any other failure, 500
  internal : Refusal

-- `int64(ttl.Seconds())` of a lifetime in milliseconds
unfoldable pub seconds : ℕ → ℕ
seconds lifetime = lifetime / 1000

pub record TokenResponse : Type 0 where
  pub access_token : Claims
  pub token_type : String
  pub expires_in : ℕ
  pub refresh_token : String
  pub id_token : Option IdTokenClaims
  pub issued_token_type : String
  pub scope : String
  pub capabilities : Option Capabilities
  pub tenants : List String

-- `storeRefusal`: an entry that is gone, or a store that could not answer
unfoldable pub store_refusal : StoreError → Refusal
store_refusal not_found = unauthorized
store_refusal unavailable = store_unavailable
store_refusal exists = store_unavailable

module _ (env : Env) where
  abbrev pub Handler : Type 0 → Type 0
  Handler A = Act (World env) Refusal A

  -- a token that could not be issued
  unfoldable pub issued : {A : Type 0} → Option A → Handler A
  issued none = raise internal
  issued (some c) = pure c

  -- a call of the store whose failure is answered with `storeRefusal`
  unfoldable pub stored : {A : Type 0} → Call env A → Handler A
  stored m = on_error m (λ e. raise (store_refusal e))

  -- a call of the store whose every failure is a 401
  unfoldable pub or_unauthorized : {A : Type 0} → Call env A → Handler A
  or_unauthorized m = on_error m (λ e. raise unauthorized)

  abbrev pub absent : {A : Type 0} → StoreError → Handler (Option A)
  absent not_found = pure none
  absent e = raise (store_refusal e)

  abbrev pub wrapped : {A : Type 0} → Call env A → Call env (Option A)
  wrapped m = m >>= λ a. pure (some a)

  -- a call of the store whose failure is answered as it is, which is no answer of its own
  unfoldable pub or_internal : {A : Type 0} → Call env A → Handler A
  or_internal m = on_error m (λ e. raise internal)

  -- a call of the store whose missing entry is a case of its own
  unfoldable pub present : {A : Type 0} → Call env A → Handler (Option A)
  present m = on_error (wrapped m) absent

  -- a call of the store whose failure is only logged
  unfoldable pub attempt : {A : Type 0} → Call env A → Handler (Option A)
  attempt m = on_error (wrapped m) (λ e. pure none)

  -- the same, of a call that answers nothing
  unfoldable pub ignored : Call env (Unit {0}) → Handler (Unit {0})
  ignored m = on_error m (λ e. pure tt)

  abbrev pub gone : StoreError → Handler (Unit {0})
  gone not_found = pure tt
  gone e = raise (store_refusal e)

  -- a call that may find nothing to remove
  unfoldable pub unless_gone : Call env (Unit {0}) → Handler (Unit {0})
  unless_gone m = on_error m gone

  -- `randomToken`: the next random value
  unfoldable pub random_token : Handler String
  random_token = do
    token ← gets (λ w. env.random w.draws)
    modify (λ w. record w { draws = w.draws + 1 })
    pure token
