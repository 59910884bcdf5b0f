-- ===== src/Routes/Pkce.antt =====
-- routes/helpers.go: `verifyPKCE`. SHA-256 with base64url is the environment's, and
-- `subtle.ConstantTimeCompare` is equality.
use authbyte.Prelude.{String, ◌≡◌, ◌↔◌, Bool, true, false, not, ◌==◌, eq_iff, if◌then◌else◌, arith}
use authbyte.World.{Env}

abbrev pub pkce_s256 : String
pkce_s256 = "S256"

module _ (env : Env) where
  unfoldable pub verify_pkce : String → String → String → Bool
  verify_pkce verifier challenge method =
      if not (method == pkce_s256) then false else env.hash verifier == challenge

  -- A verifier is accepted exactly when the method is S256 and its hash is the challenge: the plain
  -- method never verifies.
  pub verify_pkce_iff :
      (verifier challenge method : String)
      → (verify_pkce verifier challenge method ≡ true)
        ↔ ((method ≡ "S256") × (env.hash verifier ≡ challenge))
  unfolding verify_pkce
  verify_pkce_iff verifier challenge method = (
    λ h. (
      ground (arith, eq_iff method "S256"),
      ground (arith, eq_iff method "S256", eq_iff (env.hash verifier) challenge),
    ),
    λ (m, c). ground (arith, eq_iff method "S256", eq_iff (env.hash verifier) challenge),
  )
