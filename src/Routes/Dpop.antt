-- ===== src/Routes/Dpop.antt =====
-- routes/dpop.go and session/replay.go: the proof of a key that an issuing endpoint asks for. Each
-- proof is accepted once.
use authbyte.Prelude.{ℕ, String, Bool, true, not, ◌&&◌, Result, ok, err, if◌then◌else◌}
use authbyte.Act.{pure, raise, gets, modify, refuse_if, on_error, ◌>>=◌, ◌>>◌}
use authbyte.World.{Env}
use authbyte.Store.Calls.{Call, reach}
use authbyte.Routes.Answers.{Handler, Refusal, unauthorized, nonce_wanted, internal}
use authbyte.Routes.Request.{Request, Proof, ProofError, missing_nonce, invalid_proof}

module _ (env : Env) where
  open env use {cache}

  abbrev pub proof_refusal : ProofError → Refusal
  proof_refusal missing_nonce = if env.nonce_enabled then nonce_wanted else unauthorized
  proof_refusal invalid_proof = unauthorized

  abbrev pub verified : Result ProofError Proof → Handler env Proof
  verified (ok p) = pure p
  verified (err e) = raise (proof_refusal e)

  -- SET … NX of the proof's id: whether it is seen for the first time
  unfoldable pub check_and_set : String → ℕ → Call env Bool
  check_and_set jti ttl = do
    reach env
    added ← gets (λ w. cache.add w.proofs w.now jti true ttl)
    modify (λ w. record w { proofs = added.1 })
    pure added.0

  unfoldable pub verify_endpoint_dpop : Request → Handler env String
  verify_endpoint_dpop req = do
    res ← verified req.proof
    now ← gets (λ w. w.now)
    refuse_if (env.nonce_enabled && not (env.nonce_verifies res.nonce now)) nonce_wanted
    first ← on_error (check_and_set res.jti env.proof_window) (λ e. raise internal)
    refuse_if (not first) unauthorized
    pure res.thumbprint
