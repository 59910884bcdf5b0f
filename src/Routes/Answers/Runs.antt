-- ===== src/Routes/Answers/Runs.antt =====
-- routes/helpers.go: what it takes for a call that may fail inside to answer.
use authbyte.Prelude.{◌+◌, String, ◌≡◌, ok, arith}
use authbyte.Act.{pure, gets, modify, ◌>>=◌}
use authbyte.Act.Runs.{raise-eq-ok, settled-eq-ok}
use authbyte.Routes.Answers.{or_internal, random_token}
use authbyte.Store.Calls.{Call}
use authbyte.World.{Env, World}

module _ (env : Env) where
  pub or_internal-eq-ok :
      {A : Type 0} (m : Call env A) (w : World env) {a : A} {u : World env}
      → or_internal env m w ≡ (ok a, u)
      → m w ≡ (ok a, u)
  unfolding or_internal
  or_internal-eq-ok m w e = settled-eq-ok m _ w (λ r x b y h. raise-eq-ok _ x h) e

  pub random_token-eq-ok :
      (w : World env) {token : String} {u : World env}
      → random_token env w ≡ (ok token, u)
      → u ≡ record w { draws = w.draws + 1 }
  unfolding random_token gets modify pure ◌>>=◌
  random_token-eq-ok w e = ground arith
