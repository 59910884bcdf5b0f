-- ===== src/Routes/App/Reused.antt =====
-- What ends an AI app's connection, and what its end leaves.
use authbyte.Prelude.{String, ◌≡◌, ◌≢◌, List, [], ◌∷◌, ok, eq_iff, ◌==◌, Bool-cases, inl, inr, All}
use authbyte.Act.Runs.{>>=-eq-ok}
use authbyte.Session.Types.{UserSession}
use authbyte.World.{Env, World}
use authbyte.Store.Calls.{delete_refresh}
use authbyte.Routes.Answers.{unless_gone}
use authbyte.Routes.Connection.{delete_grants, end_connection}
use authbyte.Routes.Ending.{
  NoGrant, NoSession, Gone, Gone-chains, after-Gone, delete_grants-Gone, leave_index-Gone,
  audit-Gone, unless_gone-delete_refresh, unless_gone-delete_session,
}

module _ (env : Env) where
  -- Each key that names a grant has none.
  abbrev pub NoGrants : World env → List String → Type 0
  NoGrants w keys = All (λ k. k ≢ "" → NoGrant env w k) keys

  NoGrants-Gone :
      (u v : World env) (keys : List String) → Gone env u v → NoGrants u keys → NoGrants v keys
  NoGrants-Gone u v [] g n = tt
  NoGrants-Gone u v (k ∷ ks) g (here, rest) =
      (λ named. g.no_grant k (here named), NoGrants-Gone u v ks g rest)

  delete_grants-NoGrants :
      (keys : List String) (w v : World env) (u : Unit {0})
      → delete_grants env keys w ≡ (ok u, v)
      → NoGrants v keys
  unfolding delete_grants
  delete_grants-NoGrants [] w v u h = tt
  delete_grants-NoGrants (k ∷ ks) w v u h = elim (Bool-cases (k == "")) [
    | inl blank ↦ (
      λ named. absurd (named ((eq_iff k "").0 blank)),
      delete_grants-NoGrants ks w v u (rw blank at h),
    )
    | inr named ↦
        let (u1, w1, first, rest) =
          >>=-eq-ok (unless_gone env (delete_refresh env k)) _ w (rw named at h) in
        let g = after-Gone env _ w1 v u (delete_grants-Gone env ks) rest in
        (
          λ _. g.no_grant k (unless_gone-delete_refresh env k w w1 u1 first),
          delete_grants-NoGrants ks w1 v u rest,
        )
  ]

  -- The end of a connection that is answered leaves neither its session, nor the grant of its
  -- refresh token, nor a grant under any key that was named.
  pub end_connection_ends :
      (sid : String) (sess : UserSession) (keys : List String) (w v : World env) (u : Unit {0})
      → end_connection env sid sess keys w ≡ (ok u, v)
      → NoSession env v sid × NoGrants v (sess.refresh_key ∷ keys)
  unfolding end_connection
  end_connection_ends sid sess keys w v u h =
      let (u1, w1, session, rest1) = >>=-eq-ok _ _ w h in
      let (u2, w2, grants, rest2) = >>=-eq-ok _ _ w1 rest1 in
      let (u3, w3, index, last) = >>=-eq-ok _ _ w2 rest2 in
      let all_keys = sess.refresh_key ∷ keys in
      let g2 = after-Gone env _ w1 w2 u2 (delete_grants-Gone env all_keys) grants in
      let g3 = after-Gone env _ w2 w3 u3 (leave_index-Gone env sid sess) index in
      let g4 = after-Gone env _ w3 v u (audit-Gone env _) last in
      let g = (Gone-chains env).joins w2 w3 v g3 g4 in
      (
        g.no_session sid (g2.no_session sid (unless_gone-delete_session env sid w w1 u1 session)),
        NoGrants-Gone w2 v all_keys g (delete_grants-NoGrants all_keys w1 w2 u2 grants),
      )
