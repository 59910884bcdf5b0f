-- ===== src/Routes/App/Used.antt =====
-- A refresh token of an AI app that was used once.
use authbyte.Prelude.{String, ◌≡◌, true, Option, none, some, ok, arith}
use authbyte.Act.Runs.{>>=-eq-ok, raise-eq-ok, on_error-eq-ok, refuse_if-eq-ok}
use authbyte.Registry.Rows.{SignInClient}
use authbyte.Session.Types.{UserSession, RefreshGrant}
use authbyte.World.{Env, World}
use authbyte.Store.Calls.{load_refresh}
use authbyte.Store.Answers.{load_refresh-eq-ok}
use authbyte.Routes.Answers.{TokenResponse}
use authbyte.Routes.Request.{Request}
use authbyte.Routes.App.{grant_refusal, reused_refresh, refresh_with_session, app_refresh}

module _ (env : Env) where
  open env use {cache}

  reused_refresh-eq-ok :
      {A : Type 0} (sid : String) (sess : UserSession) (key : String) (w v : World env) (a : A)
      → ¬ (reused_refresh env sid sess key w ≡ (ok a, v))
  unfolding reused_refresh
  reused_refresh-eq-ok sid sess key w v a h =
      let (_, w1, _, rest) = >>=-eq-ok _ _ w h in
      let (_, w2, _, last) = >>=-eq-ok _ _ w1 rest in raise-eq-ok _ w2 last

  used_session-eq-ok :
      (app : SignInClient) (key : String) (g : RefreshGrant) (o : Option UserSession)
      (w v : World env) (r : TokenResponse)
      → g.rotated ≡ true
      → ¬ (refresh_with_session env app key g o w ≡ (ok r, v))
  unfolding refresh_with_session
  used_session-eq-ok app key g none w v r used h =
      let (_, w1, _, last) = >>=-eq-ok _ _ w h in raise-eq-ok _ w1 last
  used_session-eq-ok app key g (some sess) w v r used h =
      reused_refresh-eq-ok g.session_id sess key w v r (rw used at h)

  -- A refresh token of an AI app that the store holds as used once is never answered with a token
  -- again, whatever client shows it.
  pub app_refresh_used :
      (req : Request) (app : SignInClient) (g : RefreshGrant) (w v : World env) (r : TokenResponse)
      → cache.get w.refresh w.now (env.hash (req.peek "refresh_token")) ≡ some g
      → g.rotated ≡ true
      → ¬ (app_refresh env req app w ≡ (ok r, v))
  unfolding app_refresh
  app_refresh_used req app g w v r there used h =
      let (_, w1, asked, rest1) = >>=-eq-ok _ _ w h in
      let (kept, w2, loaded, rest2) = >>=-eq-ok _ _ w1 rest1 in
      let (_, w3, _, rest3) = >>=-eq-ok _ _ w2 rest2 in
      let (o, w4, _, last) = >>=-eq-ok _ _ w3 rest3 in
      let same = (refuse_if-eq-ok _ _ w asked).1 in
      let (found_there, _) =
        load_refresh-eq-ok env _ w1 (on_error-eq-ok (load_refresh env _) grant_refusal w1 loaded) in
      let is_used : kept.rotated ≡ true = ground (arith, found_there, there, same, used) in
      used_session-eq-ok app _ kept o w4 v r is_used last
