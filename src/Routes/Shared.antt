-- ===== src/Routes/Shared.antt =====
-- routes/shared.go: ending a browser's shared session with the app sessions signed in under it, and
-- recording an app session there.
pub mod Browser
pub mod Joining
pub mod Fitting
pub mod Found
pub mod Held
pub mod Silent
pub mod Answering
pub mod Keeping
use authbyte.Prelude.{
  ℕ, String, Bool, true, false, not, ◌&&◌, [], ◌∷◌, Option, none, some, Assoc, length, is_some,
  ◌==◌, if◌then◌else◌,
}
use authbyte.Act.{pure, ◌>>=◌, ◌>>◌}
use authbyte.Session.Types.{UserSession}
use authbyte.World.{Env, shared_session_ended}
use authbyte.Store.Calls.{load_session, delete_session, delete_refresh}
use authbyte.Store.Index.{end_shared as take_shared, put_shared_app, load_shared}
use authbyte.Routes.Answers.{Handler, attempt, ignored}
use authbyte.Routes.Membership.{audit}

module _ (env : Env) where
  -- the refresh grant of a session that was loaded, where it has one
  unfoldable pub forget_grant : Option UserSession → Handler env (Unit {0})
  forget_grant none = pure tt
  forget_grant (some sess) =
      if sess.refresh_key == "" then pure tt else ignored env (delete_refresh env sess.refresh_key)

  unfoldable pub end_app_session : String → Handler env (Unit {0})
  end_app_session sid = do
    sess ← attempt env (load_session env sid)
    forget_grant sess
    ignored env (delete_session env sid)

  unfoldable pub end_app_sessions : Assoc String → Handler env (Unit {0})
  end_app_sessions [] = pure tt
  end_app_sessions ((client, sid) ∷ apps) = do end_app_session sid; end_app_sessions apps

  unfoldable pub end_taken : Option (Assoc String) → String → String → Handler env (Unit {0})
  end_taken none subject reason = pure tt
  end_taken (some apps) subject reason = do
    end_app_sessions apps
    audit env (shared_session_ended subject reason (length apps))

  unfoldable pub end_shared : String → String → String → Handler env (Unit {0})
  end_shared id subject reason =
      if id == ""
      then pure tt
      else (do apps ← attempt env (take_shared env id); end_taken apps subject reason)

  -- the session that a client had there before ends
  unfoldable pub replace_previous : Option String → String → Handler env Bool
  replace_previous none sid = pure false
  replace_previous (some previous) sid =
      if not (previous == "") && not (previous == sid)
      then (do end_app_session previous; pure true)
      else pure true

  unfoldable pub add_shared_app : String → ℕ → String → String → Handler env Bool
  add_shared_app id until client sid = do
    previous ← attempt env (put_shared_app env id client sid until)
    replace_previous previous sid

  unfoldable pub shared_live : String → Handler env Bool
  shared_live id = do sh ← attempt env (load_shared env id); pure (is_some sh)
