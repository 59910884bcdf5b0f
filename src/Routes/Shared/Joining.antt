-- ===== src/Routes/Shared/Joining.antt =====
-- routes/shared.go: how a completed sign-in joins the browser's shared session.

use Prim.Native.String.{◌++◌ as append}
use authbyte.Prelude.{ℕ, ◌+◌, String, Option, none, some, ◌==◌, if◌then◌else◌}
use authbyte.Act.{pure, raise, gets, on_error, ◌>>=◌, ◌>>◌}
use authbyte.Browser.{Visit, set_cookie}
use authbyte.Routes.Answers.{Handler, or_internal, internal, random_token, wrapped}
use authbyte.Routes.Membership.{audit}
use authbyte.Routes.Shared.{end_shared}
use authbyte.Session.Types.{UserSession}
use authbyte.Session.Shared.{Way, Shared, keep}
use authbyte.Store.Calls.{StoreError, not_found}
use authbyte.Store.Index.{replace_shared, create_shared}
use authbyte.World.{Env, shared_session_created}
use authbyte.Routes.Shared.Browser.{
  shared_secret_hash, browser_shared, shared_cookie, Joined, keep_person, nobody,
}

module _ (env : Env) where
  -- The shared session that a sign-in is of, and its end.
  abbrev pub written :
      Visit → UserSession → Way → String → String → Shared → Handler env (String × ℕ)
  written v sess way id secret sh = do
    audit env (shared_session_created sess.subject way.way_method)
    set_cookie env v shared_cookie (append id (append "." secret))
    pure (id, sh.expires_at)

  unfoldable pub make_shared : Visit → UserSession → Way → String → Handler env (String × ℕ)
  unfolding keep_person shared_secret_hash
  make_shared v sess way secret = do
    id ← random_token env
    let sh =
        keep_person (keep (record nobody { secret_hash = shared_secret_hash env secret }) way) sess
    or_internal env (create_shared env id sh)
    written v sess way id secret sh

  abbrev pub when_replaced :
      Visit
      → UserSession
      → Way
      → String
      → String
      → Shared
      → Option (Unit {0})
      → Handler env (String × ℕ)
  when_replaced v sess way secret id sh (some u) = written v sess way id secret sh
  when_replaced v sess way secret id sh none = make_shared v sess way secret

  abbrev pub ended_meanwhile : StoreError → Handler env (Option (Unit {0}))
  ended_meanwhile not_found = pure none
  ended_meanwhile e = raise internal

  -- The same person's session gains the way and a new secret; anyone else's ends.
  unfoldable pub join_held :
      Visit → UserSession → Way → String → Option Joined → Handler env (String × ℕ)
  unfolding keep_person shared_secret_hash make_shared
  join_held v sess way secret none = make_shared v sess way secret
  join_held v sess way secret (some j) =
      if j.shared.subject == sess.subject
      then (do
        let sh =
            keep_person (keep (record j.shared { secret_hash = shared_secret_hash env secret }) way)
              sess
        replaced ← on_error (wrapped env (replace_shared env j.id sh)) ended_meanwhile
        when_replaced v sess way secret j.id sh replaced)
      else (do end_shared env j.id j.shared.subject "another person"; make_shared v sess way secret)

  unfoldable pub join_shared : Visit → UserSession → Handler env (String × ℕ)
  unfolding browser_shared join_held
  join_shared v sess = do
    now ← gets (λ w. w.now)
    let way : Way = record {
      way_method = sess.login_method;
      loa = sess.loa;
      auth_time = sess.auth_time;
      amr = sess.amr;
      signed_in = now;
      ends = now + env.session_ttl;
    }
    secret ← random_token env
    j ← browser_shared env v
    join_held v sess way secret j
