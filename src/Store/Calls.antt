-- ===== src/Store/Calls.antt =====
-- session/store.go: the store's operations on flows, codes, sessions and refresh grants, each one
-- command of the cache. A missing or ended entry is `not_found`; any other failure is
-- `unavailable`, and `exists` refuses to write over a session.
use authbyte.Prelude.{
  ℕ, ◌+◌, ◌-◌, String, not, ◌||◌, [], ◌∷◌, Option, none, some, ok, err, leb, if◌then◌else◌,
}
use authbyte.Act.{Act, pure, raise, gets, modify, refuse_if, ◌>>=◌, ◌>>◌}
use authbyte.Session.Types.{Flow, AppCode, UserSession, RefreshGrant, session_expired, is_zero}
use authbyte.World.{Env, World}

pub data StoreError : Type 0 where
  not_found unavailable exists : StoreError

module _ (env : Env) where
  open env use {cache}

  abbrev pub Call : Type 0 → Type 0
  Call A = Act (World env) StoreError A

  -- Whether this call of the cache is answered.
  unfoldable pub reach : Call (Unit {0})
  reach w = elim w.outages [
    | [] ↦ (ok tt, w)
    | down ∷ rest ↦ (if down then err unavailable else ok tt, record w { outages = rest })
  ]

  unfoldable pub found : {A : Type 0} → Option A → Call A
  found none = raise not_found
  found (some a) = pure a

  unfoldable pub save_flow : String → Flow → ℕ → Call (Unit {0})
  save_flow state f ttl = do
    reach
    modify (λ w. record w { flows = cache.set w.flows w.now state f ttl })

  -- GETDEL of a login flow: it is used once
  unfoldable pub consume_flow : String → Call Flow
  consume_flow state = do
    reach
    popped ← gets (λ w. cache.pop w.flows w.now state)
    modify (λ w. record w { flows = popped.1 })
    found popped.0

  unfoldable pub save_app_code : String → AppCode → ℕ → Call (Unit {0})
  save_app_code code c ttl = do
    reach
    modify (λ w. record w { codes = cache.set w.codes w.now code c ttl })

  unfoldable pub consume_app_code : String → Call AppCode
  consume_app_code code = do
    reach
    popped ← gets (λ w. cache.pop w.codes w.now code)
    modify (λ w. record w { codes = popped.1 })
    found popped.0

  -- The end is recorded on the session, which is answered.
  unfoldable pub create_session : String → UserSession → ℕ → Call UserSession
  create_session sid sess lifetime = do
    now ← gets (λ w. w.now)
    let ended = record sess { expires_at = now + lifetime }
    reach
    added ← gets (λ w. cache.add w.sessions w.now sid ended lifetime)
    modify (λ w. record w { sessions = added.1 })
    refuse_if (not added.0) exists
    pure ended

  unfoldable pub replace_session : String → UserSession → Call (Unit {0})
  replace_session sid sess = do
    now ← gets (λ w. w.now)
    refuse_if (is_zero sess.expires_at || leb sess.expires_at now) not_found
    reach
    replaced ← gets (λ w. cache.replace w.sessions w.now sid sess (sess.expires_at - w.now))
    modify (λ w. record w { sessions = replaced.1 })
    refuse_if (not replaced.0) not_found

  unfoldable pub load_session : String → Call UserSession
  load_session sid = do
    reach
    kept ← gets (λ w. cache.get w.sessions w.now sid)
    sess ← found kept
    now ← gets (λ w. w.now)
    refuse_if (session_expired sess now) not_found
    pure sess

  unfoldable pub delete_session : String → Call (Unit {0})
  delete_session sid = do reach; modify (λ w. record w { sessions = cache.del w.sessions sid })

  unfoldable pub save_refresh : String → RefreshGrant → ℕ → Call (Unit {0})
  save_refresh key g expires_at = do
    now ← gets (λ w. w.now)
    refuse_if (leb expires_at now) not_found
    reach
    modify (λ w. record w { refresh = cache.set w.refresh w.now key g (expires_at - w.now) })

  unfoldable pub load_refresh : String → Call RefreshGrant
  load_refresh key = do reach; kept ← gets (λ w. cache.get w.refresh w.now key); found kept

  unfoldable pub take_refresh : String → Call RefreshGrant
  take_refresh key = do
    reach
    popped ← gets (λ w. cache.pop w.refresh w.now key)
    modify (λ w. record w { refresh = popped.1 })
    found popped.0

  unfoldable pub delete_refresh : String → Call (Unit {0})
  delete_refresh key = do reach; modify (λ w. record w { refresh = cache.del w.refresh key })
