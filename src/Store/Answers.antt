-- ===== src/Store/Answers.antt =====
-- What it takes for a call of the store to answer, and the state that it leaves.
use authbyte.Prelude.{
  ℕ, ◌-◌, ◌+◌, String, ◌≡◌, Bool, true, false, List, some, ok, leb, arith, is_some,
}
use authbyte.Act.{pure, raise, gets, modify, refuse_if, ◌>>=◌}
use authbyte.Session.Types.{Flow, AppCode, UserSession, RefreshGrant, session_expired}
use authbyte.Session.Shared.{Shared, shared_expired}
use authbyte.Store.Index.{load_shared}
use authbyte.World.{Env, World}
use authbyte.Store.Calls.{
  reach, found, consume_app_code, load_session, replace_session, delete_session, save_refresh,
  load_refresh, take_refresh, delete_refresh, consume_flow, create_session, save_app_code,
}

module _ (env : Env) where
  open env use {cache}

  -- The state after a call that was answered, but for what the call wrote.
  abbrev pub after : World env → List Bool → World env
  after w outages = record w { outages = outages }

  pub reach-eq-ok :
      (w : World env) {u : Unit {0}} {v : World env}
      → reach env w ≡ (ok u, v)
      → v ≡ after w v.outages
  unfolding reach
  reach-eq-ok w h = ground arith

  pub load_session-eq-ok :
      (sid : String) (w : World env) {s : UserSession} {v : World env}
      → load_session env sid w ≡ (ok s, v)
      → (cache.get w.sessions w.now sid ≡ some s)
        × (session_expired s w.now ≡ false)
        × (v ≡ after w v.outages)
  unfolding load_session reach found ◌>>=◌ gets refuse_if pure raise
  load_session-eq-ok sid w h = ground arith

  pub load_refresh-eq-ok :
      (key : String) (w : World env) {g : RefreshGrant} {v : World env}
      → load_refresh env key w ≡ (ok g, v)
      → (cache.get w.refresh w.now key ≡ some g) × (v ≡ after w v.outages)
  unfolding load_refresh reach found ◌>>=◌ gets raise pure
  load_refresh-eq-ok key w h = ground arith

  pub take_refresh-eq-ok :
      (key : String) (w : World env) {g : RefreshGrant} {v : World env}
      → take_refresh env key w ≡ (ok g, v)
      → (cache.get w.refresh w.now key ≡ some g)
        × (v ≡ record w { outages = v.outages; refresh = cache.del w.refresh key })
  unfolding take_refresh reach found ◌>>=◌ gets raise pure modify
  take_refresh-eq-ok key w h = ground (arith, cache.pop_lem w.refresh w.now key)

  pub consume_app_code-eq-ok :
      (code : String) (w : World env) {c : AppCode} {v : World env}
      → consume_app_code env code w ≡ (ok c, v)
      → (cache.get w.codes w.now code ≡ some c)
        × (v ≡ record w { outages = v.outages; codes = cache.del w.codes code })
  unfolding consume_app_code reach found ◌>>=◌ gets raise pure modify
  consume_app_code-eq-ok code w h = ground (arith, cache.pop_lem w.codes w.now code)

  pub consume_flow-eq-ok :
      (state : String) (w : World env) {f : Flow} {v : World env}
      → consume_flow env state w ≡ (ok f, v)
      → (cache.get w.flows w.now state ≡ some f)
        × (v ≡ record w { outages = v.outages; flows = cache.del w.flows state })
  unfolding consume_flow reach found ◌>>=◌ gets raise pure modify
  consume_flow-eq-ok state w h = ground (arith, cache.pop_lem w.flows w.now state)

  pub save_refresh-eq-ok :
      (key : String) (g : RefreshGrant) (until : ℕ) (w : World env) {u : Unit {0}} {v : World env}
      → save_refresh env key g until w ≡ (ok u, v)
      → (leb until w.now ≡ false)
        × (v ≡ record w {
          outages = v.outages;
          refresh = cache.set w.refresh w.now key g (until - w.now);
        })
  unfolding save_refresh reach ◌>>=◌ gets modify refuse_if
  save_refresh-eq-ok key g until w h = ground arith

  pub replace_session-eq-ok :
      (sid : String) (s : UserSession) (w : World env) {u : Unit {0}} {v : World env}
      → replace_session env sid s w ≡ (ok u, v)
      → (is_some (cache.get w.sessions w.now sid) ≡ true)
        × (leb s.expires_at w.now ≡ false)
        × (v ≡ record w {
          outages = v.outages;
          sessions = cache.set w.sessions w.now sid s (s.expires_at - w.now);
        })
  unfolding replace_session reach ◌>>=◌ gets modify refuse_if
  replace_session-eq-ok sid s w h =
      ground (arith, cache.replace_lem w.sessions w.now sid s (s.expires_at - w.now))

  pub create_session-eq-ok :
      (sid : String) (s : UserSession) (life : ℕ) (w : World env) {t : UserSession} {v : World env}
      → create_session env sid s life w ≡ (ok t, v)
      → (is_some (cache.get w.sessions w.now sid) ≡ false)
        × (t ≡ record s { expires_at = w.now + life })
        × (v ≡ record w { outages = v.outages; sessions = cache.set w.sessions w.now sid t life })
  unfolding create_session reach ◌>>=◌ gets modify refuse_if pure
  create_session-eq-ok sid s life w h =
      ground
        (arith, cache.add_lem w.sessions w.now sid (record s { expires_at = w.now + life }) life)

  pub delete_session-eq-ok :
      (sid : String) (w : World env) {u : Unit {0}} {v : World env}
      → delete_session env sid w ≡ (ok u, v)
      → v ≡ record w { outages = v.outages; sessions = cache.del w.sessions sid }
  unfolding delete_session reach ◌>>=◌ modify
  delete_session-eq-ok sid w h = ground arith

  pub delete_refresh-eq-ok :
      (key : String) (w : World env) {u : Unit {0}} {v : World env}
      → delete_refresh env key w ≡ (ok u, v)
      → v ≡ record w { outages = v.outages; refresh = cache.del w.refresh key }
  unfolding delete_refresh reach ◌>>=◌ modify
  delete_refresh-eq-ok key w h = ground arith

  pub save_app_code-eq-ok :
      (code : String) (c : AppCode) (ttl : ℕ) (w : World env) {u : Unit {0}} {v : World env}
      → save_app_code env code c ttl w ≡ (ok u, v)
      → v ≡ record w { outages = v.outages; codes = cache.set w.codes w.now code c ttl }
  unfolding save_app_code reach ◌>>=◌ modify
  save_app_code-eq-ok code c ttl w h = ground arith

  pub load_shared-eq-ok :
      (id : String) (w : World env) {sh : Shared} {v : World env}
      → load_shared env id w ≡ (ok sh, v)
      → (cache.get w.shared w.now id ≡ some sh)
        × (shared_expired sh w.now ≡ false)
        × (v ≡ after w v.outages)
  unfolding load_shared reach found ◌>>=◌ gets refuse_if pure raise
  load_shared-eq-ok id w h = ground arith
