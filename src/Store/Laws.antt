-- ===== src/Store/Laws.antt =====
-- What the store promises its callers, whatever calls of the cache go unanswered.
use authbyte.Prelude.{
  ℕ, ◌-◌, ◌+◌, ◌≤◌, String, ◌≡◌, [], none, some, ok, err, ltb, arith, eq_refl, if◌then◌else◌,
}
use authbyte.Act.{pure, raise, gets, modify, refuse_if, ◌>>=◌}
use authbyte.Session.Types.{Flow, AppCode, UserSession, session_expired}
use authbyte.World.{Env, World}
use authbyte.Store.Calls.{
  not_found, reach, found, consume_app_code, load_session, replace_session, create_session,
  consume_flow,
}
use authbyte.Store.Answers.{consume_app_code-eq-ok, consume_flow-eq-ok, create_session-eq-ok}

module _ (env : Env) where
  open env use {cache}

  -- An application code that was consumed is not consumed again while nothing saves it anew: from
  -- any later state with the same codes, at any time, no second consume answers it.
  pub consume_app_code_once :
      (code : String) (w : World env) (c : AppCode) (v : World env)
      → consume_app_code env code w ≡ (ok c, v)
      → (later : World env) → later.codes ≡ v.codes
      → (d : AppCode) (z : World env) → ¬ (consume_app_code env code later ≡ (ok d, z))
  consume_app_code_once code w c v first later same d z again =
      let (_, gone) = consume_app_code-eq-ok env code w first in
      let (there, _) = consume_app_code-eq-ok env code later again in
      ground (arith, gone, there, same, cache.get-del w.codes code later.now code, eq_refl code)

  -- A login flow too is consumed once.
  pub consume_flow_once :
      (state : String) (w : World env) (f : Flow) (v : World env)
      → consume_flow env state w ≡ (ok f, v)
      → (later : World env) → later.flows ≡ v.flows
      → (g : Flow) (z : World env) → ¬ (consume_flow env state later ≡ (ok g, z))
  consume_flow_once state w f v first later same g z again =
      let (_, gone) = consume_flow-eq-ok env state w first in
      let (there, _) = consume_flow-eq-ok env state later again in
      ground (arith, gone, there, same, cache.get-del w.flows state later.now state, eq_refl state)

  -- A session that has ended is not brought back by a save under way: replacing it is refused, and
  -- every session, this one included, is afterwards what it was.
  pub replace_session_ended :
      (sid : String) (s : UserSession) (w : World env)
      → cache.get w.sessions w.now sid ≡ none
      → let (r, v) = replace_session env sid s w in
        ((u : Unit {0}) → ¬ (r ≡ ok u)) × (v.sessions ≡ w.sessions)
  unfolding replace_session reach ◌>>=◌ gets modify refuse_if
  replace_session_ended sid s w gone = (
    λ u h. ground (arith, gone, cache.replace_lem w.sessions w.now sid s (s.expires_at - w.now)),
    ground (arith, gone, cache.replace_lem w.sessions w.now sid s (s.expires_at - w.now)),
  )

  -- Creating a session never writes over one that is there: it is refused and nothing changes.
  pub create_session_exists :
      (sid : String) (s kept : UserSession) (life : ℕ) (w : World env)
      → cache.get w.sessions w.now sid ≡ some kept
      → let (r, v) = create_session env sid s life w in
        ((t : UserSession) → ¬ (r ≡ ok t)) × (v.sessions ≡ w.sessions)
  unfolding create_session reach ◌>>=◌ gets modify refuse_if pure
  create_session_exists sid s kept life w there = (
    λ t h. ground (
      arith,
      there,
      cache.add_lem w.sessions w.now sid (record s { expires_at = w.now + life }) life,
    ),
    ground (
      arith,
      there,
      cache.add_lem w.sessions w.now sid (record s { expires_at = w.now + life }) life,
    ),
  )

  -- A session that was created with a lifetime is loaded, where the cache answers, exactly until
  -- the lifetime has passed, and with the end that was set when it was created.
  pub load-create_session :
      (sid : String) (s t : UserSession) (life : ℕ) (w v later : World env)
      → create_session env sid s life w ≡ (ok t, v)
      → later.sessions ≡ v.sessions
      → later.outages ≡ []
      → w.now ≤ later.now
      → (load_session env sid later).0
        ≡ (if ltb later.now (w.now + life) then ok t else err not_found)
  unfolding load_session reach found ◌>>=◌ gets refuse_if pure raise session_expired
  load-create_session sid s t life w v later made same up order =
      let (_, ended, wrote) = create_session-eq-ok env sid s life w made in
      ground (
        arith,
        ended,
        wrote,
        same,
        up,
        eq_refl sid,
        cache.get-set w.sessions w.now sid t life later.now sid,
      )
