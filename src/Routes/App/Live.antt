-- ===== src/Routes/App/Live.antt =====
-- When an AI app's token counts as one of a live connection.
use authbyte.Prelude.{
  String, ◌≡◌, refl, true, false, not, ◌||◌, Option, none, some, ok, arith, eq_iff, ◌==◌,
  Bool-cases, inl, inr, List, find, find-holds,
}
use authbyte.Act.{pure, raise, gets, modify, on_error, refuse_if, ◌>>=◌}
use authbyte.Act.Runs.{>>=-eq-ok, raise-eq-ok}
use authbyte.Claims.{Claims}
use authbyte.Session.Types.{UserSession, Connection, session_expired}
use authbyte.World.{Env, World}
use authbyte.Store.Calls.{load_session, reach, found}
use authbyte.Store.Index.{connections}
use authbyte.Routes.Answers.{present, stored}
use authbyte.Routes.Connection.{
  Live, actor_subject, is_ai_app, follow, follow_found, find_connection, refuse_connection,
  check_live, app_connection_live,
}

module _ (env : Env) where
  open env use {cache}

  refuse_connection-eq-ok :
      {A : Type 0} (client : String) (subject : Claims) (reason : String) (w v : World env) (a : A)
      → ¬ (refuse_connection env client subject reason w ≡ (ok a, v))
  unfolding refuse_connection
  refuse_connection-eq-ok client subject reason w v a h =
      let (_, w1, _, last) = >>=-eq-ok _ _ w h in raise-eq-ok _ w1 last

  -- A session in force, of this tenant's assistant, under this name.
  abbrev pub IsConnection : World env → String → String → String → Live → Type 0
  IsConnection w tenant assistant connection live =
      (cache.get w.sessions w.now live.key ≡ some live.sess)
      × (session_expired live.sess w.now ≡ false)
      × (live.sess.assistant ≡ assistant)
      × (live.sess.tenant ≡ tenant)
      × (live.sess.sid ≡ connection)

  present-load_session :
      (sid : String) (w v : World env) (sess : UserSession)
      → present env (load_session env sid) w ≡ (ok (some sess), v)
      → (cache.get w.sessions w.now sid ≡ some sess) × (session_expired sess w.now ≡ false)
  unfolding present load_session on_error reach found ◌>>=◌ gets pure raise refuse_if
  present-load_session sid w v sess h = ground arith

  connections_kept :
      (tenant assistant : String) (w v : World env) (conns : List Connection)
      → stored env (connections env tenant assistant) w ≡ (ok conns, v)
      → (v.sessions ≡ w.sessions) × (v.now ≡ w.now)
  unfolding stored connections on_error reach ◌>>=◌ gets modify pure raise
  connections_kept tenant assistant w v conns h = (ground arith, ground arith)

  follow-IsConnection :
      (tenant assistant connection : String) (c : Connection) (o : Option UserSession)
      (u w v : World env) (live : Live)
      → c.id ≡ connection
      → present env (load_session env c.session_id) u ≡ (ok o, w)
      → follow env tenant assistant c o w ≡ (ok (some live), v)
      → IsConnection u tenant assistant connection live
  unfolding follow pure
  follow-IsConnection tenant assistant connection c none u w v live named loaded h =
      let (_, w1, _, last) = >>=-eq-ok _ _ w h in absurd (ground (arith, last))
  follow-IsConnection tenant assistant connection c (some sess) u w v live named loaded h =
      let (there, in_force) = present-load_session c.session_id u w sess loaded in
      let is_live : live ≡ record { key = c.session_id; sess = sess } = ground (arith, h) in
      (
        ground (arith, is_live, there),
        ground (arith, is_live, in_force),
        ground (arith, is_live, h, eq_iff sess.assistant assistant),
        ground (arith, is_live, h, eq_iff sess.tenant tenant),
        ground (arith, is_live, h, named, eq_iff sess.sid c.id),
      )

  follow_found-IsConnection :
      (tenant assistant connection : String) (o : Option Connection) (w v : World env) (live : Live)
      → ((c : Connection) → o ≡ some c → c.id ≡ connection)
      → follow_found env tenant assistant o w ≡ (ok (some live), v)
      → IsConnection w tenant assistant connection live
  unfolding follow_found
  follow_found-IsConnection tenant assistant connection none w v live named h =
      absurd (unfold pure in ground (arith, h))
  follow_found-IsConnection tenant assistant connection (some c) w v live named h =
      let (o, w1, loaded, rest) = >>=-eq-ok _ _ w h in
      follow-IsConnection tenant assistant connection c o w w1 v live (named c refl) loaded rest

  -- The connection found is at the state that its index was read in.
  find_connection-IsConnection :
      (tenant assistant connection : String) (w v : World env) (live : Live)
      → find_connection env tenant assistant connection w ≡ (ok (some live), v)
      → (u : World env) × IsConnection u tenant assistant connection live
        × (u.sessions ≡ w.sessions)
        × (u.now ≡ w.now)
  unfolding find_connection
  find_connection-IsConnection tenant assistant connection w v live h =
      let (conns, w1, listed, rest) = >>=-eq-ok _ _ w h in
      let (same, time) = connections_kept tenant assistant w w1 conns listed in
      (
        w1,
        follow_found-IsConnection tenant assistant connection (find (λ c. c.id == connection) conns)
            w1 v live
            (λ c is_c.
              (eq_iff c.id connection).0 (find-holds (λ x. x.id == connection) conns c is_c))
            rest,
        same,
        time,
      )

  -- What it takes of the store: the connection that the token names is a session in force, of its
  -- person, its app, its tenant's assistant and under its name.
  abbrev pub IsLive : World env → Claims → String → Type 0
  IsLive w subject connection =
      (live : Live) × (u : World env) × IsConnection u subject.tenant (actor_subject subject.act)
        connection live
      × (u.sessions ≡ w.sessions)
      × (u.now ≡ w.now)
      × (live.sess.subject ≡ subject.subject)
      × (live.sess.client_id ≡ subject.client_id)

  check_live_same :
      (client : String) (subject : Claims) (live : Live) (w v : World env) (x : Unit {0})
      → check_live env client subject (some live) w ≡ (ok x, v)
      → (live.sess.subject ≡ subject.subject) × (live.sess.client_id ≡ subject.client_id)
  unfolding check_live
  check_live_same client subject live w v x h =
      elim (Bool-cases (
        live.key == ""
        || not (live.sess.subject == subject.subject)
        || not (live.sess.client_id == subject.client_id))) [
          | inl other ↦ absurd (refuse_connection-eq-ok client subject _ w v x (rw other at h))
          | inr same ↦ (
            ground (arith, same, eq_iff live.sess.subject subject.subject),
            ground (arith, same, eq_iff live.sess.client_id subject.client_id),
          )
        ]

  check_live-none :
      (client : String) (subject : Claims) (w v : World env) (x : Unit {0})
      → ¬ (check_live env client subject none w ≡ (ok x, v))
  unfolding check_live
  check_live-none client subject w v x h = refuse_connection-eq-ok client subject _ w v x h

  checked-IsLive :
      (client : String) (subject : Claims) (connection : String) (o : Option Live)
      (w w1 v : World env) (x : Unit {0})
      → find_connection env subject.tenant (actor_subject subject.act) connection w ≡ (ok o, w1)
      → check_live env client subject o w1 ≡ (ok x, v)
      → IsLive w subject connection
  checked-IsLive client subject connection none w w1 v x there h =
      absurd (check_live-none client subject w1 v x h)
  checked-IsLive client subject connection (some live) w w1 v x there h =
      let (u, is_connection, sessions, time) =
        find_connection-IsConnection subject.tenant (actor_subject subject.act) connection w w1 live
          there in
      let (person, app) = check_live_same client subject live w1 v x h in
      (live, u, is_connection, sessions, time, person, app)

  -- An AI app's token counts as live only where its app is still enabled and the connection that it
  -- names is a session in force of the token's own person, app, tenant and assistant.
  pub app_connection_live-IsLive :
      (client : String) (subject : Claims) (connection : String) (w v : World env) (x : Unit {0})
      → app_connection_live env client subject connection w ≡ (ok x, v)
      → (is_ai_app env subject.client_id ≡ true) × IsLive w subject connection
  unfolding app_connection_live
  app_connection_live-IsLive client subject connection w v x h =
      elim (Bool-cases (is_ai_app env subject.client_id)) [
        | inr gone ↦ absurd (refuse_connection-eq-ok client subject _ w v x (rw gone at h))
        | inl enabled ↦
            elim (Bool-cases
              (connection == "" || actor_subject subject.act == "" || subject.tenant == "")) [
                | inl unnamed ↦ absurd (
                    refuse_connection-eq-ok client subject _ w v x
                      (rw unnamed at (rw enabled at h)))
                | inr named ↦
                    let (o, w1, there, checked) = >>=-eq-ok _ _ w (rw named at (rw enabled at h)) in
                    (enabled, checked-IsLive client subject connection o w w1 v x there checked)
              ]
      ]
