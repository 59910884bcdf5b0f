-- ===== src/Routes/Connection.antt =====
-- routes/aiapp.go: an AI app's connection. It is found by its name in its assistant's index, asked
-- about at the register, and ended with its session and its refresh grants.
use authbyte.Prelude.{
  ℕ, ◌-◌, ◌*◌, ◌/◌, String, Bool, true, false, not, ◌&&◌, ◌||◌, List, [], ◌∷◌, Option, none, some,
  find, leb, ◌==◌, if◌then◌else◌,
}
use authbyte.Act.{pure, raise, gets, on_error, ◌>>=◌, ◌>>◌}
use authbyte.Claims.{Claims, Actor, acting}
use authbyte.Register.{Assistant}
use authbyte.Registry.Rows.{SignInClient}
use authbyte.Registry.SignIn.{ai_app}
use authbyte.Rolebyte.{person_key, assistants}
use authbyte.Session.Types.{UserSession, Connection}
use authbyte.World.{Env, delegation_refused, session_ended}
use authbyte.Store.Calls.{
  StoreError, not_found, load_session, replace_session, delete_session, delete_refresh,
}
use authbyte.Store.Index.{connections, remove_connection}
use authbyte.Routes.Answers.{
  Handler, store_refusal, connection_ended, oauth, stored, present, ignored, unless_gone,
}
use authbyte.Routes.Membership.{audit, register_refusal, intersect_scopes}

abbrev pub login_assistant : String
login_assistant = "assistant"

-- `Truncate(time.Second)`
abbrev pub whole_second : ℕ → ℕ
whole_second t = (t / 1000) * 1000

-- the nearest acting party, or ""
abbrev pub actor_subject : Actor → String
actor_subject Actor.none = ""
actor_subject (acting s rest) = s

-- The session of a connection, and the key it is kept under.
pub record Live : Type 0 where
  pub key : String
  pub sess : UserSession

unfoldable pub is_theirs : UserSession → Assistant → Bool
is_theirs sess a = a.tenant_id == sess.tenant && a.key == sess.assistant

module _ (env : Env) where
  unfoldable pub is_ai_app : String → Bool
  is_ai_app client_id = elim (ai_app env.registry client_id) [ none ↦ false | some a ↦ true ]

  unfoldable pub persons_assistants : String → Handler env (List Assistant)
  persons_assistants subject =
      if env.register.wired
      then on_error (assistants env (person_key subject))
          (register_refusal env (person_key subject))
      else pure []

  -- the grants named; "" names none
  unfoldable pub delete_grants : List String → Handler env (Unit {0})
  delete_grants [] = pure tt
  delete_grants (k ∷ ks) =
      let rest = delete_grants ks in
      if k == "" then rest else (do unless_gone env (delete_refresh env k); rest)

  unfoldable pub leave_index : String → UserSession → Handler env (Unit {0})
  leave_index sid sess =
      if sess.sid == ""
      then pure tt
      else ignored env (
          remove_connection env sess.tenant sess.assistant
            (record { id = sess.sid; session_id = sid }))

  unfoldable pub end_connection : String → UserSession → List String → Handler env (Unit {0})
  end_connection sid sess keys = do
    unless_gone env (delete_session env sid)
    delete_grants (sess.refresh_key ∷ keys)
    leave_index sid sess
    audit env (session_ended sess.subject login_assistant)

  -- what is left of the app's boxes, or the end of the connection
  unfoldable pub connection_boxes :
      SignInClient
      → String
      → UserSession
      → List String
      → Option Assistant
      → Handler env (List String)
  connection_boxes app sid sess keys none = do
    end_connection sid sess keys
    raise (oauth "invalid_grant")
  connection_boxes app sid sess keys (some a) =
      if sess.assistant == ""
      then (do end_connection sid sess keys; raise (oauth "invalid_grant"))
      else pure (intersect_scopes (intersect_scopes sess.app_scopes app.scopes) a.scopes)

  unfoldable pub connection_scopes :
      SignInClient → String → UserSession → List String → Handler env (List String)
  connection_scopes app sid sess keys = do
    own ← persons_assistants sess.subject
    connection_boxes app sid sess keys (find (is_theirs sess) own)

  -- the session of the connection that the index names
  unfoldable pub follow :
      String → String → Connection → Option UserSession → Handler env (Option Live)
  follow tenant assistant c none = do
    ignored env (remove_connection env tenant assistant c)
    pure none
  follow tenant assistant c (some sess) =
      if not (sess.assistant == assistant) || not (sess.tenant == tenant) || not (sess.sid == c.id)
      then pure none
      else pure (some (record { key = c.session_id; sess = sess }))

  unfoldable pub follow_found : String → String → Option Connection → Handler env (Option Live)
  follow_found tenant assistant none = pure none
  follow_found tenant assistant (some c) = do
    sess ← present env (load_session env c.session_id)
    follow tenant assistant c sess

  unfoldable pub find_connection : String → String → String → Handler env (Option Live)
  find_connection tenant assistant connection = do
    conns ← stored env (connections env tenant assistant)
    follow_found tenant assistant (find (λ c. c.id == connection) conns)

  unfoldable pub refuse_connection : {A : Type 0} → String → Claims → String → Handler env A
  refuse_connection client subject reason = do
    audit env (delegation_refused client subject.subject reason)
    raise connection_ended

  abbrev pub used_refusal : String → Claims → StoreError → Handler env (Unit {0})
  used_refusal client subject not_found =
      refuse_connection client subject "the AI app's connection has ended"
  used_refusal client subject e = raise (store_refusal e)

  unfoldable pub record_use : String → Claims → Live → ℕ → Handler env (Unit {0})
  record_use client subject live now =
      if leb 60000 (now - live.sess.last_used)
      then on_error
          (replace_session env live.key (record live.sess { last_used = whole_second now }))
          (used_refusal client subject)
      else pure tt

  -- marked used, at most once a minute
  unfoldable pub mark_used : String → Claims → Live → Handler env (Unit {0})
  mark_used client subject live = do now ← gets (λ w. w.now); record_use client subject live now

  unfoldable pub check_live : String → Claims → Option Live → Handler env (Unit {0})
  check_live client subject none =
      refuse_connection client subject "the AI app's connection has ended"
  check_live client subject (some live) =
      if live.key == ""
        || not (live.sess.subject == subject.subject)
        || not (live.sess.client_id == subject.client_id)
      then refuse_connection client subject "the AI app's connection has ended"
      else mark_used client subject live

  unfoldable pub app_connection_live : String → Claims → String → Handler env (Unit {0})
  app_connection_live client subject connection =
      if not (is_ai_app subject.client_id)
      then refuse_connection client subject "the AI app is no longer enabled"
      else if connection == "" || actor_subject subject.act == "" || subject.tenant == ""
      then refuse_connection client subject "an AI app's token names no connection"
      else (do
        live ← find_connection subject.tenant (actor_subject subject.act) connection
        check_live client subject live)
