-- ===== src/Routes/Ending.antt =====
-- Ending sessions: what was gone stays gone, and what an end names is gone after it.
use authbyte.Prelude.{
  String, ◌≡◌, refl, ◌∙◌, subst, List, [], ◌∷◌, Option, none, some, Assoc, ok, arith, eq_refl, ◌==◌,
}
use authbyte.Act.{pure, raise, gets, modify, refuse_if, on_error, ◌>>=◌}
use authbyte.Act.Leaves.{
  Chains, Leaves, Leaves-bind, Leaves-on_error, Leaves-pure, Leaves-raise, Leaves-if,
}
use authbyte.Session.Types.{UserSession, Connection}
use authbyte.World.{Env, World, AuditEvent}
use authbyte.Store.Calls.{
  StoreError, not_found, unavailable, exists, Call, reach, found, load_session, delete_session,
  delete_refresh,
}
use authbyte.Store.Index.{end_shared as take_shared, remove_connection}
use authbyte.Routes.Answers.{Handler, store_refusal, stored, present, attempt, ignored, unless_gone}
use authbyte.Routes.Membership.{audit}
use authbyte.Routes.Shared.{forget_grant, end_app_session, end_app_sessions, end_taken, end_shared}
use authbyte.Routes.Connection.{delete_grants, leave_index}

module _ (env : Env) where
  open env use {cache}

  abbrev pub NoGrant : World env → String → Type 0
  NoGrant w key = cache.get w.refresh w.now key ≡ none

  abbrev pub NoSession : World env → String → Type 0
  NoSession w sid = cache.get w.sessions w.now sid ≡ none

  -- No session and no refresh grant comes back.
  pub record Gone (w v : World env) : Type 0 where
    pub same_time : v.now ≡ w.now
    pub no_grant : (key : String) → NoGrant w key → NoGrant v key
    pub no_session : (sid : String) → NoSession w sid → NoSession v sid

  pub Gone-chains : Chains Gone
  Gone-chains = record {
    stays = λ w. record { same_time = refl; no_grant = λ k h. h; no_session = λ k h. h };
    joins = λ u v w c d. record {
      same_time = d.same_time ∙ c.same_time;
      no_grant = λ k h. d.no_grant k (c.no_grant k h);
      no_session = λ k h. d.no_session k (c.no_session k h);
    };
  }

  pub delete_refresh-Gone : (key : String) → Leaves Gone (delete_refresh env key)
  unfolding delete_refresh reach ◌>>=◌ modify
  delete_refresh-Gone key = record {
    at = λ w. record {
      same_time = ground arith;
      no_grant = λ k h. ground (arith, h, cache.get-del w.refresh key w.now k);
      no_session = λ k h. ground (arith, h);
    };
  }

  pub delete_session-Gone : (sid : String) → Leaves Gone (delete_session env sid)
  unfolding delete_session reach ◌>>=◌ modify
  delete_session-Gone sid = record {
    at = λ w. record {
      same_time = ground arith;
      no_grant = λ k h. ground (arith, h);
      no_session = λ k h. ground (arith, h, cache.get-del w.sessions sid w.now k);
    };
  }

  pub load_session-Gone : (sid : String) → Leaves Gone (load_session env sid)
  unfolding load_session reach ◌>>=◌ gets found raise pure refuse_if
  load_session-Gone sid = record {
    at = λ w. record {
      same_time = ground arith;
      no_grant = λ k h. ground (arith, h);
      no_session = λ k h. ground (arith, h);
    };
  }

  take_shared-Gone : (id : String) → Leaves Gone (take_shared env id)
  unfolding take_shared reach ◌>>=◌ gets modify pure refuse_if
  take_shared-Gone id = record {
    at = λ w. record {
      same_time = ground arith;
      no_grant = λ k h. ground (arith, h);
      no_session = λ k h. ground (arith, h);
    };
  }

  remove_connection-Gone :
      (tenant assistant : String) (c : Connection)
      → Leaves Gone (remove_connection env tenant assistant c)
  unfolding remove_connection reach ◌>>=◌ gets modify
  remove_connection-Gone tenant assistant c = record {
    at = λ w. record {
      same_time = ground arith;
      no_grant = λ k h. ground (arith, h);
      no_session = λ k h. ground (arith, h);
    };
  }

  pub audit-Gone : (e : AuditEvent) → Leaves Gone (audit env e)
  unfolding audit modify
  audit-Gone e = record {
    at = λ w. record { same_time = refl; no_grant = λ k h. h; no_session = λ k h. h };
  }

  pub stored-Gone : {A : Type 0} (m : Call env A) → Leaves Gone m → Leaves Gone (stored env m)
  unfolding stored
  stored-Gone m l = Leaves-on_error Gone-chains m _ l λ e. Leaves-raise Gone-chains _

  pub ignored-Gone : (m : Call env (Unit {0})) → Leaves Gone m → Leaves Gone (ignored env m)
  unfolding ignored
  ignored-Gone m l = Leaves-on_error Gone-chains m _ l λ e. Leaves-pure Gone-chains _

  pub attempt-Gone : {A : Type 0} (m : Call env A) → Leaves Gone m → Leaves Gone (attempt env m)
  unfolding attempt
  attempt-Gone m l =
      Leaves-on_error Gone-chains _ _ (Leaves-bind Gone-chains m _ l λ a. Leaves-pure Gone-chains _)
        λ e. Leaves-pure Gone-chains _

  gone-case : (e : StoreError) → Leaves Gone (authbyte.Routes.Answers.gone env e)
  gone-case not_found = Leaves-pure Gone-chains _
  gone-case unavailable = Leaves-raise Gone-chains _
  gone-case exists = Leaves-raise Gone-chains _

  pub unless_gone-Gone : (m : Call env (Unit {0})) → Leaves Gone m → Leaves Gone (unless_gone env m)
  unfolding unless_gone
  unless_gone-Gone m l = Leaves-on_error Gone-chains m _ l gone-case

  forget_grant-Gone : (o : Option UserSession) → Leaves Gone (forget_grant env o)
  unfolding forget_grant
  forget_grant-Gone none = Leaves-pure Gone-chains _
  forget_grant-Gone (some sess) =
      Leaves-if Gone-chains (sess.refresh_key == "") _ _ (Leaves-pure Gone-chains _)
        (ignored-Gone _ (delete_refresh-Gone sess.refresh_key))

  end_app_session-Gone : (sid : String) → Leaves Gone (end_app_session env sid)
  unfolding end_app_session
  end_app_session-Gone sid =
      Leaves-bind Gone-chains _ _ (attempt-Gone _ (load_session-Gone sid)) λ o.
        Leaves-bind Gone-chains _ _ (forget_grant-Gone o)
          λ _. ignored-Gone _ (delete_session-Gone sid)

  end_app_sessions-Gone : (apps : Assoc String) → Leaves Gone (end_app_sessions env apps)
  unfolding end_app_sessions
  end_app_sessions-Gone [] = Leaves-pure Gone-chains _
  end_app_sessions-Gone ((client, sid) ∷ apps) =
      Leaves-bind Gone-chains _ _ (end_app_session-Gone sid) λ _. end_app_sessions-Gone apps

  end_taken-Gone :
      (o : Option (Assoc String)) (subject reason : String)
      → Leaves Gone (end_taken env o subject reason)
  unfolding end_taken
  end_taken-Gone none subject reason = Leaves-pure Gone-chains _
  end_taken-Gone (some apps) subject reason =
      Leaves-bind Gone-chains _ _ (end_app_sessions-Gone apps) λ _. audit-Gone _

  pub end_shared-Gone :
      (id subject reason : String) → Leaves Gone (end_shared env id subject reason)
  unfolding end_shared
  end_shared-Gone id subject reason =
      Leaves-if Gone-chains (id == "") _ _ (Leaves-pure Gone-chains _) (
        Leaves-bind Gone-chains _ _ (attempt-Gone _ (take_shared-Gone id))
          λ o. end_taken-Gone o subject reason)

  pub delete_grants-Gone : (keys : List String) → Leaves Gone (delete_grants env keys)
  unfolding delete_grants
  delete_grants-Gone [] = Leaves-pure Gone-chains _
  delete_grants-Gone (k ∷ ks) = Leaves-if Gone-chains (k == "") _ _ (delete_grants-Gone ks) (
      Leaves-bind Gone-chains _ _ (unless_gone-Gone _ (delete_refresh-Gone k))
        λ _. delete_grants-Gone ks)

  pub leave_index-Gone :
      (sid : String) (sess : UserSession) → Leaves Gone (leave_index env sid sess)
  unfolding leave_index
  leave_index-Gone sid sess =
      Leaves-if Gone-chains (sess.sid == "") _ _ (Leaves-pure Gone-chains _)
        (ignored-Gone _ (remove_connection-Gone sess.tenant sess.assistant _))

  -- What an end that answered left.
  pub after-Gone :
      {A : Type 0} (m : Handler env A) (w v : World env) (a : A)
      → Leaves Gone m
      → m w ≡ (ok a, v)
      → Gone w v
  after-Gone m w v a l ran = subst (λ r. Gone w r.1) ran (l.at w)

  pub unless_gone-delete_refresh :
      (key : String) (w v : World env) (u : Unit {0})
      → unless_gone env (delete_refresh env key) w ≡ (ok u, v)
      → NoGrant v key
  unfolding unless_gone delete_refresh on_error reach ◌>>=◌ modify pure raise
  unless_gone-delete_refresh key w v u h =
      ground (arith, eq_refl key, cache.get-del w.refresh key w.now key)

  pub unless_gone-delete_session :
      (sid : String) (w v : World env) (u : Unit {0})
      → unless_gone env (delete_session env sid) w ≡ (ok u, v)
      → NoSession v sid
  unfolding unless_gone delete_session on_error reach ◌>>=◌ modify pure raise
  unless_gone-delete_session sid w v u h =
      ground (arith, eq_refl sid, cache.get-del w.sessions sid w.now sid)
