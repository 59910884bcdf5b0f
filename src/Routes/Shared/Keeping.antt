-- ===== src/Routes/Shared/Keeping.antt =====
-- routes/shared.go: recording a session under the shared one keeps that session.
use authbyte.Prelude.{
  ℕ, String, ◌≡◌, refl, ◌∙◌, subst, Bool, true, false, not, ◌&&◌, Option, none, some, ok, arith,
  ◌==◌,
}
use authbyte.Act.{pure, raise, gets, modify, refuse_if, ◌>>=◌}
use authbyte.Act.Leaves.{
  Chains, Leaves, Leaves-bind, Leaves-on_error, Leaves-pure, Leaves-if, Leaves-if_true,
}
use authbyte.Routes.Answers.{Handler, attempt, ignored}
use authbyte.Routes.Shared.{
  forget_grant, end_app_session, replace_previous, add_shared_app, shared_live,
}
use authbyte.Routes.Shared.Browser.{Joined, added_live}
use authbyte.Session.Types.{UserSession}
use authbyte.Store.Calls.{Call, reach, found, load_session, delete_session, delete_refresh}
use authbyte.Store.Index.{load_shared, put_shared_app}
use authbyte.World.{Env, World}

module _ (env : Env) where
  open env use {cache}

  -- The session of an id is kept as it is.
  pub record Keeps (sid : String) (w v : World env) : Type 0 where
    pub same_time : v.now ≡ w.now
    pub kept :
        (s : UserSession)
        → cache.get w.sessions w.now sid ≡ some s
        → cache.get v.sessions v.now sid ≡ some s

  module _ (sid : String) where
    pub Keeps-chains : Chains (Keeps sid)
    Keeps-chains = record {
      stays = λ w. record { same_time = refl; kept = λ s h. h };
      joins = λ u v w c d. record {
        same_time = d.same_time ∙ c.same_time;
        kept = λ s h. d.kept s (c.kept s h);
      };
    }

    delete_refresh-Keeps : (key : String) → Leaves (Keeps sid) (delete_refresh env key)
    unfolding delete_refresh reach ◌>>=◌ modify
    delete_refresh-Keeps key = record {
      at = λ w. record { same_time = ground arith; kept = λ s h. ground (arith, h) };
    }

    delete_session-Keeps :
        (other : String) → (other == sid) ≡ false → Leaves (Keeps sid) (delete_session env other)
    unfolding delete_session reach ◌>>=◌ modify
    delete_session-Keeps other apart = record {
      at = λ w. record {
        same_time = ground arith;
        kept = λ s h. ground (arith, h, apart, cache.get-del w.sessions other w.now sid);
      };
    }

    load_session-Keeps : (other : String) → Leaves (Keeps sid) (load_session env other)
    unfolding load_session reach ◌>>=◌ gets found raise pure refuse_if
    load_session-Keeps other = record {
      at = λ w. record { same_time = ground arith; kept = λ s h. ground (arith, h) };
    }

    load_shared-Keeps : (id : String) → Leaves (Keeps sid) (load_shared env id)
    unfolding load_shared reach ◌>>=◌ gets found raise pure refuse_if
    load_shared-Keeps id = record {
      at = λ w. record { same_time = ground arith; kept = λ s h. ground (arith, h) };
    }

    put_shared_app-Keeps :
        (id client app : String) (until : ℕ)
        → Leaves (Keeps sid) (put_shared_app env id client app until)
    unfolding put_shared_app reach ◌>>=◌ gets modify pure refuse_if
    put_shared_app-Keeps id client app until = record {
      at = λ w. record { same_time = ground arith; kept = λ s h. ground (arith, h) };
    }

    ignored-Keeps :
        (m : Call env (Unit {0})) → Leaves (Keeps sid) m → Leaves (Keeps sid) (ignored env m)
    unfolding ignored
    ignored-Keeps m l = Leaves-on_error Keeps-chains m _ l λ e. Leaves-pure Keeps-chains _

    attempt-Keeps :
        {A : Type 0} (m : Call env A) → Leaves (Keeps sid) m → Leaves (Keeps sid) (attempt env m)
    unfolding attempt
    attempt-Keeps m l =
        Leaves-on_error Keeps-chains _ _
          (Leaves-bind Keeps-chains m _ l λ a. Leaves-pure Keeps-chains _)
          λ e. Leaves-pure Keeps-chains _

    forget_grant-Keeps : (o : Option UserSession) → Leaves (Keeps sid) (forget_grant env o)
    unfolding forget_grant
    forget_grant-Keeps none = Leaves-pure Keeps-chains _
    forget_grant-Keeps (some sess) =
        Leaves-if Keeps-chains (sess.refresh_key == "") _ _ (Leaves-pure Keeps-chains _)
          (ignored-Keeps _ (delete_refresh-Keeps sess.refresh_key))

    end_app_session-Keeps :
        (other : String) → (other == sid) ≡ false → Leaves (Keeps sid) (end_app_session env other)
    unfolding end_app_session
    end_app_session-Keeps other apart =
        Leaves-bind Keeps-chains _ _ (attempt-Keeps _ (load_session-Keeps other)) λ o.
          Leaves-bind Keeps-chains _ _ (forget_grant-Keeps o)
            λ _. ignored-Keeps _ (delete_session-Keeps other apart)

    replace_previous-Keeps : (o : Option String) → Leaves (Keeps sid) (replace_previous env o sid)
    unfolding replace_previous
    replace_previous-Keeps none = Leaves-pure Keeps-chains _
    replace_previous-Keeps (some other) =
        Leaves-if_true Keeps-chains (not (other == "") && not (other == sid)) _ _
          (λ apart.
            Leaves-bind Keeps-chains _ _ (end_app_session-Keeps other (ground (arith, apart)))
              λ _. Leaves-pure Keeps-chains _)
          (Leaves-pure Keeps-chains _)

    pub add_shared_app-Keeps :
        (id : String) (until : ℕ) (client : String)
        → Leaves (Keeps sid) (add_shared_app env id until client sid)
    unfolding add_shared_app
    add_shared_app-Keeps id until client =
        Leaves-bind Keeps-chains _ _ (attempt-Keeps _ (put_shared_app-Keeps id client sid until))
          λ o. replace_previous-Keeps o

    pub added_live-Keeps : (j : Joined) (added : Bool) → Leaves (Keeps sid) (added_live env j added)
    unfolding shared_live
    added_live-Keeps j true =
        Leaves-bind Keeps-chains _ _ (attempt-Keeps _ (load_shared-Keeps j.id))
          λ o. Leaves-pure Keeps-chains _
    added_live-Keeps j false = Leaves-pure Keeps-chains _

    pub after-Keeps :
        {A : Type 0} (m : Handler env A) (w v : World env) (a : A)
        → Leaves (Keeps sid) m
        → m w ≡ (ok a, v)
        → Keeps sid w v
    after-Keeps m w v a l ran = subst (λ r. Keeps sid w r.1) ran (l.at w)
