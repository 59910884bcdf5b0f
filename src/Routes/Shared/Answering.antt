-- ===== src/Routes/Shared/Answering.antt =====
-- routes/shared.go: the session and the code that an answer with no page leaves in the store.
use authbyte.Prelude.{
  ℕ, ◌+◌, ◌-◌, String, ◌≡◌, refl, sym, ap, ◌<◌, ◌∙◌, subst, Bool, true, false, Option, some, ok,
  arith, eq_refl,
}
use authbyte.Act.{modify}
use authbyte.Act.Runs.{>>=-eq-ok, pure-eq-ok}
use authbyte.Browser.{Reply, code_at}
use authbyte.Routes.Answers.{Refusal}
use authbyte.Routes.Answers.Runs.{or_internal-eq-ok, random_token-eq-ok}
use authbyte.Routes.Authorize.{AuthorizeRequest}
use authbyte.Routes.Membership.{audit}
use authbyte.Routes.Shared.Browser.{
  Joined, session_by, code_for, app_code_ttl, code_saved, code_if, answer_by,
}
use authbyte.Routes.Shared.Keeping.{
  Keeps, Keeps-chains, add_shared_app-Keeps, added_live-Keeps, after-Keeps,
}
use authbyte.Routes.Shared.Held.{pure_none-eq-ok}
use authbyte.Session.Shared.{Way}
use authbyte.Session.Types.{AppCode, UserSession}
use authbyte.Store.Answers.{create_session-eq-ok, save_app_code-eq-ok}
use authbyte.World.{Env, World, AuditEvent}

inject_reply : (a b : Reply) → Path (Option Reply) (some a) (some b) → a ≡ b
inject_reply a b e = ground arith

module _ (env : Env) where
  open env use {cache}

  -- The session is of the browser's person, by the way, and ends as the shared one's way does.
  pub record IsMade (j : Joined) (way : Way) (until : ℕ) (made : UserSession) : Type 0 where
    pub of_person : made.subject ≡ j.shared.subject
    pub by_way : made.login_method ≡ way.way_method
    pub assured : made.loa ≡ way.loa
    pub since : made.auth_time ≡ way.auth_time
    pub under : made.shared ≡ j.id
    pub until_end : made.expires_at ≡ until

  -- The code is for the request's client, address and challenge, and leads to the session.
  pub record IsFor (req : AuthorizeRequest) (sid : String) (c : AppCode) : Type 0 where
    pub leads : c.session_id ≡ sid
    pub client : c.client_id ≡ req.client_id
    pub address : c.redirect_uri ≡ req.redirect_uri
    pub challenge : c.code_challenge ≡ req.challenge
    pub challenge_method : c.code_challenge_method ≡ req.challenge_method

  -- What an answer with no page by a way leaves: its code, and the session that the code leads to.
  pub record IsLeft (req : AuthorizeRequest) (j : Joined) (way : Way) (now : ℕ) (answer : Reply)
      (u : World env) : Type 0 where
    pub code : String
    pub answered : answer ≡ code_at req.redirect_uri code req.spa_state
    pub sid : String
    pub saved : AppCode
    pub carries : cache.get u.codes u.now code ≡ some saved
    pub is_for : IsFor req sid saved
    pub made : UserSession
    pub works : cache.get u.sessions u.now sid ≡ some made
    pub is_made : IsMade j way (u.now + (way.ends - now)) made

  audit-eq-ok :
      (event : AuditEvent) (w : World env) {a : Unit {0}} {v : World env}
      → audit env event w ≡ (ok a, v)
      → v ≡ record w { events = v.events }
  unfolding audit modify
  audit-eq-ok event w e = ground arith

  saved_after :
      (req : AuthorizeRequest) (sid code : String) (w w1 w2 w3 : World env)
      → w1 ≡ record w { draws = w.draws + 1 }
      → w2 ≡ record w1 {
        outages = w2.outages;
        codes = cache.set w1.codes w1.now code (code_for req sid) app_code_ttl;
      }
      → w3 ≡ record w2 { events = w3.events }
      → (cache.get w3.codes w3.now code ≡ some (code_for req sid)) × Keeps env sid w w3
  saved_after req sid code w w1 w2 w3 h1 h2 h3 = (
    ground (
      arith,
      h3,
      eq_refl code,
      cache.get-set w1.codes w1.now code (code_for req sid) app_code_ttl w3.now code,
    ),
    record { same_time = ground (arith, h1, h2, h3); kept = λ s h. ground (arith, h1, h2, h3, h) },
  )

  code_saved-eq-ok :
      (req : AuthorizeRequest) (j : Joined) (way : Way) (sid : String) (answer : Reply)
      (w : World env) {u : World env}
      → code_saved env req j way sid w ≡ (ok (some answer), u)
      → (code : String) × (answer ≡ code_at req.redirect_uri code req.spa_state)
        × (cache.get u.codes u.now code ≡ some (code_for req sid))
        × Keeps env sid w u
  code_saved-eq-ok req j way sid answer w {u} e =
      let (code, w1, drawn, e1) = >>=-eq-ok _ _ w e in
      let (_, w2, kept, e2) = >>=-eq-ok _ _ w1 e1 in
      let (_, w3, told, e3) = >>=-eq-ok _ _ w2 e2 in
      let (same, stays) =
        pure-eq-ok {E = Refusal} {A = Option Reply}
          (some (code_at req.redirect_uri code req.spa_state)) w3 e3 in
      let (carries, keeps) =
        saved_after req sid code w w1 w2 w3 (random_token-eq-ok env w drawn)
          (save_app_code-eq-ok env code (code_for req sid) app_code_ttl w1
            (or_internal-eq-ok env _ w1 kept))
          (audit-eq-ok _ w2 told) in
      (
        code,
        sym (inject_reply _ answer same),
        subst (λ z. cache.get z.codes z.now code ≡ some (code_for req sid)) stays carries,
        subst (λ z. Keeps env sid w z) stays keeps,
      )

  code_if-eq-ok :
      (req : AuthorizeRequest) (j : Joined) (way : Way) (sid : String) (live : Bool)
      (answer : Reply) (w : World env) {u : World env}
      → code_if env req j way sid live w ≡ (ok (some answer), u)
      → (code : String) × (answer ≡ code_at req.redirect_uri code req.spa_state)
        × (cache.get u.codes u.now code ≡ some (code_for req sid))
        × Keeps env sid w u
  code_if-eq-ok req j way sid true answer w e = code_saved-eq-ok req j way sid answer w e
  code_if-eq-ok req j way sid false answer w e =
      let (_, w1, _, e1) = >>=-eq-ok _ _ w e in absurd (pure_none-eq-ok env answer w1 _ e1)

  -- The session is there once it was made.
  made_there :
      (sid : String) (made : UserSession) (life : ℕ) (w v : World env)
      → 0 < life
      → v ≡ record w { outages = v.outages; sessions = cache.set w.sessions w.now sid made life }
      → cache.get v.sessions v.now sid ≡ some made
  made_there sid made life w v some_life h =
      ground
        (arith, h, some_life, eq_refl sid, cache.get-set w.sessions w.now sid made life v.now sid)

  session_by-IsMade :
      (j : Joined) (way : Way) (public : String) (life : ℕ) (made : UserSession) (w v u : World env)
      → made ≡ record (session_by j way public) { expires_at = w.now + life }
      → v.now ≡ w.now
      → u.now ≡ v.now
      → IsMade j way (u.now + life) made
  session_by-IsMade j way public life made w v u h same later = record {
    of_person = ap (λ s. s.subject) h;
    by_way = ap (λ s. s.login_method) h;
    assured = ap (λ s. s.loa) h;
    since = ap (λ s. s.auth_time) h;
    under = ap (λ s. s.shared) h;
    until_end = ap (λ s. s.expires_at) h ∙ ap (λ t. t + life) (sym (later ∙ same));
  }

  -- An answer by a way that has not ended leaves its session and its code.
  pub answer_by-IsLeft :
      (req : AuthorizeRequest) (j : Joined) (now : ℕ) (way : Way) (answer : Reply) (w : World env)
      {u : World env}
      → now < way.ends
      → answer_by env req j now way w ≡ (ok (some answer), u)
      → IsLeft req j way now answer u
  unfolding answer_by
  answer_by-IsLeft req j now way answer w {u} in_force e =
      let (public, w1, _, e1) = >>=-eq-ok _ _ w e in
      let (sid, w2, _, e2) = >>=-eq-ok _ _ w1 e1 in
      let (made, w3, created, e3) = >>=-eq-ok _ _ w2 e2 in
      let (added, w4, put, e4) = >>=-eq-ok _ _ w3 e3 in
      let (live, w5, seen, e5) = >>=-eq-ok _ _ w4 e4 in
      let (code, answered, carries, keeps) = code_if-eq-ok req j way sid live answer w5 e5 in
      let (_, is_made, stays) =
        create_session-eq-ok env sid (session_by j way public) (way.ends - now) w2
          (or_internal-eq-ok env _ w2 created) in
      let later =
        (Keeps-chains env sid).joins w3 w5 u
          ((Keeps-chains env sid).joins w3 w4 w5
            (after-Keeps env sid _ w3 w4 added
              (add_shared_app-Keeps env sid j.id j.shared.expires_at req.client_id) put)
            (after-Keeps env sid _ w4 w5 live (added_live-Keeps env sid j added) seen))
          keeps in
      record {
        code = code;
        answered = answered;
        sid = sid;
        saved = code_for req sid;
        carries = carries;
        is_for = record {
          leads = refl;
          client = refl;
          address = refl;
          challenge = refl;
          challenge_method = refl;
        };
        made = made;
        works =
            later.kept made
              (made_there sid made (way.ends - now) w2 w3 (ground (arith, in_force)) stays);
        is_made =
            session_by-IsMade j way public (way.ends - now) made w2 w3 u is_made
              (ground (arith, stays)) later.same_time;
      }
