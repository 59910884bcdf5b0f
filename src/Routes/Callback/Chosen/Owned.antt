-- ===== src/Routes/Callback/Chosen/Owned.antt =====
-- routes/aiapp.go: what an AI app's code rests on.
use Prim.Native.String.{◌++◌ as append}
use authbyte.Act.{pure, raise, on_error, ◌>>=◌}
use authbyte.Registry.Rows.{SignInClient, kind_ai_app}
use authbyte.Registry.SignIn.{ai_app}
use authbyte.Registry.SignIn.Laws.{InForce}
use authbyte.Rolebyte.{person_key, assistants}
use authbyte.Rolebyte.Laws.{assistants_about}
use authbyte.Routes.Answers.{Refusal}
use authbyte.Routes.Membership.{register_refusal}
use authbyte.Prelude.{
  ◌≢◌, sym, [], ◌∷◌, is_empty, lookup, inl, inr, Bool-cases, Option-cases, unrefused, String, ◌≡◌,
  refl, ap, subst, ◌∙◌, Bool, true, false, not, ◌||◌, List, Option, none, some, ok, find, arith,
  eq_iff, ◌==◌,
}
use authbyte.Act.Runs.{pure-eq-ok, >>=-eq-ok, raise-eq-ok, if_never-eq-ok}
use authbyte.Browser.{
  Visit, Reply, get_param, opt_param, browser_binding, binding_hash, bound_here, choice_token,
  from_own_page,
}
use authbyte.Register.{Assistant}
use authbyte.Routes.Callback.{assistant_ticket_prefix}
use authbyte.Routes.Callback.Answered.Proved.{fail_with-eq-ok, shown-eq-ok}
use authbyte.Routes.Callback.Chosen.{
  assistant_way, answer_chosen, choose_for, choose_bound, ticketed, choose_assistant,
}
use authbyte.Routes.Connection.{is_ai_app, persons_assistants}
use authbyte.Session.Types.{Flow, UserSession}
use authbyte.Store.Answers.{consume_flow-eq-ok, load_session-eq-ok}
use authbyte.World.{Env, World}
use authbyte.Routes.Callback.Chosen.Given.{or_restart-eq-ok, IsGiven, answer_as-IsGiven}

find-some :
    (p : Assistant → Bool) (own : List Assistant) (a : Assistant)
    → find p own ≡ some a
    → is_empty own ≡ false
find-some p [] a h = ground (arith, h)
find-some p (x ∷ xs) a h = refl

module _ (env : Env) where
  open env use {cache, register}

  pure_empty :
      (own : List Assistant) (w u : World env)
      → pure {W = World env} {E = Refusal} {A = List Assistant} [] w ≡ (ok own, u)
      → own ≡ []
  pure_empty own w u e = sym (pure-eq-ok {E = Refusal} {A = List Assistant} [] w e).0

  -- The register, as it is left, answers `own` about the person of a session, after that person's
  -- own claim and nothing else.
  abbrev pub IsOwn : World env → World env → UserSession → List Assistant → Type 0
  IsOwn w u sess own =
      (register.wired ≡ true)
      × (u.register ≡ (register.claims_door w.register (append "sub:" sess.subject)).1)
      × (register.assistants_door u.register (append "sub:" sess.subject)
          ≡ some (record { subject_key = append "sub:" sess.subject; holds = own }))

  -- The browser that a flow was begun in: its binding's hash is the flow's.
  abbrev pub IsHere : Visit → String → Type 0
  IsHere v binding =
      (browser_binding env v ≢ "")
      × (env.hash (append "authbyte sign-in binding\0" (browser_binding env v)) ≡ binding)

  -- What follows the flow: its browser and its app, the session that signed in, and the assistant
  -- that the page's form names with its workspace, of those the register answers.
  pub record IsFollowed (v : Visit) (flow : Flow) (w : World env) (answer : Reply) (u : World env)
      : Type 0 where
    pub here : IsHere v flow.binding
    pub app : SignInClient
    pub in_force : InForce env.registry flow.client_id app
    pub is_app : app.kind ≡ "ai_app"
    pub sess : UserSession
    pub signed_in : cache.get w.sessions w.now flow.session_id ≡ some sess
    pub own : List Assistant
    pub is_own : IsOwn w u sess own
    pub assistant : Assistant
    pub named_here :
        find (λ a. append a.tenant_id (append "/" a.key) == get_param v.form "way") own
        ≡ some assistant
    pub given : IsGiven env flow sess assistant answer u

  -- What the code of a chosen assistant rests on.
  pub record IsChosen (v : Visit) (w : World env) (answer : Reply) (u : World env) : Type 0 where
    pub sent_here : v.origin ≢ ""
    pub own_page : env.equal_fold v.origin env.sign_in.self_origin ≡ true
    pub token :
        get_param v.form "csrf"
        ≡ env.hash (append "authbyte sign-in choice\0" (browser_binding env v))
    pub ticket : String
    pub named : opt_param v.query "ticket" ≡ some ticket
    pub flow : Flow
    pub kept : cache.get w.flows w.now (append "assistant:" ticket) ≡ some flow
    pub followed : IsFollowed v flow w answer u

  asked-eq-ok :
      (key : String) (w : World env) {own : List Assistant} {u : World env}
      → on_error (assistants env key) (register_refusal env key) w ≡ (ok own, u)
      → assistants env key w ≡ (ok own, u)
  unfolding on_error register_refusal ◌>>=◌ raise
  asked-eq-ok key w h = ground arith

  persons_assistants-IsOwn :
      (sess : UserSession) (own : List Assistant) (w u : World env)
      → is_empty own ≡ false
      → persons_assistants env sess.subject w ≡ (ok own, u)
      → IsOwn w u sess own
  unfolding persons_assistants person_key
  persons_assistants-IsOwn sess own w u some_own e = elim (Bool-cases register.wired) [
    | inl wired ↦
        let (answers, _, left) =
          assistants_about env (person_key sess.subject) w own u
            (asked-eq-ok (person_key sess.subject) w (rw wired at e)) in
        (wired, ap (λ z. z.register) left, answers)
    | inr unwired ↦ absurd (ground (arith, some_own, pure_empty own w u (rw unwired at e)))
  ]

  answer_chosen-IsGiven :
      (flow : Flow) (sess : UserSession) (found : Option Assistant) (w : World env) {answer : Reply}
      {u : World env}
      → answer_chosen env flow sess found w ≡ (ok answer, u)
      → (a : Assistant) × (found ≡ some a)
        × IsGiven env flow sess a answer u
        × (u.register ≡ w.register)
  answer_chosen-IsGiven flow sess none w e = absurd (fail_with-eq-ok env _ _ w e)
  answer_chosen-IsGiven flow sess (some a) w e =
      let (given, left) = answer_as-IsGiven env flow sess a w e in (a, refl, given, left)

  bound_here-IsHere :
      (v : Visit) (binding : String) → bound_here env v binding ≡ true → IsHere v binding
  unfolding bound_here binding_hash
  bound_here-IsHere v binding h = (
    λ e. ground (arith, h, eq_iff (browser_binding env v) "", e),
    ground (
      arith,
      h,
      eq_iff (env.hash (append "authbyte sign-in binding\0" (browser_binding env v))) binding,
    ),
  )

  is_ai_app-InForce :
      (id : String)
      → is_ai_app env id ≡ true
      → (c : SignInClient) × InForce env.registry id c × (c.kind ≡ "ai_app")
  unfolding is_ai_app ai_app
  is_ai_app-InForce id h = elim (Option-cases (lookup env.registry.sign_in_clients id)) [
    | inl missing ↦ absurd (ground (arith, h, missing))
    | inr (c, row) ↦
        (c, (row, ground (arith, h, row)), ground (arith, h, row, eq_iff c.kind kind_ai_app))
  ]

  choose_bound-IsFollowed :
      (v : Visit) (flow : Flow) (w : World env) {answer : Reply} {u : World env}
      → choose_bound env v flow w ≡ (ok answer, u)
      → IsFollowed v flow w answer u
  unfolding choose_bound choose_for assistant_way
  choose_bound-IsFollowed v flow w e =
      let (_, e1) = if_never-eq-ok (flow.session_id == "") _ _ w (λ c z k. raise-eq-ok _ w k) e in
      let (here, e2) =
        if_never-eq-ok (not (bound_here env v flow.binding)) _ _ w
          (λ c z. fail_with-eq-ok env _ _ w) e1 in
      let (app, e3) =
        if_never-eq-ok (not (is_ai_app env flow.client_id)) _ _ w (λ c z k. raise-eq-ok _ w k) e2 in
      let (sess, w1, loaded, e4) = >>=-eq-ok _ _ w e3 in
      let (own, w2, listed, e5) = >>=-eq-ok _ _ w1 e4 in
      let (signed_in, _, loads) =
        load_session-eq-ok env flow.session_id w (or_restart-eq-ok env _ w loaded) in
      let (a, named_here, given, left) =
        answer_chosen-IsGiven flow sess (find (λ a. assistant_way a == get_param v.form "way") own)
          w2 e5 in
      let (client, in_force, is_app) = is_ai_app-InForce flow.client_id (unrefused _ app) in
      let (wired, claimed, answers) =
        persons_assistants-IsOwn sess own w1 w2 (find-some _ own a named_here)
          (shown-eq-ok env _ w1 listed) in
      record {
        here = bound_here-IsHere v flow.binding (unrefused _ here);
        app = client;
        in_force = in_force;
        is_app = is_app;
        sess = sess;
        signed_in = signed_in;
        own = own;
        is_own = (
          wired,
          left
              ∙ claimed
              ∙ ap (λ z. (register.claims_door z.register (append "sub:" sess.subject)).1) loads,
          subst
              (λ s.
                register.assistants_door s (append "sub:" sess.subject)
                ≡ some (record { subject_key = append "sub:" sess.subject; holds = own }))
              (sym left) answers,
        );
        assistant = a;
        named_here = named_here;
        given = given;
      }

  -- The flow that was consumed left the sessions and the clock as they were.
  moved_back :
      (v : Visit) (flow : Flow) (w w1 : World env) (answer : Reply) (u : World env) {key : String}
      → w1 ≡ record w { outages = w1.outages; flows = cache.del w.flows key }
      → IsFollowed v flow w1 answer u
      → IsFollowed v flow w answer u
  moved_back v flow w w1 answer u left f = record {
    here = f.here;
    app = f.app;
    in_force = f.in_force;
    is_app = f.is_app;
    sess = f.sess;
    signed_in =
        subst (λ s. cache.get s w.now flow.session_id ≡ some f.sess) (ap (λ z. z.sessions) left)
          (subst (λ t. cache.get w1.sessions t flow.session_id ≡ some f.sess) (ap (λ z. z.now) left)
            f.signed_in);
    own = f.own;
    is_own = (
      f.is_own.0,
      f.is_own.1
          ∙ ap (λ z. (register.claims_door z.register (append "sub:" f.sess.subject)).1) left,
      f.is_own.2,
    );
    assistant = f.assistant;
    named_here = f.named_here;
    given = f.given;
  }

  from_own_page_lem :
      (v : Visit)
      → from_own_page env v ≡ true
      → (v.origin ≢ "") × (env.equal_fold v.origin env.sign_in.self_origin ≡ true)
  unfolding from_own_page
  from_own_page_lem v h = (λ e. ground (arith, h, eq_iff v.origin "", e), ground (arith, h))

  token_right : (b : Bool) (sent right : String) → (b || not (sent == right)) ≡ false → sent ≡ right
  token_right b sent right h = ground (arith, eq_iff sent right)

  ticketed-eq-ok :
      (v : Visit) (o : Option String) (w : World env) {answer : Reply} {u : World env}
      → ticketed env v o w ≡ (ok answer, u)
      → (ticket : String) × (o ≡ some ticket)
        × (flow : Flow) × (cache.get w.flows w.now (append assistant_ticket_prefix ticket)
            ≡ some flow)
        × IsFollowed v flow w answer u
  ticketed-eq-ok v none w e = absurd (raise-eq-ok _ w e)
  ticketed-eq-ok v (some ticket) w {answer} {u} e =
      let (flow, w1, taken, e1) = >>=-eq-ok _ _ w e in
      let (kept, left) =
        consume_flow-eq-ok env (append assistant_ticket_prefix ticket) w
          (or_restart-eq-ok env _ w taken) in
      (
        ticket,
        refl,
        flow,
        kept,
        moved_back v flow w w1 answer u left (choose_bound-IsFollowed v flow w1 e1),
      )

  -- An AI app is given a code for an assistant only by a post from this service's own page with the
  -- page's token, in the browser that the sign-in began in, for a ticket that the store held. The
  -- assistant is one that the register answers as the signed-in person's own; the code names it with
  -- its workspace, and the session it leads to works as it, for that app with the boxes it asked for.
  pub choose_assistant-IsChosen :
      (v : Visit) (w : World env) (answer : Reply) (u : World env)
      → choose_assistant env v w ≡ (ok answer, u)
      → IsChosen v w answer u
  unfolding choose_assistant choice_token
  choose_assistant-IsChosen v w answer u e =
      let (own_page, e1) =
        if_never-eq-ok (not (from_own_page env v)) _ _ w (λ c z. fail_with-eq-ok env _ _ w) e in
      let (token, e2) =
        if_never-eq-ok
          (browser_binding env v == ""
            || not (get_param v.form "csrf" == choice_token env (browser_binding env v)))
          _ _ w (λ c z. fail_with-eq-ok env _ _ w) e1 in
      let (ticket, named, flow, kept, f) = ticketed-eq-ok v (opt_param v.query "ticket") w e2 in
      let (sent_here, same_origin) = from_own_page_lem v (unrefused _ own_page) in
      record {
        sent_here = sent_here;
        own_page = same_origin;
        token = token_right _ (get_param v.form "csrf") _ token;
        ticket = ticket;
        named = named;
        flow = flow;
        kept = kept;
        followed = f;
      }
