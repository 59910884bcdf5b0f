-- ===== src/Routes/Callback/Answered/Bound.antt =====
-- routes/authorize.go: what a provider's answer must be for a client to be given a code.
use authbyte.Prelude.{
  String, ◌≡◌, Bool, true, false, Option, none, some, ok, arith, ap, sym, subst, ◌∙◌, if◌then◌else◌,
}
use authbyte.Act.{pure, ◌>>◌}
use authbyte.Act.Runs.{>>=-eq-ok, pure-eq-ok, raise-eq-ok, if_never-eq-ok, settled-eq-ok}
use authbyte.Browser.{
  Visit, Reply, error_at, request_at, set_cookie, notice_cookie, opt_param, Screen, shown,
}
use authbyte.Routes.Callback.Answered.{
  is_assistant_ticket, lost, given, answer_code, answer_error, error_for, notice_of,
  answer_or_error, callback,
}
use authbyte.Routes.Connection.{is_ai_app}
use authbyte.Session.Types.{Flow}
use authbyte.Store.Calls.{StoreError}
use authbyte.Store.Answers.{consume_flow-eq-ok}
use authbyte.Upstream.{Entry}
use authbyte.World.{Env, World}
use authbyte.Routes.Callback.Answered.Proved.{
  is_code, IsBound, IsProved, returned_here-eq-ok, answered_by-eq-ok, IsCodeOf, shown-eq-ok,
  exchange_answer-eq-ok,
}

module _ (env : Env) where
  open env use {cache, sign_in}

  -- What a code that a provider's answer earns rests on.
  pub record IsEarned (v : Visit) (entry : Entry) (w : World env) (answer : Reply) : Type 0 where
    pub state : String
    pub named : opt_param v.query "state" ≡ some state
    pub no_ticket : is_assistant_ticket state ≡ false
    pub flow : Flow
    pub kept : cache.get w.flows w.now state ≡ some flow
    pub bound : IsBound env v entry flow
    pub code : String
    pub sent : opt_param v.query "code" ≡ some code
    pub proved : IsProved env entry flow code w.now
    pub web : is_ai_app env flow.client_id ≡ false
    pub answered : IsCodeOf env flow answer

  given-eq-ok :
      (name : String) (o : Option String) (w : World env) {s : String} {u : World env}
      → given env name o w ≡ (ok s, u)
      → (o ≡ some s) × (w ≡ u)
  given-eq-ok name none w e = absurd (raise-eq-ok _ w e)
  given-eq-ok name (some s) w e = let (same, stays) = pure-eq-ok s w e in (ap some same, stays)

  lost-eq-ok :
      {A : Type 0} (e : StoreError) (w : World env) (a : A) (u : World env)
      → lost env e w ≡ (ok a, u)
      → ⊥
  lost-eq-ok e w a u h = raise-eq-ok _ w h

  answer_code-IsEarned :
      (v : Visit) (entry : Entry) (w : World env) {answer : Reply} {u : World env}
      → answer_code env v entry w ≡ (ok answer, u)
      → is_code answer ≡ true
      → IsEarned v entry w answer
  unfolding answer_code
  answer_code-IsEarned v entry w e h =
      let (code, w1, got, e1) = >>=-eq-ok _ _ w e in
      let (state, w2, read, e2) = >>=-eq-ok _ _ w1 e1 in
      let (sent, s1) = given-eq-ok "code" _ w got in
      let (named, s2) = given-eq-ok "state" _ w1 read in
      let (no_ticket, e3) =
        if_never-eq-ok (is_assistant_ticket state) _ _ w2 (λ c z k. raise-eq-ok _ w2 k) e2 in
      let (flow, w3, taken, e4) = >>=-eq-ok _ _ w2 e3 in
      let (_, w4, returned, e5) = >>=-eq-ok _ _ w3 e4 in
      let (_, w5, answered, e6) = >>=-eq-ok _ _ w4 e5 in
      let (here, s3) = returned_here-eq-ok env v flow w3 returned in
      let (to_entry, by_issuer, s4) = answered_by-eq-ok env v flow entry w4 answered in
      let (kept, left) =
        consume_flow-eq-ok env state w2 (settled-eq-ok _ _ w2 (lost-eq-ok) taken) in
      let (proved, web, is_code_of) = exchange_answer-eq-ok env v entry code flow w5 e6 h in
      record {
        state = state;
        named = named;
        no_ticket = no_ticket;
        flow = flow;
        kept = subst (λ z. cache.get z.flows z.now state ≡ some flow) (sym (s1 ∙ s2)) kept;
        bound = record { here = here; to_entry = to_entry; by_issuer = by_issuer };
        code = code;
        sent = sent;
        proved =
            subst (IsProved env entry flow code)
              (ap (λ z. z.now) (sym (s3 ∙ s4))
                ∙ ap (λ z. z.now) left
                ∙ ap (λ z. z.now) (sym (s1 ∙ s2)))
              proved;
        web = web;
        answered = is_code_of;
      }

  if_both-eq-ok :
      (b : Bool) (m n : Screen env Reply) (w : World env) {answer : Reply} {u : World env}
      → ((c : Reply) (z : World env) → m w ≡ (ok c, z) → is_code c ≡ false)
      → ((c : Reply) (z : World env) → n w ≡ (ok c, z) → is_code c ≡ false)
      → (if b then m else n) w ≡ (ok answer, u)
      → is_code answer ≡ false
  if_both-eq-ok true m n w h k e = h _ _ e
  if_both-eq-ok false m n w h k e = k _ _ e

  noticed-eq-ok :
      (v : Visit) (error request : String) (w : World env) (c : Reply) (z : World env)
      → shown env (set_cookie env v notice_cookie error >> pure (request_at request)) w ≡ (ok c, z)
      → is_code c ≡ false
  unfolding is_code
  noticed-eq-ok v error request w c z e =
      let (_, w1, _, e1) = >>=-eq-ok _ _ w (shown-eq-ok env _ w e) in
      ap is_code (sym (pure-eq-ok (request_at request) w1 e1).0)

  pure_error-eq-ok :
      (u error state : String) (w : World env) (c : Reply) (z : World env)
      → pure {W = World env} {E = Reply} (error_at u error state) w ≡ (ok c, z)
      → is_code c ≡ false
  unfolding is_code
  pure_error-eq-ok u error state w c z e =
      ap is_code (sym (pure-eq-ok (error_at u error state) w e).0)

  error_for-eq-ok :
      (v : Visit) (entry : Entry) (error : String) (flow : Flow) (w : World env) {answer : Reply}
      {u : World env}
      → error_for env v entry error flow w ≡ (ok answer, u)
      → is_code answer ≡ false
  unfolding error_for
  error_for-eq-ok v entry error flow w e =
      let (_, w1, _, e1) = >>=-eq-ok _ _ w e in
      let (_, w2, _, e2) = >>=-eq-ok _ _ w1 e1 in
      if_both-eq-ok flow.picker _ _ w2 (noticed-eq-ok v (notice_of env error) flow.request w2)
        (pure_error-eq-ok flow.app_redirect_uri error flow.spa_state w2) e2

  answer_error-eq-ok :
      (v : Visit) (entry : Entry) (error : String) (state : Option String) (w : World env)
      {answer : Reply} {u : World env}
      → answer_error env v entry error state w ≡ (ok answer, u)
      → is_code answer ≡ false
  unfolding answer_error
  answer_error-eq-ok v entry error none w e = absurd (raise-eq-ok _ w e)
  answer_error-eq-ok v entry error (some state) w e =
      let (_, e1) =
        if_never-eq-ok (is_assistant_ticket state) _ _ w (λ c z k. raise-eq-ok _ w k) e in
      let (flow, w1, _, e2) = >>=-eq-ok _ _ w e1 in error_for-eq-ok v entry error flow w1 e2

  answer_or_error-IsEarned :
      (v : Visit) (entry : Entry) (error : Option String) (w : World env) {answer : Reply}
      {u : World env}
      → answer_or_error env v entry error w ≡ (ok answer, u)
      → is_code answer ≡ true
      → IsEarned v entry w answer
  answer_or_error-IsEarned v entry none w e h = answer_code-IsEarned v entry w e h
  answer_or_error-IsEarned v entry (some error) w e h =
      let (_, w1, _, e1) = >>=-eq-ok _ _ w e in
      absurd (ground (arith, h, answer_error-eq-ok v entry error (opt_param v.query "state") w1 e1))

  -- A provider's answer earns a client a code only for a sign-in that the store held under the state
  -- it names, begun by this very browser and sent to this very provider. The provider exchanged the
  -- code and stated a person, by a method that it allows and the request asked for, at a moment that
  -- is not too long ago; the client is no AI app, and the code goes to its flow's own address.
  pub callback-IsEarned :
      (v : Visit) (entry : Entry) (w : World env) (answer : Reply) (u : World env)
      → callback env v entry w ≡ (ok answer, u)
      → is_code answer ≡ true
      → IsEarned v entry w answer
  unfolding callback
  callback-IsEarned v entry w answer u e h =
      answer_or_error-IsEarned v entry (opt_param v.query "error") w e h
