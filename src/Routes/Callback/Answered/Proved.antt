-- ===== src/Routes/Callback/Answered/Proved.antt =====
-- routes/authorize.go: how the parts of `callback` answer, and what a sign-in's completion rests on.
use authbyte.Prelude.{
  unrefused, ℕ, String, ◌≡◌, refl, Bool, true, false, not, Option, none, some, Result, ok, err,
  arith, ap, sym, subst, ◌∙◌, if◌then◌else◌,
}
use authbyte.Act.{gets}
use authbyte.Act.Runs.{
  >>=-eq-ok, pure-eq-ok, raise-eq-ok, on_error-eq-ok, if_never-eq-ok, if_else_never-eq-ok,
  settled-eq-ok,
}
use authbyte.Browser.{Visit, Reply, code_at, refused, assistant_page, Screen, shown, bound_here}
use authbyte.Identity.Resolver.{UserInfo, Identity, resolve}
use authbyte.Routes.Asking.{sign_in_moment, method_requested}
use authbyte.Routes.Callback.{
  NoSession, method_not_requested, mapping_failed, SignedIn, establish_session, ask_assistant,
}
use authbyte.Routes.Callback.Answered.{
  fail_with, returned_here, sent_to, other_issuer, answered_by, with_tokens, with_claims, in_time,
  no_session, answer_client, complete, exchange_answer,
}
use authbyte.Routes.Answers.{Handler}
use authbyte.Routes.Connection.{is_ai_app}
use authbyte.Session.Types.{Flow, UserSession}
use authbyte.Upstream.{
  Entry, Tokens, ClaimsError, identity_code, bad_id_token, other, method_allowed, resolver_of,
}
use authbyte.World.{Env, World}

-- whether an answer gives a client a code
unfoldable pub is_code : Reply → Bool
is_code (code_at u code state) = true
is_code answer = false

module _ (env : Env) where
  open env use {cache, sign_in}

  -- A sign-in of this browser, at this provider.
  pub record IsBound (v : Visit) (entry : Entry) (flow : Flow) : Type 0 where
    pub here : bound_here env v flow.binding ≡ true
    pub to_entry : sent_to env flow entry ≡ true
    pub by_issuer : other_issuer env v entry ≡ false

  -- What the provider answered for the sign-in: a person, by a method that the provider allows and the
  -- request asked for, at a moment that is not too long ago.
  pub record IsProved (entry : Entry) (flow : Flow) (code : String) (now : ℕ) : Type 0 where
    pub tokens : Tokens
    pub exchanged : entry.provider.exchange code flow.entrust_redirect_uri ≡ some tokens
    pub info : UserInfo
    pub claimed : entry.provider.claims tokens flow.nonce ≡ ok info
    pub allowed :
        method_allowed entry.provider
          (resolve sign_in.lower (resolver_of sign_in.lower entry.provider) info).login_method
        ≡ true
    pub requested :
        method_requested flow.requested_methods
          (resolve sign_in.lower (resolver_of sign_in.lower entry.provider) info).login_method
        ≡ true
    pub moment : ℕ
    pub in_time : sign_in_moment info flow now ≡ some moment

  pub fail_with-eq-ok :
      {A : Type 0} (reason : String) (answer : Reply) (w : World env) {a : A} {u : World env}
      → fail_with env reason answer w ≡ (ok a, u)
      → ⊥
  unfolding fail_with
  fail_with-eq-ok reason answer w e =
      let (_, v, _, rest) = >>=-eq-ok _ _ w e in raise-eq-ok answer v rest

  pub returned_here-eq-ok :
      (v : Visit) (flow : Flow) (w : World env) {x : Unit {0}} {u : World env}
      → returned_here env v flow w ≡ (ok x, u)
      → (bound_here env v flow.binding ≡ true) × (w ≡ u)
  unfolding returned_here
  returned_here-eq-ok v flow w e =
      let (here, rest) =
        if_else_never-eq-ok (bound_here env v flow.binding) _ _ w (λ c z. fail_with-eq-ok _ _ w)
          e in
      (here, (pure-eq-ok tt w rest).1)

  pub answered_by-eq-ok :
      (v : Visit) (flow : Flow) (entry : Entry) (w : World env) {x : Unit {0}} {u : World env}
      → answered_by env v flow entry w ≡ (ok x, u)
      → (sent_to env flow entry ≡ true) × (other_issuer env v entry ≡ false) × (w ≡ u)
  unfolding answered_by
  answered_by-eq-ok v flow entry w e =
      let (to_entry, e1) =
        if_never-eq-ok (not (sent_to env flow entry)) _ _ w (λ c z. fail_with-eq-ok _ _ w) e in
      let (by_issuer, e2) =
        if_never-eq-ok (other_issuer env v entry) _ _ w (λ c z. fail_with-eq-ok _ _ w) e1 in
      (ground arith, by_issuer, (pure-eq-ok tt w e2).1)

  with_tokens-eq-ok :
      (o : Option Tokens) (w : World env) {t : Tokens} {u : World env}
      → with_tokens env o w ≡ (ok t, u)
      → (o ≡ some t) × (w ≡ u)
  with_tokens-eq-ok none w e = absurd (raise-eq-ok _ w e)
  with_tokens-eq-ok (some t) w e = let (same, stays) = pure-eq-ok t w e in (ap some same, stays)

  with_claims-eq-ok :
      (r : Result ClaimsError UserInfo) (w : World env) {i : UserInfo} {u : World env}
      → with_claims env r w ≡ (ok i, u)
      → (r ≡ ok i) × (w ≡ u)
  with_claims-eq-ok (ok info) w e = let (same, stays) = pure-eq-ok info w e in (ap ok same, stays)
  with_claims-eq-ok (err identity_code) w e = absurd (fail_with-eq-ok _ _ w e)
  with_claims-eq-ok (err bad_id_token) w e = absurd (fail_with-eq-ok _ _ w e)
  with_claims-eq-ok (err other) w e = absurd (raise-eq-ok _ w e)

  in_time-eq-ok :
      (flow : Flow) (o : Option ℕ) (w : World env) {at : ℕ} {u : World env}
      → in_time env flow o w ≡ (ok at, u)
      → (o ≡ some at) × (w ≡ u)
  in_time-eq-ok flow none w e = absurd (fail_with-eq-ok _ _ w e)
  in_time-eq-ok flow (some at) w e = let (same, stays) = pure-eq-ok at w e in (ap some same, stays)

  no_session-eq-ok :
      (flow : Flow) (reason : NoSession) (w : World env) {s : SignedIn} {u : World env}
      → no_session env flow reason w ≡ (ok s, u)
      → ⊥
  no_session-eq-ok flow method_not_requested w e = fail_with-eq-ok _ _ w e
  no_session-eq-ok flow mapping_failed w e = fail_with-eq-ok _ _ w e

  -- The claims resolved.
  abbrev identity_of : Entry → UserInfo → Identity
  identity_of entry info = resolve sign_in.lower (resolver_of sign_in.lower entry.provider) info

  establish_session-eq-ok :
      (flow : Flow) (id : Identity) (provider : String) (w : World env) {s : SignedIn}
      {u : World env}
      → establish_session env flow id provider w ≡ (ok s, u)
      → method_requested flow.requested_methods id.login_method ≡ true
  unfolding establish_session
  establish_session-eq-ok flow id provider w e =
      let (asked, _) =
        if_never-eq-ok (not (method_requested flow.requested_methods id.login_method)) _ _ w
          (λ c z h. raise-eq-ok method_not_requested w h) e in
      ground arith

  -- an answer with a code is the flow's
  abbrev pub IsCodeOf : Flow → Reply → Type 0
  IsCodeOf flow answer =
      (code : String) × (answer ≡ code_at flow.app_redirect_uri code flow.spa_state)

  ask_assistant-eq-ok :
      (v : Visit) (flow : Flow) (key : String) (sess : UserSession) (w : World env) {answer : Reply}
      {u : World env}
      → ask_assistant env v flow key sess w ≡ (ok answer, u)
      → is_code answer ≡ false
  unfolding ask_assistant is_code
  ask_assistant-eq-ok v flow key sess w e =
      let (ticket, w1, _, e1) = >>=-eq-ok _ _ w e in
      let (saved, w2, _, e2) = >>=-eq-ok _ _ w1 e1 in
      let (own, w3, _, e3) = >>=-eq-ok _ _ w2 e2 in
      let (binding, w4, _, e4) = >>=-eq-ok _ _ w3 e3 in
      let (same, _) = pure-eq-ok (assistant_page ticket own) w4 e4 in ap is_code (sym same)

  pub shown-eq-ok :
      {A : Type 0} (m : Handler env A) (w : World env) {a : A} {u : World env}
      → shown env m w ≡ (ok a, u)
      → m w ≡ (ok a, u)
  unfolding shown
  shown-eq-ok m w e = on_error-eq-ok m refused w e

  if_not-eq-ok :
      (b : Bool) (m n : Screen env Reply) (w : World env) {answer : Reply} {u : World env}
      → ((c : Reply) (z : World env) → m w ≡ (ok c, z) → is_code c ≡ false)
      → (if b then m else n) w ≡ (ok answer, u)
      → is_code answer ≡ true
      → (b ≡ false) × (n w ≡ (ok answer, u))
  if_not-eq-ok true m n w {answer} {u} never e h = absurd (ground (arith, never answer u e))
  if_not-eq-ok false m n w never e h = (refl, e)

  answer_client-eq-ok :
      (v : Visit) (flow : Flow) (key : String) (sess : UserSession) (w : World env) {answer : Reply}
      {u : World env}
      → answer_client env v flow key sess w ≡ (ok answer, u)
      → is_code answer ≡ true
      → (is_ai_app env flow.client_id ≡ false) × IsCodeOf flow answer
  unfolding answer_client
  answer_client-eq-ok v flow key sess w e h =
      let (web, e1) =
        if_not-eq-ok (is_ai_app env flow.client_id) _ _ w
          (λ c z page. ask_assistant-eq-ok v flow key sess w (shown-eq-ok _ w page)) e h in
      let (code, w1, _, e2) = >>=-eq-ok _ _ w (shown-eq-ok _ w e1) in
      let (same, _) = pure-eq-ok (code_at flow.app_redirect_uri code flow.spa_state) w1 e2 in
      (web, (code, sym same))

  complete-eq-ok :
      (v : Visit) (flow : Flow) (entry : Entry) (tokens : Tokens) (info : UserInfo) (id : Identity)
      (w : World env) {answer : Reply} {u : World env}
      → complete env v flow entry tokens info id w ≡ (ok answer, u)
      → is_code answer ≡ true
      → ((at : ℕ) × (sign_in_moment info flow w.now ≡ some at))
        × (method_requested flow.requested_methods id.login_method ≡ true)
        × (is_ai_app env flow.client_id ≡ false)
        × IsCodeOf flow answer
  unfolding complete gets
  complete-eq-ok v flow entry tokens info id w e h =
      let (now, w0, read, e0) = >>=-eq-ok _ _ w e in
      let (at, w1, moment, e1) = >>=-eq-ok _ _ w0 e0 in
      let (signed, w2, established, e2) = >>=-eq-ok _ _ w1 e1 in
      let (stamped, w3, _, e3) = >>=-eq-ok _ _ w2 e2 in
      let (sess, w4, _, e4) = >>=-eq-ok _ _ w3 e3 in
      let (noted, w5, _, e5) = >>=-eq-ok _ _ w4 e4 in
      let (web, is_code_of) = answer_client-eq-ok v flow signed.key sess w5 e5 h in
      (
        (at, ground (arith, read, (in_time-eq-ok flow (sign_in_moment info flow now) w0 moment).0)),
        establish_session-eq-ok flow id entry.key w1
            (settled-eq-ok _ _ w1 (λ reason x b y. no_session-eq-ok flow reason x) established),
        web,
        is_code_of,
      )

  pub exchange_answer-eq-ok :
      (v : Visit) (entry : Entry) (code : String) (flow : Flow) (w : World env) {answer : Reply}
      {u : World env}
      → exchange_answer env v entry code flow w ≡ (ok answer, u)
      → is_code answer ≡ true
      → IsProved entry flow code w.now
        × (is_ai_app env flow.client_id ≡ false)
        × IsCodeOf flow answer
  unfolding exchange_answer
  exchange_answer-eq-ok v entry code flow w e h =
      let (tokens, w1, exchanged, e1) = >>=-eq-ok _ _ w e in
      let (info, w2, claimed, e2) = >>=-eq-ok _ _ w1 e1 in
      let (swapped, s1) = with_tokens-eq-ok _ w exchanged in
      let (read, s2) = with_claims-eq-ok _ w1 claimed in
      let id = identity_of entry info in
      let (allowed, e3) =
        if_never-eq-ok (not (method_allowed entry.provider id.login_method)) _ _ w2
          (λ c z. fail_with-eq-ok _ _ w2) e2 in
      let ((at, moment), asked, web, is_code_of) =
        complete-eq-ok v flow entry tokens info id w2 e3 h in
      (
        record {
          tokens = tokens;
          exchanged = swapped;
          info = info;
          claimed = read;
          allowed = unrefused (method_allowed entry.provider id.login_method) allowed;
          requested = asked;
          moment = at;
          in_time = subst (λ z. sign_in_moment info flow z.now ≡ some at) (sym (s1 ∙ s2)) moment;
        },
        web,
        is_code_of,
      )
