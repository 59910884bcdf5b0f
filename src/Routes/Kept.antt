-- ===== src/Routes/Kept.antt =====
-- What a part of a handler that writes nothing to the store leaves: the clock, the sessions, the
-- refresh grants and the codes.
use authbyte.Prelude.{
  ℕ, String, ◌≡◌, refl, ◌∙◌, Bool, true, false, Option, none, some, Result, ok, err, arith, not,
  subst,
}
use authbyte.Act.{raise, modify, ◌>>=◌}
use authbyte.Act.Leaves.{
  Chains, Leaves, Leaves-bind, Leaves-on_error, Leaves-pure, Leaves-raise, Leaves-gets,
  Leaves-refuse_if, Leaves-if,
}
use authbyte.Register.{DirectoryLogin}
use authbyte.Registry.Grants.{RegistryError}
use authbyte.Rolebyte.{
  RegisterError, person_key, claim, answer, answered_for, settled, memberships, admit,
}
use authbyte.Session.Types.{UserSession}
use authbyte.World.{Env, World, AuditEvent}
use authbyte.Store.Calls.{reach}
use authbyte.Routes.Answers.{Handler, issued, random_token}
use authbyte.Routes.Request.{Request, Proof, ProofError, form_string, given}
use authbyte.Routes.ClientAuth.{
  Basic, no_basic, invalid_basic, basic, one_method, client_secret, registered,
  authenticate_sign_in,
}
use authbyte.Routes.Dpop.{check_and_set, verified, verify_endpoint_dpop}
use authbyte.Routes.Membership.{
  IssueMoment, MembershipOutcome, audit, register_refusal, ask_memberships, offered,
  after_admission, admit_person, resolve_memberships, settle_outcome, is_asked, member_scopes,
  user_scopes,
}

module _ (env : Env) where
  abbrev pub Kept : World env → World env → Type 0
  Kept w v =
      (v.now ≡ w.now) × (v.sessions ≡ w.sessions) × (v.refresh ≡ w.refresh) × (v.codes ≡ w.codes)

  pub chains : Chains Kept
  chains = record {
    stays = λ w. (refl, refl, refl, refl);
    joins = λ u v w c d. (d.0 ∙ c.0, d.1 ∙ c.1, d.2 ∙ c.2, d.3 ∙ c.3);
  }

  pub audit-Leaves : (e : AuditEvent) → Leaves Kept (audit env e)
  unfolding audit modify
  audit-Leaves e = record { at = λ w. (refl, refl, refl, refl) }

  pub given-Leaves : {A : Type 0} (name : String) (o : Option A) → Leaves Kept (given env name o)
  given-Leaves name none = Leaves-raise chains _
  given-Leaves name (some a) = Leaves-pure chains a

  pub form_string-Leaves : (req : Request) (name : String) → Leaves Kept (form_string env req name)
  unfolding form_string
  form_string-Leaves req name = given-Leaves name (req.required name)

  pub issued-Leaves : {A : Type 0} (o : Option A) → Leaves Kept (issued env o)
  unfolding issued
  issued-Leaves none = Leaves-raise chains _
  issued-Leaves (some a) = Leaves-pure chains a

  pub registered-Leaves : {A : Type 0} (r : Result RegistryError A) → Leaves Kept (registered env r)
  unfolding registered
  registered-Leaves (ok a) = Leaves-pure chains a
  registered-Leaves (err e) = Leaves-raise chains _

  one_method-Leaves :
      (b : Basic) (client_id : String) (form : Option String)
      → Leaves Kept (one_method env b client_id form)
  unfolding one_method
  one_method-Leaves no_basic client_id form = Leaves-pure chains _
  one_method-Leaves invalid_basic client_id form = Leaves-raise chains _
  one_method-Leaves (basic id s) client_id form =
      Leaves-bind chains _ _ (Leaves-refuse_if chains _ _)
        λ _. Leaves-bind chains _ _ (Leaves-refuse_if chains _ _) λ _. Leaves-pure chains _

  pub client_secret-Leaves :
      (req : Request) (client_id : String) → Leaves Kept (client_secret env req client_id)
  unfolding client_secret
  client_secret-Leaves req client_id = one_method-Leaves _ client_id _

  pub authenticate_sign_in-Leaves :
      (req : Request) (client_id : String) → Leaves Kept (authenticate_sign_in env req client_id)
  unfolding authenticate_sign_in
  authenticate_sign_in-Leaves req client_id =
      Leaves-bind chains _ _ (client_secret-Leaves req client_id) λ came. registered-Leaves _

  reach-Kept : (w : World env) → Kept w (reach env w).1
  unfolding reach
  reach-Kept w = (ground arith, ground arith, ground arith, ground arith)

  reach-Leaves : Leaves Kept (reach env)
  reach-Leaves = record { at = reach-Kept }

  check_and_set-Leaves : (jti : String) (ttl : ℕ) → Leaves Kept (check_and_set env jti ttl)
  unfolding check_and_set modify
  check_and_set-Leaves jti ttl = Leaves-bind chains _ _ reach-Leaves λ _.
      Leaves-bind chains _ _ (Leaves-gets chains _) λ added.
        Leaves-bind chains _ _ (record { at = λ w. (refl, refl, refl, refl) })
          λ _. Leaves-pure chains _

  verified-Leaves : (r : Result ProofError Proof) → Leaves Kept (verified env r)
  verified-Leaves (ok p) = Leaves-pure chains p
  verified-Leaves (err e) = Leaves-raise chains _

  pub verify_endpoint_dpop-Leaves : (req : Request) → Leaves Kept (verify_endpoint_dpop env req)
  unfolding verify_endpoint_dpop
  verify_endpoint_dpop-Leaves req = Leaves-bind chains _ _ (verified-Leaves req.proof) λ res.
      Leaves-bind chains _ _ (Leaves-gets chains _) λ now.
        Leaves-bind chains _ _ (Leaves-refuse_if chains _ _) λ _.
          Leaves-bind chains _ _
            (Leaves-on_error chains _ _ (check_and_set-Leaves res.jti env.proof_window)
              λ e. Leaves-raise chains _)
            λ first. Leaves-bind chains _ _ (Leaves-refuse_if chains _ _) λ _. Leaves-pure chains _

  answer-Leaves : {A : Type 0} (o : Option A) → Leaves Kept (answer env o)
  unfolding answer
  answer-Leaves none = Leaves-raise chains _
  answer-Leaves (some a) = Leaves-pure chains a

  settled-Leaves : {A : Type 0} (r : Result RegisterError A) → Leaves Kept (settled env r)
  unfolding settled
  settled-Leaves (ok a) = Leaves-pure chains a
  settled-Leaves (err e) = Leaves-raise chains e

  claim-Leaves : (key : String) → Leaves Kept (claim env key)
  unfolding claim modify
  claim-Leaves key = Leaves-bind chains _ _ (Leaves-gets chains _) λ c.
      Leaves-bind chains _ _ (record { at = λ w. (refl, refl, refl, refl) })
        λ _. Leaves-refuse_if chains _ _

  memberships-Leaves : (key : String) → Leaves Kept (memberships env key)
  unfolding memberships
  memberships-Leaves key = Leaves-bind chains _ _ (Leaves-refuse_if chains _ _) λ _.
      Leaves-bind chains _ _ (claim-Leaves key) λ _.
        Leaves-bind chains _ _ (Leaves-gets chains _) λ res.
          Leaves-bind chains _ _ (answer-Leaves res) λ read. settled-Leaves (answered_for key read)

  register_refusal-Leaves :
      {A : Type 0} (asked : String) (e : RegisterError)
      → Leaves Kept (register_refusal env {A = A} asked e)
  unfolding register_refusal ◌>>=◌ modify raise
  register_refusal-Leaves asked e = record { at = λ w. (refl, refl, refl, refl) }

  pub ask_memberships-Leaves : (key : String) → Leaves Kept (ask_memberships env key)
  unfolding ask_memberships
  ask_memberships-Leaves key =
      Leaves-on_error chains _ _ (memberships-Leaves key) (register_refusal-Leaves key)

  admit-Leaves : (key : String) (login : DirectoryLogin) → Leaves Kept (admit env key login)
  unfolding admit modify
  admit-Leaves key login = Leaves-bind chains _ _ (Leaves-refuse_if chains _ _) λ _.
      Leaves-bind chains _ _ (Leaves-gets chains _) λ res.
        Leaves-bind chains _ _ (record { at = λ w. (refl, refl, refl, refl) })
          λ _. Leaves-bind chains _ _ (answer-Leaves _) λ o. Leaves-pure chains _

  after_admission-Leaves : (key : String) (b : Bool) → Leaves Kept (after_admission env key b)
  unfolding after_admission
  after_admission-Leaves key true = ask_memberships-Leaves key
  after_admission-Leaves key false = Leaves-pure chains _

  admit_person-Leaves :
      (key : String) (sess : UserSession) → Leaves Kept (admit_person env key sess)
  unfolding admit_person
  admit_person-Leaves key sess =
      Leaves-bind chains _ _
        (Leaves-on_error chains _ _ (admit-Leaves key _) (register_refusal-Leaves key))
        (after_admission-Leaves key)

  settle_outcome-Leaves : (o : Option MembershipOutcome) → Leaves Kept (settle_outcome env o)
  unfolding settle_outcome
  settle_outcome-Leaves none = Leaves-raise chains _
  settle_outcome-Leaves (some o) = Leaves-pure chains o

  pub user_scopes-Leaves :
      (sess : UserSession) (client_id hint : String) (moment : IssueMoment)
      → Leaves Kept (user_scopes env sess client_id hint moment)
  unfolding user_scopes member_scopes resolve_memberships
  user_scopes-Leaves sess client_id hint moment =
      Leaves-if chains (not (is_asked env client_id)) _ _ (Leaves-pure chains _) (
        Leaves-bind chains _ _
          (Leaves-bind chains _ _ (ask_memberships-Leaves (person_key sess.subject)) λ ms.
            Leaves-if chains (offered env ms moment sess) _ _ (admit_person-Leaves _ sess)
              (Leaves-pure chains ms))
          λ ms. settle_outcome-Leaves _)

  pub random_token-Leaves : Leaves Kept (random_token env)
  unfolding random_token modify
  random_token-Leaves = Leaves-bind chains _ _ (Leaves-gets chains _) λ t.
      Leaves-bind chains _ _ (record { at = λ w. (refl, refl, refl, refl) })
        λ _. Leaves-pure chains _

  -- What a part that answered left, as an equation between the two states.
  pub after-Kept :
      {A : Type 0} (m : Handler env A) (w v : World env) (a : A)
      → Leaves Kept m
      → m w ≡ (ok a, v)
      → Kept w v
  after-Kept m w v a l ran = subst (λ r. Kept w r.1) ran (l.at w)
