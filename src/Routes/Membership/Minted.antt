-- ===== src/Routes/Membership/Minted.antt =====
-- What a user token carries is what the register answers about its person, at every issue.
use authbyte.Prelude.{
  String, ◌≡◌, ◌⊎◌, inl, inr, subst, Bool, true, false, List, [], Option, none, some, ok, arith,
  Bool-cases,
}
use mathlib.Core.Path.{subst₂}
use authbyte.Act.{pure, raise, on_error, ◌>>=◌}
use authbyte.Act.Runs.{>>=-eq-ok, pure-eq-ok}
use authbyte.Registry.SignIn.{sign_in_client}
use authbyte.Register.{Membership}
use authbyte.Rolebyte.{person_key, memberships}
use authbyte.Rolebyte.Laws.{memberships_about}
use authbyte.Session.Types.{UserSession}
use authbyte.World.{Env, World}
use authbyte.Routes.Membership.{
  IssueMoment, MembershipOutcome, choose_membership, outcome_of, baseline_of, register_refusal,
  ask_memberships, offered, after_admission, admit_person, resolve_memberships, settle_outcome,
  is_asked, member_scopes, user_scopes,
}
use authbyte.Routes.Membership.Choosing.{IsOutcome, outcome_of-IsOutcome}

module _ (env : Env) where
  open env use {register}

  -- The register, as it is left, answers `ms` about a key.
  abbrev pub Answers : World env → String → List Membership → Type 0
  Answers v key ms =
      register.memberships_door v.register key ≡ some (record { subject_key = key; holds = ms })

  pub ask_memberships-eq-ok :
      (key : String) (w : World env) {ms : List Membership} {v : World env}
      → ask_memberships env key w ≡ (ok ms, v)
      → memberships env key w ≡ (ok ms, v)
  unfolding ask_memberships on_error register_refusal ◌>>=◌ raise
  ask_memberships-eq-ok key w h = ground arith

  pub ask_memberships-Answers :
      (key : String) (w : World env) (ms : List Membership) (v : World env)
      → ask_memberships env key w ≡ (ok ms, v)
      → Answers v key ms
  ask_memberships-Answers key w ms v h =
      (memberships_about env key w ms v (ask_memberships-eq-ok key w h)).0

  after_admission-Answers :
      (key : String) (admitted : Bool) (w : World env) (ms : List Membership) (v : World env)
      → after_admission env key admitted w ≡ (ok ms, v)
      → Answers v key ms ⊎ (ms ≡ [])
  unfolding after_admission pure
  after_admission-Answers key true w ms v h = inl (ask_memberships-Answers key w ms v h)
  after_admission-Answers key false w ms v h = inr (ground arith)

  admit_person-Answers :
      (key : String) (sess : UserSession) (w : World env) (ms : List Membership) (v : World env)
      → admit_person env key sess w ≡ (ok ms, v)
      → Answers v key ms ⊎ (ms ≡ [])
  unfolding admit_person
  admit_person-Answers key sess w ms v h =
      let (admitted, w1, _, last) = >>=-eq-ok _ (after_admission env key) w h in
      after_admission-Answers key admitted w1 ms v last

  resolve_memberships-Answers :
      (sess : UserSession) (moment : IssueMoment) (w : World env) (ms : List Membership)
      (v : World env)
      → resolve_memberships env sess moment w ≡ (ok ms, v)
      → Answers v (person_key sess.subject) ms ⊎ (ms ≡ [])
  unfolding resolve_memberships
  resolve_memberships-Answers sess moment w ms v h =
      let key = person_key sess.subject in
      let (first, w1, asked, rest) = >>=-eq-ok (ask_memberships env key) _ w h in
      elim (Bool-cases (offered env first moment sess)) [
        | inl offer ↦ admit_person-Answers key sess w1 ms v (rw offer at rest)
        | inr plain ↦
            let (same, last) = pure-eq-ok first w1 (rw plain at rest) in
            inl (
              subst₂ (λ l z. Answers z key l) same last
                (ask_memberships-Answers key w first w1 asked))
      ]

  settle_outcome-eq-ok :
      (found : Option MembershipOutcome) (w : World env) {o : MembershipOutcome} {v : World env}
      → settle_outcome env found w ≡ (ok o, v)
      → (found ≡ some o) × (w ≡ v)
  unfolding settle_outcome pure raise
  settle_outcome-eq-ok none w h = absurd (ground arith)
  settle_outcome-eq-ok (some o) w h = (ground arith, ground arith)

  -- The memberships that the register answers about the session's person, which the token is
  -- minted for.
  abbrev pub IsMember : World env → UserSession → String → MembershipOutcome → Type 0
  IsMember v sess hint o =
      (ms : List Membership) × Answers v (person_key sess.subject) ms × IsOutcome ms hint o

  outcome_nonempty :
      (hint : String) (o : MembershipOutcome)
      → ¬ (outcome_of [] hint (choose_membership [] hint) ≡ some o)
  unfolding outcome_of choose_membership
  outcome_nonempty hint o h = ground arith

  member_scopes-IsMember :
      (sess : UserSession) (hint : String) (moment : IssueMoment) (w : World env)
      (o : MembershipOutcome) (v : World env)
      → member_scopes env sess hint moment w ≡ (ok o, v)
      → IsMember v sess hint o
  unfolding member_scopes
  member_scopes-IsMember sess hint moment w o v h =
      let (ms, w1, resolved, last) = >>=-eq-ok (resolve_memberships env sess moment) _ w h in
      let (chosen, same) =
        settle_outcome-eq-ok (outcome_of ms hint (choose_membership ms hint)) w1 last in
      elim (resolve_memberships-Answers sess moment w ms w1 resolved) [
        | inl answers ↦ (
          ms,
          subst (λ z. Answers z (person_key sess.subject) ms) same answers,
          outcome_of-IsOutcome ms hint o chosen,
        )
        | inr empty ↦ absurd (outcome_nonempty hint o (rw empty at chosen))
      ]

  -- A user token is minted with the client's own baseline, no tenant and no question to the
  -- register where the client's people need no membership; and otherwise only with what the
  -- register answers about that very person: the membership named, or their only one, whole, and
  -- of several with none named no scope and no tenant. Never anything else.
  pub user_scopes_minted :
      (sess : UserSession) (client_id hint : String) (moment : IssueMoment) (w : World env)
      (o : MembershipOutcome) (v : World env)
      → user_scopes env sess client_id hint moment w ≡ (ok o, v)
      → ((is_asked env client_id ≡ false)
          × (o.scopes ≡ baseline_of (sign_in_client env.registry client_id))
          × (o.tenant ≡ "")
          × (o.choices ≡ [])
          × (v ≡ w))
        ⊎ ((is_asked env client_id ≡ true) × IsMember v sess hint o)
  unfolding user_scopes pure
  user_scopes_minted sess client_id hint moment w o v h =
      elim (Bool-cases (is_asked env client_id)) [
        | inl asked ↦ inr (asked, member_scopes-IsMember sess hint moment w o v (rw asked at h))
        | inr plain ↦ inl (
          plain,
          ground (arith, plain),
          ground (arith, plain),
          ground (arith, plain),
          ground (arith, plain),
        )
      ]
