-- ===== src/Routes/Membership/Refreshed.antt =====
-- A refresh re-resolves a person, and never admits one.
use authbyte.Prelude.{
  String, ◌≡◌, refl, false, List, Option, none, some, Result, ok, err, arith, subst, sym, not, [],
  ◌∷◌, if◌then◌else◌,
}
use authbyte.Act.{pure, raise, gets, modify, refuse_if, ◌>>=◌}
use authbyte.Act.Leaves.{
  Chains, Leaves, Leaves-bind, Leaves-on_error, Leaves-pure, Leaves-raise, Leaves-gets,
  Leaves-refuse_if, Leaves-if,
}
use authbyte.Register.{Membership}
use authbyte.Rolebyte.{RegisterError, person_key, memberships, claim, answer, answered_for, settled}
use authbyte.Session.Types.{UserSession}
use authbyte.World.{Env, World}
use authbyte.Routes.Membership.{
  at_refresh, MembershipOutcome, offered, register_refusal, ask_memberships, resolve_memberships,
  settle_outcome, member_scopes, user_scopes, admit_person, is_asked,
}

module _ (env : Env) where
  open env use {register}

  -- A register whose state changed only as its claim door changes it.
  pub data ClaimsOnly (s : register.State) : register.State → Type 0 where
    same : ClaimsOnly s s
    claimed :
        {t : register.State}
        → ClaimsOnly s t
        → (key : String) → ClaimsOnly s (register.claims_door t key).1

  ClaimsOnly-trans : (s t u : register.State) → ClaimsOnly s t → ClaimsOnly t u → ClaimsOnly s u
  ClaimsOnly-trans s t _ c same = c
  ClaimsOnly-trans s t _ c (claimed d key) = claimed (ClaimsOnly-trans s t _ c d) key

  abbrev Claims : World env → World env → Type 0
  Claims w v = ClaimsOnly w.register v.register

  chains : Chains Claims
  chains = record {
    stays = λ w. same;
    joins = λ u v w c d. ClaimsOnly-trans u.register v.register w.register c d;
  }

  never_offered :
      (ms : List Membership) (sess : UserSession) → offered env ms at_refresh sess ≡ false
  never_offered [] sess = refl
  never_offered (m ∷ ms) sess = refl

  claim_after :
      (key : String) (w : World env)
      → (claim env key w).1.register ≡ (register.claims_door w.register key).1
  unfolding claim ◌>>=◌ gets modify refuse_if
  claim_after key w = ground arith

  claim-Leaves : (key : String) → Leaves Claims (claim env key)
  claim-Leaves key = record {
    at = λ w. subst (ClaimsOnly w.register) (sym (claim_after key w)) (claimed same key);
  }

  answer-Leaves : {A : Type 0} (o : Option A) → Leaves Claims (answer env o)
  unfolding answer
  answer-Leaves none = Leaves-raise chains _
  answer-Leaves (some a) = Leaves-pure chains a

  settled-Leaves : {A : Type 0} (r : Result RegisterError A) → Leaves Claims (settled env r)
  unfolding settled
  settled-Leaves (ok a) = Leaves-pure chains a
  settled-Leaves (err e) = Leaves-raise chains e

  memberships-Leaves : (key : String) → Leaves Claims (memberships env key)
  unfolding memberships
  memberships-Leaves key = Leaves-bind chains _ _ (Leaves-refuse_if chains _ _) λ _.
      Leaves-bind chains _ _ (claim-Leaves key) λ _.
        Leaves-bind chains _ _ (Leaves-gets chains _) λ res.
          Leaves-bind chains _ _ (answer-Leaves res) λ read. settled-Leaves (answered_for key read)

  register_refusal-Leaves :
      {A : Type 0} (asked : String) (e : RegisterError)
      → Leaves Claims (register_refusal env {A = A} asked e)
  unfolding register_refusal ◌>>=◌ modify raise
  register_refusal-Leaves asked e = record { at = λ w. same }

  ask_memberships-Leaves : (key : String) → Leaves Claims (ask_memberships env key)
  unfolding ask_memberships
  ask_memberships-Leaves key =
      Leaves-on_error chains _ _ (memberships-Leaves key) (register_refusal-Leaves key)

  resolve_memberships-Leaves :
      (sess : UserSession) → Leaves Claims (resolve_memberships env sess at_refresh)
  unfolding resolve_memberships
  resolve_memberships-Leaves sess =
      Leaves-bind chains _ _ (ask_memberships-Leaves (person_key sess.subject)) λ ms.
        subst
          (λ b.
            Leaves Claims (if b then admit_person env (person_key sess.subject) sess else pure ms))
          (sym (never_offered ms sess)) (Leaves-pure chains ms)

  settle_outcome-Leaves : (o : Option MembershipOutcome) → Leaves Claims (settle_outcome env o)
  unfolding settle_outcome
  settle_outcome-Leaves none = Leaves-raise chains _
  settle_outcome-Leaves (some o) = Leaves-pure chains o

  -- At a refresh the register is asked, and nobody is offered to its admission door: whatever is
  -- answered, what the register holds changes only as its claim door changes it.
  pub user_scopes_refresh :
      (sess : UserSession) (client_id hint : String) (w : World env)
      → ClaimsOnly w.register (user_scopes env sess client_id hint at_refresh w).1.register
  unfolding user_scopes member_scopes
  user_scopes_refresh sess client_id hint w =
      (Leaves-if chains (not (is_asked env client_id)) _ _ (Leaves-pure chains _) (
          Leaves-bind chains _ _ (resolve_memberships-Leaves sess)
            λ ms. settle_outcome-Leaves _)).at
        w
