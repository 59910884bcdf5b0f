-- ===== src/Rolebyte.antt =====
-- rolebyte/rolebyte.go: the adapter to the membership register.
pub mod Laws
use Prim.Native.String.{◌++◌ as append}
use Prim.Native.Char.{code}
use text.Mathlib.Text.{starts_with}
use authbyte.Prelude.{
  String, Bool, true, false, not, ◌||◌, List, Option, none, some, Result, ok, err, all, ◌==◌,
  if◌then◌else◌,
}
use authbyte.Registry.Scopes.{codes, is_space}
use authbyte.Act.{Act, pure, raise, gets, modify, refuse_if, ◌>>=◌, ◌>>◌}
use authbyte.Register.{Membership, Assistant, DirectoryLogin, Answer}
use authbyte.World.{Env, World}

pub data RegisterError : Type 0 where
  unreachable answer_for_another_subject bad_question : RegisterError

unfoldable pub person_key : String → String
person_key subject = append "sub:" subject

-- the answer, if it names the key that was asked about
unfoldable pub answered_for : {A : Type 0} → String → Answer A → Result RegisterError (List A)
answered_for asked res =
    if not (res.subject_key == asked) then err answer_for_another_subject else ok res.holds

module _ (env : Env) where
  open env use {register}

  abbrev pub Ask : Type 0 → Type 0
  Ask A = Act (World env) RegisterError A

  unfoldable pub answer : {A : Type 0} → Option A → Ask A
  answer none = raise unreachable
  answer (some a) = pure a

  unfoldable pub settled : {A : Type 0} → Result RegisterError A → Ask A
  settled (ok a) = pure a
  settled (err e) = raise e

  -- the claim door, which comes before every question
  unfoldable pub claim : String → Ask (Unit {0})
  claim key = do
    claimed ← gets (λ w. register.claims_door w.register key)
    modify (λ w. record w { register = claimed.1 })
    refuse_if (not claimed.0) unreachable

  unfoldable pub memberships : String → Ask (List Membership)
  memberships key = do
    refuse_if (all is_space (codes key)) bad_question
    claim key
    res ← gets (λ w. register.memberships_door w.register key)
    read ← answer res
    settled (answered_for key read)

  unfoldable pub assistants : String → Ask (List Assistant)
  assistants key = do
    refuse_if (not (starts_with key "sub:") || key == "sub:") bad_question
    claim key
    res ← gets (λ w. register.assistants_door w.register key)
    read ← answer res
    settled (answered_for key read)

  unfoldable pub admit : String → DirectoryLogin → Ask Bool
  admit key login = do
    refuse_if (key == "" || login.issuer == "") bad_question
    res ← gets (λ w. register.admissions_door w.register key login)
    modify (λ w. record w { register = res.1 })
    outcome ← answer res.0
    pure (outcome == "admitted")
