-- ===== src/Routes/Membership.antt =====
-- routes/token.go: userScopes, registerUnavailable, chooseMembership and intersectScopes.
pub mod Choosing
pub mod Minted
pub mod Refreshed
use authbyte.Prelude.{
  String, Bool, true, false, not, ◌&&◌, ◌||◌, List, [], ◌∷◌, ◌++◌, map, Option, none, some,
  contains, find, is_empty, is_some, keep, ◌==◌, if◌then◌else◌,
}
use authbyte.Act.{Act, pure, raise, gets, modify, refuse_if, on_error, ◌>>=◌, ◌>>◌}
use authbyte.Registry.Rows.{SignInClient}
use authbyte.Registry.SignIn.{membership_required, sign_in_client}
use authbyte.Register.{Membership}
use authbyte.Rolebyte.{RegisterError, answer_for_another_subject, person_key, memberships, admit}
use authbyte.Session.Types.{UserSession, display_name}
use authbyte.World.{Env, World, AuditEvent, answered_for_another}
use authbyte.Routes.Answers.{Refusal, not_member, register_unavailable, Handler}

pub data IssueMoment : Type 0 where
  at_sign_in at_refresh : IssueMoment

abbrev pub is_sign_in : IssueMoment → Bool
is_sign_in at_sign_in = true
is_sign_in at_refresh = false

pub record MembershipOutcome : Type 0 where
  pub scopes : List String
  pub tenant : String
  pub choices : List String

-- The membership chosen, and the organisations to choose from.
pub record Choice : Type 0 where
  pub chosen : Option Membership
  pub choices : List String

abbrev pub tenants_of : List Membership → List String
tenants_of ms = map (λ m. m.tenant_id) ms

abbrev pub only : List Membership → Choice
only (m ∷ []) = record { chosen = some m; choices = [] }
only ms = record { chosen = none; choices = tenants_of ms }

unfoldable pub choose_membership : List Membership → String → Choice
choose_membership ms hint =
    if not (hint == "")
    then record { chosen = find (λ m. m.tenant_id == hint) ms; choices = [] }
    else only ms

unfoldable pub intersect_scopes : List String → List String → List String
intersect_scopes allowed granted = keep (contains granted) allowed

-- the switch on the choice
unfoldable pub outcome_of : List Membership → String → Choice → Option MembershipOutcome
outcome_of ms hint c = elim c.chosen [
  | some m ↦
      if is_empty ms
      then none
      else some (record { scopes = m.scopes; tenant = m.tenant_id; choices = [] })
  | none ↦
      if is_empty ms || not (hint == "")
      then none
      else some (record { scopes = []; tenant = ""; choices = c.choices })
]

abbrev pub baseline_of : Option SignInClient → List String
baseline_of none = []
baseline_of (some c) = c.baseline_scopes

module _ (env : Env) where
  -- an entry of the audit trail
  unfoldable pub audit : AuditEvent → Handler env (Unit {0})
  audit e = modify (λ w. record w { events = w.events ++ e ∷ [] })

  abbrev pub when_other : RegisterError → String → List AuditEvent
  when_other answer_for_another_subject asked = answered_for_another asked ∷ []
  when_other _ asked = []

  unfoldable pub register_refusal : {A : Type 0} → String → RegisterError → Handler env A
  register_refusal asked e = do
    modify (λ w. record w { events = w.events ++ when_other e asked })
    raise register_unavailable

  -- a question to the register whose failure refuses the issue
  unfoldable pub ask_memberships : String → Handler env (List Membership)
  ask_memberships key = on_error (memberships env key) (register_refusal key)

  -- Whether a person is offered to the admission door of their directory.
  abbrev pub offered : List Membership → IssueMoment → UserSession → Bool
  offered ms moment sess =
      is_empty ms
      && is_sign_in moment
      && not (sess.directory_issuer == "")
      && not sess.directory_guest

  unfoldable pub after_admission : String → Bool → Handler env (List Membership)
  after_admission key true = ask_memberships key
  after_admission key false = pure []

  unfoldable pub admit_person : String → UserSession → Handler env (List Membership)
  admit_person key sess = do
    admitted ←
        on_error
          (admit env key
            (record { issuer = sess.directory_issuer; display_name = display_name sess }))
          (register_refusal key)
    after_admission key admitted

  -- the memberships that an issue goes by, after an admission where one is made
  unfoldable pub resolve_memberships : UserSession → IssueMoment → Handler env (List Membership)
  resolve_memberships sess moment = do
    ms ← ask_memberships (person_key sess.subject)
    if offered ms moment sess then admit_person (person_key sess.subject) sess else pure ms

  unfoldable pub settle_outcome : Option MembershipOutcome → Handler env MembershipOutcome
  settle_outcome none = raise not_member
  settle_outcome (some o) = pure o

  -- whether the register is asked about the people of a client
  unfoldable pub is_asked : String → Bool
  is_asked client_id = env.register.wired && membership_required env.registry client_id true

  unfoldable pub member_scopes : UserSession → String → IssueMoment → Handler env MembershipOutcome
  member_scopes sess hint moment = do
    ms ← resolve_memberships sess moment
    settle_outcome (outcome_of ms hint (choose_membership ms hint))

  unfoldable pub user_scopes :
      UserSession → String → String → IssueMoment → Handler env MembershipOutcome
  user_scopes sess client_id hint moment =
      if not (is_asked client_id)
      then pure (record {
        scopes = baseline_of (sign_in_client env.registry client_id);
        tenant = "";
        choices = [];
      })
      else member_scopes sess hint moment
