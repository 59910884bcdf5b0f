-- ===== src/Register.antt =====
-- The membership register that rolebyte/rolebyte.go calls: another service, so a parameter, with a
-- state of its own that two of its doors change. No law is asked of it.
use authbyte.Prelude.{String, Bool, List, Option}

pub record Membership : Type 0 where
  pub tenant_id : String
  pub scopes : List String

pub record DirectoryLogin : Type 0 where
  pub issuer : String
  pub display_name : String

-- A person's own assistant, in the tenant where it is theirs, with the boxes both hold there.
pub record Assistant : Type 0 where
  pub key : String
  pub name : String
  pub tenant_id : String
  pub tenant_name : String
  pub scopes : List String

-- What the register's door answers: the key that the answer is about, and what it holds there.
pub record Answer (A : Type 0) : Type 0 where
  pub subject_key : String
  pub holds : List A

-- The doors. `none`, or `false` from the claim, is a call that failed: anything but a 200, or an
-- answer that cannot be read.
pub record Register : Type 1 where
  pub State : Type 0
  -- whether the deployment has a register at all
  pub wired : Bool
  -- attaches the pending invitations of a key
  pub claims_door : State → String → Bool × State
  pub memberships_door : State → String → Option (Answer Membership)
  pub assistants_door : State → String → Option (Answer Assistant)
  -- the outcome, in the register's words
  pub admissions_door : State → String → DirectoryLogin → Option String × State
