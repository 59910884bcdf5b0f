-- ===== src/Registry/Grants.antt =====
-- registry/registry.go: what the loaded registry answers about service clients. Authenticate,
-- AllowedScopes, AssistantLevels and MayActFrom; an unknown client and a disabled one are one case.
pub mod Laws
use authbyte.Prelude.{
  String, Bool, true, false, not, ◌&&◌, ◌||◌, List, [], ◌∷◌, ◌++◌, Option, none, some, lookup,
  insert, contains, find, any, is_empty, ◌==◌, Result, ok, err, if◌then◌else◌,
}
use authbyte.Registry.Rows.{Grant, Client}
use authbyte.Registry.Load.{Bytes, Registry}
use authbyte.Registry.Secrets.{subtle_mismatch}

pub data RegistryError : Type 0 where
  unknown_client bad_secret grant_denied : RegistryError
  unknown_sign_in_client redirect_uri_not_allowed : RegistryError

-- The test `!ok || !c.Enabled` that each operation begins with.
unfoldable pub enabled_client : Registry → String → Option Client
enabled_client r id = elim (lookup r.clients id) [
  | none ↦ none
  | some c ↦ if c.enabled then some c else none
]

-- `!ok || expected == "" || subtleMismatch(expected, secret)`
unfoldable pub wrong_secret : Option Bytes → Bytes → Bool
wrong_secret none secret = true
wrong_secret (some expected) secret = is_empty expected || subtle_mismatch expected secret

unfoldable pub set_secret : Registry → String → Bytes → Registry
set_secret r id secret = record r { secrets = insert r.secrets id secret }

unfoldable pub authenticate : Registry → String → Bytes → Result RegistryError Client
authenticate r id secret = elim (enabled_client r id) [
  | none ↦ err unknown_client
  | some c ↦ if wrong_secret (lookup r.secrets id) secret then err bad_secret else ok c
]

abbrev pub grant_toward : String → List Grant → Option Grant
grant_toward audience gs = find (λ g. g.audience == audience) gs

-- the loop over the requested scopes
unfoldable pub granted :
    List String → List String → List String → Result RegistryError (List String)
granted allowed out [] = ok out
granted allowed out (s ∷ rest) =
    let next = granted allowed (out ++ s ∷ []) rest in
    if not (contains allowed s) then err grant_denied else next

unfoldable pub scopes_of_grant : Option Grant → List String → Result RegistryError (List String)
unfolding granted
scopes_of_grant none requested = err grant_denied
scopes_of_grant (some g) requested =
    if is_empty requested then ok g.scopes else granted g.scopes [] requested

unfoldable pub allowed_scopes :
    Registry → String → String → List String → Result RegistryError (List String)
allowed_scopes r id audience requested = elim (enabled_client r id) [
  | none ↦ err unknown_client
  | some c ↦ scopes_of_grant (grant_toward audience c.grants) requested
]

abbrev pub levels_of : Option Grant → List String
levels_of none = []
levels_of (some g) = g.assistant_levels

unfoldable pub assistant_levels : Registry → String → String → List String
assistant_levels r id audience = elim (enabled_client r id) [
  | none ↦ []
  | some c ↦ levels_of (grant_toward audience c.grants)
]

abbrev pub acts_from : Client → String → Bool
acts_from c aud = not (aud == "") && (aud == c.client_id || contains c.act_from aud)

unfoldable pub may_act_from : Registry → String → List String → Bool
may_act_from r id audiences = elim (enabled_client r id) [
  | none ↦ false
  | some c ↦ any (acts_from c) audiences
]
