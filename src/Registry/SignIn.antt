-- ===== src/Registry/SignIn.antt =====
-- registry/registry.go: what the loaded registry answers about sign-in clients. A row is in force
-- while it is enabled.
pub mod Laws
use Prim.Native.String.{compare}
use Prim.Native.Nat.{Ordering}
use authbyte.Prelude.{
  String, Bool, true, false, not, ◌&&◌, ◌||◌, List, [], ◌∷◌, Option, none, some, Assoc, lookup,
  contains, any, is_empty, is_some, ◌==◌, Result, ok, err, if◌then◌else◌,
}
use authbyte.Registry.Rows.{SignInClient, client_public, kind_ai_app}
use authbyte.Registry.Load.{Bytes, Registry}
use authbyte.Registry.Validate.SignIn.{says}
use authbyte.Registry.Grants.{
  RegistryError, unknown_sign_in_client, bad_secret, redirect_uri_not_allowed, wrong_secret,
}

unfoldable pub sign_in_client : Registry → String → Option SignInClient
sign_in_client r id = elim (lookup r.sign_in_clients id) [
  | none ↦ none
  | some c ↦ if c.enabled then some c else none
]

unfoldable pub ai_app : Registry → String → Option SignInClient
ai_app r id = elim (lookup r.sign_in_clients id) [
  | none ↦ none
  | some c ↦ if not c.enabled || not (c.kind == kind_ai_app) then none else some c
]

-- `c.MembershipRequired`, the registration's word or the default
abbrev pub requires : Option Bool → Bool → Bool
requires none register_wired = register_wired
requires (some b) register_wired = b

unfoldable pub membership_required : Registry → String → Bool → Bool
membership_required r id register_wired = elim (lookup r.sign_in_clients id) [
  | none ↦ register_wired
  | some c ↦ requires c.membership_required register_wired
]

unfoldable pub requires_membership_somewhere : Registry → Bool
requires_membership_somewhere r =
    any (λ e. e.1.enabled && says e.1.membership_required true) r.sign_in_clients

-- The order of `strings.Compare`.
abbrev pub before : String → String → Bool
before a b = elim (compare a b) [ Ordering.gt ↦ false | _ ↦ true ]

-- `slices.SortFunc` by id; ids are distinct, so the order is the only one.
unfoldable pub insert_client : SignInClient → List SignInClient → List SignInClient
insert_client c [] = c ∷ []
insert_client c (d ∷ ds) =
    let rest = insert_client c ds in if before c.client_id d.client_id then c ∷ d ∷ ds else d ∷ rest

unfoldable pub enabled_of : Assoc SignInClient → List SignInClient
unfolding insert_client
enabled_of [] = []
enabled_of ((k, c) ∷ m) =
    let rest = enabled_of m in if c.enabled then insert_client c rest else rest

unfoldable pub sign_in_clients : Registry → List SignInClient
unfolding enabled_of
sign_in_clients r = enabled_of r.sign_in_clients

-- the ids of the clients whose baseline no person could be minted
unfoldable pub never_minted : Registry → Bool → List SignInClient → List String
never_minted r register_wired [] = []
never_minted r register_wired (c ∷ cs) =
    let rest = never_minted r register_wired cs in
    if not (is_empty c.baseline_scopes) && membership_required r c.client_id register_wired
    then c.client_id ∷ rest
    else rest

unfoldable pub baselines_never_minted : Registry → Bool → List String
unfolding never_minted
baselines_never_minted r register_wired = never_minted r register_wired (sign_in_clients r)

-- `presented` says whether the request carried a secret at all.
unfoldable pub authenticate_sign_in :
    Registry → String → Bytes → Bool → Result RegistryError SignInClient
authenticate_sign_in r id secret presented = elim (sign_in_client r id) [
  | none ↦ err unknown_sign_in_client
  | some c ↦
      if c.client_type == client_public
      then (if presented then err bad_secret else ok c)
      else if not presented || wrong_secret (lookup r.secrets id) secret
      then err bad_secret
      else ok c
]

unfoldable pub insert_audience : String → List String → List String
insert_audience a [] = a ∷ []
insert_audience a (b ∷ bs) =
    let rest = insert_audience a bs in if before a b then a ∷ b ∷ bs else b ∷ rest

-- Each audience of an enabled client once, kept sorted as it is built.
unfoldable pub audiences_of : Assoc SignInClient → List String
unfolding insert_audience
audiences_of [] = []
audiences_of ((k, c) ∷ m) =
    let rest = audiences_of m in
    if c.enabled && not (contains rest c.audience) then insert_audience c.audience rest else rest

unfoldable pub audiences : Registry → List String
unfolding audiences_of
audiences r = audiences_of r.sign_in_clients

abbrev pub listed : List String → String → Result RegistryError (Unit {0})
listed uris uri = if not (contains uris uri) then err redirect_uri_not_allowed else ok tt

unfoldable pub validate_redirect_uri : Registry → String → String → Result RegistryError (Unit {0})
validate_redirect_uri r id uri = elim (sign_in_client r id) [
  | none ↦ err unknown_sign_in_client
  | some c ↦ listed c.redirect_uris uri
]

unfoldable pub validate_post_logout_uri :
    Registry → String → String → Result RegistryError (Unit {0})
validate_post_logout_uri r id uri = elim (sign_in_client r id) [
  | none ↦ err unknown_sign_in_client
  | some c ↦ listed c.post_logout_redirect_uris uri
]
