-- ===== src/Registry/Validate/SignIn.antt =====
-- registry/registry.go: validateSignInClient and validateAIApp.
pub mod Spec
pub mod Laws
use authbyte.Prelude.{
  String, Bool, true, false, not, ◌||◌, ◌&&◌, List, [], ◌∷◌, Option, none, some, contains, is_empty,
  ◌==◌, if◌then◌else◌,
}
use authbyte.Registry.Rows.{
  SignInClient, client_confidential, client_public, kind_ai_app, known_claims,
}
use authbyte.Registry.Scopes.{is_box}
use authbyte.Registry.Validate.Client.{or_else}
use authbyte.Registry.Validate.Address.{
  Net, AddressRefusal, check_address, check_loopback_or_https, check_resource,
}

pub data SignInRefusal : Type 0 where
  empty_client_id no_secret_ref public_secret_ref unknown_type no_audience : SignInRefusal
  no_redirect_uris baseline_never_applies signs_without_page unknown_claim : SignInRefusal
  scopes_without_kind unknown_kind app_not_public app_takes_none app_no_scopes : SignInRefusal
  app_scope_not_box : SignInRefusal
  bad_address : AddressRefusal → SignInRefusal

-- `c.MembershipRequired != nil && *c.MembershipRequired == b`
abbrev pub says : Option Bool → Bool → Bool
says none b = false
says (some true) b = b
says (some false) b = not b

abbrev pub wrong_address : Option AddressRefusal → Option SignInRefusal
wrong_address none = none
wrong_address (some e) = some (bad_address e)

-- a loop that stops at the first address refused
unfoldable pub each_address : (String → Option AddressRefusal) → List String → Option SignInRefusal
each_address check [] = none
each_address check (u ∷ rest) = or_else (wrong_address (check u)) (each_address check rest)

unfoldable pub check_claims : List String → Option SignInRefusal
check_claims [] = none
check_claims (c ∷ rest) =
    if not (contains known_claims c) then some unknown_claim else check_claims rest

unfoldable pub check_boxes : List String → Option SignInRefusal
check_boxes [] = none
check_boxes (s ∷ rest) = if not (is_box s) then some app_scope_not_box else check_boxes rest

-- the switch on the client's type
unfoldable pub check_type : SignInClient → Option SignInRefusal
check_type c =
    if c.client_type == client_confidential
    then (if c.enabled && c.secret_ref == "" then some no_secret_ref else none)
    else if c.client_type == client_public
    then (if not (c.secret_ref == "") then some public_secret_ref else none)
    else some unknown_type

-- the checks between that switch and the addresses
unfoldable pub check_row : SignInClient → Option SignInRefusal
unfolding check_claims
check_row c =
    if c.audience == ""
    then some no_audience
    else if c.enabled && is_empty c.redirect_uris
    then some no_redirect_uris
    else if not (is_empty c.baseline_scopes) && says c.membership_required true
    then some baseline_never_applies
    else if c.signing && c.single_sign_on
    then some signs_without_page
    else check_claims c.claims

module _ (net : Net) where
  unfoldable pub check_addresses : SignInClient → Option SignInRefusal
  check_addresses c =
      let confidential = c.client_type == client_confidential in
      or_else (each_address (λ u. check_address net u true) c.redirect_uris) (
        or_else (each_address (λ u. check_address net u confidential) c.post_logout_redirect_uris) (
          or_else
            (if c.backchannel_logout_uri == ""
              then none
              else wrong_address (check_address net c.backchannel_logout_uri confidential))
            (if c.logo_uri == ""
              then none
              else wrong_address (check_address net c.logo_uri false))))

  unfoldable pub validate_ai_app : SignInClient → Option SignInRefusal
  unfolding each_address check_boxes
  validate_ai_app c =
      if not (c.client_type == client_public)
      then some app_not_public
      else if not (is_empty c.claims)
          || c.signing
          || c.single_sign_on
          || not (is_empty c.baseline_scopes)
          || says c.membership_required false
      then some app_takes_none
      else or_else (wrong_address (check_resource net c.audience)) (
          or_else (each_address (check_loopback_or_https net) c.redirect_uris)
            (if is_empty c.scopes then some app_no_scopes else check_boxes c.scopes))

  -- the switch on the client's kind
  unfoldable pub check_kind : SignInClient → Option SignInRefusal
  unfolding validate_ai_app
  check_kind c =
      if c.kind == ""
      then (if not (is_empty c.scopes) then some scopes_without_kind else none)
      else if c.kind == kind_ai_app
      then validate_ai_app c
      else some unknown_kind

  unfoldable pub validate_sign_in_client : SignInClient → Option SignInRefusal
  validate_sign_in_client c =
      if c.client_id == ""
      then some empty_client_id
      else or_else (check_type c)
          (or_else (check_row c) (or_else (check_addresses c) (check_kind c)))
