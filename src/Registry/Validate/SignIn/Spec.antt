-- ===== src/Registry/Validate/SignIn/Spec.antt =====
-- When a sign-in client's row is well formed.
use authbyte.Prelude.{◌≡◌, ◌≢◌, ◌⊎◌, true, false, All, contains, is_empty, ◌==◌}
use authbyte.Registry.Rows.{
  SignInClient, client_confidential, client_public, kind_ai_app, known_claims,
}
use authbyte.Registry.Scopes.{is_box}
use authbyte.Registry.Validate.Address.{Net}
use authbyte.Registry.Validate.Address.Laws.{IsAddress, IsLocalOrHttps, IsResource}
use authbyte.Registry.Validate.SignIn.{says}

-- A confidential client holds a secret once it is enabled; a public client holds none.
abbrev pub IsTyped : SignInClient → Type 0
IsTyped c =
    ((c.client_type ≡ client_confidential) × (c.enabled ≡ true → c.secret_ref ≢ ""))
    ⊎ ((c.client_type ≡ client_public) × (c.secret_ref ≡ ""))

pub record IsRow (c : SignInClient) : Type 0 where
  pub addressed : c.audience ≢ ""
  pub returns : c.enabled ≡ true → is_empty c.redirect_uris ≡ false
  pub baseline : (is_empty c.baseline_scopes ≡ true) ⊎ (says c.membership_required true ≡ false)
  pub one_way : (c.signing ≡ false) ⊎ (c.single_sign_on ≡ false)
  pub claims_known : All (λ k. contains known_claims k ≡ true) c.claims

module _ (net : Net) where
  -- Sign-out and back-channel addresses may be on http for a confidential client only, the logo
  -- never, a sign-in return always.
  pub record HasAddresses (c : SignInClient) : Type 0 where
    pub returns_ok : All (IsAddress net true) c.redirect_uris
    pub landings_ok :
        All (IsAddress net (c.client_type == client_confidential)) c.post_logout_redirect_uris
    pub backchannel_ok :
        (c.backchannel_logout_uri ≡ "")
        ⊎ IsAddress net (c.client_type == client_confidential) c.backchannel_logout_uri
    pub logo_ok : (c.logo_uri ≡ "") ⊎ IsAddress net false c.logo_uri

  -- An AI app is public, asks for boxes only, is addressed to one resource, is sent back only to a
  -- loopback or https address, and takes no claims, signing, page-less answer or baseline.
  pub record IsAiApp (c : SignInClient) : Type 0 where
    pub is_public : c.client_type ≡ client_public
    pub no_claims : is_empty c.claims ≡ true
    pub no_signing : c.signing ≡ false
    pub no_single_sign_on : c.single_sign_on ≡ false
    pub no_baseline : is_empty c.baseline_scopes ≡ true
    pub member : says c.membership_required false ≡ false
    pub resource : IsResource net c.audience
    pub local : All (IsLocalOrHttps net) c.redirect_uris
    pub some_scopes : is_empty c.scopes ≡ false
    pub boxes : All (λ s. is_box s ≡ true) c.scopes

  abbrev pub IsKind : SignInClient → Type 0
  IsKind c = ((c.kind ≡ "") × (is_empty c.scopes ≡ true)) ⊎ ((c.kind ≡ kind_ai_app) × IsAiApp c)

  pub record IsSignInClient (c : SignInClient) : Type 0 where
    pub identified : c.client_id ≢ ""
    pub typed : IsTyped c
    pub row : IsRow c
    pub addresses : HasAddresses c
    pub kinded : IsKind c
