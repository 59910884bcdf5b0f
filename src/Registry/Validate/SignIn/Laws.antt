-- ===== src/Registry/Validate/SignIn/Laws.antt =====
-- validateSignInClient accepts exactly the rows that are well formed.
use authbyte.Prelude.{
  String, ◌≡◌, ◌↔◌, ◌⊎◌, inl, inr, refl, Bool, true, false, List, [], ◌∷◌, Option, none, some, All,
  contains, ◌==◌, eq_iff, arith, Bool-cases, if◌then◌else◌,
}
use authbyte.Registry.Rows.{
  SignInClient, client_confidential, client_public, kind_ai_app, known_claims,
}
use authbyte.Registry.Scopes.{is_box}
use authbyte.Registry.Validate.Client.{or_else}
use authbyte.Registry.Validate.Address.{Net, AddressRefusal, check_address, check_loopback_or_https}
use authbyte.Registry.Validate.Address.Laws.{
  IsAddress, IsLocalOrHttps, check_address_sound, check_address_complete,
  check_loopback_or_https_sound, check_loopback_or_https_complete, check_resource_sound,
  check_resource_complete,
}
use authbyte.Registry.Validate.SignIn.{
  wrong_address, each_address, check_claims, check_boxes, check_type, check_row, check_addresses,
  validate_ai_app, check_kind, validate_sign_in_client,
}
use authbyte.Registry.Validate.SignIn.Spec.{
  IsTyped, IsRow, HasAddresses, IsAiApp, IsKind, IsSignInClient,
}

or_else-eq-none {ℓ} : {E : Type ℓ} (a b : Option E) → or_else a b ≡ none → (a ≡ none) × (b ≡ none)
or_else-eq-none none b h = (refl, h)
or_else-eq-none (some e) b h = cc

test-eq-none {ℓ} :
    {E : Type ℓ} (b : Bool) (e : E) (next : Option E)
    → (if b then some e else next) ≡ none
    → (b ≡ false) × (next ≡ none)
test-eq-none true e next h = cc
test-eq-none false e next h = (refl, h)

module _ (check : String → Option AddressRefusal) (P : String → Type 0) where
  each_address_sound :
      ((u : String) → check u ≡ none → P u)
      → (us : List String) → each_address check us ≡ none
      → All P us
  unfolding each_address
  each_address_sound sound [] h = tt
  each_address_sound sound (u ∷ us) h =
      (sound u (ground arith), each_address_sound sound us (ground arith))

  each_address_complete :
      ((u : String) → P u → check u ≡ none)
      → (us : List String) → All P us
      → each_address check us ≡ none
  unfolding each_address
  each_address_complete complete [] h = refl
  each_address_complete complete (u ∷ us) h =
      rw (complete u h.0) (each_address_complete complete us h.1)

check_claims_sound :
    (cs : List String) → check_claims cs ≡ none → All (λ k. contains known_claims k ≡ true) cs
unfolding check_claims
check_claims_sound [] h = tt
check_claims_sound (c ∷ cs) h = elim (Bool-cases (contains known_claims c)) [
  | inl known ↦ (known, check_claims_sound cs (rw known at h))
  | inr other ↦ absurd (let bad = rw other at h in cc)
]

check_claims_complete :
    (cs : List String) → All (λ k. contains known_claims k ≡ true) cs → check_claims cs ≡ none
unfolding check_claims
check_claims_complete [] h = refl
check_claims_complete (c ∷ cs) h = rw h.0 (check_claims_complete cs h.1)

check_boxes_sound : (ss : List String) → check_boxes ss ≡ none → All (λ s. is_box s ≡ true) ss
unfolding check_boxes
check_boxes_sound [] h = tt
check_boxes_sound (s ∷ ss) h = (ground arith, check_boxes_sound ss (ground arith))

check_boxes_complete : (ss : List String) → All (λ s. is_box s ≡ true) ss → check_boxes ss ≡ none
unfolding check_boxes
check_boxes_complete [] h = refl
check_boxes_complete (s ∷ ss) h = rw h.0 (check_boxes_complete ss h.1)

check_type_sound : (c : SignInClient) → check_type c ≡ none → IsTyped c
unfolding check_type
check_type_sound c h = elim (Bool-cases (c.client_type == client_confidential)) [
  | inl conf ↦ inl ((eq_iff _ _).0 conf, λ on e. ground (arith, eq_iff c.secret_ref ""))
  | inr other ↦
      inr
        (ground (arith, eq_iff c.client_type client_public), ground (arith, eq_iff c.secret_ref ""))
]

check_type_complete : (c : SignInClient) → IsTyped c → check_type c ≡ none
unfolding check_type
check_type_complete c h = ground (
  arith,
  h,
  eq_iff c.client_type client_confidential,
  eq_iff c.client_type client_public,
  eq_iff c.secret_ref "",
  eq_iff client_public client_confidential,
)

check_row_sound : (c : SignInClient) → check_row c ≡ none → IsRow c
unfolding check_row
check_row_sound c h = record {
  addressed = λ e. ground (arith, eq_iff c.audience "");
  returns = λ on. ground arith;
  baseline = ground arith;
  one_way = ground arith;
  claims_known = check_claims_sound c.claims (ground arith);
}

check_row_complete : (c : SignInClient) → IsRow c → check_row c ≡ none
unfolding check_row
check_row_complete c v = ground (
  arith,
  eq_iff c.audience "",
  v.addressed,
  v.returns,
  v.baseline,
  v.one_way,
  check_claims_complete c.claims v.claims_known,
)

module _ (net : Net) where
  addresses_sound :
      (http : Bool) (us : List String)
      → each_address (λ u. check_address net u http) us ≡ none
      → All (IsAddress net http) us
  addresses_sound http =
      each_address_sound (λ u. check_address net u http) (IsAddress net http)
        (λ u. check_address_sound net u http)

  addresses_complete :
      (http : Bool) (us : List String)
      → All (IsAddress net http) us
      → each_address (λ u. check_address net u http) us ≡ none
  addresses_complete http =
      each_address_complete (λ u. check_address net u http) (IsAddress net http)
        (λ u. check_address_complete net u http)

  wrong_address-eq-none : (o : Option AddressRefusal) → wrong_address o ≡ none → o ≡ none
  wrong_address-eq-none none h = refl
  wrong_address-eq-none (some e) h = cc

  optional_sound :
      (http : Bool) (u : String)
      → (if u == "" then none else wrong_address (check_address net u http)) ≡ none
      → (u ≡ "") ⊎ IsAddress net http u
  optional_sound http u h = elim (Bool-cases (u == "")) [
    | inl empty ↦ inl ((eq_iff u "").0 empty)
    | inr given ↦ inr (check_address_sound net u http (wrong_address-eq-none _ (rw given at h)))
  ]

  optional_complete :
      (http : Bool) (u : String)
      → (u ≡ "") ⊎ IsAddress net http u
      → (if u == "" then none else wrong_address (check_address net u http)) ≡ none
  optional_complete http u (inl empty) = rw ((eq_iff u "").1 empty)
  optional_complete http u (inr given) = ground (arith, check_address_complete net u http given)

  check_addresses_sound : (c : SignInClient) → check_addresses net c ≡ none → HasAddresses net c
  unfolding check_addresses
  check_addresses_sound c h =
      let (returns, h1) = or_else-eq-none _ _ h in
      let (landings, h2) = or_else-eq-none _ _ h1 in
      let (backchannel, logo) = or_else-eq-none _ _ h2 in
      record {
        returns_ok = addresses_sound true c.redirect_uris returns;
        landings_ok =
            addresses_sound (c.client_type == client_confidential) c.post_logout_redirect_uris
              landings;
        backchannel_ok =
            optional_sound (c.client_type == client_confidential) c.backchannel_logout_uri
              backchannel;
        logo_ok = optional_sound false c.logo_uri logo;
      }

  check_addresses_complete : (c : SignInClient) → HasAddresses net c → check_addresses net c ≡ none
  unfolding check_addresses
  check_addresses_complete c v = rw (
    addresses_complete true c.redirect_uris v.returns_ok,
    addresses_complete (c.client_type == client_confidential) c.post_logout_redirect_uris
        v.landings_ok,
    optional_complete (c.client_type == client_confidential) c.backchannel_logout_uri
        v.backchannel_ok,
    optional_complete false c.logo_uri v.logo_ok,
  )

  validate_ai_app_sound : (c : SignInClient) → validate_ai_app net c ≡ none → IsAiApp net c
  unfolding validate_ai_app
  validate_ai_app_sound c h = record {
    is_public = ground (arith, eq_iff c.client_type client_public);
    no_claims = ground arith;
    no_signing = ground arith;
    no_single_sign_on = ground arith;
    no_baseline = ground arith;
    member = ground arith;
    resource = check_resource_sound net c.audience (ground arith);
    local =
        each_address_sound (check_loopback_or_https net) (IsLocalOrHttps net)
          (check_loopback_or_https_sound net) c.redirect_uris (ground arith);
    some_scopes = ground arith;
    boxes = check_boxes_sound c.scopes (ground arith);
  }

  validate_ai_app_complete : (c : SignInClient) → IsAiApp net c → validate_ai_app net c ≡ none
  unfolding validate_ai_app
  validate_ai_app_complete c v = ground (
    arith,
    eq_iff c.client_type client_public,
    v.is_public,
    v.no_claims,
    v.no_signing,
    v.no_single_sign_on,
    v.no_baseline,
    v.member,
    v.some_scopes,
    check_resource_complete net c.audience v.resource,
    check_boxes_complete c.scopes v.boxes,
    each_address_complete (check_loopback_or_https net) (IsLocalOrHttps net)
        (check_loopback_or_https_complete net) c.redirect_uris v.local,
  )

  check_kind_sound : (c : SignInClient) → check_kind net c ≡ none → IsKind net c
  unfolding check_kind
  check_kind_sound c h = elim (Bool-cases (c.kind == "")) [
    | inl plain ↦ inl ((eq_iff _ _).0 plain, ground arith)
    | inr other ↦
        inr (ground (arith, eq_iff c.kind kind_ai_app), validate_ai_app_sound c (ground arith))
  ]

  check_kind_complete : (c : SignInClient) → IsKind net c → check_kind net c ≡ none
  unfolding check_kind
  check_kind_complete c (inl v) = ground (arith, v.0, v.1, eq_iff c.kind "")
  check_kind_complete c (inr v) = ground (
    arith,
    v.0,
    validate_ai_app_complete c v.1,
    eq_iff c.kind "",
    eq_iff c.kind kind_ai_app,
    eq_iff kind_ai_app "",
  )

  validate_sign_in_client_sound :
      (c : SignInClient) → validate_sign_in_client net c ≡ none → IsSignInClient net c
  unfolding validate_sign_in_client
  validate_sign_in_client_sound c h =
      let (named, h1) = test-eq-none (c.client_id == "") _ _ h in
      let (typed, h2) = or_else-eq-none _ _ h1 in
      let (row, h3) = or_else-eq-none _ _ h2 in
      let (addresses, kinded) = or_else-eq-none _ _ h3 in
      record {
        identified = λ e. cc (named, (eq_iff c.client_id "").1 e);
        typed = check_type_sound c typed;
        row = check_row_sound c row;
        addresses = check_addresses_sound c addresses;
        kinded = check_kind_sound c kinded;
      }

  validate_sign_in_client_complete :
      (c : SignInClient) → IsSignInClient net c → validate_sign_in_client net c ≡ none
  unfolding validate_sign_in_client
  validate_sign_in_client_complete c v = ground (
    arith,
    eq_iff c.client_id "",
    v.identified,
    check_type_complete c v.typed,
    check_row_complete c v.row,
    check_addresses_complete c v.addresses,
    check_kind_complete c v.kinded,
  )

  -- The load accepts a sign-in client's row exactly when it is well formed (IsSignInClient): its
  -- type and secret agree, its claims are known, its baseline can apply, its addresses are
  -- absolute and on https except where http is allowed, and an AI app's row holds only what an AI
  -- app may have.
  pub validate_sign_in_client_iff :
      (c : SignInClient) → (validate_sign_in_client net c ≡ none) ↔ IsSignInClient net c
  validate_sign_in_client_iff c =
      (validate_sign_in_client_sound c, validate_sign_in_client_complete c)
