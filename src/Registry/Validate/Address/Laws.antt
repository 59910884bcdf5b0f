-- ===== src/Registry/Validate/Address/Laws.antt =====
-- What the address checks accept.
use authbyte.Prelude.{
  String, ◌≡◌, ◌≢◌, ◌⊎◌, inl, inr, Bool, true, false, none, some, eq_iff, arith, Option-cases,
}
use authbyte.Registry.Validate.Address.{
  Url, Net, has_hash, is_loopback, check_address, check_loopback_or_https, check_resource,
}

-- An absolute address with no fragment.
pub record IsPlain (raw : String) (u : Url) : Type 0 where
  pub scheme_given : u.scheme ≢ ""
  pub host_given : u.host ≢ ""
  pub no_fragment : u.fragment ≡ ""
  pub no_hash : has_hash raw ≡ false

module _ (net : Net) where
  -- On https, or on http where that is allowed.
  abbrev pub IsAddress : Bool → String → Type 0
  IsAddress http_allowed raw =
      (u : Url) × (net.parse raw ≡ some u)
      × IsPlain raw u
      × ((u.scheme ≡ "https") ⊎ ((u.scheme ≡ "http") × (http_allowed ≡ true)))

  -- On https, or on http on a loopback host, with no user name.
  abbrev pub IsLocalOrHttps : String → Type 0
  IsLocalOrHttps raw =
      (u : Url) × (net.parse raw ≡ some u)
      × IsPlain raw u
      × (u.has_user ≡ false)
      × ((u.scheme ≡ "https") ⊎ ((u.scheme ≡ "http") × (is_loopback net u.hostname ≡ true)))

  pub check_address_sound :
      (raw : String) (http : Bool) → check_address net raw http ≡ none → IsAddress http raw
  unfolding check_address
  check_address_sound raw http h = elim (Option-cases (net.parse raw)) [
    | inl missed ↦ absurd (ground arith)
    | inr (u, found) ↦ (
      u,
      found,
      record {
        scheme_given = λ e. ground (arith, eq_iff u.scheme "");
        host_given = λ e. ground (arith, eq_iff u.host "");
        no_fragment = ground (arith, eq_iff u.fragment "");
        no_hash = ground arith;
      },
      ground (arith, eq_iff u.scheme "https", eq_iff u.scheme "http"),
    )
  ]

  pub check_address_complete :
      (raw : String) (http : Bool) → IsAddress http raw → check_address net raw http ≡ none
  unfolding check_address
  check_address_complete raw http (u, found, plain, schemed) = ground (
    arith,
    found,
    eq_iff u.scheme "",
    eq_iff u.host "",
    plain.scheme_given,
    plain.host_given,
    eq_iff u.fragment "",
    eq_iff u.scheme "https",
    eq_iff u.scheme "http",
    plain.no_fragment,
    plain.no_hash,
    schemed,
  )

  pub check_loopback_or_https_sound :
      (raw : String) → check_loopback_or_https net raw ≡ none → IsLocalOrHttps raw
  unfolding check_loopback_or_https
  check_loopback_or_https_sound raw h = elim (Option-cases (net.parse raw)) [
    | inl missed ↦ absurd (ground arith)
    | inr (u, found) ↦ (
      u,
      found,
      record {
        scheme_given = λ e. ground (arith, eq_iff u.scheme "");
        host_given = λ e. ground (arith, eq_iff u.host "");
        no_fragment = ground (arith, eq_iff u.fragment "");
        no_hash = ground arith;
      },
      ground arith,
      ground (arith, eq_iff u.scheme "https", eq_iff u.scheme "http"),
    )
  ]

  pub check_loopback_or_https_complete :
      (raw : String) → IsLocalOrHttps raw → check_loopback_or_https net raw ≡ none
  unfolding check_loopback_or_https
  check_loopback_or_https_complete raw (u, found, plain, anonymous, schemed) = ground (
    arith,
    found,
    eq_iff u.scheme "",
    eq_iff u.host "",
    plain.scheme_given,
    plain.host_given,
    anonymous,
    eq_iff u.fragment "",
    eq_iff u.scheme "https",
    eq_iff u.scheme "http",
    plain.no_fragment,
    plain.no_hash,
    schemed,
  )

  -- A resource's canonical address carries no query either.
  abbrev pub IsResource : String → Type 0
  IsResource raw = IsLocalOrHttps raw × ((u : Url) → net.parse raw ≡ some u → u.raw_query ≡ "")

  pub check_resource_sound : (raw : String) → check_resource net raw ≡ none → IsResource raw
  unfolding check_resource
  check_resource_sound raw h = (
    check_loopback_or_https_sound raw (ground arith),
    λ u found. ground (arith, found, eq_iff u.raw_query ""),
  )

  pub check_resource_complete : (raw : String) → IsResource raw → check_resource net raw ≡ none
  unfolding check_resource
  check_resource_complete raw (local, plain) =
      let (u, found, _, _, _) = local in
      ground (
        arith,
        found,
        check_loopback_or_https_complete raw local,
        plain u found,
        eq_iff u.raw_query "",
      )
