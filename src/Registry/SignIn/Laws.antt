-- ===== src/Registry/SignIn/Laws.antt =====
-- How a sign-in client proves itself, where it may be sent, and which audiences are accepted.
use authbyte.Prelude.{
  String, ◌≡◌, ◌≢◌, ◌↔◌, ◌⊎◌, inl, inr, refl, Bool, true, false, ◌&&◌, ◌||◌, List, [], ◌∷◌, Option,
  none, some, Assoc, lookup, contains, any, is_empty, ◌==◌, eq_iff, ok, arith, Bool-cases,
  Option-cases,
}
use authbyte.Registry.Rows.{SignInClient, client_public}
use authbyte.Registry.Load.{Bytes, Registry}
use authbyte.Registry.Secrets.Laws.{subtle_mismatch_iff}
use authbyte.Registry.Grants.{wrong_secret}
use authbyte.Registry.SignIn.{
  sign_in_client, authenticate_sign_in, validate_redirect_uri, validate_post_logout_uri,
  insert_audience, audiences_of, audiences,
}

contains-insert_audience :
    (a : String) (bs : List String) (x : String)
    → contains (insert_audience a bs) x ≡ (a == x || contains bs x)
unfolding insert_audience
contains-insert_audience a [] x = refl
contains-insert_audience a (b ∷ bs) x = ground (arith, contains-insert_audience a bs x)

contains-audiences_of :
    (m : Assoc SignInClient) (a : String)
    → contains (audiences_of m) a ≡ any (λ e. e.1.enabled && e.1.audience == a) m
unfolding audiences_of
contains-audiences_of [] a = refl
contains-audiences_of ((k, c) ∷ m) a = ground (
  arith,
  contains-audiences_of m a,
  contains-insert_audience c.audience (audiences_of m) a,
  eq_iff c.audience a,
)

-- The identity answer accepts an audience exactly when an enabled sign-in client has it.
pub contains-audiences :
    (r : Registry) (a : String)
    → contains (audiences r) a ≡ any (λ e. e.1.enabled && e.1.audience == a) r.sign_in_clients
unfolding audiences
contains-audiences r a = contains-audiences_of r.sign_in_clients a

-- A kept secret that is not empty matches only itself.
pub wrong_secret_iff :
    (kept : Option Bytes) (secret : Bytes)
    → (wrong_secret kept secret ≡ false) ↔ ((kept ≡ some secret) × (is_empty secret ≡ false))
unfolding wrong_secret
wrong_secret_iff none secret = (λ h. absurd (cc), λ h. absurd (cc (h.0)))
wrong_secret_iff (some expected) secret = (
  λ h.
      let same = (subtle_mismatch_iff expected secret).0 (ground arith) in
      (rw same, ground (arith, same)),
  λ h. ground (arith, h.0, h.1, (subtle_mismatch_iff secret secret).1 refl),
)

-- A client's row, while it is enabled.
abbrev pub InForce : Registry → String → SignInClient → Type 0
InForce r id c = (lookup r.sign_in_clients id ≡ some c) × (c.enabled ≡ true)

pub sign_in_client_iff :
    (r : Registry) (id : String) (c : SignInClient)
    → (sign_in_client r id ≡ some c) ↔ InForce r id c
unfolding sign_in_client
sign_in_client_iff r id c =
    (λ h. (ground (arith, h), ground (arith, h)), λ h. ground (arith, h.0, h.1))

-- What a sign-in client must show: a public one no secret at all, any other the secret kept for it,
-- which is not empty.
abbrev pub HasProof : Registry → SignInClient → String → Bytes → Bool → Type 0
HasProof r c id secret presented =
    ((c.client_type ≡ client_public) × (presented ≡ false))
    ⊎ ((c.client_type ≢ client_public)
        × (presented ≡ true)
        × (lookup r.secrets id ≡ some secret)
        × (is_empty secret ≡ false))

module _ (r : Registry) (id : String) where
  authenticate_sign_in_sound :
      (secret : Bytes) (presented : Bool) (c : SignInClient)
      → authenticate_sign_in r id secret presented ≡ ok c
      → (sign_in_client r id ≡ some c) × HasProof r c id secret presented
  unfolding authenticate_sign_in
  authenticate_sign_in_sound secret presented c h =
      elim (Bool-cases (c.client_type == client_public)) [
        | inl pub_client ↦
            (ground arith, inl ((eq_iff _ _).0 pub_client, ground (arith, pub_client)))
        | inr other ↦
            let kept = (wrong_secret_iff (lookup r.secrets id) secret).0 (ground (arith, other)) in
            (
              ground arith,
              inr (
                λ e. ground (arith, eq_iff c.client_type client_public),
                ground (arith, other),
                kept.0,
                kept.1,
              ),
            )
      ]

  authenticate_sign_in_complete :
      (secret : Bytes) (presented : Bool) (c : SignInClient)
      → (sign_in_client r id ≡ some c) × HasProof r c id secret presented
      → authenticate_sign_in r id secret presented ≡ ok c
  unfolding authenticate_sign_in
  authenticate_sign_in_complete secret presented c (row, inl (is_pub, silent)) =
      ground (arith, row, silent, (eq_iff c.client_type client_public).1 is_pub)
  authenticate_sign_in_complete secret presented c (row, inr (other, shown, kept, given)) = ground (
    arith,
    row,
    shown,
    eq_iff c.client_type client_public,
    other,
    (wrong_secret_iff (lookup r.secrets id) secret).1 (kept, given),
  )

  -- A sign-in client is authenticated exactly when its row is there and enabled and it proves itself as its
  -- type asks: a public client presents no secret, a confidential one the secret kept for it.
  pub authenticate_sign_in_iff :
      (secret : Bytes) (presented : Bool) (c : SignInClient)
      → (authenticate_sign_in r id secret presented ≡ ok c)
        ↔ (InForce r id c × HasProof r c id secret presented)
  authenticate_sign_in_iff secret presented c = (
    λ h.
        let (row, shown) = authenticate_sign_in_sound secret presented c h in
        ((sign_in_client_iff r id c).0 row, shown),
    λ h. authenticate_sign_in_complete secret presented c ((sign_in_client_iff r id c).1 h.0, h.1),
  )

  -- A sign-in is sent back to an address, and a sign-out lands on one, only where the client's row
  -- is in force and lists it under that very use: each test passes exactly then.
  pub validate_uri_iff :
      (uri : String)
      → ((validate_redirect_uri r id uri ≡ ok tt) ↔ (
          (c : SignInClient) × (sign_in_client r id ≡ some c)
          × (contains c.redirect_uris uri ≡ true)))
        × ((validate_post_logout_uri r id uri ≡ ok tt) ↔ (
            (c : SignInClient) × (sign_in_client r id ≡ some c)
            × (contains c.post_logout_redirect_uris uri ≡ true)))
  unfolding validate_redirect_uri validate_post_logout_uri
  validate_uri_iff uri = (
    (
      λ h. elim (Option-cases (sign_in_client r id)) [
        | inl missing ↦ absurd (ground arith)
        | inr (c, row) ↦ (c, row, ground (arith, row))
      ],
      λ h. ground (arith, h.1, h.2),
    ),
    (
      λ h. elim (Option-cases (sign_in_client r id)) [
        | inl missing ↦ absurd (ground arith)
        | inr (c, row) ↦ (c, row, ground (arith, row))
      ],
      λ h. ground (arith, h.1, h.2),
    ),
  )
