-- ===== src/Registry/Load/Invariant.antt =====
-- What a loaded registry holds: rows that are each well formed and stand under their own id, in
-- one section only, and no sign-in client's id among the audiences.
use authbyte.Prelude.{
  String, ◌≡◌, ◌≢◌, refl, Bool, false, ◌&&◌, List, [], ◌∷◌, Option, none, some, Assoc, lookup,
  insert, lookup-insert, any, contains, ◌==◌, eq_iff, ok, >>=-eq-ok, arith, subst,
}
use authbyte.Registry.Rows.{Client, SignInClient, Document, client_confidential}
use authbyte.Registry.Validate.Client.{validate_client}
use authbyte.Registry.Validate.Address.{Net}
use authbyte.Registry.Validate.SignIn.{validate_sign_in_client}
use authbyte.Registry.Load.{
  Registry, SecretResolver, empty_registry, resolve_secret, grant_audiences, is_client_audience,
  is_audience, add_client, add_clients, add_sign_in_client, add_sign_in_clients, load,
}

-- Two registries with the same rows; the secrets may differ.
pub record SameRows (r s : Registry) : Type 0 where
  pub same_clients : r.clients ≡ s.clients
  pub same_sign_in_clients : r.sign_in_clients ≡ s.sign_in_clients

pub resolve_secret-SameRows :
    (resolve : Option SecretResolver) (wanted : Bool) (id ref : String) (r s : Registry)
    → resolve_secret resolve wanted id ref r ≡ ok s
    → SameRows r s
unfolding resolve_secret
resolve_secret-SameRows none wanted id ref r s h = record {
  same_clients = ground arith;
  same_sign_in_clients = ground arith;
}
resolve_secret-SameRows (some resolve) wanted id ref r s h = record {
  same_clients = ground arith;
  same_sign_in_clients = ground arith;
}

module _ (net : Net) where
  -- Rows under their own ids, each well formed, no id in both sections.
  pub record IsLoaded (r : Registry) : Type 0 where
    pub clients_ok :
        (k : String) (c : Client)
        → lookup r.clients k ≡ some c
        → (c.client_id ≡ k) × (validate_client c ≡ none)
    pub sign_ins_ok :
        (k : String) (c : SignInClient)
        → lookup r.sign_in_clients k ≡ some c
        → (c.client_id ≡ k) × (validate_sign_in_client net c ≡ none) × (lookup r.clients k ≡ none)

  -- While the service clients are loaded, there is no sign-in client.
  abbrev Before : Registry → Type 0
  Before r = IsLoaded r × (r.sign_in_clients ≡ [])

  empty-Before : Before empty_registry
  unfolding lookup
  empty-Before =
      (record { clients_ok = λ k c e. absurd (cc); sign_ins_ok = λ k c e. absurd (cc) }, refl)

  module _ (resolve : Option SecretResolver) where
    pub add_client-eq-ok :
        (c : Client) (r s : Registry)
        → add_client resolve c r ≡ ok s
        → (validate_client c ≡ none)
          × (lookup r.clients c.client_id ≡ none)
          × SameRows (record r { clients = insert r.clients c.client_id c }) s
    unfolding add_client
    add_client-eq-ok c r s h = (
      ground arith,
      ground arith,
      resolve_secret-SameRows resolve c.enabled c.client_id c.secret_ref _ s (ground arith),
    )

    add_client-Before :
        (c : Client) (r s : Registry) → Before r → add_client resolve c r ≡ ok s → Before s
    unfolding lookup
    add_client-Before c r s (v, empty) h =
        let (valid, fresh, same) = add_client-eq-ok c r s h in
        (
          record {
            clients_ok = λ k d e. ground (
              arith,
              same.same_clients,
              valid,
              eq_iff c.client_id k,
              v.clients_ok k d,
              lookup-insert r.clients c.client_id k c,
            );
            sign_ins_ok = λ k d e. absurd (ground (arith, same.same_sign_in_clients, empty));
          },
          ground (arith, same.same_sign_in_clients, empty),
        )

    add_clients-Before :
        (cs : List Client) (r s : Registry) → Before r → add_clients resolve cs r ≡ ok s → Before s
    unfolding add_clients
    add_clients-Before [] r s v h = subst Before (ground arith) v
    add_clients-Before (c ∷ cs) r s v h =
        let (t, p, later) = >>=-eq-ok _ _ h in
        add_clients-Before cs t s (add_client-Before c r t v p) later

    pub add_sign_in_client-eq-ok :
        (c : SignInClient) (r s : Registry)
        → add_sign_in_client resolve net c r ≡ ok s
        → (validate_sign_in_client net c ≡ none)
          × (lookup r.sign_in_clients c.client_id ≡ none)
          × (lookup r.clients c.client_id ≡ none)
          × SameRows (record r { sign_in_clients = insert r.sign_in_clients c.client_id c }) s
    unfolding add_sign_in_client
    add_sign_in_client-eq-ok c r s h = (
      ground arith,
      ground arith,
      ground arith,
      resolve_secret-SameRows resolve (c.enabled && c.client_type == client_confidential)
          c.client_id c.secret_ref _ s (ground arith),
    )

    add_sign_in_client-IsLoaded :
        (c : SignInClient) (r s : Registry)
        → IsLoaded r
        → add_sign_in_client resolve net c r ≡ ok s
        → IsLoaded s
    add_sign_in_client-IsLoaded c r s v h =
        let (valid, fresh, apart, same) = add_sign_in_client-eq-ok c r s h in
        record {
          clients_ok = λ k d e. ground (arith, same.same_clients, v.clients_ok k d);
          sign_ins_ok = λ k d e. ground (
            arith,
            same.same_clients,
            same.same_sign_in_clients,
            valid,
            apart,
            eq_iff c.client_id k,
            v.sign_ins_ok k d,
            lookup-insert r.sign_in_clients c.client_id k c,
          );
        }

    add_sign_in_clients-IsLoaded :
        (cs : List SignInClient) (r s : Registry)
        → IsLoaded r
        → add_sign_in_clients resolve net cs r ≡ ok s
        → IsLoaded s
    unfolding add_sign_in_clients
    add_sign_in_clients-IsLoaded [] r s v h = subst IsLoaded (ground arith) v
    add_sign_in_clients-IsLoaded (c ∷ cs) r s v h =
        let (t, p, later) = >>=-eq-ok _ _ h in
        add_sign_in_clients-IsLoaded cs t s (add_sign_in_client-IsLoaded c r t v p) later

    -- A document that loads makes a registry in which each row is under its own id, each service
    -- client and each sign-in client is well formed as its section's validation states, and no id
    -- is in both sections.
    pub load-IsLoaded : (d : Document) (r : Registry) → load resolve net d ≡ ok r → IsLoaded r
    unfolding load
    load-IsLoaded d r h =
        let (a, p1, h1) = >>=-eq-ok (add_clients resolve d.service_clients empty_registry) _ h in
        let (b, p2, h2) = >>=-eq-ok (add_sign_in_clients resolve net d.sign_in_clients a) _ h1 in
        let before = add_clients-Before d.service_clients empty_registry a empty-Before p1 in
        subst IsLoaded (ground arith)
          (add_sign_in_clients-IsLoaded d.sign_in_clients a b before.0 p2)

-- A test that no entry passes, no key found passes.
any-lookup {ℓ} :
    {V : Type ℓ} (p : String → Bool) (m : Assoc V) (k : String) (v : V)
    → any (λ e. p e.0) m ≡ false
    → lookup m k ≡ some v
    → p k ≡ false
unfolding lookup
any-lookup p [] k v h e = cc
any-lookup p ((j, w) ∷ m) k v h e = ground (arith, any-lookup p m k v, eq_iff j k)

any-lookup_value {ℓ} :
    {V : Type ℓ} (p : V → Bool) (m : Assoc V) (k : String) (v : V)
    → any (λ e. p e.1) m ≡ false
    → lookup m k ≡ some v
    → p v ≡ false
unfolding lookup
any-lookup_value p [] k v h e = cc
any-lookup_value p ((j, w) ∷ m) k v h e = ground (arith, any-lookup_value p m k v)

-- In a registry that loads, no sign-in client's id is the audience of a sign-in client, nor the
-- audience of a grant of a service client, so an ID token opens no door.
pub load_ids_apart :
    (net : Net) (resolve : Option SecretResolver) (d : Document) (r : Registry)
    → load resolve net d ≡ ok r
    → (id : String) (s : SignInClient) → lookup r.sign_in_clients id ≡ some s
    → ((k : String) (t : SignInClient) → lookup r.sign_in_clients k ≡ some t → t.audience ≢ id)
      × ((k : String) (c : Client)
          → lookup r.clients k ≡ some c
          → contains (grant_audiences c.grants) id ≡ false)
unfolding load is_audience
load_ids_apart net resolve d r h id s e =
    let (a, p1, h1) = >>=-eq-ok (add_clients resolve d.service_clients empty_registry) _ h in
    let (b, p2, h2) = >>=-eq-ok (add_sign_in_clients resolve net d.sign_in_clients a) _ h1 in
    let none_is : any (λ e. is_audience r e.0) r.sign_in_clients ≡ false = ground arith in
    let apart = any-lookup (is_audience r) r.sign_in_clients id s none_is e in
    (
      λ k t f g. ground (
        arith,
        apart,
        eq_iff t.audience id,
        any-lookup_value (λ (c : SignInClient). c.audience == id) r.sign_in_clients k t,
      ),
      λ k c f. ground (arith, apart, any-lookup_value (is_client_audience id) r.clients k c),
    )
