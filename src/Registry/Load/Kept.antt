-- ===== src/Registry/Load/Kept.antt =====
-- A load drops no row: whatever loads is found under its id.
use authbyte.Prelude.{
  String, ◌≡◌, List, [], ◌∷◌, Option, some, All, lookup, lookup-insert, eq_iff, eq_refl, ok,
  >>=-eq-ok, arith,
}
use authbyte.Registry.Rows.{Client, SignInClient, Document}
use authbyte.Registry.Validate.Address.{Net}
use authbyte.Registry.Load.{
  Registry, SecretResolver, empty_registry, add_client, add_clients, add_sign_in_client,
  add_sign_in_clients, load,
}
use authbyte.Registry.Load.Invariant.{add_client-eq-ok, add_sign_in_client-eq-ok}

module _ (net : Net) (resolve : Option SecretResolver) where
  -- A service client already there is there after more are added.
  add_clients_keeps :
      (cs : List Client) (r s : Registry) (k : String) (d : Client)
      → add_clients resolve cs r ≡ ok s
      → lookup r.clients k ≡ some d
      → lookup s.clients k ≡ some d
  unfolding add_clients
  add_clients_keeps [] r s k d h e = ground arith
  add_clients_keeps (c ∷ cs) r s k d h e =
      let (t, p, later) = >>=-eq-ok (add_client resolve c r) _ h in
      let (_, fresh, same) = add_client-eq-ok net resolve c r t p in
      add_clients_keeps cs t s k d later (
        ground (
          arith,
          fresh,
          same.same_clients,
          eq_iff c.client_id k,
          lookup-insert r.clients c.client_id k c,
        ))

  add_clients-All :
      (cs : List Client) (r s : Registry)
      → add_clients resolve cs r ≡ ok s
      → All (λ c. lookup s.clients c.client_id ≡ some c) cs
  unfolding add_clients
  add_clients-All [] r s h = tt
  add_clients-All (c ∷ cs) r s h =
      let (t, p, later) = >>=-eq-ok (add_client resolve c r) _ h in
      let (_, _, same) = add_client-eq-ok net resolve c r t p in
      (
        add_clients_keeps cs t s c.client_id c later (
            ground (
              arith,
              same.same_clients,
              eq_refl c.client_id,
              lookup-insert r.clients c.client_id c.client_id c,
            )),
        add_clients-All cs t s later,
      )

  clients-add_sign_in_clients :
      (cs : List SignInClient) (r s : Registry)
      → add_sign_in_clients resolve net cs r ≡ ok s
      → s.clients ≡ r.clients
  unfolding add_sign_in_clients
  clients-add_sign_in_clients [] r s h = ground arith
  clients-add_sign_in_clients (c ∷ cs) r s h =
      let (t, p, later) = >>=-eq-ok (add_sign_in_client resolve net c r) _ h in
      let (_, _, _, same) = add_sign_in_client-eq-ok net resolve c r t p in
      ground (arith, same.same_clients, clients-add_sign_in_clients cs t s later)

  add_sign_in_clients_keeps :
      (cs : List SignInClient) (r s : Registry) (k : String) (d : SignInClient)
      → add_sign_in_clients resolve net cs r ≡ ok s
      → lookup r.sign_in_clients k ≡ some d
      → lookup s.sign_in_clients k ≡ some d
  unfolding add_sign_in_clients
  add_sign_in_clients_keeps [] r s k d h e = ground arith
  add_sign_in_clients_keeps (c ∷ cs) r s k d h e =
      let (t, p, later) = >>=-eq-ok (add_sign_in_client resolve net c r) _ h in
      let (_, fresh, _, same) = add_sign_in_client-eq-ok net resolve c r t p in
      add_sign_in_clients_keeps cs t s k d later (
        ground (
          arith,
          fresh,
          same.same_sign_in_clients,
          eq_iff c.client_id k,
          lookup-insert r.sign_in_clients c.client_id k c,
        ))

  add_sign_in_clients-All :
      (cs : List SignInClient) (r s : Registry)
      → add_sign_in_clients resolve net cs r ≡ ok s
      → All (λ c. lookup s.sign_in_clients c.client_id ≡ some c) cs
  unfolding add_sign_in_clients
  add_sign_in_clients-All [] r s h = tt
  add_sign_in_clients-All (c ∷ cs) r s h =
      let (t, p, later) = >>=-eq-ok (add_sign_in_client resolve net c r) _ h in
      let (_, _, _, same) = add_sign_in_client-eq-ok net resolve c r t p in
      (
        add_sign_in_clients_keeps cs t s c.client_id c later (
            ground (
              arith,
              same.same_sign_in_clients,
              eq_refl c.client_id,
              lookup-insert r.sign_in_clients c.client_id c.client_id c,
            )),
        add_sign_in_clients-All cs t s later,
      )

  -- Every row of a document that loads is in the registry under its client id, each section in its
  -- own map: no row is dropped or overwritten.
  pub load_keeps :
      (d : Document) (r : Registry)
      → load resolve net d ≡ ok r
      → All (λ c. lookup r.clients c.client_id ≡ some c) d.service_clients
        × All (λ c. lookup r.sign_in_clients c.client_id ≡ some c) d.sign_in_clients
  unfolding load
  load_keeps d r h =
      let (a, p1, h1) = >>=-eq-ok (add_clients resolve d.service_clients empty_registry) _ h in
      let (b, p2, h2) = >>=-eq-ok (add_sign_in_clients resolve net d.sign_in_clients a) _ h1 in
      let same : b ≡ r = ground arith in
      let clients : r.clients ≡ a.clients =
        ground (arith, clients-add_sign_in_clients d.sign_in_clients a b p2) in
      (
        rw clients (add_clients-All d.service_clients empty_registry a p1),
        rw (← same) (add_sign_in_clients-All d.sign_in_clients a b p2),
      )
