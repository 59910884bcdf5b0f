-- ===== src/Routes/ClientAuth/Came.antt =====
-- routes/clientauth.go: the secret that a request came with, and the client that it proves.
use authbyte.Prelude.{
  String, ◌≡◌, ◌⊎◌, inl, inr, refl, ap, sym, ◌∙◌, subst, true, false, Option, none, some, Result,
  ok, err, is_some, arith, eq_iff,
}
use authbyte.Act.{pure, raise}
use authbyte.Act.Runs.{>>=-eq-ok, pure-eq-ok, raise-eq-ok, refuse_if-eq-ok}
use authbyte.Registry.Rows.{SignInClient}
use authbyte.Registry.Grants.{RegistryError}
use authbyte.Registry.SignIn.Laws.{InForce, HasProof, authenticate_sign_in_iff}
use authbyte.Routes.Request.{Request, text_of}
use authbyte.Routes.ClientAuth.{
  Basic, no_basic, invalid_basic, basic, Presented, basic_credentials, one_method, client_secret,
  registered, authenticate_sign_in,
}
use authbyte.World.{Env, World}

module _ (env : Env) where
  -- A secret of the header's Basic credentials, for the very client named and with none in the form;
  -- or, with no such credentials, what the form has, where it has one.
  abbrev pub CameBy : Basic → Option String → String → Presented → Type 0
  CameBy b form client_id came =
      ((b ≡ basic client_id came.secret) × (form ≡ none) × (came.presented ≡ true))
      ⊎ ((b ≡ no_basic) × (came.secret ≡ text_of form) × (came.presented ≡ is_some form))

  -- The secret that a request presents, in its header or in its form, never in both.
  abbrev pub CameWith : Request → String → Presented → Type 0
  CameWith req client_id came =
      CameBy (basic_credentials env req.authorization) (req.optional "client_secret") client_id came

  none_of : (form : Option String) → is_some form ≡ false → form ≡ none
  none_of none h = refl
  none_of (some s) h = ground (arith, h)

  one_method-eq-ok :
      (b : Basic) (client_id : String) (form : Option String) (w v : World env) (came : Presented)
      → one_method env b client_id form w ≡ (ok came, v)
      → CameBy b form client_id came × (w ≡ v)
  unfolding one_method
  one_method-eq-ok invalid_basic client_id form w v came h = absurd (raise-eq-ok _ w h)
  one_method-eq-ok no_basic client_id form w v came h =
      let (same, stays) = pure-eq-ok _ w h in
      (inr (refl, ap (λ z. z.secret) (sym same), ap (λ z. z.presented) (sym same)), stays)
  one_method-eq-ok (basic id s) client_id form w v came h =
      let (_, w1, named, h1) = >>=-eq-ok _ _ w h in
      let (_, w2, once, h2) = >>=-eq-ok _ _ w1 h1 in
      let (own, s1) = refuse_if-eq-ok _ _ w named in
      let (lone, s2) = refuse_if-eq-ok _ _ w1 once in
      let (same, s3) = pure-eq-ok _ w2 h2 in
      let is_own : id ≡ client_id = ground (arith, own, eq_iff id client_id) in
      (
        inl (
          subst (λ z. basic id s ≡ basic z came.secret) is_own
              (ap (λ z. basic id z) (ap (λ z. z.secret) same)),
          none_of form lone,
          ap (λ z. z.presented) (sym same),
        ),
        s1 ∙ s2 ∙ s3,
      )

  pub client_secret-eq-ok :
      (req : Request) (client_id : String) (w v : World env) (came : Presented)
      → client_secret env req client_id w ≡ (ok came, v)
      → CameWith req client_id came × (w ≡ v)
  unfolding client_secret
  client_secret-eq-ok req client_id w v came h =
      one_method-eq-ok (basic_credentials env req.authorization) client_id
        (req.optional "client_secret") w v came h

  pub registered-eq-ok :
      {A : Type 0} (r : Result RegistryError A) (w v : World env) (a : A)
      → registered env r w ≡ (ok a, v)
      → (r ≡ ok a) × (w ≡ v)
  unfolding registered pure raise
  registered-eq-ok (ok b) w v a h = (ground arith, ground arith)
  registered-eq-ok (err e) w v a h = absurd (ground arith)

  -- A sign-in client in force that proved itself by what the request presents.
  abbrev pub IsProven : Request → String → SignInClient → Type 0
  IsProven req client_id c =
      (came : Presented) × CameWith req client_id came
      × InForce env.registry client_id c
      × HasProof env.registry c client_id (env.bytes came.secret) came.presented

  pub authenticate_sign_in-eq-ok :
      (req : Request) (client_id : String) (w v : World env) (c : SignInClient)
      → authenticate_sign_in env req client_id w ≡ (ok c, v)
      → IsProven req client_id c × (w ≡ v)
  unfolding authenticate_sign_in
  authenticate_sign_in-eq-ok req client_id w v c h =
      let (came, w1, read, h1) = >>=-eq-ok _ _ w h in
      let (by, s1) = client_secret-eq-ok req client_id w w1 came read in
      let (proven, s2) = registered-eq-ok _ w1 v c h1 in
      let (row, proof) =
        (authenticate_sign_in_iff env.registry client_id (env.bytes came.secret) came.presented c).0
          proven in
      ((came, by, row, proof), s1 ∙ s2)
