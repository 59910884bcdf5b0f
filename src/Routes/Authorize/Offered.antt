-- ===== src/Routes/Authorize/Offered.antt =====
-- routes/signin.go: what a way of signing in must be for a client to be offered it.
use authbyte.Prelude.{
  String, ◌≡◌, ◌⊎◌, inl, inr, Bool, true, false, not, ◌&&◌, List, [], ◌∷◌, ◌++◌, contains, lookup,
  is_some, arith, eq_iff, if◌then◌else◌,
}
use authbyte.Identity.Methods.{login_web_eid}
use authbyte.Registry.Rows.{SignInClient}
use authbyte.Routes.Authorize.{can_start, offered_in, offered}
use authbyte.Upstream.{by_method}
use authbyte.World.{Env}

contains_after :
    (out : List String) (m x : String)
    → contains (out ++ m ∷ []) x ≡ true
    → (contains out x ≡ true) ⊎ (m ≡ x)
contains_after [] m x h = inr (ground (arith, h, eq_iff m x))
contains_after (o ∷ out) m x h = ground (arith, h, contains_after out m x)

module _ (env : Env) where
  open env use {sign_in}

  -- A way that this deployment can start: a provider has it, or it is the card and cards are read.
  abbrev pub Startable : String → Type 0
  Startable m =
      (is_some (lookup sign_in.upstreams.of_method m) ≡ true)
      ⊎ ((m ≡ login_web_eid) × (is_some sign_in.card ≡ true))

  -- A way that its client may use and this deployment can start.
  abbrev pub IsOffered : SignInClient → String → Type 0
  IsOffered client m = (contains client.methods m ≡ true) × Startable m

  can_start-Startable : (m : String) → can_start env m ≡ true → Startable m
  unfolding can_start by_method
  can_start-Startable m h = ground (arith, h, eq_iff m login_web_eid)

  grown :
      (b : Bool) (out : List String) (m x : String)
      → contains (if b then out ++ m ∷ [] else out) x ≡ true
      → (contains out x ≡ true) ⊎ ((b ≡ true) × (m ≡ x))
  grown true out m x h = ground (arith, contains_after out m x h)
  grown false out m x h = inl h

  offered_in_among :
      (out ms : List String) (x : String)
      → contains (offered_in env out ms) x ≡ true
      → (contains out x ≡ true) ⊎ ((contains ms x ≡ true) × (can_start env x ≡ true))
  unfolding offered_in
  offered_in_among out [] x h = inl h
  offered_in_among out (m ∷ ms) x h = ground (
    arith,
    eq_iff m x,
    offered_in_among (if can_start env m && not (contains out m) then out ++ m ∷ [] else out) ms x
        h,
    grown (can_start env m && not (contains out m)) out m x,
  )

  pub offered-IsOffered :
      (client : SignInClient) (m : String)
      → contains (offered env client) m ≡ true
      → IsOffered client m
  unfolding offered
  offered-IsOffered client m h =
      let (listed, starts) = none_before (offered_in_among [] client.methods m h) in
      (listed, can_start-Startable m starts)
    where
      none_before :
          (contains [] m ≡ true) ⊎ ((contains client.methods m ≡ true) × (can_start env m ≡ true))
          → (contains client.methods m ≡ true) × (can_start env m ≡ true)
      none_before (inl h) = ground (arith, h)
      none_before (inr p) = p
