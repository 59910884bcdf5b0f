-- ===== src/Routes/Token/Exchanging.antt =====
-- What a token exchange carries.
use authbyte.Prelude.{
  unrefused, ℕ, String, ap, lookup, find, ◌==◌, ◌≢◌, Bool-cases, eq_iff, inl, inr, List, [], ◌∷◌,
  ◌⊎◌, ◌↔◌, ◌≡◌, refl, sym, ◌∙◌, Bool, true, false, contains, contains-keep, keep-contains, Option,
  none, some, Result, ok, err, arith, subst,
}
use authbyte.Act.{pure, raise, gets, ◌>>=◌}
use authbyte.Act.Runs.{>>=-eq-ok, pure-eq-ok, refuse_if-eq-ok}
use authbyte.Claims.{Claims, acting}
use authbyte.Issuer.{issue_delegated, sign}
use authbyte.Registry.Rows.{Client, Grant}
use authbyte.Registry.Scopes.{join, parse_scope_string, is_box, is_level}
use authbyte.Registry.Grants.{
  RegistryError, authenticate, allowed_scopes, may_act_from, assistant_levels, enabled_client,
}
use authbyte.Registry.Grants.Laws.{allowed_scopes_iff}
use authbyte.World.{Env, World}
use authbyte.Routes.Answers.{Refusal, TokenResponse}
use authbyte.Routes.Membership.{audit}
use authbyte.Routes.Kept.{Kept, after-Kept, client_secret-Leaves}
use authbyte.Routes.Request.{Request}
use authbyte.Routes.ClientAuth.{Presented}
use authbyte.Routes.ClientAuth.Came.{CameWith, client_secret-eq-ok, registered-eq-ok}
use authbyte.Routes.Token.Service.{requested_scopes, allowed}
use authbyte.Routes.Token.Exchange.{
  narrow_for_assistant, may_be_acted_for, refuse_delegation, carried, delegated_of, exchange_for,
  parsed, grant_token_exchange,
}
use authbyte.Routes.Connection.{login_assistant}
use authbyte.Routes.Token.Refreshing.{issued-eq-ok, form_string-eq-ok}

-- A scope that an exchange from an assistant's token may carry.
abbrev pub MayCarry : List String → String → List String → String → Type 0
MayCarry scopes subject_scope named s =
    (contains scopes s ≡ true)
    × (((is_level s ≡ true) × (contains named s ≡ true))
        ⊎ ((is_box s ≡ true) × (contains (parse_scope_string subject_scope) s ≡ true)))

-- Of the scopes that its client is granted, an exchange from an assistant's token carries exactly
-- the levels that the grant names for an assistant and the boxes that the token itself carries.
pub narrow_for_assistant_iff :
    (scopes : List String) (subject_scope : String) (named : List String) (s : String)
    → (contains (narrow_for_assistant scopes subject_scope named) s ≡ true)
      ↔ MayCarry scopes subject_scope named s
unfolding narrow_for_assistant
narrow_for_assistant_iff scopes subject_scope named s = (to, from)
  where
    to :
        contains (narrow_for_assistant scopes subject_scope named) s ≡ true
        → MayCarry scopes subject_scope named s
    to h = let (there, test) = contains-keep _ scopes s h in (there, ground (arith, test))

    from :
        MayCarry scopes subject_scope named s
        → contains (narrow_for_assistant scopes subject_scope named) s ≡ true
    from (there, test) = keep-contains _ scopes s there (ground (arith, test))

module _ (env : Env) where
  open env use {registry}

  pub allowed-eq-ok :
      {A : Type 0} (r : Result RegistryError A) (w v : World env) (a : A)
      → allowed env r w ≡ (ok a, v)
      → (r ≡ ok a) × (w ≡ v)
  unfolding allowed pure raise
  allowed-eq-ok (ok b) w v a h = (ground arith, ground arith)
  allowed-eq-ok (err e) w v a h = absurd (ground arith)

  refuse_delegation-eq-ok :
      (b : Bool) (client_id : String) (subject : Claims) (reason : String) (w v : World env)
      (u : Unit {0})
      → refuse_delegation env b client_id subject reason w ≡ (ok u, v)
      → b ≡ false
  unfolding refuse_delegation ◌>>=◌ raise audit
  refuse_delegation-eq-ok true client_id subject reason w v u h = absurd (ground arith)
  refuse_delegation-eq-ok false client_id subject reason w v u h = refl

  -- What the token of an exchange states: its subject's, the acting client before whoever acted
  -- already, and the key of the client.
  abbrev pub IsDelegated : Claims → Claims → String → String → List String → String → Type 0
  IsDelegated tok subject client_id audience scopes thumbprint =
      (tok.subject ≡ subject.subject)
      × (tok.tenant ≡ subject.tenant)
      × (tok.loa ≡ subject.loa)
      × (tok.login_method ≡ subject.login_method)
      × (tok.act ≡ acting client_id subject.act)
      × (tok.audience ≡ audience ∷ [])
      × (tok.scope ≡ join scopes)
      × (tok.thumbprint ≡ thumbprint)

  issue_delegated-IsDelegated :
      (subject : Claims) (client_id audience : String) (scopes : List String) (thumbprint : String)
      (tok : Claims)
      → issue_delegated env (delegated_of env subject client_id audience scopes thumbprint)
        ≡ some tok
      → IsDelegated tok subject client_id audience scopes thumbprint
  unfolding issue_delegated sign
  issue_delegated-IsDelegated subject client_id audience scopes thumbprint tok h = (
    ground arith,
    ground arith,
    ground arith,
    ground arith,
    ground arith,
    ground arith,
    ground arith,
    ground arith,
  )

  -- The levels that a client's grant toward an audience names for an assistant: those of the first
  -- grant toward it, while the client is enabled.
  abbrev pub NamesLevels : String → String → List String → Type 0
  NamesLevels client_id audience named =
      (c : Client) × (g : Grant) × (lookup registry.clients client_id ≡ some c)
      × (c.enabled ≡ true)
      × (find (λ x. x.audience == audience) c.grants ≡ some g)
      × (named ≡ g.assistant_levels)

  -- The scopes that an exchange carries of those its client is granted: all of them; and from an
  -- assistant's token the levels that the grant names and the boxes that the token carries.
  abbrev pub IsCarried : Claims → String → String → List String → List String → Type 0
  IsCarried subject client_id audience given scopes =
      ((subject.login_method ≢ "assistant") × (scopes ≡ given))
      ⊎ ((subject.login_method ≡ "assistant")
          × (named : List String) × NamesLevels client_id audience named
          × ((s : String) → (contains scopes s ≡ true) ↔ MayCarry given subject.scope named s))

  -- A subject that may be acted for is a person, or a service in a tenant.
  abbrev pub MayBeActedFor : Claims → Type 0
  MayBeActedFor subject = (env.is_service subject ≡ false) ⊎ (subject.tenant ≢ "")

  may_be_acted_for-MayBeActedFor :
      (subject : Claims) → may_be_acted_for env subject ≡ true → MayBeActedFor subject
  unfolding may_be_acted_for
  may_be_acted_for-MayBeActedFor subject h = elim (Bool-cases (env.is_service subject)) [
    | inl service ↦ inr (λ e. ground (arith, h, service, eq_iff subject.tenant "", e))
    | inr person ↦ inl person
  ]

  assistant_levels-NamesLevels :
      (client_id audience : String) (requested given : List String)
      → allowed_scopes registry client_id audience requested ≡ ok given
      → NamesLevels client_id audience (assistant_levels registry client_id audience)
  unfolding assistant_levels enabled_client
  assistant_levels-NamesLevels client_id audience requested given h =
      let (c, g, row, toward, _) =
        (allowed_scopes_iff registry client_id audience requested given).0 h in
      (c, g, ground (arith, row), ground (arith, row), toward, ground (arith, row, toward))

  carried-IsCarried :
      (subject : Claims) (client_id audience : String) (requested given : List String)
      → allowed_scopes registry client_id audience requested ≡ ok given
      → IsCarried subject client_id audience given (carried env subject client_id audience given)
  unfolding carried
  carried-IsCarried subject client_id audience requested given h =
      elim (Bool-cases (subject.login_method == login_assistant)) [
        | inl own ↦ inr (
          (eq_iff subject.login_method login_assistant).0 own,
          assistant_levels registry client_id audience,
          assistant_levels-NamesLevels client_id audience requested given h,
          λ s. rw own (
              narrow_for_assistant_iff given subject.scope
                (assistant_levels registry client_id audience) s),
        )
        | inr other ↦ inl (
          λ e. ground (arith, other, eq_iff subject.login_method login_assistant, e),
          rw other refl,
        )
      ]

  abbrev pub IsExchange : String → String → List String → Claims → String → Claims → Type 0
  IsExchange client_id audience requested subject thumbprint tok =
      (given : List String) × (scopes : List String) × MayBeActedFor subject
      × (may_act_from registry client_id subject.audience ≡ true)
      × (allowed_scopes registry client_id audience requested ≡ ok given)
      × IsCarried subject client_id audience given scopes
      × IsDelegated tok subject client_id audience scopes thumbprint

  exchange_for-IsExchange :
      (client_id audience : String) (requested : List String) (subject : Claims)
      (connection thumbprint : String) (w v : World env) (r : TokenResponse)
      → exchange_for env client_id audience requested subject connection thumbprint w ≡ (ok r, v)
      → IsExchange client_id audience requested subject thumbprint r.access_token
  unfolding exchange_for
  exchange_for-IsExchange client_id audience requested subject connection thumbprint w v r h =
      let (_, w1, person, rest1) = >>=-eq-ok _ _ w h in
      let (_, w2, acts, rest2) = >>=-eq-ok _ _ w1 rest1 in
      let (_, w3, live, rest3) = >>=-eq-ok _ _ w2 rest2 in
      let (given, w4, granted, rest4) = >>=-eq-ok _ _ w3 rest3 in
      let (tok, w5, token, rest5) = >>=-eq-ok _ _ w4 rest4 in
      let (_, w6, audited, last) = >>=-eq-ok _ _ w5 rest5 in
      let (is_given, _) = allowed-eq-ok _ w3 w4 given granted in
      let (made, _) = issued-eq-ok env _ w4 w5 tok token in
      let (is_r, _) = pure-eq-ok _ w6 last in
      (
        given,
        carried env subject client_id audience given,
        may_be_acted_for-MayBeActedFor subject
            (ground (arith, refuse_delegation-eq-ok _ client_id subject _ w w1 _ person)),
        ground (arith, refuse_delegation-eq-ok _ client_id subject _ w1 w2 _ acts),
        is_given,
        carried-IsCarried subject client_id audience requested given is_given,
        subst
            (λ t.
              IsDelegated t subject client_id audience
                (carried env subject client_id audience given) thumbprint)
            (ap (λ t. t.access_token) is_r)
            (issue_delegated-IsDelegated subject client_id audience _ thumbprint tok made),
      )

  parsed-eq-ok :
      {A : Type 0} (o : Option A) (w v : World env) (a : A)
      → parsed env o w ≡ (ok a, v)
      → (o ≡ some a) × (w ≡ v)
  unfolding pure raise
  parsed-eq-ok none w v a h = absurd (ground arith)
  parsed-eq-ok (some b) w v a h = (ground arith, ground arith)

  clock-now :
      (time : ℕ) (w v : World env) → gets {E = Refusal} (λ z. z.now) w ≡ (ok time, v) → time ≡ w.now
  unfolding gets
  clock-now time w v h = ground arith

  -- The time that an exchange reads is the time of its request.
  now-Kept :
      (time : ℕ) (w w1 w2 w3 w4 w5 w6 w7 : World env)
      → w ≡ w1
      → Kept env w1 w2
      → w2 ≡ w3
      → w3 ≡ w4
      → w4 ≡ w5
      → w5 ≡ w6
      → w6 ≡ w7
      → time ≡ w7.now
      → time ≡ w.now
  now-Kept time w w1 w2 w3 w4 w5 w6 w7 s1 kept s3 s4 s5 s6 s7 read =
      read ∙ ap (λ z. z.now) (sym (s3 ∙ s4 ∙ s5 ∙ s6 ∙ s7)) ∙ kept.0 ∙ ap (λ z. z.now) (sym s1)

  parsed_now :
      (token : String) (t u : ℕ) (p : Claims × String)
      → t ≡ u
      → env.parse_token t token ≡ some p
      → env.parse_token u token ≡ some p
  parsed_now token t u p same h = subst (λ z. env.parse_token z token ≡ some p) same h

  -- A request that an exchange answers, from the state `w`.
  abbrev pub IsAuthorized : World env → Request → Claims → String → Type 0
  IsAuthorized w req tok thumbprint =
      (client_id : String) × (audience : String) × (subject_token : String) × (came : Presented)
      × (client : Client) × (subject : Claims) × (connection : String) × (req.required "client_id"
          ≡ some client_id)
      × (req.required "audience" ≡ some audience)
      × (req.required "subject_token" ≡ some subject_token)
      × CameWith env req client_id came
      × (came.presented ≡ true)
      × (authenticate registry client_id (env.bytes came.secret) ≡ ok client)
      × (env.parse_token w.now subject_token ≡ some (subject, connection))
      × IsExchange client_id audience (requested_scopes (req.optional "scope")) subject thumbprint
          tok

  -- An exchange is answered only for a client that proved its secret, for a subject token that this
  -- issuer signed, whose subject may be acted for and one of whose audiences the client acts from;
  -- the token carries what the registry grants the client toward the audience it asked for,
  -- narrowed where the subject token is an assistant's, and names the subject's person, tenant,
  -- assurance and login method, with the client before whoever acted already.
  pub grant_token_exchange-IsAuthorized :
      (req : Request) (thumbprint : String) (w v : World env) (r : TokenResponse)
      → grant_token_exchange env req thumbprint w ≡ (ok r, v)
      → IsAuthorized w req r.access_token thumbprint
  unfolding grant_token_exchange
  grant_token_exchange-IsAuthorized req thumbprint w v r h =
      let (client_id, w1, read1, rest1) = >>=-eq-ok _ _ w h in
      let (came, w2, read2, rest2) = >>=-eq-ok _ _ w1 rest1 in
      let (_, w3, sent, rest3) = >>=-eq-ok _ _ w2 rest2 in
      let (audience, w4, read4, rest4) = >>=-eq-ok _ _ w3 rest3 in
      let (subject_token, w5, read5, rest5) = >>=-eq-ok _ _ w4 rest4 in
      let (_, w6, typed, rest6) = >>=-eq-ok _ _ w5 rest5 in
      let (client, w7, proven, rest7) = >>=-eq-ok _ _ w6 rest6 in
      let (time, w8, clock, rest8) = >>=-eq-ok _ _ w7 rest7 in
      let ((subject, connection), w9, read, last) = >>=-eq-ok _ _ w8 rest8 in
      let same1 = (form_string-eq-ok env req "client_id" w w1 client_id read1).1 in
      let kept = after-Kept env _ w1 w2 came (client_secret-Leaves env req client_id) read2 in
      let same3 = (refuse_if-eq-ok _ _ w2 sent).1 in
      let same4 = (form_string-eq-ok env req "audience" w3 w4 audience read4).1 in
      let same5 = (form_string-eq-ok env req "subject_token" w4 w5 subject_token read5).1 in
      let same6 = (refuse_if-eq-ok _ _ w5 typed).1 in
      let same7 = (registered-eq-ok env _ w6 w7 client proven).1 in
      let read_now = clock-now time w7 w8 clock in
      let on_time =
        now-Kept time w w1 w2 w3 w4 w5 w6 w7 same1 kept same3 same4 same5 same6 same7 read_now in
      (
        client_id,
        audience,
        subject_token,
        came,
        client,
        subject,
        connection,
        (form_string-eq-ok env req "client_id" w w1 client_id read1).0,
        (form_string-eq-ok env req "audience" w3 w4 audience read4).0,
        (form_string-eq-ok env req "subject_token" w4 w5 subject_token read5).0,
        (client_secret-eq-ok env req client_id w1 w2 came read2).0,
        unrefused came.presented (refuse_if-eq-ok _ _ w2 sent).0,
        (registered-eq-ok env _ w6 w7 client proven).0,
        parsed_now subject_token time w.now (subject, connection) on_time
            (parsed-eq-ok _ w8 w9 (subject, connection) read).0,
        exchange_for-IsExchange client_id audience _ subject connection thumbprint w9 v r last,
      )
