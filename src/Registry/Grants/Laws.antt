-- ===== src/Registry/Grants/Laws.antt =====
-- Who is authenticated, and what a service client may ask for.
use authbyte.Prelude.{
  String, ◌≡◌, ◌≢◌, ◌↔◌, ◌⊎◌, inl, inr, refl, sym, ap, ◌∙◌, true, false, List, [], ◌∷◌, ◌++◌, some,
  All, lookup, contains, any, is_empty, eq_iff, eq_refl, ok, arith, Bool-cases, Option-cases,
}
use mathlib.Core.List.{append_assoc, append-nil}
use authbyte.Registry.Rows.{Grant, Client}
use authbyte.Registry.Load.{Bytes, Registry}
use authbyte.Registry.Secrets.Laws.{subtle_mismatch_iff}
use authbyte.Registry.Grants.{
  enabled_client, wrong_secret, authenticate, grant_toward, granted, scopes_of_grant,
  allowed_scopes, acts_from, may_act_from,
}

module _ (r : Registry) (id : String) where
  -- A client proves itself exactly with the secret kept for it, which is not empty, and only while
  -- its row is enabled.
  pub authenticate_iff :
      (secret : Bytes) (c : Client)
      → (authenticate r id secret ≡ ok c) ↔ (
          (lookup r.clients id ≡ some c)
          × (c.enabled ≡ true)
          × (lookup r.secrets id ≡ some secret)
          × (is_empty secret ≡ false))
  unfolding authenticate enabled_client wrong_secret
  authenticate_iff secret c = (to, from)
    where
      to :
          authenticate r id secret ≡ ok c
          → (lookup r.clients id ≡ some c)
            × (c.enabled ≡ true)
            × (lookup r.secrets id ≡ some secret)
            × (is_empty secret ≡ false)
      to h = elim (Option-cases (lookup r.secrets id)) [
        | inl missing ↦ absurd (ground arith)
        | inr (kept, found) ↦
            let same : kept ≡ secret = (subtle_mismatch_iff kept secret).0 (ground arith) in
            (ground arith, ground arith, rw (← same) found, ground (arith, same))
      ]

      from :
          (lookup r.clients id ≡ some c)
            × (c.enabled ≡ true)
            × (lookup r.secrets id ≡ some secret)
            × (is_empty secret ≡ false)
          → authenticate r id secret ≡ ok c
      from (row, on, kept, given) =
          ground (arith, row, on, kept, given, (subtle_mismatch_iff secret secret).1 refl)

abbrev AllIn : List String → List String → Type 0
AllIn allowed ss = All (λ s. contains allowed s ≡ true) ss

granted-eq-ok :
    (allowed out ss result : List String)
    → granted allowed out ss ≡ ok result
    → (result ≡ out ++ ss) × AllIn allowed ss
unfolding granted
granted-eq-ok allowed out [] result h = (rw append-nil (ground arith), tt)
granted-eq-ok allowed out (s ∷ ss) result h =
    let (whole, rest) = granted-eq-ok allowed (out ++ s ∷ []) ss result (ground arith) in
    (whole ∙ append_assoc out (s ∷ []) ss, (ground arith, rest))

granted-All :
    (allowed out ss : List String) → AllIn allowed ss → granted allowed out ss ≡ ok (out ++ ss)
unfolding granted
granted-All allowed out [] v = rw append-nil
granted-All allowed out (s ∷ ss) v =
    rw v.0 (granted-All allowed (out ++ s ∷ []) ss v.1 ∙ ap ok (append_assoc out (s ∷ []) ss))

-- What a client is granted toward an audience when it asks for `requested`.
abbrev pub IsGranted : Grant → List String → List String → Type 0
IsGranted g requested out =
    ((requested ≡ []) × (out ≡ g.scopes))
    ⊎ ((requested ≢ []) × (out ≡ requested) × All (λ s. contains g.scopes s ≡ true) requested)

scopes_of_grant_sound :
    (g : Grant) (requested out : List String)
    → scopes_of_grant (some g) requested ≡ ok out
    → IsGranted g requested out
unfolding scopes_of_grant
scopes_of_grant_sound g [] out h = inl (refl, ground arith)
scopes_of_grant_sound g (s ∷ ss) out h =
    let (whole, rest) = granted-eq-ok g.scopes [] (s ∷ ss) out h in inr (λ e. cc, whole, rest)

scopes_of_grant_complete :
    (g : Grant) (requested out : List String)
    → IsGranted g requested out
    → scopes_of_grant (some g) requested ≡ ok out
unfolding scopes_of_grant
scopes_of_grant_complete g [] out (inl (none_asked, all_given)) = ap ok (sym all_given)
scopes_of_grant_complete g [] out (inr (asked, _, _)) = absurd (asked refl)
scopes_of_grant_complete g (s ∷ ss) out (inl (none_asked, _)) = cc
scopes_of_grant_complete g (s ∷ ss) out (inr (_, whole, rest)) =
    rw whole (granted-All g.scopes [] (s ∷ ss) rest)

module _ (r : Registry) (id : String) where
  -- The client's grant toward an audience gives it `out` for what it asked.
  abbrev pub MayAsk : String → List String → List String → Type 0
  MayAsk audience requested out =
      (c : Client) × (g : Grant) × (enabled_client r id ≡ some c)
      × (grant_toward audience c.grants ≡ some g)
      × IsGranted g requested out

  -- A client is answered scopes toward an audience exactly when it is enabled and has a grant
  -- there: all of the first such grant's scopes when it asks for none, and otherwise just what it
  -- asks for, in its order, each among that grant's scopes. Any other request is refused.
  pub allowed_scopes_iff :
      (audience : String) (requested out : List String)
      → (allowed_scopes r id audience requested ≡ ok out) ↔ MayAsk audience requested out
  unfolding allowed_scopes
  allowed_scopes_iff audience requested out = (to, from)
    where
      to : allowed_scopes r id audience requested ≡ ok out → MayAsk audience requested out
      to h = elim (Option-cases (enabled_client r id)) [
        | inl unknown ↦ absurd (ground arith)
        | inr (c, row) ↦ elim (Option-cases (grant_toward audience c.grants)) [
          | inl ungranted ↦ absurd (unfold scopes_of_grant in ground (arith, row, ungranted))
          | inr (g, found) ↦
              (c, g, row, found, scopes_of_grant_sound g requested out (ground (arith, row, found)))
        ]
      ]

      from : MayAsk audience requested out → allowed_scopes r id audience requested ≡ ok out
      from (c, g, row, found, given) =
          ground (arith, row, found, scopes_of_grant_complete g requested out given)

  any_sound :
      (c : Client) (auds : List String)
      → any (acts_from c) auds ≡ true
      → (aud : String) × (contains auds aud ≡ true) × (acts_from c aud ≡ true)
  any_sound c [] h = absurd (ground arith)
  any_sound c (a ∷ auds) h = elim (Bool-cases (acts_from c a)) [
    | inl here ↦ (a, ground (arith, eq_refl a), here)
    | inr not_here ↦
        let (aud, member, acts) = any_sound c auds (ground arith) in
        (aud, ground (arith, member), acts)
  ]

  any_complete :
      (c : Client) (auds : List String) (aud : String)
      → contains auds aud ≡ true
      → acts_from c aud ≡ true
      → any (acts_from c) auds ≡ true
  any_complete c [] aud member acts = absurd (ground arith)
  any_complete c (a ∷ auds) aud member acts = ground (arith, eq_iff a aud, any_complete c auds aud)

  -- One of the audiences is the client's own, or one its row lists under act_from.
  abbrev pub MayAct : List String → Type 0
  MayAct auds =
      (c : Client) × (aud : String) × (enabled_client r id ≡ some c)
      × (contains auds aud ≡ true)
      × (aud ≢ "")
      × ((aud ≡ c.client_id) ⊎ (contains c.act_from aud ≡ true))

  -- A client may act from a token's audiences exactly when it is enabled and one of them, not
  -- empty, is the client itself or an audience its row lists under act_from.
  pub may_act_from_iff : (auds : List String) → (may_act_from r id auds ≡ true) ↔ MayAct auds
  unfolding may_act_from
  may_act_from_iff auds = (to, from)
    where
      to : may_act_from r id auds ≡ true → MayAct auds
      to h = elim (Option-cases (enabled_client r id)) [
        | inl unknown ↦ absurd (ground arith)
        | inr (c, row) ↦
            let (aud, member, acts) = any_sound c auds (ground (arith, row)) in
            (
              c,
              aud,
              row,
              member,
              λ e. ground (arith, acts, eq_iff aud ""),
              ground (arith, acts, eq_iff aud c.client_id),
            )
      ]

      from : MayAct auds → may_act_from r id auds ≡ true
      from (c, aud, row, member, named, acts) = ground (
        arith,
        row,
        any_complete c auds aud member
            (ground (arith, acts, named, eq_iff aud "", eq_iff aud c.client_id)),
      )
