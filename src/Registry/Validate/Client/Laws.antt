-- ===== src/Registry/Validate/Client/Laws.antt =====
-- validateClient accepts exactly the rows that are well formed.
use authbyte.Prelude.{
  String, ◌≡◌, ◌≢◌, ◌↔◌, inl, inr, Bool, true, false, List, [], ◌∷◌, none, All, any, contains, ◌==◌,
  eq_iff, arith, Bool-cases, refl,
}
use authbyte.Registry.Rows.{Grant, Client}
use authbyte.Registry.Scopes.{is_box, is_level}
use authbyte.Registry.Scopes.Words.{IsScope}
use authbyte.Registry.Validate.Client.{
  check_scopes, check_levels, check_grant, check_grants, validate_client,
}

-- An assistant level is a level among the grant's scopes.
abbrev pub IsNamedLevel : List String → String → Type 0
IsNamedLevel scopes s = (is_level s ≡ true) × (contains scopes s ≡ true)

-- A grant names an audience, its scopes are boxes and levels, and its assistant levels are levels
-- among its scopes.
pub record IsGrant (g : Grant) : Type 0 where
  pub named : g.audience ≢ ""
  pub scopes_ok : All IsScope g.scopes
  pub levels_ok : All (IsNamedLevel g.scopes) g.assistant_levels

-- No two grants are toward one audience, and none is toward an audience of `before`.
abbrev pub DistinctAudiences : List Grant → List Grant → Type 0
DistinctAudiences before [] = Unit {0}
DistinctAudiences before (g ∷ rest) =
    (any (λ o. o.audience == g.audience) before ≡ false) × DistinctAudiences (g ∷ before) rest

pub record IsClient (c : Client) : Type 0 where
  pub identified : c.client_id ≢ ""
  pub secret_known : c.enabled ≡ true → c.secret_ref ≢ ""
  pub grants_ok : All IsGrant c.grants
  pub distinct : DistinctAudiences [] c.grants
  pub acts_named : contains c.act_from "" ≡ false

check_scopes_sound : (ss : List String) → check_scopes ss ≡ none → All IsScope ss
unfolding check_scopes
check_scopes_sound [] h = tt
check_scopes_sound (s ∷ ss) h = elim (Bool-cases (is_box s)) [
  | inl b ↦ (inl b, check_scopes_sound ss (ground arith))
  | inr b ↦ (inr (ground arith), check_scopes_sound ss (ground arith))
]

check_scopes_complete : (ss : List String) → All IsScope ss → check_scopes ss ≡ none
unfolding check_scopes
check_scopes_complete [] h = refl
check_scopes_complete (s ∷ ss) h = ground (arith, check_scopes_complete ss h.1)

check_levels_sound :
    (scopes ss : List String) → check_levels scopes ss ≡ none → All (IsNamedLevel scopes) ss
unfolding check_levels
check_levels_sound scopes [] h = tt
check_levels_sound scopes (s ∷ ss) h =
    ((ground arith, ground arith), check_levels_sound scopes ss (ground arith))

check_levels_complete :
    (scopes ss : List String) → All (IsNamedLevel scopes) ss → check_levels scopes ss ≡ none
unfolding check_levels
check_levels_complete scopes [] h = refl
check_levels_complete scopes (s ∷ ss) h = ground (arith, check_levels_complete scopes ss h.1)

abbrev fresh : List Grant → Grant → Bool
fresh before g = any (λ o. o.audience == g.audience) before

check_grant_sound :
    (before : List Grant) (g : Grant)
    → check_grant before g ≡ none
    → IsGrant g × (fresh before g ≡ false)
unfolding check_grant
check_grant_sound before g h = (
  record {
    named = λ e. ground (arith, eq_iff g.audience "");
    scopes_ok = check_scopes_sound g.scopes (ground arith);
    levels_ok = check_levels_sound g.scopes g.assistant_levels (ground arith);
  },
  ground arith,
)

check_grant_complete :
    (before : List Grant) (g : Grant)
    → IsGrant g
    → fresh before g ≡ false
    → check_grant before g ≡ none
unfolding check_grant
check_grant_complete before g v h = ground (
  arith,
  eq_iff g.audience "",
  v.named,
  check_scopes_complete g.scopes v.scopes_ok,
  check_levels_complete g.scopes g.assistant_levels v.levels_ok,
)

check_grants_sound :
    (before gs : List Grant)
    → check_grants before gs ≡ none
    → All IsGrant gs × DistinctAudiences before gs
unfolding check_grants
check_grants_sound before [] h = (tt, tt)
check_grants_sound before (g ∷ gs) h =
    let here = check_grant_sound before g (ground arith) in
    let later = check_grants_sound (g ∷ before) gs (ground arith) in
    ((here.0, later.0), (here.1, later.1))

check_grants_complete :
    (before gs : List Grant)
    → All IsGrant gs
    → DistinctAudiences before gs
    → check_grants before gs ≡ none
unfolding check_grants
check_grants_complete before [] v d = refl
check_grants_complete before (g ∷ gs) v d =
    rw (check_grant_complete before g v.0 d.0) (check_grants_complete (g ∷ before) gs v.1 d.1)

validate_client_sound : (c : Client) → validate_client c ≡ none → IsClient c
unfolding validate_client
validate_client_sound c h =
    let grants = check_grants_sound [] c.grants (ground arith) in
    record {
      identified = λ e. ground (arith, eq_iff c.client_id "");
      secret_known = λ on e. ground (arith, eq_iff c.secret_ref "");
      grants_ok = grants.0;
      distinct = grants.1;
      acts_named = ground arith;
    }

validate_client_complete : (c : Client) → IsClient c → validate_client c ≡ none
unfolding validate_client
validate_client_complete c v = ground (
  arith,
  eq_iff c.client_id "",
  v.identified,
  eq_iff c.secret_ref "",
  v.secret_known,
  check_grants_complete [] c.grants v.grants_ok v.distinct,
  v.acts_named,
)

-- The load accepts a service client's row exactly when it is well formed: it has an id and, when
-- enabled, a secret; each grant names an audience, no two the same one, its scopes are boxes or
-- levels, and its assistant levels are levels among its scopes; no act_from audience is empty.
pub validate_client_iff : (c : Client) → (validate_client c ≡ none) ↔ IsClient c
validate_client_iff c = (validate_client_sound c, validate_client_complete c)
