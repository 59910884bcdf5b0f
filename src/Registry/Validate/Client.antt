-- ===== src/Registry/Validate/Client.antt =====
-- registry/registry.go: validateClient.
use authbyte.Prelude.{
  String, Bool, true, false, not, ◌||◌, ◌&&◌, List, [], ◌∷◌, Option, none, some, any, contains,
  ◌==◌, if◌then◌else◌,
}
use authbyte.Registry.Rows.{Grant, Client}
use authbyte.Registry.Scopes.{is_box, is_level}
pub mod Laws

pub data ClientRefusal : Type 0 where
  empty_client_id no_secret_ref empty_audience two_grants : ClientRefusal
  bad_scope bad_level level_outside_scopes empty_act_from : ClientRefusal

-- the loop over a grant's scopes
unfoldable pub check_scopes : List String → Option ClientRefusal
check_scopes [] = none
check_scopes (s ∷ rest) =
    if not (is_box s) && not (is_level s) then some bad_scope else check_scopes rest

-- the loop over a grant's assistant levels
unfoldable pub check_levels : List String → List String → Option ClientRefusal
check_levels scopes [] = none
check_levels scopes (s ∷ rest) =
    if not (is_level s)
    then some bad_level
    else if not (contains scopes s)
    then some level_outside_scopes
    else check_levels scopes rest

-- an early return of the loop over the grants
abbrev pub or_else {ℓ} : {E : Type ℓ} → Option E → Option E → Option E
or_else none next = next
or_else (some e) next = some e

-- one round of that loop; `before` are the grants ahead of this one
unfoldable pub check_grant : List Grant → Grant → Option ClientRefusal
check_grant before g =
    if g.audience == ""
    then some empty_audience
    else if any (λ o. o.audience == g.audience) before
    then some two_grants
    else or_else (check_scopes g.scopes) (check_levels g.scopes g.assistant_levels)

unfoldable pub check_grants : List Grant → List Grant → Option ClientRefusal
check_grants before [] = none
check_grants before (g ∷ rest) = or_else (check_grant before g) (check_grants (g ∷ before) rest)

unfoldable pub validate_client : Client → Option ClientRefusal
validate_client c =
    if c.client_id == ""
    then some empty_client_id
    else if c.enabled && c.secret_ref == ""
    then some no_secret_ref
    else or_else (check_grants [] c.grants)
        (if contains c.act_from "" then some empty_act_from else none)
