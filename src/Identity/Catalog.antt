-- ===== src/Identity/Catalog.antt =====
-- identity/catalog.go: the choice of signing identities from the provider's catalog.
-- `strings.EqualFold` and `unicode.ToLower` follow tables of the Unicode standard, so they are
-- parameters.
pub mod Laws
use Prim.Native.Char.{Char}
use Prim.Native.String.{len}
use text.Mathlib.Text.{get?}
use authbyte.Prelude.{
  String, Bool, true, ◌&&◌, ◌||◌, List, [], ◌∷◌, Option, none, some, is_empty, any, all, contains,
  find, keep, map, ltb, ◌==◌, if◌then◌else◌,
}
use authbyte.Text.{to_lower, join_with}
use authbyte.Session.Types.{trim_left, trim_right}
use authbyte.Identity.Methods.{login_eparaksts_mobile, login_eid_scan}

abbrev pub label_server_id : String
label_server_id = "serverid"

abbrev pub label_eid : String
label_eid = "eid"

abbrev pub label_mobile_id : String
label_mobile_id = "mobileid"

abbrev pub label_qseal_c : String
label_qseal_c = "qsealc"

abbrev pub label_eseal_c : String
label_eseal_c = "esealc"

abbrev pub label_content_commitment : String
label_content_commitment = "x509:keyUsage:contentCommitment"

abbrev pub label_digital_signature : String
label_digital_signature = "x509:keyUsage:digitalSignature"

abbrev pub desc_eid_sign : String
desc_eid_sign = "eparaksts:eid:sign"

abbrev pub desc_eid_auth : String
desc_eid_auth = "eparaksts:eid:auth"

abbrev pub desc_mobile_id_auth : String
desc_mobile_id_auth = "eparaksts:mobileid:auth"

abbrev pub status_enabled : String
status_enabled = "enabled"

pub record SignIdentity : Type 0 where
  pub id : String
  pub description : String
  pub status : String
  pub labels : List String
  pub permissions : List String

pub record SealCandidate : Type 0 where
  pub id : String
  pub label : String

module _ (lower : Char → Char) (equal_fold : String → String → Bool) where
  unfoldable pub is_enabled : SignIdentity → Bool
  is_enabled s = equal_fold s.status status_enabled

  unfoldable pub has_permission : SignIdentity → String → Bool
  has_permission s p = is_empty s.permissions || any (λ held. equal_fold held p) s.permissions

  unfoldable pub has_labels : SignIdentity → List String → Bool
  has_labels s wanted =
      let set = map (to_lower lower) s.labels in all (λ w. contains set (to_lower lower w)) wanted

  abbrev pub signs_by_mobile : SignIdentity → Bool
  signs_by_mobile s =
      has_labels s (label_server_id ∷ label_content_commitment ∷ [])
      && is_enabled s
      && has_permission s "sign"

  abbrev pub signs_by_scan : SignIdentity → Bool
  signs_by_scan s =
      equal_fold s.description desc_eid_sign
      || (has_labels s (label_eid ∷ label_content_commitment ∷ []) && is_enabled s)

  unfoldable pub select_signing : List SignIdentity → String → Option SignIdentity
  select_signing catalog login_method =
      if login_method == login_eparaksts_mobile
      then find signs_by_mobile catalog
      else if login_method == login_eid_scan
      then find signs_by_scan catalog
      else none

  abbrev pub is_primary : String → String → SignIdentity → Bool
  is_primary description label s =
      equal_fold s.description description || has_labels s (label ∷ label_digital_signature ∷ [])

  abbrev pub is_auth : SignIdentity → Bool
  is_auth s =
      equal_fold s.description desc_mobile_id_auth
      || equal_fold s.description desc_eid_auth
      || has_labels s (label_digital_signature ∷ [])

  abbrev or_find : Option SignIdentity → List SignIdentity → Option SignIdentity
  or_find none catalog = find is_auth catalog
  or_find (some s) catalog = some s

  unfoldable pub select_auth : List SignIdentity → String → Option SignIdentity
  select_auth catalog login_method =
      let by_scan = login_method == login_eid_scan in
      let description = if by_scan then desc_eid_auth else desc_mobile_id_auth in
      let label = if by_scan then label_eid else label_mobile_id in
      or_find (find (is_primary description label) catalog) catalog

  -- `l[:3]` and `l[3:]`, where the text is cut between two characters
  abbrev common_name : Option String → Option String → Option String
  common_name (some head) (some tail) =
      if equal_fold head "CN:" then some (trim_right (trim_left tail)) else none
  common_name head tail = none

  unfoldable pub cn_label_of : String → Option String
  cn_label_of l = if ltb 3 (len l) then common_name (get? l 0 3) (get? l 3 (len l)) else none

  abbrev first_or : Option String → String → String
  first_or none other = other
  first_or (some n) other = n

  -- The common name of the first label that states one, else the labels joined by commas.
  unfoldable pub cn_label_in : List String → String → String
  unfolding cn_label_of
  cn_label_in [] joined = joined
  cn_label_in (l ∷ rest) joined = first_or (cn_label_of l) (cn_label_in rest joined)

  unfoldable pub cn_label : List String → String
  unfolding cn_label_in
  cn_label labels = cn_label_in labels (join_with "," labels)

  abbrev pub is_seal : SignIdentity → Bool
  is_seal s =
      (has_labels s (label_qseal_c ∷ []) || has_labels s (label_eseal_c ∷ []))
      && is_enabled s
      && has_permission s "sign"

  unfoldable pub seals : List SignIdentity → List SealCandidate
  unfolding cn_label
  seals catalog = map (λ s. record { id = s.id; label = cn_label s.labels }) (keep is_seal catalog)
