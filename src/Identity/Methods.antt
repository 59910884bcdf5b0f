-- ===== src/Identity/Methods.antt =====
-- identity/identity.go: the levels, the sign-in methods and the signing flows each permits.
pub mod Laws
use authbyte.Prelude.{String, Bool, ◌||◌, List, [], ◌∷◌, ◌==◌, if◌then◌else◌}

abbrev pub loa_low : String
loa_low = "low"

abbrev pub loa_substantial : String
loa_substantial = "substantial"

abbrev pub loa_high : String
loa_high = "high"

-- what an unrecognized method resolves to; no provider allows it
abbrev pub login_eid : String
login_eid = "eid"

abbrev pub login_eparaksts_mobile : String
login_eparaksts_mobile = "eparakstsMobile"

abbrev pub login_eid_scan : String
login_eid_scan = "eidScan"

abbrev pub login_web_eid : String
login_web_eid = "webEid"

abbrev pub login_legacy_eid : String
login_legacy_eid = "legacyEid"

abbrev pub login_assistant : String
login_assistant = "assistant"

abbrev pub provider_web_eid : String
provider_web_eid = "webeid"

unfoldable pub is_eparaksts_login_allowed : String → Bool
is_eparaksts_login_allowed method = method == login_eparaksts_mobile || method == login_eid_scan

unfoldable pub is_eparaksts_federated : String → Bool
is_eparaksts_federated method =
    method == login_eparaksts_mobile || method == login_eid_scan || method == login_legacy_eid

abbrev pub flow_web_eid : String
flow_web_eid = "webEid"

abbrev pub flow_legacy_eid : String
flow_legacy_eid = "legacyEid"

abbrev pub flow_eid_scan : String
flow_eid_scan = "eidScan"

abbrev pub flow_eparaksts_mobile : String
flow_eparaksts_mobile = "eparakstsMobile"

abbrev pub flow_eparaksts_mobile_eseal : String
flow_eparaksts_mobile_eseal = "eparakstsMobileEseal"

abbrev pub flow_csc_eid_scan : String
flow_csc_eid_scan = "cscEidScan"

abbrev pub flow_csc_eid_plugin : String
flow_csc_eid_plugin = "cscEidPlugin"

unfoldable pub permitted_flows : String → List String
permitted_flows login_method =
    if login_method == login_web_eid
    then flow_web_eid ∷ flow_csc_eid_plugin ∷ []
    else if login_method == login_legacy_eid
    then flow_legacy_eid ∷ flow_csc_eid_plugin ∷ []
    else if login_method == login_eid_scan
    then flow_eid_scan ∷ flow_csc_eid_scan ∷ []
    else if login_method == login_eparaksts_mobile
    then flow_eparaksts_mobile ∷ flow_eparaksts_mobile_eseal ∷ []
    else []
