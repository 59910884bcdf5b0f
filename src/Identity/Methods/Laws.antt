-- ===== src/Identity/Methods/Laws.antt =====
-- identity/identity.go: the sign-in methods do not cross over in what they sign.
use authbyte.Prelude.{
  String, ◌≡◌, true, ◌⊎◌, contains, eq_iff, arith, refl, ℕ, if◌then◌else◌, ◌∷◌, [], ◌==◌,
}
use authbyte.Identity.Methods.{
  login_web_eid, login_legacy_eid, login_eid_scan, login_eparaksts_mobile, flow_csc_eid_plugin,
  flow_web_eid, flow_legacy_eid, flow_eid_scan, flow_csc_eid_scan, flow_eparaksts_mobile,
  flow_eparaksts_mobile_eseal, permitted_flows, is_eparaksts_federated,
}

-- The card in a reader, by either program.
abbrev pub IsReader : String → Type 0
IsReader method = (method ≡ login_web_eid) ⊎ (method ≡ login_legacy_eid)

-- The flows told apart by number.
number : String → ℕ
number flow =
    if flow == flow_web_eid
    then 1
    else if flow == flow_legacy_eid
    then 2
    else if flow == flow_eid_scan
    then 3
    else if flow == flow_csc_eid_scan
    then 4
    else if flow == flow_eparaksts_mobile
    then 5
    else if flow == flow_eparaksts_mobile_eseal
    then 6
    else 0

numbered :
    (number flow_web_eid ≡ 1)
    × (number flow_legacy_eid ≡ 2)
    × (number flow_eid_scan ≡ 3)
    × (number flow_csc_eid_scan ≡ 4)
    × (number flow_eparaksts_mobile ≡ 5)
    × (number flow_eparaksts_mobile_eseal ≡ 6)
    × (number flow_csc_eid_plugin ≡ 0)
unfolding number
numbered = (refl, refl, refl, refl, refl, refl, refl)

-- Who permits a flow.
abbrev Permits : String → String → Type 0
Permits m flow =
    ((m ≡ login_web_eid) × ((flow ≡ flow_web_eid) ⊎ (flow ≡ flow_csc_eid_plugin)))
    ⊎ ((m ≡ login_legacy_eid) × ((flow ≡ flow_legacy_eid) ⊎ (flow ≡ flow_csc_eid_plugin)))
    ⊎ ((m ≡ login_eid_scan) × ((flow ≡ flow_eid_scan) ⊎ (flow ≡ flow_csc_eid_scan)))
    ⊎ ((m ≡ login_eparaksts_mobile)
        × ((flow ≡ flow_eparaksts_mobile) ⊎ (flow ≡ flow_eparaksts_mobile_eseal)))

contains_pair : (a b x : String) → contains (a ∷ b ∷ []) x ≡ true → (a ≡ x) ⊎ (b ≡ x)
contains_pair a b x h = ground (arith, eq_iff a x, eq_iff b x)

contains-permitted_flows :
    (m flow : String) → contains (permitted_flows m) flow ≡ true → Permits m flow
unfolding permitted_flows
contains-permitted_flows m flow h = ground (
  arith,
  eq_iff m login_web_eid,
  eq_iff m login_legacy_eid,
  eq_iff m login_eid_scan,
  eq_iff m login_eparaksts_mobile,
  contains_pair flow_web_eid flow_csc_eid_plugin flow,
  contains_pair flow_legacy_eid flow_csc_eid_plugin flow,
  contains_pair flow_eid_scan flow_csc_eid_scan flow,
  contains_pair flow_eparaksts_mobile flow_eparaksts_mobile_eseal flow,
)

-- A flow that two methods permit is one method's, or the remote signing through the provider's
-- browser extension, which both sign-ins with the card in a reader permit; and a method that permits
-- a flow is the card by Web eID or one that signs in at eParaksts.
pub permitted_flows_apart :
    (m n flow : String)
    → contains (permitted_flows m) flow ≡ true
    → contains (permitted_flows n) flow ≡ true
    → ((m ≡ n) ⊎ ((flow ≡ flow_csc_eid_plugin) × IsReader m × IsReader n))
      × ((m ≡ login_web_eid) ⊎ (is_eparaksts_federated m ≡ true))
unfolding is_eparaksts_federated
permitted_flows_apart m n flow h k = ground (
  arith,
  numbered,
  contains-permitted_flows m flow,
  contains-permitted_flows n flow,
  eq_iff m login_legacy_eid,
  eq_iff m login_eid_scan,
  eq_iff m login_eparaksts_mobile,
)
