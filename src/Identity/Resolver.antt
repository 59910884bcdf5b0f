-- ===== src/Identity/Resolver.antt =====
-- identity/identity.go: how a provider's claims resolve to a sign-in method and an assurance level.
-- The order in which Go ranges over a map is the order of the association list.
pub mod Laws
use Prim.Native.Char.{Char}
use Prim.Native.String.{◌++◌ as append}
use Prim.Native.Nat.{ℕ}
use authbyte.Prelude.{
  String, Bool, List, [], ◌∷◌, Option, none, some, Assoc, lookup, insert, is_empty, find, map, ◌==◌,
  if◌then◌else◌,
}
use authbyte.Text.{to_lower, contains_text, sort_keys}
use authbyte.Identity.Methods.{
  loa_low, loa_substantial, loa_high, login_eid, login_eparaksts_mobile, login_eid_scan,
  login_legacy_eid,
}
use authbyte.Identity.Catalog.{SignIdentity}

pub record UserInfo : Type 0 where
  pub subject : String
  pub domain : String
  pub acr : String
  pub amr : List String
  pub given_name : String
  pub family_name : String
  pub name : String
  pub serial_number : String
  pub email : String
  pub eips : String
  -- none where the answer carried no catalog
  pub sign_identities : Option (List SignIdentity)
  pub issuer : String
  pub directory_id : String
  pub directory_guest : Bool
  -- Unix seconds, 0 where the provider said nothing
  pub auth_time : ℕ

pub record Identity : Type 0 where
  pub subject : String
  pub idp_subject : String
  pub name : String
  pub given_name : String
  pub family_name : String
  pub serial_number : String
  pub email : String
  pub loa : String
  pub login_method : String
  pub issuer : String
  pub directory_guest : Bool

pub record Resolver : Type 0 where
  pub loa_policy : Assoc String
  pub loa_keys : List String
  pub method_policy : Assoc String
  pub method_keys : List String
  pub method_default : String
  pub loa_default : String

abbrev pub level_loa_policy : Assoc String
level_loa_policy =
    ("level:high", loa_high) ∷ ("level:substantial", loa_substantial) ∷ ("level:low", loa_low) ∷ []

abbrev pub default_loa_policy : Assoc String
default_loa_policy =
    ("level:high", loa_high)
    ∷ ("level:substantial", loa_substantial)
    ∷ ("level:low", loa_low)
    ∷ ("mobileid", loa_high)
    ∷ ("mobile-eid", loa_high)
    ∷ ("sc_plugin", loa_high)
    ∷ ("smartcard", loa_high)
    ∷ []

abbrev pub default_method_policy : Assoc String
default_method_policy =
    ("mobile-eid", login_eid_scan)
    ∷ ("sc_plugin", login_legacy_eid)
    ∷ ("smartcard", login_legacy_eid)
    ∷ ("mobileid", login_eparaksts_mobile)
    ∷ ("smart_id", login_eparaksts_mobile)
    ∷ ("cloud", login_eparaksts_mobile)
    ∷ ("mobile", login_eparaksts_mobile)
    ∷ []

-- `policy[k]`, "" for no entry
abbrev pub value_of : Option String → String
value_of none = ""
value_of (some v) = v

-- the first key that the text contains
unfoldable pub match_key : List String → String → Option String
match_key keys hay = find (λ k. contains_text hay k) keys

abbrev pub value_or : Assoc String → String → Option String → String
value_or policy default none = default
value_or policy default (some k) = value_of (lookup policy k)

abbrev pub named : Assoc String → Option String → Option String
named policy none = none
named policy (some k) = some (value_of (lookup policy k))

abbrev pub unless_empty : Assoc String → Assoc String → Assoc String
unless_empty default policy = if is_empty policy then default else policy

module _ (lower : Char → Char) where
  -- the loop's map, an entry overriding the ones before it of the same key
  unfoldable pub lowered : Assoc String → Assoc String → Assoc String
  lowered m [] = m
  lowered m ((k, v) ∷ rest) = lowered (insert m (to_lower lower k) v) rest

  unfoldable pub lowered_keys : Assoc String → List String
  lowered_keys [] = []
  lowered_keys ((k, v) ∷ rest) = to_lower lower k ∷ lowered_keys rest

  unfoldable pub index_policy : Assoc String → Assoc String × List String
  unfolding lowered lowered_keys
  index_policy policy = (lowered [] policy, sort_keys (lowered_keys policy))

  unfoldable pub new_resolver_policies : Assoc String → Assoc String → String → String → Resolver
  unfolding index_policy
  new_resolver_policies loa_policy method_policy method_default loa_default =
      let loa = index_policy (unless_empty default_loa_policy loa_policy) in
      let method = index_policy (unless_empty default_method_policy method_policy) in
      record {
        loa_policy = loa.0;
        loa_keys = loa.1;
        method_policy = method.0;
        method_keys = method.1;
        method_default = if method_default == "" then login_eid else method_default;
        loa_default = if loa_default == "" then loa_low else loa_default;
      }

  unfoldable pub new_resolver : Assoc String → Resolver
  unfolding new_resolver_policies
  new_resolver loa_policy = new_resolver_policies loa_policy [] "" ""

  -- the claims, one after another
  unfoldable pub haystack : String → List String → String
  haystack hay [] = hay
  haystack hay (m ∷ amr) = haystack (append hay (append " " (to_lower lower m))) amr

  unfoldable pub match_policy : List String → Assoc String → String → String → List String → String
  unfolding match_key haystack
  match_policy keys policy default acr amr =
      value_or policy default (match_key keys (haystack (to_lower lower acr) amr))

  unfoldable pub interpret : Resolver → String → List String → String × String
  unfolding match_policy
  interpret r acr amr = (
    match_policy r.method_keys r.method_policy r.method_default acr amr,
    match_policy r.loa_keys r.loa_policy r.loa_default acr amr,
  )

  unfoldable pub resolve_loa : Resolver → String → List String → String
  unfolding match_policy
  resolve_loa r acr amr = match_policy r.loa_keys r.loa_policy r.loa_default acr amr

  unfoldable pub method_for : Resolver → String → Option String
  unfolding match_key
  method_for r acr =
      let hay = to_lower lower acr in
      if hay == "" then none else named r.method_policy (match_key r.method_keys hay)

  unfoldable pub resolve : Resolver → UserInfo → Identity
  unfolding interpret
  resolve r u =
      let resolved = interpret r u.acr u.amr in
      record {
        subject = "";
        idp_subject = if u.directory_id == "" then u.subject else u.directory_id;
        name = u.name;
        given_name = u.given_name;
        family_name = u.family_name;
        serial_number = u.serial_number;
        email = u.email;
        loa = resolved.1;
        login_method = resolved.0;
        issuer = u.issuer;
        directory_guest = u.directory_guest;
      }
