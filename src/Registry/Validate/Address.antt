-- ===== src/Registry/Validate/Address.antt =====
-- registry/registry.go: checkAddress, checkLoopbackOrHTTPS, checkResource, isLoopback and
-- SameResource. The parse of an address (`url.Parse`), the comparison of texts without regard to
-- letter case (`strings.EqualFold`) and the test of an IP address (`net.ParseIP`, `IsLoopback`) are
-- the standard library's, and are taken as one parameter.
pub mod Laws
use authbyte.Prelude.{
  String, Bool, true, false, not, ◌||◌, ◌&&◌, Option, none, some, any, ◌==◌, if◌then◌else◌,
}
use authbyte.Registry.Scopes.{codes, is_code}

-- What the source reads of a parsed `url.URL`; `IsAbs` says that the scheme is not empty.
pub record Url : Type 0 where
  pub scheme : String
  pub host : String
  pub hostname : String
  pub escaped_path : String
  pub raw_query : String
  pub fragment : String
  pub has_user : Bool

pub record Net : Type 0 where
  pub parse : String → Option Url
  pub equal_fold : String → String → Bool
  pub is_loopback_ip : String → Bool

pub data AddressRefusal : Type 0 where
  unparsed not_absolute has_fragment has_user_name has_query : AddressRefusal
  http_not_loopback scheme_not_allowed : AddressRefusal

abbrev pub has_hash : String → Bool
has_hash raw = any (is_code b'#') (codes raw)

module _ (net : Net) where
  unfoldable pub is_loopback : String → Bool
  is_loopback host = net.equal_fold host "localhost" || net.is_loopback_ip host

  abbrev pub parsed : String → (Url → Option AddressRefusal) → Option AddressRefusal
  parsed raw next = elim (net.parse raw) [ none ↦ some unparsed | some u ↦ next u ]

  unfoldable pub check_address : String → Bool → Option AddressRefusal
  check_address raw http_allowed = parsed raw λ u.
      if u.scheme == "" || u.host == ""
      then some not_absolute
      else if not (u.fragment == "") || has_hash raw
      then some has_fragment
      else if not (u.scheme == "https") && (not (u.scheme == "http") || not http_allowed)
      then some scheme_not_allowed
      else none

  unfoldable pub check_loopback_or_https : String → Option AddressRefusal
  unfolding is_loopback
  check_loopback_or_https raw = parsed raw λ u.
      if u.scheme == "" || u.host == ""
      then some not_absolute
      else if not (u.fragment == "") || has_hash raw
      then some has_fragment
      else if u.has_user
      then some has_user_name
      else if u.scheme == "https"
      then none
      else if u.scheme == "http"
      then (if is_loopback u.hostname then none else some http_not_loopback)
      else some scheme_not_allowed

  unfoldable pub check_resource : String → Option AddressRefusal
  unfolding check_loopback_or_https
  check_resource raw = elim (check_loopback_or_https raw) [
    | some e ↦ some e
    | none ↦ parsed raw λ u. if not (u.raw_query == "") then some has_query else none
  ]

  unfoldable pub same_resource : String → String → Bool
  same_resource registered named = elim (net.parse registered) [
    | none ↦ false
    | some r ↦ elim (net.parse named) [
      | none ↦ false
      | some n ↦
          if not (n.raw_query == "") || not (n.fragment == "") || has_hash named || n.has_user
          then false
          else net.equal_fold r.scheme n.scheme
            && net.equal_fold r.host n.host
            && r.escaped_path == n.escaped_path
            && not r.has_user
    ]
  ]
