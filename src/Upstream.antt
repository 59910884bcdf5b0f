-- ===== src/Upstream.antt =====
-- upstream/set.go and the parts of upstream/upstream.go that read a provider's configuration: the
-- providers of a deployment, told apart. A provider's own calls go over HTTP to another service, so
-- their answers are fields: the token endpoint's, the person's claims, and a certificate.
pub mod Laws
use Prim.Native.Char.{Char}
use text.Mathlib.Text.{starts_with}
use authbyte.Prelude.{
  ℕ, String, Bool, not, ◌&&◌, ◌||◌, List, [], ◌∷◌, ◌++◌, Option, none, some, Assoc, lookup, insert,
  Result, ok, err, contains, is_empty, is_some, ◌==◌, if◌then◌else◌, ◌>>=◌,
}
use authbyte.Identity.Methods.{login_web_eid, provider_web_eid}
use authbyte.Identity.Resolver.{
  UserInfo, Resolver, level_loa_policy, unless_empty, value_of, new_resolver_policies,
}

pub record Tokens : Type 0 where
  pub access_token : String
  pub id_token : String

-- what the claims were refused for: an identity code that cannot be keyed, an id_token that does not
-- verify, or anything else
pub data ClaimsError : Type 0 where
  identity_code bad_id_token other : ClaimsError

pub record AuthorizeParams : Type 0 where
  pub state : String
  pub redirect_uri : String
  pub acr_values : String
  pub ui_locales : String
  pub prompt : String
  pub max_age : Option ℕ
  pub nonce : String

pub record Provider : Type 0 where
  pub issuer : String
  pub authority_url : String
  -- the methods allowed, sorted
  pub methods : List String
  pub loa_policy : Assoc String
  pub method_policy : Assoc String
  pub method_default : String
  pub loa_default : String
  pub identity_catalog_enabled : Bool
  -- the methods whose sign-out visits the provider too
  pub federated : List String
  -- the provider's address to sign out at and come back to an address from, "" where it has none
  pub logout_url : String → String
  -- code, redirect address
  pub exchange : String → String → Option Tokens
  -- the tokens, the flow's nonce
  pub claims : Tokens → String → Result ClaimsError UserInfo
  -- access token, the identity's id
  pub sign_identity_cert : String → String → Option String

unfoldable pub identifier : Provider → String
identifier p = if not (p.issuer == "") then p.issuer else p.authority_url

unfoldable pub method_allowed : Provider → String → Bool
method_allowed p method = contains p.methods method

unfoldable pub federated_method : Provider → String → Bool
federated_method p method = contains p.federated method

unfoldable pub resolver_of : (Char → Char) → Provider → Resolver
resolver_of lower p =
    new_resolver_policies lower (unless_empty level_loa_policy p.loa_policy) p.method_policy
      p.method_default p.loa_default

pub record Entry : Type 0 where
  pub name : String
  pub provider : Provider
  pub return_path : String
  pub display_name : String
  pub acr : Assoc String
  pub holds_stored : Bool
  -- what its people's credentials are kept under
  pub key : String

unfoldable pub acr_for : Entry → String → String
acr_for e method = value_of (lookup e.acr method)

pub record Providers : Type 0 where
  pub entries : List Entry
  pub of_method : Assoc Entry

unfoldable pub by_method : Providers → String → Option Entry
by_method s method = lookup s.of_method method

-- Why a set is refused.
pub data SetError : Type 0 where
  no_entry no_name same_name bad_path same_path no_method : SetError
  card_method same_method two_holders no_holder : SetError
  card_provider no_identifier : SetError

-- the loop over an entry's methods
unfoldable pub add_methods : Entry → List String → Assoc Entry → Result SetError (Assoc Entry)
add_methods e [] m = ok m
add_methods e (a ∷ rest) m =
    let others = add_methods e rest (insert m a e) in
    if a == login_web_eid
    then err card_method
    else if is_some (lookup m a)
    then err same_method
    else others

-- What the first loop has read.
pub record Read : Type 0 where
  pub entries : List Entry
  pub of_method : Assoc Entry
  pub holder : Option Entry

unfoldable pub names_of : List Entry → List String
names_of [] = []
names_of (e ∷ es) = e.name ∷ names_of es

unfoldable pub paths_of : List Entry → List String
paths_of [] = []
paths_of (e ∷ es) = e.return_path ∷ paths_of es

abbrev pub hold : Entry → Option Entry → Result SetError (Option Entry)
hold e holder =
    if e.holds_stored then (if is_some holder then err two_holders else ok (some e)) else ok holder

unfoldable pub check_entry : Read → Entry → Result SetError (Unit {0})
unfolding names_of paths_of
check_entry r e =
    if e.name == ""
    then err no_name
    else if contains (names_of r.entries) e.name
    then err same_name
    else if not (starts_with e.return_path "/")
    then err bad_path
    else if contains (paths_of r.entries) e.return_path
    then err same_path
    else if is_empty e.provider.methods
    then err no_method
    else ok tt

unfoldable pub read_entry : Read → Entry → Result SetError Read
unfolding check_entry add_methods
read_entry r e = do
  checked ← check_entry r e
  of_method ← add_methods e e.provider.methods r.of_method
  holder ← hold e r.holder
  ok (record { entries = r.entries ++ e ∷ []; of_method = of_method; holder = holder })

unfoldable pub read_entries : Read → List Entry → Result SetError Read
unfolding read_entry
read_entries r [] = ok r
read_entries r (e ∷ es) = do next ← read_entry r e; read_entries next es

-- The key that an entry's people are kept under, given the holder of the stored sign-ins.
unfoldable pub credential_key : Entry → Entry → Result SetError String
unfolding identifier
credential_key holder e =
    let id = identifier e.provider in
    if id == provider_web_eid
    then err card_provider
    else if e.name == holder.name || (not (id == "") && id == identifier holder.provider)
    then ok ""
    else if id == ""
    then err no_identifier
    else ok id

unfoldable pub key_entries : Entry → List Entry → Result SetError (List Entry)
unfolding credential_key
key_entries holder [] = ok []
key_entries holder (e ∷ es) = do
  key ← credential_key holder e
  rest ← key_entries holder es
  ok (record e { key = key } ∷ rest)

-- an entry as the keyed list holds it
unfoldable pub keyed : List Entry → Entry → Entry
keyed [] e = e
keyed (k ∷ ks) e = let rest = keyed ks e in if k.name == e.name then k else rest

unfoldable pub key_methods : List Entry → Assoc Entry → Assoc Entry
unfolding keyed
key_methods ks [] = []
key_methods ks ((m, e) ∷ rest) = (m, keyed ks e) ∷ key_methods ks rest

abbrev pub held : Option Entry → Result SetError Entry
held none = err no_holder
held (some e) = ok e

unfoldable pub new_set : List Entry → Result SetError Providers
unfolding read_entries key_entries key_methods
new_set entries = if is_empty entries then err no_entry else do
  r ← read_entries (record { entries = []; of_method = []; holder = none }) entries
  holder ← held r.holder
  ks ← key_entries holder r.entries
  ok (record { entries = ks; of_method = key_methods ks r.of_method })
