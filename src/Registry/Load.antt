-- ===== src/Registry/Load.antt =====
-- registry/registry.go: Load, after the YAML decoder; a row's secret comes from the resolver.
pub mod Invariant
pub mod Kept
use authbyte.Prelude.{
  ℕ, String, Bool, true, false, ◌&&◌, ◌||◌, List, [], ◌∷◌, Option, none, some, Assoc, lookup,
  insert, is_some, contains, any, ◌==◌, Result, ok, err, ◌>>=◌, if◌then◌else◌,
}
use authbyte.Registry.Rows.{Grant, Client, SignInClient, Document, client_confidential}
use authbyte.Registry.Validate.Client.{ClientRefusal, validate_client}
use authbyte.Registry.Validate.Address.{Net}
use authbyte.Registry.Validate.SignIn.{SignInRefusal, validate_sign_in_client}

-- A Go string that is compared byte by byte.
abbrev pub Bytes : Type 0
Bytes = List ℕ

-- The loaded registry. The maps are keyed by client id.
pub record Registry : Type 0 where
  pub clients : Assoc Client
  pub sign_in_clients : Assoc SignInClient
  pub secrets : Assoc Bytes

-- `resolve`: by client id and secret_ref; it may fail.
abbrev pub SecretResolver : Type 0
SecretResolver = String → String → Option Bytes

pub data LoadRefusal : Type 0 where
  client_refused : ClientRefusal → LoadRefusal
  sign_in_refused : SignInRefusal → LoadRefusal
  duplicate_client duplicate_sign_in in_both_sections no_secret id_is_audience : LoadRefusal

abbrev pub empty_registry : Registry
empty_registry = record { clients = []; sign_in_clients = []; secrets = [] }

abbrev pub store_secret : Registry → String → Option Bytes → Result LoadRefusal Registry
store_secret r id none = err no_secret
store_secret r id (some secret) = ok (record r { secrets = insert r.secrets id secret })

-- `resolve` is nil for a load that skips the secrets.
unfoldable pub resolve_secret :
    Option SecretResolver → Bool → String → String → Registry → Result LoadRefusal Registry
resolve_secret none wanted id ref r = ok r
resolve_secret (some resolve) wanted id ref r =
    if wanted then store_secret r id (resolve id ref) else ok r

-- every audience a door accepts: the sign-in clients' own and those of the grants
abbrev pub grant_audiences : List Grant → List String
grant_audiences [] = []
grant_audiences (g ∷ gs) = g.audience ∷ grant_audiences gs

abbrev pub is_client_audience : String → Client → Bool
is_client_audience id c = contains (grant_audiences c.grants) id

-- whether an id is an audience of the loaded rows
unfoldable pub is_audience : Registry → String → Bool
is_audience r id =
    any (λ e. e.1.audience == id) r.sign_in_clients
    || any (λ e. is_client_audience id e.1) r.clients

module _ (resolve : Option SecretResolver) where
  unfoldable pub add_client : Client → Registry → Result LoadRefusal Registry
  add_client c r = elim (validate_client c) [
    | some e ↦ err (client_refused e)
    | none ↦
        if is_some (lookup r.clients c.client_id)
        then err duplicate_client
        else resolve_secret resolve c.enabled c.client_id c.secret_ref
            (record r { clients = insert r.clients c.client_id c })
  ]

  unfoldable pub add_clients : List Client → Registry → Result LoadRefusal Registry
  add_clients [] r = ok r
  add_clients (c ∷ cs) r = do r' ← add_client c r; add_clients cs r'

  module _ (net : Net) where
    unfoldable pub add_sign_in_client : SignInClient → Registry → Result LoadRefusal Registry
    add_sign_in_client c r = elim (validate_sign_in_client net c) [
      | some e ↦ err (sign_in_refused e)
      | none ↦
          if is_some (lookup r.sign_in_clients c.client_id)
          then err duplicate_sign_in
          else if is_some (lookup r.clients c.client_id)
          then err in_both_sections
          else resolve_secret resolve (c.enabled && c.client_type == client_confidential)
              c.client_id c.secret_ref
              (record r { sign_in_clients = insert r.sign_in_clients c.client_id c })
    ]

    unfoldable pub add_sign_in_clients : List SignInClient → Registry → Result LoadRefusal Registry
    add_sign_in_clients [] r = ok r
    add_sign_in_clients (c ∷ cs) r = do r' ← add_sign_in_client c r; add_sign_in_clients cs r'

    unfoldable pub load : Document → Result LoadRefusal Registry
    load d = do
      r ← add_clients d.service_clients empty_registry
      r' ← add_sign_in_clients d.sign_in_clients r
      if any (λ e. is_audience r' e.0) r'.sign_in_clients then err id_is_audience else ok r'
