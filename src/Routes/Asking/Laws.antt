-- ===== src/Routes/Asking/Laws.antt =====
-- What an authorization request is read as: routes/oidc.go, routes/requested_method.go and
-- readAIAppAsk of routes/aiapp.go.
use authbyte.Prelude.{
  String, ◌≡◌, refl, Bool, true, false, not, List, [], ◌∷◌, ◌++◌, some, ok, all, contains, ◌==◌,
  arith, >>=-eq-ok, if-eq-ok, eq_refl,
}
use authbyte.Browser.{AuthParams, opt_param, get_param, all_params}
use authbyte.Registry.Rows.{SignInClient}
use authbyte.Registry.Scopes.{parse_scope_string}
use authbyte.Registry.Validate.Address.{Net}
use authbyte.Routes.Asking.{
  s256_challenge, read_methods, requested_methods, read_boxes, read_ai_app_ask, names_resource,
}

all-append :
    (p : String → Bool) (xs : List String) (y : String)
    → all p xs ≡ true
    → p y ≡ true
    → all p (xs ++ y ∷ []) ≡ true
all-append p [] y h k = ground arith
all-append p (x ∷ xs) y h k = ground (arith, all-append p xs y)

-- The methods read are all offered.
read_methods_offered :
    (offered methods values read : List String)
    → all (contains offered) methods ≡ true
    → read_methods offered methods values ≡ some read
    → all (contains offered) read ≡ true
unfolding read_methods
read_methods_offered offered methods [] read h e = ground arith
read_methods_offered offered methods (v ∷ vs) read h e = ground (
  arith,
  read_methods_offered offered methods vs read,
  read_methods_offered offered (methods ++ v ∷ []) vs read,
  all-append (contains offered) methods v,
)

pub requested_methods_offered :
    (offered : List String) (acr_values : String) {read : List String}
    → requested_methods offered acr_values ≡ some read
    → all (contains offered) read ≡ true
unfolding requested_methods
requested_methods_offered offered acr_values {read} e =
    read_methods_offered offered [] (parse_scope_string acr_values) read refl e

-- A challenge that is read is not empty, and its method is S256.
pub s256_challenge_read :
    (p : AuthParams) {c : String × String}
    → s256_challenge p ≡ some c
    → ((c.0 == "") ≡ false) × (c.1 ≡ "S256")
unfolding s256_challenge opt_param
s256_challenge_read p e = (ground arith, ground arith)

-- The boxes read are boxes of the app's row.
read_boxes_own :
    (app : SignInClient) (asked words read : List String)
    → all (contains app.scopes) asked ≡ true
    → read_boxes app asked words ≡ ok read
    → all (contains app.scopes) read ≡ true
unfolding read_boxes
read_boxes_own app asked [] read h e = ground arith
read_boxes_own app asked (s ∷ ss) read h e = ground (
  arith,
  read_boxes_own app asked ss read,
  read_boxes_own app (asked ++ s ∷ []) ss read,
  all-append (contains app.scopes) asked s,
)

all-contains_more :
    (scopes : List String) (x : String) (ys : List String)
    → all (contains scopes) ys ≡ true
    → all (contains (x ∷ scopes)) ys ≡ true
all-contains_more scopes x [] h = refl
all-contains_more scopes x (y ∷ ys) h = ground (arith, all-contains_more scopes x ys)

all-contains_self : (scopes : List String) → all (contains scopes) scopes ≡ true
all-contains_self [] = refl
all-contains_self (x ∷ scopes) =
    ground (arith, all-contains_more scopes x scopes (all-contains_self scopes), eq_refl x)

pub read_ai_app_ask_own :
    (net : Net) (app : SignInClient) (p : AuthParams) {read : List String}
    → read_ai_app_ask net app p ≡ ok read
    → all (contains app.scopes) read ≡ true
unfolding read_ai_app_ask
read_ai_app_ask_own net app p {read} e =
    let words = parse_scope_string (get_param p "scope") in
    let (named, rest) =
      if-eq-ok (not (names_resource net app (all_params p "resource"))) "invalid_target" _ e in
    let (asked, boxes, last) = >>=-eq-ok (read_boxes app [] words) _ rest in
    ground
      (arith, last, boxes, all-contains_self app.scopes, read_boxes_own app [] words asked refl)
