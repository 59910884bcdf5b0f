-- ===== src/Routes/Asking.antt =====
-- What an authorization request asks: routes/oidc.go, routes/requested_method.go, s256Challenge of
-- routes/helpers.go and readAIAppAsk of routes/aiapp.go.
pub mod Laws
use Prim.Native.String.{len}
use authbyte.Prelude.{
  ℕ, ◌+◌, ◌-◌, ◌*◌, ◌/◌, String, Bool, true, false, not, ◌&&◌, ◌||◌, List, [], ◌∷◌, ◌++◌, Option,
  none, some, Result, ok, err, contains, is_empty, is_some, length, ltb, leb, ◌==◌, if◌then◌else◌,
  ◌>>=◌,
}
use authbyte.Browser.{AuthParams, get_param, opt_param, all_params}
use authbyte.Identity.Resolver.{UserInfo}
use authbyte.Registry.Rows.{SignInClient}
use authbyte.Registry.Scopes.{codes, parse_scope_string, join, is_code}
use authbyte.Registry.Validate.Address.{Net, same_resource}
use authbyte.Routes.Pkce.{pkce_s256}
use authbyte.Session.Types.{Flow, UserSession}

-- The code of a refusal that is answered at the client's own address.
abbrev pub AuthError : Type 0
AuthError = String

-- the challenge and its method
unfoldable pub s256_challenge : AuthParams → Option (String × String)
unfolding opt_param
s256_challenge p = elim (opt_param p "code_challenge") [
  | none ↦ none
  | some c ↦ elim (opt_param p "code_challenge_method") [
    | none ↦ none
    | some m ↦ if c == "" || not (m == pkce_s256) then none else some (c, pkce_s256)
  ]
]

pub record IdTokenAsk : Type 0 where
  pub openid : Bool
  pub nonce : String

abbrev pub max_nonce_len : ℕ
max_nonce_len = 512

abbrev pub text_of : Option String → String
text_of none = ""
text_of (some s) = s

unfoldable pub read_id_token_ask : AuthParams → Result AuthError IdTokenAsk
unfolding opt_param
read_id_token_ask p =
    let nonce = text_of (opt_param p "nonce") in
    if ltb max_nonce_len (len nonce)
    then err "invalid_request"
    else ok (record {
      openid = contains (parse_scope_string (text_of (opt_param p "scope"))) "openid";
      nonce = nonce;
    })

pub record SignInAsk : Type 0 where
  pub forced_login : Bool
  pub login : Bool
  pub is_none : Bool
  pub select_account : Bool
  pub max_age : Option ℕ
  pub ui_locales : String

-- the decimal digits read so far
abbrev pub next_digit : Option ℕ → ℕ → Option ℕ
next_digit none c = none
next_digit (some n) c = if leb b'0' c && leb c b'9' then some (n * 10 + (c - b'0')) else none

unfoldable pub read_digits : Option ℕ → List ℕ → Option ℕ
read_digits n [] = n
read_digits n (c ∷ cs) = read_digits (next_digit n c) cs

abbrev pub digits : List ℕ → Option ℕ
unfolding read_digits
digits cs = if is_empty cs then none else read_digits (some 0) cs

abbrev pub at_most : ℕ → Option ℕ → Option ℕ
at_most top none = none
at_most top (some n) = if leb n top then some n else none

-- `strconv.ParseInt(s, 10, 64)` of a number that is not negative
unfoldable pub parse_age : List ℕ → Option ℕ
unfolding digits
parse_age [] = none
parse_age (c ∷ cs) =
    if is_code c b'-'
    then at_most 0 (digits cs)
    else if is_code c b'+'
    then at_most 9223372036854775807 (digits cs)
    else at_most 9223372036854775807 (digits (c ∷ cs))

unfoldable pub read_max_age : Option String → Result AuthError (Option ℕ)
unfolding parse_age
read_max_age none = ok none
read_max_age (some s) = elim (parse_age (codes s)) [
  | none ↦ err "invalid_request"
  | some n ↦ ok (some n)
]

unfoldable pub read_prompt : List String → SignInAsk → Result AuthError SignInAsk
read_prompt values ask =
    if contains values "none" && ltb 1 (length values)
    then err "invalid_request"
    else if contains values "consent"
    then err "consent_required"
    else ok (record ask {
      is_none = contains values "none";
      forced_login = ask.forced_login || contains values "login";
      login = contains values "login";
      select_account = contains values "select_account";
    })

unfoldable pub read_sign_in_ask : AuthParams → Result AuthError SignInAsk
unfolding opt_param read_max_age read_prompt
read_sign_in_ask p =
    if is_some (opt_param p "request")
    then err "request_not_supported"
    else if is_some (opt_param p "request_uri")
    then err "request_uri_not_supported"
    else if is_some (opt_param p "id_token_hint")
    then err "invalid_request"
    else do
      max_age ← read_max_age (opt_param p "max_age")
      read_prompt (parse_scope_string (text_of (opt_param p "prompt"))) (record {
        forced_login = is_some max_age;
        login = false;
        is_none = false;
        select_account = false;
        max_age = max_age;
        ui_locales = text_of (opt_param p "ui_locales");
      })

unfoldable pub upstream_prompt : SignInAsk → String
upstream_prompt a =
    if a.forced_login then "login" else if a.select_account then "select_account" else ""

unfoldable pub upstream_codes : (String → String) → List String → List String
upstream_codes acr_for [] = []
upstream_codes acr_for (m ∷ ms) =
    let rest = upstream_codes acr_for ms in
    let c = acr_for m in if not (c == "") then c ∷ rest else rest

unfoldable pub upstream_acr : (String → String) → List String → String
unfolding upstream_codes
upstream_acr acr_for methods = join (upstream_codes acr_for methods)

-- the loop over the values, with the methods read so far
unfoldable pub read_methods : List String → List String → List String → Option (List String)
read_methods offered methods [] = some methods
read_methods offered methods (v ∷ vs) =
    let rest =
      read_methods offered (if contains methods v then methods else methods ++ v ∷ []) vs in
    if not (contains offered v) then none else rest

unfoldable pub requested_methods : List String → String → Option (List String)
unfolding read_methods
requested_methods offered acr_values = read_methods offered [] (parse_scope_string acr_values)

unfoldable pub method_requested : List String → String → Bool
method_requested requested method = is_empty requested || contains requested method

-- `time.Time.Unix`, of a time since 1970
abbrev pub unix : ℕ → ℕ
unix t = t / 1000 - 62135596800

abbrev pub auth_time_skew : ℕ
auth_time_skew = 30

abbrev pub older : Option ℕ → ℕ → Bool
older none age = false
older (some top) age = ltb top age

-- The moment a person authenticated, in Unix seconds, 0 where it is not known; or none, where that
-- is older than the flow allows.
unfoldable pub sign_in_moment : UserInfo → Flow → ℕ → Option ℕ
sign_in_moment info flow now =
    let at =
      if ltb 0 info.auth_time then info.auth_time else if flow.forced_login then unix now else 0 in
    if flow.forced_login
      && ltb 0 info.auth_time
      && ltb (info.auth_time + auth_time_skew) flow.started
    then none
    else if ltb 0 at && older flow.max_age (unix now - (at + auth_time_skew))
    then none
    else some at

abbrev pub registered_values : List String
registered_values =
    "face" ∷ "fpt" ∷ "geo" ∷ "hwk" ∷ "iris" ∷ "kba" ∷ "mca" ∷ "mfa" ∷ "otp" ∷ "pin" ∷ "pwd" ∷ "rba"
    ∷ "retina" ∷ "sc" ∷ "sms" ∷ "swk" ∷ "tel" ∷ "user" ∷ "vbm" ∷ "wia" ∷ []

unfoldable pub keep_registered : List String → List String → List String
keep_registered out [] = out
keep_registered out (v ∷ vs) =
    keep_registered
      (if contains registered_values v && not (contains out v) then out ++ v ∷ [] else out) vs

unfoldable pub registered_amr : List String → List String
unfolding keep_registered
registered_amr amr = keep_registered [] amr

-- the boxes asked for, read so far
unfoldable pub read_boxes :
    SignInClient → List String → List String → Result AuthError (List String)
read_boxes app asked [] = ok asked
read_boxes app asked (s ∷ ss) =
    let passed = read_boxes app asked ss in
    let rest = read_boxes app (if contains asked s then asked else asked ++ s ∷ []) ss in
    if s == "openid" || s == "offline_access"
    then passed
    else if not (contains app.scopes s)
    then err "invalid_scope"
    else rest

abbrev pub all_when_empty : SignInClient → List String → List String
all_when_empty app asked = if is_empty asked then app.scopes else asked

module _ (net : Net) where
  abbrev pub names_resource : SignInClient → List String → Bool
  names_resource app [] = false
  names_resource app (r ∷ []) = same_resource net app.audience r
  names_resource app (r ∷ s ∷ rest) = false

  unfoldable pub read_ai_app_ask : SignInClient → AuthParams → Result AuthError (List String)
  unfolding read_boxes
  read_ai_app_ask app p =
      if not (names_resource app (all_params p "resource")) then err "invalid_target" else do
        asked ← read_boxes app [] (parse_scope_string (get_param p "scope"))
        ok (all_when_empty app asked)
