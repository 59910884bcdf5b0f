-- ===== src/Browser.antt =====
-- routes/cookies.go and routes/params.go: what a browser sends, and what it is answered.
use Prim.Native.String.{◌++◌ as append, len}
use authbyte.Prelude.{
  String, Bool, not, ◌&&◌, List, [], ◌∷◌, Option, none, some, Assoc, lookup, ◌==◌, if◌then◌else◌,
  leb,
}
use authbyte.Act.{Act, pure, raise, modify, on_error, ◌>>=◌, ◌>>◌}
use authbyte.Register.{Assistant}
use authbyte.Upstream.{AuthorizeParams}
use authbyte.World.{Env, World}
use authbyte.Routes.Answers.{Refusal, Handler, random_token}

-- `url.Values`: each parameter as it came, one that is sent twice as two.
abbrev pub AuthParams : Type 0
AuthParams = List (String × String)

pub record Visit : Type 0 where
  pub is_post : Bool
  -- whether the path begins with /authorize
  pub at_authorize : Bool
  pub query : AuthParams
  pub form : AuthParams
  -- the cookies sent, by their exact names
  pub cookies : Assoc String
  pub origin : String
  pub accept_language : String
  -- over TLS, or in any environment but development
  pub secure_cookies : Bool

-- `url.Values.Get`
unfoldable pub get_param : AuthParams → String → String
get_param [] key = ""
get_param ((k, v) ∷ rest) key = let others = get_param rest key in if k == key then v else others

unfoldable pub opt_param : AuthParams → String → Option String
unfolding get_param
opt_param p key = let v = get_param p key in if v == "" then none else some v

unfoldable pub all_params : AuthParams → String → List String
all_params [] key = []
all_params ((k, v) ∷ rest) key =
    let others = all_params rest key in if k == key then v ∷ others else others

unfoldable pub request_params : Visit → AuthParams
request_params v = if v.is_post then v.form else v.query

abbrev pub sign_in_cookie : String
sign_in_cookie = "authbyte_signin"

abbrev pub notice_cookie : String
notice_cookie = "authbyte_notice"

abbrev pub language_cookie : String
language_cookie = "authbyte_lang"

abbrev pub notice_cancelled : String
notice_cancelled = "cancelled"

abbrev pub notice_provider : String
notice_provider = "provider"

unfoldable pub cookie_name : Visit → String → String
cookie_name v name = if v.secure_cookies then append "__Host-" name else name

abbrev pub sent : Option String → String
sent none = ""
sent (some s) = s

unfoldable pub read_cookie : Visit → String → String
unfolding cookie_name
read_cookie v name = sent (lookup v.cookies (cookie_name v name))

-- The page that lists the ways to sign in, with its message, and the state of the card's flow where
-- the card is among them.
pub record WaysPage : Type 0 where
  pub ways : List String
  pub notice : String
  pub card_state : Option String

-- What a browser is answered: the client's own address with a code, a provider's, this service's
-- own; a page; or a refusal.
pub data Reply : Type 0 where
  -- redirect address, code, state
  code_at : String → String → String → Reply
  -- redirect address, error, state
  error_at : String → String → String → Reply
  -- the provider's name
  provider_at : String → AuthorizeParams → Reply
  -- /authorize with the parameters of a request
  authorize_at : AuthParams → Reply
  -- /authorize with the request that a flow kept
  request_at : String → Reply
  ways_page : WaysPage → Reply
  -- the ticket, and the person's assistants
  assistant_page : String → List Assistant → Reply
  -- the page of a request that cannot be placed, or the refusal
  cannot_start : Refusal → Reply
  refused : Refusal → Reply

module _ (env : Env) where
  -- A handler of the browser's requests: an early answer is the error of its action.
  abbrev pub Screen : Type 0 → Type 0
  Screen A = Act (World env) Reply A

  -- a part of a handler whose refusal is the answer
  unfoldable pub shown : {A : Type 0} → Handler env A → Screen A
  shown m = on_error m (λ e. raise (refused e))

  unfoldable pub set_cookie : Visit → String → String → Handler env (Unit {0})
  unfolding cookie_name
  set_cookie v name value = modify (λ w. record w { jar = (cookie_name v name, value) ∷ w.jar })

  unfoldable pub clear_cookie : Visit → String → Handler env (Unit {0})
  unfolding cookie_name
  clear_cookie v name = modify (λ w. record w { jar = (cookie_name v name, "") ∷ w.jar })

  -- 43 characters are 32 bytes
  unfoldable pub browser_binding : Visit → String
  unfolding read_cookie
  browser_binding v =
      let b = read_cookie v sign_in_cookie in
      if not (leb (len b) 43 && leb 43 (len b))
      then ""
      else if not (env.sign_in.base64url_decodes b)
      then ""
      else b

  abbrev pub or_random : String → Handler env String
  or_random binding = if binding == "" then random_token env else pure binding

  unfoldable pub bind_browser : Visit → Handler env String
  unfolding browser_binding
  bind_browser v = do
    binding ← or_random (browser_binding v)
    set_cookie v sign_in_cookie binding
    pure binding

  unfoldable pub binding_hash : String → String
  binding_hash binding = env.hash (append "authbyte sign-in binding\0" binding)

  unfoldable pub choice_token : String → String
  choice_token binding = env.hash (append "authbyte sign-in choice\0" binding)

  unfoldable pub bound_here : Visit → String → Bool
  unfolding browser_binding binding_hash
  bound_here v flow_binding =
      let b = browser_binding v in not (b == "") && binding_hash b == flow_binding

  abbrev pub known_notice : String → String
  known_notice n = if not (n == notice_cancelled) && not (n == notice_provider) then "" else n

  unfoldable pub take_notice : Visit → Handler env String
  unfolding read_cookie
  take_notice v =
      let n = read_cookie v notice_cookie in
      if n == "" then pure "" else (do clear_cookie v notice_cookie; pure (known_notice n))

  unfoldable pub page_language : Visit → String → String
  unfolding read_cookie
  page_language v ui_locales =
      env.sign_in.choose_language (read_cookie v language_cookie) ui_locales v.accept_language

  -- `EqualFold` of two texts
  unfoldable pub from_own_page : Visit → Bool
  from_own_page v = not (v.origin == "") && env.equal_fold v.origin env.sign_in.self_origin
