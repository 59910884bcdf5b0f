-- ===== src/Routes/Shared/Browser.antt =====
-- routes/shared.go: the browser's shared session, what it answers with no page, and how a completed
-- sign-in joins it. The cookie holds the shared session's id and a secret whose hash it keeps.
use Prim.Native.Char.{code}
use Prim.Native.String.{◌++◌ as append, len}
use authbyte.Prelude.{
  ℕ, ◌-◌, String, Bool, true, false, not, ◌&&◌, ◌||◌, List, [], ◌∷◌, Option, none, some, contains,
  is_empty, is_some, leb, ◌==◌, if◌then◌else◌,
}
use authbyte.Act.{pure, gets, on_error, ◌>>=◌, ◌>>◌}
use authbyte.Browser.{Visit, read_cookie, clear_cookie, Reply, code_at}
use authbyte.Register.{Membership}
use authbyte.Registry.Rows.{claim_serial_number}
use authbyte.Registry.SignIn.{membership_required}
use authbyte.Rolebyte.{person_key, memberships}
use authbyte.Routes.Answers.{Handler, or_internal, random_token, wrapped}
use authbyte.Routes.Asking.{unix, older}
use authbyte.Routes.Authorize.{AuthorizeRequest, offered}
use authbyte.Routes.Membership.{audit}
use authbyte.Routes.Shared.{add_shared_app, shared_live, end_app_session}
use authbyte.Session.Types.{UserSession, AppCode, is_zero}
use authbyte.Session.Shared.{Way, Shared, shared_expired}
use authbyte.Store.Calls.{StoreError, not_found, create_session, save_app_code}
use authbyte.Store.Index.{load_shared}
use authbyte.World.{Env, shared_session_refused, shared_session_reused}

abbrev pub shared_cookie : String
shared_cookie = "authbyte_sso"

abbrev pub app_code_ttl : ℕ
app_code_ttl = 60000

-- The browser's live shared session, under its id.
pub record Joined : Type 0 where
  pub id : String
  pub shared : Shared

-- `strings.Cut(v, ".")`, where there is a dot
unfoldable pub cut_dot : String → Option (String × String)
cut_dot String.[] = none
cut_dot (String.◌∷◌ c s) =
    let rest = cut_dot s in
    if leb b'.' (code c) && leb (code c) b'.'
    then some (String.[], s)
    else elim rest [ none ↦ none | some p ↦ some (String.◌∷◌ c p.0, p.1) ]

-- 22 characters are the id's 16 bytes, and 43 the secret's 32
unfoldable pub cookie_parts : String → Option (String × String)
unfolding cut_dot
cookie_parts v = elim (cut_dot v) [
  | none ↦ none
  | some p ↦
      if (leb (len p.0) 22 && leb 22 (len p.0)) && (leb (len p.1) 43 && leb 43 (len p.1))
      then some p
      else none
]

-- Whether a way of signing in fits a request, and whether it is only too old for it.
pub data Fit : Type 0 where
  fits too_old unfit : Fit

-- The way that answers with no page, or why none does; a request that never asked has no reason.
pub data Found : Type 0 where
  found_way : Way → Found
  refused_for : String → Found
  unasked : Found

unfoldable pub fit_of : AuthorizeRequest → List String → ℕ → Way → Fit
fit_of req offered_here now w =
    if leb w.ends now
      || not (contains offered_here w.way_method)
      || (not (is_empty req.named) && not (contains req.named w.way_method))
    then unfit
    else if is_some req.sign_ask.max_age
        && (is_zero w.auth_time || older req.sign_ask.max_age (unix now - w.auth_time))
    then too_old
    else fits

abbrev pub with_fit : Fit → Way → Found → Found
with_fit fits w rest = found_way w
with_fit too_old w (found_way v) = found_way v
with_fit too_old w rest = refused_for "age"
with_fit unfit w rest = rest

-- The last way that fits. The loop of the source runs from the last way and stops there; this one runs
-- from the first and a way that fits takes the place of the ones before.
unfoldable pub last_fit : AuthorizeRequest → List String → ℕ → Found → List Way → Found
last_fit req offered_here now before [] = before
last_fit req offered_here now before (w ∷ ws) =
    last_fit req offered_here now (with_fit (fit_of req offered_here now w) w before) ws

-- whether a request may be answered from a shared session at all
unfoldable pub may_share : AuthorizeRequest → Bool
may_share req = not (
    not req.client.single_sign_on
    || req.sign_ask.login
    || req.sign_ask.select_account
    || elim req.sign_ask.max_age [ none ↦ false | some n ↦ leb n 0 ])

unfoldable pub keep_person : Shared → UserSession → Shared
keep_person sh sess = record sh {
  subject = sess.subject;
  name = sess.name;
  given_name = sess.given_name;
  family_name = sess.family_name;
  serial_number = sess.serial_number;
  directory_issuer = sess.directory_issuer;
  directory_guest = sess.directory_guest;
}

abbrev pub nobody : Shared
nobody = record {
  secret_hash = "";
  subject = "";
  name = "";
  given_name = "";
  family_name = "";
  serial_number = "";
  directory_issuer = "";
  directory_guest = false;
  ways = [];
  expires_at = 0;
}

-- a session of a person who signed in by a way
abbrev pub session_by : Joined → Way → String → UserSession
session_by j way sid = record {
  subject = j.shared.subject;
  name = j.shared.name;
  given_name = j.shared.given_name;
  family_name = j.shared.family_name;
  serial_number = j.shared.serial_number;
  loa = way.loa;
  login_method = way.way_method;
  client_id = "";
  tenant = "";
  thumbprint = "";
  capabilities = none;
  directory_issuer = j.shared.directory_issuer;
  directory_guest = j.shared.directory_guest;
  expires_at = 0;
  refresh_key = "";
  auth_time = way.auth_time;
  amr = way.amr;
  sid = sid;
  shared = j.id;
  assistant = "";
  app_scopes = [];
  connected_at = 0;
  last_used = 0;
}

-- the code that answers a request with a session
abbrev pub code_for : AuthorizeRequest → String → AppCode
code_for req sid = record {
  session_id = sid;
  code_challenge = req.challenge;
  code_challenge_method = req.challenge_method;
  client_id = req.client_id;
  redirect_uri = req.redirect_uri;
  tenant = req.tenant;
  openid = req.id_ask.openid;
  nonce = req.id_ask.nonce;
  assistant = "";
  app_scopes = [];
}

module _ (env : Env) where
  unfoldable pub shared_secret_hash : String → String
  shared_secret_hash secret = env.hash (append "authbyte shared session\0" secret)

  -- a session that is not there, or not this browser's: the cookie is cleared
  abbrev pub forget_cookie : Visit → Handler env (Option Joined)
  forget_cookie v = do clear_cookie env v shared_cookie; pure none

  unfoldable pub loaded : Visit → String → String → Shared → Handler env (Option Joined)
  unfolding shared_secret_hash
  loaded v id secret sh = do
    now ← gets (λ w. w.now)
    if not (shared_secret_hash secret == sh.secret_hash) || shared_expired sh now
        then forget_cookie v
        else pure (some (record { id = id; shared = sh }))

  abbrev pub held_or_lost : Visit → String → String → Option Shared → Handler env (Option Joined)
  held_or_lost v id secret none = pure none
  held_or_lost v id secret (some sh) = loaded v id secret sh

  -- a shared session that is gone, whose cookie goes with it; one that cannot be read is left
  abbrev pub lost : Visit → StoreError → Handler env (Option Shared)
  lost v not_found = do clear_cookie env v shared_cookie; pure none
  lost v e = pure none

  unfoldable pub load_parts : Visit → String → String → Handler env (Option Joined)
  unfolding loaded
  load_parts v id secret = do
    kept ← on_error (wrapped env (load_shared env id)) (lost v)
    held_or_lost v id secret kept

  abbrev pub of_parts : Visit → Option (String × String) → Handler env (Option Joined)
  of_parts v none = forget_cookie v
  of_parts v (some p) = load_parts v p.0 p.1

  unfoldable pub browser_shared : Visit → Handler env (Option Joined)
  unfolding read_cookie cookie_parts load_parts
  browser_shared v =
      let cookie = read_cookie v shared_cookie in
      if cookie == "" then pure none else of_parts v (cookie_parts cookie)

  abbrev pub of_membership : Option (List Membership) → Way → Found
  of_membership none way = refused_for "register"
  of_membership (some ms) way = if is_empty ms then refused_for "membership" else found_way way

  -- a person whose token would be refused for want of a membership is not answered silently
  unfoldable pub as_member : AuthorizeRequest → Shared → Way → Handler env Found
  as_member req sh way =
      if env.register.wired && membership_required env.registry req.client_id true
      then (do
        ms ←
            on_error (memberships env (person_key sh.subject) >>= λ ms. pure (some ms))
              (λ e. pure none)
        pure (of_membership ms way))
      else pure (found_way way)

  unfoldable pub identified : AuthorizeRequest → Shared → Found → Handler env Found
  unfolding as_member
  identified req sh (found_way way) =
      if contains req.client.claims claim_serial_number && sh.serial_number == ""
      then pure (refused_for "identity")
      else as_member req sh way
  identified req sh (refused_for why) = pure (refused_for why)
  identified req sh unasked = pure unasked

  unfoldable pub shared_way : AuthorizeRequest → Shared → ℕ → Handler env Found
  unfolding identified may_share last_fit
  shared_way req sh now =
      if not (may_share req)
      then pure unasked
      else identified req sh (last_fit req (offered env req.client) now (refused_for "way") sh.ways)

  abbrev pub code_saved : AuthorizeRequest → Joined → Way → String → Handler env (Option Reply)
  code_saved req j way sid = do
    app_code ← random_token env
    or_internal env (save_app_code env app_code (code_for req sid) app_code_ttl)
    audit env (shared_session_reused j.shared.subject req.client_id way.way_method)
    pure (some (code_at req.redirect_uri app_code req.spa_state))

  abbrev pub added_live : Joined → Bool → Handler env Bool
  added_live j added = if added then shared_live env j.id else pure false

  abbrev pub code_if : AuthorizeRequest → Joined → Way → String → Bool → Handler env (Option Reply)
  code_if req j way sid true = code_saved req j way sid
  code_if req j way sid false = do end_app_session env sid; pure none

  -- a new app session of the shared one, which ends when the way does
  unfoldable pub answer_by : AuthorizeRequest → Joined → ℕ → Way → Handler env (Option Reply)
  answer_by req j now way = do
    public ← random_token env
    sid ← random_token env
    made ← or_internal env (create_session env sid (session_by j way public) (way.ends - now))
    added ← add_shared_app env j.id j.shared.expires_at req.client_id sid
    live ← added_live j added
    code_if req j way sid live

  unfoldable pub answer_found : AuthorizeRequest → Joined → ℕ → Found → Handler env (Option Reply)
  unfolding answer_by
  answer_found req j now (found_way way) = answer_by req j now way
  answer_found req j now (refused_for why) = do
    audit env (shared_session_refused req.client_id why)
    pure none
  answer_found req j now unasked = pure none

  abbrev pub answer_joined : AuthorizeRequest → Option Joined → Handler env (Option Reply)
  answer_joined req none = pure none
  answer_joined req (some j) = do
    now ← gets (λ w. w.now)
    found ← shared_way req j.shared now
    answer_found req j now found

  -- none where the request goes on as without a shared session
  unfoldable pub answer_from_shared : Visit → AuthorizeRequest → Handler env (Option Reply)
  unfolding browser_shared shared_way answer_found
  answer_from_shared v req = do j ← browser_shared v; answer_joined req j
