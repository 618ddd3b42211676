-- ===== src/Auth.antt =====
-- core/auth: the owner, sessions, the protection against forged requests and the limits on attempts
-- (core/auth/dependencies.py and core/auth/routes.py). The text of the CSRF cookie, "token.expiry.signature",
-- is modelled by its three fields; a text of another form is `none`. Counters in Redis are a list of
-- keys with their counts; a key names its minute, and is kept for two.
pub mod Limits
pub mod Sessions
pub mod Forged
pub mod Setup
pub mod Renewal
use bbd_os.Prelude.{
  rstrip_slash, ℕ, ◌+◌, ◌*◌, ◌/◌, String, Option, none, some, Bool, true, false, List, [], ◌∷◌,
  ◌++◌, ◌&&◌, ◌||◌, not, if◌then◌else◌, ◌==◌, ltb, leb, str_eq, same_text, find, delete_where,
  is_none, http, integrity_error, Result, ok, err, ◌>>=◌, ◌>>◌, guard, require,
}
use bbd_os.Database.{second}

pub record AuthSession : Type 0 where
  pub token_hash : String
  pub owner_id : ℕ
  pub csrf_hash : String
  pub expires_at : ℕ

pub record CsrfCookie : Type 0 where
  pub token : String
  pub expires_at : ℕ
  pub signature : String

-- The key of a counter: the attempts of one address in a minute, or of all.
pub record CounterKey : Type 0 where
  pub action : String
  pub address_hash : Option String
  pub minute : ℕ

pub record Auth : Type 0 where
  pub owner : Option String
  pub sessions : List AuthSession
  pub counters : List CounterKey

-- SHA-256, HMAC under a secret, and argon2.
pub record Hashing : Type 0 where
  pub sha256 : String → String
  pub sign : String → String → ℕ → String
  pub hash_password : String → String
  pub verify_password : String → String → Bool

pub record AuthSettings : Type 0 where
  pub public_origin : String
  pub csrf_signing_secret : String
  pub setup_token : String
  pub session_lifetime_hours : ℕ

-- What a request carries.
pub record AuthRequest : Type 0 where
  pub origin : Option String
  pub address : String
  pub session_cookie : Option String
  pub csrf_cookie : Option CsrfCookie
  pub csrf_token : Option String
  pub setup_token : Option String

abbrev pub csrf_max_age_seconds : ℕ
csrf_max_age_seconds = 600

abbrev pub unauthorized : Result (Unit {0})
unauthorized = err (http 401 "Authentication required")

unfoldable pub origin_allowed : AuthSettings → Option String → Bool
unfolding rstrip_slash
origin_allowed settings none = false
origin_allowed settings (some origin) =
    str_eq (rstrip_slash origin) (rstrip_slash settings.public_origin)

unfoldable pub csrf_signature : Hashing → AuthSettings → String → ℕ → Result String
csrf_signature h settings token expires_at = do
  guard (not (str_eq settings.csrf_signing_secret ""))
      (http 503 "CSRF protection is not configured")
  ok (h.sign settings.csrf_signing_secret token expires_at)

-- `now` is in seconds here.
unfoldable pub check_csrf : Hashing → AuthSettings → CsrfCookie → String → ℕ → Result Bool
unfolding csrf_signature
check_csrf h settings cookie submitted now =
    if leb cookie.expires_at now || ltb (now + csrf_max_age_seconds) cookie.expires_at
    then ok false
    else if str_eq cookie.token submitted
    then (csrf_signature h settings cookie.token cookie.expires_at >>= λ signature.
        ok (str_eq cookie.signature signature))
    else ok false

-- A submitted token that is empty counts as absent.
unfoldable pub valid_csrf :
    Hashing → AuthSettings → Option CsrfCookie → Option String → ℕ → Result Bool
unfolding check_csrf
valid_csrf h settings none submitted now = ok false
valid_csrf h settings (some cookie) none now = ok false
valid_csrf h settings (some cookie) (some submitted) now =
    if str_eq submitted "" then ok false else check_csrf h settings cookie submitted now

abbrev pub has_token : String → AuthSession → Bool
has_token token_hash s = str_eq s.token_hash token_hash

unfoldable pub current_session : Hashing → Auth → Option String → ℕ → Result AuthSession
current_session h auth cookie now = do
  token ← require cookie (http 401 "Authentication required")
  guard (not (str_eq token "")) (http 401 "Authentication required")
  row ←
      require (find (has_token (h.sha256 token)) auth.sessions) (http 401 "Authentication required")
  guard (ltb now row.expires_at) (http 401 "Authentication required")
  ok row

abbrev pub or_empty : Option String → String
or_empty none = ""
or_empty (some t) = t

unfoldable pub require_owner_write :
    Hashing → AuthSettings → Auth → AuthRequest → ℕ → Result AuthSession
unfolding origin_allowed current_session valid_csrf
require_owner_write h settings auth request now = do
  guard (origin_allowed settings request.origin) (http 403 "Origin is not allowed")
  row ← current_session h auth request.session_cookie now
  valid ← valid_csrf h settings request.csrf_cookie request.csrf_token (now / second)
  guard (valid && str_eq row.csrf_hash (h.sha256 (or_empty request.csrf_token)))
      (http 403 "CSRF token is invalid")
  ok row

abbrev pub same_key : CounterKey → CounterKey → Bool
same_key a b =
    str_eq a.action b.action && same_text a.address_hash b.address_hash && a.minute == b.minute

-- The value of a counter: how often it was raised.
unfoldable pub count : CounterKey → List CounterKey → ℕ
count key [] = 0
count key (k ∷ l) = (if same_key key k then 1 else 0) + count key l

abbrev pub address_key : Hashing → String → String → ℕ → CounterKey
address_key h action address minute = record {
  action = action;
  address_hash = some (h.sha256 address);
  minute = minute;
}

abbrev pub global_key : String → ℕ → CounterKey
global_key action minute = record { action = action; address_hash = none; minute = minute }

abbrev pub minute_of : ℕ → ℕ
minute_of now = now / (60 * second)

-- Both counters are raised, and the attempt is allowed or not.
unfoldable pub allow_attempt :
    Hashing → List CounterKey → String → String → ℕ → Bool × List CounterKey
unfolding count
allow_attempt h counters action address now =
    let by_address = address_key h action address (minute_of now) in
    let by_all = global_key action (minute_of now) in
    let counters' = by_address ∷ by_all ∷ counters in
    (not (ltb 5 (count by_address counters') || ltb 20 (count by_all counters')), counters')

abbrev pub new_csrf : Hashing → String → String → ℕ → CsrfCookie
new_csrf h secret token now = record {
  token = token;
  expires_at = now / second + csrf_max_age_seconds;
  signature = h.sign secret token (now / second + csrf_max_age_seconds);
}

abbrev pub new_session : Hashing → AuthSettings → String → String → ℕ → AuthSession
new_session h settings session_token csrf_token now = record {
  token_hash = h.sha256 session_token;
  owner_id = 1;
  csrf_hash = h.sha256 csrf_token;
  expires_at = now + settings.session_lifetime_hours * (3600 * second);
}

-- The checks of a login behind the limit, with the tokens that are drawn: the session cookie and the
-- CSRF cookie.
unfoldable pub login_allowed :
    Hashing
    → AuthSettings
    → Auth
    → AuthRequest
    → String
    → String
    → String
    → ℕ
    → Result (CsrfCookie × Auth)
unfolding valid_csrf
login_allowed h settings auth request password session_token csrf_token now = do
  valid ← valid_csrf h settings request.csrf_cookie request.csrf_token (now / second)
  guard valid (http 403 "CSRF token is invalid")
  password_hash ← require auth.owner (http 401 "Email or password is incorrect")
  guard (h.verify_password password_hash password) (http 401 "Email or password is incorrect")
  guard (is_none (find (has_token (h.sha256 session_token)) auth.sessions)) integrity_error
  ok (
    new_csrf h settings.csrf_signing_secret csrf_token now,
    record auth {
      sessions = auth.sessions ++ new_session h settings session_token csrf_token now ∷ [];
    },
  )

abbrev pub with_counters : List CounterKey → Auth → Auth
with_counters counters auth = record auth { counters = counters }

-- What a request answers, and what it leaves, also when it raises an error.
unfoldable pub limited : Bool → Result (CsrfCookie × Auth) → Auth → Result CsrfCookie × Auth
limited false answer counted = (err (http 429 "Too many authentication attempts"), counted)
limited true (err e) counted = (err e, counted)
limited true (ok (cookie, auth)) counted = (ok cookie, auth)

unfoldable pub login :
    Hashing
    → AuthSettings
    → Auth
    → AuthRequest
    → String
    → String
    → String
    → ℕ
    → Result CsrfCookie × Auth
unfolding origin_allowed allow_attempt login_allowed limited
login h settings auth request password session_token csrf_token now =
    let attempt = allow_attempt h auth.counters "login" request.address now in
    let counted = with_counters attempt.1 auth in
    if origin_allowed settings request.origin
    then limited attempt.0
        (login_allowed h settings counted request password session_token csrf_token now) counted
    else (err (http 403 "Origin is not allowed"), auth)

unfoldable pub logout : Hashing → AuthSettings → Auth → AuthRequest → ℕ → Result Auth
unfolding require_owner_write
logout h settings auth request now = do
  row ← require_owner_write h settings auth request now
  ok (record auth { sessions = delete_where (has_token row.token_hash) auth.sessions })
