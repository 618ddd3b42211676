-- ===== src/Tests/Signing.antt =====
-- Logins, logouts and their limit.
use Prim.Native.String.{String}
use bbd_os.Prelude.{
  ◌≢◌, rstrip_slash, ℕ, ◌≤◌, ◌-◌, ◌≡◌, refl, some, none, ok, err, http, true, List, [], ◌∷◌, str_eq,
  find, delete_where, update_where, first_part, arith,
}
use bbd_os.Auth.{
  Hashing, Auth, AuthSettings, AuthRequest, CsrfCookie, AuthSession, new_csrf, new_session, login,
  login_allowed, limited, allow_attempt, count, address_key, global_key, origin_allowed, valid_csrf,
  check_csrf, csrf_signature, current_session, require_owner_write, logout,
}
use bbd_os.Auth.Limits.{allowed, allowed_bounded}
use bbd_os.Auth.Renewal.{auth_session, keeps_token, renewed, with_hash, auth_session_admits}
use bbd_os.Auth.Setup.{
  insert_owner, may_set_up, set_up, attempt_setup, create_owner, create_owner_once,
}
use bbd_os.Auth.Sessions.{no_session, login_opens_session, logout_ends_session}

abbrev hashing : Hashing
hashing = record {
  sha256 = λ text. text;
  sign = λ secret token expires_at. token;
  hash_password = λ password. password;
  verify_password = str_eq;
}

abbrev settings : AuthSettings
settings = record {
  public_origin = "https://bbd";
  csrf_signing_secret = "secret";
  setup_token = "setup";
  session_lifetime_hours = 12;
}

abbrev before : Auth
before = record { owner = some "password"; sessions = []; counters = [] }

abbrev first_cookie : CsrfCookie
first_cookie = new_csrf hashing "secret" "first" 0

abbrev request : AuthRequest
request = record {
  origin = some "https://bbd/";
  address = "10.0.0.1";
  session_cookie = none;
  csrf_cookie = some first_cookie;
  csrf_token = some "first";
  setup_token = none;
}

abbrev cookie : CsrfCookie
cookie = new_csrf hashing "secret" "second" 5000000

abbrev after_login : Auth
after_login = record {
  owner = some "password";
  sessions = new_session hashing settings "session" "second" 5000000 ∷ [];
  counters = address_key hashing "login" "10.0.0.1" 0 ∷ global_key "login" 0 ∷ [];
}

abbrev next : AuthRequest
next = record request {
  session_cookie = some "session";
  csrf_cookie = some cookie;
  csrf_token = some "second";
}

logged_in :
    login hashing settings before request "password" "session" "second" 5000000
    ≡ (ok cookie, after_login)
unfolding login allow_attempt count origin_allowed rstrip_slash login_allowed limited valid_csrf
    check_csrf csrf_signature find
logged_in = refl

refused_password : login hashing settings before request "guess" "session" "second" 5000000 ≡ (
  err (http 401 "Email or password is incorrect"),
  record before { counters = after_login.counters },
)
unfolding login allow_attempt count origin_allowed rstrip_slash login_allowed limited valid_csrf
    check_csrf csrf_signature find
refused_password = refl

next_origin : origin_allowed settings next.origin ≡ true
unfolding origin_allowed rstrip_slash
next_origin = refl

login_opens_session_example :
    require_owner_write hashing settings after_login next 65000000
    ≡ ok (new_session hashing settings "session" "second" 5000000)
login_opens_session_example =
    login_opens_session hashing settings before request next "password" "session" "second" 5000000
      65000000 cookie after_login logged_in next_origin refl refl refl refl refl (omega arith)
      (omega arith) (omega arith)

logged_out :
    logout hashing settings after_login next 65000000 ≡ ok (record after_login { sessions = [] })
unfolding logout require_owner_write origin_allowed rstrip_slash current_session valid_csrf
    check_csrf csrf_signature find delete_where
logged_out = refl

logout_ends_session_example :
    current_session hashing (record after_login { sessions = [] }) (some "session") 65000001
    ≡ no_session
logout_ends_session_example =
    logout_ends_session hashing settings after_login next "session" 65000000 65000001
      (record after_login { sessions = [] }) refl logged_out

abbrev attempts : List (String × ℕ)
attempts = ("10.0.0.1", 1000000) ∷ ("10.0.0.2", 59000000) ∷ []

-- Five attempts of one address are allowed, and no sixth.
sixth_refused :
    allowed hashing [] "login"
      (("a", 0) ∷ ("a", 1) ∷ ("a", 2) ∷ ("a", 3) ∷ ("a", 4) ∷ ("a", 5) ∷ ("b", 6) ∷ [])
    ≡ 6
unfolding allowed allow_attempt count
sixth_refused = refl

allowed_bounded_example :
    allowed hashing after_login.counters "login" attempts
    ≤ 20 - count (global_key "login" 0) after_login.counters
allowed_bounded_example =
    allowed_bounded hashing after_login.counters "login" 0 attempts (refl, (refl, tt))

abbrev opened : AuthSession
opened = new_session hashing settings "session" "second" 5000000

-- A token that the session does not have.
forged_refused :
    require_owner_write hashing settings after_login
      (record next { csrf_cookie = some first_cookie; csrf_token = some "first" })
      65000000
    ≡ err (http 403 "CSRF token is invalid")
unfolding require_owner_write origin_allowed rstrip_slash current_session valid_csrf check_csrf
    csrf_signature find
forged_refused = refl

abbrev without_owner : Auth
without_owner = record { owner = none; sessions = []; counters = [] }

abbrev with_owner : Auth
with_owner = record {
  owner = some "password";
  sessions = [];
  counters = address_key hashing "setup" "10.0.0.1" 0 ∷ global_key "setup" 0 ∷ [];
}

abbrev setup : AuthRequest
setup = record request { setup_token = some "setup" }

owner_set_up :
    create_owner hashing settings without_owner setup "password" 5000000 ≡ (ok tt, with_owner)
unfolding create_owner may_set_up attempt_setup set_up insert_owner allow_attempt count
    origin_allowed rstrip_slash valid_csrf check_csrf csrf_signature
owner_set_up = refl

create_owner_once_example :
    ((create_owner hashing settings with_owner setup "other" 6000000).0 ≢ ok tt)
    × ((create_owner hashing settings with_owner setup "other" 6000000).1.owner ≡ some "password")
create_owner_once_example =
    create_owner_once hashing settings without_owner setup setup "password" "other" 5000000 6000000
      with_owner owner_set_up

-- After ten minutes the client asks for a token.
abbrev renewing : AuthRequest
renewing = record next { csrf_token = none }

abbrev renewed_cookie : CsrfCookie
renewed_cookie = new_csrf hashing "secret" "third" 700000000

abbrev renewed_auth : Auth
renewed_auth = record after_login { sessions = with_hash "third" opened ∷ [] }

renewed_token :
    auth_session hashing settings after_login renewing "third" 700000000
    ≡ ok (record { csrf_token = "third"; set_cookie = some renewed_cookie }, renewed_auth)
unfolding auth_session current_session keeps_token renewed first_part valid_csrf check_csrf
    csrf_signature find update_where
renewed_token = refl

auth_session_admits_example :
    (row : AuthSession) × (require_owner_write hashing settings renewed_auth
        (record next { csrf_cookie = some renewed_cookie; csrf_token = some "third" })
        700000000
      ≡ ok row)
auth_session_admits_example =
    auth_session_admits hashing settings after_login renewing
      (record next { csrf_cookie = some renewed_cookie; csrf_token = some "third" }) "third"
      700000000 (record { csrf_token = "third"; set_cookie = some renewed_cookie }) renewed_auth
      renewed_token next_origin refl refl refl refl
