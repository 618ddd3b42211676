-- ===== src/Auth/Sessions.antt =====
-- Who has a session: after a logout, and after a login.
use bbd_os.Prelude.{
  ok-injective, guard-true, require-some, ℕ, ◌+◌, ◌*◌, ◌/◌, ◌≤◌, ◌<◌, ◌≡◌, refl, sym, ap, ◌∙◌,
  arith, String, Option, none, some, Bool, true, false, List, [], ◌∷◌, ◌++◌, not, ltb, ◌&&◌,
  eq_refl, eq_iff, str_eq, find, delete_where, is_none, find-true, find-delete_where, find-append,
  require, guard, >>=-ok, Bool-cases, inl, inr, Result, integrity_error, ok, err, http,
}
use mathlib.Core.Path.{ap₂}
use bbd_os.Database.{second}
use bbd_os.Auth.{
  Hashing, Auth, AuthSession, AuthSettings, AuthRequest, CsrfCookie, has_token, current_session,
  require_owner_write, logout, or_empty, csrf_signature, check_csrf, csrf_max_age_seconds,
  login_allowed, login, allow_attempt, limited, with_counters, new_csrf, new_session, valid_csrf,
  origin_allowed,
}

-- The answer to a request without a session.
abbrev pub no_session : Result AuthSession
no_session = err (http 401 "Authentication required")

without_row :
    (h : Hashing) (auth : Auth) (token : String) (now : ℕ)
    → find (has_token (h.sha256 token)) auth.sessions ≡ none
    → current_session h auth (some token) now ≡ no_session
unfolding current_session
without_row h auth token now missing = elim (Bool-cases (str_eq token "")) [
  | inl is_empty ↦ ground arith
  | inr full ↦ ground (arith, missing)
]

-- A session that is found is that of its token, and has not expired.
pub session_found :
    (h : Hashing) (auth : Auth) (token : String) (now : ℕ) (row : AuthSession)
    → current_session h auth (some token) now ≡ ok row
    → find (has_token (h.sha256 token)) auth.sessions ≡ some row
unfolding current_session
session_found h auth token now row is_ok =
    let (_, _, e₁) =
      >>=-ok (guard (not (str_eq token "")) (http 401 "Authentication required")) _ is_ok in
    let (row', found, e₂) =
      >>=-ok
        (require (find (has_token (h.sha256 token)) auth.sessions)
          (http 401 "Authentication required"))
        _ e₁ in
    let (_, _, e₃) =
      >>=-ok (guard (ltb now row'.expires_at) (http 401 "Authentication required")) _ e₂ in
    require-some (find (has_token (h.sha256 token)) auth.sessions)
      (http 401 "Authentication required") (found ∙ e₃)

write_session :
    (h : Hashing) (settings : AuthSettings) (auth : Auth) (request : AuthRequest) (now : ℕ)
    (row : AuthSession)
    → require_owner_write h settings auth request now ≡ ok row
    → current_session h auth request.session_cookie now ≡ ok row
unfolding require_owner_write
write_session h settings auth request now row is_ok =
    let (_, _, e₁) =
      >>=-ok (guard (origin_allowed settings request.origin) (http 403 "Origin is not allowed")) _
        is_ok in
    let (row', found, e₂) = >>=-ok (current_session h auth request.session_cookie now) _ e₁ in
    let (valid, _, e₃) =
      >>=-ok (valid_csrf h settings request.csrf_cookie request.csrf_token (now / second)) _ e₂ in
    let (_, _, e₄) =
      >>=-ok
        (guard (valid && str_eq row'.csrf_hash (h.sha256 (or_empty request.csrf_token)))
          (http 403 "CSRF token is invalid"))
        _ e₃ in
    found ∙ e₄

-- A logout that succeeds ends its session: the token opens none from then on.
pub logout_ends_session :
    (h : Hashing) (settings : AuthSettings) (auth : Auth) (request : AuthRequest) (token : String)
    (now later : ℕ) (auth' : Auth)
    → request.session_cookie ≡ some token
    → logout h settings auth request now ≡ ok auth'
    → current_session h auth' (some token) later ≡ no_session
unfolding logout
logout_ends_session h settings auth request token now later auth' cookie is_ok =
    let (row, written, left) = >>=-ok (require_owner_write h settings auth request now) _ is_ok in
    let found = write_session h settings auth request now row written in
    let stored =
      session_found h auth token now row
        (ap (λ c. current_session h auth c now) (sym cookie) ∙ found) in
    let same =
      (eq_iff row.token_hash (h.sha256 token)).0
        (find-true (has_token (h.sha256 token)) auth.sessions stored) in
    let gone : find (has_token (h.sha256 token))
          (delete_where (has_token row.token_hash) auth.sessions)
        ≡ none =
      ap (λ t. find (has_token (h.sha256 token)) (delete_where (has_token t) auth.sessions)) same
      ∙ find-delete_where (has_token (h.sha256 token)) auth.sessions in
    ap (λ a. current_session h a (some token) later) (sym (ok-injective left))
    ∙ without_row h
        (record auth { sessions = delete_where (has_token row.token_hash) auth.sessions }) token
        later gone

is_none-none {ℓ} : {X : Type ℓ} (o : Option X) → is_none o ≡ true → o ≡ none
is_none-none none h = refl
is_none-none (some x) h = cc

-- A CSRF cookie is only accepted where a secret is configured.
secret_configured :
    (h : Hashing) (settings : AuthSettings) (cookie : Option CsrfCookie) (submitted : Option String)
    (t : ℕ)
    → valid_csrf h settings cookie submitted t ≡ ok true
    → str_eq settings.csrf_signing_secret "" ≡ false
unfolding valid_csrf check_csrf csrf_signature
secret_configured h settings none submitted t is_ok = cc
secret_configured h settings (some cookie) none t is_ok = cc
secret_configured h settings (some cookie) (some submitted) t is_ok =
    elim (Bool-cases (str_eq settings.csrf_signing_secret "")) [
      | inl empty ↦ ground arith
      | inr full ↦ full
    ]

-- The cookie that is set is accepted, with its token, for ten minutes.
pub new_csrf-IsAccepted :
    (h : Hashing) (settings : AuthSettings) (ct : String) (now t : ℕ)
    → str_eq settings.csrf_signing_secret "" ≡ false
    → str_eq ct "" ≡ false
    → now / second ≤ t
    → t < now / second + csrf_max_age_seconds
    → valid_csrf h settings (some (new_csrf h settings.csrf_signing_secret ct now)) (some ct) t
      ≡ ok true
unfolding valid_csrf check_csrf csrf_signature
new_csrf-IsAccepted h settings ct now t secret full after before =
    let same = eq_refl ct in
    let signed =
      eq_refl (h.sign settings.csrf_signing_secret ct (now / second + csrf_max_age_seconds)) in
    ground arith

find-last {ℓ} :
    {X : Type ℓ} (p : X → Bool) (l : List X) (r : X)
    → find p l ≡ none
    → p r ≡ true
    → find p (l ++ r ∷ []) ≡ some r
find-last p l r missing passes = find-append p l r ∙ rw (missing, passes) refl

session_opened :
    (h : Hashing) (settings : AuthSettings) (auth : Auth) (st ct : String) (now later : ℕ)
    (old : List AuthSession)
    → auth.sessions ≡ old ++ new_session h settings st ct now ∷ []
    → find (has_token (h.sha256 st)) old ≡ none
    → str_eq st "" ≡ false
    → later < now + settings.session_lifetime_hours * (3600 * second)
    → current_session h auth (some st) later ≡ ok (new_session h settings st ct now)
unfolding current_session
session_opened h settings auth st ct now later old made fresh full before =
    let same = eq_refl (h.sha256 st) in
    let found : find (has_token (h.sha256 st)) auth.sessions
        ≡ some (new_session h settings st ct now) =
      ap (find (has_token (h.sha256 st))) made
      ∙ find-last (has_token (h.sha256 st)) old (new_session h settings st ct now) fresh same in
    let alive : ltb later (now + settings.session_lifetime_hours * (3600 * second)) ≡ true =
      ground arith in
    rw (full, found, alive) refl

-- A login that is answered has made the session, with the cookie, and was asked with a secret configured.
login_made :
    (h : Hashing) (settings : AuthSettings) (auth : Auth) (request : AuthRequest)
    (password st ct : String) (now : ℕ) (cookie : CsrfCookie) (auth' : Auth)
    → login_allowed h settings auth request password st ct now ≡ ok (cookie, auth')
    → (find (has_token (h.sha256 st)) auth.sessions ≡ none)
      × (cookie ≡ new_csrf h settings.csrf_signing_secret ct now)
      × (auth'.sessions ≡ auth.sessions ++ new_session h settings st ct now ∷ [])
      × (valid_csrf h settings request.csrf_cookie request.csrf_token (now / second) ≡ ok true)
unfolding login_allowed
login_made h settings auth request password st ct now cookie auth' is_ok =
    let (valid, v, e₁) =
      >>=-ok (valid_csrf h settings request.csrf_cookie request.csrf_token (now / second)) _
        is_ok in
    let (_, g, e₂) = >>=-ok (guard valid (http 403 "CSRF token is invalid")) _ e₁ in
    let (password_hash, _, e₃) =
      >>=-ok (require auth.owner (http 401 "Email or password is incorrect")) _ e₂ in
    let (_, _, e₄) =
      >>=-ok
        (guard (h.verify_password password_hash password)
          (http 401 "Email or password is incorrect"))
        _ e₃ in
    let (_, fresh, e₅) =
      >>=-ok (guard (is_none (find (has_token (h.sha256 st)) auth.sessions)) integrity_error) _
        e₄ in
    let made = ok-injective e₅ in
    (
      is_none-none (find (has_token (h.sha256 st)) auth.sessions)
          (guard-true _ integrity_error fresh),
      ap (λ p. p.0) (sym made),
      ap (λ p. p.1.sessions) (sym made),
      v ∙ ap ok (guard-true valid (http 403 "CSRF token is invalid") g),
    )

limited-ok :
    (allows : Bool) (answer : Result (CsrfCookie × Auth)) (counted : Auth) {cookie : CsrfCookie}
    {auth' : Auth}
    → limited allows answer counted ≡ (ok cookie, auth')
    → answer ≡ ok (cookie, auth')
unfolding limited
limited-ok false answer counted h = let refused = ap (λ p. p.0) h in cc
limited-ok true (err e) counted h = let refused = ap (λ p. p.0) h in cc
limited-ok true (ok (cookie, auth')) counted h =
    ap ok (ap₂ (λ c a. (c, a)) (ok-injective (ap (λ p. p.0) h)) (ap (λ p. p.1) h))

login_allowed_first :
    (h : Hashing) (settings : AuthSettings) (auth : Auth) (request : AuthRequest)
    (password st ct : String) (now : ℕ) (cookie : CsrfCookie) (auth' : Auth)
    → login h settings auth request password st ct now ≡ (ok cookie, auth')
    → login_allowed h settings
        (with_counters (allow_attempt h auth.counters "login" request.address now).1 auth)
        request
        password
        st
        ct
        now
      ≡ ok (cookie, auth')
unfolding login
login_allowed_first h settings auth request password st ct now cookie auth' is_ok =
    elim (Bool-cases (origin_allowed settings request.origin)) [
      | inl allowed ↦ limited-ok _ _ _ (rw allowed at is_ok)
      | inr refused ↦ let no_cookie = ap (λ p. p.0) (rw refused at is_ok) in cc
    ]

pub write_allowed :
    (h : Hashing) (settings : AuthSettings) (auth : Auth) (request : AuthRequest) (ct : String)
    (now : ℕ) (row : AuthSession)
    → origin_allowed settings request.origin ≡ true
    → current_session h auth request.session_cookie now ≡ ok row
    → valid_csrf h settings request.csrf_cookie request.csrf_token (now / second) ≡ ok true
    → request.csrf_token ≡ some ct
    → row.csrf_hash ≡ h.sha256 ct
    → require_owner_write h settings auth request now ≡ ok row
unfolding require_owner_write
write_allowed h settings auth request ct now row origin session valid token hash =
    let same : str_eq row.csrf_hash (h.sha256 (or_empty request.csrf_token)) ≡ true =
      (eq_iff row.csrf_hash (h.sha256 (or_empty request.csrf_token))).1
        (hash ∙ ap (λ t. h.sha256 (or_empty t)) (sym token)) in
    rw (origin, session, valid, same) refl

seconds_mono : (a b : ℕ) → a ≤ b → a / second ≤ b / second
seconds_mono a b h = omega arith

-- After a login that is answered, a request with the session token, the CSRF cookie and its token is
-- let through, from the allowed origin, until the cookie or the session expires.
pub login_opens_session :
    (h : Hashing) (settings : AuthSettings) (auth : Auth) (request next : AuthRequest)
    (password st ct : String) (now later : ℕ) (cookie : CsrfCookie) (auth' : Auth)
    → login h settings auth request password st ct now ≡ (ok cookie, auth')
    → origin_allowed settings next.origin ≡ true
    → next.session_cookie ≡ some st
    → next.csrf_cookie ≡ some cookie
    → next.csrf_token ≡ some ct
    → str_eq st "" ≡ false
    → str_eq ct "" ≡ false
    → now ≤ later
    → later / second < now / second + csrf_max_age_seconds
    → later < now + settings.session_lifetime_hours * (3600 * second)
    → require_owner_write h settings auth' next later ≡ ok (new_session h settings st ct now)
login_opens_session h settings auth request next password st ct now later cookie auth' is_ok origin
      session_cookie csrf_cookie csrf_token st_full ct_full after csrf_alive session_alive =
    let counted =
      with_counters (allow_attempt h auth.counters "login" request.address now).1 auth in
    let (fresh, cookie_made, stored, asked) =
      login_made h settings counted request password st ct now cookie auth'
        (login_allowed_first h settings auth request password st ct now cookie auth' is_ok) in
    let opened =
      session_opened h settings auth' st ct now later auth.sessions stored fresh st_full
        session_alive in
    let accepted =
      new_csrf-IsAccepted h settings ct now (later / second)
        (secret_configured h settings request.csrf_cookie request.csrf_token (now / second) asked)
        ct_full (seconds_mono now later after) csrf_alive in
    write_allowed h settings auth' next ct later (new_session h settings st ct now) origin
      (ap (λ c. current_session h auth' c later) session_cookie ∙ opened)
      (ap₂ (λ c t. valid_csrf h settings c t (later / second)) (csrf_cookie ∙ ap some cookie_made)
          csrf_token
        ∙ accepted)
      csrf_token refl
