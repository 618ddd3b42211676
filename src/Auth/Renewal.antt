-- ===== src/Auth/Renewal.antt =====
-- auth_session in core/auth/routes.py: a client that has a session asks for a CSRF token, which is the one
-- of its cookie where that is still good, and else a new one.
use bbd_os.Prelude.{
  ℕ, ◌+◌, ◌/◌, ◌≡◌, refl, sym, ap, ◌∙◌, inl, inr, arith, String, Option, none, some, Bool,
  Bool-cases, true, false, List, [], ◌∷◌, ◌&&◌, if◌then◌else◌, eq_refl, eq_iff, str_eq, first_part,
  find, update_where, >>=-ok, ok-injective, Result, ok, ◌>>=◌, if_true, if_false, ltb,
}
use mathlib.Core.Path.{ap₂}
use bbd_os.Database.{second}
use bbd_os.Auth.{
  Hashing, Auth, AuthSession, AuthSettings, AuthRequest, CsrfCookie, has_token, current_session,
  require_owner_write, origin_allowed, csrf_signature, csrf_max_age_seconds, new_csrf, valid_csrf,
}
use bbd_os.Auth.Sessions.{new_csrf-IsAccepted, write_allowed, session_found}

-- Whether the token of the cookie is kept. The token is what stands before the first dot.
unfoldable pub keeps_token :
    Hashing → AuthSettings → AuthSession → Option CsrfCookie → ℕ → Result Bool
unfolding valid_csrf first_part
keeps_token h settings row none now = ok false
keeps_token h settings row (some cookie) now =
    let token = first_part cookie.token in
    if str_eq token ""
    then ok false
    else (valid_csrf h settings (some cookie) (some token) (now / second) >>= λ valid.
        ok (valid && str_eq row.csrf_hash (h.sha256 token)))

abbrev pub with_hash : String → AuthSession → AuthSession
with_hash csrf_hash row = record row { csrf_hash = csrf_hash }

abbrev pub token_of : Option CsrfCookie → String
token_of none = ""
token_of (some cookie) = first_part cookie.token

-- What a client gets: the token and, where it is new, the cookie.
pub record AuthState : Type 0 where
  pub csrf_token : String
  pub set_cookie : Option CsrfCookie

unfoldable pub renewed :
    Hashing → AuthSettings → Auth → AuthSession → String → ℕ → Result (AuthState × Auth)
unfolding csrf_signature update_where
renewed h settings auth row token now = do
  signature ← csrf_signature h settings token (now / second + csrf_max_age_seconds)
  ok (
    record {
      csrf_token = token;
      set_cookie = some (new_csrf h settings.csrf_signing_secret token now);
    },
    record auth {
      sessions = update_where (has_token row.token_hash) (with_hash (h.sha256 token)) auth.sessions;
    },
  )

unfoldable pub auth_session :
    Hashing → AuthSettings → Auth → AuthRequest → String → ℕ → Result (AuthState × Auth)
unfolding current_session keeps_token renewed
auth_session h settings auth request token now = do
  row ← current_session h auth request.session_cookie now
  keeps ← keeps_token h settings row request.csrf_cookie now
  if keeps
      then ok (record { csrf_token = token_of request.csrf_cookie; set_cookie = none }, auth)
      else renewed h settings auth row token now

-- The cookie that a client holds after an answer.
abbrev pub held : Option CsrfCookie → Option CsrfCookie → Option CsrfCookie
held none old = old
held (some cookie) old = some cookie

-- A token that is kept is accepted with its cookie, and is that of the session.
kept_token :
    (h : Hashing) (settings : AuthSettings) (row : AuthSession) (cookie : Option CsrfCookie)
    (now : ℕ)
    → keeps_token h settings row cookie now ≡ ok true
    → (valid_csrf h settings cookie (some (token_of cookie)) (now / second) ≡ ok true)
      × (row.csrf_hash ≡ h.sha256 (token_of cookie))
unfolding keeps_token
kept_token h settings row none now kept = cc
kept_token h settings row (some cookie) now kept =
    let token = first_part cookie.token in
    elim (Bool-cases (str_eq token "")) [
      | inl is_empty ↦ let wrong = sym (if_true _ _ is_empty) ∙ kept in cc
      | inr full ↦
          let (valid, checked, e) =
            >>=-ok (valid_csrf h settings (some cookie) (some token) (now / second)) _
              (sym (if_false _ _ full) ∙ kept) in
          let both : (valid && str_eq row.csrf_hash (h.sha256 token)) ≡ true = ok-injective e in
          let is_valid : valid ≡ true = ground arith in
          let same : str_eq row.csrf_hash (h.sha256 token) ≡ true = ground arith in
          (checked ∙ ap ok is_valid, (eq_iff row.csrf_hash (h.sha256 token)).0 same)
    ]

some-injective : {A : Type 0} {x y : A} → some x ≡ some y → x ≡ y
some-injective e = cc

-- The first session with a token gets the new hash.
find-update_where :
    (t t' hash : String) (l : List AuthSession) (row : AuthSession)
    → find (has_token t) l ≡ some row
    → has_token t' row ≡ true
    → find (has_token t) (update_where (has_token t') (with_hash hash) l)
      ≡ some (with_hash hash row)
unfolding find update_where
find-update_where t t' hash [] row found same = cc
find-update_where t t' hash (x ∷ l) row found same = elim (Bool-cases (str_eq x.token_hash t)) [
  | inl here ↦
      let e : x ≡ row = some-injective (sym (if_true _ _ here) ∙ found) in
      let changed : has_token t' x ≡ true = ap (has_token t') e ∙ same in
      rw changed (rw here (ap (λ r. some (with_hash hash r)) e))
  | inr there ↦
      let rest = find-update_where t t' hash l row (sym (if_false _ _ there) ∙ found) same in
      elim (Bool-cases (str_eq x.token_hash t')) [
        | inl changed ↦ rw changed (rw there rest)
        | inr as_it_was ↦ rw as_it_was (rw there rest)
      ]
]

module _ (h : Hashing) (settings : AuthSettings) (auth : Auth) (token : String) (now : ℕ)
    (row : AuthSession) where
  secret_full :
      (answer : AuthState × Auth)
      → renewed h settings auth row token now ≡ ok answer
      → (str_eq settings.csrf_signing_secret "" ≡ false)
        × (answer.0.csrf_token ≡ token)
        × (answer.0.set_cookie ≡ some (new_csrf h settings.csrf_signing_secret token now))
        × (answer.1 ≡ record auth {
          sessions =
              update_where (has_token row.token_hash) (with_hash (h.sha256 token)) auth.sessions;
        })
  unfolding renewed csrf_signature
  secret_full answer is_ok = elim (Bool-cases (str_eq settings.csrf_signing_secret "")) [
    | inl empty ↦ let wrong = rw empty at is_ok in cc
    | inr full ↦
        let e = ok-injective (rw full at is_ok) in
        (
          full,
          ap (λ (p : AuthState × Auth). p.0.csrf_token) (sym e),
          ap (λ (p : AuthState × Auth). p.0.set_cookie) (sym e),
          ap (λ (p : AuthState × Auth). p.1) (sym e),
        )
  ]

  -- The session with the new hash is found by the same cookie.
  still_open :
      (cookie : Option String)
      → current_session h auth cookie now ≡ ok row
      → current_session h
          (record auth {
            sessions =
                update_where (has_token row.token_hash) (with_hash (h.sha256 token)) auth.sessions;
          })
          cookie
          now
        ≡ ok (with_hash (h.sha256 token) row)
  unfolding current_session
  still_open none is_ok = cc
  still_open (some st) is_ok =
      let stored = session_found h auth st now row is_ok in
      let found =
        find-update_where (h.sha256 st) row.token_hash (h.sha256 token) auth.sessions row stored
          (eq_refl row.token_hash) in
      elim (Bool-cases (str_eq st "")) [
        | inl empty ↦ let wrong = rw empty at is_ok in cc
        | inr full ↦ elim (Bool-cases (ltb now row.expires_at)) [
          | inl alive ↦ rw full (rw found (rw alive refl))
          | inr expired ↦ let wrong = rw (full, stored, expired) at is_ok in cc
        ]
      ]

-- A client that has a session and asks for a CSRF token can write: a request with its session cookie, the
-- CSRF cookie that it holds then and the token is let through, from the allowed origin, at the same time.
-- A token that is drawn is not empty.
pub auth_session_admits :
    (h : Hashing) (settings : AuthSettings) (auth : Auth) (request next : AuthRequest)
    (token : String) (now : ℕ) (answer : AuthState) (auth' : Auth)
    → auth_session h settings auth request token now ≡ ok (answer, auth')
    → origin_allowed settings next.origin ≡ true
    → next.session_cookie ≡ request.session_cookie
    → next.csrf_cookie ≡ held answer.set_cookie request.csrf_cookie
    → next.csrf_token ≡ some answer.csrf_token
    → str_eq token "" ≡ false
    → (row : AuthSession) × (require_owner_write h settings auth' next now ≡ ok row)
unfolding auth_session
auth_session_admits h settings auth request next token now answer auth' is_ok origin session_cookie
      csrf_cookie csrf_token full =
    let (row, open_session, e₁) =
      >>=-ok (current_session h auth request.session_cookie now) _ is_ok in
    let (keeps, kept, e₂) = >>=-ok (keeps_token h settings row request.csrf_cookie now) _ e₁ in
    elim (Bool-cases keeps) [
      | inl keep ↦
          let e = ok-injective (sym (if_true _ _ keep) ∙ e₂) in
          let (valid, same) =
            kept_token h settings row request.csrf_cookie now (kept ∙ ap ok keep) in
          let submitted : answer.csrf_token ≡ token_of request.csrf_cookie =
            ap (λ (p : AuthState × Auth). p.0.csrf_token) (sym e) in
          let cookie : next.csrf_cookie ≡ request.csrf_cookie =
            csrf_cookie
            ∙ ap (λ (p : AuthState × Auth). held p.0.set_cookie request.csrf_cookie) (sym e) in
          let found : current_session h auth' next.session_cookie now ≡ ok row =
            ap₂ (λ a c. current_session h a c now) (ap (λ (p : AuthState × Auth). p.1) (sym e))
              session_cookie
            ∙ open_session in
          (
            row,
            write_allowed h settings auth' next answer.csrf_token now row origin found
                (ap₂ (λ c t. valid_csrf h settings c t (now / second)) cookie
                    (csrf_token ∙ ap some submitted)
                  ∙ valid)
                csrf_token (same ∙ ap h.sha256 (sym submitted)),
          )
      | inr fresh ↦
          let (secret, submitted, set, stored) =
            secret_full h settings auth token now row (answer, auth')
              (sym (if_false _ _ fresh) ∙ e₂) in
          let cookie : next.csrf_cookie ≡ some (new_csrf h settings.csrf_signing_secret token now) =
            csrf_cookie ∙ ap (λ c. held c request.csrf_cookie) set in
          let found : current_session h auth' next.session_cookie now
              ≡ ok (with_hash (h.sha256 token) row) =
            ap₂ (λ a c. current_session h a c now) stored session_cookie
            ∙ still_open h settings auth token now row request.session_cookie open_session in
          (
            with_hash (h.sha256 token) row,
            write_allowed h settings auth' next answer.csrf_token now
                (with_hash (h.sha256 token) row) origin found
                (ap₂ (λ c t. valid_csrf h settings c t (now / second)) cookie
                    (csrf_token ∙ ap some submitted)
                  ∙ new_csrf-IsAccepted h settings token now (now / second) secret full
                      (omega arith) (omega arith))
                csrf_token (ap h.sha256 (sym submitted)),
          )
    ]
