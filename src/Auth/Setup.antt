-- ===== src/Auth/Setup.antt =====
-- The setup of the owner (create_owner in core/auth/routes.py).
use bbd_os.Prelude.{
  ok-injective, sym, ◌∙◌, ℕ, ◌/◌, ◌≡◌, ◌≢◌, refl, ap, String, some, Bool, true, false, not, ◌&&◌,
  str_eq, is_none, guard, ◌>>=◌, ◌>>◌, >>=-ok, Result, ok, err, http,
}
use bbd_os.Database.{second}
use bbd_os.Auth.{
  Hashing, Auth, AuthSettings, AuthRequest, or_empty, origin_allowed, valid_csrf, allow_attempt,
  with_counters,
}

-- The checks behind the limit, and the row that is inserted.
unfoldable pub insert_owner : Hashing → AuthSettings → Auth → AuthRequest → String → ℕ → Result Auth
unfolding valid_csrf
insert_owner h settings auth request password now = do
  valid ← valid_csrf h settings request.csrf_cookie request.csrf_token (now / second)
  guard valid (http 403 "CSRF token is invalid")
  guard (is_none auth.owner) (http 409 "Owner is already configured")
  ok (record auth { owner = some (h.hash_password password) })

-- What is checked before an attempt counts.
unfoldable pub may_set_up : AuthSettings → AuthRequest → Result (Unit {0})
unfolding origin_allowed
may_set_up settings request = do
  guard (not (str_eq settings.setup_token "")) (http 503 "Owner setup is not configured")
  guard (origin_allowed settings request.origin) (http 403 "Origin is not allowed")
  guard
      (not (str_eq (or_empty request.setup_token) "")
        && str_eq settings.setup_token (or_empty request.setup_token))
      (http 403 "Setup token is invalid")

-- What the inserting answers and leaves.
unfoldable pub set_up : Bool → Result Auth → Auth → Result (Unit {0}) × Auth
set_up false answer counted = (err (http 429 "Too many authentication attempts"), counted)
set_up true (err e) counted = (err e, counted)
set_up true (ok auth) counted = (ok tt, auth)

unfoldable pub attempt_setup :
    Result (Unit {0})
    → Hashing
    → AuthSettings
    → Auth
    → AuthRequest
    → String
    → ℕ
    → Result (Unit {0}) × Auth
unfolding allow_attempt insert_owner set_up
attempt_setup (err e) h settings auth request password now = (err e, auth)
attempt_setup (ok done) h settings auth request password now =
    let attempt = allow_attempt h auth.counters "setup" request.address now in
    let counted = with_counters attempt.1 auth in
    set_up attempt.0 (insert_owner h settings counted request password now) counted

unfoldable pub create_owner :
    Hashing → AuthSettings → Auth → AuthRequest → String → ℕ → Result (Unit {0}) × Auth
unfolding may_set_up attempt_setup
create_owner h settings auth request password now =
    attempt_setup (may_set_up settings request) h settings auth request password now

-- An owner is there: nothing is inserted.
insert_owner_refused :
    (h : Hashing) (settings : AuthSettings) (auth : Auth) (request : AuthRequest)
    (password : String) (now : ℕ) (hash : String)
    → auth.owner ≡ some hash
    → (auth' : Auth) → insert_owner h settings auth request password now ≢ ok auth'
unfolding insert_owner
insert_owner_refused h settings auth request password now hash owner auth' is_ok =
    let (valid, _, e₁) =
      >>=-ok (valid_csrf h settings request.csrf_cookie request.csrf_token (now / second)) _
        is_ok in
    let (_, _, e₂) = >>=-ok (guard valid (http 403 "CSRF token is invalid")) _ e₁ in
    let e₃ = rw owner at e₂ in cc

kept :
    (allows : Bool) (answer : Result Auth) (counted : Auth) {x : Unit {0}}
    → ((auth' : Auth) → answer ≢ ok auth')
    → ((set_up allows answer counted).1 ≡ counted) × ((set_up allows answer counted).0 ≢ ok x)
unfolding set_up
kept false answer counted never = (refl, λ h. cc)
kept true (err e) counted never = (refl, λ h. cc)
kept true (ok auth) counted never = absurd (never auth refl)

set_up-ok :
    (allows : Bool) (answer : Result Auth) (counted : Auth) {x : Unit {0}} {auth' : Auth}
    → set_up allows answer counted ≡ (ok x, auth')
    → answer ≡ ok auth'
unfolding set_up
set_up-ok false answer counted h = let refused = ap (λ p. p.0) h in cc
set_up-ok true (err e) counted h = let refused = ap (λ p. p.0) h in cc
set_up-ok true (ok auth) counted h = ap (λ p. ok p.1) h

inserted :
    (h : Hashing) (settings : AuthSettings) (auth : Auth) (request : AuthRequest)
    (password : String) (now : ℕ) (auth' : Auth)
    → insert_owner h settings auth request password now ≡ ok auth'
    → auth'.owner ≡ some (h.hash_password password)
unfolding insert_owner
inserted h settings auth request password now auth' is_ok =
    let (valid, _, e₁) =
      >>=-ok (valid_csrf h settings request.csrf_cookie request.csrf_token (now / second)) _
        is_ok in
    let (_, _, e₂) = >>=-ok (guard valid (http 403 "CSRF token is invalid")) _ e₁ in
    let (_, _, e₃) =
      >>=-ok (guard (is_none auth.owner) (http 409 "Owner is already configured")) _ e₂ in
    ap (λ a. a.owner) (sym (ok-injective e₃))

created :
    (may : Result (Unit {0})) (h : Hashing) (settings : AuthSettings) (auth : Auth)
    (request : AuthRequest) (password : String) (now : ℕ) (auth' : Auth)
    → attempt_setup may h settings auth request password now ≡ (ok tt, auth')
    → auth'.owner ≡ some (h.hash_password password)
unfolding attempt_setup
created (err e) h settings auth request password now auth' is_ok =
    let refused = ap (λ p. p.0) is_ok in cc
created (ok done) h settings auth request password now auth' is_ok =
    inserted h settings _ request password now auth' (set_up-ok _ _ _ is_ok)

refused_again :
    (may : Result (Unit {0})) (h : Hashing) (settings : AuthSettings) (auth : Auth)
    (request : AuthRequest) (password : String) (now : ℕ) (hash : String)
    → auth.owner ≡ some hash
    → ((attempt_setup may h settings auth request password now).0 ≢ ok tt)
      × ((attempt_setup may h settings auth request password now).1.owner ≡ some hash)
unfolding attempt_setup
refused_again (err e) h settings auth request password now hash owner = ((λ h₀. cc), owner)
refused_again (ok done) h settings auth request password now hash owner =
    let counted =
      with_counters (allow_attempt h auth.counters "setup" request.address now).1 auth in
    let (same, never) =
      kept (allow_attempt h auth.counters "setup" request.address now).0
        (insert_owner h settings counted request password now) counted
        (insert_owner_refused h settings counted request password now hash owner) in
    (never, ap (λ a. a.owner) same ∙ owner)

-- After a setup of the owner that succeeds, no later setup succeeds, and the password of the first
-- stays.
pub create_owner_once :
    (h : Hashing) (settings : AuthSettings) (auth : Auth) (request again : AuthRequest)
    (password other_password : String) (now later : ℕ) (auth' : Auth)
    → create_owner h settings auth request password now ≡ (ok tt, auth')
    → ((create_owner h settings auth' again other_password later).0 ≢ ok tt)
      × ((create_owner h settings auth' again other_password later).1.owner
          ≡ some (h.hash_password password))
unfolding create_owner
create_owner_once h settings auth request again password other_password now later auth' is_ok =
    refused_again (may_set_up settings again) h settings auth' again other_password later
      (h.hash_password password)
      (created (may_set_up settings request) h settings auth request password now auth' is_ok)
