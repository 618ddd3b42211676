-- ===== src/Auth/Limits.antt =====
-- How many attempts the limit lets through.
use bbd_os.Prelude.{
  ℕ, suc, ◌-◌, ◌≤◌, ◌≡◌, refl, arith, String, Bool, true, false, List, [], ◌∷◌, if◌then◌else◌,
  eq_refl, All, sym,
}
use mathlib.Core.Path.{subst}
use bbd_os.Auth.{Hashing, CounterKey, same_key, count, global_key, minute_of, allow_attempt}

-- The attempts from `addresses`, each with its time, one after the other: how many are allowed.
unfoldable pub allowed : Hashing → List CounterKey → String → List (String × ℕ) → ℕ
unfolding allow_attempt
allowed h counters action [] = 0
allowed h counters action ((address, now) ∷ rest) =
    let attempt = allow_attempt h counters action address now in
    let more = allowed h attempt.1 action rest in if attempt.0 then suc more else more

same_key_refl :
    (action : String) (minute : ℕ)
    → same_key (global_key action minute) (global_key action minute) ≡ true
same_key_refl action minute = ground (arith, eq_refl action)

-- An attempt raises the counter of all attempts in its minute by one.
count_all :
    (h : Hashing) (counters : List CounterKey) (action address : String) (now : ℕ)
    → count (global_key action (minute_of now)) (allow_attempt h counters action address now).1
      ≡ suc (count (global_key action (minute_of now)) counters)
unfolding allow_attempt count
count_all h counters action address now = ground (arith, same_key_refl action (minute_of now))

allowed_below :
    (h : Hashing) (counters : List CounterKey) (action address : String) (now : ℕ)
    → (allow_attempt h counters action address now).0 ≡ true
    → suc (count (global_key action (minute_of now)) counters) ≤ 20
unfolding allow_attempt count
allowed_below h counters action address now yes_it =
    ground (arith, same_key_refl action (minute_of now))

nothing_allowed :
    (h : Hashing) (counters : List CounterKey) (action : String) (minute : ℕ)
    → allowed h counters action [] ≤ 20 - count (global_key action minute) counters
unfolding allowed
nothing_allowed h counters action minute = omega arith

allowed-step :
    (h : Hashing) (counters : List CounterKey) (action address : String) (now : ℕ)
    (rest : List (String × ℕ))
    → allowed h counters action ((address, now) ∷ rest) ≡ (
        if (allow_attempt h counters action address now).0
        then suc (allowed h (allow_attempt h counters action address now).1 action rest)
        else allowed h (allow_attempt h counters action address now).1 action rest)
unfolding allowed
allowed-step h counters action address now rest = refl

-- A first attempt that is allowed takes one of the places that are left, another takes none.
first_attempt :
    (more before now_there : ℕ) (passes : Bool)
    → now_there ≡ suc before
    → (passes ≡ true → suc before ≤ 20)
    → more ≤ 20 - now_there
    → (if passes then suc more else more) ≤ 20 - before
first_attempt more before now_there true e below rest = omega (arith, below refl)
first_attempt more before now_there false e below rest = omega arith

-- However many addresses try one action within a minute, at most twenty attempts are allowed, less
-- those that were counted before.
pub allowed_bounded :
    (h : Hashing) (counters : List CounterKey) (action : String) (minute : ℕ)
    (attempts : List (String × ℕ))
    → All (λ a. minute_of a.1 ≡ minute) attempts
    → allowed h counters action attempts ≤ 20 - count (global_key action minute) counters
allowed_bounded h counters action minute [] h₀ = nothing_allowed h counters action minute
allowed_bounded h counters action minute ((address, now) ∷ rest) (same, later) =
    let more =
      allowed_bounded h (allow_attempt h counters action address now).1 action minute rest later in
    subst (λ x. x ≤ 20 - count (global_key action minute) counters)
      (sym (allowed-step h counters action address now rest))
      (first_attempt (allowed h (allow_attempt h counters action address now).1 action rest)
        (count (global_key action minute) counters)
        (count (global_key action minute) (allow_attempt h counters action address now).1)
        (allow_attempt h counters action address now).0
        (subst
          (λ m.
            count (global_key action m) (allow_attempt h counters action address now).1
            ≡ suc (count (global_key action m) counters))
          same (count_all h counters action address now))
        (λ yes_it.
          subst (λ m. suc (count (global_key action m) counters) ≤ 20) same
            (allowed_below h counters action address now yes_it))
        more)
