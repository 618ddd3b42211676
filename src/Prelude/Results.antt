-- ===== src/Prelude/Results.antt =====
-- Python's exceptions as values, and the chaining of computations that may raise.
use Prim.Native.Nat.{ℕ}
use Prim.Native.String.{String}
use mathlib.Core.Path.{◌≡◌, refl}
use mathlib.Core.Bool.{Bool, true, false}
use mathlib.Core.Option.{Option, none, some}

pub data Error : Type 0 where
  http : ℕ → String → Error
  value_error lookup_error runtime_error key_error name_error integrity_error : Error
  model_gateway_error privacy_policy_denied capability_unsupported : String → Error
  redis_error transport_error : Error
  timeout_error os_error index_error out_of_fuel : Error

-- What a call comes to: the exception that it raises, or the value that it returns.
pub data Result {ℓ} (X : Type ℓ) : Type ℓ where
  err : (raised : Error) → Result X
  ok : (returned : X) → Result X

-- `if value is None: raise e`
abbrev pub require {ℓ} : {X : Type ℓ} → Option X → Error → Result X
require (some x) e = ok x
require none e = err e

-- `if not test: raise e`
abbrev pub guard : Bool → Error → Result (Unit {0})
guard false e = err e
guard true e = ok tt

infixl 5 ◌>>=◌ ◌>>◌
abbrev pub ◌>>=◌ {ℓ κ} : {X : Type ℓ} {Y : Type κ} → Result X → (X → Result Y) → Result Y
err e >>= rest = err e
ok x >>= rest = rest x

-- The lines after a check.
abbrev pub ◌>>◌ {ℓ} : {Y : Type ℓ} → Result (Unit {0}) → Result Y → Result Y
check >> rest = check >>= λ done. rest

-- A chain that returns: its first part returned, and so did the rest.
pub >>=-ok {ℓ κ} :
    {X : Type ℓ} {Y : Type κ} (first : Result X) (rest : X → Result Y) {y : Y}
    (h : (first >>= rest) ≡ ok y)
    → (x : X) × (first ≡ ok x) × (rest x ≡ ok y)
>>=-ok (err e) rest h = cc
>>=-ok (ok x) rest h = (x, refl, h)

pub require-some {ℓ} :
    {X : Type ℓ} (o : Option X) (e : Error) {x : X} → require o e ≡ ok x → o ≡ some x
require-some (some y) e h = cc
require-some none e h = cc

pub ok-injective {ℓ} : {X : Type ℓ} {x y : X} → ok x ≡ ok y → x ≡ y
ok-injective h = cc

pub guard-true : (b : Bool) (e : Error) {x : Unit {0}} → guard b e ≡ ok x → b ≡ true
guard-true true e h = refl
guard-true false e h = cc
