-- ===== src/Tests/Times.antt =====
-- A way to write times that can be read back: as many strokes behind a first one.
use Prim.Native.Nat.{ℕ, zero, suc}
use Prim.Native.String.{String, [], ◌∷◌}
use bbd_os.Prelude.{◌≡◌, refl, ap, Option, none, some, false, str_eq, eq_iff, Bool-cases, inl, inr}

strokes : ℕ → String
strokes zero = []
strokes (suc n) = "|" ∷ strokes n

count : String → ℕ
count [] = zero
count (c ∷ s) = suc (count s)

pub write_time : ℕ → String
unfolding strokes
write_time t = "|" ∷ strokes t

pub read_time : String → Option ℕ
unfolding count
read_time [] = none
read_time (c ∷ s) = some (count s)

count-strokes : (n : ℕ) → count (strokes n) ≡ n
unfolding count strokes
count-strokes zero = refl
count-strokes (suc n) = ap suc (count-strokes n)

pub read-write_time : (t : ℕ) → read_time (write_time t) ≡ some t
unfolding read_time write_time
read-write_time t = ap some (count-strokes t)

pub write_time-nonempty : (t : ℕ) → str_eq (write_time t) "" ≡ false
unfolding read_time write_time
write_time-nonempty t = elim (Bool-cases (str_eq (write_time t) "")) [
  | inl empty ↦ let same = ap read_time ((eq_iff (write_time t) "").0 empty) in cc
  | inr nonempty ↦ nonempty
]
