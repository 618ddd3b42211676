-- ===== src/Paging/Cursors.antt =====
-- The cursors of versions (encode_version_cursor and decode_version_cursor in
-- modules/knowledge/documents/public.py): the base64 of a decimal number, read by Python's int().
use bbd_os.Prelude.{
  ℕ, zero, suc, ◌+◌, ◌-◌, ◌*◌, ◌/◌, ◌%◌, ◌≤◌, ◌<◌, ◌≡◌, refl, ap, ◌∙◌, arith, Option, none, some,
  Bool, Bool-cases, inl, inr, true, false, List, [], ◌∷◌, ◌&&◌, ◌||◌, not, if◌then◌else◌, ◌==◌, ltb,
  leb, all, All, All-mono, Result, ok, err, http,
}
use bbd_os.Paging.Base64.{encode, decode, decode-encode}

-- `str(n)`: the decimal digits of `n`, before those of `tail`. A number has fewer digits than `n + 1`.
unfoldable pub digits : ℕ → ℕ → List ℕ → List ℕ
digits zero n tail = tail
digits (suc fuel) n tail =
    let more = digits fuel (n / 10) ((48 + n % 10) ∷ tail) in
    if ltb n 10 then (48 + n) ∷ tail else more

abbrev pub decimal : ℕ → List ℕ
decimal n = digits (suc n) n []

abbrev pub is_digit : ℕ → Bool
is_digit c = leb 48 c && leb c 57

-- The white space of a text of bytes.
abbrev pub is_byte_space : ℕ → Bool
is_byte_space c = leb 9 c && leb c 13 || c == 32

-- The digits of a number, with single underscores between them, and white space behind them.
unfoldable pub read_digits : ℕ → Bool → List ℕ → Option ℕ
read_digits value after_digit [] = if after_digit then some value else none
read_digits value after_digit (c ∷ rest) =
    let next =
      read_digits (if is_digit c then value * 10 + (c - 48) else value) (is_digit c) rest in
    if is_digit c || c == 95 && after_digit
    then next
    else if after_digit && is_byte_space c && all is_byte_space rest
    then some value
    else none

unfoldable pub skip_space : List ℕ → List ℕ
skip_space [] = []
skip_space (c ∷ rest) = let next = skip_space rest in if is_byte_space c then next else c ∷ rest

abbrev pub negate : Option ℕ → Option (Bool × ℕ)
negate none = none
negate (some n) = some (true, n)

abbrev pub positive : Option ℕ → Option (Bool × ℕ)
positive none = none
positive (some n) = some (false, n)

-- The sign, and whether the number is negative.
unfoldable pub read_signed : List ℕ → Option (Bool × ℕ)
unfolding read_digits
read_signed [] = none
read_signed (c ∷ rest) =
    if c == 45
    then negate (read_digits 0 false rest)
    else if c == 43
    then positive (read_digits 0 false rest)
    else positive (read_digits 0 false (c ∷ rest))

-- `int(raw)`
unfoldable pub read_int : List ℕ → Option (Bool × ℕ)
unfolding read_signed skip_space
read_int raw = read_signed (skip_space raw)

unfoldable pub encode_version_cursor : ℕ → List ℕ
unfolding digits encode
encode_version_cursor n = encode (decimal n)

abbrev pub invalid_cursor {ℓ} : {A : Type ℓ} → Result A
invalid_cursor = err (http 422 "Invalid cursor")

abbrev pub in_range : Option (Bool × ℕ) → Result ℕ
in_range none = invalid_cursor
in_range (some (negative, n)) =
    if not negative && leb 1 n && leb n 2147483647 then ok n else invalid_cursor

abbrev pub read_raw : Result (List ℕ) → Result ℕ
read_raw (err e) = invalid_cursor
read_raw (ok raw) = in_range (read_int raw)

unfoldable pub decode_version_cursor : List ℕ → Result ℕ
unfolding decode read_int
decode_version_cursor cursor = read_raw (decode cursor)

one_digit :
    (value d : ℕ) (after : Bool) (tail : List ℕ)
    → d < 10
    → read_digits value after ((48 + d) ∷ tail) ≡ read_digits (value * 10 + d) true tail
unfolding read_digits
one_digit value d after tail h =
    let digit : is_digit (48 + d) ≡ true = ground arith in
    rw digit (ap (λ v. read_digits v true tail) (omega arith))

read_digits-digits :
    (fuel n : ℕ) (after : Bool) (tail : List ℕ)
    → n < fuel
    → read_digits 0 after (digits fuel n tail) ≡ read_digits n true tail
unfolding digits
read_digits-digits zero n after tail h = absurd (omega arith)
read_digits-digits (suc fuel) n after tail h = elim (Bool-cases (ltb n 10)) [
  | inl small ↦
      rw small
        (one_digit 0 n after tail (ground arith) ∙ ap (λ v. read_digits v true tail) (omega arith))
  | inr large ↦ rw large (
      read_digits-digits fuel (n / 10) after ((48 + n % 10) ∷ tail) (ground arith)
      ∙ one_digit (n / 10) (n % 10) true tail (omega arith)
      ∙ ap (λ v. read_digits v true tail) (omega arith))
]

-- The digits begin with a digit.
first_digit :
    (fuel n : ℕ) (tail : List ℕ)
    → n < fuel
    → (c : ℕ) × (rest : List ℕ) × (digits fuel n tail ≡ c ∷ rest) × (48 ≤ c) × (c ≤ 57)
unfolding digits
first_digit zero n tail h = absurd (omega arith)
first_digit (suc fuel) n tail h = elim (Bool-cases (ltb n 10)) [
  | inl small ↦ (48 + n, tail, rw small refl, omega arith, ground arith)
  | inr large ↦
      let (c, rest, e, low, high) =
        first_digit fuel (n / 10) ((48 + n % 10) ∷ tail) (ground arith) in
      (c, rest, rw large e, low, high)
]

-- They are characters of ASCII.
pub digits_ascii :
    (fuel n : ℕ) (tail : List ℕ) → All (λ b. b < 128) tail → All (λ b. b < 128) (digits fuel n tail)
unfolding digits
digits_ascii zero n tail h = h
digits_ascii (suc fuel) n tail h = elim (Bool-cases (ltb n 10)) [
  | inl small ↦ rw small (ground arith, h)
  | inr large ↦ rw large (digits_ascii fuel (n / 10) ((48 + n % 10) ∷ tail) (omega arith, h))
]

starts_signed :
    (l : List ℕ) (c : ℕ) (rest : List ℕ)
    → l ≡ c ∷ rest
    → 48 ≤ c
    → c ≤ 57
    → read_int l ≡ positive (read_digits 0 false l)
unfolding read_int skip_space read_signed
starts_signed l c rest e low high =
    let no_space : is_byte_space c ≡ false = ground arith in
    let no_minus : (c == 45) ≡ false = ground arith in
    let no_plus : (c == 43) ≡ false = ground arith in rw e (rw (no_space, no_minus, no_plus) refl)

all_read : (n : ℕ) → read_digits n true [] ≡ some n
unfolding read_digits
all_read n = refl

pub read_int-decimal : (n : ℕ) → read_int (decimal n) ≡ some (false, n)
read_int-decimal n =
    let (c, rest, e, at_least, at_most) = first_digit (suc n) n [] (omega arith) in
    starts_signed (decimal n) c rest e at_least at_most
    ∙ ap positive (read_digits-digits (suc n) n false [] (omega arith) ∙ all_read n)

in_bounds : (n : ℕ) → 1 ≤ n → n ≤ 2147483647 → (leb 1 n && leb n 2147483647) ≡ true
in_bounds n low high = ground arith

-- The cursor that stands for a version number is read as that number, in the range of the column.
pub decode_version_cursor-encode_version_cursor :
    (n : ℕ) → 1 ≤ n → n ≤ 2147483647 → decode_version_cursor (encode_version_cursor n) ≡ ok n
unfolding decode_version_cursor encode_version_cursor
decode_version_cursor-encode_version_cursor n low high =
    let bytes : All (λ b. b < 256) (decimal n) =
      All-mono (λ b (h : b < 128). omega arith) (decimal n) (digits_ascii (suc n) n [] tt) in
    rw (decode-encode (decimal n) bytes) (rw (read_int-decimal n, in_bounds n low high) refl)
