-- ===== src/Paging/Base64.antt =====
-- base64.urlsafe_b64encode without padding, and b64decode with `altchars` and `validate` as the cursors
-- use them: a text is the list of its code points, and the decoded text must be written back alike.
use bbd_os.Prelude.{
  ℕ, ◌+◌, ◌-◌, ◌*◌, ◌/◌, ◌%◌, ◌<◌, ◌≡◌, refl, ap, arith, Option, none, some, Bool, true, false,
  List, [], ◌∷◌, ◌&&◌, if◌then◌else◌, ◌==◌, ==_refl, ltb, leb, All, Result, ok, err, value_error,
  guard, ◌>>=◌, ◌>>◌,
}

-- The character of six bits.
unfoldable pub letter : ℕ → ℕ
letter v =
    if ltb v 26
    then 65 + v
    else if ltb v 52
    then 71 + v
    else if ltb v 62
    then v - 4
    else if v == 62
    then 45
    else 95

unfoldable pub six_bits : ℕ → Option ℕ
six_bits c =
    if leb 65 c && leb c 90
    then some (c - 65)
    else if leb 97 c && leb c 122
    then some (c - 71)
    else if leb 48 c && leb c 57
    then some (c + 4)
    else if c == 45
    then some 62
    else if c == 95
    then some 63
    else none

unfoldable pub encode : List ℕ → List ℕ
unfolding letter
encode [] = []
encode (a ∷ []) = letter (a / 4) ∷ letter (a % 4 * 16) ∷ []
encode (a ∷ b ∷ []) = letter (a / 4) ∷ letter (a % 4 * 16 + b / 16) ∷ letter (b % 16 * 4) ∷ []
encode (a ∷ b ∷ c ∷ rest) =
    letter (a / 4)
    ∷ letter (a % 4 * 16 + b / 16)
    ∷ letter (b % 16 * 4 + c / 64)
    ∷ letter (c % 64)
    ∷ encode rest

abbrev pub next_bits : Option ℕ → Result (List ℕ) → Result (List ℕ)
next_bits none vs = err value_error
next_bits (some v) (err e) = err e
next_bits (some v) (ok vs) = ok (v ∷ vs)

unfoldable pub all_bits : List ℕ → Result (List ℕ)
unfolding six_bits
all_bits [] = ok []
all_bits (c ∷ rest) = next_bits (six_bits c) (all_bits rest)

abbrev pub three_bytes : ℕ → ℕ → ℕ → ℕ → Result (List ℕ) → Result (List ℕ)
three_bytes s t u v (err e) = err e
three_bytes s t u v (ok rest) =
    ok ((s * 4 + t / 16) ∷ (t % 16 * 16 + u / 4) ∷ (u % 4 * 64 + v) ∷ rest)

-- Four characters are three bytes; two or three at the end are one or two, one is an error.
unfoldable pub to_bytes : List ℕ → Result (List ℕ)
to_bytes [] = ok []
to_bytes (s ∷ []) = err value_error
to_bytes (s ∷ t ∷ []) = ok ((s * 4 + t / 16) ∷ [])
to_bytes (s ∷ t ∷ u ∷ []) = ok ((s * 4 + t / 16) ∷ (t % 16 * 16 + u / 4) ∷ [])
to_bytes (s ∷ t ∷ u ∷ v ∷ rest) = three_bytes s t u v (to_bytes rest)

unfoldable pub same_codes : List ℕ → List ℕ → Bool
same_codes [] [] = true
same_codes [] (c ∷ l) = false
same_codes (c ∷ l) [] = false
same_codes (c ∷ l) (d ∷ m) = c == d && same_codes l m

-- The decoding of a cursor, with the test that it is canonical.
unfoldable pub decode : List ℕ → Result (List ℕ)
unfolding all_bits to_bytes same_codes encode
decode cursor = do
  vs ← all_bits cursor
  raw ← to_bytes vs
  guard (same_codes (encode raw) cursor) value_error
  ok raw

pub six_bits-letter : (v : ℕ) → v < 64 → six_bits (letter v) ≡ some v
unfolding six_bits letter
six_bits-letter v h = ground arith

-- The six bits that the letters of some bytes stand for.
groups : List ℕ → List ℕ
groups [] = []
groups (a ∷ []) = (a / 4) ∷ (a % 4 * 16) ∷ []
groups (a ∷ b ∷ []) = (a / 4) ∷ (a % 4 * 16 + b / 16) ∷ (b % 16 * 4) ∷ []
groups (a ∷ b ∷ c ∷ rest) =
    (a / 4) ∷ (a % 4 * 16 + b / 16) ∷ (b % 16 * 4 + c / 64) ∷ (c % 64) ∷ groups rest

one_letter :
    (v : ℕ) (rest : List ℕ) (vs : List ℕ)
    → v < 64
    → all_bits rest ≡ ok vs
    → all_bits (letter v ∷ rest) ≡ ok (v ∷ vs)
unfolding all_bits
one_letter v rest vs h tail = rw (six_bits-letter v h, tail) refl

no_bits : all_bits [] ≡ ok []
unfolding all_bits
no_bits = refl

all_bits-encode :
    (bytes : List ℕ) → All (λ b. b < 256) bytes → all_bits (encode bytes) ≡ ok (groups bytes)
unfolding encode groups
all_bits-encode [] h = no_bits
all_bits-encode (a ∷ []) (ha, _) =
    one_letter (a / 4) _ _ (omega arith) (one_letter (a % 4 * 16) _ _ (omega arith) no_bits)
all_bits-encode (a ∷ b ∷ []) (ha, (hb, _)) = one_letter (a / 4) _ _ (omega arith) (
    one_letter (a % 4 * 16 + b / 16) _ _ (omega arith)
      (one_letter (b % 16 * 4) _ _ (omega arith) no_bits))
all_bits-encode (a ∷ b ∷ c ∷ rest) (ha, (hb, (hc, h))) = one_letter (a / 4) _ _ (omega arith) (
    one_letter (a % 4 * 16 + b / 16) _ _ (omega arith) (
      one_letter (b % 16 * 4 + c / 64) _ _ (omega arith)
        (one_letter (c % 64) _ _ (omega arith) (all_bits-encode rest h))))

to_bytes-groups : (bytes : List ℕ) → All (λ b. b < 256) bytes → to_bytes (groups bytes) ≡ ok bytes
unfolding to_bytes groups
to_bytes-groups [] h = refl
to_bytes-groups (a ∷ []) (ha, _) = ap (λ x. ok (x ∷ [])) (omega arith)
to_bytes-groups (a ∷ b ∷ []) (ha, (hb, _)) = ground arith
to_bytes-groups (a ∷ b ∷ c ∷ rest) (ha, (hb, (hc, h))) = ground (arith, to_bytes-groups rest h)

pub same_codes_refl : (l : List ℕ) → same_codes l l ≡ true
unfolding same_codes
same_codes_refl [] = refl
same_codes_refl (c ∷ l) = rw (==_refl c) (same_codes_refl l)

-- What was encoded is decoded.
pub decode-encode : (bytes : List ℕ) → All (λ b. b < 256) bytes → decode (encode bytes) ≡ ok bytes
unfolding decode
decode-encode bytes h =
    rw (all_bits-encode bytes h, to_bytes-groups bytes h, same_codes_refl (encode bytes)) refl
