-- ===== src/Search/Querying/Cursor.antt =====
-- The cursor that a search returns is accepted by the search for the next page.
use bbd_os.Prelude.{
  ℕ, suc, ◌+◌, ◌*◌, ◌/◌, ◌%◌, ◌≤◌, ◌<◌, ◌≡◌, refl, ap, ◌∙◌, arith, some, Bool, true, false, List,
  [], ◌∷◌, ◌++◌, ◌&&◌, ◌||◌, ◌==◌, leb, ltb, all, All, All-mono, All-append, ok,
}
use bbd_os.Chunking.Utf8.{clean, feed}
use bbd_os.Chunking.Utf8.{decode as decode_utf8}
use bbd_os.Paging.Base64.{letter, encode, same_codes_refl, six_bits-letter}
use bbd_os.Paging.Cursors.{decimal, digits_ascii, read_int-decimal}
use bbd_os.Search.Querying.Offsets.{
  Question, reading, bits, emit, left_of, byte_before, urlsafe_b64decode, padding, equal_signs,
  split_colon, encode_search_cursor, read_offset, any_bits, max_ranked_candidates,
}

not_plus : (v : ℕ) → v < 64 → (letter v == 43) ≡ false
unfolding letter
not_plus v h = ground arith

not_slash : (v : ℕ) → v < 64 → (letter v == 47) ≡ false
unfolding letter
not_slash v h = ground arith

not_special : (v : ℕ) → v < 64 → (letter v == 61) ≡ false
unfolding letter
not_special v h = ground arith

is_read : (v : ℕ) → v < 64 → any_bits (letter v) ≡ some v
is_read v h = rw (not_plus v h, not_slash v h) (six_bits-letter v h)

reading-letter : (q pads v : ℕ) → v < 64 → reading q pads (letter v) ≡ bits v
unfolding reading
reading-letter q pads v h = rw (not_special v h, is_read v h) refl

take_letter :
    (q left pads v : ℕ) (rest : List ℕ)
    → v < 64
    → urlsafe_b64decode q left pads (letter v ∷ rest)
      ≡ emit q left v (urlsafe_b64decode ((q + 1) % 4) (left_of q v) 0 rest)
unfolding urlsafe_b64decode
take_letter q left pads v rest h = rw (reading-letter q pads v h, urlsafe_b64decode) refl

one_byte :
    (left pads s t : ℕ) (rest : List ℕ)
    → s < 64
    → t < 64
    → urlsafe_b64decode 0 left pads (letter s ∷ letter t ∷ rest)
      ≡ byte_before (s * 4 + t / 16) (urlsafe_b64decode 2 (t % 16) 0 rest)
unfolding emit
one_byte left pads s t rest hs ht =
    take_letter 0 left pads s (letter t ∷ rest) hs ∙ take_letter 1 s 0 t rest ht

-- The signs of equality end the text.
at_end : (left pads : ℕ) → urlsafe_b64decode 2 left pads (61 ∷ 61 ∷ []) ≡ ok []
unfolding urlsafe_b64decode reading
at_end left pads = ground arith

at_end_three : (left : ℕ) → urlsafe_b64decode 3 left 0 (61 ∷ []) ≡ ok []
unfolding urlsafe_b64decode reading
at_end_three left = ground arith

padding_four : (a b c d : ℕ) (l : List ℕ) → padding (a ∷ b ∷ c ∷ d ∷ l) ≡ padding l
padding_four a b c d l = ap (λ n. equal_signs n) (omega arith)

urlsafe_b64decode-encode :
    (bytes : List ℕ) (left pads : ℕ)
    → All (λ b. b < 256) bytes
    → urlsafe_b64decode 0 left pads (encode bytes ++ padding (encode bytes)) ≡ ok bytes
unfolding encode emit urlsafe_b64decode
urlsafe_b64decode-encode [] left pads h = refl
urlsafe_b64decode-encode (a ∷ []) left pads (ha, _) =
    one_byte left pads (a / 4) (a % 4 * 16) (61 ∷ 61 ∷ []) (omega arith) (omega arith)
    ∙ ap (byte_before _) (at_end (a % 4 * 16 % 16) 0)
    ∙ ap (λ x. ok (x ∷ [])) (omega arith)
urlsafe_b64decode-encode (a ∷ b ∷ []) left pads (ha, (hb, _)) =
    one_byte left pads (a / 4) (a % 4 * 16 + b / 16) (letter (b % 16 * 4) ∷ 61 ∷ []) (omega arith)
      (omega arith)
    ∙ ap (byte_before (a / 4 * 4 + (a % 4 * 16 + b / 16) / 16)) (
        take_letter 2 ((a % 4 * 16 + b / 16) % 16) 0 (b % 16 * 4) (61 ∷ []) (omega arith)
        ∙ ap (byte_before ((a % 4 * 16 + b / 16) % 16 * 16 + b % 16 * 4 / 4))
            (at_end_three (b % 16 * 4 % 4)))
    ∙ ground arith
urlsafe_b64decode-encode (a ∷ b ∷ c ∷ rest) left pads (ha, (hb, (hc, h))) =
    let ends = encode rest ++ padding (encode rest) in
    ap (λ p. urlsafe_b64decode 0 left pads (encode (a ∷ b ∷ c ∷ rest) ++ p))
      (padding_four (letter (a / 4)) (letter (a % 4 * 16 + b / 16)) (letter (b % 16 * 4 + c / 64))
        (letter (c % 64)) (encode rest))
    ∙ one_byte left pads (a / 4) (a % 4 * 16 + b / 16)
        (letter (b % 16 * 4 + c / 64) ∷ letter (c % 64) ∷ ends) (omega arith) (omega arith)
    ∙ ap (byte_before (a / 4 * 4 + (a % 4 * 16 + b / 16) / 16)) (
        take_letter 2 ((a % 4 * 16 + b / 16) % 16) 0 (b % 16 * 4 + c / 64) (letter (c % 64) ∷ ends)
          (omega arith)
        ∙ ap (byte_before ((a % 4 * 16 + b / 16) % 16 * 16 + (b % 16 * 4 + c / 64) / 4)) (
            take_letter 3 ((b % 16 * 4 + c / 64) % 4) 0 (c % 64) ends (omega arith)
            ∙ ap (byte_before ((b % 16 * 4 + c / 64) % 4 * 64 + c % 64))
                (urlsafe_b64decode-encode rest 0 0 h)))
    ∙ ground arith

letter_ascii : (v : ℕ) → v < 64 → ltb (letter v) 128 ≡ true
unfolding letter
letter_ascii v h = ground arith

encode_ascii :
    (bytes : List ℕ) → All (λ b. b < 256) bytes → all (λ c. ltb c 128) (encode bytes) ≡ true
unfolding encode
encode_ascii [] h = refl
encode_ascii (a ∷ []) (ha, _) =
    rw (letter_ascii (a / 4) (omega arith), letter_ascii (a % 4 * 16) (omega arith)) refl
encode_ascii (a ∷ b ∷ []) (ha, (hb, _)) =
    rw
      (
        letter_ascii (a / 4) (omega arith),
        letter_ascii (a % 4 * 16 + b / 16) (omega arith),
        letter_ascii (b % 16 * 4) (omega arith),
      )
      refl
encode_ascii (a ∷ b ∷ c ∷ rest) (ha, (hb, (hc, h))) =
    rw
      (
        letter_ascii (a / 4) (omega arith),
        letter_ascii (a % 4 * 16 + b / 16) (omega arith),
        letter_ascii (b % 16 * 4 + c / 64) (omega arith),
        letter_ascii (c % 64) (omega arith),
      )
      (encode_ascii rest h)

feed_ascii : (b : ℕ) → b < 128 → feed clean b ≡ some clean
unfolding feed
feed_ascii b h = ground arith

-- ASCII is UTF-8.
decode_utf8_ascii :
    (bytes : List ℕ) → All (λ b. b < 128) bytes → decode_utf8 clean bytes ≡ some clean
unfolding decode_utf8
decode_utf8_ascii [] h = refl
decode_utf8_ascii (b ∷ l) (hb, h) = rw (feed_ascii b hb, decode_utf8) (decode_utf8_ascii l h)

abbrev pub is_hex : ℕ → Bool
is_hex c = leb 48 c && leb c 57 || leb 97 c && leb c 102

split_colon_lem :
    (scope position : List ℕ)
    → All (λ c. is_hex c ≡ true) scope
    → split_colon (scope ++ 58 ∷ position) ≡ some (scope, position)
unfolding split_colon
split_colon_lem [] position h = refl
split_colon_lem (c ∷ scope) position (hc, h) =
    let plain : (c == 58) ≡ false = ground arith in
    rw (plain, split_colon_lem scope position h) refl

module _ (cursor_scope : Question → List ℕ)
    (hex : (q : Question) → All (λ c. is_hex c ≡ true) (cursor_scope q)) where
  raw_ascii : (q : Question) (n : ℕ) → All (λ b. b < 128) (cursor_scope q ++ 58 ∷ decimal n)
  raw_ascii q n =
      All-append (λ b. b < 128) (cursor_scope q) (58 ∷ decimal n)
        (All-mono (λ b (h : is_hex b ≡ true). ground arith) (cursor_scope q) (hex q))
        (omega arith, digits_ascii (suc n) n [] tt)

  -- The offset that is encoded for a question is read again for the question.
  pub read_offset-encode_search_cursor :
      (q : Question) (n : ℕ)
      → n ≤ max_ranked_candidates
      → read_offset cursor_scope q (encode_search_cursor cursor_scope q n) ≡ ok n
  unfolding read_offset encode_search_cursor
  read_offset-encode_search_cursor q n small =
      let raw = cursor_scope q ++ 58 ∷ decimal n in
      let bytes : All (λ b. b < 256) raw =
        All-mono (λ b (h : b < 128). omega arith) raw (raw_ascii q n) in
      let within : leb n 1000 ≡ true = ground arith in
      rw (encode_ascii raw bytes) (
        rw (urlsafe_b64decode-encode raw 0 0 bytes) (
          rw (decode_utf8_ascii raw (raw_ascii q n)) (
            rw (split_colon_lem (cursor_scope q) (decimal n) (hex q)) (
              rw
                (
                  read_int-decimal n,
                  same_codes_refl (cursor_scope q),
                  within,
                  same_codes_refl (encode raw),
                )
                refl))))
