-- ===== src/Paging/Stamps.antt =====
-- core/pagination.py, and the lists that are ordered by the time of a row's creation and its identifier,
-- the last one first. The text of a cursor is the base64 of the JSON list of the two; how json, datetime
-- and UUID write and read that list is a parameter.
use bbd_os.Prelude.{
  ℕ, zero, suc, ◌≤◌, ◌<◌, ◌≡◌, ◌⊎◌, refl, inl, inr, arith, Option, none, some, Bool, Bool-cases,
  true, false, List, [], ◌∷◌, ◌&&◌, ◌||◌, ◌==◌, ltb, length, All, All-mono, Result, ok, err, ◌>>=◌,
}
use bbd_os.Paging.{sort, select_where, map_option, page}
use bbd_os.Paging.Order.{IsOrder, IsOrdered, IsDistinct, sort-IsOrdered, length-sort}
use bbd_os.Paging.Walk.{walk, walk-rows}
use bbd_os.Paging.Base64.{encode, decode, decode-encode}
use bbd_os.Paging.Cursors.{invalid_cursor}

-- The text of a time and an identifier, as bytes, and what is read from bytes: an error where they are not
-- the JSON list of a time with a time zone and a UUID.
pub record StampText : Type 0 where
  pub write : ℕ × ℕ → List ℕ
  pub read : List ℕ → Result (ℕ × ℕ)

-- What is written is bytes, and is read back.
pub record IsStampText (t : StampText) : Type 0 where
  pub bytes : (stamp : ℕ × ℕ) → All (λ b. b < 256) (t.write stamp)
  pub read_back : (stamp : ℕ × ℕ) → t.read (t.write stamp) ≡ ok stamp

unfoldable pub encode_cursor : StampText → ℕ × ℕ → List ℕ
encode_cursor t stamp = encode (t.write stamp)

-- Every error is answered alike.
abbrev pub answered {ℓ} : {A : Type ℓ} → Result A → Result A
answered (err e) = invalid_cursor
answered (ok x) = ok x

unfoldable pub decode_cursor : StampText → List ℕ → Result (ℕ × ℕ)
decode_cursor t cursor = answered (decode cursor >>= t.read)

pub decode_cursor-encode_cursor :
    (t : StampText) (stamp : ℕ × ℕ)
    → IsStampText t
    → decode_cursor t (encode_cursor t stamp) ≡ ok stamp
unfolding decode_cursor encode_cursor
decode_cursor-encode_cursor t stamp is_text =
    let whole = decode-encode (t.write stamp) (is_text.bytes stamp) in
    rw whole (rw (is_text.read_back stamp) refl)

abbrev pub read_stamp : StampText → Option (List ℕ) → Result (Option (ℕ × ℕ))
read_stamp t none = ok none
read_stamp t (some cursor) = decode_cursor t cursor >>= λ stamp. ok (some stamp)

module _ {ℓ} {A : Type ℓ} (created_at id : A → ℕ) where
  abbrev pub stamp_of : A → ℕ × ℕ
  stamp_of x = (created_at x, id x)

  -- `tuple_(created_at, id) < (timestamp, identifier)`
  abbrev pub before : ℕ × ℕ → A → Bool
  before stamp x = ltb (created_at x) stamp.0 || created_at x == stamp.0 && ltb (id x) stamp.1

  -- `order_by(desc(created_at), desc(id))`
  unfoldable pub newest_first : List A → List A
  unfolding sort
  newest_first rows = sort stamp_of before rows

  unfoldable pub list_rows :
      StampText → List A → ℕ → Option (List ℕ) → Result (List A × Option (List ℕ))
  unfolding page newest_first
  list_rows t rows limit cursor = do
    stamp ← read_stamp t cursor
    let p = page stamp_of before limit stamp (newest_first rows)
    ok (p.0, map_option (encode_cursor t) p.1)

  pub before-IsOrder : IsOrder stamp_of before
  before-IsOrder = record { irrefl = λ x. ground arith; trans = λ x y z h k. ground arith }

  -- Any two rows have different identifiers.
  abbrev pub HasKeys : List A → Type ℓ
  HasKeys [] = Unit
  HasKeys (x ∷ l) = All (λ y. (id x == id y) ≡ false) l × HasKeys l

  apart :
      (x y : A)
      → (id x == id y) ≡ false
      → (before (stamp_of x) y ≡ true) ⊎ (before (stamp_of y) x ≡ true)
  apart x y h = elim (Bool-cases (before (stamp_of x) y)) [
    | inl below ↦ inl below
    | inr above ↦ inr (ground arith)
  ]

  HasKeys-IsDistinct :
      (rows : List A) → HasKeys rows → IsDistinct stamp_of before before-IsOrder rows
  HasKeys-IsDistinct [] h = tt
  HasKeys-IsDistinct (x ∷ l) h = (All-mono (apart x) l h.0, HasKeys-IsDistinct l h.1)

  All-select_where :
      (P : A → Type 0) (p : A → Bool) (l : List A) → All P l → All P (select_where p l)
  unfolding select_where
  All-select_where P p [] h = tt
  All-select_where P p (x ∷ l) h = elim (Bool-cases (p x)) [
    | inl kept ↦ rw kept (h.0, All-select_where P p l h.1)
    | inr dropped ↦ rw dropped (All-select_where P p l h.1)
  ]

  pub HasKeys-select_where : (p : A → Bool) (l : List A) → HasKeys l → HasKeys (select_where p l)
  unfolding select_where
  HasKeys-select_where p [] h = tt
  HasKeys-select_where p (x ∷ l) h = elim (Bool-cases (p x)) [
    | inl kept ↦
        rw kept
          (All-select_where (λ y. (id x == id y) ≡ false) p l h.0, HasKeys-select_where p l h.1)
    | inr dropped ↦ rw dropped (HasKeys-select_where p l h.1)
  ]

  length-newest_first : (l : List A) → length (newest_first l) ≡ length l
  unfolding newest_first
  length-newest_first l = length-sort stamp_of before l

  module _ (t : StampText) (is_text : IsStampText t) (rows : List A) (keys : HasKeys rows) where
    newest_first-IsOrdered : IsOrdered stamp_of before before-IsOrder (newest_first rows)
    unfolding newest_first
    newest_first-IsOrdered =
        sort-IsOrdered stamp_of before before-IsOrder rows (HasKeys-IsDistinct rows keys)

    later_page :
        (limit : ℕ) (x : A)
        → list_rows t rows limit (some (encode_cursor t (stamp_of x)))
          ≡ ok (
              let p = page stamp_of before limit (some (stamp_of x)) (newest_first rows) in
              (p.0, map_option (encode_cursor t) p.1))
    unfolding list_rows
    later_page limit x = rw (decode_cursor-encode_cursor t (stamp_of x) is_text) refl

    -- All pages together are the rows, the newest first.
    pub walk-list_rows :
        (limit fuel : ℕ)
        → 1 ≤ limit
        → length rows < fuel
        → walk fuel (list_rows t rows limit) none ≡ ok (newest_first rows)
    unfolding list_rows
    walk-list_rows zero fuel some_rows enough = absurd (omega arith)
    walk-list_rows (suc n) fuel some_rows enough =
        walk-rows stamp_of before before-IsOrder (encode_cursor t) n (newest_first rows)
          newest_first-IsOrdered (list_rows t rows (suc n))
          (λ front x after split. later_page (suc n) x) fuel
          (omega (arith, length-newest_first rows)) refl
