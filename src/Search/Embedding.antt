-- ===== src/Search/Embedding.antt =====
-- embedding_values in modules/search/indexing.py: what is accepted as an embedding. A number of the
-- response is its text, with whether it is finite and whether it is zero.
use bbd_os.Prelude.{
  ℕ, String, Option, none, some, Bool, true, List, [], ◌∷◌, ◌&&◌, not, if◌then◌else◌, ◌==◌, leb,
  str_eq, length, all, any, is_blank, Result, ok, err, value_error, guard, ◌>>=◌, ◌>>◌,
}

pub record Number : Type 0 where
  pub text : String
  pub is_finite : Bool
  pub is_zero : Bool

mutual
  pub data Json : Type 0 where
    null : Json
    boolean : Bool → Json
    number : Number → Json
    text : String → Json
    array : Items → Json
    object : Fields → Json

  pub data Items : Type 0 where
    nil : Items
    cons : Json → Items → Items

  pub data Fields : Type 0 where
    end : Fields
    field : String → Json → Fields → Fields

unfoldable pub get : String → Fields → Option Json
get key end = none
get key (field k v rest) = if str_eq k key then some v else get key rest

abbrev pub max_vector_dimensions : ℕ
max_vector_dimensions = 2000

-- `row["embedding"]` with every value a number.
abbrev pub one_more : Json → Result (List Number) → Result (List Number)
one_more (number n) (ok l) = ok (n ∷ l)
one_more (number n) (err e) = err e
one_more null l = err value_error
one_more (boolean b) l = err value_error
one_more (text t) l = err value_error
one_more (array a) l = err value_error
one_more (object o) l = err value_error

unfoldable pub numbers : Items → Result (List Number)
numbers nil = ok []
numbers (cons v rest) = one_more v (numbers rest)

abbrev pub array_numbers : Option Json → Result (List Number)
array_numbers (some (array items)) = numbers items
array_numbers (some null) = err value_error
array_numbers (some (boolean b)) = err value_error
array_numbers (some (number n)) = err value_error
array_numbers (some (text t)) = err value_error
array_numbers (some (object o)) = err value_error
array_numbers none = err value_error

unfoldable pub row_numbers : Json → Result (List Number)
unfolding get numbers
row_numbers (object fields) = array_numbers (get "embedding" fields)
row_numbers null = err value_error
row_numbers (boolean b) = err value_error
row_numbers (number n) = err value_error
row_numbers (text t) = err value_error
row_numbers (array a) = err value_error

-- The `data` of the response has one row.
unfoldable pub only_row : Option Json → Result (List Number)
unfolding row_numbers
only_row (some (array (cons row nil))) = row_numbers row
only_row (some (array nil)) = err value_error
only_row (some (array (cons row (cons other rest)))) = err value_error
only_row (some null) = err value_error
only_row (some (boolean b)) = err value_error
only_row (some (number n)) = err value_error
only_row (some (text t)) = err value_error
only_row (some (object o)) = err value_error
only_row none = err value_error

-- `response.get("model")`
unfoldable pub returned_model : Option Json → Result (Option String)
returned_model none = ok none
returned_model (some null) = ok none
returned_model (some (text t)) = if is_blank t then err value_error else ok (some t)
returned_model (some (boolean b)) = err value_error
returned_model (some (number n)) = err value_error
returned_model (some (array a)) = err value_error
returned_model (some (object o)) = err value_error

abbrev pub is_expected : Option ℕ → ℕ → Bool
is_expected none n = true
is_expected (some m) n = m == n

unfoldable pub checked_values : List Number → Option ℕ → Result (Unit {0})
checked_values values expected = do
  guard
      (leb 1 (length values)
        && leb (length values) max_vector_dimensions
        && is_expected expected (length values))
      value_error
  guard (all (λ n. n.is_finite) values) value_error
  guard (any (λ n. not n.is_zero) values) value_error

unfoldable pub embedding_values : Json → Option ℕ → Result (List Number × Option String)
unfolding only_row returned_model checked_values get
embedding_values (object fields) expected = do
  values ← only_row (get "data" fields)
  model ← returned_model (get "model" fields)
  done ← checked_values values expected
  ok (values, model)
embedding_values null expected = err value_error
embedding_values (boolean b) expected = err value_error
embedding_values (number n) expected = err value_error
embedding_values (text t) expected = err value_error
embedding_values (array a) expected = err value_error
